-- ===== src/Materialization/Queue.antt =====
-- The table of materialization jobs, and apps/api/src/materialization/materialization.service.ts,
-- which puts work into it.
pub mod Laws
use Prim.Native.String
use nexuspuppet.Base.{
  ℕ, ◌+◌, String, Bool, true, false, not, ◌&&◌, ◌||◌, Option, none, some, List, [], ◌∷◌, ◌++◌, map,
  str_eq, ltb, leb, ◌==◌, if◌then◌else◌, keep, includes, fold,
}
use nexuspuppet.Materialization.Rules.{MatchStrategy, pinned, all_rules, any_rule}
use nexuspuppet.Plan.{unique}

pub data JobKind : Type 0 where
  materialize delete : JobKind

pub data MaterializationStatus : Type 0 where
  pending in_progress done failed : MaterializationStatus

-- A row of `EncMaterializationJob`; instants are milliseconds, `id` is what tells rows apart.
pub record Job : Type 0 where
  pub id : ℕ
  pub dedupe_key : String
  pub certname : Option String
  pub kind : JobKind
  pub reason : String
  pub status : MaterializationStatus
  pub attempts : ℕ
  pub last_error : Option String
  pub next_attempt_at : ℕ
  pub cursor : Option String
  pub created_at : ℕ

-- The rows, the earliest inserted first, and the id of the next one.
pub record JobTable : Type 0 where
  pub rows : List Job
  pub next_id : ℕ

-- A row with the defaults of the schema.
abbrev pub new_job : ℕ → String → Option String → String → Job
new_job now key certname reason = record {
  id = 0;
  dedupe_key = key;
  certname = certname;
  kind = materialize;
  reason = reason;
  status = pending;
  attempts = 0;
  last_error = none;
  next_attempt_at = now;
  cursor = none;
  created_at = now;
}

unfoldable pub find_rows : String → List Job → Option Job
find_rows key [] = none
find_rows key (j ∷ js) = if str_eq j.dedupe_key key then some j else find_rows key js

-- The row with a dedupe key.
abbrev pub find_job : String → JobTable → Option Job
find_job key t = find_rows key t.rows

unfoldable pub change_rows : String → (Job → Job) → List Job → List Job
change_rows key f [] = []
change_rows key f (j ∷ js) = if str_eq j.dedupe_key key then f j ∷ js else j ∷ change_rows key f js

abbrev is_found : Option Job → Bool
is_found none = false
is_found (some j) = true

-- `encMaterializationJob.upsert` on the dedupe key, with the row to create and the change of one
-- that is there.
unfoldable pub upsert : Job → (Job → Job) → JobTable → JobTable
unfolding find_rows change_rows
upsert fresh change t =
    if is_found (find_rows fresh.dedupe_key t.rows)
    then record t { rows = change_rows fresh.dedupe_key change t.rows }
    else record { rows = t.rows ++ record fresh { id = t.next_id } ∷ []; next_id = t.next_id + 1 }

-- `update: { status: 'PENDING', nextAttemptAt: new Date(), reason }`
abbrev pub requested : ℕ → String → Job → Job
requested now reason j = record j { status = pending; next_attempt_at = now; reason = reason }

abbrev pub node_key : String → String
node_key certname = String.◌++◌ "node:" certname

abbrev pub delete_key : String → String
delete_key certname = String.◌++◌ "delete:" certname

unfoldable pub enqueue_node : ℕ → String → String → JobTable → JobTable
unfolding upsert
enqueue_node now reason certname =
    upsert (new_job now (node_key certname) (some certname) reason) (requested now reason)

unfoldable pub enqueue_node_deletion : ℕ → String → String → JobTable → JobTable
unfolding upsert
enqueue_node_deletion now reason certname =
    upsert (record (new_job now (delete_key certname) (some certname) reason) { kind = delete })
      (requested now reason)

abbrev pub full_reconcile_key : String
full_reconcile_key = "full-reconcile"

unfoldable pub enqueue_full_reconcile : ℕ → String → JobTable → JobTable
unfolding upsert
enqueue_full_reconcile now reason =
    upsert (new_job now full_reconcile_key none reason) (requested now reason)

unfoldable pub enqueue_nodes : ℕ → String → List String → JobTable → JobTable
unfolding enqueue_node
enqueue_nodes now reason certnames t = fold (λ s c. enqueue_node now reason c s) t certnames

unfoldable pub enqueue_node_deletions : ℕ → String → List String → JobTable → JobTable
unfolding enqueue_node_deletion
enqueue_node_deletions now reason certnames t =
    fold (λ s c. enqueue_node_deletion now reason c s) t certnames

abbrev is_rule_based : Option MatchStrategy → Bool
is_rule_based none = false
is_rule_based (some pinned) = false
is_rule_based (some all_rules) = true
is_rule_based (some any_rule) = true

-- `enqueueForGroup`, given what its queries return: the pins of the group, the nodes whose document
-- it was applied to, and the strategy of its row, if there is one.
unfoldable pub enqueue_for_group :
    ℕ → String → List String → List String → Option MatchStrategy → JobTable → JobTable
unfolding enqueue_full_reconcile enqueue_nodes unique
enqueue_for_group now reason pins materialized strategy t =
    if is_rule_based strategy
    then enqueue_full_reconcile now reason t
    else enqueue_nodes now reason (unique (pins ++ materialized)) t
