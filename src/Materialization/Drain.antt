-- ===== src/Materialization/Drain.antt =====
-- apps/api/src/materialization/materializer.service.ts: the drain that turns queued jobs into files.
pub mod Batch
pub mod Walk
pub mod Idempotent
pub mod Retry
use Prim.Native.String
use Prim.Native.Nat.{min}
use nexuspuppet.Base.{
  ℕ, zero, suc, ◌+◌, ◌-◌, ◌*◌, ◌^◌, String, Bool, true, false, not, ◌&&◌, Option, none, some, List,
  [], ◌∷◌, ◌++◌, map, str_eq, ltb, leb, ◌==◌, if◌then◌else◌, length, take, keep, any,
}
use nexuspuppet.Base.Dict.{Dict, get, put, remove, keys}
use nexuspuppet.Base.Sort.{sort}
use nexuspuppet.Value.{Engine, Fields, end}
use nexuspuppet.Materialization.Rules.{
  EvaluableNode, GroupMatchExplanation, match_groups, explain_match,
}
use nexuspuppet.Materialization.Merge.{
  ClassificationConflict, MergeAttribution, EncDocument, MergeResult, merge_groups,
}
use nexuspuppet.Materialization.Classify.{GroupSet, mergeable_of, classify}
use nexuspuppet.Materialization.Queue.{
  Job, JobTable, JobKind, materialize, delete, MaterializationStatus, pending, failed, new_job,
  upsert,
}

-- What the service uses of `IEncFileWriter`; `none` is a write that threw and left the destination
-- as it was.
pub record EncFileWriter : Type 1 where
  pub Files : Type 0
  pub write_node : Files → String → String → String → Option (Bool × Files)
  pub remove_node : Files → String → Option Files

pub record RenderedEnc : Type 0 where
  pub yaml : String
  pub content_hash : String

-- A row of `EncMaterialization`; the path follows from the certname.
pub record Materialization (N : Type 0) : Type 0 where
  pub content_hash : String
  pub revision : ℕ
  pub applied_group_ids : List String
  pub conflicts : List (ClassificationConflict N)
  pub attribution : MergeAttribution N
  pub match_reasons : List (GroupMatchExplanation N)
  pub written_at : ℕ

pub record MaterializationOutcome (N : Type 0) : Type 0 where
  pub certname : String
  pub changed : Bool
  pub content_hash : String
  pub conflicts : List (ClassificationConflict N)
  pub applied_group_ids : List String

pub record DrainResult : Type 0 where
  pub claimed : ℕ
  pub succeeded : ℕ
  pub failed : ℕ
  pub files_changed : ℕ
  pub ran_here : Bool

pub record MaterializerPacing : Type 0 where
  pub batch_size : ℕ
  pub reconcile_chunk_size : ℕ
  pub max_drain_ms : ℕ

-- The tables that the transaction reads and writes, and the files.
pub record World (N : Type 0) (F : Type 0) : Type 0 where
  pub jobs : JobTable
  pub managed_nodes : Dict (Fields N)
  pub groups : GroupSet N
  pub materializations : Dict (Materialization N)
  pub files : F

abbrev pub facts_of : {N : Type 0} → Option (Fields N) → Fields N
facts_of none = end
facts_of (some facts) = facts

abbrev pub next_revision : {N : Type 0} → Option (Materialization N) → Bool → ℕ
next_revision none changed = 1
next_revision (some m) changed = if changed then m.revision + 1 else m.revision

abbrev pub next_written_at : {N : Type 0} → Option (Materialization N) → Bool → ℕ → ℕ
next_written_at none changed now = now
next_written_at (some m) changed now = if changed then now else m.written_at

-- The order of `createdAt`; rows of one instant stay as they are.
abbrev earlier : Job → Job → Bool
earlier a b = ltb a.created_at b.created_at

abbrev is_pending : MaterializationStatus → Bool
is_pending pending = true
is_pending _ = false

abbrev pub is_eligible : ℕ → Job → Bool
is_eligible now j = is_pending j.status && leb j.next_attempt_at now

unfoldable pub claim : ℕ → ℕ → List Job → List Job
claim now size rows = take size (sort earlier (keep (is_eligible now) rows))

abbrev pub is_claimed : List Job → Job → Bool
is_claimed jobs j = any (λ k. k.id == j.id) jobs

abbrev pub backoff_ms : ℕ → ℕ
backoff_ms attempts = min (2000 * 2 ^ (attempts - 1)) 300000

-- The row that `recordFailure` creates: `kind` and `cursor` are left to their defaults.
unfoldable pub retry_of : ℕ → ℕ → String → Job → Job
retry_of max_attempts now message j = record (new_job now j.dedupe_key j.certname j.reason) {
  attempts = j.attempts + 1;
  last_error = some message;
  status = (if leb max_attempts (j.attempts + 1) then failed else pending);
  next_attempt_at = now + backoff_ms (j.attempts + 1);
}

unfoldable pub record_failure : ℕ → ℕ → String → Job → JobTable → JobTable
unfolding retry_of upsert
record_failure max_attempts now message j t =
    upsert (retry_of max_attempts now message j) (λ row. row) t

abbrev pub last_of : List String → Option String
last_of [] = none
last_of (c ∷ []) = some c
last_of (c ∷ d ∷ cs) = last_of (d ∷ cs)

abbrev count_changed : {N : Type 0} → List (MaterializationOutcome N) → ℕ
count_changed [] = 0
count_changed (o ∷ os) = if o.changed then suc (count_changed os) else count_changed os

-- The nodes of a chunk: those after the cursor, in the order of the database's collation.
unfoldable pub chunk_of : (String → String → Bool) → ℕ → Option String → List String → List String
chunk_of before size none certnames = take size (sort before certnames)
chunk_of before size (some c) certnames = take size (sort before (keep (before c) certnames))

-- Where the next chunk starts, if there might be more.
abbrev pub next_cursor : ℕ → List String → Option String
next_cursor size nodes = if length nodes == size then last_of nodes else none

module _ (js : Engine) (writer : EncFileWriter)
    (render : EncDocument js.Num → Option RenderedEnc) where
  open js use {Num}
  open writer use {Files, write_node, remove_node}

  abbrev record_row :
      ℕ
      → Bool
      → RenderedEnc
      → MergeResult Num
      → List (GroupMatchExplanation Num)
      → Option (Materialization Num)
      → Materialization Num
  record_row now changed rendered merged reasons existing = record {
    content_hash = rendered.content_hash;
    revision = next_revision existing changed;
    applied_group_ids = merged.applied_group_ids;
    conflicts = merged.conflicts;
    attribution = merged.attribution;
    match_reasons = reasons;
    written_at = next_written_at existing changed now;
  }

  -- The upsert of `EncMaterialization`, which only a node with a row in `ManagedNode` has.
  abbrev store_row :
      String
      → Option (Fields Num)
      → Materialization Num
      → Dict (Materialization Num)
      → Dict (Materialization Num)
  store_row certname none row table = table
  store_row certname (some facts) row table = put table certname row

  abbrev written :
      ℕ
      → String
      → MergeResult Num
      → List (GroupMatchExplanation Num)
      → RenderedEnc
      → World Num Files
      → Option (Bool × Files)
      → Option (MaterializationOutcome Num × World Num Files)
  written now certname merged reasons rendered w none = none
  written now certname merged reasons rendered w (some (changed, files)) = some (
    record {
      certname = certname;
      changed = changed;
      content_hash = rendered.content_hash;
      conflicts = merged.conflicts;
      applied_group_ids = merged.applied_group_ids;
    },
    record w {
      files = files;
      materializations =
          store_row certname (get w.managed_nodes certname)
            (record_row now changed rendered merged reasons (get w.materializations certname))
            w.materializations;
    },
  )

  abbrev rendered_as :
      ℕ
      → String
      → MergeResult Num
      → List (GroupMatchExplanation Num)
      → World Num Files
      → Option RenderedEnc
      → Option (MaterializationOutcome Num × World Num Files)
  rendered_as now certname merged reasons w none = none
  rendered_as now certname merged reasons w (some rendered) =
      written now certname merged reasons rendered w
        (write_node w.files certname rendered.yaml rendered.content_hash)

  abbrev pub node_of : String → World Num Files → EvaluableNode Num
  node_of certname w = record {
    certname = certname;
    facts = facts_of (get w.managed_nodes certname);
  }

  -- `none` where rendering or writing throws; nothing has been changed then.
  unfoldable pub materialize_node :
      ℕ → String → World Num Files → Option (MaterializationOutcome Num × World Num Files)
  unfolding classify explain_match match_groups get put
  materialize_node now certname w =
      let node = node_of certname w in
      let merged = classify js node w.groups in
      rendered_as now certname merged
        (map (explain_match js node) (match_groups js node w.groups.evaluable)) w
        (render merged.document)

  abbrev removed :
      String
      → World Num Files
      → Option Files
      → Option (MaterializationOutcome Num × World Num Files)
  removed certname w none = none
  removed certname w (some files) = some (
    record {
      certname = certname;
      changed = true;
      content_hash = "";
      conflicts = [];
      applied_group_ids = [];
    },
    record w { files = files; materializations = remove w.materializations certname },
  )

  unfoldable pub delete_node :
      String → World Num Files → Option (MaterializationOutcome Num × World Num Files)
  unfolding remove
  delete_node certname w = removed certname w (remove_node w.files certname)
