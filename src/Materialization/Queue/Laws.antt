-- ===== src/Materialization/Queue/Laws.antt =====
-- What materialization.service.ts leaves in the table of jobs.
use nexuspuppet.Base.{
  ℕ, String, true, false, Option, none, some, List, [], ◌∷◌, ◌++◌, ◌≡◌, refl, ◌∙◌, ap, arith,
  eq_iff, str_eq, if◌then◌else◌, Option-cases, Bool-cases, inl, inr, includes,
}
use nexuspuppet.Base.{if_true, eq_refl, ◌⊎◌}
use nexuspuppet.Materialization.Queue.{
  Job, JobTable, new_job, find_rows, find_job, change_rows, upsert, requested, enqueue_node,
  enqueue_nodes, enqueue_full_reconcile, full_reconcile_key, node_key, pending,
}

-- What an upsert leaves under the key of the row that it creates.
abbrev pub upserted : Job → (Job → Job) → Option Job → ℕ → Job
upserted fresh change none id = record fresh { id = id }
upserted fresh change (some j) id = change j

find_rows-append :
    (key : String) (js : List Job) (j : Job)
    → find_rows key (js ++ j ∷ []) ≡ elim (find_rows key js) [
      | none ↦ if str_eq j.dedupe_key key then some j else none
      | some k ↦ some k
    ]
unfolding find_rows
find_rows-append key [] j = refl
find_rows-append key (k ∷ js) j = ground (arith, find_rows-append key js j)

find_rows-key :
    (key : String) (js : List Job) (j : Job) → find_rows key js ≡ some j → j.dedupe_key ≡ key
unfolding find_rows
find_rows-key key [] j h = cc
find_rows-key key (k ∷ js) j h = ground (arith, find_rows-key key js j, eq_iff k.dedupe_key key)

find_rows-change :
    (key other : String) (f : Job → Job) (js : List Job)
    → ((j : Job) → (f j).dedupe_key ≡ j.dedupe_key)
    → find_rows other (change_rows key f js) ≡ (
        if str_eq key other
        then elim (find_rows key js) [ none ↦ none | some j ↦ some (f j) ]
        else find_rows other js)
unfolding find_rows change_rows
find_rows-change key other f [] h = ground arith
find_rows-change key other f (j ∷ js) h = ground (
  arith,
  find_rows-change key other f js h,
  h j,
  eq_iff j.dedupe_key key,
  eq_iff key other,
  eq_iff j.dedupe_key other,
)

-- An upsert changes the row of its key alone: it is the changed one if there was one, and the new
-- one otherwise; every other row stays as it was.
pub find_job-upsert :
    (fresh : Job) (change : Job → Job) (t : JobTable) (key : String)
    → ((j : Job) → (change j).dedupe_key ≡ j.dedupe_key)
    → find_job key (upsert fresh change t) ≡ (
        if str_eq fresh.dedupe_key key
        then some (upserted fresh change (find_job key t) t.next_id)
        else find_job key t)
unfolding upsert
find_job-upsert fresh change t key h = elim (Option-cases (find_rows fresh.dedupe_key t.rows)) [
  | inl e ↦ ground (
    arith,
    e,
    find_rows-append key t.rows (record fresh { id = t.next_id }),
    eq_iff fresh.dedupe_key key,
  )
  | inr (j, e) ↦
      ground (
        arith,
        e,
        find_rows-change fresh.dedupe_key key change t.rows h,
        eq_iff fresh.dedupe_key key,
      )
]

-- A row that waits under a key, to be run from an instant on.
abbrev pub Ready : ℕ → String → String → JobTable → Type 0
Ready now reason key t =
    (j : Job) × (find_job key t ≡ some j)
    × (j.status ≡ pending)
    × (j.next_attempt_at ≡ now)
    × (j.reason ≡ reason)

Ready-upserted :
    (now : ℕ) (reason key : String) (fresh : Job) (o : Option Job) (id : ℕ) (t : JobTable)
    → fresh.status ≡ pending
    → fresh.next_attempt_at ≡ now
    → fresh.reason ≡ reason
    → find_job key t ≡ some (upserted fresh (requested now reason) o id)
    → Ready now reason key t
Ready-upserted now reason key fresh none id t s n r e = (_, e, s, n, r)
Ready-upserted now reason key fresh (some j) id t s n r e = (_, e, refl, refl, refl)

Ready-upsert :
    (now : ℕ) (reason key : String) (fresh : Job) (t : JobTable)
    → fresh.status ≡ pending
    → fresh.next_attempt_at ≡ now
    → fresh.reason ≡ reason
    → (fresh.dedupe_key ≡ key) ⊎ Ready now reason key t
    → Ready now reason key (upsert fresh (requested now reason) t)
Ready-upsert now reason key fresh t s n r before = elim (Bool-cases (str_eq fresh.dedupe_key key)) [
  | inl e ↦
      Ready-upserted now reason key fresh (find_job key t) t.next_id
        (upsert fresh (requested now reason) t) s n r
        (find_job-upsert fresh (requested now reason) t key (λ j. refl)
          ∙ if_true (str_eq fresh.dedupe_key key)
              (some (upserted fresh (requested now reason) (find_job key t) t.next_id))
              (find_job key t) e)
  | inr e ↦ other e before
]
  where
    other :
        str_eq fresh.dedupe_key key ≡ false
        → (fresh.dedupe_key ≡ key) ⊎ Ready now reason key t
        → Ready now reason key (upsert fresh (requested now reason) t)
    other e (inl p) = absurd (ground (arith, e, p, eq_iff fresh.dedupe_key key))
    other e (inr (j, f, p, q, o)) =
        (j, find_job-upsert fresh (requested now reason) t key (λ j. refl) ∙ rw e f, p, q, o)

Ready-enqueue_nodes :
    (now : ℕ) (reason key : String) (certnames : List String) (t : JobTable)
    → Ready now reason key t
    → Ready now reason key (enqueue_nodes now reason certnames t)
unfolding enqueue_nodes enqueue_node
Ready-enqueue_nodes now reason key [] t r = r
Ready-enqueue_nodes now reason key (c ∷ cs) t r = Ready-enqueue_nodes now reason key cs _ (
    Ready-upsert now reason key (new_job now (node_key c) (some c) reason) t refl refl refl (inr r))

-- Every node of a request has a row of its own afterwards that is PENDING, may be run at once and
-- bears the request's reason, whatever rows there were.
pub enqueue_nodes-Ready :
    (now : ℕ) (reason certname : String) (certnames : List String) (t : JobTable)
    → includes certnames certname ≡ true
    → Ready now reason (node_key certname) (enqueue_nodes now reason certnames t)
unfolding enqueue_nodes enqueue_node
enqueue_nodes-Ready now reason certname [] t h = cc
enqueue_nodes-Ready now reason certname (c ∷ cs) t h = elim (Bool-cases (str_eq c certname)) [
  | inl e ↦ Ready-enqueue_nodes now reason (node_key certname) cs _ (
      Ready-upsert now reason (node_key certname) (new_job now (node_key c) (some c) reason) t refl
        refl refl (inl (ap node_key ((eq_iff c certname).0 e))))
  | inr e ↦ enqueue_nodes-Ready now reason certname cs _ (ground (arith, e, h))
]

-- A full reconcile that is requested while one waits part of the way through the nodes is carried
-- on from there: the row keeps its cursor.
pub enqueue_full_reconcile-cursor :
    (now : ℕ) (reason : String) (t : JobTable) (j : Job)
    → find_job full_reconcile_key t ≡ some j
    → find_job full_reconcile_key (enqueue_full_reconcile now reason t)
      ≡ some (record j { status = pending; next_attempt_at = now; reason = reason })
unfolding enqueue_full_reconcile
enqueue_full_reconcile-cursor now reason t j h =
    find_job-upsert (new_job now full_reconcile_key none reason) (requested now reason) t
      full_reconcile_key (λ j. refl)
    ∙ if_true (str_eq full_reconcile_key full_reconcile_key)
        (some (
          upserted (new_job now full_reconcile_key none reason) (requested now reason)
            (find_job full_reconcile_key t) t.next_id))
        (find_job full_reconcile_key t) (eq_refl full_reconcile_key)
    ∙ ap
        (λ (o : Option Job). some (
          upserted (new_job now full_reconcile_key none reason) (requested now reason) o t.next_id))
        h
