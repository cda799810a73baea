-- ===== src/Materialization/Drain/Batch.antt =====
-- The batches of materializer.service.ts: a chunk of a full reconcile, the turn of a job, one
-- locked batch and the drain that repeats it.
pub mod Kept
pub mod Failures
use nexuspuppet.Base.{
  ℕ, ◌+◌, String, Bool, true, false, Option, none, some, List, [], ◌∷◌, ltb, leb, ◌==◌,
  if◌then◌else◌, length, not, keep,
}
use nexuspuppet.Base.Dict.{keys}
use nexuspuppet.Value.{Engine}
use nexuspuppet.Materialization.Merge.{EncDocument}
use nexuspuppet.Materialization.Queue.{Job, JobTable, JobKind, materialize, delete, new_job, upsert}
use nexuspuppet.Materialization.Drain.{
  EncFileWriter, RenderedEnc, MaterializationOutcome, MaterializerPacing, DrainResult, World, claim,
  is_claimed, record_failure, count_changed, chunk_of, next_cursor, materialize_node, delete_node,
}

abbrev pub nothing_done : DrainResult
nothing_done = record { claimed = 0; succeeded = 0; failed = 0; files_changed = 0; ran_here = true }

abbrev pub claimed_totals : List Job → DrainResult
claimed_totals jobs = record nothing_done { claimed = length jobs }

-- The row that carries a full reconcile on.
abbrev pub continued : ℕ → Job → String → Job
continued now j last = record (new_job now j.dedupe_key none j.reason) { cursor = some last }

unfoldable pub carry_on : ℕ → Job → Option String → JobTable → JobTable
unfolding upsert
carry_on now j none t = t
carry_on now j (some last) t = upsert (continued now j last) (λ row. row) t

-- What the environment does in one round of the drain: the clock at its head, whether the lock is
-- had, the clock in the batch and at each job's turn, the text of what a job throws, and what
-- others do to the database while the drain pauses.
pub record Round (N : Type 0) (F : Type 0) : Type 0 where
  pub head_now : ℕ
  pub locked : Bool
  pub now : ℕ
  pub clock : Job → ℕ
  pub thrown : Job → String
  pub others : World N F → World N F

module _ (js : Engine) (writer : EncFileWriter) (render : EncDocument js.Num → Option RenderedEnc)
    (before : String → String → Bool) (pacing : MaterializerPacing) (max_attempts : ℕ) where
  open js use {Num}
  open writer use {Files}

  -- What a job's turn gives: the outcomes, or `none` where it throws, and the world it leaves.
  abbrev pub Turn : Type 0
  Turn = Option (List (MaterializationOutcome Num)) × World Num Files

  abbrev first_of : MaterializationOutcome Num → Turn → Turn
  first_of o (none, w) = (none, w)
  first_of o (some os, w) = (some (o ∷ os), w)

  -- The loop over a chunk's nodes; those before the one that throws stay written.
  unfoldable pub materialize_nodes : ℕ → List String → World Num Files → Turn
  unfolding materialize_node
  materialize_nodes now [] w = (some [], w)
  materialize_nodes now (c ∷ cs) w = elim (materialize_node js writer render now c w) [
    | none ↦ (none, w)
    | some (o, v) ↦ first_of o (materialize_nodes now cs v)
  ]

  abbrev pub advance : ℕ → Job → List String → Turn → Turn
  advance now j nodes (none, w) = (none, w)
  advance now j nodes (some os, w) = (
    some os,
    record w { jobs = carry_on now j (next_cursor pacing.reconcile_chunk_size nodes) w.jobs },
  )

  abbrev pub chunk_nodes : Job → World Num Files → List String
  chunk_nodes j w = chunk_of before pacing.reconcile_chunk_size j.cursor (keys w.managed_nodes)

  unfoldable pub materialize_chunk : ℕ → Job → World Num Files → Turn
  unfolding materialize_nodes chunk_of
  materialize_chunk now j w =
      let nodes = chunk_nodes j w in advance now j nodes (materialize_nodes now nodes w)

  abbrev one : World Num Files → Option (MaterializationOutcome Num × World Num Files) → Turn
  one w none = (none, w)
  one w (some (o, v)) = (some (o ∷ []), v)

  abbrev pub run_kind : ℕ → Job → World Num Files → JobKind → Option String → Turn
  run_kind now j w kind none = materialize_chunk now j w
  run_kind now j w delete (some c) = one w (delete_node js writer render c w)
  run_kind now j w materialize (some c) = one w (materialize_node js writer render now c w)

  -- The body of the `try`.
  unfoldable pub run_job : ℕ → Job → World Num Files → Turn
  unfolding materialize_chunk delete_node
  run_job now j w = run_kind now j w j.kind j.certname

  abbrev settle : ℕ → String → Job → DrainResult → Turn → DrainResult × World Num Files
  settle now message j totals (some os, w) = (
    record totals {
      succeeded = totals.succeeded + 1;
      files_changed = totals.files_changed + count_changed os;
    },
    w,
  )
  settle now message j totals (none, w) = (
    record totals { failed = totals.failed + 1 },
    record w { jobs = record_failure max_attempts now message j w.jobs },
  )

  -- The loop over the claimed jobs.
  unfoldable pub run_jobs :
      (Job → ℕ)
      → (Job → String)
      → List Job
      → DrainResult
      → World Num Files
      → DrainResult × World Num Files
  unfolding run_job
  run_jobs clock thrown [] totals w = (totals, w)
  run_jobs clock thrown (j ∷ rest) totals w =
      let (next, v) = settle (clock j) (thrown j) j totals (run_job (clock j) j w) in
      run_jobs clock thrown rest next v

  abbrev pub take_ownership : List Job → World Num Files → World Num Files
  take_ownership claimed w = record w {
    jobs = record (w.jobs) { rows = keep (λ j. not (is_claimed claimed j)) w.jobs.rows };
  }

  abbrev run_claimed :
      (Job → ℕ) → (Job → String) → List Job → World Num Files → DrainResult × World Num Files
  run_claimed clock thrown [] w = (nothing_done, w)
  run_claimed clock thrown (j ∷ rest) w =
      run_jobs clock thrown (j ∷ rest) (claimed_totals (j ∷ rest)) (take_ownership (j ∷ rest) w)

  -- `drainLocked`, which reads the clock for the query and at each job's turn.
  unfoldable pub drain_locked :
      ℕ → (Job → ℕ) → (Job → String) → World Num Files → DrainResult × World Num Files
  unfolding claim run_jobs
  drain_locked now clock thrown w =
      run_claimed clock thrown (claim now pacing.batch_size w.jobs.rows) w

  abbrev add_batch : DrainResult → DrainResult → DrainResult
  add_batch totals batch = record {
    claimed = totals.claimed + batch.claimed;
    succeeded = totals.succeeded + batch.succeeded;
    failed = totals.failed + batch.failed;
    files_changed = totals.files_changed + batch.files_changed;
    ran_here = true;
  }

  -- The rounds of `drain`: each stops at the deadline, without the lock, or on an empty batch.
  unfoldable pub drain_rounds :
      ℕ → List (Round Num Files) → DrainResult → World Num Files → DrainResult × World Num Files
  unfolding drain_locked
  drain_rounds deadline [] totals w = (totals, w)
  drain_rounds deadline (r ∷ rounds) totals w =
      let (batch, v) = drain_locked r.now r.clock r.thrown w in
      let stopped : DrainResult × World Num Files = (add_batch totals batch, v) in
      let rest = drain_rounds deadline rounds (add_batch totals batch) (r.others v) in
      if leb deadline r.head_now
      then (totals, w)
      else if r.locked
      then (if batch.claimed == 0 then stopped else rest)
      else (totals, w)

  unfoldable pub drain :
      ℕ → List (Round Num Files) → World Num Files → DrainResult × World Num Files
  unfolding drain_rounds
  drain now rounds w =
      drain_rounds (now + pacing.max_drain_ms) rounds (record nothing_done { ran_here = false }) w
