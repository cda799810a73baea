-- ===== src/Materialization/Drain/Batch/Failures.antt =====
-- That a job of a batch of materializer.service.ts that fails is not lost.
use Prim.Native.Nat.{min}
use nexuspuppet.Base.{
  ℕ, ◌+◌, ◌-◌, ◌*◌, ◌^◌, ap, arith, leb, if◌then◌else◌, String, Bool, Option, none, some, List, [],
  ◌∷◌, ◌++◌, ◌≡◌, refl, ◌∙◌, str_eq,
}
use nexuspuppet.Base.{if_true, eq_refl}
use nexuspuppet.Value.{Engine}
use nexuspuppet.Materialization.Merge.{EncDocument}
use nexuspuppet.Materialization.Queue.{Job, failed, pending, find_job}
use nexuspuppet.Materialization.Queue.Laws.{find_job-upsert, upserted}
use nexuspuppet.Materialization.Drain.{
  EncFileWriter, RenderedEnc, MaterializerPacing, DrainResult, World, claim, record_failure,
  retry_of,
}
use nexuspuppet.Materialization.Drain.Batch.{
  run_jobs, take_ownership, claimed_totals, drain_locked, run_claimed,
}
use nexuspuppet.Materialization.Drain.Batch.Kept.{Turned, turn_of, settled, ran, Kept-run_jobs}

-- What is left under the key of a job that failed, by the row that the key had meanwhile.
abbrev pub Carried : ℕ → ℕ → String → Job → Option Job → Job → Type 0
Carried max_attempts now message j (some meanwhile) row = row ≡ meanwhile
Carried max_attempts now message j none row =
    (row.dedupe_key ≡ j.dedupe_key)
    × (row.certname ≡ j.certname)
    × (row.reason ≡ j.reason)
    × (row.attempts ≡ j.attempts + 1)
    × (row.last_error ≡ some message)
    × (row.status ≡ (if leb max_attempts (j.attempts + 1) then failed else pending))
    × (row.next_attempt_at ≡ now + min (2000 * 2 ^ j.attempts) 300000)

less_one : (n : ℕ) → n + 1 - 1 ≡ n
less_one n = omega arith

Carried-upserted :
    (max_attempts now : ℕ) (message : String) (j : Job) (o : Option Job) (id : ℕ)
    → Carried max_attempts now message j o
        (upserted (retry_of max_attempts now message j) (λ row. row) o id)
unfolding retry_of
Carried-upserted max_attempts now message j (some k) id = refl
Carried-upserted max_attempts now message j none id = (
  refl,
  refl,
  refl,
  refl,
  refl,
  refl,
  ap (λ n. now + min (2000 * 2 ^ n) 300000) (less_one j.attempts),
)

module _ (js : Engine) (writer : EncFileWriter) (render : EncDocument js.Num → Option RenderedEnc)
    (before : String → String → Bool) (pacing : MaterializerPacing) (max_attempts : ℕ) where
  open js use {Num}
  open writer use {Files}

  abbrev Happened : Type 0
  Happened = Turned js writer render before pacing max_attempts

  abbrev taken : ℕ → Job → World Num Files → Happened
  taken = turn_of js writer render before pacing max_attempts

  abbrev closed : ℕ → String → Job → DrainResult → Happened → DrainResult × World Num Files
  closed = settled js writer render before pacing max_attempts

  abbrev batch_of :
      (Job → ℕ)
      → (Job → String)
      → List Job
      → DrainResult
      → World Num Files
      → DrainResult × World Num Files
  batch_of = ran js writer render before pacing max_attempts

  find_job-failure :
      (now : ℕ) (message : String) (j : Job) (totals : DrainResult) (t : Happened)
      → t.0 ≡ none
      → find_job j.dedupe_key (closed now message j totals t).1.jobs
        ≡ some (
            upserted
              (retry_of max_attempts now message j)
              (λ row. row)
              (find_job j.dedupe_key t.1.jobs)
              t.1.jobs.next_id)
  find_job-failure now message j totals (some os, v) e = cc
  find_job-failure now message j totals (none, v) e =
      unfold record_failure in
      find_job-upsert (retry_of max_attempts now message j) (λ row. row) v.jobs j.dedupe_key
        (λ row. refl)
      ∙ if_true (str_eq j.dedupe_key j.dedupe_key) _ _ (eq_refl j.dedupe_key)

  -- What comes of a job that failed at its turn: the row of its key.
  run_jobs-failure :
      (clock : Job → ℕ) (thrown : Job → String) (earlier later : List Job) (j : Job)
      (totals : DrainResult) (w : World Num Files)
      → (taken (clock j) j (batch_of clock thrown earlier totals w).1).0 ≡ none
      → let v = (taken (clock j) j (batch_of clock thrown earlier totals w).1).1.jobs in
        find_job j.dedupe_key (batch_of clock thrown (earlier ++ j ∷ later) totals w).1.jobs
        ≡ some (
            upserted
              (retry_of max_attempts (clock j) (thrown j) j)
              (λ row. row)
              (find_job j.dedupe_key v)
              v.next_id)
  unfolding run_jobs
  run_jobs-failure clock thrown [] later j totals w e =
      let t = taken (clock j) j w in
      let s = closed (clock j) (thrown j) j totals t in
      Kept-run_jobs js writer render before pacing max_attempts clock thrown later s.0 s.1
        j.dedupe_key _ (find_job-failure (clock j) (thrown j) j totals t e)
  run_jobs-failure clock thrown (k ∷ earlier) later j totals w e =
      let s = closed (clock k) (thrown k) k totals (taken (clock k) k w) in
      run_jobs-failure clock thrown earlier later j s.0 s.1 e

  -- The world when the turn of a job of the batch has ended, and what came of it.
  abbrev pub at_turn :
      (Job → ℕ) → (Job → String) → List Job → Job → List Job → World Num Files → Happened
  at_turn clock thrown earlier j later w =
      let jobs = earlier ++ j ∷ later in
      taken (clock j) j
        (batch_of clock thrown earlier (claimed_totals jobs)
          (take_ownership js writer render before pacing max_attempts jobs w)).1

  failed_job_upserted :
      (now : ℕ) (clock : Job → ℕ) (thrown : Job → String) (w : World Num Files)
      (earlier later : List Job) (j : Job)
      → claim now pacing.batch_size w.jobs.rows ≡ earlier ++ j ∷ later
      → (at_turn clock thrown earlier j later w).0 ≡ none
      → let v = (at_turn clock thrown earlier j later w).1.jobs in
        find_job j.dedupe_key
          (drain_locked js writer render before pacing max_attempts now clock thrown w).1.jobs
        ≡ some (
            upserted
              (retry_of max_attempts (clock j) (thrown j) j)
              (λ row. row)
              (find_job j.dedupe_key v)
              v.next_id)
  unfolding drain_locked
  failed_job_upserted now clock thrown w earlier later j c e = rw c (by_first earlier e)
    where
      by_first :
          (earlier : List Job)
          → (at_turn clock thrown earlier j later w).0 ≡ none
          → let v = (at_turn clock thrown earlier j later w).1.jobs in
            find_job j.dedupe_key
              (run_claimed js writer render before pacing max_attempts clock thrown
                (earlier ++ j ∷ later)
                w).1.jobs
            ≡ some (
                upserted
                  (retry_of max_attempts (clock j) (thrown j) j)
                  (λ row. row)
                  (find_job j.dedupe_key v)
                  v.next_id)
      by_first [] e =
          run_jobs-failure clock thrown [] later j (claimed_totals ([] ++ j ∷ later))
            (take_ownership js writer render before pacing max_attempts ([] ++ j ∷ later) w) e
      by_first (k ∷ ks) e =
          run_jobs-failure clock thrown (k ∷ ks) later j (claimed_totals ((k ∷ ks) ++ j ∷ later))
            (take_ownership js writer render before pacing max_attempts ((k ∷ ks) ++ j ∷ later) w) e

  -- A claimed job that fails at its turn is not lost: after the batch, whatever its other jobs did,
  -- its key has a row. Where the key had a row at the end of the turn, it is that row, as it was.
  -- Else it is the job's retry: its key, certname and reason, one attempt more, the error, and
  -- FAILED where the attempts are used up, to be run after two seconds for the first failure, twice
  -- as long for each one more, and at most five minutes.
  pub failed_job_queued :
      (now : ℕ) (clock : Job → ℕ) (thrown : Job → String) (w : World Num Files)
      (earlier later : List Job) (j : Job)
      → claim now pacing.batch_size w.jobs.rows ≡ earlier ++ j ∷ later
      → (at_turn clock thrown earlier j later w).0 ≡ none
      → (row : Job) × (find_job j.dedupe_key
            (drain_locked js writer render before pacing max_attempts now clock thrown w).1.jobs
          ≡ some row)
        × Carried max_attempts
            (clock j)
            (thrown j)
            j
            (find_job j.dedupe_key (at_turn clock thrown earlier j later w).1.jobs)
            row
  failed_job_queued now clock thrown w earlier later j c e =
      let v = (at_turn clock thrown earlier j later w).1.jobs in
      (
        _,
        failed_job_upserted now clock thrown w earlier later j c e,
        Carried-upserted max_attempts (clock j) (thrown j) j (find_job j.dedupe_key v) v.next_id,
      )
