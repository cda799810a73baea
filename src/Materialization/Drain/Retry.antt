-- ===== src/Materialization/Drain/Retry.antt =====
-- What `recordFailure` of materializer.service.ts makes of a job that fails.
use Prim.Native.Nat.{min}
use Prim.Native.Nat.pow
use native.Mathlib.Nat.{min-eq_left, min-eq_right, min-le_right}
use nexuspuppet.Base.{
  ℕ, suc, ◌+◌, ◌-◌, ◌*◌, ◌^◌, ◌≤◌, String, Bool, Option, none, some, List, [], ◌∷◌, ◌≡◌, refl, sym,
  ◌∙◌, ap, arith, length, leb, if◌then◌else◌,
}
use mathlib.Core.Path.{subst₂}
use nexuspuppet.Base.{Bool-cases, inl, inr, leb→le}
use nexuspuppet.Value.{Engine}
use nexuspuppet.Materialization.Merge.{EncDocument}
use nexuspuppet.Materialization.Queue.{Job, JobTable, materialize, pending, failed}
use nexuspuppet.Materialization.Drain.{
  EncFileWriter, RenderedEnc, MaterializerPacing, World, backoff_ms, retry_of, next_cursor,
}
use nexuspuppet.Materialization.Drain.Batch.{
  run_job, run_kind, materialize_chunk, advance, Turn, carry_on,
}

-- A job after failures at these instants, with these messages, the earliest first.
unfoldable pub retried : ℕ → List (ℕ × String) → Job → Job
unfolding retry_of
retried max_attempts [] j = j
retried max_attempts ((now, message) ∷ es) j =
    retried max_attempts es (retry_of max_attempts now message j)

-- After one failure and any number more, a job has counted them all, keeps its key, certname and
-- reason, and is parked as FAILED exactly when it has had its attempts; before, it is PENDING.
pub retried_parked :
    (max_attempts now : ℕ) (message : String) (es : List (ℕ × String)) (j : Job)
    → let k = retried max_attempts ((now, message) ∷ es) j in
      (k.dedupe_key ≡ j.dedupe_key)
      × (k.certname ≡ j.certname)
      × (k.reason ≡ j.reason)
      × (k.attempts ≡ j.attempts + length ((now, message) ∷ es))
      × (k.status ≡ (if leb max_attempts k.attempts then failed else pending))
unfolding retried
retried_parked max_attempts now message [] j = (refl, refl, refl, refl, refl)
retried_parked max_attempts now message ((later, text) ∷ es) j =
    let (k, c, r, a, s) =
      retried_parked max_attempts later text es (retry_of max_attempts now message j) in
    (k, c, r, a ∙ omega arith, s)

capped : (p q : ℕ) → q ≡ 2 * p → min (2000 * q) 300000 ≡ min (2 * min (2000 * p) 300000) 300000
capped p q e = elim (Bool-cases (leb (2000 * p) 300000)) [
  | inl h ↦
      let b : 2000 * p ≤ 300000 = leb→le _ _ h in
      ap (λ n. min n 300000) (omega (arith, e)) ∙ ap (λ n. min (2 * n) 300000) (sym (min-eq_left b))
  | inr h ↦
      let b : 300000 ≤ 2000 * p = ground (arith, h) in
      min-eq_right (omega (arith, e, b)) ∙ ap (λ n. min (2 * n) 300000) (sym (min-eq_right b))
]

-- The first retry waits two seconds, each later one twice as long as the one before it, and none
-- longer than five minutes.
pub backoff_ms-doubles :
    (n : ℕ)
    → (backoff_ms 1 ≡ 2000)
      × (backoff_ms (suc (suc n)) ≡ min (2 * backoff_ms (suc n)) 300000)
      × (backoff_ms (suc n) ≤ 300000)
backoff_ms-doubles n = (
  refl,
  subst₂ (λ (a b : ℕ). min (2000 * 2 ^ b) 300000 ≡ min (2 * min (2000 * 2 ^ a) 300000) 300000)
      (omega arith) (omega arith) (capped (2 ^ n) (2 ^ suc n) (pow.suc 2 n ∙ omega arith)),
  min-le_right (2000 * 2 ^ (suc n - 1)) 300000,
)

module _ (js : Engine) (writer : EncFileWriter) (render : EncDocument js.Num → Option RenderedEnc)
    (before : String → String → Bool) (pacing : MaterializerPacing) (max_attempts : ℕ) where
  open js use {Num}
  open writer use {Files}

  advance-retry :
      (now later : ℕ) (message : String) (j : Job) (nodes : List String)
      (t : Turn js writer render before pacing max_attempts)
      → advance js writer render before pacing max_attempts later
          (retry_of max_attempts now message j)
          nodes
          t
        ≡ advance js writer render before pacing max_attempts later
            (record j { kind = materialize; cursor = none })
            nodes
            t
  unfolding carry_on retry_of
  advance-retry now later message j nodes (none, w) = refl
  advance-retry now later message j nodes (some os, w) =
      ap (λ (t : JobTable). (some os, record w { jobs = t }))
        (carried (next_cursor pacing.reconcile_chunk_size nodes) w.jobs)
    where
      carried :
          (o : Option String) (t : JobTable)
          → carry_on later (retry_of max_attempts now message j) o t
            ≡ carry_on later (record j { kind = materialize; cursor = none }) o t
      carried none t = refl
      carried (some last) t = refl

  run_kind-retry :
      (now later : ℕ) (message : String) (j : Job) (w : World Num Files) (certname : Option String)
      → run_kind js writer render before pacing max_attempts later
          (retry_of max_attempts now message j)
          w
          materialize
          certname
        ≡ run_kind js writer render before pacing max_attempts later
            (record j { kind = materialize; cursor = none })
            w
            materialize
            certname
  unfolding materialize_chunk retry_of
  run_kind-retry now later message j w none = advance-retry now later message j _ _
  run_kind-retry now later message j w (some c) = refl

  -- The turn of a job that is tried again is that of a MATERIALIZE job from the first node on: what
  -- kind of job failed, and how far it had got, is lost.
  pub run_job-retry :
      (now later : ℕ) (message : String) (j : Job) (w : World Num Files)
      → run_job js writer render before pacing max_attempts later
          (retry_of max_attempts now message j)
          w
        ≡ run_job js writer render before pacing max_attempts later
            (record j { kind = materialize; cursor = none })
            w
  unfolding run_job retry_of
  run_job-retry now later message j w = run_kind-retry now later message j w j.certname
