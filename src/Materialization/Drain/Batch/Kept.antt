-- ===== src/Materialization/Drain/Batch/Kept.antt =====
-- That a batch of materializer.service.ts keeps the rows that it does not claim.
use nexuspuppet.Base.{
  ℕ, String, Bool, true, false, not, Option, none, some, List, [], ◌∷◌, ◌≡◌, refl, sym, ◌∙◌, ap,
  arith, str_eq, if◌then◌else◌, Option-cases, inl, inr, keep,
}
use mathlib.Core.Path.{subst}
use nexuspuppet.Value.{Engine}
use nexuspuppet.Materialization.Merge.{EncDocument}
use nexuspuppet.Materialization.Queue.{
  Job, JobTable, find_rows, find_job, upsert, materialize, delete, JobKind,
}
use nexuspuppet.Materialization.Queue.Laws.{find_job-upsert, upserted}
use nexuspuppet.Materialization.Drain.{
  EncFileWriter, RenderedEnc, MaterializationOutcome, MaterializerPacing, DrainResult, World, claim,
  is_claimed, record_failure, retry_of, materialize_node, delete_node, next_cursor,
}
use nexuspuppet.Materialization.Drain.Batch.{
  carry_on, continued, materialize_nodes, materialize_chunk, run_job, run_jobs, settle,
  take_ownership, claimed_totals, drain_locked, run_claimed, run_kind, advance, Turn, one,
  chunk_nodes,
}

-- Every row of the first table is in the second.
abbrev pub Kept : JobTable → JobTable → Type 0
Kept t u = (key : String) (r : Job) → find_job key t ≡ some r → find_job key u ≡ some r

Kept-trans : (t u v : JobTable) → Kept t u → Kept u v → Kept t v
Kept-trans t u v h k key r e = k key r (h key r e)

-- An upsert that changes nothing of a row that is there.
Kept-upsert : (fresh : Job) (t : JobTable) → Kept t (upsert fresh (λ row. row) t)
Kept-upsert fresh t key r e =
    find_job-upsert fresh (λ row. row) t key (λ j. refl) ∙ same (str_eq fresh.dedupe_key key)
  where
    same :
        (b : Bool)
        → (if b
            then some (upserted fresh (λ row. row) (find_job key t) t.next_id)
            else find_job key t)
          ≡ some r
    same true = rw e refl
    same false = e

Kept-carry_on : (now : ℕ) (j : Job) (o : Option String) (t : JobTable) → Kept t (carry_on now j o t)
unfolding carry_on
Kept-carry_on now j none t = λ key r e. e
Kept-carry_on now j (some last) t = Kept-upsert (continued now j last) t

module _ (js : Engine) (writer : EncFileWriter)
    (render : EncDocument js.Num → Option RenderedEnc) where
  open js use {Num}
  open writer use {Files}

  materialize_node-jobs :
      (now : ℕ) (c : String) (w v : World Num Files) (o : MaterializationOutcome Num)
      → materialize_node js writer render now c w ≡ some (o, v)
      → v.jobs ≡ w.jobs
  unfolding materialize_node
  materialize_node-jobs now c w v o h = ground arith

  delete_node-jobs :
      (c : String) (w v : World Num Files) (o : MaterializationOutcome Num)
      → delete_node js writer render c w ≡ some (o, v)
      → v.jobs ≡ w.jobs
  unfolding delete_node
  delete_node-jobs c w v o h = ground arith

  module _ (before : String → String → Bool) (pacing : MaterializerPacing) (max_attempts : ℕ) where
    abbrev pub Turned : Type 0
    Turned = Turn js writer render before pacing max_attempts

    abbrev pub turn_of : ℕ → Job → World Num Files → Turned
    turn_of = run_job js writer render before pacing max_attempts

    abbrev turn_by : ℕ → Job → World Num Files → JobKind → Option String → Turned
    turn_by = run_kind js writer render before pacing max_attempts

    abbrev pub settled : ℕ → String → Job → DrainResult → Turned → DrainResult × World Num Files
    settled = settle js writer render before pacing max_attempts

    abbrev pub ran :
        (Job → ℕ)
        → (Job → String)
        → List Job
        → DrainResult
        → World Num Files
        → DrainResult × World Num Files
    ran = run_jobs js writer render before pacing max_attempts

    abbrev nodes_of : Job → World Num Files → List String
    nodes_of = chunk_nodes js writer render before pacing max_attempts

    abbrev advanced : ℕ → Job → List String → Turned → Turned
    advanced = advance js writer render before pacing max_attempts

    materialize_nodes-jobs :
        (now : ℕ) (cs : List String) (w : World Num Files)
        → (materialize_nodes js writer render before pacing max_attempts now cs w).1.jobs ≡ w.jobs
    unfolding materialize_nodes
    materialize_nodes-jobs now [] w = refl
    materialize_nodes-jobs now (c ∷ cs) w =
        elim (Option-cases (materialize_node js writer render now c w)) [
          | inl e ↦ ground (arith, e)
          | inr (a, e) ↦
              ground
                (arith, e, materialize_nodes-jobs now cs a.1, materialize_node-jobs now c w a.1 a.0)
        ]

    Kept-advance :
        (now : ℕ) (j : Job) (nodes : List String) (w : World Num Files) (t : Turned)
        → t.1.jobs ≡ w.jobs
        → Kept w.jobs (advanced now j nodes t).1.jobs
    Kept-advance now j nodes w (none, v) e = subst (Kept w.jobs) (sym e) (λ key r h. h)
    Kept-advance now j nodes w (some os, v) e =
        subst
          (λ (t : JobTable).
            Kept t (carry_on now j (next_cursor pacing.reconcile_chunk_size nodes) v.jobs))
          e (Kept-carry_on now j (next_cursor pacing.reconcile_chunk_size nodes) v.jobs)

    Kept-one :
        (w : World Num Files) (a : Option (MaterializationOutcome Num × World Num Files))
        → ((o : MaterializationOutcome Num) (v : World Num Files)
            → a ≡ some (o, v)
            → v.jobs ≡ w.jobs)
        → Kept w.jobs (one js writer render before pacing max_attempts w a).1.jobs
    Kept-one w none h = λ key r e. e
    Kept-one w (some (o, v)) h = subst (Kept w.jobs) (sym (h o v refl)) (λ key r e. e)

    -- What a job's turn leaves holds every row that there was.
    Kept-run_kind :
        (now : ℕ) (j : Job) (w : World Num Files) (kind : JobKind) (certname : Option String)
        → Kept w.jobs (turn_by now j w kind certname).1.jobs
    unfolding materialize_chunk
    Kept-run_kind now j w kind none =
        Kept-advance now j (nodes_of j w) w _ (materialize_nodes-jobs now (nodes_of j w) w)
    Kept-run_kind now j w delete (some c) =
        Kept-one w (delete_node js writer render c w) (λ o v. delete_node-jobs c w v o)
    Kept-run_kind now j w materialize (some c) =
        Kept-one w (materialize_node js writer render now c w)
          (λ o v. materialize_node-jobs now c w v o)

    Kept-run_job : (now : ℕ) (j : Job) (w : World Num Files) → Kept w.jobs (turn_of now j w).1.jobs
    unfolding run_job
    Kept-run_job now j w = Kept-run_kind now j w j.kind j.certname

    Kept-settle :
        (now : ℕ) (message : String) (j : Job) (totals : DrainResult) (t : Turned)
        → Kept t.1.jobs (settled now message j totals t).1.jobs
    Kept-settle now message j totals (some os, v) = λ key r e. e
    Kept-settle now message j totals (none, v) =
        unfold record_failure in Kept-upsert (retry_of max_attempts now message j) v.jobs

    pub Kept-run_jobs :
        (clock : Job → ℕ) (thrown : Job → String) (jobs : List Job) (totals : DrainResult)
        (w : World Num Files)
        → Kept w.jobs (ran clock thrown jobs totals w).1.jobs
    unfolding run_jobs
    Kept-run_jobs clock thrown [] totals w = λ key r e. e
    Kept-run_jobs clock thrown (j ∷ rest) totals w =
        let t = turn_of (clock j) j w in
        let s = settled (clock j) (thrown j) j totals t in
        let u = ran clock thrown rest s.0 s.1 in
        Kept-trans w.jobs t.1.jobs u.1.jobs (Kept-run_job (clock j) j w) (
          Kept-trans t.1.jobs s.1.jobs u.1.jobs (Kept-settle (clock j) (thrown j) j totals t)
            (Kept-run_jobs clock thrown rest s.0 s.1))

    find_rows-keep :
        (p : Job → Bool) (key : String) (rows : List Job) (r : Job)
        → find_rows key rows ≡ some r
        → p r ≡ true
        → find_rows key (keep p rows) ≡ some r
    unfolding find_rows
    find_rows-keep p key [] r h q = cc
    find_rows-keep p key (x ∷ xs) r h q = ground (arith, find_rows-keep p key xs r)

    -- A row that is not claimed is in the table after the batch as it was before it.
    pub drain_locked-unclaimed :
        (now : ℕ) (clock : Job → ℕ) (thrown : Job → String) (w : World Num Files) (r : Job)
        → find_job r.dedupe_key w.jobs ≡ some r
        → is_claimed (claim now pacing.batch_size w.jobs.rows) r ≡ false
        → find_job r.dedupe_key
            (drain_locked js writer render before pacing max_attempts now clock thrown w).1.jobs
          ≡ some r
    unfolding drain_locked
    drain_locked-unclaimed now clock thrown w r h q =
        by_claim (claim now pacing.batch_size w.jobs.rows) q
      where
        by_claim :
            (jobs : List Job)
            → is_claimed jobs r ≡ false
            → find_job r.dedupe_key
                (run_claimed js writer render before pacing max_attempts clock thrown jobs w).1.jobs
              ≡ some r
        by_claim [] f = h
        by_claim (j ∷ rest) f =
            Kept-run_jobs clock thrown (j ∷ rest) (claimed_totals (j ∷ rest))
              (take_ownership js writer render before pacing max_attempts (j ∷ rest) w) r.dedupe_key
              r
              (find_rows-keep (λ k. not (is_claimed (j ∷ rest) k)) r.dedupe_key w.jobs.rows r h
                (ap not f))
