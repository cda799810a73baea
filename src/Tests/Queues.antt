-- ===== src/Tests/Queues.antt =====
-- materialization.service.ts and materializer.service.ts on small tables of jobs.
use nexuspuppet.Base.{ℕ, String, Option, none, some, [], ◌∷◌, ◌≡◌, refl}
use nexuspuppet.Base.Dict.{Dict}
use nexuspuppet.Base.Sort.{sort}
use nexuspuppet.Value.{end}
use nexuspuppet.Value.Text.{text_before}
use nexuspuppet.Materialization.Merge.{EncDocument}
use nexuspuppet.Materialization.Queue.{
  Job, JobTable, delete, materialize, pending, new_job, find_job, find_rows, node_key,
  full_reconcile_key, enqueue_nodes, enqueue_full_reconcile,
}
use nexuspuppet.Materialization.Queue.Laws.{
  Ready, enqueue_nodes-Ready, enqueue_full_reconcile-cursor,
}
use nexuspuppet.Materialization.Drain.{
  EncFileWriter, RenderedEnc, World, MaterializerPacing, claim, retry_of, delete_node,
}
use nexuspuppet.Materialization.Drain.Batch.{drain_locked, run_job}
use nexuspuppet.Materialization.Drain.Batch.Failures.{Carried, failed_job_queued, at_turn}
use nexuspuppet.Materialization.Drain.Retry.{run_job-retry}
use nexuspuppet.Samples.{engine, group_set}

-- Files that cannot be written or removed.
abbrev stuck : EncFileWriter
stuck = record {
  Files = Dict String;
  write_node = λ files certname yaml hash. none;
  remove_node = λ files certname. none;
}

abbrev render : EncDocument ℕ → Option RenderedEnc
render d = some (record { yaml = "classes"; content_hash = "1" })

abbrev pacing : MaterializerPacing
pacing = record { batch_size = 5; reconcile_chunk_size = 2; max_drain_ms = 100 }

abbrev purge : Job
purge = record (new_job 1 "delete:web01" (some "web01") "purged") { kind = delete; id = 1 }

abbrev edit : Job
edit = record (new_job 2 "node:db01" (some "db01") "edited") { id = 2 }

abbrev world : World ℕ (Dict String)
world = record {
  jobs = record { rows = purge ∷ edit ∷ []; next_id = 3 };
  managed_nodes = ("db01", end) ∷ [];
  groups = group_set;
  materializations = [];
  files = [];
}

abbrev thrown : Job → String
thrown j = "EACCES"

failed_job_queued_example :
    (row : Job) × (find_job "delete:web01"
        (drain_locked engine stuck render text_before pacing 3 10 (λ j. 10) thrown world).1.jobs
      ≡ some row)
    × Carried 3 10 "EACCES" purge
        (find_job "delete:web01"
          (at_turn engine stuck render text_before pacing 3
            (λ j. 10)
            thrown
            []
            purge
            (edit ∷ [])
            world).1.jobs)
        row
unfolding claim sort run_job delete_node
failed_job_queued_example =
    failed_job_queued engine stuck render text_before pacing 3 10 (λ j. 10) thrown world []
      (edit ∷ []) purge refl refl

-- The job that removes a node's file writes it when it is tried again.
run_job-retry_example :
    run_job engine stuck render text_before pacing 3 20 (retry_of 3 10 "EACCES" purge) world
    ≡ run_job engine stuck render text_before pacing 3 20
        (record purge { kind = materialize; cursor = none })
        world
run_job-retry_example =
    run_job-retry engine stuck render text_before pacing 3 10 20 "EACCES" purge world

enqueue_nodes-Ready_example :
    Ready 5 "edited"
      (node_key "web01")
      (enqueue_nodes 5 "edited" ("db01" ∷ "web01" ∷ []) world.jobs)
enqueue_nodes-Ready_example =
    enqueue_nodes-Ready 5 "edited" "web01" ("db01" ∷ "web01" ∷ []) world.jobs refl

abbrev halfway : Job
halfway = record (new_job 1 "full-reconcile" none "edited") { cursor = some "m01" }

abbrev waiting : JobTable
waiting = record { rows = halfway ∷ []; next_id = 1 }

enqueue_full_reconcile-cursor_example :
    find_job full_reconcile_key (enqueue_full_reconcile 5 "edited again" waiting)
    ≡ some (record halfway { status = pending; next_attempt_at = 5; reason = "edited again" })
unfolding find_rows
enqueue_full_reconcile-cursor_example =
    enqueue_full_reconcile-cursor 5 "edited again" waiting halfway refl
