-- ===== src/Tests/Sweeps.antt =====
-- reconciler.service.ts and compile-receipts.service.ts on small data.
use nexuspuppet.Base.{
  ℕ, String, none, some, [], ◌∷◌, ◌≡◌, ap, ◌∙◌, refl, str_eq, if_true, eq_refl, if◌then◌else◌,
}
use nexuspuppet.Base.Dict.{Dict, get, get-remove}
use nexuspuppet.Value.{end}
use nexuspuppet.Materialization.Drain.{World}
use nexuspuppet.Materialization.Reconciler.{TreeWriter, remove_listed}
use nexuspuppet.Materialization.Reconciler.Posix.{IsErasing, posix_tree, remove_listed-erased}
use nexuspuppet.Materialization.Storage.{missing, is_safe_certname}
use nexuspuppet.Tests.Memory.{memory, read, memory-IsJoining, memory-IsPosix}
use nexuspuppet.Replication.Receipts.{find_receipt, ingest, parse, truncate}
use nexuspuppet.Replication.Receipts.Laws.{find_receipt-ingest, reported, last_revision}
use nexuspuppet.Samples.{group_set}

memory-IsErasing : IsErasing memory
memory-IsErasing = record {
  erased = λ d p h. ap read (get-remove d p p ∙ if_true (str_eq p p) none (get d p) (eq_refl p));
}

abbrev tree : TreeWriter
tree =
    posix_tree memory (λ s. s) "" (λ d. "0") (λ d. some ("gone01" ∷ "web01" ∷ []))
      (λ revision d. none) (λ d. none)

abbrev world : World ℕ (Dict String)
world = record {
  jobs = record { rows = []; next_id = 0 };
  managed_nodes = ("web01", end) ∷ [];
  groups = group_set;
  materializations = [];
  files = ("gone01.yaml", "a") ∷ ("web01.yaml", "b") ∷ [];
}

abbrev swept : World ℕ (Dict String)
swept = (remove_listed tree ("web01" ∷ []) ("gone01" ∷ "web01" ∷ []) world).1

remove_listed-erased_example :
    (memory.read_file swept.files "gone01.yaml" ≡ missing)
    × (get swept.materializations "gone01" ≡ none)
unfolding is_safe_certname
remove_listed-erased_example =
    remove_listed-erased memory (λ s. s) "" (λ d. "0") (λ d. some ("gone01" ∷ "web01" ∷ []))
      (λ revision d. none) (λ d. none) memory-IsJoining memory-IsPosix memory-IsErasing
      ("web01" ∷ []) ("gone01" ∷ "web01" ∷ []) "gone01" world refl (λ d. refl) refl refl

abbrev body : String
body = "aa web01\nbb web01\n"

find_receipt-ingest_example :
    find_receipt "puppet01" "web01" (ingest 5 "puppet01" ("web01" ∷ []) body []).1 ≡ (
      if str_eq "puppet01" "puppet01"
      then reported 5 "puppet01"
          ("web01" ∷ [])
          "web01"
          (last_revision "web01" none (truncate (parse body).0).0)
          (find_receipt "puppet01" "web01" [])
      else find_receipt "puppet01" "web01" [])
find_receipt-ingest_example =
    find_receipt-ingest 5 "puppet01" ("web01" ∷ []) body [] "puppet01" "web01"
