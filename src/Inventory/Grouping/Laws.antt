-- ===== src/Inventory/Grouping/Laws.antt =====
-- What the buckets of group-resources.ts hold.
use mathlib.Core.List.{append-nil, append_assoc}
use nexuspuppet.Base.{String, List, [], ◌∷◌, ◌++◌, ◌≡◌, sym, arith, eq_iff, str_eq, keep, fold}
use nexuspuppet.Base.Dict.{Dict, get, get-put}
use nexuspuppet.Inventory.Grouping.{ResourceSummary, bucket_of, add_to, bucket_by}

module _ (key : ResourceSummary → String) (k : String) where
  bucket-fold :
      (rs : List ResourceSummary) (m : Dict (List ResourceSummary))
      → bucket_of (get (fold (add_to key) m rs) k)
        ≡ bucket_of (get m k) ++ keep (λ r. str_eq (key r) k) rs
  unfolding add_to
  bucket-fold [] m = sym (append-nil (bucket_of (get m k)))
  bucket-fold (r ∷ rs) m = ground (
    arith,
    eq_iff (key r) k,
    bucket-fold rs (add_to key m r),
    get-put m (key r) (bucket_of (get m (key r)) ++ r ∷ []) k,
    append_assoc (bucket_of (get m k)) (r ∷ []) (keep (λ r. str_eq (key r) k) rs),
  )

  -- The bucket of a key holds the resources that have it, each as often as it is listed and in the
  -- order of the list, and nothing else.
  pub bucket_by-keep :
      (rs : List ResourceSummary)
      → bucket_of (get (bucket_by key rs) k) ≡ keep (λ r. str_eq (key r) k) rs
  unfolding bucket_by get
  bucket_by-keep rs = bucket-fold rs []
