-- ===== src/Classification/Conflicts/Laws.antt =====
-- What the counts and the order of aggregate-conflicts.ts mean.
use mathlib.Core.List.{Permᴰ, append-nil, append_assoc}
use nexuspuppet.Base.{
  ℕ, ◌+◌, String, Bool, true, false, not, ◌&&◌, Option, none, some, List, [], ◌∷◌, ◌++◌, ◌≡◌, ◌⊎◌,
  refl, map, arith, eq_iff, str_eq, ltb, if◌then◌else◌, length, take, any, keep, includes, fold,
  ◌∙◌, ◌≤◌, ◌<◌, ◌==◌, ap, sym, zero, suc, inl, inr,
}
use nexuspuppet.Base.Dict.{Dict, get, put, get-put}
use nexuspuppet.Base.Sort.{NotBefore, IsWeakOrder, Pairs, sort-perm}
use nexuspuppet.Base.Coarse.{IsRefinement, sort-Pairs_coarse}
use nexuspuppet.Value.{Engine}
use nexuspuppet.Materialization.Merge.{ClassificationConflict}
use nexuspuppet.Classification.Conflicts.{
  AggregatedConflict, NodeConflicts, identity, counted, add_conflicts, add_row, by_override, values,
  ranks_before, aggregate_conflicts, max_examples, severity,
}

-- The number of nodes and the examples of a row that may not be there.
abbrev pub count_of : Option AggregatedConflict → ℕ
count_of none = 0
count_of (some a) = a.node_count

abbrev pub examples_of : Option AggregatedConflict → List String
examples_of none = []
examples_of (some a) = a.example_certnames

abbrev more : Bool → ℕ
more true = 1
more false = 0

module _ {N : Type 0} (id : String) where
  -- The node reports the override.
  abbrev pub reports : NodeConflicts N → Bool
  reports row = any (λ c. str_eq (identity c) id) row.conflicts

  count-counted :
      (certname : String) (c : ClassificationConflict N) (o : Option AggregatedConflict)
      → count_of (some (counted certname c o)) ≡ count_of o + 1
  count-counted certname c none = refl
  count-counted certname c (some a) = refl

  -- A node counts once where it reports the override and has not been counted.
  count-add_conflicts :
      (certname : String) (seen : List String) (m : Dict AggregatedConflict)
      (cs : List (ClassificationConflict N))
      → count_of (get (add_conflicts certname seen m cs) id)
        ≡ count_of (get m id)
          + more (not (includes seen id) && any (λ c. str_eq (identity c) id) cs)
  unfolding add_conflicts
  count-add_conflicts certname seen m [] = ground arith
  count-add_conflicts certname seen m (c ∷ cs) = ground (
    arith,
    eq_iff (identity c) id,
    count-add_conflicts certname seen m cs,
    count-add_conflicts certname (identity c ∷ seen)
        (put m (identity c) (counted certname c (get m (identity c)))) cs,
    get-put m (identity c) (counted certname c (get m (identity c))) id,
    count-counted certname c (get m (identity c)),
  )

  count-rows :
      (rows : List (NodeConflicts N)) (m : Dict AggregatedConflict)
      → count_of (get (fold add_row m rows) id) ≡ count_of (get m id) + length (keep reports rows)
  unfolding add_row
  count-rows [] m = omega arith
  count-rows (row ∷ rows) m =
      ground (
        arith,
        count-rows rows (add_row m row),
        count-add_conflicts row.certname [] m row.conflicts,
      )

  -- An override counts the nodes that report it, each of them once however often it reports it.
  pub by_override_count :
      (rows : List (NodeConflicts N))
      → count_of (get (by_override rows) id) ≡ length (keep reports rows)
  unfolding by_override get
  by_override_count rows = ground (arith, count-rows rows [])

abbrev push : String → List String → List String
push certname examples =
    if ltb (length examples) max_examples then examples ++ certname ∷ [] else examples

abbrev push_all : List String → List String → List String
push_all examples [] = examples
push_all examples (certname ∷ certnames) = push_all (push certname examples) certnames

length-add : (xs : List String) (x : String) → length (xs ++ x ∷ []) ≡ length xs + 1
length-add [] x = refl
length-add (y ∷ ys) x = omega (arith, length-add ys x)

take-all : (n : ℕ) (xs ys : List String) → length xs ≡ n → take n (xs ++ ys) ≡ xs
take-all zero [] ys h = refl
take-all zero (x ∷ xs) ys h = absurd (omega arith)
take-all (suc n) [] ys h = absurd (omega arith)
take-all (suc n) (x ∷ xs) ys h = ap (◌∷◌ x) (take-all n xs ys (omega arith))

take-short : (n : ℕ) (xs : List String) → length xs ≤ n → take n xs ≡ xs
take-short zero [] h = refl
take-short (suc n) [] h = refl
take-short zero (x ∷ xs) h = absurd (omega arith)
take-short (suc n) (x ∷ xs) h = ap (◌∷◌ x) (take-short n xs (omega arith))

push-room :
    (c : String) (examples : List String)
    → (length examples < max_examples) × (push c examples ≡ examples ++ c ∷ [])
      ⊎ (max_examples ≤ length examples) × (push c examples ≡ examples)
push-room c examples = ground arith

push_all-take :
    (examples certnames : List String)
    → length examples ≤ max_examples
    → push_all examples certnames ≡ take max_examples (examples ++ certnames)
push_all-take examples [] h = rw (append-nil examples) (sym (take-short max_examples examples h))
push_all-take examples (c ∷ cs) h = elim (push-room c examples) [
  | inl (room, e) ↦ rw e (
      push_all-take (examples ++ c ∷ []) cs (omega (arith, length-add examples c))
      ∙ ap (take max_examples) (append_assoc examples (c ∷ []) cs))
  | inr (full, e) ↦ rw e (
      push_all-take examples cs h
      ∙ take-all max_examples examples cs (omega arith)
      ∙ sym (take-all max_examples examples (c ∷ cs) (omega arith)))
]

module _ {N : Type 0} (id : String) where
  examples-counted :
      (certname : String) (c : ClassificationConflict N) (o : Option AggregatedConflict)
      → examples_of (some (counted certname c o)) ≡ push certname (examples_of o)
  examples-counted certname c none = refl
  examples-counted certname c (some a) = refl

  examples-add_conflicts :
      (certname : String) (seen : List String) (m : Dict AggregatedConflict)
      (cs : List (ClassificationConflict N))
      → examples_of (get (add_conflicts certname seen m cs) id) ≡ (
          if not (includes seen id) && any (λ c. str_eq (identity c) id) cs
          then push certname (examples_of (get m id))
          else examples_of (get m id))
  unfolding add_conflicts
  examples-add_conflicts certname seen m [] = ground arith
  examples-add_conflicts certname seen m (c ∷ cs) = ground (
    arith,
    eq_iff (identity c) id,
    examples-add_conflicts certname seen m cs,
    examples-add_conflicts certname (identity c ∷ seen)
        (put m (identity c) (counted certname c (get m (identity c)))) cs,
    get-put m (identity c) (counted certname c (get m (identity c))) id,
    examples-counted certname c (get m (identity c)),
  )

  examples-rows :
      (rows : List (NodeConflicts N)) (m : Dict AggregatedConflict)
      → examples_of (get (fold add_row m rows) id)
        ≡ push_all (examples_of (get m id)) (map (λ r. r.certname) (keep (reports id) rows))
  unfolding add_row
  examples-rows [] m = refl
  examples-rows (row ∷ rows) m = ground (
    arith,
    examples-rows rows (add_row m row),
    examples-add_conflicts row.certname [] m row.conflicts,
  )

  -- The examples of an override are the first five nodes that report it, in the order of the rows.
  pub by_override_examples :
      (rows : List (NodeConflicts N))
      → examples_of (get (by_override rows) id)
        ≡ take max_examples (map (λ r. r.certname) (keep (reports id) rows))
  unfolding by_override get
  by_override_examples rows = examples-rows rows [] ∙ push_all-take [] _ (omega arith)

-- An environment conflict before any other, and otherwise the one on more nodes.
abbrev pub graver : AggregatedConflict → AggregatedConflict → Bool
graver a b =
    if severity a.kind == severity b.kind
    then ltb b.node_count a.node_count
    else ltb (severity a.kind) (severity b.kind)

graver-IsWeakOrder : IsWeakOrder graver
graver-IsWeakOrder = record { asym = λ a b h. ground arith; cotrans = λ a b c h k. ground arith }

ranks_before-IsRefinement : (js : Engine) → IsRefinement (ranks_before js) graver
ranks_before-IsRefinement js = record {
  agrees = λ a b h. unfold ranks_before in ground arith;
  decides = λ a b h. unfold ranks_before in ground arith;
}

-- The report has one row for each override and nothing else, and whatever collation does, no row
-- stands behind one that is less grave: environment conflicts lead, then those on more nodes.
pub aggregate_conflicts_sorted :
    {N : Type 0} (js : Engine) (rows : List (NodeConflicts N))
    → Permᴰ (aggregate_conflicts js rows) (values (by_override rows))
      × Pairs (NotBefore graver) (aggregate_conflicts js rows)
unfolding aggregate_conflicts
aggregate_conflicts_sorted js rows = (
  sort-perm (ranks_before js) (values (by_override rows)),
  sort-Pairs_coarse (ranks_before js) graver graver-IsWeakOrder (ranks_before-IsRefinement js)
      (values (by_override rows)),
)
