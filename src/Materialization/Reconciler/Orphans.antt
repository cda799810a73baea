-- ===== src/Materialization/Reconciler/Orphans.antt =====
-- Which files and rows the sweep of reconciler.service.ts takes away.
use mathlib.Core.Path.{subst}
use nexuspuppet.Base.{
  ℕ, String, Bool, true, false, Option, none, some, List, [], ◌∷◌, ◌≡◌, ◌≢◌, refl, sym, ◌∙◌, ap,
  arith, str_eq, eq_iff, eq_refl, if◌then◌else◌, includes, Bool-cases, inl, inr,
}
use nexuspuppet.Base.Dict.{get, get-remove}
use nexuspuppet.Materialization.Drain.{World}
use nexuspuppet.Materialization.Reconciler.{TreeWriter, remove_listed, one_removed, plus}

-- What `removeNode` promises: the file of its certname is gone, and every other one is untouched.
pub record IsRemoving (tree : TreeWriter) (present : tree.writer.Files → String → Bool)
    : Type 0 where
  pub gone :
      (files after : tree.writer.Files) (certname other : String)
      → tree.writer.remove_node files certname ≡ some after
      → present after other ≡ (if str_eq certname other then false else present files other)

module _ {N : Type 0} (tree : TreeWriter) (present : tree.writer.Files → String → Bool)
    (removing : IsRemoving tree present) where
  abbrev sweep : List String → List String → World N tree.writer.Files → World N tree.writer.Files
  sweep known listed w = (remove_listed tree known listed w).1

  abbrev removed_one : String → World N tree.writer.Files → World N tree.writer.Files
  removed_one x w = (one_removed tree x w (tree.writer.remove_node w.files x)).1

  abbrev passed :
      List String → List String → World N tree.writer.Files → ℕ × World N tree.writer.Files
  passed known xs w = remove_listed tree known xs w

  abbrev removed :
      List String → List String → String → World N tree.writer.Files → ℕ × World N tree.writer.Files
  removed known xs x w =
      let (n, v) = one_removed tree x w (tree.writer.remove_node w.files x) in
      plus tree n (remove_listed tree known xs v)

  sweep-known :
      (known xs : List String) (x : String) (w : World N tree.writer.Files)
      → includes known x ≡ true
      → sweep known (x ∷ xs) w ≡ sweep known xs w
  unfolding remove_listed
  sweep-known known xs x w e =
      ap (λ (b : Bool). (if b then passed known xs w else removed known xs x w).1) e

  sweep-unknown :
      (known xs : List String) (x : String) (w : World N tree.writer.Files)
      → includes known x ≡ false
      → sweep known (x ∷ xs) w ≡ sweep known xs (removed_one x w)
  unfolding remove_listed
  sweep-unknown known xs x w e =
      ap (λ (b : Bool). (if b then passed known xs w else removed known xs x w).1) e

  -- The file and the row of a certname.
  abbrev Same : String → World N tree.writer.Files → World N tree.writer.Files → Type 0
  Same c v w =
      (present v.files c ≡ present w.files c)
      × (get v.materializations c ≡ get w.materializations c)

  abbrev Gone : String → World N tree.writer.Files → Type 0
  Gone c w = (present w.files c ≡ false) × (get w.materializations c ≡ none)

  one_removed-others :
      (x c : String) (w : World N tree.writer.Files) (a : Option tree.writer.Files)
      → tree.writer.remove_node w.files x ≡ a
      → str_eq x c ≡ false
      → Same c (one_removed tree x w a).1 w
  one_removed-others x c w none e q = (refl, refl)
  one_removed-others x c w (some files) e q =
      (removing.gone w.files files x c e ∙ rw q refl, get-remove w.materializations x c ∙ rw q refl)

  one_removed_self :
      (c : String) (w : World N tree.writer.Files) (files : tree.writer.Files)
      → tree.writer.remove_node w.files c ≡ some files
      → Gone c (one_removed tree c w (some files)).1
  one_removed_self c w files e = (
    removing.gone w.files files c c e ∙ rw (eq_refl c) refl,
    get-remove w.materializations c c ∙ rw (eq_refl c) refl,
  )

  -- The sweep leaves the file and the row of every node that the database knows.
  pub remove_listed-known :
      (known listed : List String) (c : String) (w : World N tree.writer.Files)
      → includes known c ≡ true
      → Same c (sweep known listed w) w
  remove_listed-known known [] c w k = unfold remove_listed in (refl, refl)
  remove_listed-known known (x ∷ xs) c w k = elim (Bool-cases (includes known x)) [
    | inl e ↦
        subst (λ v. Same c v w) (sym (sweep-known known xs x w e))
          (remove_listed-known known xs c w k)
    | inr e ↦
        let v = (one_removed tree x w (tree.writer.remove_node w.files x)).1 in
        let (p, q) = remove_listed-known known xs c v k in
        let (a, b) =
          one_removed-others x c w (tree.writer.remove_node w.files x) refl (differs e) in
        subst (λ u. Same c u w) (sym (sweep-unknown known xs x w e)) (p ∙ a, q ∙ b)
  ]
    where
      differs : includes known x ≡ false → str_eq x c ≡ false
      differs e = elim (Bool-cases (str_eq x c)) [
        | inl q ↦ absurd (ground (arith, e, k, ap (includes known) ((eq_iff x c).0 q)))
        | inr q ↦ q
      ]

  -- What is gone stays gone.
  remove_listed-Gone :
      (known listed : List String) (c : String) (w : World N tree.writer.Files)
      → Gone c w
      → Gone c (sweep known listed w)
  remove_listed-Gone known [] c w g = unfold remove_listed in g
  remove_listed-Gone known (x ∷ xs) c w g = elim (Bool-cases (includes known x)) [
    | inl e ↦ subst (Gone c) (sym (sweep-known known xs x w e)) (remove_listed-Gone known xs c w g)
    | inr e ↦ subst (Gone c) (sym (sweep-unknown known xs x w e)) (
        remove_listed-Gone known xs c (removed_one x w)
          (still (tree.writer.remove_node w.files x) refl))
  ]
    where
      still :
          (a : Option tree.writer.Files)
          → tree.writer.remove_node w.files x ≡ a
          → Gone c (one_removed tree x w a).1
      still none e = g
      still (some files) e = (
        removing.gone w.files files x c e ∙ ground (arith, g.0),
        get-remove w.materializations x c ∙ ground (arith, g.1),
      )

  -- A file that is listed for no node that the database knows is gone after the sweep, with its
  -- row, where files can be removed at all.
  pub remove_listed-orphan :
      (known listed : List String) (c : String) (w : World N tree.writer.Files)
      → ((files : tree.writer.Files) → tree.writer.remove_node files c ≢ none)
      → includes known c ≡ false
      → includes listed c ≡ true
      → Gone c (sweep known listed w)
  remove_listed-orphan known [] c w can k l = cc
  remove_listed-orphan known (x ∷ xs) c w can k l = elim (Bool-cases (str_eq x c)) [
    | inl q ↦
        let s : x ≡ c = (eq_iff x c).0 q in
        let e : includes known x ≡ false = ap (includes known) s ∙ k in
        subst (Gone c) (sym (sweep-unknown known xs x w e)) (
          remove_listed-Gone known xs c (removed_one x w)
            (taken s (tree.writer.remove_node w.files x) refl))
    | inr q ↦
        let l' : includes xs c ≡ true = ground (arith, q, l) in
        elim (Bool-cases (includes known x)) [
          | inl e ↦
              subst (Gone c) (sym (sweep-known known xs x w e))
                (remove_listed-orphan known xs c w can k l')
          | inr e ↦
              subst (Gone c) (sym (sweep-unknown known xs x w e))
                (remove_listed-orphan known xs c (removed_one x w) can k l')
        ]
  ]
    where
      taken :
          x ≡ c
          → (a : Option tree.writer.Files) → tree.writer.remove_node w.files x ≡ a
          → Gone c (one_removed tree x w a).1
      taken s none e = absurd (can w.files (ap (tree.writer.remove_node w.files) (sym s) ∙ e))
      taken s (some files) e =
          subst (λ (y : String). Gone y (one_removed tree x w (some files)).1) s
            (one_removed_self x w files e)
