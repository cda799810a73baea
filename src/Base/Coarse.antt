-- ===== src/Base/Coarse.antt =====
-- What a sort promises of a coarser comparison: one that the full comparison never goes against.
use mathlib.Core.Path.{◌≡◌}
use mathlib.Core.Bool.{Bool, true, false}
use mathlib.Core.Logic.{inl, inr}
use mathlib.Core.List.{List, [], ◌∷◌}
use native.Mathlib.Omega.{arith}
use nexuspuppet.Base.Tests.{Bool-cases}
use nexuspuppet.Base.Sort.{IsWeakOrder, NotBefore, Pairs, All-place, All-map_of, place, sort}

-- The full comparison goes the same way as the coarser one, wherever that tells two apart.
pub record IsRefinement {ℓ} {A : Type ℓ} (before coarse : A → A → Bool) : Type ℓ where
  pub agrees : (a b : A) → before a b ≡ true → coarse b a ≡ false
  pub decides : (a b : A) → before a b ≡ false → coarse a b ≡ false

module _ {ℓ} {A : Type ℓ} (before coarse : A → A → Bool) (w : IsWeakOrder coarse)
    (r : IsRefinement before coarse) where
  place-Pairs :
      (x : A) (l : List A)
      → Pairs (NotBefore coarse) l
      → Pairs (NotBefore coarse) (place before x l)
  unfolding place
  place-Pairs x [] h = (tt, tt)
  place-Pairs x (y ∷ ys) (hy, h) = elim (Bool-cases (before y x)) [
    | inl e ↦
        rw e (All-place (NotBefore coarse y) before x ys (r.agrees y x e) hy, place-Pairs x ys h)
    | inr e ↦ rw e (
      (r.decides y x e, All-map_of (NotBefore coarse x) (after (r.decides y x e)) ys hy),
      (hy, h),
    )
  ]
    where
      after : coarse y x ≡ false → (b : A) → NotBefore coarse y b → NotBefore coarse x b
      after e b nb = elim (Bool-cases (coarse b x)) [
        | inl t ↦ ground (arith, w.cotrans b y x t nb)
        | inr f ↦ f
      ]

  -- What `sort` returns is in the coarser order too.
  pub sort-Pairs_coarse : (l : List A) → Pairs (NotBefore coarse) (sort before l)
  unfolding sort
  sort-Pairs_coarse [] = tt
  sort-Pairs_coarse (x ∷ xs) = place-Pairs x (sort before xs) (sort-Pairs_coarse xs)
