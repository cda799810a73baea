-- ===== src/Base/Lists.antt =====
-- Lists measured by native numbers, membership tests, and predicates by recursion.
use Prim.Native.Nat.{ℕ, zero, suc, ◌+◌}
use Prim.Native.String.{String}
use mathlib.Core.Path.{◌≡◌, refl}
use mathlib.Core.Logic.{◌↔◌, ◌⊎◌}
use mathlib.Core.Bool.{Bool, true, false, ◌&&◌, ◌||◌}
use mathlib.Core.List.{List, [], ◌∷◌, ◌++◌}
use native.Mathlib.Omega.{arith}
use text.Mathlib.Text.{◌==◌ as str_eq}
use text.Mathlib.TextEquality.{eq_iff}
use nexuspuppet.Base.Tests.{if◌then◌else◌}

module _ {ℓ} {A : Type ℓ} where
  abbrev pub length : List A → ℕ
  length [] = 0
  length (x ∷ xs) = suc (length xs)

  abbrev pub take : ℕ → List A → List A
  take zero xs = []
  take (suc n) [] = []
  take (suc n) (x ∷ xs) = x ∷ take n xs

  abbrev pub every : (A → Bool) → List A → Bool
  every p [] = true
  every p (x ∷ xs) = p x && every p xs

  abbrev pub any : (A → Bool) → List A → Bool
  any p [] = false
  any p (x ∷ xs) = p x || any p xs

  abbrev pub keep : (A → Bool) → List A → List A
  keep p [] = []
  keep p (x ∷ xs) = let rest = keep p xs in if p x then x ∷ rest else rest

  -- `for (const x of xs) s = f(s, x)`
  abbrev pub fold {κ} : {S : Type κ} → (S → A → S) → S → List A → S
  fold f s [] = s
  fold f s (x ∷ xs) = fold f (f s x) xs

  pub length-append : (xs ys : List A) → length (xs ++ ys) ≡ length xs + length ys
  length-append [] ys = omega arith
  length-append (x ∷ xs) ys = omega (arith, length-append xs ys)

pub keep-append {ℓ} :
    {A : Type ℓ} (p : A → Bool) (xs ys : List A) → keep p (xs ++ ys) ≡ keep p xs ++ keep p ys
keep-append p [] ys = refl
keep-append p (x ∷ xs) ys = ground (arith, keep-append p xs ys)

abbrev pub includes : List String → String → Bool
includes [] s = false
includes (x ∷ xs) s = str_eq x s || includes xs s

module _ {ℓ κ} {A : Type ℓ} (P : A → Type κ) where
  abbrev pub All : List A → Type κ
  All [] = Unit
  All (x ∷ xs) = P x × All xs

-- Some element has the property.
abbrev pub Any {ℓ} : {A : Type ℓ} → (A → Type 0) → List A → Type 0
Any P [] = ⊥
Any P (x ∷ xs) = P x ⊎ Any P xs

pub every_iff {ℓ} :
    {A : Type ℓ} (p : A → Bool) (xs : List A) → (every p xs ≡ true) ↔ All (λ x. p x ≡ true) xs
every_iff p [] = (λ _. tt, λ _. refl)
every_iff p (x ∷ xs) = ground (arith, every_iff p xs)

pub any_iff {ℓ} :
    {A : Type ℓ} (p : A → Bool) (xs : List A) → (any p xs ≡ true) ↔ Any (λ x. p x ≡ true) xs
any_iff p [] = (λ e. ground arith, λ h. absurd h)
any_iff p (x ∷ xs) = ground (arith, any_iff p xs)

pub includes_iff : (xs : List String) (s : String) → (includes xs s ≡ true) ↔ Any (λ x. x ≡ s) xs
includes_iff [] s = (λ e. ground arith, λ h. absurd h)
includes_iff (x ∷ xs) s = ground (arith, eq_iff x s, includes_iff xs s)
