-- ===== src/Web/Collapse.antt =====
-- `collapseUnchanged` of apps/web/src/lib/diff-lines.ts.
use mathlib.Core.Path.{subst}
use mathlib.Core.List.{append_assoc}
use nexuspuppet.Base.{
  ℕ, suc, ◌+◌, Bool, true, false, ◌&&◌, List, [], ◌∷◌, leb, if◌then◌else◌, any, All, ◌≡◌, refl,
  arith, ◌++◌,
}
use nexuspuppet.Web.Diff.{LineKind, same, DiffLine}

abbrev is_same : LineKind → Bool
is_same same = true
is_same _ = false

-- The indexes of the lines that have changed.
abbrev changed_at : ℕ → List DiffLine → List ℕ
changed_at index [] = []
changed_at index (line ∷ lines) =
    let rest = changed_at (suc index) lines in if is_same line.kind then rest else index ∷ rest

-- `keep.has(index)`: some change is at most the context away.
unfoldable pub is_near : ℕ → List ℕ → ℕ → Bool
is_near context changes index =
    any (λ c. leb c (index + context) && leb index (c + context)) changes

abbrev near_lines : ℕ → List ℕ → ℕ → List DiffLine → List DiffLine
near_lines context changes index [] = []
near_lines context changes index (line ∷ lines) =
    let rest = near_lines context changes (suc index) lines in
    if is_near context changes index then line ∷ rest else rest

abbrev all_or_near : ℕ → List DiffLine → List ℕ → List DiffLine
all_or_near context lines [] = lines
all_or_near context lines (c ∷ cs) = near_lines context (c ∷ cs) 0 lines

unfoldable pub collapse_unchanged : List DiffLine → ℕ → List DiffLine
unfolding is_near
collapse_unchanged lines context = all_or_near context lines (changed_at 0 lines)

abbrev pub changes_of : List DiffLine → List DiffLine
changes_of [] = []
changes_of (line ∷ lines) =
    let rest = changes_of lines in if is_same line.kind then rest else line ∷ rest

near_self :
    (context : ℕ) (earlier changes : List ℕ)
    → All (λ i. is_near context (earlier ++ changes) i ≡ true) changes
near_self context earlier [] = tt
near_self context earlier (c ∷ cs) = (
  at_itself earlier,
  subst (λ (l : List ℕ). All (λ i. is_near context l i ≡ true) cs)
      (append_assoc earlier (c ∷ []) cs) (near_self context (earlier ++ c ∷ []) cs),
)
  where
    at_itself : (e : List ℕ) → is_near context (e ++ c ∷ cs) c ≡ true
    at_itself [] = unfold is_near in ground arith
    at_itself (x ∷ xs) = joined (at_itself xs)
      where
        joined :
            is_near context (xs ++ c ∷ cs) c ≡ true → is_near context (x ∷ xs ++ c ∷ cs) c ≡ true
        joined h = unfold is_near in ground (arith, h)

changes_of-near_lines :
    (context : ℕ) (changes : List ℕ) (index : ℕ) (lines : List DiffLine)
    → All (λ i. is_near context changes i ≡ true) (changed_at index lines)
    → changes_of (near_lines context changes index lines) ≡ changes_of lines
changes_of-near_lines context changes index [] h = refl
changes_of-near_lines context changes index (line ∷ lines) h =
    ground (arith, changes_of-near_lines context changes (suc index) lines)

-- Nothing that has changed is collapsed away: the lines that are not common to both texts are the
-- same, in the same order, whatever the context.
pub collapse_unchanged_changes :
    (lines : List DiffLine) (context : ℕ)
    → changes_of (collapse_unchanged lines context) ≡ changes_of lines
unfolding collapse_unchanged
collapse_unchanged_changes lines context =
    by_changes (changed_at 0 lines) (near_self context [] (changed_at 0 lines))
      (changes_of-near_lines context (changed_at 0 lines) 0 lines)
  where
    by_changes :
        (cs : List ℕ)
        → All (λ i. is_near context cs i ≡ true) cs
        → (All (λ i. is_near context cs i ≡ true) cs
            → changes_of (near_lines context cs 0 lines) ≡ changes_of lines)
        → changes_of (all_or_near context lines cs) ≡ changes_of lines
    by_changes [] a f = refl
    by_changes (c ∷ cs) a f = f a
