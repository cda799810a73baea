-- ===== src/Web/Diff/Optimal.antt =====
-- The table of diff-lines.ts holds the lengths of longest common subsequences, and the walk keeps
-- as many lines as there are in one.
use Prim.Native.Nat.{max}
use mathlib.Core.Logic.{∥∥₁_elim}
use mathlib.Core.List.{Sublist, Sublistᴰ}
use native.Mathlib.Bridge.{le_prop}
use native.Mathlib.Nat.{le_trans}
use nexuspuppet.Base.{
  ℕ, zero, suc, ◌+◌, ◌≤◌, String, true, false, some, List, [], ◌∷◌, ◌≡◌, refl, sym, ap, ◌∙◌, arith,
  eq_iff, str_eq, length,
}
use nexuspuppet.Value.Text.{split_at}
use nexuspuppet.Web.Diff.{
  same, removed, added, DiffLine, cell, row_of, zeros, first_row, table, walk, diff_split,
  diff_lines, added_lines, removed_lines,
}

-- The length of a longest common subsequence.
pub lcs : List String → List String → ℕ
lcs [] ys = 0
lcs (x ∷ xs) [] = 0
lcs (x ∷ xs) (y ∷ ys) = elim (str_eq x y) [
  | true ↦ lcs xs ys + 1
  | false ↦ max (lcs xs (y ∷ ys)) (lcs (x ∷ xs) ys)
]

abbrev lcs_row : List String → List String → List ℕ
lcs_row xs [] = 0 ∷ []
lcs_row xs (y ∷ ys) = lcs xs (y ∷ ys) ∷ lcs_row xs ys

abbrev lcs_table : List String → List String → List (List ℕ)
lcs_table [] bs = lcs_row [] bs ∷ []
lcs_table (x ∷ xs) bs = lcs_row (x ∷ xs) bs ∷ lcs_table xs bs

lcs-nil : (xs : List String) → lcs xs [] ≡ 0
unfolding lcs
lcs-nil [] = refl
lcs-nil (x ∷ xs) = refl

cell-lcs_row : (xs bs : List String) → cell (lcs_row xs bs) 0 ≡ lcs xs bs
cell-lcs_row xs [] = sym (lcs-nil xs)
cell-lcs_row xs (y ∷ ys) = refl

row_of-lcs_row :
    (x : String) (xs bs : List String) → row_of x bs (lcs_row xs bs) ≡ lcs_row (x ∷ xs) bs
unfolding row_of lcs
row_of-lcs_row x xs [] = refl
row_of-lcs_row x xs (y ∷ ys) =
    ground (arith, row_of-lcs_row x xs ys, cell-lcs_row xs ys, cell-lcs_row (x ∷ xs) ys)

zeros-lcs_row : (bs : List String) → zeros bs ≡ lcs_row [] bs
unfolding lcs
zeros-lcs_row [] = refl
zeros-lcs_row (y ∷ ys) = ap (◌∷◌ 0) (zeros-lcs_row ys)

first_row-lcs_table : (xs bs : List String) → first_row (lcs_table xs bs) ≡ lcs_row xs bs
first_row-lcs_table [] bs = refl
first_row-lcs_table (x ∷ xs) bs = refl

table-lcs_table : (xs bs : List String) → table xs bs ≡ lcs_table xs bs
unfolding table
table-lcs_table [] bs = ap (λ r. r ∷ []) (zeros-lcs_row bs)
table-lcs_table (x ∷ xs) bs = rw (table-lcs_table xs bs, first_row-lcs_table, row_of-lcs_row)

-- The lines from column j on.
abbrev from_column : ℕ → List String → List String
from_column zero bs = bs
from_column (suc j) [] = []
from_column (suc j) (y ∷ ys) = from_column j ys

cell-from_column :
    (xs bs : List String) (j : ℕ) → cell (lcs_row xs bs) j ≡ lcs xs (from_column j bs)
cell-from_column xs bs zero = cell-lcs_row xs bs
cell-from_column xs [] (suc j) = sym (lcs-nil xs)
cell-from_column xs (y ∷ ys) (suc j) = cell-from_column xs ys j

next_column :
    (bs : List String) (j : ℕ) (y : String) (ys : List String)
    → from_column j bs ≡ y ∷ ys
    → from_column (suc j) bs ≡ ys
next_column [] zero y ys e = cc
next_column [] (suc j) y ys e = cc
next_column (b ∷ bs) zero y ys e = cc
next_column (b ∷ bs) (suc j) y ys e = next_column bs j y ys e

-- The lines that a diff keeps.
abbrev pub kept : List DiffLine → ℕ
kept [] = 0
kept (l ∷ ls) =
    let rest = kept ls in elim l.kind [ same ↦ suc rest | removed ↦ rest | added ↦ rest ]

kept-added : (ys : List String) → kept (added_lines ys) ≡ 0
kept-added [] = refl
kept-added (y ∷ ys) = kept-added ys

kept-removed : (xs : List String) → kept (removed_lines xs) ≡ 0
kept-removed [] = refl
kept-removed (x ∷ xs) = kept-removed xs

kept-walk :
    (xs ys bs : List String) (j : ℕ)
    → from_column j bs ≡ ys
    → kept (walk xs ys j (lcs_table xs bs)) ≡ lcs xs ys
unfolding walk lcs
kept-walk [] ys bs j e = kept-added ys
kept-walk (x ∷ xs) [] bs j e = kept-removed (x ∷ xs)
kept-walk (x ∷ xs) (y ∷ ys) bs j e = ground (
  arith,
  e,
  next_column bs j y ys e,
  kept-walk xs ys bs (suc j) (next_column bs j y ys e),
  kept-walk xs (y ∷ ys) bs j e,
  kept-walk (x ∷ xs) ys bs (suc j) (next_column bs j y ys e),
  first_row-lcs_table xs bs,
  cell-from_column xs bs j,
  cell-from_column (x ∷ xs) bs (suc j),
)

lcs_symm : (xs ys : List String) → lcs xs ys ≡ lcs ys xs
unfolding lcs
lcs_symm [] ys = sym (lcs-nil ys)
lcs_symm (x ∷ xs) [] = refl
lcs_symm (x ∷ xs) (y ∷ ys) =
    ground
      (arith, eq_iff x y, eq_iff y x, lcs_symm xs ys, lcs_symm xs (y ∷ ys), lcs_symm (x ∷ xs) ys)

-- One more line on the left adds nothing or one, and so does one on the right.
lcs_bounds :
    (xs ys : List String)
    → ((x : String) → lcs xs ys ≤ lcs (x ∷ xs) ys)
      × ((y : String) → lcs xs (y ∷ ys) ≤ lcs xs ys + 1)
unfolding lcs
lcs_bounds [] ys = (λ x. omega arith, λ y. omega arith)
lcs_bounds (x ∷ xs) [] = (λ z. omega arith, λ y. ground (arith, lcs-nil xs, (lcs_bounds xs []).1 y))
lcs_bounds (x ∷ xs) (y ∷ ys) = (
  λ z. ground (arith, (lcs_bounds (x ∷ xs) ys).1 y),
  λ w. ground (arith, (lcs_bounds xs (y ∷ ys)).0 x, (lcs_bounds xs (y ∷ ys)).1 w),
)

lcs-cons_left : (x : String) (xs ys : List String) → lcs xs ys ≤ lcs (x ∷ xs) ys
lcs-cons_left x xs ys = (lcs_bounds xs ys).0 x

lcs-cons_right : (y : String) (xs ys : List String) → lcs xs ys ≤ lcs xs (y ∷ ys)
lcs-cons_right y xs ys = omega (arith, lcs_symm xs ys, lcs_symm xs (y ∷ ys), (lcs_bounds ys xs).0 y)

lcs-cons_same : (x y : String) (xs ys : List String) → x ≡ y → lcs (x ∷ xs) (y ∷ ys) ≡ lcs xs ys + 1
unfolding lcs
lcs-cons_same x y xs ys e = ground (arith, eq_iff x y)

common-le-lcs : {c xs ys : List String} → Sublistᴰ c xs → Sublistᴰ c ys → length c ≤ lcs xs ys
common-le-lcs Sublistᴰ.slnil t = omega arith
common-le-lcs (Sublistᴰ.cons {a = x} {l₂ = xs} s) t =
    le_trans (common-le-lcs s t) (lcs-cons_left x xs _)
common-le-lcs (Sublistᴰ.cons-cons e s) (Sublistᴰ.cons {a = y} {l₂ = ys} t) =
    le_trans (common-le-lcs (Sublistᴰ.cons-cons e s) t) (lcs-cons_right y _ ys)
common-le-lcs (Sublistᴰ.cons-cons {b = x} {l₂ = xs} e s)
      (Sublistᴰ.cons-cons {b = y} {l₂ = ys} f t) =
    omega (arith, common-le-lcs s t, lcs-cons_same x y xs ys (sym e ∙ f))

-- A diff is as small as can be: no sequence of lines that stands in both texts, in order, is longer
-- than what the diff keeps.
pub diff_lines_optimal :
    (before after : String) (d : List DiffLine) (c : List String)
    → diff_lines before after ≡ some d
    → Sublist c (split_at 10 before)
    → Sublist c (split_at 10 after)
    → length c ≤ kept d
unfolding diff_lines
diff_lines_optimal before after d c e s t = ∥∥₁_elim s le_prop λ s'.
    ∥∥₁_elim t le_prop
      λ t'. rw (keeps (split_at 10 before) (split_at 10 after) e) (common-le-lcs s' t')
  where
    keeps : (a b : List String) → diff_split a b ≡ some d → kept d ≡ lcs a b
    keeps a b h = unfold diff_split in ground (arith, table-lcs_table a b, kept-walk a b b 0 refl)
