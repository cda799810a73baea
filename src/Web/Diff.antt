-- ===== src/Web/Diff.antt =====
-- apps/web/src/lib/diff-lines.ts: a line diff by a table of longest common subsequences.
pub mod Texts
pub mod Optimal
use Prim.Native.Nat.{max}
use nexuspuppet.Base.{
  ℕ, zero, suc, ◌+◌, String, Bool, true, false, ◌||◌, Option, none, some, List, [], ◌∷◌, str_eq,
  ltb, leb, if◌then◌else◌, length,
}
use nexuspuppet.Value.Text.{split_at}

pub data LineKind : Type 0 where
  same removed added : LineKind

pub record DiffLine : Type 0 where
  pub kind : LineKind
  pub text : String

abbrev pub max_diff_lines : ℕ
max_diff_lines = 400

-- `row[j]`; the loops stay in range, so the default is not met.
abbrev pub cell : List ℕ → ℕ → ℕ
cell [] j = 0
cell (n ∷ row) zero = n
cell (n ∷ row) (suc j) = cell row j

-- The row of the table for `a[i]`, from column j on, with `b[j..]` and the row of `a[i + 1]` from
-- column j on. The last column holds 0.
unfoldable pub row_of : String → List String → List ℕ → List ℕ
row_of x [] next = 0 ∷ []
row_of x (y ∷ ys) [] = 0 ∷ []
row_of x (y ∷ ys) (n ∷ next) =
    let rest = row_of x ys next in
    (if str_eq x y then cell next 0 + 1 else max n (cell rest 0)) ∷ rest

abbrev zeros : List String → List ℕ
zeros [] = 0 ∷ []
zeros (y ∷ ys) = 0 ∷ zeros ys

abbrev pub first_row : List (List ℕ) → List ℕ
first_row [] = []
first_row (row ∷ rows) = row

abbrev pub later_rows : List (List ℕ) → List (List ℕ)
later_rows [] = []
later_rows (row ∷ rows) = rows

-- `lengths`, the rows of `a[i..]`: the loop fills them from the last one up.
unfoldable pub table : List String → List String → List (List ℕ)
unfolding row_of
table [] bs = zeros bs ∷ []
table (x ∷ xs) bs = let rest = table xs bs in row_of x bs (first_row rest) ∷ rest

abbrev removed_lines : List String → List DiffLine
removed_lines [] = []
removed_lines (x ∷ xs) = record { kind = removed; text = x } ∷ removed_lines xs

abbrev added_lines : List String → List DiffLine
added_lines [] = []
added_lines (y ∷ ys) = record { kind = added; text = y } ∷ added_lines ys

-- The walk from row i and column j, with `a[i..]`, `b[j..]` and the rows from i on.
unfoldable pub walk : List String → List String → ℕ → List (List ℕ) → List DiffLine
walk [] ys j rows = added_lines ys
walk (x ∷ xs) [] j rows = removed_lines (x ∷ xs)
walk (x ∷ xs) (y ∷ ys) j rows = elim (str_eq x y) [
  | true ↦ record { kind = same; text = x } ∷ walk xs ys (suc j) (later_rows rows)
  | false ↦ elim (leb (cell (first_row rows) (suc j)) (cell (first_row (later_rows rows)) j)) [
    | true ↦ record { kind = removed; text = x } ∷ walk xs (y ∷ ys) j (later_rows rows)
    | false ↦ record { kind = added; text = y } ∷ walk (x ∷ xs) ys (suc j) rows
  ]
]

unfoldable pub diff_split : List String → List String → Option (List DiffLine)
unfolding table walk
diff_split a b =
    if ltb max_diff_lines (length a) || ltb max_diff_lines (length b)
    then none
    else some (walk a b 0 (table a b))

-- `none` is the null of a value with too many lines.
unfoldable pub diff_lines : String → String → Option (List DiffLine)
unfolding diff_split split_at
diff_lines before after = diff_split (split_at 10 before) (split_at 10 after)
