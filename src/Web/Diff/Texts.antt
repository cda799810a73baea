-- ===== src/Web/Diff/Texts.antt =====
-- A diff of diff-lines.ts holds both texts: leaving out one kind of line gives either back.
use nexuspuppet.Base.{
  ℕ, suc, String, none, some, List, [], ◌∷◌, ◌≡◌, ◌↔◌, ◌<◌, ◌⊎◌, refl, ap, arith, eq_iff, length,
}
use nexuspuppet.Value.Text.{split_at}
use nexuspuppet.Web.Diff.{
  same, removed, added, DiffLine, max_diff_lines, later_rows, table, walk, diff_split, diff_lines,
  added_lines, removed_lines,
}

-- The lines of the earlier text: those kept and those removed.
abbrev pub before_of : List DiffLine → List String
before_of [] = []
before_of (l ∷ ls) =
    let rest = before_of ls in
    elim l.kind [ same ↦ l.text ∷ rest | removed ↦ l.text ∷ rest | added ↦ rest ]

-- The lines of the later text: those kept and those added.
abbrev pub after_of : List DiffLine → List String
after_of [] = []
after_of (l ∷ ls) =
    let rest = after_of ls in
    elim l.kind [ same ↦ l.text ∷ rest | removed ↦ rest | added ↦ l.text ∷ rest ]

texts_added :
    (ys : List String) → (before_of (added_lines ys) ≡ []) × (after_of (added_lines ys) ≡ ys)
texts_added [] = (refl, refl)
texts_added (y ∷ ys) = let (p, q) = texts_added ys in (p, ap (◌∷◌ y) q)

texts_removed :
    (xs : List String) → (before_of (removed_lines xs) ≡ xs) × (after_of (removed_lines xs) ≡ [])
texts_removed [] = (refl, refl)
texts_removed (x ∷ xs) = let (p, q) = texts_removed xs in (ap (◌∷◌ x) p, q)

pub walk_texts :
    (xs ys : List String) (j : ℕ) (rows : List (List ℕ))
    → (before_of (walk xs ys j rows) ≡ xs) × (after_of (walk xs ys j rows) ≡ ys)
unfolding walk
walk_texts [] ys j rows = texts_added ys
walk_texts (x ∷ xs) [] j rows = texts_removed (x ∷ xs)
walk_texts (x ∷ xs) (y ∷ ys) j rows = ground (
  arith,
  eq_iff x y,
  walk_texts xs ys (suc j) (later_rows rows),
  walk_texts xs (y ∷ ys) j (later_rows rows),
  walk_texts (x ∷ xs) ys (suc j) rows,
)

-- A diff is refused exactly where a text has more than 400 lines.
pub diff_lines_refused :
    (before after : String)
    → (diff_lines before after ≡ none) ↔ (
        (max_diff_lines < length (split_at 10 before))
        ⊎ (max_diff_lines < length (split_at 10 after)))
unfolding diff_lines diff_split
diff_lines_refused before after = by_lines (split_at 10 before) (split_at 10 after)
  where
    by_lines :
        (a b : List String)
        → (diff_split a b ≡ none) ↔ ((max_diff_lines < length a) ⊎ (max_diff_lines < length b))
    by_lines a b = ground arith

-- A diff holds both texts: its lines without the added ones are the earlier text, and without the
-- removed ones the later.
pub diff_lines_texts :
    (before after : String) (d : List DiffLine)
    → diff_lines before after ≡ some d
    → (before_of d ≡ split_at 10 before) × (after_of d ≡ split_at 10 after)
unfolding diff_lines diff_split
diff_lines_texts before after d e = by_lines (split_at 10 before) (split_at 10 after) e
  where
    by_lines : (a b : List String) → diff_split a b ≡ some d → (before_of d ≡ a) × (after_of d ≡ b)
    by_lines a b h = ground (arith, walk_texts a b 0 (table a b))
