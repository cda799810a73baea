-- ===== src/Tests/Diffs.antt =====
-- diff-lines.ts on two short texts.
use mathlib.Core.List.{Sublistᴰ}
use nexuspuppet.Base.{◌≤◌, String, List, [], ◌∷◌, refl, length}
use nexuspuppet.Web.Diff.{DiffLine, same, removed, added, diff_lines}
use nexuspuppet.Web.Diff.Optimal.{kept, diff_lines_optimal}

abbrev earlier : String
earlier = "a\nb\nc"

abbrev later : String
later = "a\nc\nd"

abbrev diff : List DiffLine
diff =
    record { kind = same; text = "a" }
    ∷ record { kind = removed; text = "b" }
    ∷ record { kind = same; text = "c" }
    ∷ record { kind = added; text = "d" }
    ∷ []

abbrev common : List String
common = "a" ∷ "c" ∷ []

diff_lines_optimal_example : length common ≤ kept diff
unfolding diff_lines
diff_lines_optimal_example =
    diff_lines_optimal earlier later diff common refl
      ∣ Sublistᴰ.cons-cons refl (Sublistᴰ.cons (Sublistᴰ.cons-cons refl Sublistᴰ.slnil)) ∣₁
      ∣ Sublistᴰ.cons-cons refl (Sublistᴰ.cons-cons refl (Sublistᴰ.cons Sublistᴰ.slnil)) ∣₁
