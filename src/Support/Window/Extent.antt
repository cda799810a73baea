-- ===== src/Support/Window/Extent.antt =====
-- That the extent which `selectWindow` reports of a file is that of its records.
use nexuspuppet.Base.{
  String, false, Option, none, some, List, [], ◌∷◌, ◌≡◌, refl, arith, fold, ◌∙◌, sym, Option-cases,
  inl, inr, All, ◌+◌,
}
use nexuspuppet.Value.{Value}
use nexuspuppet.Value.Text.{split_at, text_before}
use nexuspuppet.Value.Order.{text_before-IsWeakOrder}
use nexuspuppet.Support.Window.{
  TimedLine, WindowSelection, line_timestamp, earlier_of, later_of, add_record, add_line, nothing,
  select_window,
}
use nexuspuppet.Support.Window.Laws.{records}
open text_before-IsWeakOrder use {asym, cotrans}

-- What the loop makes of the times that it meets.
abbrev earliest_from : Option String → List TimedLine → Option String
earliest_from o [] = o
earliest_from o (r ∷ rs) = earliest_from (some (earlier_of o r.ts)) rs

abbrev latest_from : Option String → List TimedLine → Option String
latest_from o [] = o
latest_from o (r ∷ rs) = latest_from (some (later_of o r.ts)) rs

earliest_from-bounds :
    (rs : List TimedLine) (e f : String)
    → earliest_from (some e) rs ≡ some f
    → (text_before e f ≡ false) × All (λ r. text_before r.ts f ≡ false) rs
earliest_from-bounds [] e f h = ground (arith, asym e e)
earliest_from-bounds (r ∷ rs) e f h =
    let (b, a) = earliest_from-bounds rs (earlier_of (some e) r.ts) f h in
    (ground (arith, cotrans e r.ts f, asym r.ts e), (ground (arith, cotrans r.ts e f), a))

latest_from-bounds :
    (rs : List TimedLine) (l f : String)
    → latest_from (some l) rs ≡ some f
    → (text_before f l ≡ false) × All (λ r. text_before f r.ts ≡ false) rs
latest_from-bounds [] l f h = ground (arith, asym l l)
latest_from-bounds (r ∷ rs) l f h =
    let (b, a) = latest_from-bounds rs (later_of (some l) r.ts) f h in
    (ground (arith, cotrans f r.ts l, asym l r.ts), (ground (arith, cotrans f l r.ts), a))

module _ {N : Type 0} (json_parse : String → Option (Value N)) where
  extent-fold :
      (from to : String) (texts : List String) (s : WindowSelection)
      → ((fold (add_line json_parse from to) s texts).earliest_on_disk
          ≡ earliest_from s.earliest_on_disk (records json_parse texts))
        × ((fold (add_line json_parse from to) s texts).latest_on_disk
            ≡ latest_from s.latest_on_disk (records json_parse texts))
  unfolding add_line
  extent-fold from to [] s = (refl, refl)
  extent-fold from to (text ∷ texts) s = elim (Option-cases (line_timestamp json_parse text)) [
    | inl e ↦ ground (
      arith,
      e,
      extent-fold from to texts s,
      extent-fold from to texts (record s { unparseable = s.unparseable + 1 }),
    )
    | inr (ts, e) ↦ ground (
      arith,
      e,
      extent-fold from to texts s,
      extent-fold from to texts (add_record from to s text ts),
    )
  ]

  -- No record of the file, in the window or out of it, is earlier than the earliest time that is
  -- reported, and none is later than the latest.
  pub select_window_extent :
      (content from to earliest latest : String)
      → (select_window json_parse content from to).earliest_on_disk ≡ some earliest
      → (select_window json_parse content from to).latest_on_disk ≡ some latest
      → All (λ r. text_before r.ts earliest ≡ false) (records json_parse (split_at 10 content))
        × All (λ r. text_before latest r.ts ≡ false) (records json_parse (split_at 10 content))
  unfolding select_window
  select_window_extent content from to earliest latest p q =
      let (e, l) = extent-fold from to (split_at 10 content) nothing in
      bounded (records json_parse (split_at 10 content)) (sym e ∙ p) (sym l ∙ q)
    where
      bounded :
          (rs : List TimedLine)
          → earliest_from none rs ≡ some earliest
          → latest_from none rs ≡ some latest
          → All (λ r. text_before r.ts earliest ≡ false) rs
            × All (λ r. text_before latest r.ts ≡ false) rs
      bounded [] h k = (tt, tt)
      bounded (r ∷ rs) h k =
          (earliest_from-bounds rs r.ts earliest h, latest_from-bounds rs r.ts latest k)
