-- ===== src/Support/Window/Laws.antt =====
-- That `selectWindow` of log-window.ts takes the lines of the window and accounts for the others.
use nexuspuppet.Base.{
  ◌+◌, String, not, ◌&&◌, Option, none, some, List, [], ◌∷◌, ◌++◌, ◌≡◌, refl, arith, str_eq,
  if◌then◌else◌, length, keep, fold, ◌∙◌, Option-cases, inl, inr,
}
use mathlib.Core.List.{append-nil, append_assoc}
use nexuspuppet.Value.{Value}
use nexuspuppet.Value.Text.{split_at, text_before}
use nexuspuppet.Support.Window.{
  TimedLine, WindowSelection, line_timestamp, is_within, add_record, add_line, nothing,
  select_window,
}

module _ {N : Type 0} (json_parse : String → Option (Value N)) where
  abbrev record_at : String → Option String → List TimedLine
  record_at text none = []
  record_at text (some ts) = record { ts = ts; text = text } ∷ []

  -- The records among the lines of a file, each with its time.
  abbrev pub records : List String → List TimedLine
  records [] = []
  records (text ∷ texts) =
      let rest = records texts in
      if str_eq text "" then rest else record_at text (line_timestamp json_parse text) ++ rest

  -- The lines of a file that are not empty.
  abbrev pub written_lines : List String → List String
  written_lines texts = keep (λ t. not (str_eq t "")) texts

  lines-fold :
      (from to : String) (texts : List String) (s : WindowSelection)
      → (fold (add_line json_parse from to) s texts).lines
        ≡ s.lines ++ keep (λ r. is_within from to r.ts) (records texts)
  unfolding add_line
  lines-fold from to [] s = ground (arith, append-nil s.lines)
  lines-fold from to (text ∷ texts) s = elim (Option-cases (line_timestamp json_parse text)) [
    | inl e ↦ ground (
      arith,
      e,
      lines-fold from to texts s,
      lines-fold from to texts (record s { unparseable = s.unparseable + 1 }),
    )
    | inr (ts, e) ↦ ground (
      arith,
      e,
      lines-fold from to texts s,
      lines-fold from to texts (add_record from to s text ts),
      append_assoc s.lines (record { ts = ts; text = text } ∷ [])
          (keep (λ r. is_within from to r.ts) (records texts)),
    )
  ]

  count-fold :
      (from to : String) (texts : List String) (s : WindowSelection)
      → (fold (add_line json_parse from to) s texts).unparseable + length (records texts)
        ≡ s.unparseable + length (written_lines texts)
  unfolding add_line
  count-fold from to [] s = refl
  count-fold from to (text ∷ texts) s = elim (Option-cases (line_timestamp json_parse text)) [
    | inl e ↦ ground (
      arith,
      e,
      count-fold from to texts s,
      count-fold from to texts (record s { unparseable = s.unparseable + 1 }),
    )
    | inr (ts, e) ↦ ground (
      arith,
      e,
      count-fold from to texts s,
      count-fold from to texts (add_record from to s text ts),
    )
  ]

  -- The lines that are selected are the file's records whose time is neither before `from` nor after
  -- `to`, in the file's order, and every line that is not empty is a record or is counted as
  -- unparseable.
  pub select_window_lines :
      (content from to : String)
      → ((select_window json_parse content from to).lines
          ≡ keep
              (λ r. not (text_before r.ts from) && not (text_before to r.ts))
              (records (split_at 10 content)))
        × ((select_window json_parse content from to).unparseable
              + length (records (split_at 10 content))
            ≡ length (written_lines (split_at 10 content)))
  unfolding select_window
  select_window_lines content from to = (
    lines-fold from to (split_at 10 content) nothing,
    count-fold from to (split_at 10 content) nothing ∙ ground arith,
  )
