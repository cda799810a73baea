-- ===== src/Support/Window.antt =====
-- `selectWindow` of apps/api/src/support/pure/log-window.ts, with `lineTimestamp` of
-- apps/api/src/logging/pure/log-record.ts.
pub mod Laws
pub mod Extent
use Prim.Native.Char.{code}
use Prim.Native.String.{◌∷◌ as char, [] as empty}
use nexuspuppet.Base.{
  ℕ, zero, suc, ◌+◌, String, Bool, true, false, not, ◌&&◌, Option, none, some, List, [], ◌∷◌, ◌++◌,
  take, str_eq, leb, ◌==◌, if◌then◌else◌, fold,
}
use nexuspuppet.Value.{Engine, Value, str, obj}
use nexuspuppet.Value.Text.{codes, split_at, text_before}
use nexuspuppet.Materialization.Rules.{field_of}

pub record TimedLine : Type 0 where
  pub ts : String
  pub text : String

pub record WindowSelection : Type 0 where
  pub lines : List TimedLine
  pub earliest_on_disk : Option String
  pub latest_on_disk : Option String
  pub unparseable : ℕ

-- `ISO`, as a pattern in which `d` stands for a digit.
abbrev iso_pattern : List ℕ
iso_pattern = codes "dddd-dd-ddTdd:dd:dd.dddZ"

abbrev fits : List ℕ → List ℕ → Bool
fits [] [] = true
fits (p ∷ ps) (c ∷ cs) = (if p == b'd' then leb 48 c && leb c 57 else c == p) && fits ps cs
fits _ _ = false

unfoldable pub is_iso : String → Bool
is_iso s = fits iso_pattern (codes s)

-- `s.slice(0, n)`
abbrev first_chars : ℕ → String → String
first_chars zero s = ""
first_chars (suc n) empty = ""
first_chars (suc n) (char c s) = char c (first_chars n s)

-- What is left of a text after a prefix, if it starts with it.
abbrev after_prefix : List ℕ → String → Option String
after_prefix [] s = some s
after_prefix (p ∷ ps) empty = none
after_prefix (p ∷ ps) (char c s) =
    let rest = after_prefix ps s in if code c == p then rest else none

abbrev ends_with_brace : List ℕ → Bool
ends_with_brace [] = false
ends_with_brace (c ∷ []) = c == b'}'
ends_with_brace (c ∷ d ∷ cs) = ends_with_brace (d ∷ cs)

abbrev iso_text : {N : Type 0} → Option (Value N) → Option String
iso_text (some (str ts)) = if is_iso ts then some ts else none
iso_text _ = none

abbrev ts_of : {N : Type 0} → Option (Value N) → Option String
ts_of (some (obj fields)) = iso_text (field_of fields "ts")
ts_of _ = none

-- `earliestOnDisk === null || ts < earliestOnDisk`
abbrev pub earlier_of : Option String → String → String
earlier_of none ts = ts
earlier_of (some e) ts = if text_before ts e then ts else e

abbrev pub later_of : Option String → String → String
later_of none ts = ts
later_of (some l) ts = if text_before l ts then ts else l

-- `ts >= from && ts <= to`
abbrev pub is_within : String → String → String → Bool
is_within from to ts = not (text_before ts from) && not (text_before to ts)

-- The body of the loop for a line that is a record.
abbrev pub add_record : String → String → WindowSelection → String → String → WindowSelection
add_record from to s text ts = record s {
  earliest_on_disk = some (earlier_of s.earliest_on_disk ts);
  latest_on_disk = some (later_of s.latest_on_disk ts);
  lines =
      (if is_within from to ts then s.lines ++ record { ts = ts; text = text } ∷ [] else s.lines);
}

abbrev pub nothing : WindowSelection
nothing = record { lines = []; earliest_on_disk = none; latest_on_disk = none; unparseable = 0 }

-- `JSON.parse` is the engine's, and `none` where it throws.
module _ {N : Type 0} (json_parse : String → Option (Value N)) where
  unfoldable pub line_timestamp : String → Option String
  unfolding is_iso field_of
  line_timestamp line =
      let parsed = ts_of (json_parse line) in
      elim (after_prefix (codes "{\"ts\":\"") line) [
        | none ↦ parsed
        | some rest ↦
            if is_iso (first_chars 24 rest) && ends_with_brace (codes line)
            then some (first_chars 24 rest)
            else parsed
      ]

  -- The body of the loop.
  unfoldable pub add_line : String → String → WindowSelection → String → WindowSelection
  unfolding line_timestamp
  add_line from to s text = if str_eq text "" then s else elim (line_timestamp text) [
    | none ↦ record s { unparseable = s.unparseable + 1 }
    | some ts ↦ add_record from to s text ts
  ]

  unfoldable pub select_window : String → String → String → WindowSelection
  unfolding add_line
  select_window content from to = fold (add_line from to) nothing (split_at 10 content)
