-- ===== src/Directory/Filter.antt =====
-- apps/api/src/directory/ldap/filter.ts: search filters with the user's input escaped. A text is
-- the list of its code points.
pub mod Laws
use nexuspuppet.Base.{
  ℕ, zero, suc, ◌+◌, ◌-◌, ◌*◌, ◌/◌, ◌%◌, Bool, true, false, ◌||◌, ◌&&◌, Option, none, some, List,
  [], ◌∷◌, ◌++◌, ltb, leb, ◌==◌, if◌then◌else◌,
}
use nexuspuppet.Value.Text.{codes}

-- A digit of `toString(16)`.
abbrev pub hex_digit : ℕ → ℕ
hex_digit n = if ltb n 10 then 48 + n else 87 + n

-- `ESCAPES`, and the two hex digits of a control character or DEL.
unfoldable pub escape_char : ℕ → List ℕ
escape_char c =
    if c == b'\\'
    then b'\\' ∷ b'5' ∷ b'c' ∷ []
    else if c == b'*'
    then b'\\' ∷ b'2' ∷ b'a' ∷ []
    else if c == b'('
    then b'\\' ∷ b'2' ∷ b'8' ∷ []
    else if c == b')'
    then b'\\' ∷ b'2' ∷ b'9' ∷ []
    else if c == 0
    then b'\\' ∷ b'0' ∷ b'0' ∷ []
    else if ltb c 0x20 || c == 0x7f
    then b'\\' ∷ hex_digit (c / 16) ∷ hex_digit (c % 16) ∷ []
    else c ∷ []

unfoldable pub escape_filter_value : List ℕ → List ℕ
unfolding escape_char
escape_filter_value [] = []
escape_filter_value (c ∷ cs) = escape_char c ++ escape_filter_value cs

abbrev placeholder : List ℕ
placeholder = codes "{{input}}"

abbrev begins_with : List ℕ → List ℕ → Bool
begins_with [] cs = true
begins_with (p ∷ ps) [] = false
begins_with (p ∷ ps) (c ∷ cs) = c == p && begins_with ps cs

-- The placeholder stands here.
unfoldable pub at_placeholder : List ℕ → Bool
at_placeholder cs = begins_with placeholder cs

-- `template.includes(PLACEHOLDER)`
unfoldable pub has_placeholder : List ℕ → Bool
has_placeholder [] = false
has_placeholder (c ∷ cs) = at_placeholder (c ∷ cs) || has_placeholder cs

-- `template.split(PLACEHOLDER).join(value)`, with the number of characters still to pass over of a
-- placeholder that has been replaced.
unfoldable pub substitute : List ℕ → ℕ → List ℕ → List ℕ
substitute value skip [] = []
substitute value (suc skip) (c ∷ cs) = substitute value skip cs
substitute value zero (c ∷ cs) =
    let replaced = value ++ substitute value 8 cs in
    let passed = c ∷ substitute value zero cs in
    if at_placeholder (c ∷ cs) then replaced else passed

-- `none` is the error of a template that has no placeholder.
unfoldable pub build_filter : List ℕ → List ℕ → Option (List ℕ)
build_filter template input =
    if has_placeholder template
    then some (substitute (escape_filter_value input) 0 template)
    else none
