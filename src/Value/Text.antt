-- ===== src/Value/Text.antt =====
-- What the program uses of strings: splitting at a separator, blank text, array indices.
use Prim.Native.Char.{Char, code}
use Prim.Native.String
use Prim.Native.String.{◌∷◌ as cons, [] as empty}
use nexuspuppet.Base.{
  ℕ, ◌+◌, ◌-◌, ◌*◌, ◌/◌, ◌%◌, String, Bool, true, false, ◌&&◌, ◌||◌, Option, none, some, List, [],
  ◌∷◌, ◌++◌, str_eq, ltb, leb, ◌==◌, if◌then◌else◌,
}

-- The code points of a text.
abbrev pub codes : String → List ℕ
codes empty = []
codes (cons c s) = code c ∷ codes s

-- Puts a character in front of the first part.
abbrev onto_first : Char → List String → List String
onto_first c [] = cons c empty ∷ []
onto_first c (part ∷ parts) = cons c part ∷ parts

-- `s.split(sep)` at a separator of one character.
unfoldable pub split_at : ℕ → String → List String
split_at sep empty = "" ∷ []
split_at sep (cons c s) =
    let rest = split_at sep s in if code c == sep then "" ∷ rest else onto_first c rest

-- The white space that `trim` takes off.
abbrev pub is_space : ℕ → Bool
is_space c =
    leb 9 c && leb c 13
    || (c == 32 || c == 160 || c == 0x1680 || leb 0x2000 c && leb c 0x200a || c == 0x2028)
    || (c == 0x2029 || c == 0x202f || c == 0x205f || c == 0x3000 || c == 0xfeff)

abbrev all_space : List ℕ → Bool
all_space [] = true
all_space (c ∷ cs) = is_space c && all_space cs

-- `s.trim() === ''`
unfoldable pub is_blank : String → Bool
is_blank s = all_space (codes s)

abbrev digits_from : ℕ → List ℕ → Option ℕ
digits_from n [] = some n
digits_from n (c ∷ cs) =
    let rest = digits_from (n * 10 + (c - 48)) cs in if leb 48 c && leb c 57 then rest else none

abbrev index_codes : List ℕ → Option ℕ
index_codes [] = none
index_codes (c ∷ []) = digits_from 0 (c ∷ [])
index_codes (c ∷ d ∷ cs) = if c == 48 then none else digits_from 0 (c ∷ d ∷ cs)

-- The array index that a property name is, as "0" and "12" are and "01" is not.
unfoldable pub index_of : String → Option ℕ
index_of s = index_codes (codes s)

-- The UTF-16 code units of a code point.
abbrev units_of : ℕ → List ℕ
units_of c =
    if leb 0x10000 c
    then (0xd800 + (c - 0x10000) / 1024) ∷ (0xdc00 + (c - 0x10000) % 1024) ∷ []
    else c ∷ []

unfoldable pub code_units : List ℕ → List ℕ
code_units [] = []
code_units (c ∷ cs) = units_of c ++ code_units cs

unfoldable pub lists_before : List ℕ → List ℕ → Bool
lists_before [] [] = false
lists_before [] (b ∷ bs) = true
lists_before (a ∷ as') [] = false
lists_before (a ∷ as') (b ∷ bs) = if a == b then lists_before as' bs else ltb a b

-- `a < b` on texts, which compares code units; the order of `sort()` without a comparison.
unfoldable pub text_before : String → String → Bool
unfolding code_units lists_before
text_before a b = lists_before (code_units (codes a)) (code_units (codes b))

abbrev trim_start : String → String
trim_start empty = ""
trim_start (cons c s) = let rest = trim_start s in if is_space (code c) then rest else cons c s

abbrev trim_end : String → String
trim_end empty = ""
trim_end (cons c s) =
    let rest = trim_end s in if is_space (code c) && str_eq rest "" then "" else cons c rest

-- `s.trim()`
unfoldable pub trim : String → String
trim s = trim_end (trim_start s)

-- `parts.join(sep)`
unfoldable pub join : String → List String → String
join sep [] = ""
join sep (part ∷ []) = part
join sep (part ∷ next ∷ parts) = String.◌++◌ part (String.◌++◌ sep (join sep (next ∷ parts)))
