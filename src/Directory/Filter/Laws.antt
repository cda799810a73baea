-- ===== src/Directory/Filter/Laws.antt =====
-- That filter.ts lets no input change the meaning of a filter.
use nexuspuppet.Base.{
  ℕ, zero, suc, ◌+◌, ◌-◌, ◌*◌, ◌/◌, ◌%◌, ◌<◌, Bool, true, false, ◌||◌, none, some, List, [], ◌∷◌,
  ◌++◌, ◌≡◌, ◌≢◌, ◌↔◌, refl, ap, ◌∙◌, arith, ltb, leb, ◌==◌, if◌then◌else◌, keep, keep-append,
}
use nexuspuppet.Directory.Filter.{
  hex_digit, escape_char, escape_filter_value, has_placeholder, substitute, build_filter,
}

-- The value of a hex digit as the directory reads it, RFC 4515 section 3.
abbrev pub hex_value : ℕ → ℕ
hex_value d = if leb 97 d then d - 87 else d - 48

-- The directory's reading of an escaped value: a backslash and two hex digits are one character.
pub unescape : List ℕ → List ℕ
unescape [] = []
unescape (c ∷ []) = c ∷ []
unescape (c ∷ d ∷ []) = c ∷ d ∷ []
unescape (c ∷ d ∷ e ∷ cs) = elim (c == b'\\') [
  | true ↦ (hex_value d * 16 + hex_value e) ∷ unescape cs
  | false ↦ c ∷ unescape (d ∷ e ∷ cs)
]

-- The characters that give a filter its shape, and the controls.
abbrev pub is_special : ℕ → Bool
is_special c = c == b'(' || c == b')' || c == b'*' || ltb c 0x20 || c == 0x7f

escape_char-special : (c : ℕ) → keep is_special (escape_char c) ≡ []
unfolding escape_char
escape_char-special c = ground arith

escape-special : (cs : List ℕ) → keep is_special (escape_filter_value cs) ≡ []
unfolding escape_filter_value
escape-special [] = refl
escape-special (c ∷ cs) =
    keep-append is_special (escape_char c) (escape_filter_value cs)
    ∙ rw (escape_char-special c) (escape-special cs)

unescape-plain : (c : ℕ) (rest : List ℕ) → c ≢ b'\\' → unescape (c ∷ rest) ≡ c ∷ unescape rest
unfolding unescape
unescape-plain c [] h = refl
unescape-plain c (d ∷ []) h = refl
unescape-plain c (d ∷ e ∷ cs) h = ground arith

unescape-hex :
    (d e : ℕ) (rest : List ℕ)
    → unescape (b'\\' ∷ d ∷ e ∷ rest) ≡ (hex_value d * 16 + hex_value e) ∷ unescape rest
unfolding unescape
unescape-hex d e rest = refl

hex_pair :
    (c : ℕ) → c < 128 → hex_value (hex_digit (c / 16)) * 16 + hex_value (hex_digit (c % 16)) ≡ c
hex_pair c h = ground arith

unescape-escape_char :
    (c : ℕ) (rest : List ℕ) → unescape (escape_char c ++ rest) ≡ c ∷ unescape rest
unfolding escape_char
unescape-escape_char c rest = ground (
  arith,
  unescape-plain c rest,
  hex_pair c,
  unescape-hex b'5' b'c' rest,
  unescape-hex b'2' b'a' rest,
  unescape-hex b'2' b'8' rest,
  unescape-hex b'2' b'9' rest,
  unescape-hex b'0' b'0' rest,
  unescape-hex (hex_digit (c / 16)) (hex_digit (c % 16)) rest,
)

-- An escaped value holds no character that shapes a filter, and the directory reads it back as the
-- value that was given.
pub escape_filter_value_lem :
    (value : List ℕ)
    → (keep is_special (escape_filter_value value) ≡ [])
      × (unescape (escape_filter_value value) ≡ value)
unfolding escape_filter_value
escape_filter_value_lem value = (escape-special value, read_back value)
  where
    read_back : (cs : List ℕ) → unescape (escape_filter_value cs) ≡ cs
    read_back [] = unfold unescape in refl
    read_back (c ∷ cs) = unescape-escape_char c (escape_filter_value cs) ∙ ap (◌∷◌ c) (read_back cs)

substitute-special :
    (value : List ℕ) (skip : ℕ) (template : List ℕ)
    → keep is_special value ≡ []
    → keep is_special (substitute value skip template)
      ≡ keep is_special (substitute [] skip template)
unfolding substitute
substitute-special value skip [] h = refl
substitute-special value (suc skip) (c ∷ cs) h = substitute-special value skip cs h
substitute-special value zero (c ∷ cs) h = ground (
  arith,
  keep-append is_special value (substitute value 8 cs),
  h,
  substitute-special value 8 cs h,
  substitute-special value zero cs h,
)

-- A template is refused, whatever the input, exactly where it has no placeholder.
pub build_filter_refused :
    (template input : List ℕ)
    → (build_filter template input ≡ none) ↔ (has_placeholder template ≡ false)
unfolding build_filter
build_filter_refused template input = ground arith

-- The characters that shape a filter that is built are those of the template without its
-- placeholders, in its order, whatever the input.
pub build_filter_shape :
    (template input filter : List ℕ)
    → build_filter template input ≡ some filter
    → keep is_special filter ≡ keep is_special (substitute [] 0 template)
unfolding build_filter
build_filter_shape template input filter e =
    ground (arith, substitute-special (escape_filter_value input) 0 template (escape-special input))
