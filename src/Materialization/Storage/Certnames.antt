-- ===== src/Materialization/Storage/Certnames.antt =====
-- What posix-enc-storage.ts lets through as the name of a file.
use Prim.Native.String
use Prim.Native.String.{◌∷◌ as cons, [] as empty}
use Prim.Native.String.append
use Prim.Native.Char.{code}
use nexuspuppet.Base.{
  ℕ, zero, suc, ◌≤◌, String, Bool, true, false, not, ◌&&◌, ◌||◌, some, List, [], ◌∷◌, ◌++◌, ◌≡◌,
  refl, ◌∙◌, ap, arith, ◌==◌, str_eq, eq_iff, length, if◌then◌else◌, Bool-cases, inl, inr,
}
use nexuspuppet.Value.Text.{codes}
use nexuspuppet.Materialization.Storage.{
  is_certname_char, ends_well, matches_safe, has_dots, is_safe_certname, yaml_name, without_yaml,
  onto,
}

-- A separator of paths, or NUL.
abbrev is_separator : ℕ → Bool
is_separator c = c == b'/' || c == 0

unfoldable pub is_plain : List ℕ → Bool
is_plain [] = false
is_plain (c ∷ []) = not (is_separator c) && not (c == b'.')
is_plain (c ∷ d ∷ cs) = not (is_separator c) && is_plain (d ∷ cs)

-- A text that names a file in its folder: no separator, and neither `.` nor `..`.
unfoldable pub is_file_name : String → Bool
unfolding is_plain
is_file_name name = is_plain (codes name)

unfoldable pub no_separator : List ℕ → Bool
no_separator [] = true
no_separator (c ∷ cs) = not (is_separator c) && no_separator cs

unfoldable pub all_certname : List ℕ → Bool
all_certname [] = true
all_certname (c ∷ cs) = is_certname_char c && all_certname cs

pub codes-append : (a b : String) → codes (String.◌++◌ a b) ≡ codes a ++ codes b
codes-append empty b = rw (append.nil b) refl
codes-append (cons c a) b = rw (append.cons c a b) (ap (◌∷◌ (code c)) (codes-append a b))

pub is_plain-append :
    (xs ys : List ℕ) → no_separator xs ≡ true → is_plain ys ≡ true → is_plain (xs ++ ys) ≡ true
unfolding is_plain no_separator
is_plain-append [] ys h k = k
is_plain-append (x ∷ []) [] h k = cc
is_plain-append (x ∷ []) (y ∷ ys) h k = ground (arith, h, k)
is_plain-append (x ∷ z ∷ xs) ys h k = ground (arith, is_plain-append (z ∷ xs) ys, h, k)

no_separator-certname : (xs : List ℕ) → all_certname xs ≡ true → no_separator xs ≡ true
unfolding no_separator all_certname
no_separator-certname [] h = refl
no_separator-certname (x ∷ xs) h = ground (arith, no_separator-certname xs, h)

ends_well-chars :
    (n : ℕ) (xs : List ℕ) → ends_well n xs ≡ true → (all_certname xs ≡ true) × (length xs ≤ suc n)
unfolding ends_well all_certname
ends_well-chars n [] h = cc
ends_well-chars n (x ∷ []) h = ground (arith, h)
ends_well-chars zero (x ∷ y ∷ xs) h = cc
ends_well-chars (suc n) (x ∷ y ∷ xs) h = ground (arith, ends_well-chars n (y ∷ xs), h)

matches_safe-chars :
    (xs : List ℕ) → matches_safe xs ≡ true → (all_certname xs ≡ true) × (length xs ≤ 254)
unfolding matches_safe all_certname
matches_safe-chars [] h = cc
matches_safe-chars (x ∷ []) h = ground (arith, h)
matches_safe-chars (x ∷ y ∷ xs) h = ground (arith, ends_well-chars 252 (y ∷ xs), h)

-- A certname that passes is at most 254 characters of the allowed ones with no two dots in a row,
-- and its file name stays in its folder: it has no separator and is neither `.` nor `..`.
pub is_safe_certname-IsFileName :
    (certname : String)
    → is_safe_certname certname ≡ true
    → (all_certname (codes certname) ≡ true)
      × (length (codes certname) ≤ 254)
      × (has_dots (codes certname) ≡ false)
      × (is_file_name (yaml_name certname) ≡ true)
unfolding is_safe_certname is_file_name
is_safe_certname-IsFileName certname h =
    let (m, d) = both (matches_safe (codes certname)) (has_dots (codes certname)) h in
    let (a, l) = matches_safe-chars (codes certname) m in
    (
      a,
      l,
      d,
      rw (codes-append certname ".yaml") (
          is_plain-append (codes certname) (codes ".yaml")
            (no_separator-certname (codes certname) a) refl),
    )
  where
    both : (a b : Bool) → (a && not b) ≡ true → (a ≡ true) × (b ≡ false)
    both a b h = ground (arith, h)

longer : (certname : String) → 5 ≤ length (codes (yaml_name certname))
longer certname = rw (codes-append certname ".yaml") (long (codes certname))
  where
    long : (xs : List ℕ) → 5 ≤ length (xs ++ codes ".yaml")
    long [] = omega arith
    long (x ∷ xs) = omega (arith, long xs)

-- The name of a certname's file gives the certname back, as the listing of the folder reads it.
pub without_yaml-yaml_name : (certname : String) → without_yaml (yaml_name certname) ≡ some certname
unfolding without_yaml
without_yaml-yaml_name empty = refl
without_yaml-yaml_name (cons c s) = rw (append.cons c s ".yaml") (
    ap (λ b. if b then some "" else onto c (without_yaml (yaml_name s))) differs
    ∙ ap (onto c) (without_yaml-yaml_name s))
  where
    differs : str_eq (cons c (yaml_name s)) ".yaml" ≡ false
    differs = elim (Bool-cases (str_eq (cons c (yaml_name s)) ".yaml")) [
      | inl e ↦
          let q : suc (length (codes (yaml_name s))) ≡ 5 =
            ap (λ t. length (codes t)) ((eq_iff (cons c (yaml_name s)) ".yaml").0 e) in
          absurd (omega (arith, longer s))
      | inr e ↦ e
    ]
