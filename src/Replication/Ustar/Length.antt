-- ===== src/Replication/Ustar/Length.antt =====
-- The length of the archives of ustar.ts.
use nexuspuppet.Base.{
  ℕ, ◌+◌, ◌-◌, ◌%◌, ◌≤◌, Bool, true, false, ◌||◌, Option, none, some, List, [], ◌∷◌, ◌++◌, ◌≡◌, ◌↔◌,
  refl, sym, ap, ◌∙◌, arith, ltb, ◌==◌, if◌then◌else◌, length, any, Bool-cases, inl, inr,
  length-append,
}
use nexuspuppet.Replication.Ustar.{
  Bytes, TarEntry, build_header, pad, padded, trailer, tar_chunks, concat, build_tar,
}
use nexuspuppet.Replication.Ustar.Buffer.{length-filled}
use nexuspuppet.Replication.Ustar.Header.{header_of, build_header-some, length-header_of}

-- A name that the header has no room for.
abbrev pub is_long : TarEntry → Bool
is_long e = ltb 100 (length e.name)

-- Header and contents in whole blocks.
abbrev pub blocks : List TarEntry → ℕ
blocks [] = 0
blocks (e ∷ entries) = 512 + length e.content + blocks entries

length-trailer :
    (size : ℕ) → ((size + length (trailer size)) % 10240 ≡ 0) × (1024 ≤ length (trailer size))
unfolding trailer
length-trailer size =
    let over = (size + 1024) % 10240 in
    let e = length-filled 0 (1024 + (if over == 0 then 0 else 10240 - over)) in ground (arith, e)

build_header-none : (e : TarEntry) (mtime : ℕ) → is_long e ≡ true → build_header e mtime ≡ none
unfolding build_header
build_header-none e mtime h = rw h refl

or_false : (a b : Bool) → (a || b) ≡ false → (a ≡ false) × (b ≡ false)
or_false a b h = ground (arith, h)

not_long : (e : TarEntry) → is_long e ≡ false → length e.name ≤ 100
not_long e h = ground (arith, h)

length-concat-padded :
    (p : Bytes) (chunks : List Bytes)
    → length (concat (padded p chunks)) ≡ length p + length (concat chunks)
length-concat-padded [] chunks = omega arith
length-concat-padded (b ∷ bytes) chunks = omega (arith, length-append bytes (concat chunks))

-- From a length on: the chunks end at a multiple of the record, unless a name is too long.
measured :
    (mtime size : ℕ) (entries : List TarEntry)
    → any is_long entries ≡ false
    → (chunks : List Bytes) × (tar_chunks mtime size entries ≡ some chunks)
      × ((size + length (concat chunks)) % 10240 ≡ 0)
      × (blocks entries + 1024 ≤ length (concat chunks))
unfolding tar_chunks
measured mtime size [] h =
    let (whole, long) = length-trailer size in
    let e = length-append (trailer size) [] in
    (trailer size ∷ [], refl, ground (arith, e, whole), ground (arith, e, long))
measured mtime size (x ∷ entries) h =
    let (short, rest) = or_false (is_long x) (any is_long entries) h in
    let p = pad (length x.content) in
    let (chunks, f, g, k) =
      measured mtime (size + (512 + length x.content + length p)) entries rest in
    let all = header_of x mtime ++ (x.content ++ concat (padded p chunks)) in
    let n : length all ≡ 512 + (length x.content + (length p + length (concat chunks))) = omega (
      arith,
      length-append (header_of x mtime) (x.content ++ concat (padded p chunks)),
      length-append x.content (concat (padded p chunks)),
      length-concat-padded p chunks,
      length-header_of x mtime,
    ) in
    (
      header_of x mtime ∷ x.content ∷ padded p chunks,
      rw (build_header-some x mtime (not_long x short), f) refl,
      omega (arith, n, g),
      omega (arith, n, k),
    )

or_true : (a b : Bool) → a ≡ false → (a || b) ≡ true → b ≡ true
or_true a b e h = ground (arith, e, h)

abbrev packed_as : Option (List Bytes) → Option Bytes
packed_as none = none
packed_as (some chunks) = some (concat chunks)

some-none : (bytes : Bytes) → some bytes ≡ none → ⊥
some-none bytes h = cc

clash : {b : Bool} → b ≡ false → b ≡ true → ⊥
clash e h = cc

too_long :
    (mtime size : ℕ) (entries : List TarEntry)
    → any is_long entries ≡ true
    → tar_chunks mtime size entries ≡ none
unfolding tar_chunks
too_long mtime size [] h = ground (arith, h)
too_long mtime size (x ∷ entries) h = elim (Bool-cases (is_long x)) [
  | inl e ↦ rw (build_header-none x mtime e) refl
  | inr e ↦
      let next = size + (512 + length x.content + length (pad (length x.content))) in
      let rest = too_long mtime next entries (or_true (is_long x) (any is_long entries) e h) in
      rw (build_header-some x mtime (not_long x e), rest) refl
]

-- No archive is made exactly where some name is longer than a hundred bytes: one such entry fails the
-- whole of it.
pub build_tar-none_iff :
    (mtime : ℕ) (entries : List TarEntry)
    → (build_tar mtime entries ≡ none) ↔ (any is_long entries ≡ true)
unfolding build_tar
build_tar-none_iff mtime entries = elim (Bool-cases (any is_long entries)) [
  | inl e ↦ (λ h. e, λ h. ap packed_as (too_long mtime 0 entries h))
  | inr e ↦
      let (chunks, f, g, k) = measured mtime 0 entries e in
      (λ h. absurd (some-none (concat chunks) (sym (ap packed_as f) ∙ h)), λ h. absurd (clash e h))
]

-- Where no name is longer than a hundred bytes an archive is made, and it is a whole number of records
-- of 10240 bytes with room for every header, every content and two empty blocks.
pub length-build_tar :
    (mtime : ℕ) (entries : List TarEntry)
    → any is_long entries ≡ false
    → (bytes : Bytes) × (build_tar mtime entries ≡ some bytes)
      × (length bytes % 10240 ≡ 0)
      × (blocks entries + 1024 ≤ length bytes)
unfolding build_tar
length-build_tar mtime entries h =
    let (chunks, f, g, k) = measured mtime 0 entries h in
    (concat chunks, ap packed_as f, omega (arith, g), k)
