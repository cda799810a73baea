-- ===== src/Replication/Ustar/RoundTrip.antt =====
-- A reader of USTAR archives, over what ustar.ts packs.
use nexuspuppet.Base.{
  ℕ, zero, suc, ◌+◌, ◌-◌, ◌%◌, ◌≤◌, ◌<◌, ◌^◌, true, false, Option, none, some, List, [], ◌∷◌, ◌++◌,
  ◌≡◌, refl, sym, ap, ◌∙◌, arith, ◌==◌, if◌then◌else◌, length, take, All,
}
use nexuspuppet.Replication.Ustar.{
  Bytes, TarEntry, filled, pad, padded, trailer, tar_chunks, concat, build_tar,
}
use nexuspuppet.Replication.Ustar.Buffer.{
  slice, drop, drop-drop, drop-append, take-append, length-filled,
}
use nexuspuppet.Replication.Ustar.Octal.{read_octal}
use nexuspuppet.Replication.Ustar.Header.{
  IsTarName, sum_of, header_of, build_header-some, length-header_of, header_name, header_size,
  header_checksum,
}

abbrev until_nul : Bytes → Bytes
until_nul [] = []
until_nul (b ∷ bytes) = let rest = until_nul bytes in if b == 0 then [] else b ∷ rest

abbrev put_first : TarEntry → Option (List TarEntry) → Option (List TarEntry)
put_first entry none = none
put_first entry (some entries) = some (entry ∷ entries)

-- Headers with their contents, up to a block without a name; `none` where a checksum is wrong, or
-- the fuel runs out.
pub read_archive : ℕ → Bytes → Option (List TarEntry)
read_archive zero bytes = none
read_archive (suc fuel) bytes =
    let name = until_nul (slice 0 100 bytes) in
    let size = read_octal (slice 124 11 bytes) in
    let rest = read_archive fuel (drop (512 + size + (512 - size % 512) % 512) bytes) in
    let entry : TarEntry = record { name = name; content = slice 512 size bytes } in
    let checked =
      if read_octal (slice 148 6 bytes) == sum_of (take 512 bytes)
      then put_first entry rest
      else none in
    if length name == 0 then some [] else checked

until_nul-name :
    (name : Bytes) (m k : ℕ)
    → length name ≤ m
    → All (λ b. 0 < b) name
    → until_nul (take m (name ++ filled 0 k)) ≡ name
unfolding filled
until_nul-name [] zero k h p = refl
until_nul-name [] (suc m) zero h p = refl
until_nul-name [] (suc m) (suc k) h p = refl
until_nul-name (b ∷ name) zero k h p = absurd (omega arith)
until_nul-name (b ∷ name) (suc m) k h (p, ps) =
    let e : (b == 0) ≡ false = ground (arith, p) in
    rw e (ap (λ t. b ∷ t) (until_nul-name name m k (omega arith) ps))

-- Fields of the first part of an archive.
slice-append :
    (offset size : ℕ) (xs ys : Bytes)
    → offset + size ≤ length xs
    → slice offset size (xs ++ ys) ≡ slice offset size xs
unfolding drop
slice-append zero zero xs ys h = refl
slice-append zero (suc size) [] ys h = absurd (omega arith)
slice-append zero (suc size) (x ∷ xs) ys h =
    ap (λ t. x ∷ t) (unfold drop in slice-append zero size xs ys (omega arith))
slice-append (suc offset) size [] ys h = absurd (omega arith)
slice-append (suc offset) size (x ∷ xs) ys h = slice-append offset size xs ys (omega arith)

length-pad : (size : ℕ) → length (pad size) ≡ (512 - size % 512) % 512
unfolding pad
length-pad size = ground (arith, length-filled 0 (512 - size % 512))

concat-padded : (p : Bytes) (chunks : List Bytes) → concat (padded p chunks) ≡ p ++ concat chunks
concat-padded [] chunks = refl
concat-padded (b ∷ bytes) chunks = refl

-- The bytes of an archive, from the length before them.
archive : ℕ → ℕ → List TarEntry → Bytes
unfolding pad trailer
archive mtime size [] = trailer size ++ []
archive mtime size (e ∷ entries) =
    header_of e mtime
    ++ (e.content
        ++ (pad (length e.content)
            ++ archive mtime (size + (512 + length e.content + length (pad (length e.content))))
                entries))

-- An entry that fits its fields.
abbrev pub Fits : TarEntry → Type 0
Fits e = IsTarName e.name × (length e.content < 8 ^ 11)

packed :
    (mtime size : ℕ) (entries : List TarEntry)
    → All Fits entries
    → (chunks : List Bytes) × (tar_chunks mtime size entries ≡ some chunks)
      × (concat chunks ≡ archive mtime size entries)
unfolding tar_chunks archive
packed mtime size [] h = (trailer size ∷ [], refl, refl)
packed mtime size (e ∷ entries) ((named, small), h) =
    let (chunks, f, g) =
      packed mtime (size + (512 + length e.content + length (pad (length e.content)))) entries h in
    (
      header_of e mtime ∷ e.content ∷ padded (pad (length e.content)) chunks,
      rw (build_header-some e mtime named.short, f) refl,
      ap (λ t. header_of e mtime ++ (e.content ++ t))
          (concat-padded (pad (length e.content)) chunks ∙ ap (λ t. pad (length e.content) ++ t) g),
    )

-- One round of the reader, from what it finds.
read_step :
    (fuel : ℕ) (bytes rest : Bytes) (e : TarEntry)
    → until_nul (slice 0 100 bytes) ≡ e.name
    → read_octal (slice 124 11 bytes) ≡ length e.content
    → read_octal (slice 148 6 bytes) ≡ sum_of (take 512 bytes)
    → slice 512 (length e.content) bytes ≡ e.content
    → drop (512 + length e.content + (512 - length e.content % 512) % 512) bytes ≡ rest
    → 0 < length e.name
    → read_archive (suc fuel) bytes ≡ put_first e (read_archive fuel rest)
unfolding read_archive
read_step fuel bytes rest e n z c d r k =
    let a : (read_octal (slice 148 6 bytes) == sum_of (take 512 bytes)) ≡ true =
      ground (arith, c) in
    let b : (length e.name == 0) ≡ false = ground (arith, k) in rw (a, n, z, d, r, b) refl

module _ (e : TarEntry) (mtime : ℕ) (rest : Bytes) where
  abbrev first : Bytes
  first = header_of e mtime ++ (e.content ++ (pad (length e.content) ++ rest))

  slice-first :
      (offset size : ℕ)
      → offset + size ≤ 512
      → slice offset size first ≡ slice offset size (header_of e mtime)
  slice-first offset size h =
      slice-append offset size (header_of e mtime) _ (omega (arith, h, length-header_of e mtime))

  take-first : take 512 first ≡ header_of e mtime
  take-first =
      ap (λ n. take n first) (sym (length-header_of e mtime)) ∙ take-append (header_of e mtime) _

  drop-first : drop 512 first ≡ e.content ++ (pad (length e.content) ++ rest)
  drop-first =
      ap (λ n. drop n first) (sym (length-header_of e mtime)) ∙ drop-append (header_of e mtime) _

  first_end : drop (512 + length e.content + (512 - length e.content % 512) % 512) first ≡ rest
  first_end =
      ap (λ n. drop (512 + length e.content + n) first) (sym (length-pad (length e.content)))
      ∙ sym (drop-drop (512 + length e.content) (length (pad (length e.content))) first)
      ∙ ap (drop (length (pad (length e.content)))) (
          sym (drop-drop 512 (length e.content) first)
          ∙ ap (drop (length e.content)) drop-first
          ∙ drop-append e.content (pad (length e.content) ++ rest))
      ∙ drop-append (pad (length e.content)) rest

  read_first :
      (fuel : ℕ) → Fits e → read_archive (suc fuel) first ≡ put_first e (read_archive fuel rest)
  read_first fuel (named, small) =
      read_step fuel first rest e
        (ap until_nul (slice-first 0 100 (omega arith) ∙ header_name e mtime named.short)
          ∙ until_nul-name e.name 100 (512 - length e.name) named.short named.no_nul)
        (ap read_octal (slice-first 124 11 (omega arith)) ∙ header_size e mtime small)
        (ap read_octal (slice-first 148 6 (omega arith))
          ∙ header_checksum e mtime named.bytes
          ∙ ap sum_of (sym take-first))
        (ap (take (length e.content)) drop-first ∙ take-append e.content _) first_end
        named.filled_in

no_name : (n m : ℕ) → until_nul (take m (filled 0 n ++ [])) ≡ []
unfolding filled
no_name n zero = refl
no_name zero (suc m) = refl
no_name (suc n) (suc m) = refl

-- The trailer has no name.
read_trailer : (fuel size : ℕ) → read_archive (suc fuel) (trailer size ++ []) ≡ some []
unfolding read_archive trailer drop
read_trailer fuel size =
    let over = (size + 1024) % 10240 in
    rw (no_name (1024 + (if over == 0 then 0 else 10240 - over)) 100) refl

read_packed :
    (mtime size : ℕ) (entries : List TarEntry)
    → All Fits entries
    → read_archive (suc (length entries)) (archive mtime size entries) ≡ some entries
unfolding archive
read_packed mtime size [] h = read_trailer 0 size
read_packed mtime size (e ∷ entries) (f, h) =
    let next = size + (512 + length e.content + length (pad (length e.content))) in
    read_first e mtime (archive mtime next entries) (suc (length entries)) f
    ∙ ap (put_first e) (read_packed mtime next entries h)

-- Entries whose names are of one to a hundred bytes without NUL and whose sizes are below eight
-- gibibytes are packed, and a reader that checks every checksum recovers their names and contents in
-- their order, whatever the modification time.
pub build_tar-read :
    (mtime : ℕ) (entries : List TarEntry)
    → All Fits entries
    → (bytes : Bytes) × (build_tar mtime entries ≡ some bytes)
      × (read_archive (suc (length entries)) bytes ≡ some entries)
unfolding build_tar
build_tar-read mtime entries h =
    let (chunks, f, g) = packed mtime 0 entries h in
    (
      concat chunks,
      ap (λ o. elim o [ none ↦ none | some c ↦ some (concat c) ]) f,
      ap (read_archive (suc (length entries))) g ∙ read_packed mtime 0 entries h,
    )
