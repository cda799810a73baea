-- ===== src/Replication/Ustar/Header.antt =====
-- The header that ustar.ts builds, field by field.
use nexuspuppet.Base.{
  ℕ, zero, suc, ◌+◌, ◌-◌, ◌*◌, ◌≤◌, ◌<◌, ◌^◌, false, some, List, [], ◌∷◌, ◌++◌, ◌≡◌, refl, sym, ap,
  ◌∙◌, arith, ltb, length, take, All, inr,
}
use nexuspuppet.Replication.Ustar.{
  Bytes, TarEntry, filled, splice, octal, sum, unchecked, build_header, fields_of, write_all, magic,
  version,
}
use nexuspuppet.Replication.Ustar.Buffer.{
  slice, drop, length-splice, length-filled, slice_before, slice_at, splice-filled, All-splice,
  All-filled, All-take, slice_kept, length-write_all, sum_split, sum_bound, drop-drop, drop_after,
}
use nexuspuppet.Replication.Ustar.Octal.{read_octal, read_octal-octal, length-octal, All-octal}

-- A byte.
abbrev pub IsByte : ℕ → Type 0
IsByte b = b < 256

-- A name that the format can hold: not empty, without NUL and not too long, of bytes.
pub record IsTarName (name : Bytes) : Type 0 where
  pub short : length name ≤ 100
  pub filled_in : 0 < length name
  pub bytes : All IsByte name
  pub no_nul : All (λ b. 0 < b) name

whole : (xs : Bytes) (m : ℕ) → length xs ≤ m → take m xs ≡ xs
whole [] zero h = refl
whole [] (suc m) h = refl
whole (x ∷ xs) zero h = absurd (omega arith)
whole (x ∷ xs) (suc m) h = ap (λ t. x ∷ t) (whole xs m (omega arith))

All-write_all :
    (header : Bytes) (fields : List (ℕ × Bytes))
    → All IsByte header
    → All (λ f. All IsByte f.1) fields
    → All IsByte (write_all header fields)
All-write_all header [] h k = h
All-write_all header ((o, xs) ∷ fields) h (k, ks) =
    All-write_all (splice header o xs) fields (All-splice IsByte header o xs h k) ks

abbrev after_size : ℕ → List (ℕ × Bytes)
after_size mtime =
    (136, octal mtime 12)
    ∷ (156, b'0' ∷ [])
    ∷ (257, magic)
    ∷ (263, version)
    ∷ (148, filled 32 8)
    ∷ []

abbrev after_name : TarEntry → ℕ → List (ℕ × Bytes)
after_name entry mtime =
    (100, octal 420 8)
    ∷ (108, octal 0 8)
    ∷ (116, octal 0 8)
    ∷ (124, octal (length entry.content) 12)
    ∷ after_size mtime

module _ (entry : TarEntry) (mtime : ℕ) where
  length-unchecked : length (unchecked entry mtime) ≡ 512
  unfolding unchecked
  length-unchecked = length-write_all (filled 0 512) (fields_of entry mtime) ∙ length-filled 0 512

  -- The name stands at the start, with NULs up to its hundred bytes.
  name_field :
      length entry.name ≤ 100
      → slice 0 100 (unchecked entry mtime)
        ≡ take 100 (entry.name ++ filled 0 (512 - length entry.name))
  unfolding unchecked drop
  name_field h =
      slice_kept 0 100 (splice (filled 0 512) 0 (take 100 entry.name)) (after_name entry mtime) (
        inr (omega arith),
        (
          inr (omega arith),
          (
            inr (omega arith),
            (
              inr (omega arith),
              (
                inr (omega arith),
                (
                  inr (omega arith),
                  (inr (omega arith), (inr (omega arith), (inr (omega arith), tt))),
                ),
              ),
            ),
          ),
        ),
      )
      ∙ ap (λ t. take 100 (splice (filled 0 512) 0 t)) (whole entry.name 100 h)
      ∙ ap (take 100) (splice-filled 0 512 entry.name (omega arith))

  size_field : slice 124 11 (unchecked entry mtime) ≡ octal (length entry.content) 12
  unfolding unchecked
  size_field =
      let before = write_all (filled 0 512) (
        (0, take 100 entry.name) ∷ (100, octal 420 8) ∷ (108, octal 0 8) ∷ (116, octal 0 8) ∷ []) in
      slice_kept 124 11 (splice before 124 (octal (length entry.content) 12)) (after_size mtime) (
        inr (omega arith),
        (inr (omega arith), (inr (omega arith), (inr (omega arith), (inr (omega arith), tt)))),
      )
      ∙ slice_at before 124 11 (octal (length entry.content) 12)
          (length-octal (length entry.content) 11)
          (omega (
            arith,
            length-write_all (filled 0 512) (
                (0, take 100 entry.name)
                ∷ (100, octal 420 8)
                ∷ (108, octal 0 8)
                ∷ (116, octal 0 8)
                ∷ []),
            length-filled 0 512,
          ))

  spaces_field : slice 148 8 (unchecked entry mtime) ≡ filled 32 8
  unfolding unchecked
  spaces_field =
      let fields =
        (0, take 100 entry.name)
        ∷ (100, octal 420 8)
        ∷ (108, octal 0 8)
        ∷ (116, octal 0 8)
        ∷ (124, octal (length entry.content) 12)
        ∷ (136, octal mtime 12)
        ∷ (156, b'0' ∷ [])
        ∷ (257, magic)
        ∷ (263, version)
        ∷ [] in
      slice_at (write_all (filled 0 512) fields) 148 8 (filled 32 8) (length-filled 32 8)
        (omega (arith, length-write_all (filled 0 512) fields, length-filled 0 512))

  unchecked-bytes : All IsByte entry.name → All IsByte (unchecked entry mtime)
  unfolding unchecked
  unchecked-bytes h =
      All-write_all (filled 0 512) (fields_of entry mtime) (All-filled IsByte 0 512 (omega arith)) (
        All-take IsByte 100 entry.name h,
        (
          All-octal 420 8,
          (
            All-octal 0 8,
            (
              All-octal 0 8,
              (
                All-octal (length entry.content) 12,
                (
                  All-octal mtime 12,
                  (
                    (omega arith, tt),
                    (
                      (omega arith, (omega arith, (omega arith, (omega arith, (omega arith, tt))))),
                      (
                        (omega arith, (omega arith, tt)),
                        (All-filled IsByte 32 8 (omega arith), tt),
                      ),
                    ),
                  ),
                ),
              ),
            ),
          ),
        ),
      )

  -- The sum is of no more digits than its field has.
  pub sum-unchecked : All IsByte entry.name → sum (unchecked entry mtime) < 8 ^ 6
  sum-unchecked h =
      omega (arith, sum_bound (unchecked entry mtime) (unchecked-bytes h), length-unchecked)

-- What a reader sums: every byte, with spaces for those of the checksum field.
abbrev pub sum_of : Bytes → ℕ
sum_of header = sum (take 148 header) + 8 * 32 + sum (drop 156 header)

sum_of-unchecked :
    (entry : TarEntry) (mtime : ℕ) → sum_of (unchecked entry mtime) ≡ sum (unchecked entry mtime)
unfolding filled
sum_of-unchecked entry mtime =
    let u = unchecked entry mtime in
    omega (
      arith,
      sum_split 148 u,
      sum_split 8 (drop 148 u),
      ap sum (drop-drop 148 8 u),
      ap sum (spaces_field entry mtime),
    )

-- The header that is built, where it is.
abbrev pub header_of : TarEntry → ℕ → Bytes
header_of entry mtime =
    splice (splice (unchecked entry mtime) 148 (octal (sum (unchecked entry mtime)) 7)) 155
      (32 ∷ [])

pub build_header-some :
    (entry : TarEntry) (mtime : ℕ)
    → length entry.name ≤ 100
    → build_header entry mtime ≡ some (header_of entry mtime)
unfolding build_header
build_header-some entry mtime h =
    let e : ltb 100 (length entry.name) ≡ false = ground (arith, h) in rw e refl

module _ (entry : TarEntry) (mtime : ℕ) where
  pub length-header_of : length (header_of entry mtime) ≡ 512
  length-header_of =
      let u = unchecked entry mtime in
      length-splice (splice u 148 (octal (sum u) 7)) 155 (32 ∷ [])
      ∙ length-splice u 148 (octal (sum u) 7)
      ∙ length-unchecked entry mtime

  header_before :
      (offset size : ℕ)
      → offset + size ≤ 148
      → slice offset size (header_of entry mtime) ≡ slice offset size (unchecked entry mtime)
  header_before offset size h =
      let u = unchecked entry mtime in
      slice_before (splice u 148 (octal (sum u) 7)) offset size 155 (32 ∷ []) (omega (arith, h))
      ∙ slice_before u offset size 148 (octal (sum u) 7) h

  pub header_name :
      length entry.name ≤ 100
      → slice 0 100 (header_of entry mtime)
        ≡ take 100 (entry.name ++ filled 0 (512 - length entry.name))
  header_name h = header_before 0 100 (omega arith) ∙ name_field entry mtime h

  pub header_size :
      length entry.content < 8 ^ 11
      → read_octal (slice 124 11 (header_of entry mtime)) ≡ length entry.content
  header_size h =
      ap read_octal (header_before 124 11 (omega arith) ∙ size_field entry mtime)
      ∙ read_octal-octal (length entry.content) 11 (omega arith) h

  -- The checksum that a reader finds is the one that it computes.
  pub header_checksum :
      All IsByte entry.name
      → read_octal (slice 148 6 (header_of entry mtime)) ≡ sum_of (header_of entry mtime)
  unfolding drop
  header_checksum h =
      let u = unchecked entry mtime in
      let s = octal (sum u) 7 in
      let after : drop 156 (header_of entry mtime) ≡ drop 156 u =
        drop_after (splice u 148 s) 156 155 (32 ∷ []) (omega arith)
        ∙ drop_after u 156 148 s (omega (arith, length-octal (sum u) 6)) in
      let front : take 148 (header_of entry mtime) ≡ take 148 u =
        header_before 0 148 (omega arith) in
      ap read_octal (
        slice_before (splice u 148 s) 148 6 155 (32 ∷ []) (omega arith)
        ∙ slice_at u 148 6 s (length-octal (sum u) 6) (omega (arith, length-unchecked entry mtime)))
      ∙ read_octal-octal (sum u) 6 (omega arith) (sum-unchecked entry mtime h)
      ∙ sym (sum_of-unchecked entry mtime)
      ∙ omega (arith, ap sum after, ap sum front)
