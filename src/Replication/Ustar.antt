-- ===== src/Replication/Ustar.antt =====
-- apps/api/src/replication/ustar.ts: a USTAR writer. A buffer is the list of its bytes.
pub mod Buffer
pub mod Octal
pub mod Header
pub mod RoundTrip
pub mod Length
use nexuspuppet.Base.{
  ℕ, zero, suc, ◌+◌, ◌-◌, ◌*◌, ◌/◌, ◌%◌, Bool, true, false, Option, none, some, List, [], ◌∷◌, ◌++◌,
  ltb, ◌==◌, if◌then◌else◌, length, take,
}

abbrev pub Bytes : Type 0
Bytes = List ℕ

abbrev pub block : ℕ
block = 512

abbrev pub name_max : ℕ
name_max = 100

-- An entry, its name in the bytes of its UTF-8 form.
pub record TarEntry : Type 0 where
  pub name : Bytes
  pub content : Bytes

-- `Buffer.alloc(n)`
unfoldable pub filled : ℕ → ℕ → Bytes
filled byte zero = []
filled byte (suc n) = byte ∷ filled byte n

-- Bytes written into a buffer from an offset on, as far as the buffer goes.
unfoldable pub splice : Bytes → ℕ → Bytes → Bytes
splice [] offset bytes = []
splice (b ∷ buffer) (suc offset) bytes = b ∷ splice buffer offset bytes
splice (b ∷ buffer) zero [] = b ∷ buffer
splice (b ∷ buffer) zero (x ∷ bytes) = x ∷ splice buffer zero bytes

-- `writeString`: at most `size` bytes.
-- `value.toString(8)`, given fuel; a number has at most as many digits as it counts.
unfoldable pub octal_digits : ℕ → ℕ → Bytes
octal_digits zero value = (48 + value % 8) ∷ []
octal_digits (suc fuel) value =
    let front = octal_digits fuel (value / 8) in
    if ltb value 8 then (48 + value) ∷ [] else front ++ (48 + value % 8) ∷ []

-- `s.padStart(size, '0')`
abbrev pub pad_start : ℕ → Bytes → Bytes
pad_start size s = filled 48 (size - length s) ++ s

-- What `writeOctal` writes: of a number that needs more digits the first `size - 1`.
abbrev pub octal : ℕ → ℕ → Bytes
octal value size = take (size - 1) (pad_start (size - 1) (octal_digits value value))

abbrev pub sum : Bytes → ℕ
sum [] = 0
sum (b ∷ bytes) = b + sum bytes

-- `ustar` and `00`
abbrev pub magic : Bytes
magic = b'u' ∷ b's' ∷ b't' ∷ b'a' ∷ b'r' ∷ []

abbrev pub version : Bytes
version = b'0' ∷ b'0' ∷ []

-- The writes into the header in their order, each an offset and the bytes; the last one is the fill
-- of the checksum with spaces.
abbrev pub fields_of : TarEntry → ℕ → List (ℕ × Bytes)
unfolding filled
fields_of entry mtime =
    (0, take name_max entry.name)
    ∷ (100, octal 420 8)
    ∷ (108, octal 0 8)
    ∷ (116, octal 0 8)
    ∷ (124, octal (length entry.content) 12)
    ∷ (136, octal mtime 12)
    ∷ (156, b'0' ∷ [])
    ∷ (257, magic)
    ∷ (263, version)
    ∷ (148, filled 32 8)
    ∷ []

abbrev pub write_all : Bytes → List (ℕ × Bytes) → Bytes
write_all header [] = header
write_all header ((offset, bytes) ∷ fields) = write_all (splice header offset bytes) fields

-- The header up to its checksum, whose field holds spaces.
unfoldable pub unchecked : TarEntry → ℕ → Bytes
unfolding splice filled
unchecked entry mtime = write_all (filled 0 block) (fields_of entry mtime)

-- `buildHeader`, or `none` where it throws.
unfoldable pub build_header : TarEntry → ℕ → Option Bytes
unfolding unchecked
build_header entry mtime =
    if ltb name_max (length entry.name)
    then none
    else let header = unchecked entry mtime in
      some (splice (splice header 148 (octal (sum header) 7)) 155 (32 ∷ []))

unfoldable pub pad : ℕ → Bytes
unfolding filled
pad size = if size % block == 0 then [] else filled 0 (block - size % block)

abbrev pub padded : Bytes → List Bytes → List Bytes
padded [] chunks = chunks
padded (b ∷ bytes) chunks = (b ∷ bytes) ∷ chunks

-- The last chunk, given the length of all before it.
unfoldable pub trailer : ℕ → Bytes
unfolding filled
trailer size =
    let total = size + block * 2 in
    let over = total % (block * 20) in
    filled 0 (block * 2 + (if over == 0 then 0 else block * 20 - over))

abbrev pub with_entry : TarEntry → Option Bytes → Option (List Bytes) → Option (List Bytes)
with_entry entry none rest = none
with_entry entry (some header) none = none
with_entry entry (some header) (some chunks) =
    some (header ∷ entry.content ∷ padded (pad (length entry.content)) chunks)

-- `tarChunks`, from the length so far; `none` where a header throws.
unfoldable pub tar_chunks : ℕ → ℕ → List TarEntry → Option (List Bytes)
unfolding build_header pad trailer
tar_chunks mtime size [] = some (trailer size ∷ [])
tar_chunks mtime size (entry ∷ entries) = with_entry entry (build_header entry mtime) (
    tar_chunks mtime (size + (block + length entry.content + length (pad (length entry.content))))
      entries)

abbrev pub concat : List Bytes → Bytes
concat [] = []
concat (c ∷ chunks) = c ++ concat chunks

-- `buildTar`
unfoldable pub build_tar : ℕ → List TarEntry → Option Bytes
unfolding tar_chunks
build_tar mtime entries = elim (tar_chunks mtime 0 entries) [
  | none ↦ none
  | some chunks ↦ some (concat chunks)
]
