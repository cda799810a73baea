-- ===== src/Replication/Receipts.antt =====
-- apps/api/src/replication/compile-receipts.service.ts: which revision a node was last served.
pub mod Laws
use Prim.Native.String
use nexuspuppet.Base.{
  ℕ, zero, suc, ◌+◌, ◌-◌, String, Bool, true, false, not, ◌&&◌, ◌||◌, Option, none, some, List, [],
  ◌∷◌, ◌++◌, str_eq, ltb, leb, ◌==◌, if◌then◌else◌, length, keep, every, includes, fold,
}
use nexuspuppet.Base.Dict.{Dict, put, keys}
use nexuspuppet.Value.Text.{codes, code_units, split_at, is_space}

-- A row of `CompileReceipt`; the peer and the certname are its key.
pub record Receipt : Type 0 where
  pub peer_certname : String
  pub certname : String
  pub revision : String
  pub reported_at : ℕ
  pub matched_at_ingest : Bool

pub record ReceiptLine : Type 0 where
  pub revision : String
  pub certname : String

pub record IngestResult : Type 0 where
  pub stored : ℕ
  pub malformed : ℕ
  pub discarded : ℕ

abbrev pub max_receipts_per_batch : ℕ
max_receipts_per_batch = 20000

-- `[0-9a-f]`
abbrev is_hex : ℕ → Bool
is_hex c = leb b'0' c && leb c b'9' || leb b'a' c && leb c b'f'

abbrev is_visible : ℕ → Bool
is_visible c = not (is_space c)

abbrev within : ℕ → ℕ → Bool
within most n = leb 1 n && leb n most

-- The two parts of a line; a third one means a second space.
unfoldable pub read_parts : List String → Option ReceiptLine
unfolding code_units
read_parts (revision ∷ certname ∷ []) =
    if within 64 (length (codes revision))
      && every is_hex (codes revision)
      && within 255 (length (code_units (codes certname)))
      && every is_visible (codes certname)
    then some (record { revision = revision; certname = certname })
    else none
read_parts _ = none

-- `RECEIPT_LINE.exec(raw)`, `/^([0-9a-f]{1,64}) (\S{1,255})$/`
unfoldable pub read_line : String → Option ReceiptLine
unfolding read_parts split_at
read_line raw = read_parts (split_at b' ' raw)

abbrev add_line : Option ReceiptLine → List ReceiptLine × ℕ → List ReceiptLine × ℕ
add_line none (lines, malformed) = (lines, malformed + 1)
add_line (some line) (lines, malformed) = (line ∷ lines, malformed)

unfoldable pub read_lines : List String → List ReceiptLine × ℕ
unfolding read_line
read_lines [] = ([], 0)
read_lines (raw ∷ raws) =
    let rest = read_lines raws in if str_eq raw "" then rest else add_line (read_line raw) rest

-- `parse`, with the number of malformed lines.
unfoldable pub parse : String → List ReceiptLine × ℕ
unfolding read_lines split_at
parse body = read_lines (split_at b'\n' body)

abbrev pub drop_lines : ℕ → List ReceiptLine → List ReceiptLine
drop_lines zero lines = lines
drop_lines (suc n) [] = []
drop_lines (suc n) (line ∷ lines) = drop_lines n lines

-- `truncate`, with the number of lines that are dropped from the front.
unfoldable pub truncate : List ReceiptLine → List ReceiptLine × ℕ
truncate lines =
    let over = length lines - max_receipts_per_batch in
    if leb (length lines) max_receipts_per_batch then (lines, 0) else (drop_lines over lines, over)

-- The last revision of each certname, as `ingest` gathers it in a Map.
unfoldable pub latest_from : Dict String → List ReceiptLine → Dict String
unfolding put
latest_from m [] = m
latest_from m (line ∷ lines) = latest_from (put m line.certname line.revision) lines

abbrev pub is_key : String → String → Receipt → Bool
is_key peer certname r = str_eq r.peer_certname peer && str_eq r.certname certname

unfoldable pub find_receipt : String → String → List Receipt → Option Receipt
find_receipt peer certname [] = none
find_receipt peer certname (r ∷ rs) =
    if is_key peer certname r then some r else find_receipt peer certname rs

-- `compileReceipt.upsert`
unfoldable pub upsert_receipt : Receipt → List Receipt → List Receipt
upsert_receipt x [] = x ∷ []
upsert_receipt x (r ∷ rs) =
    if is_key x.peer_certname x.certname r then x ∷ rs else r ∷ upsert_receipt x rs

abbrev pub receipt_of : ℕ → String → List String → String → String → Receipt
receipt_of now peer known certname revision = record {
  peer_certname = peer;
  certname = certname;
  revision = revision;
  reported_at = now;
  matched_at_ingest = includes known certname;
}

-- The writes of `store`, given the certnames of the managed nodes.
unfoldable pub store : ℕ → String → List String → Dict String → List Receipt → List Receipt
unfolding upsert_receipt
store now peer known [] rows = rows
store now peer known ((certname, revision) ∷ m) rows =
    store now peer known m (upsert_receipt (receipt_of now peer known certname revision) rows)

unfoldable pub ingest :
    ℕ → String → List String → String → List Receipt → IngestResult × List Receipt
unfolding parse truncate latest_from store
ingest now peer known body rows =
    let (lines, malformed) = parse body in
    let (kept, discarded) = truncate lines in
    let latest = latest_from [] kept in
    (
      record { stored = length latest; malformed = malformed; discarded = discarded },
      store now peer known latest rows,
    )

abbrev is_orphaned : List String → Receipt → Bool
is_orphaned known r = r.matched_at_ingest && not (includes known r.certname)

-- `sweepOrphans`, with the number of rows that go.
unfoldable pub sweep_orphans : List String → List Receipt → ℕ × List Receipt
sweep_orphans known rows =
    let kept = keep (λ r. not (is_orphaned known r)) rows in (length rows - length kept, kept)
