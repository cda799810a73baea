-- ===== src/Replication/Receipts/Laws.antt =====
-- What compile-receipts.service.ts keeps of the receipts of a peer.
use nexuspuppet.Base.{
  ℕ, String, Option, none, some, List, [], ◌∷◌, ◌≡◌, refl, sym, ◌∙◌, ap, arith, str_eq, eq_iff,
  if◌then◌else◌, Bool-cases, inl, inr,
}
use nexuspuppet.Base.Dict.{Dict, get, put, get-put}
use nexuspuppet.Replication.Receipts.{
  Receipt, ReceiptLine, is_key, find_receipt, upsert_receipt, receipt_of, latest_from, store,
  ingest, parse, truncate,
}

-- The last revision that the lines give a certname.
abbrev pub last_revision : String → Option String → List ReceiptLine → Option String
last_revision certname found [] = found
last_revision certname found (line ∷ lines) =
    last_revision certname (if str_eq line.certname certname then some line.revision else found)
      lines

get-latest_from :
    (m : Dict String) (lines : List ReceiptLine) (certname : String)
    → get (latest_from m lines) certname ≡ last_revision certname (get m certname) lines
unfolding latest_from
get-latest_from m [] certname = refl
get-latest_from m (line ∷ lines) certname =
    get-latest_from (put m line.certname line.revision) lines certname
    ∙ ap (λ o. last_revision certname o lines) (get-put m line.certname line.revision certname)

-- No key twice.
abbrev Once : Dict String → Type 0
Once [] = Unit
Once ((k, v) ∷ m) = (get m k ≡ none) × Once m

Once-put : (m : Dict String) (k v : String) → Once m → Once (put m k v)
unfolding put get
Once-put [] k v o = (refl, tt)
Once-put ((j, w) ∷ m) k v (n, o) = elim (Bool-cases (str_eq j k)) [
  | inl e ↦ rw e (n, o)
  | inr e ↦ rw e (get-put m k v j ∙ ground (arith, e, n, eq_iff j k, eq_iff k j), Once-put m k v o)
]

Once-latest_from :
    (m : Dict String) (lines : List ReceiptLine) → Once m → Once (latest_from m lines)
unfolding latest_from
Once-latest_from m [] o = o
Once-latest_from m (line ∷ lines) o =
    Once-latest_from (put m line.certname line.revision) lines
      (Once-put m line.certname line.revision o)

find_receipt-upsert :
    (x : Receipt) (rows : List Receipt) (peer certname : String)
    → find_receipt peer certname (upsert_receipt x rows)
      ≡ (if is_key peer certname x then some x else find_receipt peer certname rows)
unfolding find_receipt upsert_receipt
find_receipt-upsert x [] peer certname = refl
find_receipt-upsert x (r ∷ rs) peer certname = ground (
  arith,
  find_receipt-upsert x rs peer certname,
  eq_iff r.peer_certname x.peer_certname,
  eq_iff r.certname x.certname,
  eq_iff x.peer_certname peer,
  eq_iff x.certname certname,
  eq_iff r.peer_certname peer,
  eq_iff r.certname certname,
)

-- The row of a peer that reports for a certname, or the one there was.
abbrev pub reported :
    ℕ → String → List String → String → Option String → Option Receipt → Option Receipt
reported now peer known certname none before = before
reported now peer known certname (some revision) before =
    some (receipt_of now peer known certname revision)

find_receipt-store :
    (now : ℕ) (peer : String) (known : List String) (m : Dict String) (rows : List Receipt)
    (asked certname : String)
    → Once m
    → find_receipt asked certname (store now peer known m rows) ≡ (
        if str_eq peer asked
        then reported now peer known certname (get m certname) (find_receipt asked certname rows)
        else find_receipt asked certname rows)
unfolding store get
find_receipt-store now peer known [] rows asked certname o = ground arith
find_receipt-store now peer known ((k, v) ∷ m) rows asked certname (n, o) =
    let x = receipt_of now peer known k v in
    find_receipt-store now peer known m (upsert_receipt x rows) asked certname o
    ∙ rw (find_receipt-upsert x rows asked certname) (elim (Bool-cases (str_eq k certname)) [
      | inl e ↦
          let q : k ≡ certname = (eq_iff k certname).0 e in
          rw (ap (get m) (sym q) ∙ n) (ground (arith, e, ap (λ c. receipt_of now peer known c v) q))
      | inr e ↦ ground (arith, e)
    ])

-- What a batch leaves: the reporting peer's row of a certname is the last line of the kept ones
-- that names it, with the time of the batch, a certname that none of them names keeps its row, and
-- the rows of every other peer stay as they are.
pub find_receipt-ingest :
    (now : ℕ) (peer : String) (known : List String) (body : String) (rows : List Receipt)
    (asked certname : String)
    → find_receipt asked certname (ingest now peer known body rows).1 ≡ (
        if str_eq peer asked
        then reported now peer known certname
            (last_revision certname none (truncate (parse body).0).0)
            (find_receipt asked certname rows)
        else find_receipt asked certname rows)
unfolding ingest get
find_receipt-ingest now peer known body rows asked certname =
    let lines = (truncate (parse body).0).0 in
    find_receipt-store now peer known (latest_from [] lines) rows asked certname
      (Once-latest_from [] lines tt)
    ∙ ap
        (λ o.
          if str_eq peer asked
          then reported now peer known certname o (find_receipt asked certname rows)
          else find_receipt asked certname rows)
        (get-latest_from [] lines certname)

-- A batch that is uploaded again leaves what the second upload alone would have left.
pub ingest-replayed :
    (now later : ℕ) (peer : String) (known after : List String) (body : String)
    (rows : List Receipt) (asked certname : String)
    → find_receipt asked certname
        (ingest later peer after body (ingest now peer known body rows).1).1
      ≡ find_receipt asked certname (ingest later peer after body rows).1
ingest-replayed now later peer known after body rows asked certname =
    find_receipt-ingest later peer after body (ingest now peer known body rows).1 asked certname
    ∙ again (last_revision certname none (truncate (parse body).0).0)
        (find_receipt-ingest now peer known body rows asked certname)
    ∙ sym (find_receipt-ingest later peer after body rows asked certname)
  where
    again :
        (o : Option String)
        → find_receipt asked certname (ingest now peer known body rows).1 ≡ (
            if str_eq peer asked
            then reported now peer known certname o (find_receipt asked certname rows)
            else find_receipt asked certname rows)
        → (if str_eq peer asked
            then reported later peer after certname o
                (find_receipt asked certname (ingest now peer known body rows).1)
            else find_receipt asked certname (ingest now peer known body rows).1)
          ≡ (if str_eq peer asked
              then reported later peer after certname o (find_receipt asked certname rows)
              else find_receipt asked certname rows)
    again none e = ground (arith, e)
    again (some v) e = ground (arith, e)
