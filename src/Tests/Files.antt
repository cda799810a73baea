-- ===== src/Tests/Files.antt =====
-- posix-enc-storage.ts on a disk in memory.
use nexuspuppet.Base.{
  ℕ, ◌≤◌, ◌⊎◌, Option, length, take, str_eq, eq_iff, arith, String, true, false, none, some, [],
  ◌∷◌, ◌≡◌, ◌≢◌, refl, if◌then◌else◌,
}
use nexuspuppet.Base.Dict.{Dict}
use nexuspuppet.Value.{Value, obj, Fields}
use nexuspuppet.Value.Text.{codes}
use nexuspuppet.Materialization.Merge.{EncDocument}
use nexuspuppet.Materialization.Drain.{World, MaterializationOutcome, RenderedEnc, materialize_node}
use nexuspuppet.Materialization.Classify.{classify}
use nexuspuppet.Materialization.Storage.Settling.{materialize_node-settles}
use nexuspuppet.Base.Sort.{sort}
use nexuspuppet.Value.Text.{text_before}
use nexuspuppet.Materialization.Merge.Values.{same_keys, names}
use nexuspuppet.Materialization.Renderer.{place_field, payload, render_enc_document}
use nexuspuppet.Materialization.Storage.{
  has_dots, write_node, contents, attempt, write_steps, atomic_write, is_safe_certname, yaml_name,
  posix_writer,
}
use nexuspuppet.Materialization.Storage.Certnames.{
  is_safe_certname-IsFileName, is_file_name, all_certname, no_separator,
}
use nexuspuppet.Materialization.Storage.Atomic.{write_steps-whole, atomic_write-outcome}
use nexuspuppet.Tests.Memory.{memory, memory-IsPosix, memory-IsJoining}
use nexuspuppet.Samples.{engine, web_node, group_set}

abbrev disk : Dict String
disk = ("web01.yaml", "old") ∷ []

differs : (a b : String) → str_eq a b ≡ false → a ≢ b
differs a b h e = absurd (ground (arith, h, e, eq_iff a b))

is_safe_certname-IsFileName_example :
    (all_certname (codes "web01.example") ≡ true)
    × (◌≤◌ (length (codes "web01.example")) 254)
    × (has_dots (codes "web01.example") ≡ false)
    × (is_file_name (yaml_name "web01.example") ≡ true)
unfolding is_safe_certname
is_safe_certname-IsFileName_example = is_safe_certname-IsFileName "web01.example" refl

-- The write is broken off after the second step, before the rename.
write_steps-whole_example :
    let e =
      (attempt memory
        (λ s. s)
        ""
        (take 2 (write_steps memory (λ s. s) "" ".0.tmp" "web01.yaml" "new"))
        disk).1 in
    ((memory.read_file e "web01.yaml" ≡ memory.read_file disk "web01.yaml")
      ⊎ (memory.read_file e "web01.yaml" ≡ contents "new"))
    × (memory.read_file e "db01.yaml" ≡ memory.read_file disk "db01.yaml")
write_steps-whole_example =
    write_steps-whole memory (λ s. s) "" memory-IsPosix ".0.tmp" "web01.yaml" "new" disk
      (differs "web01.yaml" ".0.tmp" refl) 2 "db01.yaml" (differs "db01.yaml" ".0.tmp" refl)
      (differs "db01.yaml" "web01.yaml" refl)

atomic_write-outcome_example :
    let (done, e) = atomic_write memory (λ s. s) "" "0" "" "web01.yaml" "new" disk in
    (memory.read_file e "web01.yaml"
      ≡ (if done then contents "new" else memory.read_file disk "web01.yaml"))
    × (memory.read_file e "db01.yaml" ≡ memory.read_file disk "db01.yaml")
atomic_write-outcome_example =
    atomic_write-outcome memory (λ s. s) "" memory-IsPosix "0" "" "web01.yaml" "new" disk
      (differs "web01.yaml" ".0.tmp" refl) refl "db01.yaml" (differs "db01.yaml" ".0.tmp" refl)
      (differs "db01.yaml" "web01.yaml" refl) refl

-- The node of the samples, with a rendering that parses back.
abbrev world : World ℕ (Dict String)
world = record {
  jobs = record { rows = []; next_id = 0 };
  managed_nodes = ("web01", web_node.facts) ∷ [];
  groups = group_set;
  materializations = [];
  files = [];
}

abbrev document : EncDocument ℕ
document = (classify engine web_node group_set).document

abbrev stringify : Fields ℕ → String
stringify fs = "classes"

abbrev parse : String → Option (Value ℕ)
parse text = some (obj (payload document))

abbrev render_web : EncDocument ℕ → Option RenderedEnc
render_web = render_enc_document engine stringify parse (λ s. s)

abbrev passed : Option (MaterializationOutcome ℕ × World ℕ (Dict String))
passed =
    materialize_node engine (posix_writer memory (λ s. s) "" (λ d. "0")) render_web 5 "web01" world

abbrev outcome_of :
    Option (MaterializationOutcome ℕ × World ℕ (Dict String))
    → MaterializationOutcome ℕ × World ℕ (Dict String)
outcome_of none = (
  record {
    certname = "";
    changed = false;
    content_hash = "";
    conflicts = [];
    applied_group_ids = [];
  },
  world,
)
outcome_of (some p) = p

materialize_node-settles_example :
    materialize_node engine
      (posix_writer memory (λ s. s) "" (λ d. "0"))
      render_web
      9
      "web01"
      (outcome_of passed).1
    ≡ some (record ((outcome_of passed).0) { changed = false }, (outcome_of passed).1)
unfolding materialize_node render_enc_document write_node atomic_write no_separator sort same_keys
    names text_before place_field
materialize_node-settles_example =
    materialize_node-settles memory (λ s. s) "" memory-IsJoining memory-IsPosix (λ d. "0")
      (λ d. refl) engine stringify parse 5 9 "web01" world (outcome_of passed).1
      (outcome_of passed).0 refl
