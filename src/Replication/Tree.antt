-- ===== src/Replication/Tree.antt =====
-- apps/api/src/replication/enc-replication.service.ts: the ENC tree as an archive, and the peers that
-- fetched it.
pub mod Stable
use Prim.Native.String
use nexuspuppet.Base.{
  ℕ, ◌+◌, ◌-◌, ◌/◌, ◌%◌, String, Bool, true, false, ◌&&◌, Option, none, some, List, [], ◌∷◌, ◌++◌,
  map, ltb, ◌==◌, if◌then◌else◌, length, keep,
}
use nexuspuppet.Base.Sort.{sort}
use nexuspuppet.Base.Dict.{Dict, get, put}
use nexuspuppet.Value.Text.{codes, text_before}
use nexuspuppet.Materialization.Storage.{
  Read, contents, missing, denied, Listing, entries, no_folder, unlisted, FileSystem, without_yaml,
}
use nexuspuppet.Replication.Ustar.{Bytes, TarEntry, build_tar}

-- An entry before its name is encoded.
pub record TreeFile : Type 0 where
  pub name : String
  pub content : String

pub record EncTree : Type 0 where
  pub etag : String
  pub archive : Bytes
  pub file_count : ℕ

-- The UTF-8 bytes of a code point.
abbrev utf8_of : ℕ → Bytes
utf8_of c =
    if ltb c 0x80
    then c ∷ []
    else if ltb c 0x800
    then (0xc0 + c / 64) ∷ (0x80 + c % 64) ∷ []
    else if ltb c 0x10000
    then (0xe0 + c / 4096) ∷ (0x80 + c / 64 % 64) ∷ (0x80 + c % 64) ∷ []
    else (0xf0 + c / 262144) ∷ (0x80 + c / 4096 % 64) ∷ (0x80 + c / 64 % 64) ∷ (0x80 + c % 64) ∷ []

abbrev utf8_from : List ℕ → Bytes
utf8_from [] = []
utf8_from (c ∷ cs) = utf8_of c ++ utf8_from cs

-- The bytes of a text, in a file or in an archive.
unfoldable pub utf8 : String → Bytes
utf8 s = utf8_from (codes s)

abbrev is_given : Option String → Bool
is_given none = false
is_given (some s) = true

-- `d.isFile() && d.name.endsWith('.yaml')`
abbrev pub is_served : String × Bool → Bool
is_served (name, is_file) = is_file && is_given (without_yaml name)

abbrev pub name_of : String × Bool → String
name_of (name, is_file) = name

-- The names of the listing, or `none` where it throws.
abbrev pub names_in : Listing → Option (List String)
names_in (entries es) = some (map name_of (keep is_served es))
names_in no_folder = some []
names_in unlisted = none

abbrev add_file : String → Read → Option (List TreeFile) → Option (List TreeFile)
add_file name denied rest = none
add_file name missing rest = rest
add_file name (contents text) none = none
add_file name (contents text) (some files) =
    some (record { name = String.◌++◌ "nodes/" name; content = text } ∷ files)

-- The loop over the names; a file that is gone is passed over.
abbrev pub read_nodes : (String → Read) → List String → Option (List TreeFile)
read_nodes read [] = some []
read_nodes read (name ∷ names) = add_file name (read name) (read_nodes read names)

abbrev read_listed : (String → Read) → Option (List String) → Option (List TreeFile)
read_listed read none = none
read_listed read (some names) = read_nodes read (sort text_before names)

abbrev pub with_default : Read → Option (List TreeFile) → Option (List TreeFile)
with_default denied rest = none
with_default missing rest = rest
with_default (contents text) none = none
with_default (contents text) (some files) =
    some (record { name = "default.yaml"; content = text } ∷ files)

abbrev pub name_before : TreeFile → TreeFile → Bool
name_before a b = text_before a.name b.name

abbrev pub tar_entry : TreeFile → TarEntry
tar_entry file = record { name = utf8 file.name; content = utf8 file.content }

-- The hash of the archive is a parameter.
module _ (sha256 : Bytes → String) where
  abbrev tree_with : List TreeFile → Option Bytes → Option EncTree
  tree_with files none = none
  tree_with files (some archive) =
      some (record { etag = sha256 archive; archive = archive; file_count = length files })

  abbrev pub packed_tree : Option (List TreeFile) → Option EncTree
  packed_tree none = none
  packed_tree (some files) = tree_with files (build_tar 0 (map tar_entry (sort name_before files)))

  -- `readTree`, from what its calls give; `none` where it throws.
  unfoldable pub tree_of : Read → Listing → (String → Read) → Option EncTree
  tree_of default listing read =
      packed_tree (with_default default (read_listed read (names_in listing)))

  module _ (fs : FileSystem) (enc_dir : fs.Location) where
    unfoldable pub read_tree : fs.Disk → Option EncTree
    unfolding tree_of
    read_tree disk =
        let nodes = fs.join enc_dir "nodes" in
        tree_of (fs.read_file disk (fs.join enc_dir "default.yaml")) (fs.read_dir disk nodes)
          λ name. fs.read_file disk (fs.join nodes name)

-- A row of `EncReplicationPeer`.
pub record Peer : Type 0 where
  pub last_fetch_at : ℕ
  pub last_etag : String
  pub last_status : ℕ
  pub last_changed_at : Option ℕ
  pub fetch_count : ℕ

abbrev changed_at : ℕ → ℕ → Option ℕ → Option ℕ
changed_at now status previous = if status == 200 then some now else previous

abbrev pub peer_after : ℕ → String → ℕ → Option Peer → Peer
peer_after now etag status none = record {
  last_fetch_at = now;
  last_etag = etag;
  last_status = status;
  last_changed_at = changed_at now status none;
  fetch_count = 1;
}
peer_after now etag status (some p) = record {
  last_fetch_at = now;
  last_etag = etag;
  last_status = status;
  last_changed_at = changed_at now status p.last_changed_at;
  fetch_count = p.fetch_count + 1;
}

-- `recordFetch`, by whether the database takes the write; where it does not, it only warns.
unfoldable pub record_fetch : Bool → ℕ → String → String → ℕ → Dict Peer → Dict Peer
record_fetch written now certname etag status peers =
    if written then put peers certname (peer_after now etag status (get peers certname)) else peers
