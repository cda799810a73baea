-- ===== src/Materialization/Storage.antt =====
-- apps/api/src/materialization/posix-enc-storage.ts: the files of the ENC directory.
pub mod Certnames
pub mod Atomic
pub mod Settling
use Prim.Native.String
use Prim.Native.String.{◌∷◌ as cons, [] as empty}
use Prim.Native.Char.{Char}
use nexuspuppet.Base.{
  ℕ, zero, suc, String, Bool, true, false, not, ◌&&◌, ◌||◌, Option, none, some, List, [], ◌∷◌, ◌++◌,
  str_eq, leb, ◌==◌, if◌then◌else◌,
}
use nexuspuppet.Value.Text.{codes}
use nexuspuppet.Materialization.Drain.{EncFileWriter}

-- What `readFile` gives: the text, ENOENT, or another error.
pub data Read : Type 0 where
  contents : String → Read
  missing denied : Read

-- What `readdir` gives: the names with `isFile()`, ENOENT, or another error.
pub data Listing : Type 0 where
  entries : List (String × Bool) → Listing
  no_folder unlisted : Listing

-- What the program uses of node:path and node:fs, which are not in the repository. A call that can
-- fail gives false then, and the disk it leaves.
pub record FileSystem : Type 1 where
  pub Location : Type 0
  pub Disk : Type 0
  -- `join(folder, name)` and `path.startsWith(folder + sep)`
  pub join : Location → String → Location
  pub is_inside : Location → Location → Bool
  pub read_file : Disk → Location → Read
  pub read_dir : Disk → Location → Listing
  pub can_write : Disk → Location → Bool
  pub mkdir : Location → Disk → Bool × Disk
  pub write_file : Location → String → Disk → Bool × Disk
  -- `open`, `sync` and `close`
  pub sync : Location → Disk → Bool × Disk
  pub rename : Location → Location → Disk → Bool × Disk
  -- `rm` with `force`
  pub remove : Location → Disk → Bool × Disk

abbrev pub in_range : ℕ → ℕ → ℕ → Bool
in_range low high c = leb low c && leb c high

abbrev pub is_alphanumeric : ℕ → Bool
is_alphanumeric c = in_range b'A' b'Z' c || in_range b'a' b'z' c || in_range b'0' b'9' c

-- `[A-Za-z0-9._-]`
abbrev pub is_certname_char : ℕ → Bool
is_certname_char c = is_alphanumeric c || c == b'.' || c == b'_' || c == b'-'

-- `[A-Za-z0-9._-]{0,n}[A-Za-z0-9]`
unfoldable pub ends_well : ℕ → List ℕ → Bool
ends_well n [] = false
ends_well n (c ∷ []) = is_alphanumeric c
ends_well zero (c ∷ d ∷ cs) = false
ends_well (suc n) (c ∷ d ∷ cs) = is_certname_char c && ends_well n (d ∷ cs)

-- `SAFE_CERTNAME`
unfoldable pub matches_safe : List ℕ → Bool
unfolding ends_well
matches_safe [] = false
matches_safe (c ∷ []) = is_alphanumeric c
matches_safe (c ∷ d ∷ cs) = is_alphanumeric c && ends_well 252 (d ∷ cs)

-- `certname.includes('..')`
unfoldable pub has_dots : List ℕ → Bool
has_dots [] = false
has_dots (c ∷ []) = false
has_dots (c ∷ d ∷ cs) = c == b'.' && d == b'.' || has_dots (d ∷ cs)

-- Where `assertSafeCertname` does not throw.
unfoldable pub is_safe_certname : String → Bool
unfolding matches_safe has_dots
is_safe_certname certname = matches_safe (codes certname) && not (has_dots (codes certname))

abbrev pub yaml_name : String → String
yaml_name certname = String.◌++◌ certname ".yaml"

abbrev onto : Char → Option String → Option String
onto c none = none
onto c (some s) = some (cons c s)

-- `name.slice(0, -'.yaml'.length)`, where `name.endsWith('.yaml')`.
unfoldable pub without_yaml : String → Option String
without_yaml empty = none
without_yaml (cons c s) =
    let rest = onto c (without_yaml s) in if str_eq (cons c s) ".yaml" then some "" else rest

abbrev listed : Option String → List String → List String
listed none names = names
listed (some certname) names = certname ∷ names

unfoldable pub certnames_of : List (String × Bool) → List String
unfolding without_yaml
certnames_of [] = []
certnames_of ((name, is_file) ∷ es) =
    let rest = certnames_of es in if is_file then listed (without_yaml name) rest else rest

-- `listMaterializedCertnames`, given the directory; `none` where it throws.
abbrev pub list_materialized_certnames : Listing → Option (List String)
list_materialized_certnames (entries es) = some (certnames_of es)
list_materialized_certnames no_folder = some []
list_materialized_certnames unlisted = none

module _ (fs : FileSystem) (sha256 : String → String) (root : fs.Location) where
  open fs use {Location, Disk}

  abbrev pub nodes_dir : Location
  nodes_dir = fs.join root "nodes"

  -- Steps one after the other, up to the first that fails.
  unfoldable pub attempt : List (Disk → Bool × Disk) → Disk → Bool × Disk
  attempt [] d = (true, d)
  attempt (step ∷ steps) d =
      let (done, e) = step d in let rest = attempt steps e in if done then rest else (false, e)

  -- The temporary file of one write, next to the target.
  abbrev pub temporary : Location → String → Location
  temporary folder uuid = fs.join folder (String.◌++◌ "." (String.◌++◌ uuid ".tmp"))

  -- What `atomicWrite` does inside its `try`.
  abbrev pub write_steps : Location → Location → String → List (Disk → Bool × Disk)
  write_steps tmp target text = fs.write_file tmp text ∷ fs.sync tmp ∷ fs.rename tmp target ∷ []

  -- Its `catch`, which removes the temporary file and throws.
  abbrev pub clean_up : Location → Bool × Disk → Bool × Disk
  clean_up tmp (true, d) = (true, d)
  clean_up tmp (false, d) = (false, (fs.remove tmp d).1)

  abbrev pub in_folder : (Disk → Bool × Disk) → Bool × Disk → Bool × Disk
  in_folder write (true, d) = write d
  in_folder write (false, d) = (false, d)

  -- `atomicWrite` of `name` in a folder, the `dirname` of their `join`; false is the error that it
  -- throws.
  unfoldable pub atomic_write : String → Location → String → String → Disk → Bool × Disk
  unfolding attempt
  atomic_write uuid folder name text d =
      let tmp = temporary folder uuid in
      in_folder (λ e. clean_up tmp (attempt (write_steps tmp (fs.join folder name) text) e))
        (fs.mkdir folder d)

  -- `nodeFile`, which throws where the path escapes the folder.
  unfoldable pub node_file : String → Option Location
  node_file certname =
      let path = fs.join nodes_dir (yaml_name certname) in
      if fs.is_inside path nodes_dir then some path else none

  -- `matchesOnDisk`
  abbrev pub matches_on_disk : Read → String → Option Bool
  matches_on_disk missing hash = some false
  matches_on_disk denied hash = none
  matches_on_disk (contents text) hash = some (str_eq (sha256 text) hash)

  abbrev pub written_now : Bool × Disk → Option (Bool × Disk)
  written_now (true, d) = some (true, d)
  written_now (false, d) = none

  abbrev pub write_unless : String → String → String → Disk → Option Bool → Option (Bool × Disk)
  write_unless uuid certname yaml d none = none
  write_unless uuid certname yaml d (some true) = some (false, d)
  write_unless uuid certname yaml d (some false) =
      written_now (atomic_write uuid nodes_dir (yaml_name certname) yaml d)

  abbrev pub write_to :
      String → String → String → String → Disk → Option Location → Option (Bool × Disk)
  write_to uuid certname yaml hash d none = none
  write_to uuid certname yaml hash d (some target) =
      write_unless uuid certname yaml d (matches_on_disk (fs.read_file d target) hash)

  -- `writeNode`; `none` where it throws.
  unfoldable pub write_node : String → Disk → String → String → String → Option (Bool × Disk)
  unfolding is_safe_certname node_file atomic_write
  write_node uuid d certname yaml hash =
      if is_safe_certname certname
      then write_to uuid certname yaml hash d (node_file certname)
      else none

  -- After the removal the folder is synced, and an error of that is logged only.
  abbrev pub removed_from : Bool × Disk → Option Disk
  removed_from (true, d) = some (fs.sync nodes_dir d).1
  removed_from (false, d) = none

  abbrev pub remove_at : Disk → Option Location → Option Disk
  remove_at d none = none
  remove_at d (some target) = removed_from (fs.remove target d)

  -- `removeNode`
  unfoldable pub remove_node : Disk → String → Option Disk
  unfolding is_safe_certname node_file
  remove_node d certname =
      if is_safe_certname certname then remove_at d (node_file certname) else none

  -- `ensureLayout`, `writeDefault` and `writeRevision`
  abbrev pub ensure_layout : Disk → Bool × Disk
  ensure_layout d = fs.mkdir nodes_dir d

  unfoldable pub write_default : String → String → Disk → Bool × Disk
  unfolding atomic_write
  write_default uuid yaml d = atomic_write uuid root "default.yaml" yaml d

  unfoldable pub write_revision : String → String → Disk → Bool × Disk
  unfolding atomic_write
  write_revision uuid revision d = atomic_write uuid root ".revision" (String.◌++◌ revision "\n") d

  -- What the materializer sees of this storage, given the UUIDs it draws.
  abbrev pub posix_writer : (Disk → String) → EncFileWriter
  posix_writer uuid = record {
    Files = Disk;
    write_node = λ d. write_node (uuid d) d;
    remove_node = remove_node;
  }
