-- ===== src/Tests/Archives.antt =====
-- ustar.ts and enc-replication.service.ts on small archives.
use mathlib.Core.List.{Permᴰ}
use nexuspuppet.Base.{
  ◌*◌, inr, ℕ, ◌+◌, ◌%◌, ◌≤◌, String, true, some, List, [], ◌∷◌, ◌≡◌, refl, arith, length, keep,
}
use nexuspuppet.Base.Dict.{get}
use nexuspuppet.Materialization.Storage.{without_yaml, Read, contents, missing, entries}
use nexuspuppet.Replication.Ustar.{octal_digits, Bytes, TarEntry, build_tar, filled, octal}
use nexuspuppet.Replication.Ustar.Header.{IsTarName}
use nexuspuppet.Replication.Ustar.RoundTrip.{read_archive, build_tar-read}
use nexuspuppet.Replication.Ustar.Length.{blocks, length-build_tar}
use nexuspuppet.Value.Text.{text_before, lists_before, code_units}
use nexuspuppet.Replication.Tree.{tree_of}
use nexuspuppet.Replication.Tree.Stable.{
  Fetch, fetched, is_of, last_moved, fetches_of, moved_of, fetched-row, tree_of-perm,
}

abbrev file : TarEntry
file = record { name = b'n' ∷ b'/' ∷ b'a' ∷ []; content = b'-' ∷ b'-' ∷ b'-' ∷ [] }

file-IsTarName : IsTarName file.name
file-IsTarName = record {
  short = omega arith;
  filled_in = omega arith;
  bytes = (omega arith, (omega arith, (omega arith, tt)));
  no_nul = (omega arith, (omega arith, (omega arith, tt)));
}

abbrev long_name : TarEntry
long_name = record { name = filled b'n' 101; content = [] }

-- A size of more than eleven digits loses its last ones.
octal_overflow : octal (8 * 8 * 8) 4 ≡ octal 64 4
unfolding octal_digits filled
octal_overflow = refl

build_tar-read_example :
    (bytes : Bytes) × (build_tar 7 (file ∷ file ∷ []) ≡ some bytes)
    × (read_archive 3 bytes ≡ some (file ∷ file ∷ []))
build_tar-read_example =
    build_tar-read 7 (file ∷ file ∷ [])
      ((file-IsTarName, omega arith), ((file-IsTarName, omega arith), tt))

length-build_tar_example :
    (bytes : Bytes) × (build_tar 7 (file ∷ file ∷ []) ≡ some bytes)
    × (length bytes % 10240 ≡ 0)
    × (blocks (file ∷ file ∷ []) + 1024 ≤ length bytes)
length-build_tar_example = length-build_tar 7 (file ∷ file ∷ []) refl

abbrev read : String → Read
read name = contents name

tree_of-perm_example :
    tree_of (λ bytes. "hash") missing (entries (("b.yaml", true) ∷ ("a.yaml", true) ∷ [])) read
    ≡ tree_of (λ bytes. "hash") missing (entries (("a.yaml", true) ∷ ("b.yaml", true) ∷ [])) read
unfolding without_yaml text_before lists_before code_units
tree_of-perm_example =
    tree_of-perm (λ bytes. "hash") missing read (Permᴰ.swap refl refl) ((inr refl, tt), (tt, tt))

abbrev fetch : ℕ → String → ℕ → Fetch
fetch now certname status = record {
  written = true;
  now = now;
  certname = certname;
  etag = "e";
  status = status;
}

abbrev fetches : List Fetch
fetches = fetch 1 "p" 200 ∷ fetch 2 "q" 200 ∷ fetch 3 "p" 304 ∷ []

fetched-row_example :
    (fetches_of (get (fetched fetches []) "p")
      ≡ length (keep (is_of "p") fetches) + fetches_of (get [] "p"))
    × (moved_of (get (fetched fetches []) "p") ≡ last_moved "p" fetches (moved_of (get [] "p")))
fetched-row_example = fetched-row fetches [] "p"
