-- ===== src/Materialization/Reconciler/Posix.antt =====
-- The sweep of reconciler.service.ts over the files of posix-enc-storage.ts.
use nexuspuppet.Base.{
  String, Bool, true, false, ◌&&◌, Option, none, some, List, ◌≡◌, ◌≢◌, refl, sym, ◌∙◌, ap, arith,
  str_eq, eq_iff, if◌then◌else◌, includes, Bool-cases, inl, inr, if_true,
}
use mathlib.Core.Path.{subst}
use mathlib.Core.Option.{some-injective}
use nexuspuppet.Base.Dict.{get}
use nexuspuppet.Materialization.Drain.{World}
use nexuspuppet.Materialization.Storage.{
  FileSystem, Read, contents, missing, denied, is_safe_certname, nodes_dir, yaml_name, removed_from,
  remove_at, remove_node, posix_writer,
}
use nexuspuppet.Materialization.Storage.Atomic.{IsPosix}
use nexuspuppet.Materialization.Storage.Settling.{IsJoining, node_file-safe, node_file-injective}
use nexuspuppet.Materialization.Reconciler.{TreeWriter, remove_listed}
use nexuspuppet.Materialization.Reconciler.Orphans.{IsRemoving, remove_listed-orphan}

-- What POSIX says of a removal that succeeds.
pub record IsErasing (fs : FileSystem) : Type 0 where
  pub erased :
      (d : fs.Disk) (p : fs.Location)
      → (fs.remove p d).0 ≡ true
      → fs.read_file (fs.remove p d).1 p ≡ missing

abbrev is_file : Read → Bool
is_file (contents text) = true
is_file denied = true
is_file missing = false

missing-of : (r : Read) → is_file r ≡ false → r ≡ missing
missing-of (contents text) h = cc
missing-of denied h = cc
missing-of missing h = refl

module _ (fs : FileSystem) (sha256 : String → String) (root : fs.Location) (uuid : fs.Disk → String)
    (list_certnames : fs.Disk → Option (List String))
    (write_revision : String → fs.Disk → Option fs.Disk)
    (tree_revision : fs.Disk → Option String) where
  open fs use {Location, Disk, read_file}

  -- The files of the storage, with whatever else the reconciler asks of them.
  abbrev pub posix_tree : TreeWriter
  posix_tree = record {
    writer = posix_writer fs sha256 root uuid;
    list_certnames = list_certnames;
    write_revision = write_revision;
    tree_revision = tree_revision;
  }

  abbrev pub file_of : String → Location
  file_of certname = fs.join (nodes_dir fs sha256 root) (yaml_name certname)

  -- There is a file of a certname that is let through.
  abbrev present : Disk → String → Bool
  present d certname = is_safe_certname certname && is_file (read_file d (file_of certname))

  removed_from-done :
      (r : Bool × Disk) (after : Disk)
      → removed_from fs sha256 root r ≡ some after
      → (r.0 ≡ true) × ((fs.sync (nodes_dir fs sha256 root) r.1).1 ≡ after)
  removed_from-done (true, d) after h = (refl, some-injective _ _ h)
  removed_from-done (false, d) after h = cc

  module _ (joining : IsJoining fs) (posix : IsPosix fs) (erasing : IsErasing fs) where
    remove_node-done :
        (d after : Disk) (certname : String)
        → remove_node fs sha256 root d certname ≡ some after
        → (is_safe_certname certname ≡ true)
          × ((fs.remove (file_of certname) d).0 ≡ true)
          × ((q : Location) → read_file after q ≡ read_file (fs.remove (file_of certname) d).1 q)
    unfolding remove_node
    remove_node-done d after certname h = elim (Bool-cases (is_safe_certname certname)) [
      | inl e ↦
          let removal : removed_from fs sha256 root (fs.remove (file_of certname) d) ≡ some after =
            ap (remove_at fs sha256 root d) (sym (node_file-safe fs sha256 root joining certname e))
            ∙ sym (if_true (is_safe_certname certname) _ none e)
            ∙ h in
          let (t, s) = removed_from-done (fs.remove (file_of certname) d) after removal in
          (e, t, λ q. ap (λ x. read_file x q) (sym s) ∙ posix.sync_same _ _ q)
      | inr e ↦ absurd (ground (arith, e, h))
    ]

    file_of-apart :
        (a b : String)
        → is_safe_certname a ≡ true
        → is_safe_certname b ≡ true
        → str_eq a b ≡ false
        → file_of b ≢ file_of a
    file_of-apart a b s t n e =
        let q : a ≡ b = node_file-injective fs sha256 root joining a b s t (
          node_file-safe fs sha256 root joining a s
          ∙ ap some (sym e)
          ∙ sym (node_file-safe fs sha256 root joining b t)) in
        absurd (ground (arith, n, (eq_iff a b).1 q))

    remove_node-gone :
        (d after : Disk) (certname other : String)
        → remove_node fs sha256 root d certname ≡ some after
        → present after other ≡ (if str_eq certname other then false else present d other)
    remove_node-gone d after certname other h =
        let (s, t, r) = remove_node-done d after certname h in
        elim (Bool-cases (is_safe_certname other)) [
          | inr f ↦ ground (arith, f)
          | inl f ↦ elim (Bool-cases (str_eq certname other)) [
            | inl q ↦
                let m : read_file after (file_of other) ≡ missing =
                  r (file_of other)
                  ∙ subst
                      (λ (x : String).
                        read_file (fs.remove (file_of certname) d).1 (file_of x) ≡ missing)
                      ((eq_iff certname other).0 q) (erasing.erased d (file_of certname) t) in
                ground (arith, f, q, ap is_file m)
            | inr q ↦
                let m : read_file after (file_of other) ≡ read_file d (file_of other) =
                  r (file_of other)
                  ∙ posix.remove_others d (file_of certname) (file_of other)
                      (file_of-apart certname other s f q) in
                ground (arith, f, q, ap is_file m)
          ]
        ]

    posix_tree-IsRemoving : IsRemoving posix_tree present
    posix_tree-IsRemoving = record { gone = remove_node-gone }

    can_remove :
        (certname : String)
        → is_safe_certname certname ≡ true
        → ((d : Disk) → (fs.remove (file_of certname) d).0 ≡ true)
        → (d : Disk) → remove_node fs sha256 root d certname ≢ none
    unfolding remove_node
    can_remove certname s can d e = never (fs.remove (file_of certname) d) (can d) (
        ap (remove_at fs sha256 root d) (sym (node_file-safe fs sha256 root joining certname s))
        ∙ sym (if_true (is_safe_certname certname) _ none s)
        ∙ e)
      where
        never : (r : Bool × Disk) → r.0 ≡ true → removed_from fs sha256 root r ≡ none → ⊥
        never (true, x) h k = absurd (cc (k))
        never (false, x) h k = absurd (cc (h))

    -- A file of the ENC folder that is listed under a certname which is let through, and which no
    -- node that the database knows has, is gone from the disk after the sweep, with the certname's
    -- row, where the calls of POSIX can remove it; what is listed beside it does not matter.
    pub remove_listed-erased :
        {N : Type 0} (known listed : List String) (certname : String) (w : World N Disk)
        → is_safe_certname certname ≡ true
        → ((d : Disk) → (fs.remove (file_of certname) d).0 ≡ true)
        → includes known certname ≡ false
        → includes listed certname ≡ true
        → (read_file (remove_listed posix_tree known listed w).1.files (file_of certname) ≡ missing)
          × (get (remove_listed posix_tree known listed w).1.materializations certname ≡ none)
    remove_listed-erased known listed certname w s can k l =
        let (f, m) =
          remove_listed-orphan posix_tree present posix_tree-IsRemoving known listed certname w
            (can_remove certname s can) k l in
        (missing-of _ (ground (arith, s, f)), m)
