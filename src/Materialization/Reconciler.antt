-- ===== src/Materialization/Reconciler.antt =====
-- apps/api/src/materialization/reconciler.service.ts: the sweep that repairs the ENC directory.
pub mod Orphans
pub mod Posix
use Prim.Native.String
use nexuspuppet.Base.{
  ℕ, zero, suc, ◌+◌, String, Bool, true, false, Option, none, some, List, [], ◌∷◌, if◌then◌else◌,
  includes, ltb,
}
use nexuspuppet.Base.Dict.{Dict, remove, keys}
use nexuspuppet.Value.{Engine}
use nexuspuppet.Materialization.Merge.{EncDocument}
use nexuspuppet.Materialization.Queue.{enqueue_full_reconcile}
use nexuspuppet.Materialization.Drain.{EncFileWriter, World, Materialization, DrainResult}
use nexuspuppet.Replication.Receipts.{Receipt, sweep_orphans}

-- What the reconciler uses of the files besides, and the revision of the tree, which is computed
-- by a callback; `none` is what threw.
pub record TreeWriter : Type 1 where
  pub writer : EncFileWriter
  pub list_certnames : writer.Files → Option (List String)
  pub write_revision : String → writer.Files → Option writer.Files
  pub tree_revision : writer.Files → Option String

-- The database and the files, with the receipts, which a deployment may do without.
pub record Estate (N : Type 0) (F : Type 0) : Type 0 where
  pub world : World N F
  pub receipts : Option (List Receipt)

abbrev swept : List String → Option (List Receipt) → Option (List Receipt)
swept known none = none
swept known (some rows) = some (sweep_orphans known rows).1

module _ (tree : TreeWriter) where
  abbrev stamped_files : tree.writer.Files → Option tree.writer.Files → tree.writer.Files
  stamped_files files none = files
  stamped_files files (some after) = after

  abbrev stamped_with : tree.writer.Files → Option String → tree.writer.Files
  stamped_with files none = files
  stamped_with files (some revision) = stamped_files files (tree.write_revision revision files)

module _ {N : Type 0} (tree : TreeWriter) where
  abbrev one_removed :
      String → World N tree.writer.Files → Option tree.writer.Files → ℕ × World N tree.writer.Files
  one_removed certname w none = (0, w)
  one_removed certname w (some files) =
      (1, record w { files = files; materializations = remove w.materializations certname })

  abbrev plus : ℕ → ℕ × World N tree.writer.Files → ℕ × World N tree.writer.Files
  plus n (m, w) = (n + m, w)

  -- The loop of `removeOrphans`, with the number of files that it removes.
  unfoldable pub remove_listed :
      List String → List String → World N tree.writer.Files → ℕ × World N tree.writer.Files
  unfolding remove
  remove_listed known [] w = (0, w)
  remove_listed known (certname ∷ listed) w =
      let passed = remove_listed known listed w in
      let (n, v) = one_removed certname w (tree.writer.remove_node w.files certname) in
      let rest = plus n (remove_listed known listed v) in
      if includes known certname then passed else rest

  abbrev removed_listed :
      List String
      → Estate N tree.writer.Files
      → Option (List String)
      → Option ℕ × Estate N tree.writer.Files
  removed_listed known e none = (none, e)
  removed_listed known e (some listed) =
      let (n, w) = remove_listed known listed e.world in (some n, record e { world = w })

  -- `removeOrphans`; `none` is an error of the listing, which ends the reconcile.
  unfoldable pub remove_orphans : Estate N tree.writer.Files → Option ℕ × Estate N tree.writer.Files
  unfolding remove_listed sweep_orphans
  remove_orphans e =
      let known = keys e.world.managed_nodes in
      removed_listed known (record e { receipts = swept known e.receipts })
        (tree.list_certnames e.world.files)

  -- `stampRevision`, which never throws.
  abbrev pub stamp_revision : World N tree.writer.Files → World N tree.writer.Files
  stamp_revision w = record w { files = stamped_with tree w.files (tree.tree_revision w.files) }

  abbrev stamp_removed :
      Option ℕ × Estate N tree.writer.Files → Option ℕ × Estate N tree.writer.Files
  stamp_removed (none, e) = (none, e)
  stamp_removed (some zero, e) = (some 0, e)
  stamp_removed (some (suc n), e) = (some (suc n), record e { world = stamp_revision e.world })

  abbrev requested_sweep : ℕ → String → Estate N tree.writer.Files → Estate N tree.writer.Files
  requested_sweep now reason e =
      let w = e.world in
      record e {
        world = record w {
          jobs = enqueue_full_reconcile now (String.◌++◌ "reconcile:" reason) w.jobs;
        };
      }

  -- `reconcile`, which does nothing where another replica holds the lock.
  unfoldable pub reconcile :
      ℕ → Bool → String → Estate N tree.writer.Files → Option ℕ × Estate N tree.writer.Files
  unfolding remove_orphans enqueue_full_reconcile
  reconcile now locked reason e =
      if locked then stamp_removed (remove_orphans (requested_sweep now reason e)) else (some 0, e)

  -- What `tick` does after a drain.
  abbrev pub stamp_drained : DrainResult × World N tree.writer.Files → World N tree.writer.Files
  stamp_drained (result, w) = if ltb 0 result.files_changed then stamp_revision w else w
