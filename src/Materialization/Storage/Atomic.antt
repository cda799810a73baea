-- ===== src/Materialization/Storage/Atomic.antt =====
-- That a write of posix-enc-storage.ts is seen whole or not at all.
use mathlib.Core.Path.{subst}
use nexuspuppet.Base.{
  ℕ, zero, suc, String, Bool, true, false, List, [], ◌∷◌, ◌≡◌, ◌≢◌, ◌⊎◌, inl, inr, refl, sym, ◌∙◌,
  ap, take, if◌then◌else◌,
}
use nexuspuppet.Materialization.Storage.{
  FileSystem, contents, attempt, write_steps, temporary, clean_up, in_folder, atomic_write,
}

-- What POSIX says of the calls, as far as it is used: a call leaves what every other file reads as,
-- also where it fails, making a folder leaves the files inside it, and a file that was written reads
-- as what was written, until it is renamed.
pub record IsPosix (fs : FileSystem) : Type 0 where
  pub mkdir_others :
      (d : fs.Disk) (p q : fs.Location)
      → fs.is_inside q p ≡ true
      → fs.read_file (fs.mkdir p d).1 q ≡ fs.read_file d q
  pub write_others :
      (d : fs.Disk) (p q : fs.Location) (text : String)
      → q ≢ p
      → fs.read_file (fs.write_file p text d).1 q ≡ fs.read_file d q
  pub write_done :
      (d : fs.Disk) (p : fs.Location) (text : String)
      → (fs.write_file p text d).0 ≡ true
      → fs.read_file (fs.write_file p text d).1 p ≡ contents text
  pub sync_same :
      (d : fs.Disk) (p q : fs.Location) → fs.read_file (fs.sync p d).1 q ≡ fs.read_file d q
  pub rename_others :
      (d : fs.Disk) (p q r : fs.Location)
      → r ≢ p
      → r ≢ q
      → fs.read_file (fs.rename p q d).1 r ≡ fs.read_file d r
  pub rename_done :
      (d : fs.Disk) (p q : fs.Location)
      → (fs.rename p q d).0 ≡ true
      → fs.read_file (fs.rename p q d).1 q ≡ fs.read_file d p
  pub rename_failed :
      (d : fs.Disk) (p q r : fs.Location)
      → (fs.rename p q d).0 ≡ false
      → fs.read_file (fs.rename p q d).1 r ≡ fs.read_file d r
  pub remove_others :
      (d : fs.Disk) (p q : fs.Location)
      → q ≢ p
      → fs.read_file (fs.remove p d).1 q ≡ fs.read_file d q

module _ (fs : FileSystem) (sha256 : String → String) (root : fs.Location)
    (posix : IsPosix fs) where
  open fs use {Location, Disk, read_file}

  abbrev attempted : List (Disk → Bool × Disk) → Disk → Bool × Disk
  attempted = attempt fs sha256 root

  abbrev steps : Location → Location → String → List (Disk → Bool × Disk)
  steps = write_steps fs sha256 root

  -- Steps that begin with one that fails, or with one that does not.
  attempted-cons :
      (Q : Bool × Disk → Type 0) (step : Disk → Bool × Disk) (rest : List (Disk → Bool × Disk))
      (d : Disk)
      → ((step d).0 ≡ false → Q (false, (step d).1))
      → ((step d).0 ≡ true → Q (attempted rest (step d).1))
      → Q (attempted (step ∷ rest) d)
  unfolding attempt
  attempted-cons Q step rest d f t = by_outcome (step d) f t
    where
      by_outcome :
          (r : Bool × Disk)
          → (r.0 ≡ false → Q (false, r.1))
          → (r.0 ≡ true → Q (attempted rest r.1))
          → Q (if r.0 then attempted rest r.1 else (false, r.1))
      by_outcome (true, e) f t = t refl
      by_outcome (false, e) f t = f refl

  module _ (tmp target : Location) (text : String) (d : Disk) (apart : target ≢ tmp) where
    -- The other files are as they were, and the target reads as before or as the new text.
    abbrev Whole : Bool × Disk → Type 0
    Whole (done, e) =
        ((q : Location) → q ≢ tmp → q ≢ target → read_file e q ≡ read_file d q)
        × ((read_file e target ≡ read_file d target) ⊎ (read_file e target ≡ contents text))

    -- The same, and which of the two goes by whether every step succeeded.
    abbrev Decided : Bool × Disk → Type 0
    Decided (done, e) =
        ((q : Location) → q ≢ tmp → q ≢ target → read_file e q ≡ read_file d q)
        × (read_file e target ≡ (if done then contents text else read_file d target))

    written_others :
        (q : Location) → q ≢ tmp → read_file (fs.write_file tmp text d).1 q ≡ read_file d q
    written_others q h = posix.write_others d tmp q text h

    synced_others :
        (q : Location)
        → q ≢ tmp
        → read_file (fs.sync tmp (fs.write_file tmp text d).1).1 q ≡ read_file d q
    synced_others q h = posix.sync_same _ tmp q ∙ written_others q h

    renamed-Decided :
        (e : Disk)
        → ((q : Location) → q ≢ tmp → read_file e q ≡ read_file d q)
        → read_file e tmp ≡ contents text
        → Decided (attempted (fs.rename tmp target ∷ []) e)
    renamed-Decided e others new =
        attempted-cons Decided (fs.rename tmp target) [] e
          (λ f. (
            λ q a b. posix.rename_failed e tmp target q f ∙ others q a,
            posix.rename_failed e tmp target target f ∙ others target apart,
          ))
          (λ t.
            unfold attempt in
            (
              λ q a b. posix.rename_others e tmp target q a b ∙ others q a,
              posix.rename_done e tmp target t ∙ new,
            ))

    steps-Decided : Decided (attempted (steps tmp target text) d)
    steps-Decided =
        attempted-cons Decided (fs.write_file tmp text) _ d
          (λ f. (λ q a b. written_others q a, written_others target apart))
          (λ t.
            attempted-cons Decided (fs.sync tmp) _ (fs.write_file tmp text d).1
              (λ f. (λ q a b. synced_others q a, synced_others target apart))
              (λ u.
                renamed-Decided _ synced_others
                  (posix.sync_same _ tmp tmp ∙ posix.write_done d tmp text t)))

    Whole-of : (r : Bool × Disk) → Decided r → Whole r
    Whole-of (true, e) (o, t) = (o, inr t)
    Whole-of (false, e) (o, t) = (o, inl t)

    steps-Whole : (n : ℕ) → Whole (attempted (take n (steps tmp target text)) d)
    unfolding attempt
    steps-Whole zero = (λ q a b. refl, inl refl)
    steps-Whole (suc zero) =
        attempted-cons Whole (fs.write_file tmp text) [] d
          (λ f. (λ q a b. written_others q a, inl (written_others target apart)))
          (λ t. (λ q a b. written_others q a, inl (written_others target apart)))
    steps-Whole (suc (suc zero)) =
        attempted-cons Whole (fs.write_file tmp text) (fs.sync tmp ∷ []) d
          (λ f. (λ q a b. written_others q a, inl (written_others target apart)))
          (λ t.
            attempted-cons Whole (fs.sync tmp) [] (fs.write_file tmp text d).1
              (λ f. (λ q a b. synced_others q a, inl (synced_others target apart)))
              (λ u. (λ q a b. synced_others q a, inl (synced_others target apart))))
    steps-Whole (suc (suc (suc n))) =
        subst (λ l. Whole (attempted l d))
          (ap (λ l. fs.write_file tmp text ∷ fs.sync tmp ∷ fs.rename tmp target ∷ l)
            (sym (none_taken n)))
          (Whole-of _ steps-Decided)
      where
        none_taken : (n : ℕ) → ◌≡◌ {A = List (Disk → Bool × Disk)} (take n []) []
        none_taken zero = refl
        none_taken (suc n) = refl

    -- At whatever point the steps of a write are broken off, the file reads as it did before or as
    -- the whole new text, and no other file but the temporary one has changed.
    pub write_steps-whole :
        (n : ℕ) (q : Location)
        → q ≢ tmp
        → q ≢ target
        → let e = (attempted (take n (steps tmp target text)) d).1 in
          ((read_file e target ≡ read_file d target) ⊎ (read_file e target ≡ contents text))
          × (read_file e q ≡ read_file d q)
    write_steps-whole n q a b = let (o, w) = steps-Whole n in (w, o q a b)

  module _ (uuid : String) (folder : Location) (name text : String) (d : Disk)
      (apart : fs.join folder name ≢ temporary fs sha256 root folder uuid)
      (inside : fs.is_inside (fs.join folder name) folder ≡ true) where
    -- What a write comes to, for the files of its folder but the temporary one.
    abbrev pub Outcome : Bool × Disk → Type 0
    Outcome (done, e) =
        ((q : Location)
          → q ≢ temporary fs sha256 root folder uuid
          → q ≢ fs.join folder name
          → fs.is_inside q folder ≡ true
          → read_file e q ≡ read_file d q)
        × (read_file e (fs.join folder name)
            ≡ (if done then contents text else read_file d (fs.join folder name)))

    cleaned :
        (e : Disk)
        → ((q : Location) → fs.is_inside q folder ≡ true → read_file e q ≡ read_file d q)
        → (r : Bool × Disk)
        → Decided (temporary fs sha256 root folder uuid) (fs.join folder name) text e apart r
        → Outcome (clean_up fs sha256 root (temporary fs sha256 root folder uuid) r)
    cleaned e same (true, v) (o, t) = (λ q a b c. o q a b ∙ same q c, t)
    cleaned e same (false, v) (o, t) = (
      λ q a b c. posix.remove_others v _ q a ∙ o q a b ∙ same q c,
      posix.remove_others v _ _ apart ∙ t ∙ same _ inside,
    )

    in_folder-Outcome :
        (r : Bool × Disk)
        → ((q : Location) → fs.is_inside q folder ≡ true → read_file r.1 q ≡ read_file d q)
        → Outcome (
            in_folder fs sha256 root
              (λ e. clean_up fs sha256 root (temporary fs sha256 root folder uuid) (
                attempted
                  (steps (temporary fs sha256 root folder uuid) (fs.join folder name) text)
                  e))
              r)
    in_folder-Outcome (true, e) same =
        cleaned e same _
          (steps-Decided (temporary fs sha256 root folder uuid) (fs.join folder name) text e apart)
    in_folder-Outcome (false, e) same = (λ q a b c. same q c, same _ inside)

    pub decided : Outcome (atomic_write fs sha256 root uuid folder name text d)
    unfolding atomic_write
    decided = in_folder-Outcome (fs.mkdir folder d) (λ q c. posix.mkdir_others d folder q c)

    -- A write that succeeds leaves the new text, one that throws leaves what was there, and both
    -- leave the folder's other files, but for the temporary one.
    pub atomic_write-outcome :
        (q : Location)
        → q ≢ temporary fs sha256 root folder uuid
        → q ≢ fs.join folder name
        → fs.is_inside q folder ≡ true
        → let (done, e) = atomic_write fs sha256 root uuid folder name text d in
          (read_file e (fs.join folder name)
            ≡ (if done then contents text else read_file d (fs.join folder name)))
          × (read_file e q ≡ read_file d q)
    atomic_write-outcome q a b c = let (o, t) = decided in (t, o q a b c)
