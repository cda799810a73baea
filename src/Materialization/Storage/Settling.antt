-- ===== src/Materialization/Storage/Settling.antt =====
-- That posix-enc-storage.ts is what the materializer wants of its files.
use Prim.Native.String
use Prim.Native.String.append
use mathlib.Core.Path.{subst}
use mathlib.Core.Option.{some-injective}
use nexuspuppet.Base.{
  ℕ, String, Bool, true, false, Option, none, some, List, [], ◌∷◌, ◌++◌, ◌≡◌, ◌≢◌, refl, sym, ◌∙◌,
  ap, arith, eq_refl, Bool-cases, inl, inr, if◌then◌else◌,
}
use nexuspuppet.Value.{Engine, Value, Fields}
use nexuspuppet.Value.Text.{codes}
use nexuspuppet.Materialization.Merge.{EncDocument}
use nexuspuppet.Materialization.Drain.{RenderedEnc, MaterializationOutcome, World, materialize_node}
use nexuspuppet.Materialization.Drain.Idempotent.{IsSettling, materialize_node-idempotent}
use nexuspuppet.Materialization.Renderer.{render_enc_document}
use nexuspuppet.Materialization.Renderer.Laws.{render_enc_document-parses}
use nexuspuppet.Materialization.Storage.{
  FileSystem, contents, is_safe_certname, yaml_name, nodes_dir, temporary, atomic_write,
  without_yaml, node_file, matches_on_disk, write_node, posix_writer, written_now, write_unless,
}
use nexuspuppet.Materialization.Storage.Certnames.{
  without_yaml-yaml_name, is_file_name, is_plain-append, no_separator, codes-append,
  is_safe_certname-IsFileName,
}
use nexuspuppet.Materialization.Storage.Atomic.{IsPosix, decided}

-- What node:path says of `join` with the name of a file.
pub record IsJoining (fs : FileSystem) : Type 0 where
  pub stays_inside :
      (p : fs.Location) (name : String)
      → is_file_name name ≡ true
      → fs.is_inside (fs.join p name) p ≡ true
  pub tells_apart :
      (p : fs.Location) (a b : String)
      → is_file_name a ≡ true
      → is_file_name b ≡ true
      → fs.join p a ≡ fs.join p b
      → a ≡ b

-- The last character of a text.
abbrev last_code : List ℕ → ℕ
last_code [] = 0
last_code (c ∷ []) = c
last_code (c ∷ d ∷ cs) = last_code (d ∷ cs)

last_code-append : (xs ys : List ℕ) (y : ℕ) → last_code (xs ++ y ∷ ys) ≡ last_code (y ∷ ys)
last_code-append [] ys y = refl
last_code-append (x ∷ []) ys y = refl
last_code-append (x ∷ z ∷ xs) ys y = last_code-append (z ∷ xs) ys y

abbrev temporary_name : String → String
temporary_name uuid = String.◌++◌ "." (String.◌++◌ uuid ".tmp")

temporary_name-codes :
    (uuid : String) → codes (temporary_name uuid) ≡ b'.' ∷ codes uuid ++ codes ".tmp"
temporary_name-codes uuid =
    codes-append "." (String.◌++◌ uuid ".tmp") ∙ ap (◌∷◌ b'.') (codes-append uuid ".tmp")

temporary_name-IsFileName :
    (uuid : String) → no_separator (codes uuid) ≡ true → is_file_name (temporary_name uuid) ≡ true
unfolding is_file_name no_separator
temporary_name-IsFileName uuid h =
    rw (temporary_name-codes uuid) (is_plain-append (b'.' ∷ codes uuid) (codes ".tmp") h refl)

temporary_name-differs : (uuid certname : String) → yaml_name certname ≢ temporary_name uuid
temporary_name-differs uuid certname e =
    let y : last_code (codes (yaml_name certname)) ≡ b'l' =
      ap last_code (codes-append certname ".yaml") ∙ last_code-append (codes certname) _ b'.' in
    let t : last_code (codes (temporary_name uuid)) ≡ b'p' =
      ap last_code (temporary_name-codes uuid) ∙ last_code-append (b'.' ∷ codes uuid) _ b'.' in
    absurd (omega (arith, y, t, ap (λ s. last_code (codes s)) e))

module _ (fs : FileSystem) (sha256 : String → String) (root : fs.Location)
    (joining : IsJoining fs) where
  open fs use {Location, Disk}

  -- The check of `nodeFile` never fails on a certname that was let through: its file is the one of
  -- its name in the folder of the nodes.
  pub node_file-safe :
      (certname : String)
      → is_safe_certname certname ≡ true
      → node_file fs sha256 root certname
        ≡ some (fs.join (nodes_dir fs sha256 root) (yaml_name certname))
  unfolding node_file
  node_file-safe certname h =
      let (a, l, d, n) = is_safe_certname-IsFileName certname h in
      rw (joining.stays_inside (nodes_dir fs sha256 root) (yaml_name certname) n) refl

  -- Certnames that are let through and have one file are one certname.
  pub node_file-injective :
      (a b : String)
      → is_safe_certname a ≡ true
      → is_safe_certname b ≡ true
      → node_file fs sha256 root a ≡ node_file fs sha256 root b
      → a ≡ b
  node_file-injective a b h k e =
      let (x, l, d, n) = is_safe_certname-IsFileName a h in
      let (y, m, f, o) = is_safe_certname-IsFileName b k in
      some-injective a b (
        sym (without_yaml-yaml_name a)
        ∙ ap without_yaml (
            joining.tells_apart (nodes_dir fs sha256 root) (yaml_name a) (yaml_name b) n o
              (some-injective _ _ (sym (node_file-safe a h) ∙ e ∙ node_file-safe b k)))
        ∙ without_yaml-yaml_name b)

  abbrev target_of : String → Location
  target_of certname = fs.join (nodes_dir fs sha256 root) (yaml_name certname)

  abbrev written : Bool × Disk → Option (Bool × Disk)
  written = written_now fs sha256 root

  abbrev matched : Disk → String → String → Option Bool
  matched d certname hash =
      matches_on_disk fs sha256 root (fs.read_file d (target_of certname)) hash

  write_node-safe :
      (uuid : String) (d : Disk) (certname yaml hash : String)
      → is_safe_certname certname ≡ true
      → write_node fs sha256 root uuid d certname yaml hash
        ≡ write_unless fs sha256 root uuid certname yaml d (matched d certname hash)
  unfolding write_node
  write_node-safe uuid d certname yaml hash h = rw (h, node_file-safe certname h) refl

  unsafe :
      (uuid : String) (d : Disk) (certname yaml hash : String)
      → is_safe_certname certname ≡ false
      → write_node fs sha256 root uuid d certname yaml hash ≡ none
  unfolding write_node
  unsafe uuid d certname yaml hash h = rw h refl

  module _ (posix : IsPosix fs) (uuid : String) (free : no_separator (codes uuid) ≡ true) where
    apart :
        (certname : String)
        → is_safe_certname certname ≡ true
        → fs.join (nodes_dir fs sha256 root) (yaml_name certname)
          ≢ temporary fs sha256 root (nodes_dir fs sha256 root) uuid
    apart certname h e =
        let (a, l, d, n) = is_safe_certname-IsFileName certname h in
        temporary_name-differs uuid certname (
          joining.tells_apart (nodes_dir fs sha256 root) (yaml_name certname) (temporary_name uuid)
            n (temporary_name-IsFileName uuid free) e)

    -- A write that succeeds leaves the text on the disk.
    reads_back :
        (certname yaml : String) (d : Disk) (p : Bool × Disk)
        → is_safe_certname certname ≡ true
        → written (
            atomic_write fs sha256 root uuid (nodes_dir fs sha256 root) (yaml_name certname) yaml d)
          ≡ some p
        → matched p.1 certname (sha256 yaml) ≡ some true
    reads_back certname yaml d p h w =
        let (a, l, dots, n) = is_safe_certname-IsFileName certname h in
        by_outcome
          (atomic_write fs sha256 root uuid (nodes_dir fs sha256 root) (yaml_name certname) yaml d)
          (decided fs sha256 root posix uuid (nodes_dir fs sha256 root) (yaml_name certname) yaml d
            (apart certname h)
            (joining.stays_inside (nodes_dir fs sha256 root) (yaml_name certname) n)).1
          w
      where
        by_outcome :
            (r : Bool × Disk)
            → fs.read_file r.1 (target_of certname)
              ≡ (if r.0 then contents yaml else fs.read_file d (target_of certname))
            → written r ≡ some p
            → matched p.1 certname (sha256 yaml) ≡ some true
        by_outcome (false, e) t w = cc
        by_outcome (true, e) t w =
            subst (λ (q : Bool × Disk). matched q.1 certname (sha256 yaml) ≡ some true)
              (some-injective _ _ w) (rw t (ap some (eq_refl (sha256 yaml))))

    matched-again :
        (certname yaml : String) (d : Disk) (p : Bool × Disk) (m : Option Bool)
        → is_safe_certname certname ≡ true
        → matched d certname (sha256 yaml) ≡ m
        → write_unless fs sha256 root uuid certname yaml d m ≡ some p
        → matched p.1 certname (sha256 yaml) ≡ some true
    matched-again certname yaml d p none h e w = cc
    matched-again certname yaml d p (some true) h e w =
        subst (λ (q : Bool × Disk). matched q.1 certname (sha256 yaml) ≡ some true)
          (some-injective _ _ w) e
    matched-again certname yaml d p (some false) h e w = reads_back certname yaml d p h w

    -- A node that was written is not written again, with any temporary name.
    write_node-again :
        (later : String) (d after : Disk) (certname yaml : String) (changed : Bool)
        → write_node fs sha256 root uuid d certname yaml (sha256 yaml) ≡ some (changed, after)
        → write_node fs sha256 root later after certname yaml (sha256 yaml) ≡ some (false, after)
    write_node-again later d after certname yaml changed w =
        elim (Bool-cases (is_safe_certname certname)) [
          | inl h ↦
              write_node-safe later after certname yaml (sha256 yaml) h
              ∙ ap (write_unless fs sha256 root later certname yaml after) (
                  matched-again certname yaml d (changed, after) _ h refl
                    (sym (write_node-safe uuid d certname yaml (sha256 yaml) h) ∙ w))
          | inr h ↦ absurd (ground (arith, sym (unsafe uuid d certname yaml (sha256 yaml) h) ∙ w))
        ]

  module _ (posix : IsPosix fs) (uuid : Disk → String)
      (free : (d : Disk) → no_separator (codes (uuid d)) ≡ true) (js : Engine)
      (stringify : Fields js.Num → String) (parse : String → Option (Value js.Num)) where
    open js use {Num}

    abbrev pub render : EncDocument Num → Option RenderedEnc
    render = render_enc_document js stringify parse sha256

    -- The storage keeps the promise of `IEncFileWriter` for every document that is rendered.
    pub posix_writer-IsSettling : IsSettling (posix_writer fs sha256 root uuid) render
    posix_writer-IsSettling = record { again = again }
      where
        again :
            (files after : Disk) (certname : String) (d : EncDocument Num) (r : RenderedEnc)
            (changed : Bool)
            → render d ≡ some r
            → write_node fs sha256 root (uuid files) files certname r.yaml r.content_hash
              ≡ some (changed, after)
            → write_node fs sha256 root (uuid after) after certname r.yaml r.content_hash
              ≡ some (false, after)
        again files after certname d r changed e w =
            let (v, h, p) = render_enc_document-parses js stringify parse sha256 d r e in
            ap (write_node fs sha256 root (uuid after) after certname r.yaml) h
            ∙ write_node-again posix (uuid files) (free files) (uuid after) files after certname
                r.yaml changed
                (ap (write_node fs sha256 root (uuid files) files certname r.yaml) (sym h) ∙ w)

    -- Over the files of this storage and the documents of the renderer, a second materialization
    -- of a node changes neither the database nor the disk.
    pub materialize_node-settles :
        (now later : ℕ) (certname : String) (w v : World Num Disk) (o : MaterializationOutcome Num)
        → materialize_node js (posix_writer fs sha256 root uuid) render now certname w ≡ some (o, v)
        → materialize_node js (posix_writer fs sha256 root uuid) render later certname v
          ≡ some (record o { changed = false }, v)
    materialize_node-settles =
        materialize_node-idempotent js (posix_writer fs sha256 root uuid) render
          posix_writer-IsSettling
