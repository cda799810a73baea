-- ===== src/Tests/Memory.antt =====
-- A disk in memory, with one folder, and files without a disk, to run the program on.
use nexuspuppet.Base.{
  String, Bool, true, false, Option, none, some, List, [], ◌∷◌, ◌≡◌, ◌≢◌, refl, sym, ◌∙◌, ap, arith,
  str_eq, eq_iff, eq_refl, if_true,
}
use nexuspuppet.Base.Dict.{Dict, get, put, remove, get-put, get-remove}
use nexuspuppet.Materialization.Storage.{FileSystem, Read, contents, missing, entries}
use nexuspuppet.Materialization.Storage.Atomic.{IsPosix}
use nexuspuppet.Materialization.Storage.Settling.{IsJoining}

abbrev pub read : Option String → Read
read none = missing
read (some text) = contents text

abbrev listing : Dict String → List (String × Bool)
listing [] = []
listing ((name, text) ∷ d) = (name, true) ∷ listing d

abbrev moved : String → String → Dict String → Option String → Bool × Dict String
moved p q d none = (false, d)
moved p q d (some text) = (true, put (remove d p) q text)

abbrev pub memory : FileSystem
memory = record {
  Location = String;
  Disk = Dict String;
  join = λ p name. name;
  is_inside = λ q p. true;
  read_file = λ d p. read (get d p);
  read_dir = λ d p. entries (listing d);
  can_write = λ d p. true;
  mkdir = λ p d. (true, d);
  write_file = λ p text d. (true, put d p text);
  sync = λ p d. (true, d);
  rename = λ p q d. moved p q d (get d p);
  remove = λ p d. (true, remove d p);
}

get-put_self : (d : Dict String) (p text : String) → get (put d p text) p ≡ some text
get-put_self d p text = get-put d p text p ∙ if_true (str_eq p p) (some text) (get d p) (eq_refl p)

get-put_other : (d : Dict String) (p q text : String) → q ≢ p → get (put d p text) q ≡ get d q
get-put_other d p q text h = get-put d p text q ∙ ground (arith, h, eq_iff p q)

get-remove_other : (d : Dict String) (p q : String) → q ≢ p → get (remove d p) q ≡ get d q
get-remove_other d p q h = get-remove d p q ∙ ground (arith, h, eq_iff p q)

pub memory-IsJoining : IsJoining memory
memory-IsJoining = record { stays_inside = λ p name h. refl; tells_apart = λ p a b h k e. e }

pub memory-IsPosix : IsPosix memory
memory-IsPosix = record {
  mkdir_others = λ d p q h. refl;
  write_others = λ d p q text h. ap read (get-put_other d p q text h);
  write_done = λ d p text h. ap read (get-put_self d p text);
  sync_same = λ d p q. refl;
  rename_others = λ d p q r h k. others d p q r (get d p) h k;
  rename_done = λ d p q. done d p q (get d p) refl;
  rename_failed = λ d p q r. failed d p q r (get d p);
  remove_others = λ d p q h. ap read (get-remove_other d p q h);
}
  where
    others :
        (d : Dict String) (p q r : String) (o : Option String)
        → r ≢ p
        → r ≢ q
        → read (get (moved p q d o).1 r) ≡ read (get d r)
    others d p q r none h k = refl
    others d p q r (some text) h k =
        ap read (get-put_other (remove d p) q r text k ∙ get-remove_other d p r h)

    done :
        (d : Dict String) (p q : String) (o : Option String)
        → get d p ≡ o
        → (moved p q d o).0 ≡ true
        → read (get (moved p q d o).1 q) ≡ read (get d p)
    done d p q none e h = cc
    done d p q (some text) e h = ap read (get-put_self (remove d p) q text ∙ sym e)

    failed :
        (d : Dict String) (p q r : String) (o : Option String)
        → (moved p q d o).0 ≡ false
        → read (get (moved p q d o).1 r) ≡ read (get d r)
    failed d p q r none h = refl
    failed d p q r (some text) h = cc
