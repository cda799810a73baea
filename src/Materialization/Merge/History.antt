-- ===== src/Materialization/Merge/History.antt =====
-- What class-merger.ts should report of one key, from the groups that set it: the value, the
-- attribution and the conflicts, as functions of the list of settings, the latest first.
use nexuspuppet.Base.{
  String, Bool, true, false, ◌&&◌, Option, none, some, List, [], ◌∷◌, ◌++◌, ◌≡◌, refl, arith,
  str_eq, if◌then◌else◌, keep, any, includes,
}
use mathlib.Core.List.{append-nil}
use nexuspuppet.Base.Dict.{Dict, keys}
use nexuspuppet.Value.{Engine, Value}
use nexuspuppet.Materialization.Merge.Values.{values_equal}
use nexuspuppet.Materialization.Merge.{
  ConflictKind, class_parameter, top_scope_parameter, environment, ClassificationConflict,
  KeyAttribution, MergeableGroup, Provenance, beat, clash, conflict_of, set_by,
}

-- The names under which a plain object of JavaScript finds an inherited property.
abbrev pub inherited_names : List String
inherited_names =
    "constructor" ∷ "hasOwnProperty" ∷ "isPrototypeOf" ∷ "propertyIsEnumerable" ∷ "toLocaleString"
    ∷ "toString" ∷ "valueOf" ∷ "__defineGetter__" ∷ "__defineSetter__" ∷ "__lookupGetter__"
    ∷ "__lookupSetter__" ∷ "__proto__" ∷ []

module _ {N : Type 0} where
  -- The group assigns a class by such a name.
  abbrev pub assigns_inherited : MergeableGroup N → Bool
  assigns_inherited g = any (includes inherited_names) (keys g.classes)

  abbrev pub latest : List (Provenance N) → Option (Provenance N)
  latest [] = none
  latest (p ∷ ps) = some p

  abbrev pub latest_value : List (Provenance N) → Option (Value N)
  latest_value [] = none
  latest_value (p ∷ ps) = some p.value

  -- The settings, the earliest first.
  abbrev pub losers : List (Provenance N) → List (String × Value N)
  losers [] = []
  losers (p ∷ ps) = losers ps ++ (p.group_id, p.value) ∷ []

  -- The latest setter has won, and all the earlier ones are named.
  abbrev pub attribution_of : List (Provenance N) → Option (KeyAttribution N)
  attribution_of [] = none
  attribution_of (p ∷ ps) = some (record { group_id = p.group_id; overridden = losers ps })

  -- The settings of a key among the entries of one group, put in front of the earlier ones.
  abbrev pub add_entries :
      String → MergeableGroup N → Dict (Value N) → List (Provenance N) → List (Provenance N)
  add_entries k g [] h = h
  add_entries k g ((j, v) ∷ es) h = add_entries k g es (if str_eq j k then set_by g v ∷ h else h)

  pub beat-attribution_of :
      (h : List (Provenance N)) (g : MergeableGroup N) (v : Value N)
      → some (beat (attribution_of h) g.id (latest h)) ≡ attribution_of (set_by g v ∷ h)
  unfolding beat
  beat-attribution_of [] g v = refl
  beat-attribution_of (p ∷ ps) g v = refl

abbrev pub same_kind : ConflictKind → ConflictKind → Bool
same_kind class_parameter class_parameter = true
same_kind top_scope_parameter top_scope_parameter = true
same_kind environment environment = true
same_kind _ _ = false

abbrev pub about : {N : Type 0} → ConflictKind → String → ClassificationConflict N → Bool
about kind key c = same_kind c.kind kind && str_eq c.key key

module _ (js : Engine) where
  open js use {Num}

  -- One conflict for each setting whose value differs from that of the setting before it.
  abbrev pub clashes :
      ConflictKind → String → List (Provenance Num) → List (ClassificationConflict Num)
  clashes kind key [] = []
  clashes kind key (p ∷ ps) = clashes kind key ps ++ clash js kind key (latest ps) p

  pub keep-clash :
      (kind other : ConflictKind) (k j : String) (previous : Option (Provenance Num))
      (p : Provenance Num)
      → keep (about kind k) (clash js other j previous p)
        ≡ (if same_kind other kind && str_eq j k then clash js other j previous p else [])
  unfolding clash conflict_of
  keep-clash kind other k j none p = ground arith
  keep-clash kind other k j (some q) p = ground arith

  -- The conflicts that the settings of a key give rise to: one for each setting whose value is not
  -- equal to that of the setting before it, which it wins over.
  abbrev pub disagreements :
      ConflictKind → String → List (Provenance Num) → List (ClassificationConflict Num)
  disagreements kind key [] = []
  disagreements kind key (only ∷ []) = []
  disagreements kind key (later ∷ earlier ∷ ps) =
      let before = disagreements kind key (earlier ∷ ps) in
      if values_equal js earlier.value later.value
      then before
      else before
        ++ record {
          kind = kind;
          key = key;
          winning_group_id = later.group_id;
          winning_group_name = later.group_name;
          winning_value = later.value;
          losing_group_id = earlier.group_id;
          losing_group_name = earlier.group_name;
          losing_value = earlier.value;
        }
          ∷ []

  pub clashes-disagreements :
      (kind : ConflictKind) (key : String) (h : List (Provenance Num))
      → clashes kind key h ≡ disagreements kind key h
  unfolding clash conflict_of
  clashes-disagreements kind key [] = refl
  clashes-disagreements kind key (only ∷ []) = refl
  clashes-disagreements kind key (later ∷ earlier ∷ ps) = ground (
    arith,
    clashes-disagreements kind key (earlier ∷ ps),
    append-nil (disagreements kind key (earlier ∷ ps)),
  )
