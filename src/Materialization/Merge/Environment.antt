-- ===== src/Materialization/Merge/Environment.antt =====
-- The environment of class-merger.ts: last writer wins, and a group with none clears nothing.
use nexuspuppet.Base.{
  String, false, Option, none, some, List, [], ◌∷◌, ◌++◌, ◌≡◌, refl, keep, keep-append, fold,
}
use mathlib.Core.List.{append-nil}
use nexuspuppet.Base.Dict.{Dict, get}
use nexuspuppet.Value.{Engine, Value, str}
use nexuspuppet.Materialization.Merge.{
  ConflictKind, class_parameter, top_scope_parameter, environment, MergeableGroup, Provenance,
  Merge, start, set_by, clash, provenance_key, named_environment, merge_named, set_class_parameter,
  include_class, merge_class, set_parameter, set_environment, merge_environment, merge_group,
  merge_groups,
}
use nexuspuppet.Materialization.Merge.History.{
  latest, attribution_of, clashes, about, same_kind, keep-clash, beat-attribution_of,
}

abbrev pub add_environment :
    {N : Type 0} → MergeableGroup N → Option String → List (Provenance N) → List (Provenance N)
add_environment g none h = h
add_environment g (some name) h = set_by g (str name) ∷ h

-- The groups that name an environment, the latest first.
abbrev pub environment_history :
    {N : Type 0} → List (MergeableGroup N) → List (Provenance N) → List (Provenance N)
environment_history [] h = h
environment_history (g ∷ gs) h =
    environment_history gs (add_environment g (named_environment g.environment) h)

-- The name that the last of them gave.
abbrev pub latest_name : {N : Type 0} → List (Provenance N) → Option String
latest_name [] = none
latest_name (p ∷ ps) = elim p.value [ str name ↦ some name | _ ↦ none ]

module _ (js : Engine) where
  open js use {Num}

  record Tells (s : Merge Num) (h : List (Provenance Num)) : Type 0 where
    name : s.environment ≡ latest_name h
    setter : s.environment_provenance ≡ latest h
    credit : s.attribution.environment ≡ attribution_of h
    disputes :
        keep (about environment "environment") s.conflicts ≡ clashes js environment "environment" h

  module _ (g : MergeableGroup Num) {h : List (Provenance Num)} where
    set_environment-Tells :
        (name : String) (s : Merge Num)
        → Tells s h
        → Tells (set_environment js g name s) (set_by g (str name) ∷ h)
    unfolding set_environment
    set_environment-Tells name s t = record {
      name = refl;
      setter = refl;
      credit = simp (t.setter, t.credit) (beat-attribution_of h g (str name));
      disputes = simp (keep-append, keep-clash, t.setter, t.disputes);
    }

    merge_named-Tells :
        (name : Option String) (s : Merge Num)
        → Tells s h
        → Tells (merge_named js g name s) (add_environment g name h)
    merge_named-Tells none s t = t
    merge_named-Tells (some name) s t = set_environment-Tells name s t

    merge_environment-Tells :
        (s : Merge Num)
        → Tells s h
        → Tells (merge_environment js g s) (add_environment g (named_environment g.environment) h)
    unfolding merge_environment
    merge_environment-Tells s t = merge_named-Tells (named_environment g.environment) s t

    foreign :
        (other : ConflictKind) (j : String) (previous : Option (Provenance Num))
        (p : Provenance Num) (s : Merge Num)
        → same_kind other environment ≡ false
        → Tells s h
        → keep (about environment "environment") (s.conflicts ++ clash js other j previous p)
          ≡ clashes js environment "environment" h
    foreign other j previous p s e t = simp (keep-append, keep-clash, e, append-nil, t.disputes)

    set_parameter-Tells :
        (s : Merge Num) (e : String × Value Num) → Tells s h → Tells (set_parameter js g s e) h
    unfolding set_parameter
    set_parameter-Tells s (j, v) t = record {
      name = t.name;
      setter = t.setter;
      credit = t.credit;
      disputes = foreign top_scope_parameter j (get s.param_provenance j) (set_by g v) s refl t;
    }

    set_parameters-Tells :
        (es : Dict (Value Num)) (s : Merge Num)
        → Tells s h
        → Tells (fold (set_parameter js g) s es) h
    set_parameters-Tells [] s t = t
    set_parameters-Tells (e ∷ es) s t =
        set_parameters-Tells es (set_parameter js g s e) (set_parameter-Tells s e t)

    set_class_parameter-Tells :
        (c : String) (s : Merge Num) (e : String × Value Num)
        → Tells s h
        → Tells (set_class_parameter js g c s e) h
    unfolding set_class_parameter
    set_class_parameter-Tells c s (j, v) t = record {
      name = t.name;
      setter = t.setter;
      credit = t.credit;
      disputes =
          foreign class_parameter (provenance_key c j)
            (get s.class_param_provenance (provenance_key c j)) (set_by g v) s refl t;
    }

    set_class_parameters-Tells :
        (c : String) (es : Dict (Value Num)) (s : Merge Num)
        → Tells s h
        → Tells (fold (set_class_parameter js g c) s es) h
    set_class_parameters-Tells c [] s t = t
    set_class_parameters-Tells c (e ∷ es) s t =
        set_class_parameters-Tells c es (set_class_parameter js g c s e)
          (set_class_parameter-Tells c s e t)

    merge_classes-Tells :
        (cs : Dict (Dict (Value Num))) (s : Merge Num)
        → Tells s h
        → Tells (fold (merge_class js g) s cs) h
    unfolding merge_class include_class
    merge_classes-Tells [] s t = t
    merge_classes-Tells ((c, es) ∷ cs) s t = merge_classes-Tells cs (merge_class js g s (c, es)) (
        set_class_parameters-Tells c es (include_class js g c s)
          (record { name = t.name; setter = t.setter; credit = t.credit; disputes = t.disputes }))

  merge_groups-Tells :
      (gs : List (MergeableGroup Num)) (s : Merge Num) (h : List (Provenance Num))
      → Tells s h
      → Tells (fold (merge_group js) s gs) (environment_history gs h)
  unfolding merge_group
  merge_groups-Tells [] s h t = t
  merge_groups-Tells (g ∷ gs) s h t =
      merge_groups-Tells gs (merge_group js s g)
        (add_environment g (named_environment g.environment) h)
        (merge_environment-Tells g _
          (set_parameters-Tells g g.parameters _ (merge_classes-Tells g g.classes s t)))

  -- The merged environment is the one named by the last group that names one, null and empty names
  -- not counting; its attribution names every group that named one before, and there is one conflict
  -- for each name that differs from the one before it.
  pub merge_groups-environment :
      (groups : List (MergeableGroup Num))
      → ((merge_groups js groups).document.environment
          ≡ latest_name (environment_history groups []))
        × ((merge_groups js groups).attribution.environment
            ≡ attribution_of (environment_history groups []))
        × (keep (about environment "environment") (merge_groups js groups).conflicts
            ≡ clashes js environment "environment" (environment_history groups []))
  unfolding merge_groups
  merge_groups-environment groups =
      let t = merge_groups-Tells groups start [] initial in (t.name, t.credit, t.disputes)
    where
      initial : Tells start []
      initial = record { name = refl; setter = refl; credit = refl; disputes = refl }
