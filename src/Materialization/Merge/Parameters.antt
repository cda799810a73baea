-- ===== src/Materialization/Merge/Parameters.antt =====
-- The top-scope parameters of class-merger.ts: last writer wins, and every setter is named.
use nexuspuppet.Base.{
  String, Option, none, some, List, [], ◌∷◌, ◌≡◌, refl, ◌∙◌, arith, str_eq, if◌then◌else◌, keep,
  fold, any, false,
}
use nexuspuppet.Base.Dict.{Dict, get, get-put}
use nexuspuppet.Value.{Engine, Value, str}
use nexuspuppet.Materialization.Merge.{
  class_parameter, top_scope_parameter, environment, MergeableGroup, Provenance, Merge, start,
  set_by, provenance_key, named_environment, merge_named, set_class_parameter, include_class,
  merge_class, set_parameter, set_environment, merge_environment, merge_group, merge_groups,
}
use nexuspuppet.Materialization.Merge.History.{
  latest_value, attribution_of, add_entries, disagreements, clashes-disagreements, about,
  assigns_inherited,
}
use nexuspuppet.Materialization.Merge.Tracking.{Tracks, Tracks-set, Tracks-foreign}

-- The settings of a top-scope parameter by the groups, the latest first.
abbrev pub parameter_history :
    {N : Type 0} → String → List (MergeableGroup N) → List (Provenance N) → List (Provenance N)
parameter_history k [] h = h
parameter_history k (g ∷ gs) h = parameter_history k gs (add_entries k g g.parameters h)

module _ (js : Engine) (k : String) where
  open js use {Num}

  -- The variables of the merge say of the parameter what its settings say.
  record Tells (s : Merge Num) (h : List (Provenance Num)) : Type 0 where
    value : get s.parameters k ≡ latest_value h
    tracks :
        Tracks js top_scope_parameter k s.param_provenance s.attribution.parameters s.conflicts h

  set_parameter-Tells :
      (g : MergeableGroup Num) (s : Merge Num) (j : String) (v : Value Num)
      (h : List (Provenance Num))
      → Tells s h
      → Tells (set_parameter js g s (j, v)) (if str_eq j k then set_by g v ∷ h else h)
  unfolding set_parameter
  set_parameter-Tells g s j v h t = record {
    value = ground (arith, get-put s.parameters j v k, t.value);
    tracks = Tracks-set js top_scope_parameter k t.tracks g j v;
  }

  set_parameters-Tells :
      (g : MergeableGroup Num) (es : Dict (Value Num)) (s : Merge Num) (h : List (Provenance Num))
      → Tells s h
      → Tells (fold (set_parameter js g) s es) (add_entries k g es h)
  set_parameters-Tells g [] s h t = t
  set_parameters-Tells g ((j, v) ∷ es) s h t =
      set_parameters-Tells g es (set_parameter js g s (j, v))
        (if str_eq j k then set_by g v ∷ h else h) (set_parameter-Tells g s j v h t)

  module _ (g : MergeableGroup Num) {h : List (Provenance Num)} where
    set_class_parameter-Tells :
        (c : String) (s : Merge Num) (e : String × Value Num)
        → Tells s h
        → Tells (set_class_parameter js g c s e) h
    unfolding set_class_parameter
    set_class_parameter-Tells c s (j, v) t = record {
      value = t.value;
      tracks =
          Tracks-foreign js top_scope_parameter k t.tracks class_parameter (provenance_key c j)
            (get s.class_param_provenance (provenance_key c j)) (set_by g v) refl;
    }

    set_class_parameters-Tells :
        (c : String) (es : Dict (Value Num)) (s : Merge Num)
        → Tells s h
        → Tells (fold (set_class_parameter js g c) s es) h
    set_class_parameters-Tells c [] s t = t
    set_class_parameters-Tells c (e ∷ es) s t =
        set_class_parameters-Tells c es (set_class_parameter js g c s e)
          (set_class_parameter-Tells c s e t)

    include_class-Tells :
        (c : String) (s : Merge Num) → Tells s h → Tells (include_class js g c s) h
    unfolding include_class
    include_class-Tells c s t = record { value = t.value; tracks = t.tracks }

    merge_classes-Tells :
        (cs : Dict (Dict (Value Num))) (s : Merge Num)
        → Tells s h
        → Tells (fold (merge_class js g) s cs) h
    unfolding merge_class
    merge_classes-Tells [] s t = t
    merge_classes-Tells ((c, es) ∷ cs) s t =
        merge_classes-Tells cs (merge_class js g s (c, es))
          (set_class_parameters-Tells c es (include_class js g c s) (include_class-Tells c s t))

    set_environment-Tells :
        (name : String) (s : Merge Num) → Tells s h → Tells (set_environment js g name s) h
    unfolding set_environment
    set_environment-Tells name s t = record {
      value = t.value;
      tracks =
          Tracks-foreign js top_scope_parameter k t.tracks environment "environment"
            s.environment_provenance (set_by g (str name)) refl;
    }

    merge_environment-Tells : (s : Merge Num) → Tells s h → Tells (merge_environment js g s) h
    unfolding merge_environment
    merge_environment-Tells s t = merge_named-Tells (named_environment g.environment)
      where
        merge_named-Tells : (name : Option String) → Tells (merge_named js g name s) h
        merge_named-Tells none = t
        merge_named-Tells (some name) = set_environment-Tells name s t

  merge_groups-Tells :
      (gs : List (MergeableGroup Num)) (s : Merge Num) (h : List (Provenance Num))
      → Tells s h
      → Tells (fold (merge_group js) s gs) (parameter_history k gs h)
  unfolding merge_group
  merge_groups-Tells [] s h t = t
  merge_groups-Tells (g ∷ gs) s h t =
      merge_groups-Tells gs (merge_group js s g) (add_entries k g g.parameters h) (
        merge_environment-Tells g _
          (set_parameters-Tells g g.parameters _ h (merge_classes-Tells g g.classes s t)))

  -- Where no group assigns a class by a name that every object inherits, and of each top-scope
  -- parameter but `__proto__`, the merge reports what its settings say, in merge order: the value
  -- is that of the last group to set it, the attribution names that group and every earlier setter
  -- with its value, equal ones too, and there is one conflict for each setting whose value differs
  -- from the one before it, with the later setter as its winner and the earlier one as its loser.
  pub merge_groups-parameter :
      (groups : List (MergeableGroup Num))
      → any assigns_inherited groups ≡ false
      → str_eq k "__proto__" ≡ false
      → (get (merge_groups js groups).document.parameters k
          ≡ latest_value (parameter_history k groups []))
        × (get (merge_groups js groups).attribution.parameters k
            ≡ attribution_of (parameter_history k groups []))
        × (keep (about top_scope_parameter k) (merge_groups js groups).conflicts
            ≡ disagreements js top_scope_parameter k (parameter_history k groups []))
  unfolding merge_groups get
  merge_groups-parameter groups own stored =
      let t = merge_groups-Tells groups start [] initial in
      (
        t.value,
        t.tracks.credit,
        t.tracks.disputes
            ∙ clashes-disagreements js top_scope_parameter k (parameter_history k groups []),
      )
    where
      initial : Tells start []
      initial = record {
        value = refl;
        tracks = record { setter = refl; credit = refl; disputes = refl };
      }
