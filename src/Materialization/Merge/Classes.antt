-- ===== src/Materialization/Merge/Classes.antt =====
-- The classes of class-merger.ts and their parameters: inclusion is a union, parameters are last
-- writer wins, key by key.
use nexuspuppet.Base.{
  String, Option, none, some, List, [], ◌∷◌, ◌≡◌, refl, str_eq, if◌then◌else◌, keep, fold,
}
use nexuspuppet.Base.Dict.{Dict, get}
use nexuspuppet.Value.{Engine, Value, str}
use nexuspuppet.Materialization.Merge.{
  class_parameter, top_scope_parameter, environment, MergeableGroup, Provenance, Merge, start,
  set_by, provenance_key, named_environment, merge_named, set_class_parameter, include_class,
  merge_class, set_parameter, set_environment, merge_environment, merge_group, merge_groups,
}
use nexuspuppet.Materialization.Merge.History.{attribution_of, clashes, about}
use nexuspuppet.Materialization.Merge.Tracking.{Tracks, Tracks-set, Tracks-foreign}

-- The settings of the class parameter with a joined key, among the parameters of one class.
abbrev pub add_class_entries :
    {N : Type 0}
    → String
    → MergeableGroup N
    → String
    → Dict (Value N)
    → List (Provenance N)
    → List (Provenance N)
add_class_entries k g c [] h = h
add_class_entries k g c ((j, v) ∷ es) h =
    add_class_entries k g c es (if str_eq (provenance_key c j) k then set_by g v ∷ h else h)

abbrev pub add_classes :
    {N : Type 0}
    → String
    → MergeableGroup N
    → Dict (Dict (Value N))
    → List (Provenance N)
    → List (Provenance N)
add_classes k g [] h = h
add_classes k g ((c, es) ∷ cs) h = add_classes k g cs (add_class_entries k g c es h)

abbrev pub class_history :
    {N : Type 0} → String → List (MergeableGroup N) → List (Provenance N) → List (Provenance N)
class_history k [] h = h
class_history k (g ∷ gs) h = class_history k gs (add_classes k g g.classes h)

module _ (js : Engine) (k : String) where
  open js use {Num}

  abbrev Tells : Merge Num → List (Provenance Num) → Type 0
  Tells s h =
      Tracks js class_parameter k s.class_param_provenance s.attribution.class_parameters
        s.conflicts h

  set_class_parameters-Tells :
      (g : MergeableGroup Num) (c : String) (es : Dict (Value Num)) (s : Merge Num)
      (h : List (Provenance Num))
      → Tells s h
      → Tells (fold (set_class_parameter js g c) s es) (add_class_entries k g c es h)
  unfolding set_class_parameter
  set_class_parameters-Tells g c [] s h t = t
  set_class_parameters-Tells g c ((j, v) ∷ es) s h t =
      set_class_parameters-Tells g c es (set_class_parameter js g c s (j, v))
        (if str_eq (provenance_key c j) k then set_by g v ∷ h else h)
        (Tracks-set js class_parameter k t g (provenance_key c j) v)

  merge_classes-Tells :
      (g : MergeableGroup Num) (cs : Dict (Dict (Value Num))) (s : Merge Num)
      (h : List (Provenance Num))
      → Tells s h
      → Tells (fold (merge_class js g) s cs) (add_classes k g cs h)
  unfolding merge_class include_class
  merge_classes-Tells g [] s h t = t
  merge_classes-Tells g ((c, es) ∷ cs) s h t =
      merge_classes-Tells g cs (merge_class js g s (c, es)) (add_class_entries k g c es h)
        (set_class_parameters-Tells g c es (include_class js g c s) h t)

  module _ (g : MergeableGroup Num) {h : List (Provenance Num)} where
    set_parameters-Tells :
        (es : Dict (Value Num)) (s : Merge Num)
        → Tells s h
        → Tells (fold (set_parameter js g) s es) h
    unfolding set_parameter
    set_parameters-Tells [] s t = t
    set_parameters-Tells ((j, v) ∷ es) s t = set_parameters-Tells es (set_parameter js g s (j, v)) (
        Tracks-foreign js class_parameter k t top_scope_parameter j (get s.param_provenance j)
          (set_by g v) refl)

    set_environment-Tells :
        (name : String) (s : Merge Num) → Tells s h → Tells (set_environment js g name s) h
    unfolding set_environment
    set_environment-Tells name s t =
        Tracks-foreign js class_parameter k t environment "environment" s.environment_provenance
          (set_by g (str name)) refl

    merge_environment-Tells : (s : Merge Num) → Tells s h → Tells (merge_environment js g s) h
    unfolding merge_environment
    merge_environment-Tells s t = merge_named-Tells (named_environment g.environment)
      where
        merge_named-Tells : (name : Option String) → Tells (merge_named js g name s) h
        merge_named-Tells none = t
        merge_named-Tells (some name) = set_environment-Tells name s t

  merge_groups-Tells :
      (gs : List (MergeableGroup Num)) (s : Merge Num) (h : List (Provenance Num))
      → Tells s h
      → Tells (fold (merge_group js) s gs) (class_history k gs h)
  unfolding merge_group
  merge_groups-Tells [] s h t = t
  merge_groups-Tells (g ∷ gs) s h t =
      merge_groups-Tells gs (merge_group js s g) (add_classes k g g.classes h) (
        merge_environment-Tells g _
          (set_parameters-Tells g g.parameters _ (merge_classes-Tells g g.classes s h t)))

  -- Of each joined class parameter key the attribution names the last group to set it and every
  -- earlier setter with its value, and there is one conflict for each setting whose value differs
  -- from the one before it.
  pub merge_groups-class_parameter :
      (groups : List (MergeableGroup Num))
      → (get (merge_groups js groups).attribution.class_parameters k
          ≡ attribution_of (class_history k groups []))
        × (keep (about class_parameter k) (merge_groups js groups).conflicts
            ≡ clashes js class_parameter k (class_history k groups []))
  unfolding merge_groups get
  merge_groups-class_parameter groups =
      let t =
        merge_groups-Tells groups start []
          (record { setter = refl; credit = refl; disputes = refl }) in
      (t.credit, t.disputes)
