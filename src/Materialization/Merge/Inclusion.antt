-- ===== src/Materialization/Merge/Inclusion.antt =====
-- The `classes` of the document that class-merger.ts builds: which classes are included, by which
-- groups, and the value of each of their parameters.
use nexuspuppet.Base.{
  String, Bool, true, false, ◌||◌, Option, none, some, List, [], ◌∷◌, ◌≡◌, refl, ◌∙◌, arith, eq_iff,
  str_eq, if◌then◌else◌, fold, any, includes, Bool-cases, inl, inr, ap,
}
use nexuspuppet.Base.Dict.{Dict, get, put, keys, get-put}
use nexuspuppet.Value.{Engine, Value}
use nexuspuppet.Materialization.Merge.History.{assigns_inherited}
use nexuspuppet.Materialization.Merge.{
  MergeableGroup, Merge, start, named_environment, merge_named, set_class_parameter, include_class,
  merge_class, set_parameter, merge_environment, merge_group, merge_groups, or_empty,
}

module _ {N : Type 0} where
  -- A parameter of a class that may not be there.
  abbrev pub param_of : Option (Dict (Value N)) → String → Option (Value N)
  param_of none k = none
  param_of (some es) k = get es k

  -- The last value that the entries give to `k`, or the earlier one.
  abbrev pub last_among : String → Dict (Value N) → Option (Value N) → Option (Value N)
  last_among k [] o = o
  last_among k ((j, v) ∷ es) o = last_among k es (if str_eq j k then some v else o)

  -- The same over the parameters that a group gives to the class `c`, and over the groups.
  abbrev pub last_in_classes :
      String → String → Dict (Dict (Value N)) → Option (Value N) → Option (Value N)
  last_in_classes c k [] o = o
  last_in_classes c k ((d, es) ∷ cs) o =
      last_in_classes c k cs (if str_eq d c then last_among k es o else o)

  abbrev pub last_in_groups :
      String → String → List (MergeableGroup N) → Option (Value N) → Option (Value N)
  last_in_groups c k [] o = o
  last_in_groups c k (g ∷ gs) o = last_in_groups c k gs (last_in_classes c k g.classes o)

  abbrev pub is_included : Option (Dict (Value N)) → Bool
  is_included none = false
  is_included (some es) = true

  abbrev pub assigns : String → MergeableGroup N → Bool
  assigns c g = includes (keys g.classes) c

param_of-or_empty :
    {N : Type 0} (o : Option (Dict (Value N))) (k : String) → get (or_empty o) k ≡ param_of o k
unfolding get
param_of-or_empty none k = refl
param_of-or_empty (some es) k = refl

module _ (js : Engine) (c : String) where
  open js use {Num}

  module _ (k : String) where
    abbrev value_in : Merge Num → Option (Value Num)
    value_in s = param_of (get s.classes c) k

    value-set :
        (g : MergeableGroup Num) (d : String) (s : Merge Num) (j : String) (v : Value Num)
        → value_in (set_class_parameter js g d s (j, v))
          ≡ (if str_eq d c then (if str_eq j k then some v else value_in s) else value_in s)
    unfolding set_class_parameter
    value-set g d s j v = ground (
      arith,
      eq_iff d c,
      get-put s.classes d (put (or_empty (get s.classes d)) j v) c,
      get-put (or_empty (get s.classes d)) j v k,
      param_of-or_empty (get s.classes d) k,
    )

    value-set_all :
        (g : MergeableGroup Num) (d : String) (es : Dict (Value Num)) (s : Merge Num)
        → value_in (fold (set_class_parameter js g d) s es)
          ≡ (if str_eq d c then last_among k es (value_in s) else value_in s)
    value-set_all g d [] s = ground arith
    value-set_all g d ((j, v) ∷ es) s =
        ground
          (arith, value-set_all g d es (set_class_parameter js g d s (j, v)), value-set g d s j v)

    value-include :
        (g : MergeableGroup Num) (d : String) (s : Merge Num)
        → value_in (include_class js g d s) ≡ value_in s
    unfolding include_class
    value-include g d s = ground (
      arith,
      eq_iff d c,
      get-put s.classes d (or_empty (get s.classes d)) c,
      param_of-or_empty (get s.classes d) k,
    )

    value-classes :
        (g : MergeableGroup Num) (cs : Dict (Dict (Value Num))) (s : Merge Num)
        → value_in (fold (merge_class js g) s cs) ≡ last_in_classes c k cs (value_in s)
    unfolding merge_class
    value-classes g [] s = refl
    value-classes g ((d, es) ∷ cs) s =
        rw (value-classes g cs (merge_class js g s (d, es)))
          (rw (value-set_all g d es (include_class js g d s)) (rw (value-include g d s)))

  included : Merge Num → Bool
  included s = is_included (get s.classes c)

  included-set_all :
      (g : MergeableGroup Num) (d : String) (es : Dict (Value Num)) (s : Merge Num)
      → included s ≡ true
      → included (fold (set_class_parameter js g d) s es) ≡ true
  unfolding included set_class_parameter
  included-set_all g d [] s h = h
  included-set_all g d ((j, v) ∷ es) s h =
      included-set_all g d es (set_class_parameter js g d s (j, v))
        (ground (arith, eq_iff d c, get-put s.classes d (put (or_empty (get s.classes d)) j v) c))

  -- Where the class is another one, the document's entry for `c` stays.
  kept-set_all :
      (g : MergeableGroup Num) (d : String) (es : Dict (Value Num)) (s : Merge Num)
      → str_eq d c ≡ false
      → get (fold (set_class_parameter js g d) s es).classes c ≡ get s.classes c
  unfolding set_class_parameter
  kept-set_all g d [] s e = refl
  kept-set_all g d ((j, v) ∷ es) s e =
      kept-set_all g d es (set_class_parameter js g d s (j, v)) e ∙ rw get-put (rw e)

  included-class :
      (g : MergeableGroup Num) (d : String) (es : Dict (Value Num)) (s : Merge Num)
      → included (merge_class js g s (d, es)) ≡ (str_eq d c || included s)
  unfolding merge_class
  included-class g d es s = elim (Bool-cases (str_eq d c)) [
    | inl e ↦ rw e (included-set_all g d es (include_class js g d s) (now e))
    | inr e ↦ rw e (
        unfold included in
        ap is_included (kept-set_all g d es (include_class js g d s) e ∙ before e))
  ]
    where
      now : str_eq d c ≡ true → included (include_class js g d s) ≡ true
      now e = unfold included include_class in rw get-put (rw e)

      before : str_eq d c ≡ false → get (include_class js g d s).classes c ≡ get s.classes c
      before e = unfold include_class in rw get-put (rw e)

  included-classes :
      (g : MergeableGroup Num) (cs : Dict (Dict (Value Num))) (s : Merge Num)
      → included (fold (merge_class js g) s cs) ≡ (included s || includes (keys cs) c)
  included-classes g [] s = ground arith
  included-classes g ((d, es) ∷ cs) s =
      ground (arith, included-classes g cs (merge_class js g s (d, es)), included-class g d es s)

  -- The later steps of a group leave the classes and their attribution alone.
  pub classes-rest :
      (g : MergeableGroup Num) (es : Dict (Value Num)) (s : Merge Num)
      → ((merge_environment js g (fold (set_parameter js g) s es)).classes ≡ s.classes)
        × ((merge_environment js g (fold (set_parameter js g) s es)).attribution.classes
            ≡ s.attribution.classes)
  unfolding merge_environment set_parameter
  classes-rest g ((j, v) ∷ es) s = classes-rest g es (set_parameter js g s (j, v))
  classes-rest g [] s = by_name (named_environment g.environment)
    where
      by_name :
          (name : Option String)
          → ((merge_named js g name s).classes ≡ s.classes)
            × ((merge_named js g name s).attribution.classes ≡ s.attribution.classes)
      by_name none = (refl, refl)
      by_name (some name) = (refl, refl)

  value-groups :
      (k : String) (gs : List (MergeableGroup Num)) (s : Merge Num)
      → param_of (get (fold (merge_group js) s gs).classes c) k
        ≡ last_in_groups c k gs (param_of (get s.classes c) k)
  unfolding merge_group
  value-groups k [] s = refl
  value-groups k (g ∷ gs) s = rw (value-groups k gs (merge_group js s g)) (
      rw ((classes-rest g g.parameters (fold (merge_class js g) s g.classes)).0)
        (rw (value-classes k g g.classes s)))

  included-groups :
      (gs : List (MergeableGroup Num)) (s : Merge Num)
      → included (fold (merge_group js) s gs) ≡ (included s || any (assigns c) gs)
  unfolding merge_group
  included-groups [] s = ground arith
  included-groups (g ∷ gs) s =
      ground (arith, included-groups gs (merge_group js s g), included-classes g g.classes s, rest)
    where
      rest : included (merge_group js s g) ≡ included (fold (merge_class js g) s g.classes)
      rest =
          unfold included in
          ap (λ m. is_included (get m c))
            ((classes-rest g g.parameters (fold (merge_class js g) s g.classes)).0)

  -- Where no group assigns a class by a name that every object inherits, a class stands in the
  -- document exactly when some group assigns it, and each of its parameters but `__proto__` has the
  -- value that the last assignment of it gave, whatever the groups before it set.
  pub merge_groups-class :
      (k : String) (groups : List (MergeableGroup Num))
      → any assigns_inherited groups ≡ false
      → str_eq k "__proto__" ≡ false
      → (is_included (get (merge_groups js groups).document.classes c) ≡ any (assigns c) groups)
        × (param_of (get (merge_groups js groups).document.classes c) k
            ≡ last_in_groups c k groups none)
  unfolding merge_groups included get
  merge_groups-class k groups own stored =
      (included-groups groups start, value-groups k groups start)
