-- ===== src/Materialization/Merge/Credit.antt =====
-- `attribution.classes` of class-merger.ts: the groups that include a class.
use nexuspuppet.Base.{
  String, Bool, ◌&&◌, ◌||◌, List, [], ◌∷◌, ◌++◌, ◌≡◌, refl, arith, eq_iff, str_eq, fold, any,
  includes, ap,
}
use nexuspuppet.Base.Dict.{Dict, get, keys, get-put}
use nexuspuppet.Value.{Engine, Value}
use nexuspuppet.Materialization.Merge.{
  MergeableGroup, Merge, start, set_class_parameter, include_class, merge_class, merge_group,
  merge_groups, or_empty,
}
use nexuspuppet.Materialization.Merge.Inclusion.{assigns, classes-rest}

includes-add :
    (ids : List String) (i j : String) → includes (ids ++ j ∷ []) i ≡ (includes ids i || str_eq j i)
includes-add [] i j = ground arith
includes-add (x ∷ xs) i j = ground (arith, includes-add xs i j)

module _ (js : Engine) (c i : String) where
  open js use {Num}

  credited : Merge Num → Bool
  credited s = includes (or_empty (get s.attribution.classes c)) i

  credited-include :
      (g : MergeableGroup Num) (d : String) (s : Merge Num)
      → credited (include_class js g d s) ≡ (credited s || (str_eq d c && str_eq g.id i))
  unfolding credited include_class
  credited-include g d s = ground (
    arith,
    eq_iff d c,
    eq_iff g.id i,
    includes-add (or_empty (get s.attribution.classes d)) i g.id,
    get-put s.attribution.classes d (or_empty (get s.attribution.classes d)) c,
    get-put s.attribution.classes d (or_empty (get s.attribution.classes d) ++ g.id ∷ []) c,
  )

  credited-set_all :
      (g : MergeableGroup Num) (d : String) (es : Dict (Value Num)) (s : Merge Num)
      → credited (fold (set_class_parameter js g d) s es) ≡ credited s
  unfolding credited set_class_parameter
  credited-set_all g d [] s = refl
  credited-set_all g d ((j, v) ∷ es) s =
      credited-set_all g d es (set_class_parameter js g d s (j, v))

  credited-classes :
      (g : MergeableGroup Num) (cs : Dict (Dict (Value Num))) (s : Merge Num)
      → credited (fold (merge_class js g) s cs)
        ≡ (credited s || (str_eq g.id i && includes (keys cs) c))
  unfolding merge_class
  credited-classes g [] s = ground arith
  credited-classes g ((d, es) ∷ cs) s = ground (
    arith,
    credited-classes g cs (merge_class js g s (d, es)),
    credited-set_all g d es (include_class js g d s),
    credited-include g d s,
  )

  credited-groups :
      (gs : List (MergeableGroup Num)) (s : Merge Num)
      → credited (fold (merge_group js) s gs)
        ≡ (credited s || any (λ g. str_eq g.id i && assigns c g) gs)
  unfolding merge_group
  credited-groups [] s = ground arith
  credited-groups (g ∷ gs) s =
      ground (arith, credited-groups gs (merge_group js s g), credited-classes g g.classes s, rest)
    where
      rest : credited (merge_group js s g) ≡ credited (fold (merge_class js g) s g.classes)
      rest =
          unfold credited in
          ap (λ m. includes (or_empty (get m c)) i)
            ((classes-rest js c g g.parameters (fold (merge_class js g) s g.classes)).1)

  -- A group's id stands among those that include a class exactly when a group of that id assigns it.
  pub merge_groups-credit :
      (groups : List (MergeableGroup Num))
      → includes (or_empty (get (merge_groups js groups).attribution.classes c)) i
        ≡ any (λ g. str_eq g.id i && assigns c g) groups
  unfolding merge_groups credited get
  merge_groups-credit groups = credited-groups groups start
