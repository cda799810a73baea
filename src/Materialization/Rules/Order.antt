-- ===== src/Materialization/Rules/Order.antt =====
-- The merge order of `matchGroups` in rule-evaluator.ts.
use mathlib.Core.List.{Permᴰ}
use nexuspuppet.Base.{List, ◌≡◌, arith, keep}
use nexuspuppet.Base.Sort.{
  IsWeakOrder, Apart, NotBefore, Pairs, Pairs-keep, Pairs-map_of, sort-Pairs, sort-perm,
  sort-eq_of_perm, keep-perm,
}
use nexuspuppet.Value.{Engine}
use nexuspuppet.Materialization.Rules.{
  EvaluableGroup, EvaluableNode, group_matches, merges_before, match_groups,
}

module _ (js : Engine) (collation : IsWeakOrder js.locale_before) where
  open js use {Num}

  merges_before-IsWeakOrder : IsWeakOrder (merges_before js)
  unfolding merges_before
  merges_before-IsWeakOrder = record {
    asym = λ a b h. ground (arith, collation.asym a.id b.id);
    cotrans =
        λ a b c h k. ground (arith, collation.cotrans a.id b.id c.id, collation.asym a.id b.id);
  }

  -- The collation tells the ids of the two groups apart.
  abbrev pub DistinctIds : EvaluableGroup Num → EvaluableGroup Num → Type 0
  DistinctIds a b = Apart js.locale_before a.id b.id

  Apart-of_ids : (a b : EvaluableGroup Num) → DistinctIds a b → Apart (merges_before js) a b
  unfolding merges_before
  Apart-of_ids a b d = ground arith

  Pairs-Apart :
      (groups : List (EvaluableGroup Num))
      → Pairs DistinctIds groups
      → Pairs (Apart (merges_before js)) groups
  Pairs-Apart groups h = Pairs-map_of Apart-of_ids groups h

  -- The groups that match come out in the same merge order whatever the order of the rows, where
  -- collation is a total preorder that tells the groups' ids apart.
  pub match_groups-eq_of_perm :
      (node : EvaluableNode Num) {groups rows : List (EvaluableGroup Num)}
      → Permᴰ groups rows
      → Pairs DistinctIds groups
      → match_groups js node groups ≡ match_groups js node rows
  unfolding match_groups
  match_groups-eq_of_perm node {groups} d ids =
      sort-eq_of_perm (merges_before js) merges_before-IsWeakOrder
        (keep-perm (group_matches js node) d)
        (Pairs-keep (group_matches js node) (Apart (merges_before js)) groups
          (Pairs-Apart groups ids))

  -- `matchGroups` returns each matching group as often as it is listed and nothing else, and no
  -- group stands behind one that it merges before.
  pub match_groups_sorted :
      (node : EvaluableNode Num) (groups : List (EvaluableGroup Num))
      → Permᴰ (match_groups js node groups) (keep (group_matches js node) groups)
        × Pairs (NotBefore (merges_before js)) (match_groups js node groups)
  unfolding match_groups
  match_groups_sorted node groups = (
    sort-perm (merges_before js) (keep (group_matches js node) groups),
    sort-Pairs (merges_before js) merges_before-IsWeakOrder (keep (group_matches js node) groups),
  )
