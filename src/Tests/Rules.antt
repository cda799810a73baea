-- ===== src/Tests/Rules.antt =====
-- rule-evaluator.ts on the sample node and groups.
use mathlib.Core.List.{Permᴰ}
use nexuspuppet.Base.{[], ◌∷◌, ◌≡◌, refl, inr}
use nexuspuppet.Base.Sort.{sort}
use nexuspuppet.Materialization.Rules.{match_groups}
use nexuspuppet.Materialization.Rules.Order.{match_groups-eq_of_perm}
use nexuspuppet.Samples.{engine, engine-IsWeakOrder, web_node, base_group, web_group, pin_group}

match_groups-eq_of_perm_example :
    match_groups engine web_node (web_group ∷ base_group ∷ [])
    ≡ match_groups engine web_node (base_group ∷ web_group ∷ [])
match_groups-eq_of_perm_example =
    match_groups-eq_of_perm engine engine-IsWeakOrder web_node
      {groups = web_group ∷ base_group ∷ []} {rows = base_group ∷ web_group ∷ []}
      (Permᴰ.swap refl refl) (((inr refl), tt), (tt, tt))

-- The base group merges first, and the group that pins another node stays out.
order_example :
    match_groups engine web_node (pin_group ∷ web_group ∷ base_group ∷ [])
    ≡ base_group ∷ web_group ∷ []
unfolding match_groups sort
order_example = refl
