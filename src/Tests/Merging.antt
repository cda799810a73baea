-- ===== src/Tests/Merging.antt =====
-- class-merger.ts on the sample groups.
use nexuspuppet.Base.{none, some, List, [], ◌∷◌, ◌≡◌, refl, any, keep}
use nexuspuppet.Base.Dict.{get, put}
use nexuspuppet.Value.{str}
use nexuspuppet.Materialization.Merge.{top_scope_parameter, merge_groups, MergeableGroup}
use nexuspuppet.Materialization.Merge.History.{latest_value, attribution_of, disagreements, about}
use nexuspuppet.Materialization.Merge.Parameters.{parameter_history, merge_groups-parameter}
use nexuspuppet.Materialization.Merge.Inclusion.{
  is_included, param_of, assigns, last_in_groups, merge_groups-class,
}
use nexuspuppet.Samples.{engine, base_data, web_data}

abbrev both : List (MergeableGroup engine.Num)
both = base_data ∷ web_data ∷ []

merge_groups-parameter_example :
    (get (merge_groups engine both).document.parameters "dc"
      ≡ latest_value (parameter_history "dc" both []))
    × (get (merge_groups engine both).attribution.parameters "dc"
        ≡ attribution_of (parameter_history "dc" both []))
    × (keep (about top_scope_parameter "dc") (merge_groups engine both).conflicts
        ≡ disagreements engine top_scope_parameter "dc" (parameter_history "dc" both []))
merge_groups-parameter_example = merge_groups-parameter engine "dc" both refl refl

merge_groups-class_example :
    (is_included (get (merge_groups engine both).document.classes "ntp") ≡ any (assigns "ntp") both)
    × (param_of (get (merge_groups engine both).document.classes "ntp") "server"
        ≡ last_in_groups "ntp" "server" both none)
merge_groups-class_example = merge_groups-class engine "ntp" "server" both refl refl

-- The later group wins.
parameter_example : get (merge_groups engine both).document.parameters "dc" ≡ some (str "west")
unfolding merge_groups get put
parameter_example = refl
