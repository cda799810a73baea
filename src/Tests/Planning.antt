-- ===== src/Tests/Planning.antt =====
-- apply-operation.ts on the sample groups.
use mathlib.Core.Bool.{false≢true}
use nexuspuppet.Base.{ℕ, ◌≡◌, refl, All}
use nexuspuppet.Base.Dict.{get}
use nexuspuppet.Value.{str}
use nexuspuppet.Materialization.Rules.{group_matches}
use nexuspuppet.Materialization.Classify.{GroupSet, classify}
use nexuspuppet.Plan.{PlanRequest, set_parameter, apply_operation, changes_membership, or_else}
use nexuspuppet.Plan.Scan.{scan_skips, Unmatched}
use nexuspuppet.Samples.{engine, web_node, group_set}

abbrev request : PlanRequest ℕ
request = record { group_id = "ggg"; operation = set_parameter "dc" (str "north") }

-- The sample groups after the request.
abbrev after : GroupSet ℕ
after = or_else (apply_operation group_set request) group_set

unmatched : All (Unmatched engine "ggg" web_node) group_set.evaluable
unfolding group_matches
unmatched = (λ e. refl, (λ e. absurd (false≢true e), (λ e. absurd (false≢true e), tt)))

scan_skips_example : classify engine web_node after ≡ classify engine web_node group_set
unfolding apply_operation changes_membership get
scan_skips_example = scan_skips engine web_node group_set after request refl refl unmatched
