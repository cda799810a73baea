-- ===== src/Tests/Reports.antt =====
-- strategy-warnings.ts and aggregate-conflicts.ts on the sample groups.
use nexuspuppet.Base.{ℕ, String, List, [], ◌∷◌}
use nexuspuppet.Value.{str}
use nexuspuppet.Materialization.Merge.{ClassificationConflict, environment, top_scope_parameter}
use nexuspuppet.Classification.Conflicts.{NodeConflicts}

abbrev dc_conflict : ClassificationConflict ℕ
dc_conflict = record {
  kind = top_scope_parameter;
  key = "dc";
  winning_group_id = "gg";
  winning_group_name = "web";
  winning_value = str "west";
  losing_group_id = "g";
  losing_group_name = "base";
  losing_value = str "east";
}

abbrev rows : List (NodeConflicts ℕ)
rows =
    record { certname = "web01"; conflicts = dc_conflict ∷ dc_conflict ∷ [] }
    ∷ record { certname = "db01"; conflicts = [] }
    ∷ record {
      certname = "web02";
      conflicts = dc_conflict ∷ record dc_conflict { kind = environment; key = "environment" } ∷ [];
    }
    ∷ []

abbrev dc_identity : String
dc_identity = "TOP_SCOPE_PARAMETER\0dc\0gg\0g"
