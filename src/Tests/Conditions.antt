-- ===== src/Tests/Conditions.antt =====
-- condition-lifecycle.ts on a few evaluations.
use nexuspuppet.Base.{ℕ, true, false, none, List, [], ◌∷◌, inl, inr, refl, arith, All}
use nexuspuppet.Notifications.Lifecycle.{Evaluation, fresh, is_open, run, ConditionState}
use nexuspuppet.Notifications.Lifecycle.Laws.{Alternates, run-Alternates, Flapping, Blips}

abbrev failure : Evaluation
failure = record { failing = true; self_resolving = false }

abbrev pass : Evaluation
pass = record { failing = false; self_resolving = false }

abbrev one_failure : ConditionState
one_failure = record { consecutive_failures = 2; opened_at = none; resolved_at = none }

abbrev four_failures : List (Evaluation × ℕ)
four_failures = (failure, 1) ∷ (failure, 2) ∷ (failure, 3) ∷ (failure, 4) ∷ []

run-Alternates_example :
    Alternates false (run fresh four_failures).0 (is_open (run fresh four_failures).1)
unfolding is_open
run-Alternates_example = run-Alternates fresh four_failures

four_Flapping : All Flapping four_failures
four_Flapping = ((refl, refl), ((refl, refl), ((refl, refl), ((refl, refl), tt))))

abbrev blips : List (Evaluation × ℕ)
blips = (failure, 1) ∷ (failure, 2) ∷ (pass, 3) ∷ (failure, 4) ∷ []

blips-Blips : Blips 0 blips
blips-Blips = (
  refl,
  inl (
    refl,
    omega arith,
    (refl, inl (refl, omega arith, (refl, inr (refl, (refl, inl (refl, omega arith, tt)))))),
  ),
)
