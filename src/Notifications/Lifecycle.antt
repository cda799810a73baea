-- ===== src/Notifications/Lifecycle.antt =====
-- apps/api/src/notifications/pure/condition-lifecycle.ts: when a condition opens and resolves.
pub mod Laws
use nexuspuppet.Base.{
  ℕ, ◌+◌, Bool, true, false, Option, none, some, List, [], ◌∷◌, ltb, if◌then◌else◌, fold,
}

abbrev pub failures_to_open : ℕ
failures_to_open = 3

-- A `Date` is its milliseconds.
pub record ConditionState : Type 0 where
  pub consecutive_failures : ℕ
  pub opened_at : Option ℕ
  pub resolved_at : Option ℕ

pub record Evaluation : Type 0 where
  pub failing : Bool
  pub self_resolving : Bool

pub data Transition : Type 0 where
  opened resolved : Transition

pub record Decision : Type 0 where
  pub state : ConditionState
  pub transition : Option Transition

abbrev open_of : Option ℕ → Option ℕ → Bool
open_of (some o) none = true
open_of _ _ = false

unfoldable pub is_open : ConditionState → Bool
is_open state = open_of state.opened_at state.resolved_at

abbrev pub fresh : ConditionState
fresh = record { consecutive_failures = 0; opened_at = none; resolved_at = none }

-- `previous ?? { … }`
abbrev pub known : Option ConditionState → ConditionState
known none = fresh
known (some state) = state

abbrev pub threshold : Evaluation → ℕ
threshold evaluation = if evaluation.self_resolving then 1 else failures_to_open

-- The part of `decide` after the early return of a passing evaluation.
abbrev decide_failing : ConditionState → Evaluation → ℕ → Decision
decide_failing state evaluation now =
    let n = state.consecutive_failures + 1 in
    if is_open state
    then record { state = record state { consecutive_failures = n }; transition = none }
    else if ltb n (threshold evaluation)
    then record { state = record state { consecutive_failures = n }; transition = none }
    else record {
      state = record { consecutive_failures = n; opened_at = some now; resolved_at = none };
      transition = some opened;
    }

abbrev decide_passing : ConditionState → ℕ → Decision
decide_passing state now =
    if is_open state
    then record {
      state = record state { consecutive_failures = 0; resolved_at = some now };
      transition = some resolved;
    }
    else record { state = record state { consecutive_failures = 0 }; transition = none }

unfoldable pub decide : Option ConditionState → Evaluation → ℕ → Decision
unfolding is_open
decide previous evaluation now =
    if evaluation.failing
    then decide_failing (known previous) evaluation now
    else decide_passing (known previous) now

abbrev pub deliver : Option Transition → List Transition → List Transition
deliver none later = later
deliver (some t) later = t ∷ later

-- The evaluations of one condition, each with its time, from the state in the store; the
-- transitions are what is delivered.
unfoldable pub run : ConditionState → List (Evaluation × ℕ) → List Transition × ConditionState
run state [] = ([], state)
run state ((evaluation, now) ∷ rest) =
    let d = decide (some state) evaluation now in
    let (later, final) = run d.state rest in (deliver d.transition later, final)
