-- ===== src/Notifications/Lifecycle/Laws.antt =====
-- What condition-lifecycle.ts promises: slow to alarm, quick to clear, and news only at the edges.
use mathlib.Core.Bool.{false≢true}
use nexuspuppet.Base.{
  ℕ, ◌+◌, ◌≤◌, ◌<◌, Bool, true, false, Option, none, some, List, [], ◌∷◌, ◌≡◌, ◌↔◌, ◌⊎◌, refl, sym,
  ap, ◌∙◌, arith, inl, inr, ltb, if◌then◌else◌, All, length, Bool-cases,
}
use nexuspuppet.Notifications.Lifecycle.{
  ConditionState, Evaluation, Transition, opened, resolved, Decision, is_open, known, threshold,
  decide, deliver, run, failures_to_open,
}

-- A transition is reported exactly at the edges: `opened` when the condition goes from closed to
-- open, `resolved` when it goes from open to closed.
pub decide_edges :
    (previous : Option ConditionState) (evaluation : Evaluation) (now : ℕ)
    → (((decide previous evaluation now).transition ≡ some opened) ↔ (
        (is_open (known previous) ≡ false)
        × (is_open (decide previous evaluation now).state ≡ true)))
      × (((decide previous evaluation now).transition ≡ some resolved) ↔ (
          (is_open (known previous) ≡ true)
          × (is_open (decide previous evaluation now).state ≡ false)))
unfolding decide
decide_edges previous evaluation now = (ground arith, ground arith)

-- After an evaluation the condition is open exactly when the evaluation failed and either it was
-- open before or the failures in a row, this one counted, have reached the evaluation's threshold.
pub is_open-decide :
    (previous : Option ConditionState) (evaluation : Evaluation) (now : ℕ)
    → (is_open (decide previous evaluation now).state ≡ true) ↔ (
        (evaluation.failing ≡ true)
        × ((is_open (known previous) ≡ true)
            ⊎ (threshold evaluation ≤ (known previous).consecutive_failures + 1)))
unfolding decide
is_open-decide previous evaluation now = ground arith

-- The transitions lead from being open, or not, to being open, or not, one edge at a time.
abbrev pub Alternates : Bool → List Transition → Bool → Type 0
Alternates before [] after = before ≡ after
Alternates before (opened ∷ ts) after = (before ≡ false) × Alternates true ts after
Alternates before (resolved ∷ ts) after = (before ≡ true) × Alternates false ts after

Alternates-step :
    (d : Decision) (before after : Bool) (later : List Transition)
    → ((d.transition ≡ some opened) ↔ ((before ≡ false) × (is_open d.state ≡ true)))
    → ((d.transition ≡ some resolved) ↔ ((before ≡ true) × (is_open d.state ≡ false)))
    → Alternates (is_open d.state) later after
    → Alternates before (deliver d.transition later) after
Alternates-step d before after later o r h = by_case d.transition refl
  where
    by_case : (t : Option Transition) → d.transition ≡ t → Alternates before (deliver t later) after
    by_case none e =
        let same : is_open d.state ≡ before =
          ground (arith, Bool-cases before, Bool-cases (is_open d.state)) in
        rw (← same) h
    by_case (some opened) e = let (b, a) = o.0 e in (b, rw (← a) h)
    by_case (some resolved) e = let (b, a) = r.0 e in (b, rw (← a) h)

-- Whatever the evaluations, what is delivered alternates between `opened` and `resolved`, and says
-- at every point whether the condition is open: nothing is delivered twice.
pub run-Alternates :
    (state : ConditionState) (evaluations : List (Evaluation × ℕ))
    → Alternates (is_open state) (run state evaluations).0 (is_open (run state evaluations).1)
unfolding run
run-Alternates state [] = refl
run-Alternates state ((evaluation, now) ∷ rest) =
    let d = decide (some state) evaluation now in
    let edges = decide_edges (some state) evaluation now in
    Alternates-step d (is_open state) (is_open (run d.state rest).1) (run d.state rest).0 edges.0
      edges.1 (run-Alternates d.state rest)

-- An evaluation of a signal that may flap.
abbrev pub Flapping : Evaluation × ℕ → Type 0
Flapping e = (e.0.failing ≡ true) × (e.0.self_resolving ≡ false)

still_open :
    (state : ConditionState) (evaluations : List (Evaluation × ℕ))
    → is_open state ≡ true
    → All Flapping evaluations
    → ((run state evaluations).0 ≡ []) × (is_open (run state evaluations).1 ≡ true)
unfolding run
still_open state [] h f = (refl, h)
still_open state ((evaluation, now) ∷ rest) h ((e, n), f) = ground (
  arith,
  decide_edges (some state) evaluation now,
  is_open-decide (some state) evaluation now,
  still_open (decide (some state) evaluation now).state rest,
)

-- From closed, with no failure counted, failing evaluations of a signal that may flap deliver
-- nothing until there are three of them; then one `opened` is all that is ever delivered.
pub three_to_open :
    (state : ConditionState) (evaluations : List (Evaluation × ℕ))
    → is_open state ≡ false
    → state.consecutive_failures ≡ 0
    → All Flapping evaluations
    → (run state evaluations).0
      ≡ (if ltb (length evaluations) failures_to_open then [] else opened ∷ [])
unfolding run decide
three_to_open state [] c z f = refl
three_to_open state ((e, t) ∷ []) c z ((p, q), f) = ground arith
three_to_open state ((e, t) ∷ (e', t') ∷ []) c z ((p, q), ((p', q'), f)) = ground arith
three_to_open state ((e, t) ∷ (e', t') ∷ (e'', t'') ∷ rest) c z
      ((p, q), ((p', q'), ((p'', q''), f))) =
    ground (
      arith,
      still_open
          (decide (some (decide (some (decide (some state) e t).state) e' t').state) e'' t'').state
          rest,
    )

-- The failures in a row, `n` to begin with, never come to three, and no signal is self-resolving.
abbrev pub Blips : ℕ → List (Evaluation × ℕ) → Type 0
Blips n [] = Unit
Blips n ((e, t) ∷ es) =
    (e.self_resolving ≡ false)
    × ((e.failing ≡ true) × (n + 1 < failures_to_open) × Blips (n + 1) es
        ⊎ (e.failing ≡ false) × Blips 0 es)

quiet :
    (state : ConditionState) (e : Evaluation) (t : ℕ)
    → is_open state ≡ false
    → (e.failing ≡ true
        → (e.self_resolving ≡ false) × (state.consecutive_failures + 1 < failures_to_open))
    → ((decide (some state) e t).transition ≡ none)
      × (is_open (decide (some state) e t).state ≡ false)
      × ((decide (some state) e t).state.consecutive_failures
          ≡ (if e.failing then state.consecutive_failures + 1 else 0))
unfolding decide
quiet state e t c f = elim (Bool-cases e.failing) [
  | inl p ↦ let (q, l) = f p in (ground arith, ground arith, ground arith)
  | inr p ↦ (ground arith, ground arith, ground arith)
]

-- Failures that never come three in a row deliver nothing, however many there are.
pub Blips-silent :
    (n : ℕ) (state : ConditionState) (evaluations : List (Evaluation × ℕ))
    → is_open state ≡ false
    → state.consecutive_failures ≡ n
    → Blips n evaluations
    → (run state evaluations).0 ≡ []
unfolding run
Blips-silent n state [] c z b = refl
Blips-silent n state ((e, t) ∷ es) c z (q, inl (p, l, b)) =
    let (silent, closed, counted) = quiet state e t c (λ _. (q, omega arith)) in
    ap (λ o. deliver o (run (decide (some state) e t).state es).0) silent
    ∙ Blips-silent (n + 1) (decide (some state) e t).state es closed
        (counted ∙ (rw p (ap (λ m. m + 1) z))) b
Blips-silent n state ((e, t) ∷ es) c z (q, inr (p, b)) =
    let (silent, closed, counted) = quiet state e t c (λ f. absurd (false≢true (sym p ∙ f))) in
    ap (λ o. deliver o (run (decide (some state) e t).state es).0) silent
    ∙ Blips-silent 0 (decide (some state) e t).state es closed (counted ∙ (rw p)) b
