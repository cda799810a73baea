-- ===== src/Tests/Throttles.antt =====
-- log-throttle.ts on five calls in a window of a second with room for two lines.
use nexuspuppet.Base.{ℕ, ◌+◌, ◌<◌, String, some, List, [], ◌∷◌, arith, All}
use nexuspuppet.Logging.Throttle.{LogThrottle}

abbrev calls : List (ℕ × String)
calls = (100, "a") ∷ (200, "b") ∷ (300, "c") ∷ (400, "d") ∷ (1200, "e") ∷ []

abbrev begun : LogThrottle
begun = record { window_started_at = some 100; written = 1; suppressed = 0 }

abbrev in_window : List (ℕ × String)
in_window = (200, "b") ∷ (300, "c") ∷ (400, "d") ∷ []

soon_enough : All (λ c. c.0 < 100 + 1000) in_window
soon_enough = (omega arith, (omega arith, (omega arith, tt)))
