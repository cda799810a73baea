-- ===== src/Logging/Throttle.antt =====
-- `LogThrottle` of apps/api/src/common/log-throttle.ts.
pub mod Laws
use Prim.Native.String
use nexuspuppet.Base.{
  ℕ, ◌+◌, String, Bool, true, false, Option, none, some, List, [], ◌∷◌, ltb, leb, if◌then◌else◌,
}
use nexuspuppet.Value.{Engine}

-- The fields of the class; `none` is the negative infinity that no window has started at.
pub record LogThrottle : Type 0 where
  pub window_started_at : Option ℕ
  pub written : ℕ
  pub suppressed : ℕ

abbrev pub fresh : LogThrottle
fresh = record { window_started_at = none; written = 0; suppressed = 0 }

-- A line that is written, with the lines swallowed since the last one.
pub record WrittenLine : Type 0 where
  pub line : String
  pub swallowed : ℕ

-- The text that `write` is called with.
unfoldable pub written_text : Engine → WrittenLine → String
written_text js w =
    if ltb 0 w.swallowed
    then String.◌++◌ w.line (
        String.◌++◌ " (" (String.◌++◌ (js.num_text (js.num_of w.swallowed)) " similar suppressed)"))
    else w.line

-- `now - this.windowStartedAt >= this.windowMs`
abbrev pub is_over : ℕ → Option ℕ → ℕ → Bool
is_over window_ms none now = true
is_over window_ms (some started) now = leb (started + window_ms) now

abbrev restart : ℕ → ℕ → LogThrottle → LogThrottle
restart window_ms now t =
    if is_over window_ms t.window_started_at now
    then record t { window_started_at = some now; written = 0 }
    else t

abbrev write_line : ℕ → String → LogThrottle → Option WrittenLine × LogThrottle
write_line limit line t =
    if leb limit t.written then (none, record t { suppressed = t.suppressed + 1 }) else (
      some (record { line = line; swallowed = t.suppressed }),
      record t { written = t.written + 1; suppressed = 0 },
    )

unfoldable pub emit : ℕ → ℕ → ℕ → String → LogThrottle → Option WrittenLine × LogThrottle
emit limit window_ms now line t = write_line limit line (restart window_ms now t)

abbrev pub append_line : Option WrittenLine → List WrittenLine → List WrittenLine
append_line none later = later
append_line (some w) later = w ∷ later

-- The lines that a sequence of calls writes, each call with what the clock said.
unfoldable pub emit_all : ℕ → ℕ → LogThrottle → List (ℕ × String) → List WrittenLine × LogThrottle
emit_all limit window_ms t [] = ([], t)
emit_all limit window_ms t ((now, line) ∷ calls) =
    let (w, next) = emit limit window_ms now line t in
    let (later, final) = emit_all limit window_ms next calls in (append_line w later, final)
