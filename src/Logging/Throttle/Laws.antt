-- ===== src/Logging/Throttle/Laws.antt =====
-- That log-throttle.ts keeps a flood out of the log, and reports every line that it kept out.
use nexuspuppet.Base.{
  ℕ, ◌+◌, ◌≤◌, ◌<◌, String, Option, none, some, List, [], ◌∷◌, ◌≡◌, arith, length, All,
}
use nexuspuppet.Logging.Throttle.{LogThrottle, WrittenLine, emit, emit_all, append_line}

abbrev pub total_swallowed : List WrittenLine → ℕ
total_swallowed [] = 0
total_swallowed (w ∷ ws) = w.swallowed + total_swallowed ws

abbrev lines_of : Option WrittenLine → ℕ
lines_of none = 0
lines_of (some w) = 1 + w.swallowed

emit_account :
    (limit window_ms now : ℕ) (line : String) (t : LogThrottle)
    → lines_of (emit limit window_ms now line t).0 + (emit limit window_ms now line t).1.suppressed
      ≡ t.suppressed + 1
unfolding emit
emit_account limit window_ms now line t = ground arith

append-lines_of :
    (w : Option WrittenLine) (ws : List WrittenLine)
    → length (append_line w ws) + total_swallowed (append_line w ws)
      ≡ lines_of w + (length ws + total_swallowed ws)
append-lines_of none ws = omega arith
append-lines_of (some w) ws = omega arith

-- No line is lost from the count: the lines written, the lines that they report as swallowed and
-- those not yet reported are together the lines that were not reported before and the calls.
pub emit_all_account :
    (limit window_ms : ℕ) (t : LogThrottle) (calls : List (ℕ × String))
    → length (emit_all limit window_ms t calls).0
        + total_swallowed (emit_all limit window_ms t calls).0
        + (emit_all limit window_ms t calls).1.suppressed
      ≡ t.suppressed + length calls
unfolding emit_all
emit_all_account limit window_ms t [] = omega arith
emit_all_account limit window_ms t ((now, line) ∷ calls) =
    let e = emit limit window_ms now line t in
    omega (
      arith,
      emit_account limit window_ms now line t,
      append-lines_of e.0 (emit_all limit window_ms e.1 calls).0,
      emit_all_account limit window_ms e.1 calls,
    )

-- Within a window that has started, calls add no more lines than there is room for: with those
-- written before, they are at most the limit.
pub emit_all_bound :
    (limit window_ms started : ℕ) (t : LogThrottle) (calls : List (ℕ × String))
    → t.window_started_at ≡ some started
    → t.written ≤ limit
    → All (λ c. c.0 < started + window_ms) calls
    → t.written + length (emit_all limit window_ms t calls).0 ≤ limit
unfolding emit_all emit
emit_all_bound limit window_ms started t [] s w a = omega arith
emit_all_bound limit window_ms started t ((now, line) ∷ calls) s w (b, a) =
    ground (arith, emit_all_bound limit window_ms started (emit limit window_ms now line t).1 calls)
