-- ===== src/Tests/Windows.antt =====
-- log-window.ts on a log of two records and a torn line.
use nexuspuppet.Support.Cap.{Placed}
use nexuspuppet.Base.{List, [], ◌∷◌, ℕ, ◌+◌, String, Option, none, not, ◌&&◌, ◌≡◌, length, keep}
use nexuspuppet.Value.{Value}
use nexuspuppet.Value.Text.{split_at, text_before}
use nexuspuppet.Support.Window.{select_window}
use nexuspuppet.Support.Window.Laws.{records, written_lines, select_window_lines}

-- A parser that reads nothing: the records of the log are of the form that needs none.
abbrev no_json : String → Option (Value ℕ)
no_json s = none

abbrev log : String
log = "{\"ts\":\"2026-09-30T12:00:00.000Z\"}\n{\"ts\":\"2026-09-30T13:00:00.000Z\"}\n{\"ts\":\"2026"

abbrev noon : String
noon = "2026-09-30T12:00:00.000Z"

abbrev one : String
one = "2026-09-30T13:00:00.000Z"

select_window_lines_example :
    ((select_window no_json log noon noon).lines
      ≡ keep
          (λ r. not (text_before r.ts noon) && not (text_before noon r.ts))
          (records no_json (split_at 10 log)))
    × ((select_window no_json log noon noon).unparseable
          + length (records no_json (split_at 10 log))
        ≡ length (written_lines no_json (split_at 10 log)))
select_window_lines_example = select_window_lines no_json log noon noon

abbrev three : List Placed
three =
    record { host = 0; index = 1; ts = one; bytes = 4 }
    ∷ record { host = 1; index = 0; ts = noon; bytes = 5 }
    ∷ record { host = 0; index = 0; ts = noon; bytes = 1 }
    ∷ []
