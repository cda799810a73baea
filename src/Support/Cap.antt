-- ===== src/Support/Cap.antt =====
-- `capOldestFirst` of apps/api/src/support/pure/log-window.ts.
pub mod Laws
use nexuspuppet.Base.{
  ℕ, zero, suc, ◌+◌, ◌-◌, String, Bool, true, false, not, ◌&&◌, ◌||◌, Option, none, some, List, [],
  ◌∷◌, ◌++◌, map, str_eq, ltb, leb, ◌==◌, if◌then◌else◌, length, any,
}
use nexuspuppet.Base.Sort.{sort}
use nexuspuppet.Value.Text.{codes, text_before}
use nexuspuppet.Support.Window.{TimedLine}

pub record HostLog : Type 0 where
  pub host : String
  pub lines : List TimedLine
  -- the name and the bytes of each file
  pub files : List (String × ℕ)
  pub earliest_on_disk : Option String
  pub latest_on_disk : Option String
  pub unparseable : ℕ

-- An element of `all`: the line's host, its place there, its time and its size.
pub record Placed : Type 0 where
  pub host : ℕ
  pub index : ℕ
  pub ts : String
  pub bytes : ℕ

pub record CappedLogs : Type 0 where
  pub hosts : List HostLog
  pub dropped_lines : ℕ
  pub dropped_bytes : ℕ
  pub kept_from : Option String

-- The bytes of a code point in UTF-8.
abbrev utf8_size : ℕ → ℕ
utf8_size c = if ltb c 0x80 then 1 else if ltb c 0x800 then 2 else if ltb c 0x10000 then 3 else 4

-- `Buffer.byteLength(text, 'utf8')`
unfoldable pub byte_length : List ℕ → ℕ
byte_length [] = 0
byte_length (c ∷ cs) = utf8_size c + byte_length cs

abbrev place_lines : ℕ → ℕ → List TimedLine → List Placed
place_lines host index [] = []
place_lines host index (line ∷ lines) =
    record { host = host; index = index; ts = line.ts; bytes = byte_length (codes line.text) + 1 }
    ∷ place_lines host (suc index) lines

-- `all`, from the host with this number on.
unfoldable pub place_hosts : ℕ → List HostLog → List Placed
unfolding byte_length
place_hosts host [] = []
place_hosts host (h ∷ hs) = place_lines host 0 h.lines ++ place_hosts (suc host) hs

abbrev pub total_bytes : List Placed → ℕ
total_bytes [] = 0
total_bytes (p ∷ ps) = p.bytes + total_bytes ps

-- The comparison of the sort is below 0.
unfoldable pub newer : Placed → Placed → Bool
newer a b =
    if not (str_eq a.ts b.ts)
    then not (text_before a.ts b.ts)
    else if a.host == b.host
    then ltb b.index a.index
    else ltb a.host b.host

-- The loop that keeps lines until the first that does not fit.
unfoldable pub fitting : ℕ → ℕ → List Placed → List Placed
fitting kept cap [] = []
fitting kept cap (p ∷ ps) =
    let rest = fitting (kept + p.bytes) cap ps in if ltb cap (kept + p.bytes) then [] else p ∷ rest

abbrev last_ts : Option String → List Placed → Option String
last_ts from [] = from
last_ts from (p ∷ ps) = last_ts (some p.ts) ps

-- `keep[host]?.has(index)`
abbrev pub is_kept : List Placed → ℕ → ℕ → Bool
is_kept kept host index = any (λ p. p.host == host && p.index == index) kept

abbrev kept_lines : List Placed → ℕ → ℕ → List TimedLine → List TimedLine
kept_lines kept host index [] = []
kept_lines kept host index (line ∷ lines) =
    let rest = kept_lines kept host (suc index) lines in
    if is_kept kept host index then line ∷ rest else rest

unfoldable pub keep_hosts : List Placed → ℕ → List HostLog → List HostLog
keep_hosts kept host [] = []
keep_hosts kept host (h ∷ hs) =
    record h { lines = kept_lines kept host 0 h.lines } ∷ keep_hosts kept (suc host) hs

abbrev pub capped : List HostLog → ℕ → List Placed → CappedLogs
capped hosts cap all =
    let kept = fitting 0 cap (sort newer all) in
    record {
      hosts = keep_hosts kept 0 hosts;
      dropped_lines = length all - length kept;
      dropped_bytes = total_bytes all - total_bytes kept;
      kept_from = last_ts none kept;
    }

unfoldable pub cap_oldest_first : List HostLog → ℕ → CappedLogs
unfolding place_hosts newer fitting keep_hosts
cap_oldest_first hosts cap =
    let all = place_hosts 0 hosts in
    if leb (total_bytes all) cap
    then record { hosts = hosts; dropped_lines = 0; dropped_bytes = 0; kept_from = none }
    else capped hosts cap all
