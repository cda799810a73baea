-- ===== src/Replication/Currency.antt =====
-- apps/api/src/classification/pure/compile-currency.ts: how a reported compile compares with the
-- classification that the origin holds.
use nexuspuppet.Base.{
  String, ◌&&◌, not, Option, none, some, ◌≡◌, ◌≢◌, ◌↔◌, ◌⊎◌, arith, eq_iff, str_eq, if◌then◌else◌,
}

pub data CompileCurrency : Type 0 where
  current puller_behind agent_behind both_behind behind : CompileCurrency

abbrev against_peer : String → String → String → CompileCurrency
against_peer reported origin peer =
    let peer_current = str_eq peer origin in
    let node_matches_peer = str_eq reported peer in
    if node_matches_peer && not peer_current
    then puller_behind
    else if peer_current
    then agent_behind
    else both_behind

abbrev against_origin : String → String → Option String → CompileCurrency
against_origin reported origin none = if str_eq reported origin then current else behind
against_origin reported origin (some peer) =
    if str_eq reported origin then current else against_peer reported origin peer

unfoldable pub compile_currency : String → Option String → Option String → CompileCurrency
compile_currency reported none peer = behind
compile_currency reported (some origin) peer = against_origin reported origin peer

-- What each verdict says of the three revisions.
abbrev pub Means : CompileCurrency → String → Option String → Option String → Type 0
Means current r o p = o ≡ some r
Means behind r o p = (o ≡ none) ⊎ (o ≢ some r) × (p ≡ none)
Means puller_behind r o p = (o ≢ none) × (o ≢ some r) × (p ≡ some r)
Means agent_behind r o p = (o ≢ some r) × (p ≢ none) × (p ≡ o)
Means both_behind r o p = (o ≢ none) × (p ≢ none) × (o ≢ some r) × (p ≢ some r) × (p ≢ o)

-- Each verdict is given exactly in the situation that it names: CURRENT where the origin holds the
-- reported revision, PULLER_BEHIND where only the peer does, AGENT_BEHIND where the peer has the
-- origin's and the node has not, BOTH_BEHIND where all three differ, BEHIND where the origin or the
-- peer is unknown and the report is not the origin's revision.
pub compile_currency_iff :
    (v : CompileCurrency) (r : String) (o p : Option String)
    → (compile_currency r o p ≡ v) ↔ Means v r o p
unfolding compile_currency
compile_currency_iff current r none p = ground arith
compile_currency_iff current r (some o) none = ground (arith, eq_iff r o)
compile_currency_iff current r (some o) (some p) =
    ground (arith, eq_iff r o, eq_iff p o, eq_iff r p)
compile_currency_iff v r none none = ground arith
compile_currency_iff v r none (some p) = ground arith
compile_currency_iff v r (some o) none = ground (arith, eq_iff r o)
compile_currency_iff v r (some o) (some p) = ground (arith, eq_iff r o, eq_iff p o, eq_iff r p)
