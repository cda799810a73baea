-- ===== src/Replication/Tree/Stable.antt =====
-- What enc-replication.service.ts promises of the archive that it serves.
use mathlib.Core.List.{Permᴰ}
use mathlib.Core.List.Permᴰ as PermD
use nexuspuppet.Base.{
  Bool-cases, inl, inr, ◌∙◌, if_true, ℕ, ◌+◌, String, Bool, ◌&&◌, Option, none, some, List, [], ◌∷◌,
  map, ◌≡◌, refl, ap, arith, eq_iff, str_eq, keep, length, if◌then◌else◌, ◌==◌,
}
use nexuspuppet.Base.Sort.{Pairs, Apart, sort-eq_of_perm, keep-perm}
use nexuspuppet.Base.Dict.{Dict, get, put, get-put}
use nexuspuppet.Value.Text.{text_before}
use nexuspuppet.Value.Order.{text_before-IsWeakOrder}
use nexuspuppet.Materialization.Storage.{Read, entries}
use nexuspuppet.Replication.Ustar.{Bytes}
use nexuspuppet.Replication.Tree.{
  Peer, is_served, name_of, tree_of, packed_tree, with_default, read_nodes, record_fetch,
  peer_after,
}

-- The order in which the folder is listed does not show: two listings of the same entries give one
-- archive and one ETag, or both fail.
pub tree_of-perm :
    (sha256 : Bytes → String) (default : Read) (read : String → Read)
    {es es' : List (String × Bool)}
    → Permᴰ es es'
    → Pairs (Apart text_before) (map name_of (keep is_served es))
    → tree_of sha256 default (entries es) read ≡ tree_of sha256 default (entries es') read
unfolding tree_of
tree_of-perm sha256 default read p h =
    ap (λ names. packed_tree sha256 (with_default default (read_nodes read names)))
      (sort-eq_of_perm text_before text_before-IsWeakOrder
        (PermD.map name_of (keep-perm is_served p)) h)

-- A fetch, and whether the database took the row.
pub record Fetch : Type 0 where
  pub written : Bool
  pub now : ℕ
  pub certname : String
  pub etag : String
  pub status : ℕ

abbrev pub fetched : List Fetch → Dict Peer → Dict Peer
fetched [] peers = peers
fetched (f ∷ fs) peers = fetched fs (record_fetch f.written f.now f.certname f.etag f.status peers)

abbrev pub is_of : String → Fetch → Bool
is_of certname f = str_eq f.certname certname && f.written

-- When the last of the peer's fetches that moved the tree was, or what was known before.
abbrev pub last_moved : String → List Fetch → Option ℕ → Option ℕ
last_moved certname [] known = known
last_moved certname (f ∷ fs) known =
    last_moved certname fs (if is_of certname f && f.status == 200 then some f.now else known)

abbrev pub fetches_of : Option Peer → ℕ
fetches_of none = 0
fetches_of (some p) = p.fetch_count

abbrev pub moved_of : Option Peer → Option ℕ
moved_of none = none
moved_of (some p) = p.last_changed_at

row_counts :
    (f : Fetch) (o : Option Peer)
    → (fetches_of (some (peer_after f.now f.etag f.status o)) ≡ 1 + fetches_of o)
      × (moved_of (some (peer_after f.now f.etag f.status o))
          ≡ (if f.status == 200 then some f.now else moved_of o))
row_counts f none = (refl, refl)
row_counts f (some p) = (omega arith, refl)

one_fetch :
    (f : Fetch) (peers : Dict Peer) (certname : String)
    → let after = get (record_fetch f.written f.now f.certname f.etag f.status peers) certname in
      (fetches_of after ≡ (if is_of certname f then 1 else 0) + fetches_of (get peers certname))
      × (moved_of after ≡ (
          if is_of certname f && f.status == 200
          then some f.now
          else moved_of (get peers certname)))
unfolding record_fetch
one_fetch f peers certname =
    let row = peer_after f.now f.etag f.status (get peers f.certname) in
    let g = get-put peers f.certname row certname in
    elim (Bool-cases f.written) [
      | inl w ↦ elim (Bool-cases (str_eq f.certname certname)) [
        | inl e ↦
            let same : get peers f.certname ≡ get peers certname =
              ap (get peers) ((eq_iff f.certname certname).0 e) in
            let after : get (put peers f.certname row) certname
                ≡ some (peer_after f.now f.etag f.status (get peers certname)) =
              g
              ∙ if_true (str_eq f.certname certname) (some row) (get peers certname) e
              ∙ ap (λ o. some (peer_after f.now f.etag f.status o)) same in
            rw (w, after, e) (row_counts f (get peers certname))
        | inr e ↦ ground (arith, w, e, g)
      ]
      | inr w ↦ ground (arith, w)
    ]

-- After any fetches of any peers, a peer's row counts those of its own that were recorded, and tells
-- when the last of them that moved the tree was.
pub fetched-row :
    (fs : List Fetch) (peers : Dict Peer) (certname : String)
    → (fetches_of (get (fetched fs peers) certname)
        ≡ length (keep (is_of certname) fs) + fetches_of (get peers certname))
      × (moved_of (get (fetched fs peers) certname)
          ≡ last_moved certname fs (moved_of (get peers certname)))
fetched-row [] peers certname = (omega arith, refl)
fetched-row (f ∷ fs) peers certname =
    let next = record_fetch f.written f.now f.certname f.etag f.status peers in
    let (count, moved) = fetched-row fs next certname in
    let (one, last) = one_fetch f peers certname in
    (ground (arith, count, one), moved ∙ ap (last_moved certname fs) last)
