-- ===== src/Support/Cap/Laws.antt =====
-- What `capOldestFirst` of log-window.ts keeps.
use nexuspuppet.Base.{
  ℕ, ◌+◌, ◌-◌, ◌≤◌, ◌<◌, List, [], ◌∷◌, ◌++◌, ◌≡◌, refl, ap, arith, ltb, inl, inr, Bool-cases,
}
use nexuspuppet.Support.Cap.{Placed, total_bytes, fitting}

-- The first line that was left out, if any, would not have fit.
abbrev pub FullAt : ℕ → List Placed → Type 0
FullAt room [] = Unit
FullAt room (p ∷ ps) = room < p.bytes

-- Of lines that come the newest first, with some bytes kept already that fit the limit, what is kept
-- is a beginning: it fits the limit with them, and the next line would not.
pub fitting_longest :
    (kept limit : ℕ) (ps : List Placed)
    → kept ≤ limit
    → (rest : List Placed) × (fitting kept limit ps ++ rest ≡ ps)
      × (kept + total_bytes (fitting kept limit ps) ≤ limit)
      × FullAt (limit - (kept + total_bytes (fitting kept limit ps))) rest
unfolding fitting
fitting_longest kept limit [] h = ([], refl, omega arith, tt)
fitting_longest kept limit (p ∷ ps) h = elim (Bool-cases (ltb limit (kept + p.bytes))) [
  | inl e ↦ rw e (p ∷ ps, refl, omega arith, ground arith)
  | inr e ↦
      let (rest, whole, room, full) = fitting_longest (kept + p.bytes) limit ps (ground arith) in
      rw e (rest, ap (◌∷◌ p) whole, omega arith, full_at rest full)
]
  where
    full_at :
        (rest : List Placed)
        → FullAt (limit - (kept + p.bytes + total_bytes (fitting (kept + p.bytes) limit ps))) rest
        → FullAt (limit - (kept + (p.bytes + total_bytes (fitting (kept + p.bytes) limit ps)))) rest
    full_at [] f = tt
    full_at (q ∷ qs) f = omega arith
