-- ===== src/Materialization/Renderer/Names.antt =====
-- Which names `PUPPET_CLASS_NAME` of packages/contracts/src/enc.ts lets through.
use nexuspuppet.Base.{
  ℕ, String, Bool, true, false, ◌&&◌, ◌↔◌, List, [], ◌∷◌, ◌++◌, ◌≡◌, refl, ◌∙◌, ap, arith, ◌==◌,
  if◌then◌else◌,
}
use nexuspuppet.Base.{==_iff}
use nexuspuppet.Value.Text.{codes}
use nexuspuppet.Materialization.Renderer.{
  is_lower, is_name_char, is_class_name, Reading, at_segment, in_segment, at_colon, reads_name,
}

-- A segment after its first letter.
unfoldable pub tail_of : List ℕ → Bool
tail_of [] = true
tail_of (c ∷ cs) = is_name_char c && tail_of cs

unfoldable pub is_segment : List ℕ → Bool
unfolding tail_of
is_segment [] = false
is_segment (c ∷ cs) = is_lower c && tail_of cs

unfoldable pub all_segments : List (List ℕ) → Bool
unfolding is_segment
all_segments [] = true
all_segments (p ∷ ps) = is_segment p && all_segments ps

-- Segments, each after two colons.
abbrev pub more : List (List ℕ) → List ℕ
more [] = []
more (q ∷ qs) = b':' ∷ b':' ∷ q ++ more qs

name_char_colon : is_name_char b':' ≡ false
name_char_colon = refl

and₂ : (a b : Bool) → (a && b) ≡ true → (a ≡ true) × (b ≡ true)
and₂ a b h = ground (arith, h)

and₃ : (a b c : Bool) → ((a && b) && c) ≡ true → (a ≡ true) × (b ≡ true) × (c ≡ true)
and₃ a b c h = ground (arith, h)

reads-tail :
    (p : List ℕ) (rest : List (List ℕ))
    → tail_of p ≡ true
    → all_segments rest ≡ true
    → reads_name in_segment (p ++ more rest) ≡ true
unfolding reads_name tail_of all_segments
reads-tail [] [] h k = refl
reads-tail [] ([] ∷ qs) h k = cc
reads-tail [] ((c ∷ q) ∷ qs) h k =
    let (l, t, r) = and₃ (is_lower c) (tail_of q) (all_segments qs) k in rw l (reads-tail q qs t r)
reads-tail (c ∷ p) rest h k =
    let (n, t) = and₂ (is_name_char c) (tail_of p) h in rw n (reads-tail p rest t k)

-- What a name that is read holds from where the match stands on.
abbrev Reads : Reading → List ℕ → Type 0
Reads at_segment cs =
    (p : List ℕ) × (rest : List (List ℕ)) × (all_segments (p ∷ rest) ≡ true) × (cs ≡ p ++ more rest)
Reads in_segment cs =
    (p : List ℕ) × (rest : List (List ℕ)) × (tail_of p ≡ true)
    × (all_segments rest ≡ true)
    × (cs ≡ p ++ more rest)
Reads at_colon cs = (rest : List (List ℕ)) × (all_segments rest ≡ true) × (b':' ∷ cs ≡ more rest)

-- One character within a segment: it goes on, or a colon ends it.
by_char :
    (c : ℕ) (cs : List ℕ) (b : Bool)
    → is_name_char c ≡ b
    → (if b then reads_name in_segment cs else (c == b':' && reads_name at_colon cs)) ≡ true
    → (reads_name in_segment cs ≡ true → Reads in_segment cs)
    → (reads_name at_colon cs ≡ true → Reads at_colon cs)
    → Reads in_segment (c ∷ cs)
unfolding tail_of all_segments
by_char c cs true n h go end =
    let (p, rest, t, a, e) = go h in (c ∷ p, rest, rw (n, t) refl, a, ap (◌∷◌ c) e)
by_char c cs false n h go end =
    let (q, r) = and₂ (c == b':') (reads_name at_colon cs) h in
    let (rest, a, e) = end r in ([], rest, refl, a, ap (λ d. d ∷ cs) ((==_iff c b':').0 q) ∙ e)

Reads-split : (at : Reading) (cs : List ℕ) → reads_name at cs ≡ true → Reads at cs
unfolding reads_name tail_of all_segments
Reads-split at_segment [] h = cc
Reads-split at_segment (c ∷ cs) h =
    let (l, r) = and₂ (is_lower c) (reads_name in_segment cs) h in
    let (p, rest, t, a, e) = Reads-split in_segment cs r in (c ∷ p, rest, rw (l, t) a, ap (◌∷◌ c) e)
Reads-split in_segment [] h = ([], [], refl, refl, refl)
Reads-split in_segment (c ∷ cs) h =
    by_char c cs (is_name_char c) refl h (Reads-split in_segment cs) (Reads-split at_colon cs)
Reads-split at_colon [] h = cc
Reads-split at_colon (c ∷ cs) h =
    let (q, r) = and₂ (c == b':') (reads_name at_segment cs) h in
    let (p, rest, a, e) = Reads-split at_segment cs r in (p ∷ rest, a, cc ((==_iff c b':').0 q, e))

-- A text is a class name exactly when it is segments joined by two colons, each a small letter with
-- small letters, digits and underscores after it.
pub is_class_name_iff :
    (name : String)
    → (is_class_name name ≡ true) ↔ (
        (p : List ℕ) × (rest : List (List ℕ)) × (all_segments (p ∷ rest) ≡ true)
        × (codes name ≡ p ++ more rest))
unfolding is_class_name reads_name all_segments
is_class_name_iff name =
    (Reads-split at_segment (codes name), λ (p, rest, a, e). rw e (joined p rest a))
  where
    joined :
        (p : List ℕ) (rest : List (List ℕ))
        → all_segments (p ∷ rest) ≡ true
        → reads_name at_segment (p ++ more rest) ≡ true
    joined [] rest a = cc
    joined (c ∷ p) rest a =
        let (l, t, r) = and₃ (is_lower c) (tail_of p) (all_segments rest) a in
        rw l (reads-tail p rest t r)
