-- ===== src/Materialization/Drain/Walk.antt =====
-- That the chunks of a full reconcile visit every node, each of them once.
use mathlib.Core.Path.{subst}
use mathlib.Core.Bool.{false≢true}
use mathlib.Core.Option.{some-injective}
use mathlib.Core.List.{Permᴰ, append-nil}
use mathlib.Core.List.Permᴰ as PermD
use nexuspuppet.Base.{
  ℕ, zero, suc, ◌<◌, String, Bool, true, false, Option, none, some, List, [], ◌∷◌, ◌++◌, ◌≡◌, ◌≢◌,
  refl, sym, ◌∙◌, ap, arith, ◌==◌, length, take, keep, All, Bool-cases, inl, inr, ==_iff,
}
use nexuspuppet.Base.Sort.{
  IsWeakOrder, Apart, NotBefore, Pairs, place, sort, sort-Pairs, sort-perm, sort-eq_of_perm,
  Pairs-perm, Pairs-keep, keep-perm,
}
use nexuspuppet.Materialization.Drain.{chunk_of, next_cursor, last_of}

abbrev drop : {A : Type 0} → ℕ → List A → List A
drop zero xs = xs
drop (suc n) [] = []
drop (suc n) (x ∷ xs) = drop n xs

-- The nodes that a full reconcile writes, chunk after chunk, from a cursor on, in at most so many
-- chunks.
pub visited : (String → String → Bool) → ℕ → ℕ → Option String → List String → List String
unfolding chunk_of
visited before size zero cursor certnames = []
visited before size (suc fuel) cursor certnames =
    let nodes = chunk_of before size cursor certnames in
    nodes ++ elim (next_cursor size nodes) [
      | none ↦ []
      | some c ↦ visited before size fuel (some c) certnames
    ]

take-drop : (n : ℕ) (xs : List String) → take n xs ++ drop n xs ≡ xs
take-drop zero xs = refl
take-drop (suc n) [] = refl
take-drop (suc n) (x ∷ xs) = ap (◌∷◌ x) (take-drop n xs)

take-all : (n : ℕ) (xs : List String) → length (take n xs) ≢ n → take n xs ≡ xs
take-all zero xs h = absurd (h refl)
take-all (suc n) [] h = refl
take-all (suc n) (x ∷ xs) h = ap (◌∷◌ x) (take-all n xs (λ e. h (ap suc e)))

length-drop :
    (n : ℕ) (xs : List String) → length (take n xs) ≡ n → 0 < n → length (drop n xs) < length xs
length-drop zero xs h p = absurd (omega arith)
length-drop (suc n) [] h p = absurd (omega arith)
length-drop (suc n) (x ∷ xs) h p = shorter n xs
  where
    shorter : (m : ℕ) (ys : List String) → length (drop m ys) < suc (length ys)
    shorter zero ys = omega arith
    shorter (suc m) [] = omega arith
    shorter (suc m) (y ∷ ys) = omega (arith, shorter m ys)

last_of-All :
    (P : String → Type 0) (xs : List String) (d : String) → All P xs → last_of xs ≡ some d → P d
last_of-All P [] d a e = cc
last_of-All P (x ∷ []) d (p, a) e = subst P (some-injective x d e) p
last_of-All P (x ∷ y ∷ ys) d (p, a) e = last_of-All P (y ∷ ys) d a e

All-take : (P : String → Type 0) (n : ℕ) (xs : List String) → All P xs → All P (take n xs)
All-take P zero xs a = tt
All-take P (suc n) [] a = tt
All-take P (suc n) (x ∷ xs) (p, a) = (p, All-take P n xs a)

keep_self : (p : String → Bool) (xs : List String) → All (λ x. p x ≡ true) xs → keep p xs ≡ xs
keep_self p [] a = refl
keep_self p (x ∷ xs) (h, a) = rw h (ap (◌∷◌ x) (keep_self p xs a))

All-kept : (p : String → Bool) (xs : List String) → All (λ x. p x ≡ true) (keep p xs)
All-kept p [] = tt
All-kept p (x ∷ xs) = elim (Bool-cases (p x)) [
  | inl e ↦ rw e (e, All-kept p xs)
  | inr e ↦ rw e (All-kept p xs)
]

keep-keep :
    (p q : String → Bool) (xs : List String)
    → ((x : String) → q x ≡ true → p x ≡ true)
    → keep q (keep p xs) ≡ keep q xs
keep-keep p q [] h = refl
keep-keep p q (x ∷ xs) h = ground (arith, keep-keep p q xs h, h x)

length-perm : {xs ys : List String} → Permᴰ xs ys → length xs ≡ length ys
length-perm Permᴰ.nil = refl
length-perm (Permᴰ.cons e d) = ap suc (length-perm d)
length-perm (Permᴰ.swap {l = l} e f) = refl
length-perm (Permᴰ.trans d d') = length-perm d ∙ length-perm d'

module _ (before : String → String → Bool) (w : IsWeakOrder before) where
  irrefl : (a : String) → before a a ≡ false
  irrefl a = ground (arith, w.asym a a)

  trans_lem : (a b c : String) → before a b ≡ true → before b c ≡ true → before a c ≡ true
  trans_lem a b c h k = ground (arith, w.cotrans a c b, w.asym b c)

  -- In a list in strict order, what follows an element is what comes after it in the order.
  keep-last_of :
      (n : ℕ) (xs : List String) (d : String)
      → Pairs (λ a b. before a b ≡ true) xs
      → last_of (take n xs) ≡ some d
      → keep (before d) xs ≡ drop n xs
  keep-last_of zero xs d s e = cc
  keep-last_of (suc n) [] d s e = refl
  keep-last_of (suc zero) (x ∷ xs) d (a, s) e =
      let q : x ≡ d = some-injective x d e in
      subst (λ (c : String). keep (before c) (x ∷ xs) ≡ xs) q
        (rw (irrefl x) (keep_self (before x) xs a))
  keep-last_of (suc (suc n)) (x ∷ []) d (a, s) e =
      let q : x ≡ d = some-injective x d e in
      subst (λ (c : String). keep (before c) (x ∷ []) ≡ []) q (rw (irrefl x) refl)
  keep-last_of (suc (suc n)) (x ∷ y ∷ ys) d (a, s) e =
      let b : before x d ≡ true =
        last_of-All (λ z. before x z ≡ true) (take (suc n) (y ∷ ys)) d
          (All-take (λ z. before x z ≡ true) (suc n) (y ∷ ys) a) e in
      rw (w.asym x d b) (keep-last_of (suc n) (y ∷ ys) d s e)

  sort-sorted : (xs : List String) → Pairs (NotBefore before) xs → sort before xs ≡ xs
  unfolding sort
  sort-sorted [] s = refl
  sort-sorted (x ∷ xs) (a, s) = ap (place before x) (sort-sorted xs s) ∙ in_front x xs a
    where
      in_front :
          (x : String) (ys : List String) → All (NotBefore before x) ys → place before x ys ≡ x ∷ ys
      in_front x [] a = unfold place in refl
      in_front x (y ∷ ys) (q, a) = unfold place in ground (arith, q)

  length-sort : (xs : List String) → length (sort before xs) ≡ length xs
  length-sort xs = length-perm (sort-perm before xs)

  -- Sorting what passes a test, or testing what is sorted.
  sort-keep :
      (p : String → Bool) (xs : List String)
      → Pairs (Apart before) xs
      → sort before (keep p xs) ≡ keep p (sort before xs)
  sort-keep p xs a =
      sort-eq_of_perm before w (keep-perm p (PermD.symm (sort-perm before xs)))
        (Pairs-keep p (Apart before) xs a)
      ∙ sort-sorted (keep p (sort before xs))
          (Pairs-keep p (NotBefore before) (sort before xs) (sort-Pairs before w xs))

  strictly :
      (xs : List String)
      → Pairs (NotBefore before) xs
      → Pairs (Apart before) xs
      → Pairs (λ a b. before a b ≡ true) xs
  strictly [] s a = tt
  strictly (x ∷ xs) (q, s) (r, a) = (after xs q r, strictly xs s a)
    where
      after :
          (ys : List String)
          → All (NotBefore before x) ys
          → All (Apart before x) ys
          → All (λ y. before x y ≡ true) ys
      after [] q r = tt
      after (y ∷ ys) (n, q) (inl h, r) = (h, after ys q r)
      after (y ∷ ys) (n, q) (inr h, r) = absurd (false≢true (sym n ∙ h))

  module _ (size : ℕ) (certnames : List String) where
    -- A chunk starts at the rest of the nodes in order.
    Starts : Option String → List String → Type 0
    Starts none rest = sort before certnames ≡ rest
    Starts (some c) rest = keep (before c) (sort before certnames) ≡ rest

    chunk_of-take :
        (cursor : Option String) (rest : List String)
        → Pairs (Apart before) certnames
        → Starts cursor rest
        → chunk_of before size cursor certnames ≡ take size rest
    unfolding chunk_of Starts
    chunk_of-take none rest a h = ap (take size) h
    chunk_of-take (some c) rest a h = ap (take size) (sort-keep (before c) certnames a ∙ h)

    Starts-next :
        (cursor : Option String) (rest : List String) (d : String)
        → Pairs (λ a b. before a b ≡ true) rest
        → Starts cursor rest
        → last_of (take size rest) ≡ some d
        → Starts (some d) (drop size rest)
    unfolding Starts
    Starts-next none rest d s h e = ap (keep (before d)) h ∙ keep-last_of size rest d s e
    Starts-next (some c) rest d s h e =
        sym (
          keep-keep (before c) (before d) (sort before certnames) (λ x. trans_lem c d x (
            last_of-All (λ z. before c z ≡ true) (take size rest) d
              (All-take (λ z. before c z ≡ true) size rest
                (subst (All (λ z. before c z ≡ true)) h
                  (All-kept (before c) (sort before certnames))))
              e)))
        ∙ ap (keep (before d)) h
        ∙ keep-last_of size rest d s e

    Pairs-drop :
        (n : ℕ) (xs : List String)
        → Pairs (λ a b. before a b ≡ true) xs
        → Pairs (λ a b. before a b ≡ true) (drop n xs)
    Pairs-drop zero xs s = s
    Pairs-drop (suc n) [] s = tt
    Pairs-drop (suc n) (x ∷ xs) (a, s) = Pairs-drop n xs s

    last_of-some :
        (n : ℕ) (xs : List String) → length xs ≡ n → 0 < n → (d : String) × (last_of xs ≡ some d)
    last_of-some n [] e p = absurd (omega arith)
    last_of-some n (x ∷ []) e p = (x, refl)
    last_of-some n (x ∷ y ∷ ys) e p = last_of-some (length (y ∷ ys)) (y ∷ ys) refl (omega arith)

    visited-rest :
        (fuel : ℕ) (cursor : Option String) (rest : List String)
        → 0 < size
        → Pairs (Apart before) certnames
        → Pairs (λ a b. before a b ≡ true) rest
        → Starts cursor rest
        → length rest < fuel
        → visited before size fuel cursor certnames ≡ rest
    unfolding visited
    visited-rest zero cursor rest p a s h f = absurd (omega arith)
    visited-rest (suc fuel) cursor rest p a s h f =
        rw (chunk_of-take cursor rest a h) (elim (Bool-cases (length (take size rest) == size)) [
          | inl e ↦
              let n : length (take size rest) ≡ size = (==_iff _ _).0 e in
              let (d, l) = last_of-some size (take size rest) n p in
              rw (e, l)
                (ap (λ l. take size rest ++ l)
                    (visited-rest fuel (some d) (drop size rest) p a (Pairs-drop size rest s)
                      (Starts-next cursor rest d s h l) (omega (arith, length-drop size rest n p)))
                  ∙ take-drop size rest)
          | inr e ↦ rw e (
              append-nil (take size rest)
              ∙ take-all size rest (λ n. false≢true (sym e ∙ (==_iff _ _).1 n)))
        ])

  -- A full reconcile, carried on chunk after chunk over nodes that do not change, writes every node
  -- of the estate once, in the order of the database, and ends: a chunk more than there are nodes is
  -- enough.
  pub visited_all :
      (size fuel : ℕ) (certnames : List String)
      → 0 < size
      → length certnames < fuel
      → Pairs (Apart before) certnames
      → visited before size fuel none certnames ≡ sort before certnames
  visited_all size fuel certnames p f a =
      visited-rest size certnames fuel none (sort before certnames) p a
        (strictly (sort before certnames) (sort-Pairs before w certnames)
          (Pairs-perm before (PermD.symm (sort-perm before certnames)) a))
        (unfold Starts in refl) (omega (arith, length-sort certnames))
