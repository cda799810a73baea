-- ===== src/Base/Sort.antt =====
-- `Array.prototype.sort`: a stable sort by a comparison.
use mathlib.Core.Path.{◌≡◌, refl, ◌∙◌, subst, subst₂}
use mathlib.Core.Bool.{Bool, true, false}
use mathlib.Core.Logic.{◌⊎◌, inl, inr}
use mathlib.Core.List.{List, [], ◌∷◌, Permᴰ}
use mathlib.Core.List.Permᴰ as PermD
use native.Mathlib.Omega.{arith}
use nexuspuppet.Base.Tests.{if◌then◌else◌, Bool-cases}
use nexuspuppet.Base.Lists.{All, keep}

-- `before b a` is `compare(b, a) < 0`: only then is `b` moved in front of `a`.
module _ {ℓ} {A : Type ℓ} (before : A → A → Bool) where
  unfoldable pub place : A → List A → List A
  place x [] = x ∷ []
  place x (y ∷ ys) = if before y x then y ∷ place x ys else x ∷ y ∷ ys

  unfoldable pub sort : List A → List A
  unfolding place
  sort [] = []
  sort (x ∷ xs) = place x (sort xs)

module _ {ℓ} {A : Type ℓ} (before : A → A → Bool) where
  -- The comparison tells the two apart.
  abbrev pub Apart : A → A → Type 0
  Apart a b = (before a b ≡ true) ⊎ (before b a ≡ true)

  -- `a` may stand ahead of `b`.
  abbrev pub NotBefore : A → A → Type 0
  NotBefore a b = before b a ≡ false

-- A comparison that answers like a total preorder.
pub record IsWeakOrder {ℓ} {A : Type ℓ} (before : A → A → Bool) : Type ℓ where
  pub asym : (a b : A) → before a b ≡ true → before b a ≡ false
  pub cotrans : (a b c : A) → before a c ≡ true → before a b ≡ false → before b c ≡ true

module _ {ℓ κ} {A : Type ℓ} (R : A → A → Type κ) where
  -- Every earlier element is related to every later one.
  abbrev pub Pairs : List A → Type κ
  Pairs [] = Unit
  Pairs (x ∷ xs) = All (R x) xs × Pairs xs

module _ {ℓ κ} {A : Type ℓ} (P : A → Type κ) where
  pub All-place :
      (before : A → A → Bool) (x : A) (l : List A) → P x → All P l → All P (place before x l)
  unfolding place
  All-place before x [] p h = (p, tt)
  All-place before x (y ∷ ys) p (q, h) = elim (Bool-cases (before y x)) [
    | inl e ↦ rw e (q, All-place before x ys p h)
    | inr e ↦ rw e (p, (q, h))
  ]

  pub All-sort : (before : A → A → Bool) (l : List A) → All P l → All P (sort before l)
  unfolding sort
  All-sort before [] h = tt
  All-sort before (x ∷ xs) (p, h) = All-place before x (sort before xs) p (All-sort before xs h)

  pub All-map_of {μ} : {Q : A → Type μ} → ((a : A) → Q a → P a) → (l : List A) → All Q l → All P l
  All-map_of f [] h = tt
  All-map_of f (x ∷ xs) (q, h) = (f x q, All-map_of f xs h)

module _ {ℓ} {A : Type ℓ} (before : A → A → Bool) (w : IsWeakOrder before) where
  place-Pairs :
      (x : A) (l : List A)
      → Pairs (NotBefore before) l
      → Pairs (NotBefore before) (place before x l)
  unfolding place
  place-Pairs x [] h = (tt, tt)
  place-Pairs x (y ∷ ys) (hy, h) = elim (Bool-cases (before y x)) [
    | inl e ↦
        rw e (All-place (NotBefore before y) before x ys (w.asym y x e) hy, place-Pairs x ys h)
    | inr e ↦ rw e ((e, All-map_of (NotBefore before x) (after e) ys hy), (hy, h))
  ]
    where
      after : before y x ≡ false → (b : A) → NotBefore before y b → NotBefore before x b
      after e b nb = elim (Bool-cases (before b x)) [
        | inl t ↦ ground (arith, w.cotrans b y x t nb)
        | inr f ↦ f
      ]

  -- What `sort` returns is in order.
  pub sort-Pairs : (l : List A) → Pairs (NotBefore before) (sort before l)
  unfolding sort
  sort-Pairs [] = tt
  sort-Pairs (x ∷ xs) = place-Pairs x (sort before xs) (sort-Pairs xs)

  place_comm :
      (x y : A) (l : List A)
      → Apart before x y
      → place before x (place before y l) ≡ place before y (place before x l)
  unfolding place
  place_comm x y [] d = ground (arith, w.asym x y, w.asym y x)
  place_comm x y (z ∷ zs) d =
      ground (arith, w.asym x y, w.asym y x, w.cotrans z y x, w.cotrans z x y, place_comm x y zs d)

module _ {ℓ κ} {A : Type ℓ} (P : A → Type κ) where
  pub All-perm : {l m : List A} → Permᴰ l m → All P l → All P m
  All-perm Permᴰ.nil h = tt
  All-perm (Permᴰ.cons e d) (p, h) = (subst P e p, All-perm d h)
  All-perm (Permᴰ.swap e f) (p, (q, h)) = (subst P f q, (subst P e p, h))
  All-perm (Permᴰ.trans d d') h = All-perm d' (All-perm d h)

module _ {ℓ} {A : Type ℓ} (before : A → A → Bool) where
  unfoldable pub place-perm : (x : A) (l : List A) → Permᴰ (place before x l) (x ∷ l)
  unfolding place
  place-perm x [] = PermD.refl (x ∷ [])
  place-perm x (y ∷ ys) = elim (Bool-cases (before y x)) [
    | inl e ↦ rw e (Permᴰ.trans (Permᴰ.cons refl (place-perm x ys)) (Permᴰ.swap refl refl))
    | inr e ↦ rw e (PermD.refl (x ∷ y ∷ ys))
  ]

  -- `sort` neither loses nor invents an element.
  pub sort-perm : (l : List A) → Permᴰ (sort before l) l
  unfolding sort
  sort-perm [] = Permᴰ.nil
  sort-perm (x ∷ xs) = Permᴰ.trans (place-perm x (sort before xs)) (Permᴰ.cons refl (sort-perm xs))

module _ {ℓ} {A : Type ℓ} (before : A → A → Bool) where
  Apart-symm : (a b : A) → Apart before a b → Apart before b a
  Apart-symm a b (inl h) = inr h
  Apart-symm a b (inr h) = inl h

  pub Pairs-perm : {l m : List A} → Permᴰ l m → Pairs (Apart before) l → Pairs (Apart before) m
  Pairs-perm Permᴰ.nil h = tt
  Pairs-perm (Permᴰ.cons {a = a} {b = b} {l₂ = l₂} e d) (p, h) =
      (subst (λ x. All (Apart before x) l₂) e (All-perm (Apart before a) d p), Pairs-perm d h)
  Pairs-perm (Permᴰ.swap {a = a} {b = b} {l = l} e f) ((p, q), (r, h)) = (
    (subst₂ (Apart before) f e (Apart-symm a b p), subst (λ x. All (Apart before x) l) f r),
    (subst (λ x. All (Apart before x) l) e q, h),
  )
  Pairs-perm (Permᴰ.trans d d') h = Pairs-perm d' (Pairs-perm d h)

module _ {ℓ} {A : Type ℓ} (before : A → A → Bool) (w : IsWeakOrder before) where
  -- Where the comparison tells the elements apart, the order of the input does not matter.
  pub sort-eq_of_perm :
      {l m : List A} → Permᴰ l m → Pairs (Apart before) l → sort before l ≡ sort before m
  unfolding sort
  sort-eq_of_perm Permᴰ.nil h = refl
  sort-eq_of_perm (Permᴰ.cons e d) (p, h) = cc (e, sort-eq_of_perm d h)
  sort-eq_of_perm (Permᴰ.swap {a = a} {b = b} {l = l} e f) ((p, q), (r, h)) =
      place_comm before w a b (sort before l) p ∙ cc (e, f)
  sort-eq_of_perm (Permᴰ.trans d d') h =
      sort-eq_of_perm d h ∙ sort-eq_of_perm d' (Pairs-perm before d h)

pub Pairs-map_of {ℓ κ μ} :
    {A : Type ℓ} {R : A → A → Type κ} {S : A → A → Type μ}
    → ((a b : A) → R a b → S a b)
    → (l : List A) → Pairs R l
    → Pairs S l
Pairs-map_of f [] h = tt
Pairs-map_of {S = S} f (x ∷ xs) (q, h) = (All-map_of (S x) (f x) xs q, Pairs-map_of f xs h)

-- Filtering commutes with reordering and keeps what holds of the elements.
module _ {ℓ} {A : Type ℓ} (p : A → Bool) where
  pub keep-perm : {l m : List A} → Permᴰ l m → Permᴰ (keep p l) (keep p m)
  keep-perm Permᴰ.nil = Permᴰ.nil
  keep-perm (Permᴰ.cons {a = a} {b = b} e d) = elim (Bool-cases (p a)) [
    | inl t ↦ let u : p b ≡ true = cc in rw (t, u) (Permᴰ.cons e (keep-perm d))
    | inr f ↦ let u : p b ≡ false = cc in rw (f, u) (keep-perm d)
  ]
  keep-perm (Permᴰ.swap {a = a} {b = b} {a' = a'} {b' = b'} {l = l} e f) = keep_swap a b a' b' e f
    where
      keep_swap :
          (x y x' y' : A) → x ≡ y' → y ≡ x' → Permᴰ (keep p (x ∷ y ∷ l)) (keep p (x' ∷ y' ∷ l))
      keep_swap x y x' y' g h =
          subst₂ (λ u v. Permᴰ (keep p (x ∷ y ∷ l)) (keep p (u ∷ v ∷ l))) h g (both x y)
        where
          both : (x y : A) → Permᴰ (keep p (x ∷ y ∷ l)) (keep p (y ∷ x ∷ l))
          both x y = elim (Bool-cases (p x)) [
            | inl t ↦ elim (Bool-cases (p y)) [
              | inl u ↦ rw (t, u) (Permᴰ.swap refl refl)
              | inr u ↦ rw (t, u) (PermD.refl _)
            ]
            | inr t ↦ elim (Bool-cases (p y)) [
              | inl u ↦ rw (t, u) (PermD.refl _)
              | inr u ↦ rw (t, u) (PermD.refl _)
            ]
          ]
  keep-perm (Permᴰ.trans d d') = Permᴰ.trans (keep-perm d) (keep-perm d')

  pub All-keep {κ} : (P : A → Type κ) (l : List A) → All P l → All P (keep p l)
  All-keep P [] h = tt
  All-keep P (x ∷ xs) (q, h) = elim (Bool-cases (p x)) [
    | inl t ↦ rw t (q, All-keep P xs h)
    | inr f ↦ rw f (All-keep P xs h)
  ]

  pub Pairs-keep {κ} : (R : A → A → Type κ) (l : List A) → Pairs R l → Pairs R (keep p l)
  Pairs-keep R [] h = tt
  Pairs-keep R (x ∷ xs) (q, h) = elim (Bool-cases (p x)) [
    | inl t ↦ rw t (All-keep (R x) xs q, Pairs-keep R xs h)
    | inr f ↦ rw f (Pairs-keep R xs h)
  ]
