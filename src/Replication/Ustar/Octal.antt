-- ===== src/Replication/Ustar/Octal.antt =====
-- The octal fields of ustar.ts and their reading.
use nexuspuppet.Base.{
  ℕ, zero, suc, ◌+◌, ◌-◌, ◌*◌, ◌/◌, ◌%◌, ◌^◌, ◌≤◌, ◌<◌, [], ◌∷◌, ◌++◌, ◌≡◌, refl, sym, ap, ◌∙◌,
  arith, ltb, length, take, All, Bool-cases, inl, inr, length-append,
}
use mathlib.Core.List.{append_assoc}
use native.Mathlib.Numerals.{unary_clauses}
use nexuspuppet.Replication.Ustar.{Bytes, filled, octal_digits, pad_start, octal}
use nexuspuppet.Replication.Ustar.Buffer.{length-filled, All-append, All-take, All-filled}

-- The number that octal digits stand for.
abbrev pub read_from : ℕ → Bytes → ℕ
read_from value [] = value
read_from value (d ∷ digits) = read_from (value * 8 + (d - 48)) digits

abbrev pub read_octal : Bytes → ℕ
read_octal = read_from 0

-- The last digits of a number.
last_digits : ℕ → ℕ → Bytes
last_digits zero value = []
last_digits (suc size) value = last_digits size (value / 8) ++ (48 + value % 8) ∷ []

length-last_digits : (size value : ℕ) → length (last_digits size value) ≡ size
unfolding last_digits
length-last_digits zero value = refl
length-last_digits (suc size) value = omega (
  arith,
  length-append (last_digits size (value / 8)) ((48 + value % 8) ∷ []),
  length-last_digits size (value / 8),
)

last_step :
    (size value : ℕ)
    → last_digits size (value / 8) ++ (48 + value % 8) ∷ [] ≡ last_digits (suc size) value
unfolding last_digits
last_step size value = refl

read_from-append :
    (value d : ℕ) (digits : Bytes)
    → read_from value (digits ++ d ∷ []) ≡ read_from value digits * 8 + (d - 48)
read_from-append value d [] = refl
read_from-append value d (c ∷ digits) = read_from-append (value * 8 + (c - 48)) d digits

smaller : (size value : ℕ) → value < 8 ^ suc size → value / 8 < 8 ^ size
smaller size value h = omega (arith, simp unary_clauses at h)

read_octal-last_digits :
    (size value : ℕ) → value < 8 ^ size → read_octal (last_digits size value) ≡ value
unfolding last_digits
read_octal-last_digits zero value h = omega arith
read_octal-last_digits (suc size) value h =
    read_from-append 0 (48 + value % 8) (last_digits size (value / 8))
    ∙ ap (λ n. n * 8 + (48 + value % 8 - 48))
        (read_octal-last_digits size (value / 8) (smaller size value h))
    ∙ omega arith

filled_snoc : (byte n : ℕ) → filled byte n ++ byte ∷ [] ≡ byte ∷ filled byte n
unfolding filled
filled_snoc byte zero = refl
filled_snoc byte (suc n) = ap (λ t. byte ∷ t) (filled_snoc byte n)

last_digits_zero : (size : ℕ) → last_digits size 0 ≡ filled 48 size
unfolding last_digits filled
last_digits_zero zero = refl
last_digits_zero (suc size) = ap (λ t. t ++ 48 ∷ []) (last_digits_zero size) ∙ filled_snoc 48 size

length-octal_digits : (fuel value : ℕ) → 0 < length (octal_digits fuel value)
unfolding octal_digits
length-octal_digits zero value = omega arith
length-octal_digits (suc fuel) value =
    ground (arith, length-append (octal_digits fuel (value / 8)) ((48 + value % 8) ∷ []))

-- One digit, padded.
pad_start-one :
    (size value : ℕ)
    → value < 8
    → pad_start (suc size) ((48 + value) ∷ []) ≡ last_digits (suc size) value
unfolding last_digits
pad_start-one size value h =
    let n : suc size - 1 ≡ size = omega arith in
    let q : value / 8 ≡ 0 = omega arith in
    let r : value % 8 ≡ value = omega arith in
    ap (λ k. filled 48 k ++ (48 + value) ∷ []) n
    ∙ ap (λ t. t ++ (48 + value) ∷ []) (sym (last_digits_zero size))
    ∙ ap (λ k. last_digits size k ++ (48 + value) ∷ []) (sym q)
    ∙ ap (λ k. last_digits size (value / 8) ++ (48 + k) ∷ []) (sym r)

-- Padded, a number that fits is its last digits.
pad_start-octal_digits :
    (fuel size value : ℕ)
    → value ≤ fuel
    → value < 8 ^ size
    → 0 < size
    → pad_start size (octal_digits fuel value) ≡ last_digits size value
unfolding octal_digits
pad_start-octal_digits fuel zero value f h k = absurd (omega arith)
pad_start-octal_digits zero (suc size) value f h k =
    let z : value % 8 ≡ value = omega arith in
    ap (λ n. pad_start (suc size) ((48 + n) ∷ [])) z ∙ pad_start-one size value (omega arith)
pad_start-octal_digits (suc fuel) (suc size) value f h k = elim (Bool-cases (ltb value 8)) [
  | inl e ↦ rw e (pad_start-one size value (ground (arith, e)))
  | inr e ↦
      let front = octal_digits fuel (value / 8) in
      let d : ℕ = 48 + value % 8 in
      let n : suc size - length (front ++ d ∷ []) ≡ size - length front =
        omega (arith, length-append front (d ∷ [])) in
      let ih =
        pad_start-octal_digits fuel size (value / 8) (ground (arith, e)) (smaller size value h)
          (long size (ground (arith, e)) h) in
      rw e (
        ap (λ m. filled 48 m ++ (front ++ d ∷ [])) n
        ∙ sym (append_assoc (filled 48 (size - length front)) front (d ∷ []))
        ∙ ap (λ t. t ++ d ∷ []) ih
        ∙ last_step size value)
]
  where
    long : (s : ℕ) → 8 ≤ value → value < 8 ^ suc s → 0 < s
    long zero a b = absurd (omega arith)
    long (suc s) a b = omega arith

-- A number that fits is read back from its field.
pub read_octal-octal :
    (value size : ℕ) → 0 < size → value < 8 ^ size → read_octal (octal value (suc size)) ≡ value
read_octal-octal value size k h =
    let n : suc size - 1 ≡ size = omega arith in
    let e = pad_start-octal_digits value size value (omega arith) h k in
    ap (λ m. read_octal (take m (pad_start m (octal_digits value value)))) n
    ∙ ap (λ t. read_octal (take size t)) e
    ∙ ap read_octal (whole (last_digits size value) size (length-last_digits size value))
    ∙ read_octal-last_digits size value h
  where
    whole : (xs : Bytes) (m : ℕ) → length xs ≡ m → take m xs ≡ xs
    whole [] zero e = refl
    whole [] (suc m) e = refl
    whole (x ∷ xs) zero e = absurd (omega arith)
    whole (x ∷ xs) (suc m) e = ap (λ t. x ∷ t) (whole xs m (omega arith))

-- A field is as long as it says, whatever number it is given.
pub length-octal : (value size : ℕ) → length (octal value (suc size)) ≡ size
length-octal value size =
    long (filled 48 (suc size - 1 - length (octal_digits value value)) ++ octal_digits value value)
      (suc size - 1)
      (omega (
        arith,
        length-append (filled 48 (suc size - 1 - length (octal_digits value value)))
            (octal_digits value value),
        length-filled 48 (suc size - 1 - length (octal_digits value value)),
      ))
    ∙ omega arith
  where
    long : (xs : Bytes) (m : ℕ) → m ≤ length xs → length (take m xs) ≡ m
    long xs zero h = refl
    long [] (suc m) h = absurd (omega arith)
    long (x ∷ xs) (suc m) h = ap suc (long xs m (omega arith))

-- Every digit is a byte.
All-octal_digits : (fuel value : ℕ) → All (λ b. b < 256) (octal_digits fuel value)
unfolding octal_digits
All-octal_digits zero value = (omega arith, tt)
All-octal_digits (suc fuel) value = elim (Bool-cases (ltb value 8)) [
  | inl e ↦ rw e (ground (arith, e), tt)
  | inr e ↦ rw e (
      All-append (λ b. b < 256) (octal_digits fuel (value / 8)) ((48 + value % 8) ∷ [])
        (All-octal_digits fuel (value / 8)) (omega arith, tt))
]

pub All-octal : (value size : ℕ) → All (λ b. b < 256) (octal value size)
All-octal value size =
    All-take (λ b. b < 256) (size - 1) (pad_start (size - 1) (octal_digits value value))
      (All-append (λ b. b < 256) (filled 48 (size - 1 - length (octal_digits value value)))
        (octal_digits value value)
        (All-filled (λ b. b < 256) 48 (size - 1 - length (octal_digits value value)) (omega arith))
        (All-octal_digits value value))
