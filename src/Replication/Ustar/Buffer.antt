-- ===== src/Replication/Ustar/Buffer.antt =====
-- Reading a buffer at an offset after bytes were written at another.
use nexuspuppet.Base.{
  ◌⊎◌, inl, inr, ◌*◌, ℕ, zero, suc, ◌+◌, ◌-◌, ◌≤◌, ◌<◌, List, [], ◌∷◌, ◌++◌, ◌≡◌, refl, ap, ◌∙◌,
  arith, length, take, All,
}
use nexuspuppet.Replication.Ustar.{Bytes, filled, splice, sum, write_all}

unfoldable pub drop : ℕ → Bytes → Bytes
drop zero bytes = bytes
drop (suc n) [] = []
drop (suc n) (b ∷ bytes) = drop n bytes

-- `size` bytes from an offset on.
abbrev pub slice : ℕ → ℕ → Bytes → Bytes
slice offset size bytes = take size (drop offset bytes)

pub length-splice :
    (buffer : Bytes) (o : ℕ) (xs : Bytes) → length (splice buffer o xs) ≡ length buffer
unfolding splice
length-splice [] o xs = refl
length-splice (b ∷ buffer) (suc o) xs = ap suc (length-splice buffer o xs)
length-splice (b ∷ buffer) zero [] = refl
length-splice (b ∷ buffer) zero (x ∷ xs) = ap suc (length-splice buffer zero xs)

pub length-filled : (byte n : ℕ) → length (filled byte n) ≡ n
unfolding filled
length-filled byte zero = refl
length-filled byte (suc n) = ap suc (length-filled byte n)

take_before :
    (buffer : Bytes) (size o : ℕ) (xs : Bytes)
    → size ≤ o
    → take size (splice buffer o xs) ≡ take size buffer
unfolding splice
take_before buffer zero o xs h = refl
take_before [] (suc size) o xs h = refl
take_before (b ∷ buffer) (suc size) zero xs h = absurd (omega arith)
take_before (b ∷ buffer) (suc size) (suc o) xs h =
    ap (λ t. b ∷ t) (take_before buffer size o xs (omega arith))

-- What stands before the bytes written, or after them, is as it was.
pub slice_before :
    (buffer : Bytes) (offset size o : ℕ) (xs : Bytes)
    → offset + size ≤ o
    → slice offset size (splice buffer o xs) ≡ slice offset size buffer
unfolding drop splice
slice_before buffer zero size o xs h = take_before buffer size o xs (omega arith)
slice_before [] (suc offset) size o xs h = refl
slice_before (b ∷ buffer) (suc offset) size zero xs h = absurd (omega arith)
slice_before (b ∷ buffer) (suc offset) size (suc o) xs h =
    slice_before buffer offset size o xs (omega arith)

pub drop_after :
    (buffer : Bytes) (offset o : ℕ) (xs : Bytes)
    → o + length xs ≤ offset
    → drop offset (splice buffer o xs) ≡ drop offset buffer
unfolding drop splice
drop_after [] offset o xs h = refl
drop_after (b ∷ buffer) zero zero [] h = refl
drop_after (b ∷ buffer) zero zero (x ∷ xs) h = absurd (omega arith)
drop_after (b ∷ buffer) zero (suc o) xs h = absurd (omega arith)
drop_after (b ∷ buffer) (suc offset) zero [] h = refl
drop_after (b ∷ buffer) (suc offset) zero (x ∷ xs) h =
    drop_after buffer offset zero xs (omega arith)
drop_after (b ∷ buffer) (suc offset) (suc o) xs h = drop_after buffer offset o xs (omega arith)

pub slice_after :
    (buffer : Bytes) (offset size o : ℕ) (xs : Bytes)
    → o + length xs ≤ offset
    → slice offset size (splice buffer o xs) ≡ slice offset size buffer
slice_after buffer offset size o xs h = ap (take size) (drop_after buffer offset o xs h)

take_at :
    (buffer : Bytes) (size : ℕ) (xs : Bytes)
    → length xs ≡ size
    → size ≤ length buffer
    → take size (splice buffer 0 xs) ≡ xs
unfolding splice
take_at buffer zero [] e h = refl
take_at buffer zero (x ∷ xs) e h = absurd (omega arith)
take_at buffer (suc size) [] e h = absurd (omega arith)
take_at [] (suc size) (x ∷ xs) e h = absurd (omega arith)
take_at (b ∷ buffer) (suc size) (x ∷ xs) e h =
    ap (λ t. x ∷ t) (take_at buffer size xs (omega arith) (omega arith))

-- What was written is read back.
pub slice_at :
    (buffer : Bytes) (o size : ℕ) (xs : Bytes)
    → length xs ≡ size
    → o + size ≤ length buffer
    → slice o size (splice buffer o xs) ≡ xs
unfolding drop splice
slice_at buffer zero size xs e h = take_at buffer size xs e (omega arith)
slice_at [] (suc o) size xs e h = absurd (omega arith)
slice_at (b ∷ buffer) (suc o) size xs e h = slice_at buffer o size xs e (omega arith)

-- Bytes at the start of an empty buffer, and what is left of it.
pub splice-filled :
    (byte n : ℕ) (xs : Bytes)
    → length xs ≤ n
    → splice (filled byte n) 0 xs ≡ xs ++ filled byte (n - length xs)
unfolding splice filled
splice-filled byte zero [] h = refl
splice-filled byte zero (x ∷ xs) h = absurd (omega arith)
splice-filled byte (suc n) [] h = let e : suc n ≡ suc n - 0 = omega arith in ap (filled byte) e
splice-filled byte (suc n) (x ∷ xs) h =
    ap (λ t. x ∷ t) (splice-filled byte n xs (omega arith))
    ∙ ap (λ k. x ∷ xs ++ filled byte k) (omega arith)

module _ {κ} (P : ℕ → Type κ) where
  pub All-splice :
      (buffer : Bytes) (o : ℕ) (xs : Bytes) → All P buffer → All P xs → All P (splice buffer o xs)
  unfolding splice
  All-splice [] o xs h k = tt
  All-splice (b ∷ buffer) (suc o) xs (p, h) k = (p, All-splice buffer o xs h k)
  All-splice (b ∷ buffer) zero [] h k = h
  All-splice (b ∷ buffer) zero (x ∷ xs) (p, h) (q, k) = (q, All-splice buffer zero xs h k)

  pub All-filled : (byte n : ℕ) → P byte → All P (filled byte n)
  unfolding filled
  All-filled byte zero h = tt
  All-filled byte (suc n) h = (h, All-filled byte n h)

  pub All-take : (n : ℕ) (xs : Bytes) → All P xs → All P (take n xs)
  All-take zero xs h = tt
  All-take (suc n) [] h = tt
  All-take (suc n) (x ∷ xs) (p, h) = (p, All-take n xs h)

  pub All-append : (xs ys : Bytes) → All P xs → All P ys → All P (xs ++ ys)
  All-append [] ys h k = k
  All-append (x ∷ xs) ys (p, h) k = (p, All-append xs ys h k)

pub take-append : (xs ys : Bytes) → take (length xs) (xs ++ ys) ≡ xs
take-append [] ys = refl
take-append (x ∷ xs) ys = ap (λ t. x ∷ t) (take-append xs ys)

pub drop-append : (xs ys : Bytes) → drop (length xs) (xs ++ ys) ≡ ys
unfolding drop
drop-append [] ys = refl
drop-append (x ∷ xs) ys = drop-append xs ys

pub drop-drop : (n m : ℕ) (xs : Bytes) → drop m (drop n xs) ≡ drop (n + m) xs
unfolding drop
drop-drop zero m xs = let e : m ≡ 0 + m = omega arith in ap (λ k. drop k xs) e
drop-drop (suc n) m [] =
    let e : suc (n + m) ≡ suc n + m = omega arith in empty m ∙ ap (λ k. drop k []) e
  where
    empty : (m : ℕ) → drop m [] ≡ []
    empty zero = refl
    empty (suc m) = refl
drop-drop (suc n) m (x ∷ xs) =
    let e : suc (n + m) ≡ suc n + m = omega arith in drop-drop n m xs ∙ ap (λ k. drop k (x ∷ xs)) e

pub sum_split : (n : ℕ) (xs : Bytes) → sum xs ≡ sum (take n xs) + sum (drop n xs)
unfolding drop
sum_split zero xs = omega arith
sum_split (suc n) [] = refl
sum_split (suc n) (x ∷ xs) = omega (arith, sum_split n xs)

pub sum_bound : (xs : Bytes) → All (λ b. b < 256) xs → sum xs ≤ 255 * length xs
sum_bound [] h = omega arith
sum_bound (x ∷ xs) (p, h) = omega (arith, sum_bound xs h)

-- A field that none of the writes touches is as it was.
pub slice_kept :
    (offset size : ℕ) (header : Bytes) (fields : List (ℕ × Bytes))
    → All (λ f. (f.0 + length f.1 ≤ offset) ⊎ (offset + size ≤ f.0)) fields
    → slice offset size (write_all header fields) ≡ slice offset size header
slice_kept offset size header [] h = refl
slice_kept offset size header ((o, xs) ∷ fields) (inl e, h) =
    slice_kept offset size (splice header o xs) fields h ∙ slice_after header offset size o xs e
slice_kept offset size header ((o, xs) ∷ fields) (inr e, h) =
    slice_kept offset size (splice header o xs) fields h ∙ slice_before header offset size o xs e

pub length-write_all :
    (header : Bytes) (fields : List (ℕ × Bytes)) → length (write_all header fields) ≡ length header
length-write_all header [] = refl
length-write_all header ((o, xs) ∷ fields) =
    length-write_all (splice header o xs) fields ∙ length-splice header o xs
