-- ===== src/Value/Order.antt =====
-- `<` on texts is a total preorder.
use nexuspuppet.Base.{ℕ, String, true, false, List, [], ◌∷◌, ◌≡◌, arith, refl}
use nexuspuppet.Base.Sort.{IsWeakOrder}
use nexuspuppet.Value.Text.{codes, code_units, lists_before, text_before}

lists_before-asym : (a b : List ℕ) → lists_before a b ≡ true → lists_before b a ≡ false
unfolding lists_before
lists_before-asym [] [] h = ground arith
lists_before-asym [] (y ∷ ys) h = refl
lists_before-asym (x ∷ xs) [] h = ground arith
lists_before-asym (x ∷ xs) (y ∷ ys) h = ground (arith, lists_before-asym xs ys)

lists_before-cotrans :
    (a b c : List ℕ) → lists_before a c ≡ true → lists_before a b ≡ false → lists_before b c ≡ true
unfolding lists_before
lists_before-cotrans [] b [] h k = ground arith
lists_before-cotrans (x ∷ xs) b [] h k = ground arith
lists_before-cotrans [] [] (z ∷ zs) h k = refl
lists_before-cotrans [] (y ∷ ys) (z ∷ zs) h k = ground arith
lists_before-cotrans (x ∷ xs) [] (z ∷ zs) h k = refl
lists_before-cotrans (x ∷ xs) (y ∷ ys) (z ∷ zs) h k = ground (arith, lists_before-cotrans xs ys zs)

pub text_before-IsWeakOrder : IsWeakOrder text_before
text_before-IsWeakOrder = record { asym = asym; cotrans = cotrans }
  where
    asym : (a b : String) → text_before a b ≡ true → text_before b a ≡ false
    asym a b = unfold text_before in lists_before-asym (code_units (codes a)) (code_units (codes b))

    cotrans :
        (a b c : String) → text_before a c ≡ true → text_before a b ≡ false → text_before b c ≡ true
    cotrans a b c =
        unfold text_before in
        lists_before-cotrans (code_units (codes a)) (code_units (codes b)) (code_units (codes c))
