-- ===== src/Base/Membership.antt =====
-- Membership of texts in lists that are joined, sorted or filtered.
use Prim.Native.String.{String}
use mathlib.Core.Path.{◌≡◌, refl, ap, ◌∙◌}
use mathlib.Core.Bool.{Bool, ◌&&◌, ◌||◌}
use mathlib.Core.List.{List, [], ◌∷◌, ◌++◌, Permᴰ}
use native.Mathlib.Omega.{arith}
use text.Mathlib.Text.{◌==◌ as str_eq}
use text.Mathlib.TextEquality.{eq_iff}
use nexuspuppet.Base.Lists.{includes, keep}

pub includes-append :
    (xs : List String) (x s : String) → includes (xs ++ x ∷ []) s ≡ (includes xs s || str_eq x s)
includes-append [] x s = ground arith
includes-append (y ∷ ys) x s = ground (arith, includes-append ys x s)

pub includes-perm : {xs ys : List String} (s : String) → Permᴰ xs ys → includes xs s ≡ includes ys s
includes-perm s Permᴰ.nil = refl
includes-perm s (Permᴰ.cons e d) = cc (e, includes-perm s d)
includes-perm s (Permᴰ.swap {a = a} {b = b} {a' = c} {b' = d} e f) =
    ground (arith, ap (λ x. str_eq x s) e, ap (λ x. str_eq x s) f)
includes-perm s (Permᴰ.trans d d') = includes-perm s d ∙ includes-perm s d'

pub includes-keep :
    (p : String → Bool) (xs : List String) (s : String)
    → includes (keep p xs) s ≡ (includes xs s && p s)
includes-keep p [] s = refl
includes-keep p (x ∷ xs) s = ground (arith, eq_iff x s, includes-keep p xs s)
