-- ===== src/Base/Dict.antt =====
-- A JavaScript object or Map with text keys, as the list of its entries in insertion order.
use Prim.Native.String.{String}
use mathlib.Core.Path.{◌≡◌, refl}
use mathlib.Core.Option.{Option, none, some}
use mathlib.Core.List.{List, [], ◌∷◌}
use native.Mathlib.Omega.{arith}
use text.Mathlib.Text.{◌==◌ as str_eq}
use text.Mathlib.TextEquality.{eq_iff}
use nexuspuppet.Base.Tests.{if◌then◌else◌}

abbrev pub Dict {ℓ} : Type ℓ → Type ℓ
Dict V = List (String × V)

module _ {ℓ} {V : Type ℓ} where
  -- `m.get(k)`
  unfoldable pub get : Dict V → String → Option V
  get [] k = none
  get ((j, v) ∷ m) k = if str_eq j k then some v else get m k

  -- `m.set(k, v)`: a known key keeps its place.
  unfoldable pub put : Dict V → String → V → Dict V
  put [] k v = (k, v) ∷ []
  put ((j, w) ∷ m) k v = if str_eq j k then (j, v) ∷ m else (j, w) ∷ put m k v

  -- `m.delete(k)`
  unfoldable pub remove : Dict V → String → Dict V
  remove [] k = []
  remove ((j, w) ∷ m) k = let rest = remove m k in if str_eq j k then rest else (j, w) ∷ rest

  abbrev pub keys : Dict V → List String
  keys [] = []
  keys ((k, v) ∷ m) = k ∷ keys m

  pub get-put :
      (m : Dict V) (k : String) (v : V) (j : String)
      → get (put m k v) j ≡ (if str_eq k j then some v else get m j)
  unfolding get put
  get-put [] k v j = refl
  get-put ((i, w) ∷ m) k v j = ground (arith, eq_iff k j, eq_iff i k, eq_iff i j, get-put m k v j)

  pub get-remove :
      (m : Dict V) (k j : String) → get (remove m k) j ≡ (if str_eq k j then none else get m j)
  unfolding get remove
  get-remove [] k j = ground arith
  get-remove ((i, w) ∷ m) k j = ground (arith, eq_iff k j, eq_iff i k, eq_iff i j, get-remove m k j)

  -- Setting a key to the value that it has changes nothing.
  pub put-same : (m : Dict V) (k : String) (v : V) → get m k ≡ some v → put m k v ≡ m
  unfolding get put
  put-same [] k v h = cc
  put-same ((j, w) ∷ m) k v h = ground (arith, put-same m k v)
