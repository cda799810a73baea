-- ===== src/Inventory/Differing/Laws.antt =====
-- What diff-parameters.ts calls a difference.
use Prim.Native.String
use nexuspuppet.Materialization.Storage.Certnames.{codes-append}
use nexuspuppet.Base.Membership.{includes-append, includes-perm, includes-keep}
use nexuspuppet.Base.{
  String, Bool, true, false, not, ◌&&◌, ◌||◌, Option, none, some, List, [], ◌∷◌, ◌++◌, ◌≡◌, ◌↔◌,
  refl, sym, ap, ◌∙◌, arith, eq_iff, str_eq, any, includes, keep, All,
}
use nexuspuppet.Base.Sort.{Pairs, All-map_of, sort, sort-perm}
use nexuspuppet.Value.{Value, Fields, end, field, null, bool, num, str, arr, obj}
use nexuspuppet.Value.Text.{text_before, codes, join}
use nexuspuppet.Materialization.Rules.{field_of}
use nexuspuppet.Inventory.Differing.{
  ResourceParameters, absent, add_names, all_keys, canonical, canonical_at, text_of, differs,
  differing_keys,
}

module _ {N : Type 0} where
  abbrev is_there : Option (Value N) → Bool
  is_there none = false
  is_there (some v) = true

  abbrev has : String → ResourceParameters N → Bool
  has k variant = is_there (field_of variant.parameters k)

  includes-add_names :
      (keys : List String) (fs : Fields N) (k : String)
      → includes (add_names keys fs) k ≡ (includes keys k || is_there (field_of fs k))
  unfolding field_of
  includes-add_names keys end k = ground arith
  includes-add_names keys (field j v fs) k = ground (
    arith,
    eq_iff j k,
    includes-append keys j k,
    includes-add_names keys fs k,
    includes-add_names (keys ++ j ∷ []) fs k,
  )

  includes-all_keys :
      (keys : List String) (variants : List (ResourceParameters N)) (k : String)
      → includes (all_keys keys variants) k ≡ (includes keys k || any (has k) variants)
  unfolding all_keys
  includes-all_keys keys [] k = ground arith
  includes-all_keys keys (v ∷ vs) k = ground (
    arith,
    includes-all_keys (add_names keys v.parameters) vs k,
    includes-add_names keys v.parameters k,
  )

bracket-absent : (s : String) → String.◌++◌ "[" s ≡ absent → ⊥
bracket-absent s h = ground (arith, sym (codes-append "[" s) ∙ ap codes h)

brace-absent : (s : String) → String.◌++◌ "{" s ≡ absent → ⊥
brace-absent s h = ground (arith, sym (codes-append "{" s) ∙ ap codes h)

not_absent : (s : String) → str_eq s "\0absent" ≡ false → s ≡ absent → ⊥
not_absent s n h = ground (arith, n, eq_iff s absent, h)

module _ {N : Type 0} (stringify : Value N → String) (k : String) where
  -- The two variants have one canonical text of the parameter, or both lack it.
  abbrev pub SameText : Option (Value N) → Option (Value N) → Type 0
  SameText none none = Unit
  SameText (some x) (some y) = canonical stringify x ≡ canonical stringify y
  SameText none (some y) = ⊥
  SameText (some x) none = ⊥

  abbrev pub Agree : ResourceParameters N → ResourceParameters N → Type 0
  Agree v w = SameText (field_of v.parameters k) (field_of w.parameters k)

  -- What the code compares, with its mark of what is absent.
  abbrev Equal : ResourceParameters N → ResourceParameters N → Type 0
  Equal v w = canonical_at stringify v k ≡ canonical_at stringify w k

  any-other :
      (first : String) (vs : List (ResourceParameters N))
      → (any (λ v. not (str_eq (canonical_at stringify v k) first)) vs ≡ false)
        ↔ All (λ v. first ≡ canonical_at stringify v k) vs
  any-other first [] = ground arith
  any-other first (v ∷ vs) =
      ground (arith, eq_iff (canonical_at stringify v k) first, any-other first vs)

  Pairs-All :
      (t : String) (vs : List (ResourceParameters N))
      → All (λ v. t ≡ canonical_at stringify v k) vs
      → Pairs Equal vs
  Pairs-All t [] h = tt
  Pairs-All t (v ∷ vs) (e, h) = (onward vs h, Pairs-All t vs h)
    where
      onward :
          (ws : List (ResourceParameters N))
          → All (λ w. t ≡ canonical_at stringify w k) ws
          → All (Equal v) ws
      onward [] h = tt
      onward (w ∷ ws) (f, h) = (sym e ∙ f, onward ws h)

  differs_iff :
      (vs : List (ResourceParameters N)) → (differs stringify vs k ≡ false) ↔ Pairs Equal vs
  differs_iff [] = (λ h. tt, λ h. refl)
  differs_iff (first ∷ rest) = (
    λ h.
        Pairs-All (canonical_at stringify first k) (first ∷ rest)
          ((any-other (canonical_at stringify first k) (first ∷ rest)).0 h),
    λ h. (any-other (canonical_at stringify first k) (first ∷ rest)).1 (refl, h.0),
  )

  All-absent :
      (vs : List (ResourceParameters N))
      → any (has k) vs ≡ false
      → All (λ v. absent ≡ canonical_at stringify v k) vs
  unfolding canonical_at
  All-absent [] h = tt
  All-absent (v ∷ vs) h = (ground arith, All-absent vs (ground arith))

  absent-differs :
      (vs : List (ResourceParameters N)) → any (has k) vs ≡ false → differs stringify vs k ≡ false
  absent-differs vs h = (differs_iff vs).1 (Pairs-All absent vs (All-absent vs h))

  listed_iff :
      (variants : List (ResourceParameters N))
      → (includes (differing_keys stringify variants) k ≡ false) ↔ Pairs Equal variants
  unfolding differing_keys
  listed_iff [] = (λ h. tt, λ h. refl)
  listed_iff (v ∷ []) = (λ h. (tt, tt), λ h. refl)
  listed_iff (v ∷ w ∷ vs) =
      ground (arith, differs_iff (v ∷ w ∷ vs), listed, absent-differs (v ∷ w ∷ vs))
    where
      listed :
          includes
            (sort text_before (keep (differs stringify (v ∷ w ∷ vs)) (all_keys [] (v ∷ w ∷ vs))))
            k
          ≡ (any (has k) (v ∷ w ∷ vs) && differs stringify (v ∷ w ∷ vs) k)
      listed =
          includes-perm k (sort-perm text_before _)
          ∙ includes-keep (differs stringify (v ∷ w ∷ vs)) (all_keys [] (v ∷ w ∷ vs)) k
          ∙ ap (λ b. b && differs stringify (v ∷ w ∷ vs) k) (includes-all_keys [] (v ∷ w ∷ vs) k)

  module _ (no_mark : (v : Value N) → str_eq (stringify v) "\0absent" ≡ false) where
    -- No value's text is the mark, as arrays and objects begin with a bracket.
    canonical-absent : (v : Value N) → canonical stringify v ≡ absent → ⊥
    unfolding canonical join
    canonical-absent (arr vs) h = bracket-absent _ h
    canonical-absent (obj fs) h = brace-absent _ h
    canonical-absent null h = not_absent (stringify null) (no_mark null) h
    canonical-absent (bool b) h = not_absent (stringify (bool b)) (no_mark (bool b)) h
    canonical-absent (num n) h = not_absent (stringify (num n)) (no_mark (num n)) h
    canonical-absent (str s) h = not_absent (stringify (str s)) (no_mark (str s)) h

    text_iff : (x y : Option (Value N)) → (text_of stringify x ≡ text_of stringify y) ↔ SameText x y
    text_iff none none = (λ h. tt, λ h. refl)
    text_iff (some x) (some y) = (λ h. h, λ h. h)
    text_iff none (some y) = (λ h. canonical-absent y (sym h), λ h. absurd h)
    text_iff (some x) none = (λ h. canonical-absent x h, λ h. absurd h)

    Equal-Agree : (v w : ResourceParameters N) → Equal v w ↔ Agree v w
    unfolding canonical_at
    Equal-Agree v w = text_iff (field_of v.parameters k) (field_of w.parameters k)

    Pairs-Agree : (vs : List (ResourceParameters N)) → Pairs Equal vs ↔ Pairs Agree vs
    Pairs-Agree [] = (λ h. tt, λ h. tt)
    Pairs-Agree (v ∷ vs) = (
      λ (a, h). (All-map_of (Agree v) (λ w. (Equal-Agree v w).0) vs a, (Pairs-Agree vs).0 h),
      λ (a, h). (All-map_of (Equal v) (λ w. (Equal-Agree v w).1) vs a, (Pairs-Agree vs).1 h),
    )

    -- Where the engine writes no value as NUL and "absent", as JSON escapes control characters, a parameter is left out
    -- of the differing ones exactly where every two variants agree on it: both have it, with one
    -- canonical text, or neither has it.
    pub differing_keys_iff :
        (variants : List (ResourceParameters N))
        → (includes (differing_keys stringify variants) k ≡ false) ↔ Pairs Agree variants
    differing_keys_iff variants =
        let (l, m) = listed_iff variants in
        let (p, q) = Pairs-Agree variants in (λ h. p (l h), λ h. m (q h))
