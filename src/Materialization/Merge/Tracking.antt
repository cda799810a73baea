-- ===== src/Materialization/Merge/Tracking.antt =====
-- The two provenance maps of class-merger.ts, with the attributions and conflicts kept beside
-- them: what they hold of one key, whatever map it is.
use nexuspuppet.Base.{
  String, true, false, Option, List, ◌∷◌, ◌++◌, ◌≡◌, sym, arith, eq_iff, eq_refl, str_eq,
  if◌then◌else◌, keep, keep-append, Bool-cases, inl, inr,
}
use mathlib.Core.Path.{subst}
use mathlib.Core.List.{append-nil}
use nexuspuppet.Base.Dict.{Dict, get, put, get-put}
use nexuspuppet.Value.{Engine, Value}
use nexuspuppet.Materialization.Merge.{
  ConflictKind, ClassificationConflict, KeyAttribution, MergeableGroup, Provenance, beat, clash,
  set_by,
}
use nexuspuppet.Materialization.Merge.History.{
  latest, attribution_of, clashes, same_kind, about, keep-clash, beat-attribution_of,
}

same_kind_refl : (kind : ConflictKind) → same_kind kind kind ≡ true
same_kind_refl kind = ground arith

module _ (js : Engine) (kind : ConflictKind) (k : String) where
  open js use {Num}

  -- The maps and the conflicts say of the key what its settings say.
  pub record Tracks (provenance : Dict (Provenance Num)) (attribution : Dict (KeyAttribution Num))
      (conflicts : List (ClassificationConflict Num)) (h : List (Provenance Num)) : Type 0 where
    pub setter : get provenance k ≡ latest h
    pub credit : get attribution k ≡ attribution_of h
    pub disputes : keep (about kind k) conflicts ≡ clashes js kind k h

  module _ {provenance : Dict (Provenance Num)} {attribution : Dict (KeyAttribution Num)}
      {conflicts : List (ClassificationConflict Num)} {h : List (Provenance Num)}
      (t : Tracks provenance attribution conflicts h) where
    Tracks-same :
        (g : MergeableGroup Num) (v : Value Num)
        → Tracks
            (put provenance k (set_by g v))
            (put attribution k (beat (get attribution k) g.id (get provenance k)))
            (conflicts ++ clash js kind k (get provenance k) (set_by g v))
            (set_by g v ∷ h)
    Tracks-same g v = record {
      setter = simp (get-put, eq_refl);
      credit = simp (get-put, eq_refl, t.setter, t.credit, beat-attribution_of);
      disputes = simp (keep-append, keep-clash, same_kind_refl, eq_refl, t.setter, t.disputes);
    }

    Tracks-other :
        (g : MergeableGroup Num) (j : String) (v : Value Num)
        → str_eq j k ≡ false
        → Tracks
            (put provenance j (set_by g v))
            (put attribution j (beat (get attribution j) g.id (get provenance j)))
            (conflicts ++ clash js kind j (get provenance j) (set_by g v))
            h
    Tracks-other g j v e = record {
      setter = simp (get-put, e, t.setter);
      credit = simp (get-put, e, t.credit);
      disputes = simp (keep-append, keep-clash, same_kind_refl, e, append-nil, t.disputes);
    }

    -- A conflict of another kind is not about the key.
    pub Tracks-foreign :
        (other : ConflictKind) (j : String) (previous : Option (Provenance Num))
        (p : Provenance Num)
        → same_kind other kind ≡ false
        → Tracks provenance attribution (conflicts ++ clash js other j previous p) h
    Tracks-foreign other j previous p e = record {
      setter = t.setter;
      credit = t.credit;
      disputes = simp (keep-append, keep-clash, e, append-nil, t.disputes);
    }

  -- One setting of any key.
  pub Tracks-set :
      {provenance : Dict (Provenance Num)} {attribution : Dict (KeyAttribution Num)}
      {conflicts : List (ClassificationConflict Num)} {h : List (Provenance Num)}
      → Tracks provenance attribution conflicts h
      → (g : MergeableGroup Num) (j : String) (v : Value Num)
      → Tracks
          (put provenance j (set_by g v))
          (put attribution j (beat (get attribution j) g.id (get provenance j)))
          (conflicts ++ clash js kind j (get provenance j) (set_by g v))
          (if str_eq j k then set_by g v ∷ h else h)
  Tracks-set {provenance} {attribution} {conflicts} {h} t g j v = elim (Bool-cases (str_eq j k)) [
    | inl e ↦ rw e (
        subst
          (λ (x : String).
            Tracks (put provenance x (set_by g v))
              (put attribution x (beat (get attribution x) g.id (get provenance x)))
              (conflicts ++ clash js kind x (get provenance x) (set_by g v)) (set_by g v ∷ h))
          (sym ((eq_iff j k).0 e)) (Tracks-same t g v))
    | inr e ↦ rw e (Tracks-other t g j v e)
  ]
