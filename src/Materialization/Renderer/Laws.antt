-- ===== src/Materialization/Renderer/Laws.antt =====
-- What enc-yaml-renderer.ts promises of a document that it renders.
use nexuspuppet.Base.{
  String, Bool, true, ◌&&◌, Option, none, some, ◌≡◌, arith, refl, sym, ◌∙◌, ap, if◌then◌else◌,
}
use mathlib.Core.Path.{subst}
use nexuspuppet.Value.{Engine, Value, obj, Fields}
use nexuspuppet.Materialization.Merge.{EncDocument}
use nexuspuppet.Materialization.Merge.Values.{values_equal}
use nexuspuppet.Materialization.Drain.{RenderedEnc}
use nexuspuppet.Materialization.Renderer.{
  valid_class_names, payload, rendered, render_enc_document, round_trips,
}

guarded :
    {A : Type 0} (a b : Bool) (x y : A)
    → (if a && b then some x else none) ≡ some y
    → (a ≡ true) × (b ≡ true) × (x ≡ y)
guarded a b x y h = ground (arith, h)

module _ (js : Engine) (stringify : Fields js.Num → String) (parse : String → Option (Value js.Num))
    (sha256 : String → String) where
  open js use {Num}

  round_trips-parses :
      (expected : Value Num) (o : Option (Value Num))
      → round_trips js stringify parse sha256 expected o ≡ true
      → (v : Value Num) × (o ≡ some v) × (values_equal js v expected ≡ true)
  round_trips-parses expected none h = cc
  round_trips-parses expected (some v) h = (v, refl, h)

  -- A document that is rendered has valid class names, parses back to what was rendered, and bears
  -- the hash of its own text.
  pub render_enc_document-parses :
      (d : EncDocument Num) (r : RenderedEnc)
      → render_enc_document js stringify parse sha256 d ≡ some r
      → (valid_class_names d.classes ≡ true)
        × (r.content_hash ≡ sha256 r.yaml)
        × ((v : Value Num) × (parse r.yaml ≡ some v) × (values_equal js v (obj (payload d)) ≡ true))
  unfolding render_enc_document
  render_enc_document-parses d r h =
      let (a, b, e) = guarded _ _ (rendered js stringify parse sha256 d) r h in
      (
        a,
        sym (ap (λ (x : RenderedEnc). x.content_hash) e)
            ∙ ap (λ (x : RenderedEnc). sha256 x.yaml) e,
        subst
            (λ (x : RenderedEnc).
              (v : Value Num) × (parse x.yaml ≡ some v)
              × (values_equal js v (obj (payload d)) ≡ true))
            e (round_trips-parses (obj (payload d)) _ b),
      )
