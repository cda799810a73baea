-- ===== src/Tests/Renderings.antt =====
-- enc-yaml-renderer.ts on small documents.
use nexuspuppet.Base.{ℕ, String, Option, some, [], ◌∷◌, ◌≡◌, refl, inl}
use nexuspuppet.Value.{Value, obj, Fields, str, num}
use nexuspuppet.Value.Text.{text_before}
use nexuspuppet.Materialization.Merge.{EncDocument}
use nexuspuppet.Materialization.Drain.{RenderedEnc}
use nexuspuppet.Materialization.Renderer.{payload, render_enc_document, rendered}
use nexuspuppet.Materialization.Renderer.Order.{
  render_enc_document-Reordered, swap, entry, at_end, same,
}
use nexuspuppet.Samples.{engine}

abbrev document : EncDocument ℕ
document = record {
  classes = ("profile::base", []) ∷ [];
  parameters = ("dc", str "east") ∷ ("tier", num 2) ∷ [];
  environment = some "production";
}

abbrev turned : EncDocument ℕ
turned = record document { parameters = ("tier", num 2) ∷ ("dc", str "east") ∷ [] }

abbrev stringify : Fields ℕ → String
stringify fs = "parameters"

abbrev parse : String → Option (Value ℕ)
parse text = some (obj (payload document))

abbrev result : RenderedEnc
result = rendered engine stringify parse (λ s. s) document

render_enc_document-Reordered_example :
    render_enc_document engine stringify parse (λ s. s) document
    ≡ render_enc_document engine stringify parse (λ s. s) turned
unfolding text_before
render_enc_document-Reordered_example =
    render_enc_document-Reordered engine stringify parse (λ s. s) document turned
      (entry same at_end) (swap (inl refl)) refl
