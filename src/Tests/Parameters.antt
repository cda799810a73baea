-- ===== src/Tests/Parameters.antt =====
-- diff-parameters.ts and group-resources.ts on two resources.
use Prim.Native.String.{◌++◌}
use nexuspuppet.Base.{none}
use nexuspuppet.Inventory.Grouping.{ResourceSummary}
use nexuspuppet.Base.{
  ℕ, String, false, List, [], ◌∷◌, ◌≡◌, ◌↔◌, includes, str_eq, eq_iff, refl, sym, ◌∙◌, ap, arith,
}
use nexuspuppet.Value.Text.{codes}
use nexuspuppet.Materialization.Storage.Certnames.{codes-append}
use nexuspuppet.Base.Sort.{Pairs}
use nexuspuppet.Value.{Value, null, bool, num, str, arr, obj, end, field}
use nexuspuppet.Inventory.Differing.{ResourceParameters, differing_keys}
use nexuspuppet.Inventory.Differing.Laws.{Agree, differing_keys_iff}

abbrev text_only : Value ℕ → String
text_only (str s) = "\"" ++ s
text_only _ = "?"

quoted : (s : String) → "\"" ++ s ≡ "\0absent" → ⊥
quoted s h = ground (arith, sym (codes-append "\"" s) ∙ ap codes h)

text_only-absent : (v : Value ℕ) → str_eq (text_only v) "\0absent" ≡ false
text_only-absent null = refl
text_only-absent (bool b) = refl
text_only-absent (num n) = refl
text_only-absent (str s) =
    ground (arith, eq_iff ("\"" ++ s) "\0absent", λ (h : "\"" ++ s ≡ "\0absent"). quoted s h)
text_only-absent (arr vs) = refl
text_only-absent (obj fs) = refl

abbrev variants : List (ResourceParameters ℕ)
variants =
    record { parameters = field "mode" (str "0644") (field "owner" (str "root") end) }
    ∷ record { parameters = field "owner" (str "root") end }
    ∷ []

differing_keys_iff_example :
    (includes (differing_keys text_only variants) "mode" ≡ false)
    ↔ Pairs (Agree text_only "mode") variants
differing_keys_iff_example = differing_keys_iff text_only "mode" text_only-absent variants

abbrev motd : ResourceSummary
motd = record {
  kind = "File";
  title = "/etc/motd";
  environment = "production";
  certname = "web01";
  resource_hash = "h1";
  file = none;
  line = none;
}

abbrev resources : List ResourceSummary
resources = motd ∷ record motd { certname = "db01" } ∷ record motd { title = "/etc/issue" } ∷ []
