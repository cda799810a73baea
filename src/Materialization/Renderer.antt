-- ===== src/Materialization/Renderer.antt =====
-- apps/api/src/materialization/pure/enc-yaml-renderer.ts: the YAML document of a node.
pub mod Names
pub mod Order
pub mod Laws
use Prim.Native.String
use nexuspuppet.Base.{
  ℕ, String, Bool, true, false, ◌&&◌, ◌||◌, Option, none, some, List, [], ◌∷◌, ltb, leb, ◌==◌,
  if◌then◌else◌,
}
use nexuspuppet.Base.Dict.{Dict}
use nexuspuppet.Value.{Engine, Value, null, bool, num, str, arr, obj, Fields, end, field}
use nexuspuppet.Value.Text.{codes, text_before}
use nexuspuppet.Materialization.Merge.{EncDocument}
use nexuspuppet.Materialization.Merge.Values.{values_equal}
use nexuspuppet.Materialization.Drain.{RenderedEnc}

abbrev pub is_lower : ℕ → Bool
is_lower c = leb b'a' c && leb c b'z'

-- `[a-z0-9_]`
abbrev pub is_name_char : ℕ → Bool
is_name_char c = is_lower c || leb b'0' c && leb c b'9' || c == b'_'

-- Where the match of `PUPPET_CLASS_NAME` stands: before a segment, within one, after one colon.
pub data Reading : Type 0 where
  at_segment in_segment at_colon : Reading

unfoldable pub reads_name : Reading → List ℕ → Bool
reads_name at_segment [] = false
reads_name at_segment (c ∷ cs) = is_lower c && reads_name in_segment cs
reads_name in_segment [] = true
reads_name in_segment (c ∷ cs) =
    if is_name_char c then reads_name in_segment cs else c == b':' && reads_name at_colon cs
reads_name at_colon [] = false
reads_name at_colon (c ∷ cs) = c == b':' && reads_name at_segment cs

-- `PUPPET_CLASS_NAME.test(name)`, `/^[a-z][a-z0-9_]*(::[a-z][a-z0-9_]*)*$/`
unfoldable pub is_class_name : String → Bool
unfolding reads_name
is_class_name name = reads_name at_segment (codes name)

-- The check of `assertValidClassNames`, which throws where it is false.
unfoldable pub valid_class_names : {V : Type 0} → Dict V → Bool
unfolding is_class_name
valid_class_names [] = true
valid_class_names ((name, v) ∷ m) = is_class_name name && valid_class_names m

module _ {N : Type 0} where
  -- Puts an entry where the order of the keys wants it.
  unfoldable pub place_field : String → Value N → Fields N → Fields N
  place_field k v end = field k v end
  place_field k v (field l w fs) =
      if text_before l k then field l w (place_field k v fs) else field k v (field l w fs)

  unfoldable mutual
    pub sort_value : Value N → Value N
    sort_value (obj fs) = obj (sort_record fs)
    sort_value null = null
    sort_value (bool b) = bool b
    sort_value (num n) = num n
    sort_value (str s) = str s
    sort_value (arr as') = arr as'

    -- `sortRecord`
    pub sort_record : Fields N → Fields N
    sort_record end = end
    sort_record (field k v fs) = place_field k (sort_value v) (sort_record fs)

  abbrev pub fields_of : Dict (Value N) → Fields N
  fields_of [] = end
  fields_of ((k, v) ∷ m) = field k v (fields_of m)

  -- The object of the classes, each with the object of its parameters.
  abbrev pub class_fields : Dict (Dict (Value N)) → Fields N
  class_fields [] = end
  class_fields ((name, parameters) ∷ m) = field name (obj (fields_of parameters)) (class_fields m)

  abbrev pub environment_entry : Option String → Fields N
  environment_entry none = end
  environment_entry (some e) = field "environment" (str e) end

  -- What is rendered.
  abbrev pub payload : EncDocument N → Fields N
  payload d = field "classes" (obj (sort_record (class_fields d.classes))) (
      field "parameters" (obj (sort_record (fields_of d.parameters)))
        (environment_entry d.environment))

-- The lines that say what wrote the file.
abbrev pub banner : String
banner = "---\n# Managed by NexusPuppet. Do not edit by hand; changes are overwritten.\n"

-- The YAML library and the hash are not in the repository: `stringify` with the options of the
-- file, `parse`, which is `none` where it throws, and the hexadecimal SHA-256 of a text.
module _ (js : Engine) (stringify : Fields js.Num → String) (parse : String → Option (Value js.Num))
    (sha256 : String → String) where
  open js use {Num}

  -- `assertRoundTrips`; its `deepEquals` is `valuesEqual` of class-merger.ts over again.
  abbrev pub round_trips : Value Num → Option (Value Num) → Bool
  round_trips expected none = false
  round_trips expected (some reparsed) = values_equal js reparsed expected

  abbrev pub rendered : EncDocument Num → RenderedEnc
  rendered d =
      let yaml = String.◌++◌ banner (stringify (payload d)) in
      record { yaml = yaml; content_hash = sha256 yaml }

  -- `none` where a class name is refused or the text does not parse back.
  unfoldable pub render_enc_document : EncDocument Num → Option RenderedEnc
  unfolding valid_class_names sort_record values_equal
  render_enc_document d =
      let r = rendered d in
      if valid_class_names d.classes && round_trips (obj (payload d)) (parse r.yaml)
      then some r
      else none

  unfoldable pub render_default_document : Option String → Option RenderedEnc
  unfolding render_enc_document
  render_default_document environment =
      render_enc_document (record { classes = []; parameters = []; environment = environment })
