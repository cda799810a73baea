-- ===== src/Materialization/Renderer/Order.antt =====
-- That enc-yaml-renderer.ts renders a document one way, whatever the order of its keys.
use nexuspuppet.Base.{
  String, Bool, true, false, ◌&&◌, Option, [], ◌∷◌, ◌≡◌, refl, sym, ◌∙◌, ap, arith, inl, inr,
}
use nexuspuppet.Base.Dict.{Dict}
use nexuspuppet.Base.Sort.{Apart}
use nexuspuppet.Value.{Engine, Value, obj, Fields, end, field}
use nexuspuppet.Value.Text.{text_before}
use nexuspuppet.Value.Order.{text_before-IsWeakOrder}
use nexuspuppet.Materialization.Merge.{EncDocument}
use nexuspuppet.Materialization.Renderer.{
  place_field, sort_value, sort_record, fields_of, class_fields, valid_class_names,
  render_enc_document, is_class_name,
}

-- Two values, or two objects' entries, that differ in the order of keys alone, at any depth of
-- objects within objects; an array is the same value only as itself.
mutual
  pub data SameValue {N : Type 0} : Value N → Value N → Type 0 where
    same : {v : Value N} → SameValue v v
    same_obj : {fs gs : Fields N} → Reordered fs gs → SameValue (obj fs) (obj gs)

  pub data Reordered {N : Type 0} : Fields N → Fields N → Type 0 where
    at_end : Reordered end end
    entry :
        {k : String} {v w : Value N} {fs gs : Fields N}
        → SameValue v w
        → Reordered fs gs
        → Reordered (field k v fs) (field k w gs)
    swap :
        {k l : String} {v w : Value N} {fs : Fields N}
        → Apart text_before k l
        → Reordered (field k v (field l w fs)) (field l w (field k v fs))
    then : {fs gs hs : Fields N} → Reordered fs gs → Reordered gs hs → Reordered fs hs

asym : (a b : String) → text_before a b ≡ true → text_before b a ≡ false
asym = text_before-IsWeakOrder.asym

module _ {N : Type 0} where
  -- Entries whose keys the order tells apart may be placed in either order.
  place_field_comm :
      (k l : String) (v w : Value N) (fs : Fields N)
      → text_before k l ≡ true
      → place_field k v (place_field l w fs) ≡ place_field l w (place_field k v fs)
  unfolding place_field
  place_field_comm k l v w end h = ground (arith, h, asym k l h)
  place_field_comm k l v w (field m x fs) h = ground (
    arith,
    h,
    asym k l h,
    place_field_comm k l v w fs h,
    text_before-IsWeakOrder.cotrans m k l,
    text_before-IsWeakOrder.cotrans k m l,
    asym m k,
    asym m l,
    asym l m,
    asym k m,
  )

  place_field-Apart :
      (k l : String) (v w : Value N) (fs : Fields N)
      → Apart text_before k l
      → place_field k v (place_field l w fs) ≡ place_field l w (place_field k v fs)
  place_field-Apart k l v w fs (inl h) = place_field_comm k l v w fs h
  place_field-Apart k l v w fs (inr h) = sym (place_field_comm l k w v fs h)

  sort_value-obj : (fs : Fields N) → sort_value (obj fs) ≡ obj (sort_record fs)
  unfolding sort_value
  sort_value-obj fs = refl

  sort_record-field :
      (k : String) (v : Value N) (fs : Fields N)
      → sort_record (field k v fs) ≡ place_field k (sort_value v) (sort_record fs)
  unfolding sort_record
  sort_record-field k v fs = refl

  sort_record-swap :
      (k l : String) (v w : Value N) (fs : Fields N)
      → Apart text_before k l
      → sort_record (field k v (field l w fs)) ≡ sort_record (field l w (field k v fs))
  unfolding sort_record
  sort_record-swap k l v w fs a =
      place_field-Apart k l (sort_value v) (sort_value w) (sort_record fs) a

  mutual
    sort_value-same : {v w : Value N} → SameValue v w → sort_value v ≡ sort_value w
    sort_value-same same = refl
    sort_value-same (same_obj {fs = fs} {gs = gs} r) =
        cc (sort_value-obj fs, sort_value-obj gs, sort_record-Reordered r)

    sort_record-Reordered : {fs gs : Fields N} → Reordered fs gs → sort_record fs ≡ sort_record gs
    sort_record-Reordered at_end = refl
    sort_record-Reordered (entry {k = k} {v = v} {w = w} {fs = fs} {gs = gs} s r) = cc (
      sort_record-field k v fs,
      sort_record-field k w gs,
      sort_value-same s,
      sort_record-Reordered r,
    )
    sort_record-Reordered (swap {k = k} {l = l} {v = v} {w = w} {fs = fs} a) =
        sort_record-swap k l v w fs a
    sort_record-Reordered (then r q) = sort_record-Reordered r ∙ sort_record-Reordered q

  all_names : Fields N → Bool
  all_names end = true
  all_names (field k v fs) = is_class_name k && all_names fs

  all_names-Reordered : {fs gs : Fields N} → Reordered fs gs → all_names fs ≡ all_names gs
  unfolding all_names
  all_names-Reordered at_end = refl
  all_names-Reordered (entry {k = k} s r) = ap (λ b. is_class_name k && b) (all_names-Reordered r)
  all_names-Reordered (swap {k = k} {l = l} a) = ground arith
  all_names-Reordered (then r q) = all_names-Reordered r ∙ all_names-Reordered q

  valid_class_names-all_names :
      (m : Dict (Dict (Value N))) → valid_class_names m ≡ all_names (class_fields m)
  unfolding valid_class_names all_names
  valid_class_names-all_names [] = refl
  valid_class_names-all_names ((name, ps) ∷ m) =
      ap (λ b. is_class_name name && b) (valid_class_names-all_names m)

module _ (js : Engine) (stringify : Fields js.Num → String) (parse : String → Option (Value js.Num))
    (sha256 : String → String) where
  open js use {Num}

  -- The order in which classes, parameters and the entries of objects within objects are held does
  -- not show: documents that differ in it alone, and hold the same arrays, are both refused, or
  -- give one text and one hash.
  pub render_enc_document-Reordered :
      (d e : EncDocument Num)
      → Reordered (class_fields d.classes) (class_fields e.classes)
      → Reordered (fields_of d.parameters) (fields_of e.parameters)
      → d.environment ≡ e.environment
      → render_enc_document js stringify parse sha256 d
        ≡ render_enc_document js stringify parse sha256 e
  unfolding render_enc_document
  render_enc_document-Reordered d e c p v = cc (
    sort_record-Reordered c,
    sort_record-Reordered p,
    v,
    all_names-Reordered c,
    valid_class_names-all_names d.classes,
    valid_class_names-all_names e.classes,
  )
