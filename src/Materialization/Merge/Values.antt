-- ===== src/Materialization/Merge/Values.antt =====
-- `valuesEqual` of apps/api/src/materialization/pure/class-merger.ts.
use nexuspuppet.Base.{String, Bool, true, false, ◌&&◌, none, some, List, [], ◌∷◌, str_eq}
use nexuspuppet.Base.Sort.{sort}
use nexuspuppet.Value.{
  Engine, Value, null, bool, num, str, arr, obj, Items, nil, cons, Fields, end, field,
}
use nexuspuppet.Value.Text.{text_before}
use nexuspuppet.Materialization.Rules.{field_of}

-- `Object.keys`
unfoldable pub names : {N : Type 0} → Fields N → List String
names end = []
names (field k v fs) = k ∷ names fs

abbrev pub same_bool : Bool → Bool → Bool
same_bool true b = b
same_bool false true = false
same_bool false false = true

-- Equal lengths, and `aKeys.every((k, i) => k === bKeys[i])`.
unfoldable pub same_keys : List String → List String → Bool
same_keys [] [] = true
same_keys (a ∷ as') (b ∷ bs) = str_eq a b && same_keys as' bs
same_keys _ _ = false

module _ (js : Engine) where
  open js use {Num, num_eq}

  -- Two values that are one reference are equal field by field too, as JSON holds no NaN. The
  -- values under equal keys are compared in the order of the first object's entries.
  unfoldable mutual
    pub values_equal : Value Num → Value Num → Bool
    values_equal null null = true
    values_equal (bool a) (bool b) = same_bool a b
    values_equal (num a) (num b) = num_eq a b
    values_equal (str a) (str b) = str_eq a b
    values_equal (arr as') (arr bs) = items_equal as' bs
    values_equal (obj as') (obj bs) =
        same_keys (sort text_before (names as')) (sort text_before (names bs))
        && fields_equal as' bs
    values_equal _ _ = false

    pub items_equal : Items Num → Items Num → Bool
    items_equal nil nil = true
    items_equal (cons a as') (cons b bs) = values_equal a b && items_equal as' bs
    items_equal _ _ = false

    pub fields_equal : Fields Num → Fields Num → Bool
    fields_equal end bs = true
    fields_equal (field k v fs) bs =
        (elim (field_of bs k) [ none ↦ false | some w ↦ values_equal v w ]) && fields_equal fs bs
