-- ===== src/Materialization/Merge.antt =====
-- apps/api/src/materialization/pure/class-merger.ts, with the result types of
-- packages/contracts/src/enc.ts: the matched groups, in merge order, reduced to one document.
pub mod Values
pub mod History
pub mod Tracking
pub mod Parameters
pub mod Classes
pub mod Environment
pub mod Inclusion
pub mod Credit
use Prim.Native.String
use nexuspuppet.Base.{
  String, Bool, true, false, not, ◌&&◌, Option, none, some, List, [], ◌∷◌, ◌++◌, map, str_eq,
  if◌then◌else◌, includes, fold,
}
use nexuspuppet.Base.Dict.{Dict, get, put}
use nexuspuppet.Value.{Engine, Value, str}
use Values.{values_equal}

pub data ConflictKind : Type 0 where
  class_parameter top_scope_parameter environment : ConflictKind

pub record ClassificationConflict (N : Type 0) : Type 0 where
  pub kind : ConflictKind
  pub key : String
  pub winning_group_id : String
  pub winning_group_name : String
  pub winning_value : Value N
  pub losing_group_id : String
  pub losing_group_name : String
  pub losing_value : Value N

-- An entry of `overridden` is a group's id and the value that it had set.
pub record KeyAttribution (N : Type 0) : Type 0 where
  pub group_id : String
  pub overridden : List (String × Value N)

pub record MergeAttribution (N : Type 0) : Type 0 where
  pub classes : Dict (List String)
  pub class_parameters : Dict (KeyAttribution N)
  pub parameters : Dict (KeyAttribution N)
  pub environment : Option (KeyAttribution N)

pub record EncDocument (N : Type 0) : Type 0 where
  pub classes : Dict (Dict (Value N))
  pub parameters : Dict (Value N)
  pub environment : Option String

pub record MergeResult (N : Type 0) : Type 0 where
  pub document : EncDocument N
  pub conflicts : List (ClassificationConflict N)
  pub applied_group_ids : List String
  pub attribution : MergeAttribution N

pub record MergeableGroup (N : Type 0) : Type 0 where
  pub id : String
  pub name : String
  pub environment : Option String
  pub classes : Dict (Dict (Value N))
  pub parameters : Dict (Value N)

-- Who set a key last.
pub record Provenance (N : Type 0) : Type 0 where
  pub group_id : String
  pub group_name : String
  pub value : Value N

-- The variables of `mergeGroups`.
pub record Merge (N : Type 0) : Type 0 where
  pub classes : Dict (Dict (Value N))
  pub parameters : Dict (Value N)
  pub conflicts : List (ClassificationConflict N)
  pub attribution : MergeAttribution N
  pub class_param_provenance : Dict (Provenance N)
  pub param_provenance : Dict (Provenance N)
  pub environment : Option String
  pub environment_provenance : Option (Provenance N)

-- The key of a class parameter, `${className}.${paramKey}`.
unfoldable pub provenance_key : String → String → String
provenance_key class_name param_key = String.◌++◌ class_name (String.◌++◌ "." param_key)

abbrev pub or_empty {ℓ} : {A : Type ℓ} → Option (List A) → List A
or_empty none = []
or_empty (some l) = l

module _ {N : Type 0} where
  abbrev pub start : Merge N
  start = record {
    classes = [];
    parameters = [];
    conflicts = [];
    attribution = record {
      classes = [];
      class_parameters = [];
      parameters = [];
      environment = none;
    };
    class_param_provenance = [];
    param_provenance = [];
    environment = none;
    environment_provenance = none;
  }

  abbrev pub set_by : MergeableGroup N → Value N → Provenance N
  set_by group value = record { group_id = group.id; group_name = group.name; value = value }

  -- `existing?.overridden ?? []`
  abbrev overridden_of : Option (KeyAttribution N) → List (String × Value N)
  overridden_of none = []
  overridden_of (some a) = a.overridden

  abbrev beaten : List (String × Value N) → Option (Provenance N) → List (String × Value N)
  beaten overridden none = overridden
  beaten overridden (some previous) = overridden ++ (previous.group_id, previous.value) ∷ []

  unfoldable pub beat :
      Option (KeyAttribution N) → String → Option (Provenance N) → KeyAttribution N
  beat existing group_id previous = record {
    group_id = group_id;
    overridden = beaten (overridden_of existing) previous;
  }

  unfoldable pub conflict_of :
      ConflictKind → String → Provenance N → Provenance N → ClassificationConflict N
  conflict_of kind key winning losing = record {
    kind = kind;
    key = key;
    winning_group_id = winning.group_id;
    winning_group_name = winning.group_name;
    winning_value = winning.value;
    losing_group_id = losing.group_id;
    losing_group_name = losing.group_name;
    losing_value = losing.value;
  }

-- Neither a null nor an empty environment clears an earlier one.
abbrev pub named_environment : Option String → Option String
named_environment none = none
named_environment (some name) = if str_eq name "" then none else some name

module _ (js : Engine) where
  open js use {Num}

  -- The conflict that is pushed where a previous setter had another value.
  unfoldable pub clash :
      ConflictKind
      → String
      → Option (Provenance Num)
      → Provenance Num
      → List (ClassificationConflict Num)
  clash kind key none winning = []
  clash kind key (some previous) winning =
      if values_equal js previous.value winning.value
      then []
      else conflict_of kind key winning previous ∷ []

  -- The body of the loop over a class's parameters.
  unfoldable pub set_class_parameter :
      MergeableGroup Num → String → Merge Num → String × Value Num → Merge Num
  set_class_parameter group class_name s (param_key, value) =
      let key = provenance_key class_name param_key in
      let previous = get s.class_param_provenance key in
      let target = or_empty (get s.classes class_name) in
      record s {
        conflicts = s.conflicts ++ clash class_parameter key previous (set_by group value);
        classes = put s.classes class_name (put target param_key value);
        attribution = record (s.attribution) {
          class_parameters =
              put s.attribution.class_parameters key
                (beat (get s.attribution.class_parameters key) group.id previous);
        };
        class_param_provenance = put s.class_param_provenance key (set_by group value);
      }

  -- `classes[className] ??= {}`, and the group's id among those that include the class.
  unfoldable pub include_class : MergeableGroup Num → String → Merge Num → Merge Num
  include_class group class_name s =
      let included_by = or_empty (get s.attribution.classes class_name) in
      record s {
        classes = put s.classes class_name (or_empty (get s.classes class_name));
        attribution = record (s.attribution) {
          classes =
              put s.attribution.classes class_name (
                if includes included_by group.id
                then included_by
                else included_by ++ group.id ∷ []);
        };
      }

  -- The body of the loop over a group's classes.
  unfoldable pub merge_class :
      MergeableGroup Num → Merge Num → String × Dict (Value Num) → Merge Num
  unfolding include_class set_class_parameter
  merge_class group s (class_name, params) =
      fold (set_class_parameter group class_name) (include_class group class_name s) params

  -- The body of the loop over a group's top-scope parameters.
  unfoldable pub set_parameter : MergeableGroup Num → Merge Num → String × Value Num → Merge Num
  set_parameter group s (key, value) =
      let previous = get s.param_provenance key in
      record s {
        conflicts = s.conflicts ++ clash top_scope_parameter key previous (set_by group value);
        parameters = put s.parameters key value;
        attribution = record (s.attribution) {
          parameters =
              put s.attribution.parameters key
                (beat (get s.attribution.parameters key) group.id previous);
        };
        param_provenance = put s.param_provenance key (set_by group value);
      }

  unfoldable pub set_environment : MergeableGroup Num → String → Merge Num → Merge Num
  set_environment group name s = record s {
    conflicts =
        s.conflicts
        ++ clash environment "environment" s.environment_provenance (set_by group (str name));
    environment = some name;
    attribution = record (s.attribution) {
      environment = some (beat s.attribution.environment group.id s.environment_provenance);
    };
    environment_provenance = some (set_by group (str name));
  }

  abbrev pub merge_named : MergeableGroup Num → Option String → Merge Num → Merge Num
  merge_named group none s = s
  merge_named group (some name) s = set_environment group name s

  unfoldable pub merge_environment : MergeableGroup Num → Merge Num → Merge Num
  unfolding set_environment
  merge_environment group s = merge_named group (named_environment group.environment) s

  unfoldable pub merge_group : Merge Num → MergeableGroup Num → Merge Num
  unfolding merge_class set_parameter merge_environment
  merge_group s group =
      merge_environment group
        (fold (set_parameter group) (fold (merge_class group) s group.classes) group.parameters)

  unfoldable pub merge_groups : List (MergeableGroup Num) → MergeResult Num
  unfolding merge_group
  merge_groups groups =
      let s = fold merge_group start groups in
      record {
        document = record {
          classes = s.classes;
          parameters = s.parameters;
          environment = s.environment;
        };
        conflicts = s.conflicts;
        applied_group_ids = map (λ g. g.id) groups;
        attribution = s.attribution;
      }
