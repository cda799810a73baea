-- ===== src/Plan/Scan.antt =====
-- Why the planner may skip nodes: `changesMembership` of apply-operation.ts.
use nexuspuppet.Base.{
  String, true, false, Option, none, some, List, [], ◌∷◌, ◌≡◌, refl, sym, ap, ◌∙◌, arith, eq_iff,
  str_eq, keep, map, All, Bool-cases, inl, inr,
}
use nexuspuppet.Base.Dict.{Dict, get, put, get-put}
use nexuspuppet.Value.{Engine}
use nexuspuppet.Materialization.Rules.{
  EvaluableGroup, EvaluableNode, group_matches, match_groups, merges_before,
}
use nexuspuppet.Base.Sort.{sort, All-sort}
use nexuspuppet.Materialization.Merge.{MergeableGroup, merge_groups}
use nexuspuppet.Materialization.Classify.{GroupSet, mergeable_of, classify}
use nexuspuppet.Plan.{
  Operation, PlanRequest, find_group, change_group, on_evaluable, on_mergeable, perform,
  perform_found, apply_operation, changes_membership, operation_changes, assign_class, remove_class,
  set_parameter, remove_parameter, update_group, delete_group,
}

module _ (js : Engine) where
  open js use {Num}

  -- Where membership cannot change, a group matches after the operation as it did before.
  on_evaluable-matches :
      (op : Operation Num) (node : EvaluableNode Num) (g : EvaluableGroup Num)
      → operation_changes op ≡ false
      → group_matches js node (on_evaluable op g) ≡ group_matches js node g
  unfolding group_matches
  on_evaluable-matches (assign_class c params) node g h = refl
  on_evaluable-matches (remove_class c) node g h = refl
  on_evaluable-matches (set_parameter k v) node g h = refl
  on_evaluable-matches (remove_parameter k) node g h = refl
  on_evaluable-matches (update_group u) node g h = ground arith
  on_evaluable-matches _ node g h = cc

  -- The members among the groups are the same ones, by id.
  abbrev matching_ids : EvaluableNode Num → List (EvaluableGroup Num) → List String
  matching_ids node gs = map (λ g. g.id) (keep (group_matches js node) gs)

  on_evaluable-id : (op : Operation Num) (g : EvaluableGroup Num) → (on_evaluable op g).id ≡ g.id
  on_evaluable-id (assign_class c params) g = refl
  on_evaluable-id op g = ground arith

  change_group-matching :
      (op : Operation Num) (id : String) (node : EvaluableNode Num) (gs : List (EvaluableGroup Num))
      → operation_changes op ≡ false
      → matching_ids node (change_group id (on_evaluable op) gs) ≡ matching_ids node gs
  unfolding change_group
  change_group-matching op id node [] h = refl
  change_group-matching op id node (g ∷ gs) h = ground (
    arith,
    change_group-matching op id node gs h,
    on_evaluable-matches op node g h,
    on_evaluable-id op g,
  )

  -- A group with the id does not match the node.
  abbrev pub Unmatched : String → EvaluableNode Num → EvaluableGroup Num → Type 0
  Unmatched id node g = str_eq g.id id ≡ true → group_matches js node g ≡ false

  change_group-keep :
      (op : Operation Num) (id : String) (node : EvaluableNode Num) (gs : List (EvaluableGroup Num))
      → operation_changes op ≡ false
      → All (Unmatched id node) gs
      → keep (group_matches js node) (change_group id (on_evaluable op) gs)
        ≡ keep (group_matches js node) gs
  unfolding change_group
  change_group-keep op id node [] h u = refl
  change_group-keep op id node (g ∷ gs) h (v, u) =
      ground (arith, change_group-keep op id node gs h u, on_evaluable-matches op node g h, v)

  Unmatched-keep :
      (id : String) (node : EvaluableNode Num) (gs : List (EvaluableGroup Num))
      → All (Unmatched id node) gs
      → All (λ g. str_eq g.id id ≡ false) (keep (group_matches js node) gs)
  Unmatched-keep id node [] u = tt
  Unmatched-keep id node (g ∷ gs) (v, u) = elim (Bool-cases (group_matches js node g)) [
    | inl e ↦ rw e (ground (arith, v), Unmatched-keep id node gs u)
    | inr e ↦ rw e (Unmatched-keep id node gs u)
  ]

mergeable_of-put :
    {N : Type 0} (m : Dict (MergeableGroup N)) (id : String) (x : MergeableGroup N)
    (gs : List (EvaluableGroup N))
    → All (λ g. str_eq g.id id ≡ false) gs
    → mergeable_of (put m id x) gs ≡ mergeable_of m gs
unfolding mergeable_of
mergeable_of-put m id x [] u = refl
mergeable_of-put m id x (g ∷ gs) (e, u) =
    ground
      (arith, mergeable_of-put m id x gs u, get-put m id x g.id, eq_iff id g.id, eq_iff g.id id)

module _ {N : Type 0} (groups : GroupSet N) where
  -- The groups after an operation other than a deletion.
  abbrev performed : String → Operation N → MergeableGroup N → GroupSet N
  performed id op m = record {
    evaluable = change_group id (on_evaluable op) groups.evaluable;
    mergeable_by_id = put groups.mergeable_by_id id (on_mergeable op m);
  }

  perform-performed :
      (id : String) (op : Operation N) (m : MergeableGroup N)
      → operation_changes op ≡ false
      → perform groups id op m ≡ performed id op m
  perform-performed id delete_group m h = cc
  perform-performed id op m h = refl

  perform_found_inv :
      (request : PlanRequest N) (e : Option (EvaluableGroup N)) (o : Option (MergeableGroup N))
      {after : GroupSet N}
      → perform_found groups request e o ≡ some after
      → (m : MergeableGroup N) × (perform groups request.group_id request.operation m ≡ after)
  perform_found_inv request (some g) (some m) h = (m, cc)
  perform_found_inv request (some g) none h = cc
  perform_found_inv request none o h = cc

  -- An operation that cannot change membership is performed on the groups in place.
  apply_operation-performed :
      (request : PlanRequest N) {after : GroupSet N}
      → changes_membership request ≡ false
      → apply_operation groups request ≡ some after
      → (m : MergeableGroup N) × (performed request.group_id request.operation m ≡ after)
  unfolding changes_membership apply_operation
  apply_operation-performed request h e =
      let (m, p) =
        perform_found_inv request (find_group request.group_id groups.evaluable)
          (get groups.mergeable_by_id request.group_id) e in
      (m, sym (perform-performed request.group_id request.operation m h) ∙ p)

module _ (js : Engine) (node : EvaluableNode js.Num) (groups after : GroupSet js.Num)
    (request : PlanRequest js.Num) where
  -- An operation that `changesMembership` clears changes neither which groups match a node nor, by
  -- their ids, in which order they are listed.
  pub scan_members :
      changes_membership request ≡ false
      → apply_operation groups request ≡ some after
      → map (λ g. g.id) (keep (group_matches js node) after.evaluable)
        ≡ map (λ g. g.id) (keep (group_matches js node) groups.evaluable)
  unfolding changes_membership
  scan_members h e =
      let (m, p) = apply_operation-performed groups request h e in
      rw (← p) (change_group-matching js request.operation request.group_id node groups.evaluable h)

  -- So the planner may skip a node that no group with the request's id matches: such an operation
  -- leaves the node's whole merge result as it is, document, conflicts and attribution.
  pub scan_skips :
      changes_membership request ≡ false
      → apply_operation groups request ≡ some after
      → All (Unmatched js request.group_id node) groups.evaluable
      → classify js node after ≡ classify js node groups
  unfolding changes_membership classify
  scan_skips h e u =
      let (m, p) = apply_operation-performed groups request h e in
      rw (← p) (
        ap (merge_groups js) (
          ap (mergeable_of _) (same_matches h u)
          ∙ mergeable_of-put groups.mergeable_by_id request.group_id
              (on_mergeable request.operation m) (match_groups js node groups.evaluable)
              (others u)))
    where
      same_matches :
          operation_changes request.operation ≡ false
          → All (Unmatched js request.group_id node) groups.evaluable
          → match_groups js node
              (change_group request.group_id (on_evaluable request.operation) groups.evaluable)
            ≡ match_groups js node groups.evaluable
      same_matches h u =
          unfold match_groups in
          ap (sort (merges_before js))
            (change_group-keep js request.operation request.group_id node groups.evaluable h u)

      others :
          All (Unmatched js request.group_id node) groups.evaluable
          → All (λ g. str_eq g.id request.group_id ≡ false) (match_groups js node groups.evaluable)
      others u =
          unfold match_groups in
          All-sort (λ g. str_eq g.id request.group_id ≡ false) (merges_before js)
            (keep (group_matches js node) groups.evaluable)
            (Unmatched-keep js request.group_id node groups.evaluable u)
