-- ===== src/Materialization/Drain/Idempotent.antt =====
-- That `materializeNode` of materializer.service.ts may be run again for nothing.
use mathlib.Core.Path.{subst}
use mathlib.Core.Option.{some-injective}
use nexuspuppet.Base.{
  ℕ, String, Bool, false, Option, none, some, List, ◌≡◌, refl, sym, ◌∙◌, ap, arith, eq_refl, str_eq,
  if_true, map,
}
use nexuspuppet.Base.Dict.{Dict, get, put, get-put, put-same}
use nexuspuppet.Value.{Engine, Fields}
use nexuspuppet.Materialization.Rules.{
  EvaluableNode, GroupMatchExplanation, match_groups, explain_match,
}
use nexuspuppet.Materialization.Merge.{EncDocument, MergeResult}
use nexuspuppet.Materialization.Classify.{GroupSet, classify}
use nexuspuppet.Materialization.Drain.{
  EncFileWriter, RenderedEnc, Materialization, MaterializationOutcome, World, materialize_node,
  record_row, store_row, written, rendered_as, node_of, facts_of,
}

-- What the interface says of `writeNode`: a document that was written is there, and writing it again
-- changes nothing.
pub record IsSettling {N : Type 0} (writer : EncFileWriter)
    (render : EncDocument N → Option RenderedEnc) : Type 0 where
  pub again :
      (files after : writer.Files) (certname : String) (d : EncDocument N) (r : RenderedEnc)
      (changed : Bool)
      → render d ≡ some r
      → writer.write_node files certname r.yaml r.content_hash ≡ some (changed, after)
      → writer.write_node after certname r.yaml r.content_hash ≡ some (false, after)

module _ (js : Engine) (writer : EncFileWriter) (render : EncDocument js.Num → Option RenderedEnc)
    (settling : IsSettling writer render) where
  open js use {Num}
  open writer use {Files, write_node}

  -- The row that a second pass would store is the one that the first has stored.
  same_row :
      (now later : ℕ) (changed : Bool) (rendered : RenderedEnc) (merged : MergeResult Num)
      (reasons : List (GroupMatchExplanation Num)) (existing : Option (Materialization Num))
      → let row = record_row js writer render now changed rendered merged reasons existing in
        record_row js writer render later false rendered merged reasons (some row) ≡ row
  same_row now later changed rendered merged reasons existing = refl

  same_table :
      (now later : ℕ) (changed : Bool) (rendered : RenderedEnc) (merged : MergeResult Num)
      (reasons : List (GroupMatchExplanation Num)) (certname : String) (node : Option (Fields Num))
      (m : Dict (Materialization Num))
      → let row =
          record_row js writer render now changed rendered merged reasons (get m certname) in
        let stored = store_row js writer render certname node row m in
        store_row js writer render certname node
          (record_row js writer render later false rendered merged reasons (get stored certname))
          stored
        ≡ stored
  same_table now later changed rendered merged reasons certname none m = refl
  same_table now later changed rendered merged reasons certname (some facts) m =
      let row = record_row js writer render now changed rendered merged reasons (get m certname) in
      let e : get (put m certname row) certname ≡ some row =
        get-put m certname row certname
        ∙ if_true (str_eq certname certname) _ _ (eq_refl certname) in
      rw e (put-same (put m certname row) certname row e)

  again_written :
      (now later : ℕ) (certname : String) (merged : MergeResult Num)
      (reasons : List (GroupMatchExplanation Num)) (rendered : RenderedEnc) (w v : World Num Files)
      (o : MaterializationOutcome Num)
      → render merged.document ≡ some rendered
      → written js writer render now certname merged reasons rendered w
          (write_node w.files certname rendered.yaml rendered.content_hash)
        ≡ some (o, v)
      → written js writer render later certname merged reasons rendered v
          (write_node v.files certname rendered.yaml rendered.content_hash)
        ≡ some (record o { changed = false }, v)
  again_written now later certname merged reasons rendered w v o d h =
      by_write (write_node w.files certname rendered.yaml rendered.content_hash) refl h
    where
      by_write :
          (a : Option (Bool × Files))
          → write_node w.files certname rendered.yaml rendered.content_hash ≡ a
          → written js writer render now certname merged reasons rendered w a ≡ some (o, v)
          → written js writer render later certname merged reasons rendered v
              (write_node v.files certname rendered.yaml rendered.content_hash)
            ≡ some (record o { changed = false }, v)
      by_write none e h = cc
      by_write (some (changed, files)) e h =
          subst
            (λ (p : MaterializationOutcome Num × World Num Files).
              written js writer render later certname merged reasons rendered p.1
                (write_node p.1.files certname rendered.yaml rendered.content_hash)
              ≡ some (record (p.0) { changed = false }, p.1))
            (some-injective _ _ h)
            (rw (settling.again w.files files certname merged.document rendered changed d e) (
              ap
                (λ (m : Dict (Materialization Num)). some (
                  record {
                    certname = certname;
                    changed = false;
                    content_hash = rendered.content_hash;
                    conflicts = merged.conflicts;
                    applied_group_ids = merged.applied_group_ids;
                  },
                  record w { files = files; materializations = m },
                ))
                (same_table now later changed rendered merged reasons certname
                  (get w.managed_nodes certname) w.materializations)))

  same_inputs :
      (now : ℕ) (certname : String) (merged : MergeResult Num)
      (reasons : List (GroupMatchExplanation Num)) (rendered : RenderedEnc) (w v : World Num Files)
      (o : MaterializationOutcome Num) (a : Option (Bool × Files))
      → written js writer render now certname merged reasons rendered w a ≡ some (o, v)
      → (v.managed_nodes ≡ w.managed_nodes) × (v.groups ≡ w.groups)
  same_inputs now certname merged reasons rendered w v o none h = cc
  same_inputs now certname merged reasons rendered w v o (some (changed, files)) h = ground arith

  again_rendered :
      (now later : ℕ) (certname : String) (merged : MergeResult Num)
      (reasons : List (GroupMatchExplanation Num)) (r : Option RenderedEnc) (w v : World Num Files)
      (o : MaterializationOutcome Num)
      → render merged.document ≡ r
      → rendered_as js writer render now certname merged reasons w r ≡ some (o, v)
      → (v.managed_nodes ≡ w.managed_nodes)
        × (v.groups ≡ w.groups)
        × (rendered_as js writer render later certname merged reasons v r
            ≡ some (record o { changed = false }, v))
  again_rendered now later certname merged reasons none w v o d h = cc
  again_rendered now later certname merged reasons (some rendered) w v o d h =
      let (n, g) = same_inputs now certname merged reasons rendered w v o _ h in
      (n, g, again_written now later certname merged reasons rendered w v o d h)

  -- A node that has been materialized may be materialized again at any time: the second pass reports
  -- the same outcome but that nothing changed, and leaves the database and the files as they are,
  -- the revision and the time of the last write included.
  pub materialize_node-idempotent :
      (now later : ℕ) (certname : String) (w v : World Num Files) (o : MaterializationOutcome Num)
      → materialize_node js writer render now certname w ≡ some (o, v)
      → materialize_node js writer render later certname v ≡ some (record o { changed = false }, v)
  unfolding materialize_node
  materialize_node-idempotent now later certname w v o h =
      let facts : Dict (Fields Num) → EvaluableNode Num =
        λ table. record { certname = certname; facts = facts_of (get table certname) } in
      let pass = λ (table : Dict (Fields Num)) (groups : GroupSet Num).
        rendered_as js writer render later certname (classify js (facts table) groups)
          (map (explain_match js (facts table)) (match_groups js (facts table) groups.evaluable)) v
          (render (classify js (facts table) groups).document) in
      let node = node_of js writer render certname w in
      let merged = classify js node w.groups in
      let (n, g, again) =
        again_rendered now later certname merged
          (map (explain_match js node) (match_groups js node w.groups.evaluable))
          (render merged.document) w v o refl h in
      subst
        (λ (table : Dict (Fields Num)).
          pass table v.groups ≡ some (record o { changed = false }, v))
        (sym n)
        (subst
          (λ (groups : GroupSet Num).
            pass w.managed_nodes groups ≡ some (record o { changed = false }, v))
          (sym g) again)
