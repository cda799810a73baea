-- ===== src/Auth/Outbox/Laws.antt =====
-- That audit-delivery.outbox.ts loses no record, and hands one out once while its lease lasts.
use nexuspuppet.Base.{
  ℕ, ◌<◌, String, Bool, true, false, not, List, [], ◌∷◌, ◌++◌, map, ◌≡◌, refl, ◌∙◌, ap, arith,
  str_eq, eq_iff, ◌==◌, keep, any, includes, All, ltb, ◌&&◌, Bool-cases, inl, inr,
}
use nexuspuppet.Auth.Outbox.{
  AuditEntry, DeliveryJob, DeliveryTable, PendingDelivery, has_record, enqueue, claim, complete,
  reschedule,
}

module _ {V : Type 0} where
  -- The record waits to be delivered.
  abbrev pub is_queued : String → DeliveryTable V → Bool
  is_queued audit_log_id t = any (has_record audit_log_id) t.rows

  -- What the service does to its table, but for completing one record.
  pub data Step (audit_log_id : String) : DeliveryTable V → DeliveryTable V → Type 0 where
    enqueued :
        (now : ℕ) (other : String) (entry : AuditEntry V) (t : DeliveryTable V)
        → Step audit_log_id t (enqueue now other entry t)
    claimed :
        (now later limit lease_ms : ℕ) (t : DeliveryTable V)
        → Step audit_log_id t (claim now later limit lease_ms t).1
    completed :
        (others : List String) (t : DeliveryTable V)
        → includes others audit_log_id ≡ false
        → Step audit_log_id t (complete others t).1
    rescheduled :
        (now : ℕ) (delivery : PendingDelivery V) (error : String) (backoff_ms : ℕ)
        (t : DeliveryTable V)
        → Step audit_log_id t (reschedule now delivery error backoff_ms t)

  pub data Steps (audit_log_id : String) : DeliveryTable V → DeliveryTable V → Type 0 where
    stay : {t : DeliveryTable V} → Steps audit_log_id t t
    go :
        {t u v : DeliveryTable V}
        → Steps audit_log_id t u
        → Step audit_log_id u v
        → Steps audit_log_id t v

  any-append :
      (p : DeliveryJob V → Bool) (rows more : List (DeliveryJob V))
      → any p rows ≡ true
      → any p (rows ++ more) ≡ true
  any-append p [] more h = cc
  any-append p (j ∷ js) more h = ground (arith, any-append p js more, h)

  any-map :
      (p : DeliveryJob V → Bool) (f : DeliveryJob V → DeliveryJob V) (rows : List (DeliveryJob V))
      → ((j : DeliveryJob V) → p (f j) ≡ p j)
      → any p (map f rows) ≡ any p rows
  any-map p f [] h = refl
  any-map p f (j ∷ js) h = ground (arith, any-map p f js h, h j)

  any-keep :
      (id : String) (others : List String) (rows : List (DeliveryJob V))
      → includes others id ≡ false
      → any (has_record id) rows ≡ true
      → any (has_record id) (keep (λ j. not (includes others j.audit_log_id)) rows) ≡ true
  any-keep id others [] n h = cc
  any-keep id others (j ∷ js) n h = elim (Bool-cases (str_eq j.audit_log_id id)) [
    | inl e ↦
        let q : includes others j.audit_log_id ≡ false =
          ap (includes others) ((eq_iff j.audit_log_id id).0 e) ∙ n in
        rw q (ground (arith, e))
    | inr e ↦
        let r = any-keep id others js n (ground (arith, e, h)) in
        elim (Bool-cases (includes others j.audit_log_id)) [
          | inl q ↦ rw q r
          | inr q ↦ rw q (ground (arith, e, r))
        ]
  ]

  is_queued-step :
      {id : String} {t u : DeliveryTable V}
      → Step id t u
      → is_queued id t ≡ true
      → is_queued id u ≡ true
  unfolding enqueue claim complete reschedule
  is_queued-step {id = id} (enqueued now other entry t) h =
      elim (Bool-cases (any (has_record other) t.rows)) [
        | inl e ↦ rw e h
        | inr e ↦ rw e (any-append (has_record id) t.rows _ h)
      ]
  is_queued-step {id = id} (claimed now later limit lease_ms t) h =
      any-map (has_record id) _ t.rows (λ j. ground arith) ∙ h
  is_queued-step {id = id} (completed others t n) h = any-keep id others t.rows n h
  is_queued-step {id = id} (rescheduled now delivery error backoff_ms t) h =
      any-map (has_record id) _ t.rows (λ j. ground arith) ∙ h

  -- A record that waits goes on waiting whatever is enqueued, claimed, rescheduled and completed,
  -- in any order, until it is completed itself.
  pub Steps-is_queued :
      {audit_log_id : String} {t u : DeliveryTable V}
      → Steps audit_log_id t u
      → is_queued audit_log_id t ≡ true
      → is_queued audit_log_id u ≡ true
  Steps-is_queued stay h = h
  Steps-is_queued (go s x) h = is_queued-step x (Steps-is_queued s h)

  -- A row with another id.
  abbrev Other : ℕ → DeliveryJob V → Type 0
  Other id j = (j.id == id) ≡ false

  -- A row that is leased until an instant, whatever the others are.
  abbrev IsLeased : ℕ → ℕ → DeliveryJob V → Type 0
  IsLeased until id j = (j.id == id && ltb j.next_attempt_at until) ≡ false

  -- The rows with the id are leased, and no row to come will have it.
  abbrev Leased : ℕ → ℕ → DeliveryTable V → Type 0
  Leased until id t = All (IsLeased until id) t.rows × (id < t.next_id)

  abbrev pub has_delivery : ℕ → List (PendingDelivery V) → Bool
  has_delivery id ds = any (λ d. d.job_id == id) ds

  -- What may happen to the table while a lease lasts: records are enqueued, other workers claim
  -- what is due before it ends, and deliveries are completed.
  pub data During (until : ℕ) : DeliveryTable V → DeliveryTable V → Type 0 where
    idle : {t : DeliveryTable V} → During until t t
    and_enqueued :
        {t u : DeliveryTable V} (now : ℕ) (audit_log_id : String) (entry : AuditEntry V)
        → During until t u
        → During until t (enqueue now audit_log_id entry u)
    and_claimed :
        {t u : DeliveryTable V} (now later limit lease_ms : ℕ)
        → now < until
        → During until t u
        → During until t (claim now later limit lease_ms u).1
    and_completed :
        {t u : DeliveryTable V} (audit_log_ids : List String)
        → During until t u
        → During until t (complete audit_log_ids u).1
