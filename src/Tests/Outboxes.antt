-- ===== src/Tests/Outboxes.antt =====
-- audit-delivery.outbox.ts on a table of one record.
use nexuspuppet.Base.{Bool, true, false, none, some, [], ◌∷◌, ◌≡◌, refl}
use nexuspuppet.Auth.Outbox.{
  AuditEntry, DeliveryTable, PendingDelivery, enqueue, claim, complete, reschedule,
}
use nexuspuppet.Auth.Outbox.Laws.{
  is_queued, stay, go, claimed, completed, rescheduled, Steps-is_queued,
}

abbrev entry : AuditEntry Bool
entry = record {
  actor_user_id = none;
  actor_email = some "ann@example.com";
  action = "update";
  entity_type = "NodeGroup";
  entity_id = some "g";
  entity_label = none;
  request_id = none;
  before = false;
  after = true;
  ip_address = none;
  user_agent = none;
  created_at = 1;
}

abbrev table : DeliveryTable Bool
table = enqueue 1 "a" entry (record { rows = []; next_id = 0 })

abbrev delivery : PendingDelivery Bool
delivery = record { job_id = 0; audit_log_id = "a"; attempts = 0; entry = entry }

abbrev leased : DeliveryTable Bool
leased = (claim 5 5 10 60 table).1

abbrev failing : DeliveryTable Bool
failing = reschedule 9 delivery "timeout" 2 leased

Steps-is_queued_example : is_queued "a" (complete ("b" ∷ []) failing).1 ≡ true
unfolding enqueue
Steps-is_queued_example =
    Steps-is_queued
      (go (go (go stay (claimed 5 5 10 60 table)) (rescheduled 9 delivery "timeout" 2 leased))
        (completed ("b" ∷ []) failing refl))
      refl

abbrev crowded : DeliveryTable Bool
crowded = (claim 15 15 10 60 (enqueue 12 "b" entry leased)).1
