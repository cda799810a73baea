-- ===== src/Auth/Outbox.antt =====
-- apps/api/src/auth/audit-delivery.outbox.ts: audit records that wait to be delivered.
pub mod Laws
use nexuspuppet.Base.{
  ℕ, ◌+◌, ◌-◌, String, Bool, true, false, not, Option, none, some, List, [], ◌∷◌, ◌++◌, map, str_eq,
  ltb, leb, ◌==◌, if◌then◌else◌, length, take, keep, any, includes,
}
use nexuspuppet.Base.Sort.{sort}

-- The columns of an audit record that are delivered; `V` is what `before` and `after` hold.
pub record AuditEntry (V : Type 0) : Type 0 where
  pub actor_user_id : Option String
  pub actor_email : Option String
  pub action : String
  pub entity_type : String
  pub entity_id : Option String
  pub entity_label : Option String
  pub request_id : Option String
  pub before : V
  pub after : V
  pub ip_address : Option String
  pub user_agent : Option String
  pub created_at : ℕ

-- A row of `AuditDeliveryJob`, joined with its audit record.
pub record DeliveryJob (V : Type 0) : Type 0 where
  pub id : ℕ
  pub audit_log_id : String
  pub audit_log : AuditEntry V
  pub attempts : ℕ
  pub last_error : Option String
  pub next_attempt_at : ℕ
  pub created_at : ℕ

-- The rows, the earliest created first, and the id of the next one.
pub record DeliveryTable (V : Type 0) : Type 0 where
  pub rows : List (DeliveryJob V)
  pub next_id : ℕ

pub record PendingDelivery (V : Type 0) : Type 0 where
  pub job_id : ℕ
  pub audit_log_id : String
  pub attempts : ℕ
  pub entry : AuditEntry V

module _ {V : Type 0} where
  abbrev pub has_record : String → DeliveryJob V → Bool
  has_record audit_log_id j = str_eq j.audit_log_id audit_log_id

  -- `upsert` with an empty update, given the audit record.
  unfoldable pub enqueue : ℕ → String → AuditEntry V → DeliveryTable V → DeliveryTable V
  enqueue now audit_log_id entry t = if any (has_record audit_log_id) t.rows then t else record {
    rows =
        t.rows
        ++ record {
          id = t.next_id;
          audit_log_id = audit_log_id;
          audit_log = entry;
          attempts = 0;
          last_error = none;
          next_attempt_at = now;
          created_at = now;
        }
          ∷ [];
    next_id = t.next_id + 1;
  }

  abbrev pub older : DeliveryJob V → DeliveryJob V → Bool
  older a b = ltb a.created_at b.created_at

  abbrev pub is_due : ℕ → DeliveryJob V → Bool
  is_due now j = leb j.next_attempt_at now

  -- The rows that `claim` finds.
  unfoldable pub due_jobs : ℕ → ℕ → List (DeliveryJob V) → List (DeliveryJob V)
  due_jobs now limit rows = take limit (sort older (keep (is_due now) rows))

  abbrev pub has_id : ℕ → List (DeliveryJob V) → Bool
  has_id id jobs = any (λ j. j.id == id) jobs

  abbrev pub lease_if : ℕ → List (DeliveryJob V) → DeliveryJob V → DeliveryJob V
  lease_if until jobs j = if has_id j.id jobs then record j { next_attempt_at = until } else j

  abbrev pub delivery_of : DeliveryJob V → PendingDelivery V
  delivery_of j = record {
    job_id = j.id;
    audit_log_id = j.audit_log_id;
    attempts = j.attempts;
    entry = j.audit_log;
  }

  -- `claim`, which reads the clock for the query and again for the lease.
  unfoldable pub claim :
      ℕ → ℕ → ℕ → ℕ → DeliveryTable V → List (PendingDelivery V) × DeliveryTable V
  unfolding due_jobs
  claim now later limit lease_ms t =
      let jobs = due_jobs now limit t.rows in
      (map delivery_of jobs, record t { rows = map (lease_if (later + lease_ms) jobs) t.rows })

  -- `complete`, with the number of rows that go.
  unfoldable pub complete : List String → DeliveryTable V → ℕ × DeliveryTable V
  complete audit_log_ids t =
      let kept = keep (λ j. not (includes audit_log_ids j.audit_log_id)) t.rows in
      (length t.rows - length kept, record t { rows = kept })

  abbrev pub retry_if : ℕ → PendingDelivery V → String → DeliveryJob V → DeliveryJob V
  retry_if at delivery error j =
      if has_record delivery.audit_log_id j
      then record j {
        attempts = delivery.attempts + 1;
        next_attempt_at = at;
        last_error = some error;
      }
      else j

  -- `reschedule`, given the first thousand characters of the error; a row that is gone is passed
  -- over.
  unfoldable pub reschedule : ℕ → PendingDelivery V → String → ℕ → DeliveryTable V → DeliveryTable V
  reschedule now delivery error backoff_ms t = record t {
    rows = map (retry_if (now + backoff_ms) delivery error) t.rows;
  }

  abbrev pub depth : DeliveryTable V → ℕ
  depth t = length t.rows
