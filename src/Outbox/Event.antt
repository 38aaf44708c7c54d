-- ===== src/Outbox/Event.antt =====
-- internal/platform/outbox/event.go, and the rows of the table outbox_events.
use go_sunabar_payments.Base.{ℕ, Option, String}
use go_sunabar_payments.Platform.Json.{Json}

-- `Event`.
pub record Event : Type 0 where
  pub id : String
  pub aggregate_type : String
  pub aggregate_id : String
  pub event_type : String
  pub payload : Json
  pub occurred_at : ℕ

pub data Delivery : Type 0 where
  pending sent failed : Delivery

-- A row of outbox_events (migrations/000001_init.up.sql).
pub record OutboxRow : Type 0 where
  pub id : String
  pub aggregate_type : String
  pub aggregate_id : String
  pub event_type : String
  pub payload : Json
  pub status : Delivery
  pub attempt_count : ℕ
  pub next_attempt_at : ℕ
  pub last_error : Option String
  pub created_at : ℕ
  pub sent_at : Option ℕ
