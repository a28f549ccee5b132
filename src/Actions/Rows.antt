-- ===== src/Actions/Rows.antt =====
-- apps/actions/models.py: the rules, the outbox and its attempts. Points in time are seconds.
use hosting_service.Base.{ℕ, Bool, Option, Text}
use hosting_service.Actions.Values.{Fields}

-- The kind of an action; the database may hold others than the one that is offered.
pub data ActionKind : Type 0 where
  webhook_action other_action : ActionKind

pub record ActionRule : Type 0 where
  pub id : ℕ
  pub company_id : ℕ
  pub name : Text
  pub event_type : Text
  pub enabled : Bool
  pub action_kind : ActionKind
  pub config : Fields

pub data OutboxStatus : Type 0 where
  pending delivered failed dead : OutboxStatus

pub data DeliveryKind : Type 0 where
  webhook email : DeliveryKind

pub record ActionOutbox : Type 0 where
  pub id : ℕ
  pub company_id : ℕ
  pub action_rule : Option ℕ
  pub delivery_kind : DeliveryKind
  pub event_type : Text
  pub envelope : Fields
  pub status : OutboxStatus
  pub attempt_count : ℕ
  pub next_attempt_at : Option ℕ
  pub locked_until : Option ℕ
  pub last_error : Text
  pub created_at : ℕ
  pub updated_at : ℕ
  pub delivered_at : Option ℕ

pub data Trigger : Type 0 where
  dispatch automatic_retry : Trigger

-- `success` tells which of the two statuses of an attempt it has.
pub record DeliveryAttempt : Type 0 where
  pub success : Bool
  pub http_status : Option ℕ
  pub error_message : Text
  pub attempt_number : ℕ
  pub duration_ms : Option ℕ
  pub trigger : Trigger
  pub scheduled_job_run_id : Option ℕ
