-- ===== src/Actions/Delivery.antt =====
-- apps/actions/delivery.py: one delivery of an outbox row, in its two transactions.
use hosting_service.Base.{
  ℕ, ◌+◌, ◌*◌, Bool, true, false, not, ◌||◌, Option, none, some, List, [], ◌∷◌, Text, if◌then◌else◌,
  ◌==◌, leb, Result, ok, err,
}
use hosting_service.Hosting.Models.{Table, modify}
use hosting_service.Actions.Values.{Fields, end}
use hosting_service.Actions.Rows.{
  ActionRule, ActionKind, webhook_action, other_action, ActionOutbox, OutboxStatus, pending,
  delivered, failed, dead, DeliveryKind, webhook, email, DeliveryAttempt, Trigger,
}
use hosting_service.Actions.Webhook.{Failure, delivery_error, other_error}
use hosting_service.Actions.Backoff.{backoff_seconds, compute_retry_delay_seconds}
mod Records
pub mod Whole
pub mod Retries
unfoldable pub use Records.*

-- A delivery in flight: what the first transaction has read.
pub record Flight : Type 0 where
  pub outbox_id : ℕ
  pub snapshot_attempt : ℕ
  pub load : RuleLoad
  pub envelope : Fields

pub data Begun : Type 0 where
  gone broken : Begun
  finished : ActionOutbox → Begun
  flying : Flight → Begun

abbrev pub is_terminal : OutboxStatus → Bool
is_terminal delivered = true
is_terminal dead = true
is_terminal _ = false

abbrev pub in_flight : ActionOutbox → RuleLoad → Begun
in_flight row rule_missing = broken
in_flight row load = flying (record {
  outbox_id = row.id;
  snapshot_attempt = row.attempt_count;
  load = load;
  envelope = row.envelope;
})

abbrev pub begun : Table ActionRule → Option ActionOutbox → Begun
begun rules none = gone
begun rules (some row) =
    if is_terminal row.status
    then finished row
    else in_flight row (load_rule_for_delivery rules row)

-- The first transaction of `deliver_outbox_row`.
unfoldable pub begin_delivery : ℕ → ActionsDb → Begun
begin_delivery id db = begun db.rules (db.outbox.row id)

-- `_perform_http_delivery`, from what the handler did.
abbrev pub performed : ℕ → Result Failure (Unit {0}) → Bool × AttemptMeta
performed duration (ok done) = (true, record no_meta { duration_ms = some duration })
performed duration (err (delivery_error e)) = (
  false,
  record {
    http_status = e.http_status;
    response_excerpt = e.response_excerpt;
    error_message = e.message;
    permanent = e.permanent;
    retry_after_seconds = e.retry_after_seconds;
    duration_ms = some duration;
  },
)
performed duration (err (other_error text class_name)) =
    (false, record no_meta { error_message = text_or text class_name; duration_ms = some duration })

-- `_perform_email_delivery`
abbrev pub performed_email : (Text → Text) → ℕ → Result Failure ℕ → Bool × AttemptMeta
performed_email redact duration (ok status) =
    (true, record no_meta { http_status = some status; duration_ms = some duration })
performed_email redact duration (err (delivery_error e)) = (
  false,
  record {
    http_status = e.http_status;
    response_excerpt = redact e.response_excerpt;
    error_message = redact e.message;
    permanent = e.permanent;
    retry_after_seconds = e.retry_after_seconds;
    duration_ms = some duration;
  },
)
performed_email redact duration (err (other_error text class_name)) = (
  false,
  record no_meta { error_message = redact (text_or text class_name); duration_ms = some duration },
)

-- A terminal error of the rule takes the place of what was sent.
abbrev pub attempt_error : DeliverySettings → RuleLoad → AttemptMeta → Text
attempt_error cfg (terminal e) meta = e
attempt_error cfg _ meta = cfg.redact (format_attempt_error cfg meta)

abbrev pub outcome : RuleLoad → Bool × AttemptMeta → Bool × AttemptMeta
outcome (terminal e) sent = (false, record no_meta { permanent = true })
outcome _ sent = sent

-- The row that `_apply_delivery_result` saves.
abbrev pub delivered_row : ℕ → ActionOutbox → ActionOutbox
delivered_row now row = record row {
  attempt_count = row.attempt_count + 1;
  locked_until = none;
  status = delivered;
  delivered_at = some now;
  last_error = [];
  next_attempt_at = none;
  updated_at = now;
}

abbrev pub dead_row : ℕ → Text → ActionOutbox → ActionOutbox
dead_row now error row = record row {
  attempt_count = row.attempt_count + 1;
  locked_until = none;
  status = dead;
  last_error = error;
  next_attempt_at = none;
  updated_at = now;
}

abbrev pub failed_row : ℕ → Text → ℕ → ActionOutbox → ActionOutbox
failed_row now error delay row = record row {
  attempt_count = row.attempt_count + 1;
  locked_until = none;
  status = failed;
  last_error = error;
  next_attempt_at = some (now + delay);
  updated_at = now;
}

unfoldable pub applied_row :
    DeliverySettings → ℕ → Text → Bool → AttemptMeta → ActionOutbox → ActionOutbox
applied_row cfg now error success meta row =
    if success
    then delivered_row now row
    else if meta.permanent || leb cfg.max_attempts (row.attempt_count + 1)
    then dead_row now error row
    else failed_row now error
        (compute_retry_delay_seconds meta.http_status meta.retry_after_seconds
          (backoff_seconds (row.attempt_count + 1)))
        row

abbrev pub new_attempt :
    Trigger → Option ℕ → Text → Bool → AttemptMeta → ActionOutbox → DeliveryAttempt
new_attempt trigger run error success meta row = record {
  success = success;
  http_status = meta.http_status;
  error_message = if success then [] else error;
  attempt_number = row.attempt_count + 1;
  duration_ms = meta.duration_ms;
  trigger = trigger;
  scheduled_job_run_id = run;
}

-- The attempts of one row of the outbox.
abbrev pub add_attempt : ℕ → DeliveryAttempt → (ℕ → List DeliveryAttempt) → ℕ → List DeliveryAttempt
add_attempt id a attempts i = if id == i then a ∷ attempts i else attempts i

abbrev pub apply_delivery_result :
    DeliverySettings
    → ℕ
    → Trigger
    → Option ℕ
    → Flight
    → Bool × AttemptMeta
    → ActionOutbox
    → ActionsDb
    → ActionsDb × ActionOutbox
apply_delivery_result cfg now trigger run flight sent row db =
    let (success, meta) = outcome flight.load sent in
    let error = attempt_error cfg flight.load meta in
    let row' = applied_row cfg now error success meta row in
    (
      record db {
        outbox = modify flight.outbox_id (λ r. row') db.outbox;
        attempts =
            add_attempt flight.outbox_id (new_attempt trigger run error success meta row)
              db.attempts;
      },
      row',
    )

pub data DoesNotExist : Type 0 where
  does_not_exist : DoesNotExist

abbrev pub settled :
    DeliverySettings
    → ℕ
    → Trigger
    → Option ℕ
    → Flight
    → Bool × AttemptMeta
    → ActionsDb
    → Option ActionOutbox
    → Result DoesNotExist (ActionsDb × ActionOutbox)
settled cfg now trigger run flight sent db none = err does_not_exist
settled cfg now trigger run flight sent db (some row) =
    if not (row.attempt_count == flight.snapshot_attempt)
    then ok (db, row)
    else ok (apply_delivery_result cfg now trigger run flight sent row db)

-- The second transaction of `deliver_outbox_row`.
unfoldable pub finish_delivery :
    DeliverySettings
    → ℕ
    → Trigger
    → Option ℕ
    → Flight
    → Bool × AttemptMeta
    → ActionsDb
    → Result DoesNotExist (ActionsDb × ActionOutbox)
finish_delivery cfg now trigger run flight sent db =
    settled cfg now trigger run flight sent db (db.outbox.row flight.outbox_id)
