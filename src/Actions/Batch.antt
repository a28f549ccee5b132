-- ===== src/Actions/Batch.antt =====
-- apps/actions/delivery.py: retry_pending_webhooks where `concurrency` is 1, or in a dry run; with
-- more workers it is in Pool.
use hosting_service.Base.{
  ℕ, zero, suc, ◌+◌, Bool, true, false, not, ◌&&◌, Option, none, some, if◌then◌else◌, ltb, Result,
  ok, err,
}
use hosting_service.Actions.Rows.{
  ActionOutbox, OutboxStatus, pending, delivered, failed, dead, DeliveryKind, webhook, email,
}
use hosting_service.Actions.Delivery.{DeliverySettings, ActionsDb, Flight, AttemptMeta}
use hosting_service.Actions.Delivery.Whole.{Raised, Call, deliver_outbox_row}
use hosting_service.Actions.Claims.{claim_next_pending_outbox, unlock}
pub mod Pool
pub mod Alone
pub mod Keyed
pub mod Ends
pub mod Counts
pub mod DryRun

pub record RetryStats : Type 0 where
  pub processed : ℕ
  pub delivered : ℕ
  pub retried : ℕ
  pub dead : ℕ
  pub email_processed : ℕ
  pub email_delivered : ℕ
  pub email_retried : ℕ
  pub email_dead : ℕ

abbrev pub no_stats : RetryStats
no_stats = record {
  processed = 0;
  delivered = 0;
  retried = 0;
  dead = 0;
  email_processed = 0;
  email_delivered = 0;
  email_retried = 0;
  email_dead = 0;
}

-- `_merge`
abbrev pub merge : RetryStats → RetryStats → RetryStats
merge s d = record {
  processed = s.processed + d.processed;
  delivered = s.delivered + d.delivered;
  retried = s.retried + d.retried;
  dead = s.dead + d.dead;
  email_processed = s.email_processed + d.email_processed;
  email_delivered = s.email_delivered + d.email_delivered;
  email_retried = s.email_retried + d.email_retried;
  email_dead = s.email_dead + d.email_dead;
}

abbrev pub is_pending_or_failed : OutboxStatus → Bool
is_pending_or_failed pending = true
is_pending_or_failed failed = true
is_pending_or_failed _ = false

abbrev pub counted : OutboxStatus → OutboxStatus → RetryStats
counted before delivered = record no_stats { processed = 1; delivered = 1 }
counted before dead = record no_stats { processed = 1; dead = 1 }
counted before failed = record no_stats { processed = 1; retried = 1 }
counted before pending = record no_stats {
  processed = 1;
  retried = if is_pending_or_failed before then 1 else 0;
}

abbrev pub with_email : DeliveryKind → RetryStats → RetryStats
with_email webhook s = s
with_email email s = record s {
  email_processed = s.processed;
  email_delivered = s.delivered;
  email_retried = s.retried;
  email_dead = s.dead;
}

-- `_summarize_delivery_result`
abbrev pub summarize_delivery_result : OutboxStatus → Option ActionOutbox → RetryStats
summarize_delivery_result before none = no_stats
summarize_delivery_result before (some row) =
    with_email row.delivery_kind (counted before row.status)

-- A run: its arguments, and what happens around its turns, which are numbered.
pub record RetryRun : Type 0 where
  pub batch_size : ℕ
  pub dry_run : Bool
  pub now : ℕ
  pub nulls_first : Bool
  pub busy : ℕ → ℕ → Bool
  pub clock : ℕ → ℕ
  pub is_late : ℕ → Bool
  pub call : ℕ → Call

pub data Turn : Type 0 where
  stop : Turn
  fail : Raised → Turn
  next : RetryStats → ActionsDb → Turn

abbrev worked : OutboxStatus → RetryStats → Result Raised (ActionsDb × Option ActionOutbox) → Turn
worked before stats (ok (db, after)) =
    next (merge stats (summarize_delivery_result before after)) db
worked before stats (err e) = fail e

abbrev dry_stats : ActionOutbox → RetryStats → RetryStats
dry_stats row stats = merge stats (with_email row.delivery_kind (record no_stats { processed = 1 }))

abbrev row_turn :
    DeliverySettings → RetryRun → ℕ → RetryStats → Option (ActionOutbox × ActionsDb) → Turn
row_turn cfg run k stats none = stop
row_turn cfg run k stats (some (row, db)) =
    if run.dry_run
    then next (dry_stats row stats) (unlock row.id db)
    else worked row.status stats (deliver_outbox_row cfg (run.call k) row.id db)

-- One turn of the loop.
abbrev turn : DeliverySettings → RetryRun → ℕ → RetryStats → ActionsDb → Turn
turn cfg run k stats db =
    if ltb stats.processed run.batch_size && not (run.is_late k)
    then row_turn cfg run k stats
        (claim_next_pending_outbox cfg run.nulls_first (run.busy k) run.now (run.clock k) db)
    else stop

unfoldable pub after_turn :
    RetryStats
    → ActionsDb
    → (RetryStats → ActionsDb → Result Raised (RetryStats × ActionsDb))
    → Turn
    → Result Raised (RetryStats × ActionsDb)
after_turn stats db rest stop = ok (stats, db)
after_turn stats db rest (fail e) = err e
after_turn stats db rest (next stats' db') = rest stats' db'

unfoldable pub retry_turns :
    DeliverySettings
    → RetryRun
    → ℕ
    → ℕ
    → RetryStats
    → ActionsDb
    → Result Raised (RetryStats × ActionsDb)
retry_turns cfg run zero k stats db = ok (stats, db)
retry_turns cfg run (suc turns) k stats db =
    after_turn stats db (retry_turns cfg run turns (suc k)) (turn cfg run k stats db)

-- `retry_pending_webhooks` without its pool: with `concurrency` 1, or in a dry run. A turn that goes
-- on has processed a row, so one turn more than the batch has rows is enough.
abbrev pub retry_one_by_one :
    DeliverySettings → RetryRun → ActionsDb → Result Raised (RetryStats × ActionsDb)
retry_one_by_one cfg run db = retry_turns cfg run (suc run.batch_size) 0 no_stats db
