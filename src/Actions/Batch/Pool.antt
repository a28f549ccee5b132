-- ===== src/Actions/Batch/Pool.antt =====
-- apps/actions/delivery.py: retry_pending_webhooks with any number of workers, as steps.
use hosting_service.Base.{
  ℕ, ◌<◌, ◌≡◌, Bool, true, false, Option, some, List, [], ◌∷◌, ◌++◌, length, if◌then◌else◌, leb,
}
use hosting_service.Actions.Rows.{ActionOutbox, OutboxStatus}
use hosting_service.Actions.Delivery.{DeliverySettings, ActionsDb}
use hosting_service.Actions.Claims.{claim_next_pending_outbox, unlock}
use hosting_service.Actions.Batch.{
  RetryStats, no_stats, merge, summarize_delivery_result, dry_stats,
}

pub record RetryArgs : Type 0 where
  pub batch_size : ℕ
  pub concurrency : ℕ
  pub dry_run : Bool
  pub now : ℕ
  pub nulls_first : Bool

-- `max(1, int(concurrency))`
unfoldable pub workers : ℕ → ℕ
workers concurrency = if leb 1 concurrency then concurrency else 1

-- A future of the pool: the row, and its status when it was claimed.
abbrev pub InFlight : Type 0
InFlight = ℕ × OutboxStatus

pub record RetryState : Type 0 where
  pub stats : RetryStats
  pub in_flight : List InFlight
  pub db : ActionsDb

-- What the loop and its pool do. A row is claimed only while there is room in the batch and among
-- the workers. `after` is what the delivery of the row returns, and none where the row is gone;
-- `elsewhere` is any transaction of the pool's workers or of others. The deadline, and a claim that
-- finds no row, end the steps or leave those that collect; a delivery that raises ends them.
pub data RetryStep (cfg : DeliverySettings) (args : RetryArgs)
    : RetryState → RetryState → Type 0 where
  submit :
      (stats : RetryStats) (in_flight : List InFlight) (db db' : ActionsDb) (busy : ℕ → Bool)
      (clock : ℕ) (row : ActionOutbox)
      → 1 < workers args.concurrency
      → args.dry_run ≡ false
      → stats.processed < args.batch_size
      → length in_flight < workers args.concurrency
      → claim_next_pending_outbox cfg args.nulls_first busy args.now clock db ≡ some (row, db')
      → RetryStep cfg args
          (record { stats = stats; in_flight = in_flight; db = db })
          (record { stats = stats; in_flight = (row.id, row.status) ∷ in_flight; db = db' })
  work_alone :
      (stats : RetryStats) (in_flight : List InFlight) (db db' : ActionsDb) (busy : ℕ → Bool)
      (clock : ℕ) (row : ActionOutbox) (after : Option ActionOutbox)
      → workers args.concurrency ≡ 1
      → args.dry_run ≡ false
      → stats.processed < args.batch_size
      → length in_flight < workers args.concurrency
      → claim_next_pending_outbox cfg args.nulls_first busy args.now clock db ≡ some (row, db')
      → RetryStep cfg args
          (record { stats = stats; in_flight = in_flight; db = db })
          (record {
            stats = merge stats (summarize_delivery_result row.status after);
            in_flight = in_flight;
            db = db';
          })
  count_dry :
      (stats : RetryStats) (in_flight : List InFlight) (db db' : ActionsDb) (busy : ℕ → Bool)
      (clock : ℕ) (row : ActionOutbox)
      → args.dry_run ≡ true
      → stats.processed < args.batch_size
      → length in_flight < workers args.concurrency
      → claim_next_pending_outbox cfg args.nulls_first busy args.now clock db ≡ some (row, db')
      → RetryStep cfg args
          (record { stats = stats; in_flight = in_flight; db = db })
          (record { stats = dry_stats row stats; in_flight = in_flight; db = unlock row.id db' })
  collect :
      (stats : RetryStats) (before in_flight : List InFlight) (db : ActionsDb) (f : InFlight)
      (after : Option ActionOutbox)
      → RetryStep cfg args
          (record { stats = stats; in_flight = before ++ f ∷ in_flight; db = db })
          (record {
            stats = merge stats (summarize_delivery_result f.1 after);
            in_flight = before ++ in_flight;
            db = db;
          })
  elsewhere :
      (stats : RetryStats) (in_flight : List InFlight) (db db' : ActionsDb)
      → RetryStep cfg args
          (record { stats = stats; in_flight = in_flight; db = db })
          (record { stats = stats; in_flight = in_flight; db = db' })

-- The states that a call of retry_pending_webhooks on `db` passes.
abbrev pub started : ActionsDb → RetryState
started db = record { stats = no_stats; in_flight = []; db = db }

pub data RetryPendingWebhooks (cfg : DeliverySettings) (args : RetryArgs) (db : ActionsDb)
    : RetryState → Type 0 where
  begun : RetryPendingWebhooks cfg args db (started db)
  onward :
      {s t : RetryState}
      → RetryPendingWebhooks cfg args db s
      → RetryStep cfg args s t
      → RetryPendingWebhooks cfg args db t
