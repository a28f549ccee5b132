-- ===== src/Actions/Retention.antt =====
-- apps/actions/retention.py: rows that are older than the retention period are deleted in batches.
use hosting_service.Base.{
  ℕ, zero, suc, ◌+◌, ◌*◌, ◌-◌, Bool, true, false, not, ◌&&◌, Option, none, some, List, [], ◌∷◌,
  Text, length, take, keep, if◌then◌else◌, ltb,
}
use hosting_service.Hosting.Models.{Table, unless}
use hosting_service.Actions.Rows.{
  ActionOutbox, OutboxStatus, pending, delivered, failed, dead, DeliveryKind, webhook, email,
}
use hosting_service.Actions.Backoff.{is_member}
use hosting_service.Actions.Envelope.{EventLog}
pub mod Keys
pub mod Batches
pub mod Whole

pub record EventRow : Type 0 where
  pub created_at : ℕ
  pub event : EventLog

pub record ScheduledJobRun : Type 0 where
  pub job : Text
  pub started_at : ℕ
  pub finished_at : Option ℕ

-- The attempts of a delivery are deleted with its row, and are left out here.
pub record PurgeDb : Type 0 where
  pub events : Table EventRow
  pub outbox : Table ActionOutbox
  pub runs : Table ScheduledJobRun

pub record PurgeStats : Type 0 where
  pub events : ℕ
  pub webhook_deliveries : ℕ
  pub email_events : ℕ
  pub scheduled_job_runs : ℕ
  pub complete : Bool

abbrev pub no_purge : PurgeStats
no_purge = record {
  events = 0;
  webhook_deliveries = 0;
  email_events = 0;
  scheduled_job_runs = 0;
  complete = true;
}

module _ {A : Type 0} where
  -- `model.objects.filter(pk__in=ids).delete()`
  abbrev pub delete_keys : List ℕ → Table A → Table A
  delete_keys ids t = record {
    row = λ j. unless (is_member j ids) (t.row j);
    keys = keep (λ j. not (is_member j ids)) t.keys;
  }

module _ {A : Type 0} (p : A → Bool) where
  abbrev pub passes : Option A → Bool
  passes none = false
  passes (some a) = p a

  -- `qs.order_by().values_list('pk', flat=True)`
  unfoldable pub matching_keys : (ℕ → Option A) → List ℕ → List ℕ
  matching_keys row [] = []
  matching_keys row (i ∷ is) =
      let rest = matching_keys row is in if passes (row i) then i ∷ rest else rest

  abbrev pub matching : Table A → List ℕ
  matching t = matching_keys t.row t.keys

  abbrev pub after_batch :
      ℕ → Table A → (ℕ → Table A → (ℕ × Bool) × Table A) → List ℕ → (ℕ × Bool) × Table A
  after_batch deleted t rest [] = ((deleted, true), t)
  after_batch deleted t rest (i ∷ ids) = rest (deleted + length (i ∷ ids)) (delete_keys (i ∷ ids) t)

  -- `_delete_in_batches`; `is_late` tells at which turns the deadline has passed.
  unfoldable pub delete_turns : ℕ → (ℕ → Bool) → ℕ → ℕ → ℕ → Table A → (ℕ × Bool) × Table A
  delete_turns batch_size is_late zero k deleted t = ((deleted, true), t)
  delete_turns batch_size is_late (suc turns) k deleted t =
      let batch =
        after_batch deleted t (delete_turns batch_size is_late turns (suc k))
          (take batch_size (matching t)) in
      if is_late k then ((deleted, false), t) else batch

  -- A turn that goes on deletes a row, so there is one turn more than rows.
  abbrev pub delete_in_batches : ℕ → (ℕ → Bool) → Table A → (ℕ × Bool) × Table A
  delete_in_batches batch_size is_late t =
      delete_turns batch_size is_late (suc (length t.keys)) 0 0 t

abbrev pub day : ℕ
day = 86400

-- `retention_days`
abbrev pub retention_days : ℕ → ℕ
retention_days setting = if ltb setting 1 then 1 else setting

abbrev pub run_retention_days : ℕ
run_retention_days = 7

abbrev pub old_event : ℕ → EventRow → Bool
old_event cutoff e = ltb e.created_at cutoff

abbrev pub is_finished : OutboxStatus → Bool
is_finished delivered = true
is_finished dead = true
is_finished _ = false

abbrev pub is_email : DeliveryKind → Bool
is_email webhook = false
is_email email = true

abbrev pub old_webhook : ℕ → ActionOutbox → Bool
old_webhook cutoff row =
    is_finished row.status && not (is_email row.delivery_kind) && ltb row.created_at cutoff

abbrev pub old_email : ℕ → ActionOutbox → Bool
old_email cutoff row =
    is_finished row.status && is_email row.delivery_kind && ltb row.created_at cutoff

abbrev pub old_run : ℕ → ScheduledJobRun → Bool
old_run cutoff run = ltb run.started_at cutoff

-- The arguments of a purge; a point in time before the first is the first.
pub record Purge : Type 0 where
  pub setting : ℕ
  pub now : ℕ
  pub batch_size : ℕ
  pub is_late : ℕ → ℕ → Bool

abbrev pub cutoff : Purge → ℕ
cutoff c = c.now - retention_days c.setting * day

abbrev pub run_cutoff : Purge → ℕ
run_cutoff c = c.now - run_retention_days * day

-- `purge_expired_data(dry_run=True)`
abbrev pub count_expired_data : Purge → PurgeDb → PurgeStats
count_expired_data c db = record {
  events = length (matching (old_event (cutoff c)) db.events);
  webhook_deliveries = length (matching (old_webhook (cutoff c)) db.outbox);
  email_events = length (matching (old_email (cutoff c)) db.outbox);
  scheduled_job_runs = length (matching (old_run (run_cutoff c)) db.runs);
  complete = true;
}

-- The four targets, one after the other; the first that is not finished ends the purge.
abbrev pub purge_runs : Purge → PurgeStats → PurgeDb → PurgeStats × PurgeDb
purge_runs c s db =
    let ((n, finished), runs) =
      delete_in_batches (old_run (run_cutoff c)) c.batch_size (c.is_late 3) db.runs in
    (record s { scheduled_job_runs = n; complete = finished }, record db { runs = runs })

abbrev pub purge_emails : Purge → PurgeStats → PurgeDb → PurgeStats × PurgeDb
purge_emails c s db =
    let ((n, finished), outbox) =
      delete_in_batches (old_email (cutoff c)) c.batch_size (c.is_late 2) db.outbox in
    let db' = record db { outbox = outbox } in
    if finished
    then purge_runs c (record s { email_events = n }) db'
    else (record s { email_events = n; complete = false }, db')

abbrev pub purge_webhooks : Purge → PurgeStats → PurgeDb → PurgeStats × PurgeDb
purge_webhooks c s db =
    let ((n, finished), outbox) =
      delete_in_batches (old_webhook (cutoff c)) c.batch_size (c.is_late 1) db.outbox in
    let db' = record db { outbox = outbox } in
    if finished
    then purge_emails c (record s { webhook_deliveries = n }) db'
    else (record s { webhook_deliveries = n; complete = false }, db')

abbrev pub purge_expired_data : Purge → PurgeDb → PurgeStats × PurgeDb
purge_expired_data c db =
    let ((n, finished), events) =
      delete_in_batches (old_event (cutoff c)) c.batch_size (c.is_late 0) db.events in
    let db' = record db { events = events } in
    if finished
    then purge_webhooks c (record no_purge { events = n }) db'
    else (record no_purge { events = n; complete = false }, db')
