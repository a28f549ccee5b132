-- ===== src/Actions/Batch/Counts.antt =====
-- The counts of a run of retry_pending_webhooks, with any number of workers.
use hosting_service.Base.{◌+◌, ◌≤◌, ◌<◌, ◌≡◌, true, length, All}
use hosting_service.Actions.Rows.{delivered, dead, email}
use hosting_service.Actions.Claims.{is_retryable}
use hosting_service.Actions.Batch.{RetryStats}
use hosting_service.Actions.Batch.Pool.{RetryArgs, InFlight, RetryState, workers}

-- What one row adds.
record IsShare (d : RetryStats) : Type 0 where
  parts : d.processed ≡ d.delivered + d.retried + d.dead
  email : d.email_processed ≤ d.processed
  email_parts : d.email_processed ≡ d.email_delivered + d.email_retried + d.email_dead

-- The counts add up.
record IsSum (s : RetryStats) : Type 0 where
  parts : s.processed ≡ s.delivered + s.retried + s.dead
  email : s.email_processed ≤ s.processed
  email_parts : s.email_processed ≡ s.email_delivered + s.email_retried + s.email_dead

record IsCounted (args : RetryArgs) (st : RetryState) : Type 0 where
  within : st.stats.processed + length st.in_flight < args.batch_size + workers args.concurrency
  sum : IsSum st.stats
  retryable : All (λ (f : InFlight). is_retryable f.1 ≡ true) st.in_flight
