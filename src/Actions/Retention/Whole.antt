-- ===== src/Actions/Retention/Whole.antt =====
-- A whole purge, and its dry run.
use hosting_service.Base.{
  ℕ, ◌≤◌, ◌≡◌, refl, ap, ◌∙◌, inl, inr, Bool, true, false, not, ◌&&◌, Option, none, some, List, [],
  ◌∷◌, length, All, Bool-cases, ==_iff, if◌then◌else◌, ◌==◌,
}
use hosting_service.Hosting.Models.{Table}
use hosting_service.Actions.Rows.{ActionOutbox}
use hosting_service.Actions.Backoff.{is_member}
use hosting_service.Actions.Retention.{
  passes, matching_keys, matching, delete_keys, Purge, PurgeDb, PurgeStats, cutoff, run_cutoff,
  old_event, old_webhook, old_email, old_run, ScheduledJobRun, EventRow, no_purge,
  count_expired_data, purge_runs, purge_emails, purge_webhooks, purge_expired_data, is_finished,
  is_email,
}
use hosting_service.Actions.Retention.Keys.{Apart, Outside, without-Outside, Apart-without}
use hosting_service.Actions.Retention.Batches.{matching-delete, delete_in_batches_lem}

module _ {A : Type 0} (p q : A → Bool) (apart : (a : A) → p a ≡ true → q a ≡ false) where
  member-passes :
      (row : ℕ → Option A) (j : ℕ) (keys : List ℕ)
      → is_member j (matching_keys p row keys) ≡ true
      → passes p (row j) ≡ true
  unfolding matching_keys
  member-passes row j [] e = cc
  member-passes row j (i ∷ keys) e = elim (Bool-cases (passes p (row i))) [
    | inr stays ↦ member-passes row j keys (rw stays at e)
    | inl pass ↦ elim (Bool-cases (j == i)) [
      | inl same ↦ ap (λ k. passes p (row k)) ((==_iff j i).0 same) ∙ pass
      | inr other ↦ member-passes row j keys (rw (pass, other) at e)
    ]
  ]

  not_both : (o : Option A) → passes p o ≡ true → passes q o ≡ false
  not_both none e = refl
  not_both (some a) e = apart a e

  not_member :
      (row : ℕ → Option A) (i : ℕ) (old : List ℕ)
      → passes q (row i) ≡ true
      → is_member i (matching_keys p row old) ≡ false
  not_member row i old e = elim (Bool-cases (is_member i (matching_keys p row old))) [
    | inl found ↦ cc (e, not_both (row i) (member-passes row i old found))
    | inr absent ↦ absent
  ]

  -- What matches one test is not among what matches the other.
  other-Outside :
      (row : ℕ → Option A) (old keys : List ℕ)
      → All (Outside (matching_keys p row old)) (matching_keys q row keys)
  unfolding matching_keys
  other-Outside row old [] = tt
  other-Outside row old (i ∷ keys) = elim (Bool-cases (passes q (row i))) [
    | inr stays ↦ rw stays (other-Outside row old keys)
    | inl pass ↦ rw pass (not_member row i old pass, other-Outside row old keys)
  ]

  -- Deleting what matches one test leaves what matches the other.
  matching-other : (t : Table A) → matching q (delete_keys (matching p t) t) ≡ matching q t
  matching-other t =
      matching-delete q (matching p t) t.row t.keys
      ∙ without-Outside (matching p t) (matching q t) (other-Outside t.row t.keys t.keys)

other_kind :
    (done mail older older' : Bool)
    → (done && not mail && older) ≡ true
    → (done && mail && older') ≡ false
other_kind true true older older' e = cc
other_kind true false older older' e = refl
other_kind false mail older older' e = refl

no_webhook :
    (cutoff : ℕ) (row : ActionOutbox) → old_webhook cutoff row ≡ true → old_email cutoff row ≡ false
no_webhook cutoff row e = other_kind (is_finished row.status) (is_email row.delivery_kind) _ _ e

module _ (c : Purge) (some_size : 1 ≤ c.batch_size)
    (in_time : (target k : ℕ) → c.is_late target k ≡ false) where
  runs_lem :
      (s : PurgeStats) (db : PurgeDb)
      → Apart db.runs.keys
      → (purge_runs c s db).0 ≡ record s {
        scheduled_job_runs = length (matching (old_run (run_cutoff c)) db.runs);
        complete = true;
      }
  runs_lem s db apart =
      ap
        (λ (x : (ℕ × Bool) × Table ScheduledJobRun). record s {
          scheduled_job_runs = x.0.0;
          complete = x.0.1;
        })
        (delete_in_batches_lem (old_run (run_cutoff c)) c.batch_size (c.is_late 3) db.runs some_size
          (in_time 3) apart)

  emails_lem :
      (s : PurgeStats) (db : PurgeDb)
      → Apart db.outbox.keys
      → Apart db.runs.keys
      → (purge_emails c s db).0 ≡ record s {
        email_events = length (matching (old_email (cutoff c)) db.outbox);
        scheduled_job_runs = length (matching (old_run (run_cutoff c)) db.runs);
        complete = true;
      }
  emails_lem s db rows runs =
      ap
        (λ (x : (ℕ × Bool) × Table ActionOutbox).
          (if x.0.1
            then purge_runs c (record s { email_events = x.0.0 }) (record db { outbox = x.1 })
            else (
              record s { email_events = x.0.0; complete = false },
              record db { outbox = x.1 },
            )).0)
        (delete_in_batches_lem (old_email (cutoff c)) c.batch_size (c.is_late 2) db.outbox some_size
          (in_time 2) rows)
      ∙ runs_lem (record s { email_events = length (matching (old_email (cutoff c)) db.outbox) })
          (record db { outbox = delete_keys (matching (old_email (cutoff c)) db.outbox) db.outbox })
          runs

  webhooks_lem :
      (s : PurgeStats) (db : PurgeDb)
      → Apart db.outbox.keys
      → Apart db.runs.keys
      → (purge_webhooks c s db).0 ≡ record s {
        webhook_deliveries = length (matching (old_webhook (cutoff c)) db.outbox);
        email_events = length (matching (old_email (cutoff c)) db.outbox);
        scheduled_job_runs = length (matching (old_run (run_cutoff c)) db.runs);
        complete = true;
      }
  webhooks_lem s db rows runs =
      ap
        (λ (x : (ℕ × Bool) × Table ActionOutbox).
          (if x.0.1
            then purge_emails c (record s { webhook_deliveries = x.0.0 })
                (record db { outbox = x.1 })
            else (
              record s { webhook_deliveries = x.0.0; complete = false },
              record db { outbox = x.1 },
            )).0)
        (delete_in_batches_lem (old_webhook (cutoff c)) c.batch_size (c.is_late 1) db.outbox
          some_size (in_time 1) rows)
      ∙ emails_lem
          (record s { webhook_deliveries = length (matching (old_webhook (cutoff c)) db.outbox) })
          (record db {
            outbox = delete_keys (matching (old_webhook (cutoff c)) db.outbox) db.outbox;
          })
          (Apart-without (matching (old_webhook (cutoff c)) db.outbox) db.outbox.keys rows) runs
      ∙ ap
          (λ l. record s {
            webhook_deliveries = length (matching (old_webhook (cutoff c)) db.outbox);
            email_events = length l;
            scheduled_job_runs = length (matching (old_run (run_cutoff c)) db.runs);
            complete = true;
          })
          (matching-other (old_webhook (cutoff c)) (old_email (cutoff c)) (no_webhook (cutoff c))
            db.outbox)

-- The dry run foretells the purge: with batches of at least one row, no deadline that passes, and
-- no key twice in a table, purge_expired_data completes, and its counts are those of its dry run,
-- whatever the size of the batches.
pub purge_expired_data-dry_run :
    (c : Purge) (db : PurgeDb)
    → 1 ≤ c.batch_size
    → ((target k : ℕ) → c.is_late target k ≡ false)
    → Apart db.events.keys
    → Apart db.outbox.keys
    → Apart db.runs.keys
    → (purge_expired_data c db).0 ≡ count_expired_data c db
purge_expired_data-dry_run c db some_size in_time events rows runs =
    ap
      (λ (x : (ℕ × Bool) × Table EventRow).
        (if x.0.1
          then purge_webhooks c (record no_purge { events = x.0.0 }) (record db { events = x.1 })
          else (
            record no_purge { events = x.0.0; complete = false },
            record db { events = x.1 },
          )).0)
      (delete_in_batches_lem (old_event (cutoff c)) c.batch_size (c.is_late 0) db.events some_size
        (in_time 0) events)
    ∙ webhooks_lem c some_size in_time
        (record no_purge { events = length (matching (old_event (cutoff c)) db.events) })
        (record db { events = delete_keys (matching (old_event (cutoff c)) db.events) db.events })
        rows runs
