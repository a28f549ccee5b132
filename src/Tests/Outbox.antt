-- ===== src/Tests/Outbox.antt =====
-- Examples on the outbox: a mail whose delivery fails, two that wait, and the claims on them.
use hosting_service.Base.{
  Option, ◌⊎◌, ℕ, ◌+◌, ◌≤◌, ◌≡◌, ◌≢◌, refl, sym, ap, ◌∙◌, inl, inr, Bool, true, false, none, some,
  [], ◌∷◌, arith, codes, length, Bool-cases, ==_iff, ◌==◌, ok, err,
}
use hosting_service.Hosting.Models.{no_rows}
use hosting_service.Actions.Values.{end}
use hosting_service.Actions.Rows.{delivered, ActionOutbox, email, dispatch, automatic_retry}
use hosting_service.Actions.Delivery.{
  DeliverySettings, ActionsDb, Flight, AttemptMeta, no_meta, no_rule, flying, begin_delivery,
  finish_delivery, is_terminal,
}
use hosting_service.Actions.Delivery.Whole.{Call, Raised}
use hosting_service.Actions.Delivery.Retries.{deliver_each, deliver_each_terminates}
use hosting_service.Actions.Claims.{claim_next_pending_outbox, is_due, first_in_order, unlock}
use hosting_service.Actions.Outbox.Leases.{still, carry_on, claim_next_pending_outbox-exclusive}
use hosting_service.Actions.Backoff.{
  compute_retry_delay_seconds, compute_retry_delay_seconds_lem, backoff_seconds, min,
}
use hosting_service.Actions.Outbox.{
  new_outbox, create_outbox, IsUnused, Run, start, later, enqueue, begin, finish, release,
  empty_outbox,
}
use hosting_service.Actions.Outbox.Numbered.{attempts_numbered, numbers, countdown}
use hosting_service.Actions.Outbox.Lifecycle.{Life, view_at, Move-Life}
use hosting_service.Actions.Outbox.{Workers}
use hosting_service.Actions.Outbox.Bounded.{attempts_bounded, successes}
use hosting_service.Actions.Batch.{
  RetryRun, retry_turns, retry_one_by_one, RetryStats, no_stats, merge, summarize_delivery_result,
}
use hosting_service.Actions.Batch.Keyed.{IsKeyed}
use hosting_service.Actions.Batch.Alone.{args_of, idle, retry_one_by_one_terminates}
use hosting_service.Actions.Batch.Pool.{RetryArgs, RetryState, workers, RetryPendingWebhooks}
use hosting_service.Actions.Batch.DryRun.{retry_one_by_one-dry_run}

abbrev three_tries : DeliverySettings
three_tries = record {
  max_attempts = 3;
  lease_seconds = 120;
  redact = λ t. t;
  status_text = λ n. [];
}

-- A mail that was just put into the outbox, and the delivery of it that is begun.
abbrev mail_row : ActionOutbox
mail_row = new_outbox 100 1 7 none email (codes "app.created") end

abbrev one_mail : ActionsDb
one_mail = create_outbox mail_row (empty_outbox no_rows).db

abbrev mail_flight : Flight
mail_flight = record { outbox_id = 1; snapshot_attempt = 0; load = no_rule; envelope = end }

abbrev busy_host : Bool × AttemptMeta
busy_host = (false, record no_meta { http_status = some 503; error_message = codes "busy" })

abbrev one_failure : ActionsDb × ActionOutbox
one_failure = elim (finish_delivery three_tries 110 dispatch none mail_flight busy_host one_mail) [
  | ok d ↦ d
  | err e ↦ (one_mail, mail_row)
]

no_others : IsUnused 1 (empty_outbox no_rows)
no_others = (refl, tt)

mail_begun : begin_delivery 1 one_mail ≡ flying mail_flight
unfolding begin_delivery
mail_begun = refl

mail_failed :
    finish_delivery three_tries 110 dispatch none mail_flight busy_host one_mail ≡ ok one_failure
unfolding finish_delivery
mail_failed = refl

-- The mail is put into the outbox, and its first delivery begins.
abbrev mail_flying : Workers
mail_flying = record { db = one_mail; flights = mail_flight ∷ [] }

first_begun : (requeues : Bool) → Run three_tries requeues (empty_outbox no_rows) mail_flying
first_begun requeues =
    later
      (later start
        (enqueue (empty_outbox no_rows) 100 1 7 none email (codes "app.created") end no_others))
      (begin (record { db = one_mail; flights = [] }) 1 mail_flight mail_begun)

Move-Life_example :
    Life true (view_at mail_flying 1) (view_at (record { db = one_failure.0; flights = [] }) 1)
Move-Life_example =
    Move-Life three_tries true no_rows mail_flying (record { db = one_failure.0; flights = [] })
      (first_begun true)
      (finish one_mail one_failure.0 [] [] mail_flight 110 dispatch none busy_host one_failure.1
        mail_failed)
      1

-- … and fails.
first_try :
    (requeues : Bool)
    → Run three_tries requeues (empty_outbox no_rows) (record { db = one_failure.0; flights = [] })
first_try requeues = later (first_begun requeues) (
    finish one_mail one_failure.0 [] [] mail_flight 110 dispatch none busy_host one_failure.1
      mail_failed)

failed_stored : one_failure.0.outbox.row 1 ≡ some one_failure.1
unfolding finish_delivery
failed_stored = refl

attempts_numbered_example :
    numbers (one_failure.0.attempts 1) ≡ countdown one_failure.1.attempt_count
attempts_numbered_example =
    attempts_numbered three_tries true no_rows (record { db = one_failure.0; flights = [] }) 1
      one_failure.1 (first_try true) failed_stored

attempts_bounded_example :
    (successes (one_failure.0.attempts 1) ≤ 1) × (length (one_failure.0.attempts 1) ≤ 3)
attempts_bounded_example =
    attempts_bounded three_tries no_rows (record { db = one_failure.0; flights = [] }) 1
      one_failure.1 (first_try false) failed_stored

abbrev server_error : Option ℕ
server_error = some 500

compute_retry_delay_seconds_lem_example :
    (30 ≤ compute_retry_delay_seconds server_error (some 90) (backoff_seconds 2))
    × (compute_retry_delay_seconds server_error (some 90) (backoff_seconds 2) ≤ 3600)
    × (backoff_seconds 2 ≤ compute_retry_delay_seconds server_error (some 90) (backoff_seconds 2))
    × (compute_retry_delay_seconds server_error (some 90) (backoff_seconds 2)
        ≤ compute_retry_delay_seconds server_error (some 90) (backoff_seconds 3))
    × (min 3600 90 ≤ compute_retry_delay_seconds (some 503) (some 90) (backoff_seconds 2))
    × (min 3600 90 ≤ compute_retry_delay_seconds (some 429) (some 90) (backoff_seconds 2))
    × ((compute_retry_delay_seconds server_error (some 90) (backoff_seconds 2) ≡ backoff_seconds 2)
        ⊎ (server_error ≡ some 429)
        ⊎ (server_error ≡ some 503))
compute_retry_delay_seconds_lem_example =
    compute_retry_delay_seconds_lem server_error (some 90) 90 2

abbrev busy_call : ℕ → Call
busy_call k = record {
  now = 100 + k;
  trigger = automatic_retry;
  scheduled_job_run_id = none;
  send = λ f. busy_host;
}

deliver_each_terminates_example :
    (db' : ActionsDb) × (r' : ActionOutbox) × (deliver_each three_tries
        (busy_call 1 ∷ busy_call 2 ∷ busy_call 3 ∷ [])
        1
        one_mail
      ≡ ok db')
    × (db'.outbox.row 1 ≡ some r')
    × (is_terminal r'.status ≡ true)
deliver_each_terminates_example =
    deliver_each_terminates three_tries (busy_call 1 ∷ busy_call 2 ∷ busy_call 3 ∷ []) 1 one_mail
      mail_row refl refl (λ e. cc) (omega arith) (omega arith)

abbrev two_mails : ActionsDb
two_mails = create_outbox (new_outbox 101 2 7 none email (codes "app.deleted") end) one_mail

same_row : {a b : ActionOutbox} → some a ≡ some b → a ≡ b
same_row h = cc

two_mails-IsKeyed : IsKeyed two_mails
two_mails-IsKeyed i r e = elim (Bool-cases (2 == i)) [
  | inl second ↦ ap (λ x. x.id) (sym (same_row (rw second at e))) ∙ (==_iff 2 i).0 second
  | inr other ↦ elim (Bool-cases (1 == i)) [
    | inl first ↦ ap (λ x. x.id) (sym (same_row (rw (other, first) at e))) ∙ (==_iff 1 i).0 first
    | inr absent ↦ cc (rw (other, absent) at e)
  ]
]

abbrev five_rows : Bool → RetryRun
five_rows dry_run = record {
  batch_size = 5;
  dry_run = dry_run;
  now = 200;
  nulls_first = true;
  busy = λ k i. false;
  clock = λ k. 200 + k;
  is_late = λ k. false;
  call = busy_call;
}

retry_one_by_one_terminates_example :
    (retry_turns three_tries (five_rows false) (6 + 2) 0 no_stats two_mails
      ≡ retry_one_by_one three_tries (five_rows false) two_mails)
    × (((x : Raised) × (retry_one_by_one three_tries (five_rows false) two_mails ≡ err x))
        ⊎ ((s : RetryStats) × (db' : ActionsDb) × (retry_one_by_one three_tries
                (five_rows false)
                two_mails
              ≡ ok (s, db'))
            × RetryPendingWebhooks three_tries
                (args_of (five_rows false) 1)
                two_mails
                (idle s db')))
unfolding workers
retry_one_by_one_terminates_example =
    retry_one_by_one_terminates three_tries (five_rows false) 1 two_mails 2 (inr refl)
      two_mails-IsKeyed

abbrev claimed_first : ActionOutbox × ActionsDb
claimed_first = elim (claim_next_pending_outbox three_tries true (λ i. false) 200 200 two_mails) [
  | some c ↦ c
  | none ↦ (mail_row, two_mails)
]

-- The other mail is unlocked after the claim.
abbrev after_claim : Workers
after_claim = record { db = unlock 2 claimed_first.1; flights = [] }

abbrev claimed_second : ActionOutbox × ActionsDb
claimed_second =
    elim (claim_next_pending_outbox three_tries true (λ i. false) 210 210 after_claim.db) [
      | some c ↦ c
      | none ↦ (mail_row, two_mails)
    ]

first_claim :
    claim_next_pending_outbox three_tries true (λ i. false) 200 200 two_mails ≡ some claimed_first
unfolding claim_next_pending_outbox first_in_order is_due
first_claim = refl

second_claim :
    claim_next_pending_outbox three_tries true (λ i. false) 210 210 after_claim.db
    ≡ some claimed_second
unfolding claim_next_pending_outbox first_in_order is_due
second_claim = refl

two_others : IsUnused 2 (record { db = one_mail; flights = [] })
two_others = (refl, tt)

two_mails_run :
    Run three_tries true (empty_outbox no_rows) (record { db = two_mails; flights = [] })
two_mails_run =
    later
      (later start
        (enqueue (empty_outbox no_rows) 100 1 7 none email (codes "app.created") end no_others))
      (enqueue (record { db = one_mail; flights = [] }) 101 2 7 none email (codes "app.deleted") end
        two_others)

claimed_ids : (claimed_first.0.id ≡ 1) × (claimed_second.0.id ≡ 2)
unfolding claim_next_pending_outbox first_in_order is_due
claimed_ids = (refl, refl)

claim_next_pending_outbox-exclusive_example : claimed_second.0.id ≢ claimed_first.0.id
claim_next_pending_outbox-exclusive_example =
    claim_next_pending_outbox-exclusive three_tries true no_rows true true (λ i. false) (λ i. false)
      200 200 210 210 (record { db = two_mails; flights = [] }) after_claim claimed_first.1
      claimed_second.1 claimed_first.0 claimed_second.0 two_mails_run first_claim
      (carry_on still (release (record { db = claimed_first.1; flights = [] }) 2)
        (λ e. let one = claimed_ids.0 in omega arith))
      (omega arith) second_claim

mail_due : is_due 200 mail_row ≡ true
unfolding is_due
mail_due = refl

retry_one_by_one-dry_run_example :
    (s : RetryStats) × (db' : ActionsDb) × (retry_one_by_one three_tries (five_rows true) two_mails
      ≡ ok (s, db'))
    × (s.processed ≡ 5)
retry_one_by_one-dry_run_example =
    retry_one_by_one-dry_run three_tries (five_rows true) 1 two_mails mail_row refl (λ k. refl)
      (λ k. refl) two_mails-IsKeyed refl refl mail_due

-- Two workers: one mail is claimed and delivered.
abbrev two_workers : RetryArgs
two_workers = record {
  batch_size = 2;
  concurrency = 2;
  dry_run = false;
  now = 200;
  nulls_first = true;
}

abbrev mail_collected : RetryState
mail_collected = record {
  stats = merge no_stats (
      summarize_delivery_result claimed_first.0.status
        (some (record claimed_first.0 { status = delivered })));
  in_flight = [];
  db = claimed_first.1;
}
