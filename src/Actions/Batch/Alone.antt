-- ===== src/Actions/Batch/Alone.antt =====
-- The loop of retry_pending_webhooks without its pool, as steps of the one with any number of workers.
use hosting_service.Base.{
  ℕ, zero, suc, ◌+◌, ◌<◌, ◌≡◌, refl, sym, subst, ◌⊎◌, inl, inr, true, false, not, ◌&&◌, Option,
  none, some, [], arith, Bool-cases, and_true, ltb, Result, ok, err,
}
use hosting_service.Actions.Rows.{ActionOutbox}
use hosting_service.Actions.Delivery.{DeliverySettings, ActionsDb}
use hosting_service.Actions.Delivery.Whole.{Raised}
use hosting_service.Actions.Claims.{claim_next_pending_outbox, unlock}
use hosting_service.Actions.Batch.{
  RetryStats, no_stats, merge, summarize_delivery_result, RetryRun, Turn, stop, fail, next,
  row_turn, turn, after_turn, retry_turns, retry_one_by_one,
}
use hosting_service.Actions.Batch.Ends.{next_turn, worked-next, ltb_less, enough_turns}
use hosting_service.Actions.Batch.Keyed.{IsKeyed}
use hosting_service.Actions.Batch.Pool.{
  RetryArgs, RetryState, workers, work_alone, count_dry, elsewhere, RetryPendingWebhooks, begun,
  onward,
}

-- The arguments of a call, with its concurrency.
abbrev pub args_of : RetryRun → ℕ → RetryArgs
args_of run concurrency = record {
  batch_size = run.batch_size;
  concurrency = concurrency;
  dry_run = run.dry_run;
  now = run.now;
  nulls_first = run.nulls_first;
}

abbrev pub idle : RetryStats → ActionsDb → RetryState
idle stats db = record { stats = stats; in_flight = []; db = db }

workers_pos : (concurrency : ℕ) → 0 < workers concurrency
unfolding workers
workers_pos concurrency = ground arith

module _ (cfg : DeliverySettings) (run : RetryRun) (concurrency : ℕ)
    (no_pool : (run.dry_run ≡ true) ⊎ (workers concurrency ≡ 1)) (db0 : ActionsDb) where
  abbrev Reached : RetryStats → ActionsDb → Type 0
  Reached stats db = RetryPendingWebhooks cfg (args_of run concurrency) db0 (idle stats db)

  one_worker : run.dry_run ≡ false → workers concurrency ≡ 1
  one_worker wet = elim no_pool [ inl dry ↦ cc | inr one ↦ one ]

  row_turn-Reached :
      (k : ℕ) (stats stats' : RetryStats) (db db' : ActionsDb)
      (o : Option (ActionOutbox × ActionsDb))
      → claim_next_pending_outbox cfg run.nulls_first (run.busy k) run.now (run.clock k) db ≡ o
      → stats.processed < run.batch_size
      → row_turn cfg run k stats o ≡ next stats' db'
      → Reached stats db
      → Reached stats' db'
  row_turn-Reached k stats stats' db db' none claimed room e r = cc
  row_turn-Reached k stats stats' db db' (some (row, db1)) claimed room e r =
      elim (Bool-cases run.dry_run) [
        | inl dry ↦
            let (counts, same) = next_turn (rw dry at e) in
            subst (λ d. Reached stats' d) same
              (subst (λ s. Reached s (unlock row.id db1)) counts
                (onward r (
                  count_dry stats [] db db1 (run.busy k) (run.clock k) row dry room
                    (workers_pos concurrency) claimed)))
        | inr wet ↦
            let (after, ran, counts) = worked-next row.status stats stats' db' _ (rw wet at e) in
            subst (λ s. Reached s db') (sym counts)
              (onward
                (onward r (
                  work_alone stats [] db db1 (run.busy k) (run.clock k) row after (one_worker wet)
                    wet room (workers_pos concurrency) claimed))
                (elsewhere (merge stats (summarize_delivery_result row.status after)) [] db1 db'))
      ]

  turn-Reached :
      (k : ℕ) (stats stats' : RetryStats) (db db' : ActionsDb)
      → turn cfg run k stats db ≡ next stats' db'
      → Reached stats db
      → Reached stats' db'
  turn-Reached k stats stats' db db' e r =
      elim (Bool-cases (ltb stats.processed run.batch_size && not (run.is_late k))) [
        | inl goes ↦
            row_turn-Reached k stats stats' db db' _ refl
              (ltb_less stats.processed run.batch_size (and_true _ _ goes).0) (rw goes at e) r
        | inr shut ↦ cc (rw shut at e)
      ]

  returned :
      {s s' : RetryStats} {d d' : ActionsDb}
      → Path (Result Raised (RetryStats × ActionsDb)) (ok (s, d)) (ok (s', d'))
      → (s ≡ s') × (d ≡ d')
  returned e = (cc, cc)

  same-Reached :
      (s s' : RetryStats) (d d' : ActionsDb) → (s ≡ s') × (d ≡ d') → Reached s d → Reached s' d'
  same-Reached s s' d d' (p, q) r = subst (λ x. Reached s' x) q (subst (λ x. Reached x d) p r)

  after-Reached :
      (rest : RetryStats → ActionsDb → Result Raised (RetryStats × ActionsDb)) (k : ℕ)
      (s s' : RetryStats) (db db' : ActionsDb) (t : Turn)
      → ((s1 : RetryStats) (db1 : ActionsDb)
          → Reached s1 db1
          → rest s1 db1 ≡ ok (s', db')
          → Reached s' db')
      → turn cfg run k s db ≡ t
      → Reached s db
      → after_turn s db rest t ≡ ok (s', db')
      → Reached s' db'
  unfolding after_turn
  after-Reached rest k s s' db db' stop go_on here r e = same-Reached s s' db db' (returned e) r
  after-Reached rest k s s' db db' (fail x) go_on here r e = cc
  after-Reached rest k s s' db db' (next s1 db1) go_on here r e =
      go_on s1 db1 (turn-Reached k s s1 db db1 here r) e

  turns-Reached :
      (turns k : ℕ) (s s' : RetryStats) (db db' : ActionsDb)
      → Reached s db
      → retry_turns cfg run turns k s db ≡ ok (s', db')
      → Reached s' db'
  unfolding retry_turns
  turns-Reached zero k s s' db db' r e = same-Reached s s' db db' (returned e) r
  turns-Reached (suc turns) k s s' db db' r e =
      after-Reached (retry_turns cfg run turns (suc k)) k s s' db db' (turn cfg run k s db)
        (λ s1 db1 r1 e1. turns-Reached turns (suc k) s1 s' db1 db' r1 e1) refl r e

reached_end :
    (cfg : DeliverySettings) (run : RetryRun) (concurrency : ℕ) (db : ActionsDb)
    (o : Result Raised (RetryStats × ActionsDb))
    → (run.dry_run ≡ true) ⊎ (workers concurrency ≡ 1)
    → retry_one_by_one cfg run db ≡ o
    → ((x : Raised) × (o ≡ err x))
      ⊎ ((s : RetryStats) × (db' : ActionsDb) × (o ≡ ok (s, db'))
          × RetryPendingWebhooks cfg (args_of run concurrency) db (idle s db'))
reached_end cfg run concurrency db (err x) no_pool e = inl (x, refl)
reached_end cfg run concurrency db (ok (s, db')) no_pool e = inr (
  s,
  db',
  refl,
  turns-Reached cfg run concurrency no_pool db (suc run.batch_size) 0 no_stats s db db' begun e,
)

-- In a dry run, or with one worker, the loop of `retry_pending_webhooks` ends of itself: with every
-- row under its own key, more turns than one more than the batch size change neither the counts nor
-- the rows, nor the error with which the run stops; and it raises, or returns in a state that the
-- steps with any number of workers reach too, with no delivery left in flight.
pub retry_one_by_one_terminates :
    (cfg : DeliverySettings) (run : RetryRun) (concurrency : ℕ) (db : ActionsDb) (extra : ℕ)
    → (run.dry_run ≡ true) ⊎ (workers concurrency ≡ 1)
    → IsKeyed db
    → (retry_turns cfg run (suc run.batch_size + extra) 0 no_stats db ≡ retry_one_by_one cfg run db)
      × (((x : Raised) × (retry_one_by_one cfg run db ≡ err x))
          ⊎ ((s : RetryStats) × (db' : ActionsDb) × (retry_one_by_one cfg run db ≡ ok (s, db'))
              × RetryPendingWebhooks cfg (args_of run concurrency) db (idle s db')))
retry_one_by_one_terminates cfg run concurrency db extra no_pool keyed = (
  enough_turns cfg run db extra keyed,
  reached_end cfg run concurrency db (retry_one_by_one cfg run db) no_pool refl,
)
