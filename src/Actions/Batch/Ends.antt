-- ===== src/Actions/Batch/Ends.antt =====
-- The turns of retry_pending_webhooks, without its pool.
use hosting_service.Base.{
  ℕ, zero, suc, ◌+◌, ◌≤◌, ◌<◌, ◌≡◌, refl, sym, ap, subst, ◌∙◌, inl, inr, Bool, true, false, not,
  ◌&&◌, Option, none, some, arith, Bool-cases, and_true, ==_iff, if◌then◌else◌, ltb, Result, ok,
  err,
}
use hosting_service.Actions.Rows.{
  ActionOutbox, OutboxStatus, pending, delivered, failed, dead, DeliveryKind, webhook, email,
}
use hosting_service.Actions.Delivery.{DeliverySettings, ActionsDb}
use hosting_service.Actions.Delivery.Whole.{Raised}
use hosting_service.Actions.Claims.{claim_next_pending_outbox, unlocked, leased, is_retryable}
use hosting_service.Actions.Claims.Exclusive.{IsClaimed, claim-IsClaimed}
use hosting_service.Actions.Batch.{
  RetryStats, no_stats, merge, counted, with_email, summarize_delivery_result, RetryRun, Turn, stop,
  fail, next, worked, dry_stats, row_turn, turn, after_turn, retry_turns, retry_one_by_one,
}
use hosting_service.Actions.Batch.Keyed.{
  IsKeyed, modify-IsKeyed, retry_alive, due_retryable, returned_row,
}

-- What a turn that goes on has done: one row is processed.
pub record IsTurn (run : RetryRun) (stats stats' : RetryStats) (db' : ActionsDb) : Type 0 where
  pub room : stats.processed < run.batch_size
  pub keyed : IsKeyed db'
  pub status : OutboxStatus
  pub row : ActionOutbox
  pub retryable : is_retryable status ≡ true
  pub added : stats' ≡ (
      if run.dry_run
      then dry_stats row stats
      else merge stats (summarize_delivery_result status (some row)))

pub next_turn : {s s' : RetryStats} {d d' : ActionsDb} → next s d ≡ next s' d' → (s ≡ s') × (d ≡ d')
next_turn h = (cc, cc)

claimed-IsKeyed :
    (cfg : DeliverySettings) (busy : ℕ → Bool) (now clock : ℕ) (db db' : ActionsDb)
    (old row : ActionOutbox)
    → IsClaimed cfg busy now clock db db' old row
    → IsKeyed db
    → IsKeyed db' × (db'.outbox.row row.id ≡ some row)
claimed-IsKeyed cfg busy now clock db db' old row c keyed =
    let lease = leased (now + cfg.lease_seconds) clock in
    let (i, there) = c.stored in
    let found =
      subst (λ (d : ActionsDb). d.outbox.row old.id ≡ some (lease old)) (sym c.saved)
        (rw ((==_iff old.id old.id).1 refl, ap db.outbox.row (keyed i old there) ∙ there) refl) in
    (
      subst IsKeyed (sym c.saved) (modify-IsKeyed db old.id lease (λ r. refl) keyed),
      subst (λ (r : ActionOutbox). db'.outbox.row r.id ≡ some r) (sym c.lease) found,
    )

pub worked-next :
    (before : OutboxStatus) (stats stats' : RetryStats) (db' : ActionsDb)
    (result : Result Raised (ActionsDb × Option ActionOutbox))
    → worked before stats result ≡ next stats' db'
    → (after : Option ActionOutbox) × (result ≡ ok (db', after))
      × (stats' ≡ merge stats (summarize_delivery_result before after))
worked-next before stats stats' db' (err x) e = cc
worked-next before stats stats' db' (ok (d, after)) e =
    let (counts, same) = next_turn e in (after, ap (λ x. ok (x, after)) same, sym counts)

row_turn-IsTurn :
    (cfg : DeliverySettings) (run : RetryRun) (k : ℕ) (stats stats' : RetryStats)
    (db db' : ActionsDb) (o : Option (ActionOutbox × ActionsDb))
    → claim_next_pending_outbox cfg run.nulls_first (run.busy k) run.now (run.clock k) db ≡ o
    → stats.processed < run.batch_size
    → IsKeyed db
    → row_turn cfg run k stats o ≡ next stats' db'
    → IsTurn run stats stats' db'
row_turn-IsTurn cfg run k stats stats' db db' none claimed room keyed e = cc
row_turn-IsTurn cfg run k stats stats' db db' (some (row, db1)) claimed room keyed e =
    let (old, c) =
      claim-IsClaimed cfg run.nulls_first (run.busy k) run.now (run.clock k) db db1 row claimed in
    let (keyed1, there) =
      claimed-IsKeyed cfg (run.busy k) run.now (run.clock k) db db1 old row c keyed in
    let retryable =
      ap (λ (r : ActionOutbox). is_retryable r.status) c.lease ∙ due_retryable run.now old c.due in
    elim (Bool-cases run.dry_run) [
      | inl dry ↦
          let (counts, same) = next_turn (rw dry at e) in
          record {
            room = room;
            keyed = subst IsKeyed same (modify-IsKeyed db1 row.id unlocked (λ r. refl) keyed1);
            status = row.status;
            row = row;
            retryable = retryable;
            added = rw dry (sym counts);
          }
      | inr wet ↦
          let (after, ran, counts) = worked-next row.status stats stats' db' _ (rw wet at e) in
          let (keyed2, r', same) =
            returned_row cfg (run.call k) row.id db1 db' row after there
              (retry_alive row.status retryable) keyed1 ran in
          record {
            room = room;
            keyed = keyed2;
            status = row.status;
            row = r';
            retryable = retryable;
            added =
                rw wet
                  (counts ∙ ap (λ o. merge stats (summarize_delivery_result row.status o)) same);
          }
    ]

not_less : (a b : ℕ) → b ≤ a → ltb a b ≡ false
not_less a b h = ground arith

pub ltb_less : (a b : ℕ) → ltb a b ≡ true → a < b
ltb_less a b e = ground arith

pub turn-IsTurn :
    (cfg : DeliverySettings) (run : RetryRun) (k : ℕ) (stats stats' : RetryStats)
    (db db' : ActionsDb)
    → IsKeyed db
    → turn cfg run k stats db ≡ next stats' db'
    → IsTurn run stats stats' db'
turn-IsTurn cfg run k stats stats' db db' keyed e =
    elim (Bool-cases (ltb stats.processed run.batch_size && not (run.is_late k))) [
      | inl goes ↦
          row_turn-IsTurn cfg run k stats stats' db db' _ refl
            (ltb_less stats.processed run.batch_size (and_true _ _ goes).0) keyed (rw goes at e)
      | inr shut ↦ cc (rw shut at e)
    ]

pub processed-with_email :
    (kind : DeliveryKind) (s : RetryStats) → (with_email kind s).processed ≡ s.processed
processed-with_email webhook s = refl
processed-with_email email s = refl

pub processed-counted : (before after : OutboxStatus) → (counted before after).processed ≡ 1
processed-counted before pending = refl
processed-counted before delivered = refl
processed-counted before failed = refl
processed-counted before dead = refl

processed-added :
    (dry : Bool) (stats : RetryStats) (before : OutboxStatus) (row : ActionOutbox)
    → (if dry
        then dry_stats row stats
        else merge stats (summarize_delivery_result before (some row))).processed
      ≡ stats.processed + 1
processed-added true stats before row =
    ap (λ n. stats.processed + n) (processed-with_email row.delivery_kind _)
processed-added false stats before row =
    ap (λ n. stats.processed + n)
      (processed-with_email row.delivery_kind (counted before row.status)
        ∙ processed-counted before row.status)

pub processed-turn :
    (run : RetryRun) (stats stats' : RetryStats) (db' : ActionsDb)
    → IsTurn run stats stats' db'
    → stats'.processed ≡ stats.processed + 1
processed-turn run stats stats' db' t =
    ap (λ (s : RetryStats). s.processed) t.added ∙ processed-added run.dry_run stats t.status t.row

full_turn :
    (cfg : DeliverySettings) (run : RetryRun) (k : ℕ) (stats : RetryStats) (db : ActionsDb)
    → run.batch_size ≤ stats.processed
    → turn cfg run k stats db ≡ stop
full_turn cfg run k stats db full = rw (not_less stats.processed run.batch_size full) refl

pub full_batch :
    (cfg : DeliverySettings) (run : RetryRun) (turns k : ℕ) (stats : RetryStats) (db : ActionsDb)
    → run.batch_size ≤ stats.processed
    → retry_turns cfg run turns k stats db ≡ ok (stats, db)
unfolding retry_turns after_turn
full_batch cfg run zero k stats db full = refl
full_batch cfg run (suc turns) k stats db full =
    ap (after_turn stats db (retry_turns cfg run turns (suc k))) (full_turn cfg run k stats db full)

suc_add : (m n : ℕ) → suc (m + n) ≡ suc m + n
suc_add m n = omega arith

after-same :
    (stats : RetryStats) (db : ActionsDb)
    (rest rest' : RetryStats → ActionsDb → Result Raised (RetryStats × ActionsDb)) (t : Turn)
    → ((s : RetryStats) (d : ActionsDb) → t ≡ next s d → rest s d ≡ rest' s d)
    → after_turn stats db rest t ≡ after_turn stats db rest' t
unfolding after_turn
after-same stats db rest rest' stop h = refl
after-same stats db rest rest' (fail e) h = refl
after-same stats db rest rest' (next s d) h = h s d refl

more_turns :
    (cfg : DeliverySettings) (run : RetryRun) (extra turns k : ℕ) (stats : RetryStats)
    (db : ActionsDb)
    → IsKeyed db
    → run.batch_size < stats.processed + turns
    → retry_turns cfg run (turns + extra) k stats db ≡ retry_turns cfg run turns k stats db
unfolding retry_turns
more_turns cfg run extra zero k stats db keyed enough =
    full_batch cfg run (zero + extra) k stats db (omega arith)
more_turns cfg run extra (suc turns) k stats db keyed enough =
    subst (λ n. retry_turns cfg run n k stats db ≡ retry_turns cfg run (suc turns) k stats db)
      (suc_add turns extra)
      (after-same stats db (retry_turns cfg run (turns + extra) (suc k))
        (retry_turns cfg run turns (suc k)) (turn cfg run k stats db)
        (λ stats' db' n.
          let t = turn-IsTurn cfg run k stats stats' db db' keyed n in
          let count = processed-turn run stats stats' db' t in
          more_turns cfg run extra turns (suc k) stats' db' t.keyed (omega arith)))

-- One turn more than the batch has rows is enough.
pub enough_turns :
    (cfg : DeliverySettings) (run : RetryRun) (db : ActionsDb) (extra : ℕ)
    → IsKeyed db
    → retry_turns cfg run (suc run.batch_size + extra) 0 no_stats db ≡ retry_one_by_one cfg run db
enough_turns cfg run db extra keyed =
    more_turns cfg run extra (suc run.batch_size) 0 no_stats db keyed (omega arith)
