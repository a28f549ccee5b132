-- ===== src/Actions/Batch/DryRun.antt =====
-- The dry run of retry_pending_webhooks.
use hosting_service.Base.{
  ℕ, zero, suc, ◌+◌, ◌≤◌, ◌<◌, ◌≡◌, refl, sym, ap, ◌∙◌, ◌⊎◌, inl, inr, Bool, true, false, not, ◌&&◌,
  Option, none, some, List, [], ◌∷◌, arith, any, Bool-cases, ==_iff, ◌==◌, ltb, ok,
}
use hosting_service.Hosting.Models.{modify, selected}
use hosting_service.Actions.Rows.{ActionOutbox}
use hosting_service.Actions.Delivery.{DeliverySettings, ActionsDb}
use hosting_service.Actions.Claims.{
  claim_next_pending_outbox, unlock, unlocked, leased, is_due, is_retryable,
}
use hosting_service.Actions.Batch.{
  RetryStats, no_stats, RetryRun, next, dry_stats, turn, retry_turns, retry_one_by_one,
}
use hosting_service.Hosting.Models.{add_selected}
use hosting_service.Actions.Claims.{first_in_order, the_earlier, ordered_before, has_passed}
use hosting_service.Actions.Batch.{after_turn}
use hosting_service.Actions.Batch.Keyed.{IsKeyed}
use hosting_service.Actions.Batch.Ends.{full_batch, processed-with_email}

earlier_some :
    (nulls_first : Bool) (a : ActionOutbox) (o : Option ActionOutbox)
    → (b : ActionOutbox) × (the_earlier nulls_first a o ≡ some b)
earlier_some nulls_first a none = (a, refl)
earlier_some nulls_first a (some b) = elim (Bool-cases (ordered_before nulls_first a b)) [
  | inl first ↦ (a, rw first refl)
  | inr second ↦ (b, rw second refl)
]

add_first :
    (p : ActionOutbox → Bool) (o : Option ActionOutbox) (r : ActionOutbox)
    (rest : List ActionOutbox)
    → o ≡ some r
    → p r ≡ true
    → add_selected p o rest ≡ r ∷ rest
add_first p o r rest there pass = rw (there, pass) refl

some_first :
    (nulls_first : Bool) (p : ActionOutbox → Bool) (o : Option ActionOutbox)
    (rest : List ActionOutbox)
    → (b : ActionOutbox) × (first_in_order nulls_first rest ≡ some b)
    → (b : ActionOutbox) × (first_in_order nulls_first (add_selected p o rest) ≡ some b)
unfolding first_in_order
some_first nulls_first p none rest h = h
some_first nulls_first p (some a) rest h = elim (Bool-cases (p a)) [
  | inl pass ↦ rw pass (earlier_some nulls_first a (first_in_order nulls_first rest))
  | inr skip ↦ rw skip h
]

selected-some :
    (nulls_first : Bool) (p : ActionOutbox → Bool) (row : ℕ → Option ActionOutbox) (i : ℕ)
    (r : ActionOutbox) (keys : List ℕ)
    → row i ≡ some r
    → p r ≡ true
    → any (λ j. i == j) keys ≡ true
    → (b : ActionOutbox) × (first_in_order nulls_first (selected p row keys) ≡ some b)
unfolding first_in_order
selected-some nulls_first p row i r [] there pass member = cc
selected-some nulls_first p row i r (j ∷ keys) there pass member = elim (Bool-cases (i == j)) [
  | inl here ↦
      rw (ap row (sym ((==_iff i j).0 here)) ∙ there, pass)
        (earlier_some nulls_first r (first_in_order nulls_first (selected p row keys)))
  | inr away ↦
      some_first nulls_first p (row j) (selected p row keys)
        (selected-some nulls_first p row i r keys there pass (rw away at member))
]

less_ltb : (a b : ℕ) → a < b → ltb a b ≡ true
less_ltb a b h = ground arith

less_or_same : (a b : ℕ) → a ≤ b → (a < b) ⊎ (a ≡ b)
less_or_same a b h = ground arith

-- A row that waits for the run.
record IsWaiting (now i : ℕ) (db : ActionsDb) : Type 0 where
  listed : any (λ j. i == j) db.outbox.keys ≡ true
  row : ActionOutbox
  stored : db.outbox.row i ≡ some row
  own : row.id ≡ i
  due : is_due now row ≡ true

last_true : (a b c : Bool) → (a && b && c) ≡ true → (a && b && true) ≡ true
last_true true true c e = refl
last_true true false c e = e
last_true false b c e = e

unlocked_due :
    (now : ℕ) (until clock : ℕ) (r : ActionOutbox)
    → is_due now r ≡ true
    → is_due now (unlocked (leased until clock r)) ≡ true
unfolding is_due
unlocked_due now until clock r due =
    last_true (is_retryable r.status) (has_passed now r.next_attempt_at)
      (has_passed now r.locked_until) due

after_dry :
    (now until clock k i : ℕ) (db : ActionsDb)
    → IsWaiting now i db
    → IsWaiting now i (unlock k (record db { outbox = modify k (leased until clock) db.outbox }))
after_dry now until clock k i db w = elim (Bool-cases (k == i)) [
  | inl here ↦ record {
    listed = w.listed;
    row = unlocked (leased until clock w.row);
    stored = rw (here, w.stored) refl;
    own = w.own;
    due = unlocked_due now until clock w.row w.due;
  }
  | inr away ↦ record {
    listed = w.listed;
    row = w.row;
    stored = rw away w.stored;
    own = w.own;
    due = w.due;
  }
]

module _ (cfg : DeliverySettings) (run : RetryRun) (i : ℕ) (dry : run.dry_run ≡ true)
    (in_time : (k : ℕ) → run.is_late k ≡ false) (free : (k : ℕ) → run.busy k i ≡ false) where
  dry_turn :
      (k : ℕ) (s : RetryStats) (db : ActionsDb)
      → IsWaiting run.now i db
      → s.processed < run.batch_size
      → (s' : RetryStats) × (db' : ActionsDb) × (turn cfg run k s db ≡ next s' db')
        × (s'.processed ≡ s.processed + 1)
        × IsWaiting run.now i db'
  unfolding claim_next_pending_outbox
  dry_turn k s db w room =
      let (old, first) =
        selected-some run.nulls_first (λ row. is_due run.now row && not (run.busy k row.id))
          db.outbox.row i w.row db.outbox.keys w.stored (rw (w.due, w.own, free k) refl) w.listed in
      (
        dry_stats (leased (run.now + cfg.lease_seconds) (run.clock k) old) s,
        unlock old.id (record db {
          outbox = modify old.id (leased (run.now + cfg.lease_seconds) (run.clock k)) db.outbox;
        }),
        rw (less_ltb s.processed run.batch_size room, in_time k, first, dry) refl,
        ap (λ n. s.processed + n) (processed-with_email old.delivery_kind _),
        after_dry run.now (run.now + cfg.lease_seconds) (run.clock k) old.id i db w,
      )

  dry_turns :
      (turns k : ℕ) (s : RetryStats) (db : ActionsDb)
      → IsWaiting run.now i db
      → s.processed ≤ run.batch_size
      → run.batch_size < s.processed + turns
      → (s' : RetryStats) × (db' : ActionsDb) × (retry_turns cfg run turns k s db ≡ ok (s', db'))
        × (s'.processed ≡ run.batch_size)
  unfolding retry_turns after_turn
  dry_turns zero k s db w within enough = absurd (omega arith)
  dry_turns (suc turns) k s db w within enough =
      elim (less_or_same s.processed run.batch_size within) [
        | inl room ↦
            let (s1, db1, step, count, w1) = dry_turn k s db w room in
            let (s2, db2, rest, total) =
              dry_turns turns (suc k) s1 db1 w1 (omega arith) (omega arith) in
            (s2, db2, ap (after_turn s db (retry_turns cfg run turns (suc k))) step ∙ rest, total)
        | inr full ↦ (s, db, full_batch cfg run (suc turns) k s db (omega arith), full)
      ]

-- A dry run claims again what it has given back: with every row under its own key, where a single
-- row is due, is not locked, and the time does not run out, the run reports that it processed `batch_size` rows.
pub retry_one_by_one-dry_run :
    (cfg : DeliverySettings) (run : RetryRun) (i : ℕ) (db : ActionsDb) (r : ActionOutbox)
    → run.dry_run ≡ true
    → ((k : ℕ) → run.is_late k ≡ false)
    → ((k : ℕ) → run.busy k i ≡ false)
    → IsKeyed db
    → any (λ j. i == j) db.outbox.keys ≡ true
    → db.outbox.row i ≡ some r
    → is_due run.now r ≡ true
    → (s : RetryStats) × (db' : ActionsDb) × (retry_one_by_one cfg run db ≡ ok (s, db'))
      × (s.processed ≡ run.batch_size)
retry_one_by_one-dry_run cfg run i db r dry in_time free keyed listed stored due =
    dry_turns cfg run i dry in_time free (suc run.batch_size) 0 no_stats db
      (record { listed = listed; row = r; stored = stored; own = keyed i r stored; due = due })
      (omega arith) (omega arith)
