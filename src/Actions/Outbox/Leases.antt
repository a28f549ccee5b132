-- ===== src/Actions/Outbox/Leases.antt =====
-- The leases of the retry job, while other workers go on.
use hosting_service.Base.{
  ℕ, ◌+◌, ◌<◌, ◌≡◌, ◌≢◌, refl, sym, ap, ◌∙◌, inl, inr, Bool, true, false, ◌&&◌, Option, none, some,
  arith, Bool-cases, ==_iff, ◌==◌, leb, ok, and_true,
}
use hosting_service.Hosting.Models.{Table, modify, insert}
use hosting_service.Actions.Rows.{ActionRule, ActionOutbox, Trigger}
use hosting_service.Actions.Delivery.{
  DeliverySettings, ActionsDb, Flight, AttemptMeta, settled, finish_delivery,
}
use hosting_service.Actions.Claims.{
  is_retryable, has_passed, is_due, claim_next_pending_outbox, unlocked,
}
use hosting_service.Actions.Claims.Exclusive.{IsClaimed, claim-IsClaimed}
use hosting_service.Actions.Outbox.{
  requeued, is_webhook_of, requeue_found, requeue_delivery, delete_outbox, Workers, Move, begin,
  finish, give_up, claim, release, enqueue, requeue, delete_row, Run, later, empty_outbox,
}
use hosting_service.Actions.Outbox.Flights.{landed-db, not_same, some-injective}
use hosting_service.Actions.Outbox.Kept.{reached-At}
use hosting_service.Actions.Outbox.Lifecycle.{always-IsKept}

-- What leaves the lease of the row i alone until its end: no delivery of this row finishes, nobody
-- unlocks, re-queues or deletes it, and rows are claimed before the end.
abbrev pub Spares :
    {cfg : DeliverySettings} {requeues : Bool} {v w : Workers}
    → ℕ
    → ℕ
    → Move cfg requeues v w
    → Type 0
Spares i until (begin w id f e) = Unit
Spares i until (finish db db' before after f now trigger run sent row e) = f.outbox_id ≢ i
Spares i until (give_up db before after f e) = Unit
Spares i until (claim w db' nulls_first busy now clock row e) = now < until
Spares i until (release w id) = id ≢ i
Spares i until (enqueue w now id company rule kind event_type envelope unused) = Unit
Spares i until (requeue w db' company id allowed e) = id ≢ i
Spares i until (delete_row w id) = id ≢ i

-- Transactions of any workers that leave the lease of the row i alone.
pub data Sparing (cfg : DeliverySettings) (requeues : Bool) (i until : ℕ) (s : Workers)
    : Workers → Type 0 where
  still : Sparing cfg requeues i until s s
  carry_on :
      {v w : Workers}
      → Sparing cfg requeues i until s v
      → (m : Move cfg requeues v w) → Spares i until m
      → Sparing cfg requeues i until s w

abbrev lease_of : Option ActionOutbox → Option ℕ
lease_of none = none
lease_of (some r) = r.locked_until

-- Rows that stand under their own key.
abbrev IsOwn : ActionsDb → Type 0
IsOwn db = (j : ℕ) (r : ActionOutbox) → db.outbox.row j ≡ some r → r.id ≡ j

still_leased :
    (now until : ℕ) (r : ActionOutbox)
    → r.locked_until ≡ some until
    → now < until
    → is_due now r ≡ true
    → ⊥
unfolding is_due
still_leased now until r lease early due =
    let late : leb until now ≡ false = ground arith in
    let passed =
      (and_true (is_retryable r.status && has_passed now r.next_attempt_at)
        (has_passed now r.locked_until) due).1 in
    cc (rw (lease, late) at passed)

module _ (cfg : DeliverySettings) (i until : ℕ) where
  -- A claim before the end of the lease is of another row.
  claimed_away :
      (busy : ℕ → Bool) (now clock : ℕ) (db db' : ActionsDb) (old row : ActionOutbox)
      → IsOwn db
      → lease_of (db.outbox.row i) ≡ some until
      → now < until
      → IsClaimed cfg busy now clock db db' old row
      → old.id ≢ i
  claimed_away busy now clock db db' old row own lease early c same =
      let (j, there) = c.stored in
      let at = ap db.outbox.row (sym (own j old there) ∙ same) in
      still_leased now until old (ap lease_of (sym there ∙ at) ∙ lease) early c.due

  modify-lease :
      (t : Table ActionOutbox) (k : ℕ) (g : ActionOutbox → ActionOutbox)
      → k ≢ i
      → lease_of ((modify k g t).row i) ≡ lease_of (t.row i)
  modify-lease t k g away = rw (not_same k i (λ e. away (sym e))) refl

  settled-lease :
      (db db' : ActionsDb) (f : Flight) (now : ℕ) (trigger : Trigger) (run : Option ℕ)
      (sent : Bool × AttemptMeta) (row : ActionOutbox) (o : Option ActionOutbox)
      → f.outbox_id ≢ i
      → settled cfg now trigger run f sent db o ≡ ok (db', row)
      → lease_of (db'.outbox.row i) ≡ lease_of (db.outbox.row i)
  settled-lease db db' f now trigger run sent row none away e = cc
  settled-lease db db' f now trigger run sent row (some r) away e =
      elim (Bool-cases (r.attempt_count == f.snapshot_attempt)) [
        | inr other ↦
            ap (λ (d : ActionsDb). lease_of (d.outbox.row i)) (sym (landed-db (rw other at e)))
        | inl same ↦
            ap (λ (d : ActionsDb). lease_of (d.outbox.row i)) (sym (landed-db (rw same at e)))
            ∙ modify-lease db.outbox f.outbox_id _ away
      ]

  requeue-lease :
      (db db' : ActionsDb) (company id : ℕ) (o : Option ActionOutbox)
      → IsOwn db
      → id ≢ i
      → db.outbox.row id ≡ o
      → requeue_found company db o ≡ some db'
      → lease_of (db'.outbox.row i) ≡ lease_of (db.outbox.row i)
  requeue-lease db db' company id none own away there e = cc
  requeue-lease db db' company id (some r) own away there e =
      elim (Bool-cases (is_webhook_of company r)) [
        | inl ours ↦
            ap (λ (d : ActionsDb). lease_of (d.outbox.row i)) (sym (some-injective (rw ours at e)))
            ∙ modify-lease db.outbox r.id requeued (λ same. away (sym (own id r there) ∙ same))
        | inr other ↦ cc (rw other at e)
      ]

  insert-lease :
      (t : Table ActionOutbox) (id : ℕ) (row : ActionOutbox)
      → t.row id ≡ none
      → lease_of (t.row i) ≡ some until
      → lease_of ((insert id row t).row i) ≡ some until
  insert-lease t id row unused lease = elim (Bool-cases (id == i)) [
    | inl here ↦ cc (ap lease_of (sym unused ∙ ap t.row ((==_iff id i).0 here)) ∙ lease)
    | inr away ↦ rw away lease
  ]

  step-lease :
      {requeues : Bool} {v w : Workers} (m : Move cfg requeues v w)
      → Spares i until m
      → IsOwn v.db
      → lease_of (v.db.outbox.row i) ≡ some until
      → lease_of (w.db.outbox.row i) ≡ some until
  unfolding finish_delivery requeue_delivery delete_outbox
  step-lease (begin w id f e) spared own lease = lease
  step-lease (finish db db' before after f now trigger run sent row e) spared own lease =
      settled-lease db db' f now trigger run sent row _ spared e ∙ lease
  step-lease (give_up db before after f e) spared own lease = lease
  step-lease (claim w db' nulls_first busy now clock row e) spared own lease =
      let (old, c) = claim-IsClaimed cfg nulls_first busy now clock w.db db' row e in
      ap (λ (d : ActionsDb). lease_of (d.outbox.row i)) c.saved
      ∙ modify-lease w.db.outbox old.id _
          (claimed_away busy now clock w.db db' old row own lease spared c)
      ∙ lease
  step-lease (release w id) spared own lease = modify-lease w.db.outbox id unlocked spared ∙ lease
  step-lease (enqueue w now id company rule kind event_type envelope unused) spared own lease =
      insert-lease w.db.outbox id _ unused.0 lease
  step-lease (requeue w db' company id allowed e) spared own lease =
      requeue-lease w.db db' company id (w.db.outbox.row id) own spared refl e ∙ lease
  step-lease (delete_row w id) spared own lease = rw (not_same id i (λ e. spared (sym e))) lease

reached-IsOwn :
    (cfg : DeliverySettings) (requeues : Bool) (rules : Table ActionRule) (w : Workers)
    → Run cfg requeues (empty_outbox rules) w
    → IsOwn w.db
reached-IsOwn cfg requeues rules w run j r there =
    (reached-At cfg requeues (λ r log. Unit) (always-IsKept cfg requeues) rules w j r run there).0

module _ (cfg : DeliverySettings) (requeues : Bool) (rules : Table ActionRule) (i until : ℕ) where
  spared-lease :
      {s w : Workers}
      → Sparing cfg requeues i until s w
      → Run cfg requeues (empty_outbox rules) s
      → lease_of (s.db.outbox.row i) ≡ some until
      → Run cfg requeues (empty_outbox rules) w × (lease_of (w.db.outbox.row i) ≡ some until)
  spared-lease still run lease = (run, lease)
  spared-lease (carry_on {v} moves m spared) run lease =
      let (before, kept) = spared-lease moves run lease in
      (
        later before m,
        step-lease cfg i until m spared (reached-IsOwn cfg requeues rules v before) kept,
      )

leased_here :
    (cfg : DeliverySettings) (busy : ℕ → Bool) (now clock : ℕ) (db db' : ActionsDb)
    (old row : ActionOutbox)
    → IsOwn db
    → IsClaimed cfg busy now clock db db' old row
    → lease_of (db'.outbox.row row.id) ≡ some (now + cfg.lease_seconds)
leased_here cfg busy now clock db db' old row own c =
    let (j, there) = c.stored in
    let key = ap (λ (r : ActionOutbox). r.id) c.lease in
    ap (λ k. lease_of (db'.outbox.row k)) key
    ∙ ap (λ (d : ActionsDb). lease_of (d.outbox.row old.id)) c.saved
    ∙ rw ((==_iff old.id old.id).1 refl, ap db.outbox.row (own j old there) ∙ there) refl

-- A worker claims a row in a state that the workers reach. Whatever transactions follow, as long as
-- no delivery of this row finishes, it is not unlocked, re-queued or deleted, and rows are claimed
-- before its lease ends, a claim before the end of the lease takes another row.
pub claim_next_pending_outbox-exclusive :
    (cfg : DeliverySettings) (requeues : Bool) (rules : Table ActionRule)
    (nulls_first nulls_first' : Bool) (busy busy' : ℕ → Bool) (now clock now' clock' : ℕ)
    (v w : Workers) (db' db'' : ActionsDb) (row row' : ActionOutbox)
    → Run cfg requeues (empty_outbox rules) v
    → claim_next_pending_outbox cfg nulls_first busy now clock v.db ≡ some (row, db')
    → Sparing cfg requeues row.id (now + cfg.lease_seconds) (record v { db = db' }) w
    → now' < now + cfg.lease_seconds
    → claim_next_pending_outbox cfg nulls_first' busy' now' clock' w.db ≡ some (row', db'')
    → row'.id ≢ row.id
claim_next_pending_outbox-exclusive cfg requeues rules nulls_first nulls_first' busy busy' now clock
      now' clock' v w db' db'' row row' run first moves early second =
    let until = now + cfg.lease_seconds in
    let own = reached-IsOwn cfg requeues rules v run in
    let (old, c) = claim-IsClaimed cfg nulls_first busy now clock v.db db' row first in
    let (after, kept) =
      spared-lease cfg requeues rules row.id until moves
        (later run (claim v db' nulls_first busy now clock row first))
        (leased_here cfg busy now clock v.db db' old row own c) in
    let (old', c') = claim-IsClaimed cfg nulls_first' busy' now' clock' w.db db'' row' second in
    let other =
      claimed_away cfg row.id until busy' now' clock' w.db db'' old' row'
        (reached-IsOwn cfg requeues rules w after) kept early c' in
    λ same. other (sym (ap (λ (r : ActionOutbox). r.id) c'.lease) ∙ same)
