-- ===== src/Actions/Delivery/Whole.antt =====
-- apps/actions/delivery.py: deliver_outbox_row, where one worker runs both of its transactions.
use hosting_service.Base.{
  ℕ, ◌+◌, ◌<◌, ◌≡◌, ◌≢◌, refl, sym, ap, subst, ◌∙◌, ◌⊎◌, inl, inr, Bool, true, false, ◌||◌, Option,
  none, some, arith, Text, Bool-cases, ==_iff, ◌==◌, leb, Result, ok, err,
}
use hosting_service.Hosting.Models.{Table}
use hosting_service.Actions.Rows.{ActionRule, ActionOutbox, Trigger}
use hosting_service.Actions.Delivery.{
  DeliverySettings, ActionsDb, Flight, AttemptMeta, RuleLoad, no_rule, rule_missing, terminal,
  loaded, Begun, gone, broken, finished, flying, in_flight, load_rule_for_delivery, begin_delivery,
  finish_delivery, apply_delivery_result, applied_row, outcome, attempt_error, is_terminal,
  DoesNotExist,
}

pub data Raised : Type 0 where
  attribute_error row_missing : Raised

abbrev landed :
    Result DoesNotExist (ActionsDb × ActionOutbox) → Result Raised (ActionsDb × Option ActionOutbox)
landed (ok (db, row)) = ok (db, some row)
landed (err e) = err row_missing

-- One call: its time, how it was started, and what becomes of a delivery that is sent.
pub record Call : Type 0 where
  pub now : ℕ
  pub trigger : Trigger
  pub scheduled_job_run_id : Option ℕ
  pub send : Flight → Bool × AttemptMeta

abbrev carried :
    DeliverySettings → Call → ActionsDb → Begun → Result Raised (ActionsDb × Option ActionOutbox)
carried cfg call db gone = ok (db, none)
carried cfg call db broken = err attribute_error
carried cfg call db (finished row) = ok (db, some row)
carried cfg call db (flying f) =
    landed (finish_delivery cfg call.now call.trigger call.scheduled_job_run_id f (call.send f) db)

unfoldable pub deliver_outbox_row :
    DeliverySettings → Call → ℕ → ActionsDb → Result Raised (ActionsDb × Option ActionOutbox)
deliver_outbox_row cfg call id db = carried cfg call db (begin_delivery id db)

-- What a call does to a row whose rule can be looked up.
pub record IsDelivered (cfg : DeliverySettings) (id : ℕ) (db : ActionsDb) (r : ActionOutbox)
    (db' : ActionsDb) (r' : ActionOutbox) : Type 0 where
  pub stored : db'.outbox.row id ≡ some r'
  pub own : r'.id ≡ r.id
  pub rule : load_rule_for_delivery db'.rules r' ≡ load_rule_for_delivery db.rules r
  pub closer :
      (is_terminal r'.status ≡ true)
      ⊎ ((r'.attempt_count ≡ r.attempt_count + 1) × (r'.attempt_count < cfg.max_attempts))
  pub others : (i : ℕ) → (id == i) ≡ false → db'.outbox.row i ≡ db.outbox.row i

more_left : (m : ℕ) (permanent : Bool) (n : ℕ) → (permanent || leb m (n + 1)) ≡ false → n + 1 < m
more_left m true n e = cc
more_left m false n e = ground arith

applied_row_lem :
    (cfg : DeliverySettings) (now : ℕ) (error : Text) (success : Bool) (meta : AttemptMeta)
    (rules : Table ActionRule) (r : ActionOutbox)
    → let r' = applied_row cfg now error success meta r in
      (r'.id ≡ r.id)
      × (load_rule_for_delivery rules r' ≡ load_rule_for_delivery rules r)
      × ((is_terminal r'.status ≡ true)
          ⊎ ((r'.attempt_count ≡ r.attempt_count + 1) × (r'.attempt_count < cfg.max_attempts)))
unfolding applied_row
applied_row_lem cfg now error true meta rules r = (refl, refl, inl refl)
applied_row_lem cfg now error false meta rules r =
    elim (Bool-cases (meta.permanent || leb cfg.max_attempts (r.attempt_count + 1))) [
      | inl last ↦ rw last (refl, refl, inl refl)
      | inr more ↦
          rw more
            (refl, refl, inr (refl, more_left cfg.max_attempts meta.permanent r.attempt_count more))
    ]

flying_load :
    (r : ActionOutbox) (load : RuleLoad)
    → load ≢ rule_missing
    → (f : Flight) × (in_flight r load ≡ flying f)
      × (f.outbox_id ≡ r.id)
      × (f.snapshot_attempt ≡ r.attempt_count)
flying_load r rule_missing n = absurd (n refl)
flying_load r no_rule n = (_, refl, refl, refl)
flying_load r (terminal e) n = (_, refl, refl, refl)
flying_load r (loaded rule) n = (_, refl, refl, refl)

-- The second transaction finds the row as the first one left it.
landing :
    (cfg : DeliverySettings) (call : Call) (db : ActionsDb) (r : ActionOutbox) (f : Flight)
    → db.outbox.row f.outbox_id ≡ some r
    → f.snapshot_attempt ≡ r.attempt_count
    → (db' : ActionsDb) × (r' : ActionOutbox) × (carried cfg call db (flying f) ≡ ok (db', some r'))
      × IsDelivered cfg f.outbox_id db r db' r'
unfolding finish_delivery
landing cfg call db r f there same =
    let sent = outcome f.load (call.send f) in
    let error = attempt_error cfg f.load sent.1 in
    let (own, rule, closer) = applied_row_lem cfg call.now error sent.0 sent.1 db.rules r in
    (
      (apply_delivery_result cfg call.now call.trigger call.scheduled_job_run_id f (call.send f) r
          db).0,
      applied_row cfg call.now error sent.0 sent.1 r,
      rw (there, (==_iff r.attempt_count f.snapshot_attempt).1 (sym same)) refl,
      record {
        stored = rw ((==_iff f.outbox_id f.outbox_id).1 refl, there) refl;
        own = own;
        rule = rule;
        closer = closer;
        others = λ i away. rw away refl;
      },
    )

pub deliver_outbox_row_lem :
    (cfg : DeliverySettings) (call : Call) (id : ℕ) (db : ActionsDb) (r : ActionOutbox)
    → db.outbox.row id ≡ some r
    → r.id ≡ id
    → load_rule_for_delivery db.rules r ≢ rule_missing
    → (db' : ActionsDb) × (r' : ActionOutbox) × (deliver_outbox_row cfg call id db
        ≡ ok (db', some r'))
      × IsDelivered cfg id db r db' r'
unfolding deliver_outbox_row begin_delivery
deliver_outbox_row_lem cfg call id db r there own ready = elim (Bool-cases (is_terminal r.status)) [
  | inl over ↦ (
    db,
    r,
    rw (there, over) refl,
    record { stored = there; own = refl; rule = refl; closer = inl over; others = λ i away. refl },
  )
  | inr alive ↦
      let (f, start, here, same) = flying_load r (load_rule_for_delivery db.rules r) ready in
      let (db', r', run, d) =
        landing cfg call db r f (ap db.outbox.row (here ∙ own) ∙ there) same in
      (
        db',
        r',
        rw (there, alive, start) run,
        subst (λ i. IsDelivered cfg i db r db' r') (here ∙ own) d,
      )
]
