-- ===== src/Actions/Outbox/Lifecycle.antt =====
-- The status and the number of attempts of a row, under any interleaving of the workers.
use hosting_service.Base.{
  ℕ, ◌+◌, ◌≡◌, ◌≢◌, refl, sym, ap, subst, ◌∙◌, inl, inr, Bool, true, false, ◌||◌, Option, none,
  some, List, ◌∷◌, ◌++◌, Text, Bool-cases, ==_iff, ◌==◌, leb, ok,
}
use hosting_service.Hosting.Models.{Table, modify, insert}
use hosting_service.Actions.Rows.{
  ActionRule, ActionOutbox, OutboxStatus, pending, delivered, failed, dead, Trigger,
}
use hosting_service.Actions.Delivery.{
  DeliverySettings, ActionsDb, Flight, AttemptMeta, applied_row, is_terminal, settled,
  finish_delivery, outcome, attempt_error,
}
use hosting_service.Actions.Claims.{leased, unlocked}
use hosting_service.Actions.Claims.Exclusive.{claim-IsClaimed}
use hosting_service.Actions.Outbox.{
  requeued, is_webhook_of, requeue_found, requeue_delivery, delete_outbox, Workers, Move, begin,
  finish, give_up, claim, release, enqueue, requeue, delete_row, Run, empty_outbox,
}
use hosting_service.Actions.Outbox.Invariant.{Inv, IsKept, after_modify}
use hosting_service.Actions.Outbox.Flights.{alive-landing, landed-db, attempt_count-applied_row}
use hosting_service.Actions.Outbox.Kept.{Run-Inv}

-- What a transaction may do to a row, seen by its status and its number of attempts; none is a row
-- that is not stored.
pub data Life (requeues : Bool)
    : Option (OutboxStatus × ℕ) → Option (OutboxStatus × ℕ) → Type 0 where
  unchanged : (o : Option (OutboxStatus × ℕ)) → Life requeues o o
  created : Life requeues none (some (pending, 0))
  deleted : (o : Option (OutboxStatus × ℕ)) → Life requeues o none
  attempted :
      (s s' : OutboxStatus) (n : ℕ)
      → s ≢ delivered
      → s ≢ dead
      → s' ≢ pending
      → Life requeues (some (s, n)) (some (s', n + 1))
  queued_again :
      (s : OutboxStatus) (n : ℕ) → requeues ≡ true → Life requeues (some (s, n)) (some (pending, n))

abbrev pub view : ActionOutbox → OutboxStatus × ℕ
view r = (r.status, r.attempt_count)

abbrev pub view_of : Option ActionOutbox → Option (OutboxStatus × ℕ)
view_of none = none
view_of (some r) = some (view r)

-- The status and the number of attempts of each row.
abbrev pub view_at : Workers → ℕ → Option (OutboxStatus × ℕ)
view_at w i = view_of (w.db.outbox.row i)

some_row : {a b : ActionOutbox} → some a ≡ some b → a ≡ b
some_row h = cc

some_db : {a b : ActionsDb} → some a ≡ some b → a ≡ b
some_db h = cc

pub always-IsKept : (cfg : DeliverySettings) (requeues : Bool) → IsKept cfg requeues (λ r log. Unit)
always-IsKept cfg requeues = record {
  applied = λ now trigger run error success meta r log alive p. tt;
  lease = λ until clock r log p. tt;
  unlock = λ r log p. tt;
  requeue = λ r log allowed p. tt;
  fresh = λ now id company rule kind event_type envelope. tt;
}

applied_status :
    (cfg : DeliverySettings) (now : ℕ) (error : Text) (success : Bool) (meta : AttemptMeta)
    (r : ActionOutbox)
    → (applied_row cfg now error success meta r).status ≢ pending
unfolding applied_row
applied_status cfg now error true meta r = λ e. cc
applied_status cfg now error false meta r =
    elim (Bool-cases (meta.permanent || leb cfg.max_attempts (r.attempt_count + 1))) [
      | inl last ↦ rw last (λ e. cc)
      | inr more ↦ rw more (λ e. cc)
    ]

alive_status : (s : OutboxStatus) → is_terminal s ≡ false → (s ≢ delivered) × (s ≢ dead)
alive_status pending h = (λ e. cc, λ e. cc)
alive_status failed h = (λ e. cc, λ e. cc)
alive_status delivered h = cc
alive_status dead h = cc

attempted_row :
    (requeues : Bool) (cfg : DeliverySettings) (now : ℕ) (error : Text) (success : Bool)
    (meta : AttemptMeta) (x r : ActionOutbox)
    → x ≡ r
    → is_terminal r.status ≡ false
    → Life requeues (some (view x)) (some (view (applied_row cfg now error success meta r)))
attempted_row requeues cfg now error success meta x r same alive =
    let (running, living) = alive_status r.status alive in
    let count = (attempt_count-applied_row cfg now error success meta r).0 in
    let next = applied_row cfg now error success meta r in
    subst (λ (y : ActionOutbox). Life requeues (some (view y)) (some (view next))) (sym same)
      (subst (λ n. Life requeues (some (view r)) (some (next.status, n))) (sym count)
        (attempted r.status next.status r.attempt_count running living
          (applied_status cfg now error success meta r)))

modify-Life :
    (requeues : Bool) (t : Table ActionOutbox) (k : ℕ) (g : ActionOutbox → ActionOutbox)
    → ((r : ActionOutbox) → t.row k ≡ some r → Life requeues (some (view r)) (some (view (g r))))
    → (i : ℕ) → Life requeues (view_of (t.row i)) (view_of ((modify k g t).row i))
modify-Life requeues t k g h i =
    after_modify (λ j o. t.row j ≡ o) (λ j o. Life requeues (view_of (t.row j)) (view_of o)) k g t
      (λ r e q. subst (λ o. Life requeues (view_of o) (some (view (g r)))) (sym e) (h r e))
      (λ e q. subst (λ o. Life requeues (view_of o) none) (sym e) (unchanged none))
      (λ j o away q.
        subst (λ x. Life requeues (view_of x) (view_of o)) (sym q) (unchanged (view_of o)))
      i refl

settled-Life :
    (cfg : DeliverySettings) (requeues : Bool) (db db' : ActionsDb) (before after : List Flight)
    (f : Flight) (now : ℕ) (trigger : Trigger) (run : Option ℕ) (sent : Bool × AttemptMeta)
    (row : ActionOutbox) (o : Option ActionOutbox)
    → db.outbox.row f.outbox_id ≡ o
    → settled cfg now trigger run f sent db o ≡ ok (db', row)
    → Inv (λ r log. Unit) (record { db = db; flights = before ++ f ∷ after })
    → (i : ℕ) → Life requeues (view_of (db.outbox.row i)) (view_of (db'.outbox.row i))
settled-Life cfg requeues db db' before after f now trigger run sent row none there e inv i = cc
settled-Life cfg requeues db db' before after f now trigger run sent row (some r) there e inv i =
    elim (Bool-cases (r.attempt_count == f.snapshot_attempt)) [
      | inr other ↦
          subst
            (λ (d : ActionsDb).
              Life requeues (view_of (db.outbox.row i)) (view_of (d.outbox.row i)))
            (landed-db (rw other at e)) (unchanged (view_of (db.outbox.row i)))
      | inl same ↦
          let landed = outcome f.load sent in
          let error = attempt_error cfg f.load landed.1 in
          subst
            (λ (d : ActionsDb).
              Life requeues (view_of (db.outbox.row i)) (view_of (d.outbox.row i)))
            (landed-db (rw same at e))
            (modify-Life requeues db.outbox f.outbox_id
              (λ x. applied_row cfg now error landed.0 landed.1 r)
              (λ x here.
                attempted_row requeues cfg now error landed.0 landed.1 x r
                  (some_row (sym here ∙ there))
                  (alive-landing db before after f r there ((==_iff _ _).0 same) inv.flights))
              i)
    ]

requeue-Life :
    (requeues : Bool) (db db' : ActionsDb) (company : ℕ) (o : Option ActionOutbox)
    → requeues ≡ true
    → requeue_found company db o ≡ some db'
    → (i : ℕ) → Life requeues (view_of (db.outbox.row i)) (view_of (db'.outbox.row i))
requeue-Life requeues db db' company none allowed e i = cc
requeue-Life requeues db db' company (some r) allowed e i =
    elim (Bool-cases (is_webhook_of company r)) [
      | inl own ↦
          subst
            (λ (d : ActionsDb).
              Life requeues (view_of (db.outbox.row i)) (view_of (d.outbox.row i)))
            (some_db (rw own at e))
            (modify-Life requeues db.outbox r.id requeued
              (λ x there. queued_again x.status x.attempt_count allowed) i)
      | inr other ↦ cc (rw other at e)
    ]

insert-Life :
    (requeues : Bool) (t : Table ActionOutbox) (id : ℕ) (row : ActionOutbox)
    → t.row id ≡ none
    → row.status ≡ pending
    → row.attempt_count ≡ 0
    → (i : ℕ) → Life requeues (view_of (t.row i)) (view_of ((insert id row t).row i))
insert-Life requeues t id row unused new fresh i = elim (Bool-cases (id == i)) [
  | inl here ↦ rw (here, new, fresh, ap t.row (sym ((==_iff id i).0 here)) ∙ unused) created
  | inr away ↦ rw away (unchanged (view_of (t.row i)))
]

module _ (cfg : DeliverySettings) (requeues : Bool) where
  step-Life :
      {v w : Workers}
      → Move cfg requeues v w
      → Inv (λ r log. Unit) v
      → (i : ℕ) → Life requeues (view_at v i) (view_at w i)
  unfolding finish_delivery requeue_delivery delete_outbox
  step-Life (begin w id f e) inv i = unchanged (view_at w i)
  step-Life (finish db db' before after f now trigger run sent row e) inv i =
      settled-Life cfg requeues db db' before after f now trigger run sent row
        (db.outbox.row f.outbox_id) refl e inv i
  step-Life (give_up db before after f e) inv i = unchanged (view_of (db.outbox.row i))
  step-Life (claim w db' nulls_first busy now clock row e) inv i =
      let (old, c) = claim-IsClaimed cfg nulls_first busy now clock w.db db' row e in
      subst (λ (d : ActionsDb). Life requeues (view_at w i) (view_of (d.outbox.row i)))
        (sym c.saved)
        (modify-Life requeues w.db.outbox old.id (leased (now + cfg.lease_seconds) clock)
          (λ r there. unchanged (some (view r))) i)
  step-Life (release w id) inv i =
      modify-Life requeues w.db.outbox id unlocked (λ r there. unchanged (some (view r))) i
  step-Life (enqueue w now id company rule kind event_type envelope (unused, away)) inv i =
      insert-Life requeues w.db.outbox id _ unused refl refl i
  step-Life (requeue w db' company id allowed e) inv i =
      requeue-Life requeues w.db db' company (w.db.outbox.row id) allowed e i
  step-Life (delete_row w id) inv i = elim (Bool-cases (id == i)) [
    | inl here ↦ rw here (deleted (view_at w i))
    | inr other ↦ rw other (unchanged (view_at w i))
  ]

-- The outbox refines the life of a single row, seen by its status and its number of attempts: from
-- every state that the workers reach, whatever transaction comes next, each row keeps both, or is
-- created as pending without an attempt, or is deleted, or is attempted, or is queued again. Only a
-- row that is neither delivered nor dead is attempted: its number of attempts goes up by one and it
-- is then not pending. Only where re-queues are allowed does a row go back to pending, and it keeps
-- its number of attempts.
pub Move-Life :
    (cfg : DeliverySettings) (requeues : Bool) (rules : Table ActionRule) (v w : Workers)
    → Run cfg requeues (empty_outbox rules) v
    → Move cfg requeues v w
    → (i : ℕ) → Life requeues (view_at v i) (view_at w i)
Move-Life cfg requeues rules v w run m i =
    step-Life cfg requeues m
      (Run-Inv cfg requeues (λ r log. Unit) (always-IsKept cfg requeues) run
        (record { at = λ j. refl; flights = tt }))
      i
