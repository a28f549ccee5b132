-- ===== src/Actions/Delivery/Retries.antt =====
-- Calls of deliver_outbox_row on one row, one after the other.
use hosting_service.Base.{
  ℕ, ◌+◌, ◌≤◌, ◌≡◌, ◌≢◌, refl, sym, ◌∙◌, inl, inr, true, some, List, [], ◌∷◌, arith, length, Result,
  ok, ◌>>=◌,
}
use hosting_service.Actions.Rows.{ActionOutbox}
use hosting_service.Actions.Delivery.{
  DeliverySettings, ActionsDb, rule_missing, load_rule_for_delivery, begin_delivery, is_terminal,
}
use hosting_service.Actions.Delivery.Whole.{
  Raised, Call, deliver_outbox_row, deliver_outbox_row_lem,
}

unfoldable pub deliver_each : DeliverySettings → List Call → ℕ → ActionsDb → Result Raised ActionsDb
deliver_each cfg [] id db = ok db
deliver_each cfg (call ∷ calls) id db =
    deliver_outbox_row cfg call id db >>= (λ done. deliver_each cfg calls id done.0)

terminal_row :
    (cfg : DeliverySettings) (call : Call) (id : ℕ) (db : ActionsDb) (r : ActionOutbox)
    → db.outbox.row id ≡ some r
    → is_terminal r.status ≡ true
    → deliver_outbox_row cfg call id db ≡ ok (db, some r)
unfolding deliver_outbox_row begin_delivery
terminal_row cfg call id db r there over = rw (there, over) refl

terminal_stays :
    (cfg : DeliverySettings) (calls : List Call) (id : ℕ) (db : ActionsDb) (r : ActionOutbox)
    → db.outbox.row id ≡ some r
    → is_terminal r.status ≡ true
    → deliver_each cfg calls id db ≡ ok db
unfolding deliver_each
terminal_stays cfg [] id db r there over = refl
terminal_stays cfg (call ∷ calls) id db r there over =
    rw (terminal_row cfg call id db r there over) (terminal_stays cfg calls id db r there over)

-- A row comes to an end: called often enough on a row whose rule can be looked up, with any
-- outcomes, deliver_outbox_row returns each time and leaves it delivered or dead. Often enough is
-- once, and as often as attempts are left.
pub deliver_each_terminates :
    (cfg : DeliverySettings) (calls : List Call) (id : ℕ) (db : ActionsDb) (r : ActionOutbox)
    → db.outbox.row id ≡ some r
    → r.id ≡ id
    → load_rule_for_delivery db.rules r ≢ rule_missing
    → 1 ≤ length calls
    → cfg.max_attempts ≤ r.attempt_count + length calls
    → (db' : ActionsDb) × (r' : ActionOutbox) × (deliver_each cfg calls id db ≡ ok db')
      × (db'.outbox.row id ≡ some r')
      × (is_terminal r'.status ≡ true)
unfolding deliver_each
deliver_each_terminates cfg [] id db r there own ready once enough = absurd (omega arith)
deliver_each_terminates cfg (call ∷ calls) id db r there own ready once enough =
    let (db1, r1, run, d) = deliver_outbox_row_lem cfg call id db r there own ready in
    elim d.closer [
      | inl over ↦
          (db1, r1, rw run (terminal_stays cfg calls id db1 r1 d.stored over), d.stored, over)
      | inr (count, less) ↦
          let (db2, r2, rest, stored, over) =
            deliver_each_terminates cfg calls id db1 r1 d.stored (d.own ∙ own)
              (λ e. ready (sym d.rule ∙ e)) (omega arith) (omega arith) in
          (db2, r2, rw run rest, stored, over)
    ]
