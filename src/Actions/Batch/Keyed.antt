-- ===== src/Actions/Batch/Keyed.antt =====
-- Outboxes whose rows stand under their keys, and deliveries on them.
use hosting_service.Base.{
  ℕ, ◌≡◌, ◌≢◌, refl, sym, ap, subst, ◌∙◌, ◌⊎◌, inl, inr, true, false, Option, none, some,
  Bool-cases, ==_iff, ◌==◌, ok, ok-injective,
}
use hosting_service.Hosting.Models.{modify, change}
use hosting_service.Actions.Rows.{ActionOutbox, OutboxStatus, pending, delivered, failed, dead}
use hosting_service.Actions.Delivery.{
  DeliverySettings, ActionsDb, RuleLoad, no_rule, rule_missing, terminal, loaded,
  load_rule_for_delivery, begin_delivery, is_terminal,
}
use hosting_service.Actions.Delivery.Whole.{
  Call, deliver_outbox_row, IsDelivered, deliver_outbox_row_lem,
}
use hosting_service.Actions.Claims.{is_due, is_retryable}

-- Every row stands under its own key.
abbrev pub IsKeyed : ActionsDb → Type 0
IsKeyed db = (i : ℕ) (r : ActionOutbox) → db.outbox.row i ≡ some r → r.id ≡ i

pub same_row : {a b : ActionOutbox} → some a ≡ some b → a ≡ b
same_row h = cc

pub changed_row :
    (g : ActionOutbox → ActionOutbox) (r : ActionOutbox) (o : Option ActionOutbox)
    → change g o ≡ some r
    → (was : ActionOutbox) × (o ≡ some was) × (r ≡ g was)
changed_row g r none e = cc
changed_row g r (some was) e = (was, refl, sym (same_row e))

pub modify-IsKeyed :
    (db : ActionsDb) (k : ℕ) (g : ActionOutbox → ActionOutbox)
    → ((r : ActionOutbox) → (g r).id ≡ r.id)
    → IsKeyed db
    → IsKeyed (record db { outbox = modify k g db.outbox })
modify-IsKeyed db k g ids keyed i r e = elim (Bool-cases (k == i)) [
  | inl here ↦
      let (was, there, same) = changed_row g r (db.outbox.row i) (rw here at e) in
      ap (λ x. x.id) same ∙ ids was ∙ keyed i was there
  | inr away ↦ keyed i r (rw away at e)
]

pub IsDelivered-IsKeyed :
    (cfg : DeliverySettings) (id : ℕ) (db db' : ActionsDb) (r r' : ActionOutbox)
    → r.id ≡ id
    → IsDelivered cfg id db r db' r'
    → IsKeyed db
    → IsKeyed db'
IsDelivered-IsKeyed cfg id db db' r r' own d keyed i x e = elim (Bool-cases (id == i)) [
  | inl here ↦
      let same = (==_iff id i).0 here in
      ap (λ y. y.id) (same_row (sym e ∙ ap db'.outbox.row (sym same) ∙ d.stored))
      ∙ d.own
      ∙ own
      ∙ same
  | inr away ↦ keyed i x (sym (d.others i away) ∙ e)
]

pub missing_or_not : (l : RuleLoad) → (l ≡ rule_missing) ⊎ (l ≢ rule_missing)
missing_or_not rule_missing = inl refl
missing_or_not no_rule = inr (λ e. cc)
missing_or_not (terminal x) = inr (λ e. cc)
missing_or_not (loaded x) = inr (λ e. cc)

pub retry_alive : (s : OutboxStatus) → is_retryable s ≡ true → is_terminal s ≡ false
retry_alive pending e = refl
retry_alive failed e = refl
retry_alive delivered e = cc
retry_alive dead e = cc

pub due_retryable :
    (now : ℕ) (r : ActionOutbox) → is_due now r ≡ true → is_retryable r.status ≡ true
unfolding is_due
due_retryable now r due = elim (Bool-cases (is_retryable r.status)) [
  | inl pass ↦ pass
  | inr over ↦ cc (rw over at due)
]

-- Where a delivery of a stored row returns, it returns the row.
pub returned_row :
    (cfg : DeliverySettings) (call : Call) (id : ℕ) (db db' : ActionsDb) (r : ActionOutbox)
    (after : Option ActionOutbox)
    → db.outbox.row id ≡ some r
    → is_terminal r.status ≡ false
    → IsKeyed db
    → deliver_outbox_row cfg call id db ≡ ok (db', after)
    → IsKeyed db' × (r' : ActionOutbox) × (after ≡ some r')
unfolding deliver_outbox_row begin_delivery
returned_row cfg call id db db' r after there alive keyed e =
    elim (missing_or_not (load_rule_for_delivery db.rules r)) [
      | inl missing ↦ cc (rw (there, alive, missing) at e)
      | inr ready ↦
          let (db1, r1, run, d) =
            deliver_outbox_row_lem cfg call id db r there (keyed id r there) ready in
          let same = ok-injective (db', after) (db1, some r1) (sym e ∙ run) in
          (
            subst IsKeyed (sym (ap (λ x. x.0) same))
                (IsDelivered-IsKeyed cfg id db db1 r r1 (keyed id r there) d keyed),
            r1,
            ap (λ x. x.1) same,
          )
    ]
