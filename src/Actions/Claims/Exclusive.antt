-- ===== src/Actions/Claims/Exclusive.antt =====
-- The leases of the retry job.
use hosting_service.Base.{
  ℕ, ◌+◌, ◌≡◌, refl, sym, ap, subst, inl, inr, Bool, true, false, not, ◌&&◌, Option, none, some,
  List, [], ◌∷◌, arith, All, Bool-cases,
}
use hosting_service.Hosting.Models.{modify, filter_rows}
use hosting_service.Hosting.Apps.Ownership.{IsRow, selected-IsRow}
use hosting_service.Actions.Rows.{ActionOutbox}
use hosting_service.Actions.Delivery.{DeliverySettings, ActionsDb}
use hosting_service.Actions.Claims.{
  is_due, ordered_before, the_earlier, first_in_order, leased, with_lease,
  claim_next_pending_outbox,
}

same_row : {a b : ActionOutbox} → some a ≡ some b → a ≡ b
same_row h = cc

same_claim : {a b : ActionOutbox × ActionsDb} → some a ≡ some b → a ≡ b
same_claim h = cc

module _ {κ} (P : ActionOutbox → Type κ) where
  the_earlier-P :
      (nulls_first : Bool) (a r : ActionOutbox) (o : Option ActionOutbox)
      → P a
      → ((b : ActionOutbox) → o ≡ some b → P b)
      → the_earlier nulls_first a o ≡ some r
      → P r
  the_earlier-P nulls_first a r none p q e = subst P (same_row e) p
  the_earlier-P nulls_first a r (some b) p q e =
      elim (Bool-cases (ordered_before nulls_first a b)) [
        | inl first ↦ subst P (same_row (rw first at e)) p
        | inr second ↦ subst P (same_row (rw second at e)) (q b refl)
      ]

  first_in_order-P :
      (nulls_first : Bool) (rows : List ActionOutbox) (r : ActionOutbox)
      → All P rows
      → first_in_order nulls_first rows ≡ some r
      → P r
  unfolding first_in_order
  first_in_order-P nulls_first [] r h e = cc
  first_in_order-P nulls_first (a ∷ rows) r (p, h) e =
      the_earlier-P nulls_first a r (first_in_order nulls_first rows) p
        (λ b q. first_in_order-P nulls_first rows b h q) e

-- What a claim has read and written.
pub record IsClaimed (cfg : DeliverySettings) (busy : ℕ → Bool) (now clock : ℕ) (db db' : ActionsDb)
    (old row : ActionOutbox) : Type 0 where
  pub due : is_due now old ≡ true
  pub free : busy old.id ≡ false
  pub stored : (i : ℕ) × (db.outbox.row i ≡ some old)
  pub lease : row ≡ leased (now + cfg.lease_seconds) clock old
  pub saved :
      db' ≡ record db { outbox = modify old.id (leased (now + cfg.lease_seconds) clock) db.outbox }

with_lease-some :
    (until clock : ℕ) (db db' : ActionsDb) (o : Option ActionOutbox) (row : ActionOutbox)
    → with_lease until clock db o ≡ some (row, db')
    → (old : ActionOutbox) × (o ≡ some old)
      × (row ≡ leased until clock old)
      × (db' ≡ record db { outbox = modify old.id (leased until clock) db.outbox })
with_lease-some until clock db db' none row e = cc
with_lease-some until clock db db' (some old) row e =
    let same = same_claim e in (old, refl, sym (ap (λ p. p.0) same), sym (ap (λ p. p.1) same))

pub claim-IsClaimed :
    (cfg : DeliverySettings) (nulls_first : Bool) (busy : ℕ → Bool) (now clock : ℕ)
    (db db' : ActionsDb) (row : ActionOutbox)
    → claim_next_pending_outbox cfg nulls_first busy now clock db ≡ some (row, db')
    → (old : ActionOutbox) × IsClaimed cfg busy now clock db db' old row
unfolding claim_next_pending_outbox
claim-IsClaimed cfg nulls_first busy now clock db db' row e =
    let p = λ (r : ActionOutbox). is_due now r && not (busy r.id) in
    let (old, first, lease, saved) =
      with_lease-some (now + cfg.lease_seconds) clock db db' _ row e in
    let (passes, stored) =
      first_in_order-P (IsRow p db.outbox.row) nulls_first (filter_rows p db.outbox) old
        (selected-IsRow p db.outbox.row db.outbox.keys) first in
    (
      old,
      record {
        due = ground arith;
        free = ground arith;
        stored = stored;
        lease = lease;
        saved = saved;
      },
    )
