-- ===== src/Actions/Outbox/Invariant.antt =====
-- An invariant of the outbox and of the deliveries in flight, for any property of a row and its attempts.
use hosting_service.Base.{
  ℕ, ◌<◌, ◌≡◌, refl, sym, subst, ◌⊎◌, inl, inr, Bool, true, false, Option, none, some, List, [],
  ◌∷◌, Text, All, Bool-cases, ==_iff, ◌==◌,
}
use hosting_service.Hosting.Models.{Table, modify, change}
use hosting_service.Actions.Values.{Fields}
use hosting_service.Actions.Rows.{ActionOutbox, DeliveryKind, DeliveryAttempt, Trigger}
use hosting_service.Actions.Delivery.{
  DeliverySettings, Flight, AttemptMeta, applied_row, new_attempt, is_terminal,
}
use hosting_service.Actions.Claims.{leased, unlocked}
use hosting_service.Actions.Outbox.{new_outbox, requeued, Workers}

-- A row, or its absence, after the row number k was modified.
module _ {κ} {A : Type 0} (Q Q' : ℕ → Option A → Type κ) (k : ℕ) (g : A → A) (t : Table A)
    (hit : (r : A) → t.row k ≡ some r → Q k (some r) → Q' k (some (g r)))
    (absent : t.row k ≡ none → Q k none → Q' k none)
    (miss : (j : ℕ) (o : Option A) → (k == j) ≡ false → Q j o → Q' j o) where
  changed : (o : Option A) → t.row k ≡ o → Q k o → Q' k (change g o)
  changed none e q = absent e q
  changed (some r) e q = hit r e q

  pub after_modify : (j : ℕ) → Q j (t.row j) → Q' j ((modify k g t).row j)
  after_modify j q = elim (Bool-cases (k == j)) [
    | inl here ↦
        let same = (==_iff k j).0 here in
        subst (λ i. Q' i ((modify k g t).row i)) same
          (rw ((==_iff k k).1 refl)
            (changed (t.row k) refl (subst (λ i. Q i (t.row i)) (sym same) q)))
    | inr away ↦ rw away (miss j (t.row j) away q)
  ]

-- A flight may still count: its row was not attempted since, and is not settled.
abbrev pub FlightOk : Option ActionOutbox → Flight → Type 0
FlightOk none f = Unit
FlightOk (some r) f =
    (f.snapshot_attempt < r.attempt_count)
    ⊎ ((f.snapshot_attempt ≡ r.attempt_count) × (is_terminal r.status ≡ false))

abbrev pub At :
    (ActionOutbox → List DeliveryAttempt → Type 0)
    → (ℕ → List DeliveryAttempt)
    → ℕ
    → Option ActionOutbox
    → Type 0
At P attempts i none = attempts i ≡ []
At P attempts i (some r) = (r.id ≡ i) × P r (attempts i)

pub record Inv (P : ActionOutbox → List DeliveryAttempt → Type 0) (w : Workers) : Type 0 where
  pub at : (i : ℕ) → At P w.db.attempts i (w.db.outbox.row i)
  pub flights : All (λ (f : Flight). FlightOk (w.db.outbox.row f.outbox_id) f) w.flights

-- What a property of rows must survive.
pub record IsKept (cfg : DeliverySettings) (requeues : Bool)
    (P : ActionOutbox → List DeliveryAttempt → Type 0) : Type 0 where
  pub applied :
      (now : ℕ) (trigger : Trigger) (run : Option ℕ) (error : Text) (success : Bool)
      (meta : AttemptMeta) (r : ActionOutbox) (log : List DeliveryAttempt)
      → is_terminal r.status ≡ false
      → P r log
      → P
          (applied_row cfg now error success meta r)
          (new_attempt trigger run error success meta r ∷ log)
  pub lease :
      (until clock : ℕ) (r : ActionOutbox) (log : List DeliveryAttempt)
      → P r log
      → P (leased until clock r) log
  pub unlock : (r : ActionOutbox) (log : List DeliveryAttempt) → P r log → P (unlocked r) log
  pub requeue :
      (r : ActionOutbox) (log : List DeliveryAttempt)
      → requeues ≡ true
      → P r log
      → P (requeued r) log
  pub fresh :
      (now id company : ℕ) (rule : Option ℕ) (kind : DeliveryKind) (event_type : Text)
      (envelope : Fields)
      → P (new_outbox now id company rule kind event_type envelope) []
