-- ===== src/Actions/Outbox/Flights.antt =====
-- Deliveries between their two transactions.
use hosting_service.Base.{
  ℕ, ◌+◌, ◌≡◌, ◌≢◌, refl, sym, ap, subst, inl, inr, Bool, true, false, ◌||◌, Option, none, some,
  List, [], ◌∷◌, ◌++◌, arith, Text, All, All-one, Bool-cases, ==_iff, if◌then◌else◌, ◌==◌, leb,
  Result, ok,
}
use hosting_service.Hosting.Models.{Table, insert}
use hosting_service.Actions.Rows.{ActionRule, ActionOutbox, DeliveryAttempt}
use hosting_service.Actions.Delivery.{
  DeliverySettings, ActionsDb, Flight, AttemptMeta, RuleLoad, no_rule, rule_missing, terminal,
  loaded, flying, begun, in_flight, load_rule_for_delivery, applied_row, add_attempt, is_terminal,
  DoesNotExist,
}
use hosting_service.Actions.Outbox.{requeued}
use hosting_service.Actions.Outbox.Invariant.{FlightOk, At}

pub same_flight : {a b : Flight} → flying a ≡ flying b → a ≡ b
same_flight h = cc

pub some-injective : {A : Type 0} {a b : A} → some a ≡ some b → a ≡ b
some-injective h = cc

pub same_row : {a b : ActionOutbox} → some a ≡ some b → a ≡ b
same_row h = cc

pub in_flight-flying :
    (r : ActionOutbox) (load : RuleLoad) (f : Flight)
    → in_flight r load ≡ flying f
    → (f.outbox_id ≡ r.id) × (f.snapshot_attempt ≡ r.attempt_count)
in_flight-flying r rule_missing f h = cc
in_flight-flying r no_rule f h = (
  sym (ap (λ x. x.outbox_id) (same_flight h)),
  sym (ap (λ x. x.snapshot_attempt) (same_flight h)),
)
in_flight-flying r (terminal e) f h = (
  sym (ap (λ x. x.outbox_id) (same_flight h)),
  sym (ap (λ x. x.snapshot_attempt) (same_flight h)),
)
in_flight-flying r (loaded rule) f h = (
  sym (ap (λ x. x.outbox_id) (same_flight h)),
  sym (ap (λ x. x.snapshot_attempt) (same_flight h)),
)

pub begun-flying :
    (rules : Table ActionRule) (o : Option ActionOutbox) (f : Flight)
    → begun rules o ≡ flying f
    → (r : ActionOutbox) × (o ≡ some r)
      × (f.outbox_id ≡ r.id)
      × (f.snapshot_attempt ≡ r.attempt_count)
      × (is_terminal r.status ≡ false)
begun-flying rules none f h = cc
begun-flying rules (some r) f h = elim (Bool-cases (is_terminal r.status)) [
  | inl over ↦ cc (rw over at h)
  | inr alive ↦
      let (id, count) = in_flight-flying r (load_rule_for_delivery rules r) f (rw alive at h) in
      (r, refl, id, count, alive)
]

pub attempt_count-applied_row :
    (cfg : DeliverySettings) (now : ℕ) (error : Text) (success : Bool) (meta : AttemptMeta)
    (r : ActionOutbox)
    → ((applied_row cfg now error success meta r).attempt_count ≡ r.attempt_count + 1)
      × ((applied_row cfg now error success meta r).id ≡ r.id)
unfolding applied_row
attempt_count-applied_row cfg now error true meta r = (refl, refl)
attempt_count-applied_row cfg now error false meta r =
    elim (Bool-cases (meta.permanent || leb cfg.max_attempts (r.attempt_count + 1))) [
      | inl last ↦ rw last (refl, refl)
      | inr more ↦ rw more (refl, refl)
    ]

pub alive-landing :
    (db : ActionsDb) (before after : List Flight) (f : Flight) (r : ActionOutbox)
    → db.outbox.row f.outbox_id ≡ some r
    → r.attempt_count ≡ f.snapshot_attempt
    → All (λ (g : Flight). FlightOk (db.outbox.row g.outbox_id) g) (before ++ f ∷ after)
    → is_terminal r.status ≡ false
alive-landing db before after f r there same flights =
    elim (subst (λ o. FlightOk o f) there
      (All-one (λ (g : Flight). FlightOk (db.outbox.row g.outbox_id) g) before after f flights)) [
        | inl old ↦ absurd (omega arith)
        | inr (count, alive) ↦ alive
      ]

pub away-At :
    (P : ActionOutbox → List DeliveryAttempt → Type 0) (attempts : ℕ → List DeliveryAttempt)
    (k i : ℕ) (a : DeliveryAttempt) (o : Option ActionOutbox)
    → (k == i) ≡ false
    → At P attempts i o
    → At P (add_attempt k a attempts) i o
away-At P attempts k i a none away q = rw away q
away-At P attempts k i a (some r) away q = rw away q

pub landed-FlightOk :
    (g : Flight) (x r r' : ActionOutbox)
    → x ≡ r
    → r'.attempt_count ≡ r.attempt_count + 1
    → FlightOk (some x) g
    → FlightOk (some r') g
landed-FlightOk g x r r' same count q =
    let counts = ap (λ y. y.attempt_count) same in
    elim q [ inl late ↦ inl (omega arith) | inr (now, alive) ↦ inl (omega arith) ]

pub requeued-FlightOk :
    (r : ActionOutbox) (g : Flight) → FlightOk (some r) g → FlightOk (some (requeued r)) g
requeued-FlightOk r g (inl late) = inl late
requeued-FlightOk r g (inr (now, alive)) = inr (now, refl)

pub away-cut :
    (P : ActionOutbox → List DeliveryAttempt → Type 0) (attempts : ℕ → List DeliveryAttempt)
    (k i : ℕ) (o : Option ActionOutbox)
    → (k == i) ≡ false
    → At P attempts i o
    → At P (λ j. if k == j then [] else attempts j) i o
away-cut P attempts k i none away q = rw away q
away-cut P attempts k i (some r) away q = rw away q

pub cut_log :
    (k i : ℕ) (log : List DeliveryAttempt) → (k == i) ≡ true → (if k == i then [] else log) ≡ []
cut_log k i log here = rw here refl

pub not_same : (a b : ℕ) → b ≢ a → (a == b) ≡ false
not_same a b n = elim (Bool-cases (a == b)) [
  | inl same ↦ absurd (n (sym ((==_iff a b).0 same)))
  | inr other ↦ other
]

pub landed-db :
    {d d' : ActionsDb} {r r' : ActionOutbox}
    → Path (Result DoesNotExist (ActionsDb × ActionOutbox)) (ok (d, r)) (ok (d', r'))
    → d ≡ d'
landed-db h = cc

pub new-flights :
    (t : Table ActionOutbox) (id : ℕ) (row : ActionOutbox) (flights : List Flight)
    → All (λ (f : Flight). f.outbox_id ≢ id) flights
    → All (λ (f : Flight). FlightOk (t.row f.outbox_id) f) flights
    → All (λ (f : Flight). FlightOk ((insert id row t).row f.outbox_id) f) flights
new-flights t id row [] away fine = tt
new-flights t id row (f ∷ flights) (n, away) (q, fine) =
    (rw (not_same id f.outbox_id n) q, new-flights t id row flights away fine)
