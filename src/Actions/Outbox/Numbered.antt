-- ===== src/Actions/Outbox/Numbered.antt =====
-- The numbers of the attempts of a row, under any interleaving of the workers.
use hosting_service.Base.{
  ℕ, zero, suc, ◌+◌, ◌≡◌, refl, sym, ap, subst, ◌∙◌, Bool, some, List, [], ◌∷◌, map, arith,
}
use hosting_service.Hosting.Models.{Table}
use hosting_service.Actions.Rows.{ActionRule, ActionOutbox, DeliveryAttempt}
use hosting_service.Actions.Delivery.{DeliverySettings}
use hosting_service.Actions.Outbox.{Workers, Run, empty_outbox}
use hosting_service.Actions.Outbox.Invariant.{IsKept}
use hosting_service.Actions.Outbox.Flights.{attempt_count-applied_row}
use hosting_service.Actions.Outbox.Kept.{reached-At}

-- The numbers from one to `n`, the latest first.
unfoldable pub countdown : ℕ → List ℕ
countdown zero = []
countdown (suc n) = suc n ∷ countdown n

abbrev pub numbers : List DeliveryAttempt → List ℕ
numbers log = map (λ a. a.attempt_number) log

abbrev IsNumbered : ActionOutbox → List DeliveryAttempt → Type 0
IsNumbered r log = numbers log ≡ countdown r.attempt_count

one_more : (n : ℕ) → suc n ≡ n + 1
one_more n = omega arith

countdown-suc : (n : ℕ) → countdown (n + 1) ≡ (n + 1) ∷ countdown n
unfolding countdown
countdown-suc n = subst (λ m. countdown m ≡ m ∷ countdown n) (one_more n) refl

IsNumbered-IsKept : (cfg : DeliverySettings) (requeues : Bool) → IsKept cfg requeues IsNumbered
unfolding countdown
IsNumbered-IsKept cfg requeues = record {
  applied = λ now trigger run error success meta r log alive p.
      ap (λ l. (r.attempt_count + 1) ∷ l) p
      ∙ sym (countdown-suc r.attempt_count)
      ∙ sym (ap countdown (attempt_count-applied_row cfg now error success meta r).0);
  lease = λ until clock r log p. p;
  unlock = λ r log p. p;
  requeue = λ r log allowed p. p;
  fresh = λ now id company rule kind event_type envelope. refl;
}

-- Whatever a run of workers, claims, re-queues and deletions did to the outbox, the attempts
-- stored for a row of it are numbered one by one up to the row's `attempt_count`.
pub attempts_numbered :
    (cfg : DeliverySettings) (requeues : Bool) (rules : Table ActionRule) (w : Workers) (i : ℕ)
    (row : ActionOutbox)
    → Run cfg requeues (empty_outbox rules) w
    → w.db.outbox.row i ≡ some row
    → numbers (w.db.attempts i) ≡ countdown row.attempt_count
attempts_numbered cfg requeues rules w i row run there =
    (reached-At cfg requeues IsNumbered (IsNumbered-IsKept cfg requeues) rules w i row run there).1
