-- ===== src/Actions/Outbox/Bounded.antt =====
-- How often a row is attempted, where nobody re-queues it.
use hosting_service.Base.{
  ℕ, ◌+◌, ◌≤◌, ◌<◌, ◌≡◌, refl, sym, ap, subst, ◌∙◌, inl, inr, Bool, true, false, ◌||◌, Option, some,
  List, [], ◌∷◌, arith, Text, length, Bool-cases, if◌then◌else◌, ◌==◌, leb,
}
use hosting_service.Hosting.Models.{Table}
use hosting_service.Actions.Rows.{
  ActionRule, ActionOutbox, OutboxStatus, pending, delivered, failed, dead, DeliveryAttempt,
  Trigger,
}
use hosting_service.Actions.Delivery.{
  DeliverySettings, AttemptMeta, applied_row, new_attempt, is_terminal,
}
use hosting_service.Actions.Outbox.{Workers, Run, empty_outbox}
use hosting_service.Actions.Outbox.Invariant.{IsKept}
use hosting_service.Actions.Outbox.Kept.{reached-At}

-- How many attempts were delivered.
unfoldable pub successes : List DeliveryAttempt → ℕ
successes [] = 0
successes (a ∷ log) = if a.success then successes log + 1 else successes log

abbrev pub attempt_limit : DeliverySettings → ℕ
attempt_limit cfg = if cfg.max_attempts == 0 then 1 else cfg.max_attempts

abbrev delivered_count : OutboxStatus → ℕ
delivered_count delivered = 1
delivered_count _ = 0

record IsBounded (cfg : DeliverySettings) (r : ActionOutbox) (log : List DeliveryAttempt)
    : Type 0 where
  won : successes log ≡ delivered_count r.status
  counted : length log ≡ r.attempt_count
  tried : r.attempt_count ≤ attempt_limit cfg
  left : is_terminal r.status ≡ false → r.attempt_count < attempt_limit cfg

not_won : (s : OutboxStatus) → is_terminal s ≡ false → delivered_count s ≡ 0
not_won pending e = refl
not_won failed e = refl
not_won delivered e = cc
not_won dead e = refl

delivered_once : (s : OutboxStatus) → delivered_count s ≤ 1
delivered_once pending = omega arith
delivered_once failed = omega arith
delivered_once delivered = omega arith
delivered_once dead = omega arith

more_left :
    (cfg : DeliverySettings) (permanent : Bool) (n : ℕ)
    → (permanent || leb cfg.max_attempts (n + 1)) ≡ false
    → n + 1 < attempt_limit cfg
more_left cfg true n e = cc
more_left cfg false n e = ground arith

applied-IsBounded :
    (cfg : DeliverySettings) (now : ℕ) (trigger : Trigger) (run : Option ℕ) (error : Text)
    (success : Bool) (meta : AttemptMeta) (r : ActionOutbox) (log : List DeliveryAttempt)
    → is_terminal r.status ≡ false
    → IsBounded cfg r log
    → IsBounded cfg
        (applied_row cfg now error success meta r)
        (new_attempt trigger run error success meta r ∷ log)
unfolding applied_row successes
applied-IsBounded cfg now trigger run error true meta r log alive p =
    let none_won = p.won ∙ not_won r.status alive in
    let room = p.left alive in
    let count = p.counted in
    record {
      won = ap (λ n. n + 1) none_won;
      counted = omega arith;
      tried = omega arith;
      left = λ e. cc;
    }
applied-IsBounded cfg now trigger run error false meta r log alive p =
    let none_won = p.won ∙ not_won r.status alive in
    let room = p.left alive in
    let count = p.counted in
    elim (Bool-cases (meta.permanent || leb cfg.max_attempts (r.attempt_count + 1))) [
      | inl last ↦
          rw last
            (record { won = none_won; counted = omega arith; tried = omega arith; left = λ e. cc })
      | inr more ↦ rw more (record {
        won = none_won;
        counted = omega arith;
        tried = omega arith;
        left = λ e. more_left cfg meta.permanent r.attempt_count more;
      })
    ]

IsBounded-IsKept : (cfg : DeliverySettings) → IsKept cfg false (IsBounded cfg)
unfolding successes
IsBounded-IsKept cfg = record {
  applied = applied-IsBounded cfg;
  lease = λ until clock r log p. record {
    won = p.won;
    counted = p.counted;
    tried = p.tried;
    left = p.left;
  };
  unlock = λ r log p. record { won = p.won; counted = p.counted; tried = p.tried; left = p.left };
  requeue = λ r log allowed p. cc;
  fresh = λ now id company rule kind event_type envelope. record {
    won = refl;
    counted = refl;
    tried = ground arith;
    left = λ e. ground arith;
  };
}

-- However the workers interleave, while nobody re-queues a row it has at most one successful
-- attempt, and at most as many attempts as the settings allow (one, where they allow none).
pub attempts_bounded :
    (cfg : DeliverySettings) (rules : Table ActionRule) (w : Workers) (i : ℕ) (row : ActionOutbox)
    → Run cfg false (empty_outbox rules) w
    → w.db.outbox.row i ≡ some row
    → (successes (w.db.attempts i) ≤ 1) × (length (w.db.attempts i) ≤ attempt_limit cfg)
attempts_bounded cfg rules w i row run there =
    let p =
      (reached-At cfg false (IsBounded cfg) (IsBounded-IsKept cfg) rules w i row run there).1 in
    (
      subst (λ n. n ≤ 1) (sym p.won) (delivered_once row.status),
      subst (λ n. n ≤ attempt_limit cfg) (sym p.counted) p.tried,
    )
