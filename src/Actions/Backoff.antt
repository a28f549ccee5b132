-- ===== src/Actions/Backoff.antt =====
-- apps/actions/webhook_retry.py, and the exponential backoff of apps/actions/delivery.py.
use hosting_service.Base.{
  Bool-cases, ==_iff, inl, inr, ◌⊎◌, ap, ◌∙◌, refl, ℕ, zero, suc, ◌*◌, ◌-◌, ◌≤◌, ◌≡◌, Bool, true,
  false, ◌&&◌, ◌||◌, Option, none, some, List, [], ◌∷◌, arith, if◌then◌else◌, ◌==◌, leb, ltb,
}

-- PERMANENT_HTTP_STATUSES and RETRYABLE_HTTP_STATUSES
abbrev pub is_member : ℕ → List ℕ → Bool
is_member n [] = false
is_member n (m ∷ ms) = n == m || is_member n ms

abbrev pub permanent_statuses : List ℕ
permanent_statuses = 400 ∷ 401 ∷ 403 ∷ 405 ∷ 410 ∷ 413 ∷ 422 ∷ []

abbrev pub retryable_statuses : List ℕ
retryable_statuses = 404 ∷ 408 ∷ 409 ∷ 425 ∷ 429 ∷ []

unfoldable pub is_permanent_http_status : Option ℕ → Bool
is_permanent_http_status none = false
is_permanent_http_status (some status) =
    if is_member status permanent_statuses
    then true
    else if is_member status retryable_statuses
    then false
    else if leb 500 status && ltb status 600
    then false
    else if leb 400 status && ltb status 500
    then false
    else false

abbrev pub max_backoff_seconds : ℕ
max_backoff_seconds = 3600

abbrev pub min : ℕ → ℕ → ℕ
min a b = if leb a b then a else b

abbrev pub max : ℕ → ℕ → ℕ
max a b = if leb a b then b else a

abbrev pub power_of_two : ℕ → ℕ
power_of_two zero = 1
power_of_two (suc n) = 2 * power_of_two n

-- `min(3600, 30 * (2 ** max(0, attempt_number - 1)))`
unfoldable pub backoff_seconds : ℕ → ℕ
backoff_seconds attempt_number = min 3600 (30 * power_of_two (attempt_number - 1))

abbrev pub asks_to_wait : Option ℕ → Bool
asks_to_wait none = false
asks_to_wait (some status) = status == 429 || status == 503

abbrev pub at_least : Option ℕ → ℕ → ℕ
at_least none delay = delay
at_least (some seconds) delay = max delay seconds

unfoldable pub compute_retry_delay_seconds : Option ℕ → Option ℕ → ℕ → ℕ
compute_retry_delay_seconds http_status retry_after_seconds base_backoff_seconds =
    let delay =
      if asks_to_wait http_status
      then at_least retry_after_seconds base_backoff_seconds
      else base_backoff_seconds in
    min max_backoff_seconds (max 1 delay)

power-le : (n : ℕ) → 1 ≤ power_of_two n
power-le zero = omega arith
power-le (suc n) = omega (arith, power-le n)

-- The last step, on any delay.
abbrev clamp : ℕ → ℕ
clamp d = min max_backoff_seconds (max 1 d)

clamp_bounds : (d : ℕ) → (1 ≤ clamp d) × (clamp d ≤ 3600)
clamp_bounds d = ground arith

clamp_asked : (b s : ℕ) → min 3600 s ≤ clamp (max b s)
clamp_asked b s = ground arith

clamp_mono : (a b : ℕ) → a ≤ b → clamp a ≤ clamp b
clamp_mono a b h = ground arith

min_mono : (a b : ℕ) → a ≤ b → min 3600 a ≤ min 3600 b
min_mono a b h = ground arith

backoff_mono : (n : ℕ) → backoff_seconds n ≤ backoff_seconds (suc n)
unfolding backoff_seconds
backoff_mono zero = omega arith
backoff_mono (suc n) =
    let here : suc n - 1 ≡ n = omega arith in
    let next : suc (suc n) - 1 ≡ suc n = omega arith in
    rw (here, next)
      (min_mono (30 * power_of_two n) (30 * power_of_two (suc n)) (omega (arith, power-le n)))

clamp_least : (b d : ℕ) → b ≤ 3600 → b ≤ d → b ≤ clamp d
clamp_least b d h k = ground arith

backoff_bounds : (n : ℕ) → (30 ≤ backoff_seconds n) × (backoff_seconds n ≤ 3600)
unfolding backoff_seconds
backoff_bounds n = ground (arith, power-le (n - 1))

-- The delay before the last step.
abbrev asked : Option ℕ → Option ℕ → ℕ → ℕ
asked status after b = if asks_to_wait status then at_least after b else b

asked_least : (status after : Option ℕ) (b : ℕ) → b ≤ asked status after b
asked_least none after b = omega arith
asked_least (some status) none b = ground arith
asked_least (some status) (some seconds) b = ground arith

asked_mono :
    (status after : Option ℕ) (a b : ℕ) → a ≤ b → asked status after a ≤ asked status after b
asked_mono none after a b h = h
asked_mono (some status) none a b h = ground arith
asked_mono (some status) (some seconds) a b h = ground arith

asked_other :
    (status after : Option ℕ) (b : ℕ)
    → (asked status after b ≡ b) ⊎ (status ≡ some 429) ⊎ (status ≡ some 503)
asked_other none after b = inl refl
asked_other (some status) after b = elim (Bool-cases (status == 429)) [
  | inl rate ↦ inr (inl (ap some ((==_iff status 429).0 rate)))
  | inr other ↦ elim (Bool-cases (status == 503)) [
    | inl busy ↦ inr (inr (ap some ((==_iff status 503).0 busy)))
    | inr neither ↦ inl (rw (other, neither) refl)
  ]
]

clamp_same : (b : ℕ) → 30 ≤ b → b ≤ 3600 → clamp b ≡ b
clamp_same b h k = ground arith

-- The wait before a retry, after any response or none, is between half a minute and an hour and
-- not shorter than the backoff of the attempt; it does not get shorter from one attempt to the
-- next; within the hour it is as long as a 429 or 503 response asks in its Retry-After; and after
-- any other status, or none, it is the backoff itself, whatever Retry-After says.
pub compute_retry_delay_seconds_lem :
    (status after : Option ℕ) (s n : ℕ)
    → (30 ≤ compute_retry_delay_seconds status after (backoff_seconds n))
      × (compute_retry_delay_seconds status after (backoff_seconds n) ≤ 3600)
      × (backoff_seconds n ≤ compute_retry_delay_seconds status after (backoff_seconds n))
      × (compute_retry_delay_seconds status after (backoff_seconds n)
          ≤ compute_retry_delay_seconds status after (backoff_seconds (suc n)))
      × (min 3600 s ≤ compute_retry_delay_seconds (some 503) (some s) (backoff_seconds n))
      × (min 3600 s ≤ compute_retry_delay_seconds (some 429) (some s) (backoff_seconds n))
      × ((compute_retry_delay_seconds status after (backoff_seconds n) ≡ backoff_seconds n)
          ⊎ (status ≡ some 429)
          ⊎ (status ≡ some 503))
unfolding compute_retry_delay_seconds
compute_retry_delay_seconds_lem status after s n =
    let b = backoff_seconds n in
    let (half, hour) = backoff_bounds n in
    let least = clamp_least b (asked status after b) hour (asked_least status after b) in
    (
      omega (arith, half, least),
      (clamp_bounds (asked status after b)).1,
      least,
      clamp_mono (asked status after b) (asked status after (backoff_seconds (suc n)))
          (asked_mono status after b (backoff_seconds (suc n)) (backoff_mono n)),
      clamp_asked b s,
      clamp_asked b s,
      elim (asked_other status after b) [
        | inl same ↦ inl (ap clamp same ∙ clamp_same b half hour)
        | inr other ↦ inr other
      ],
    )
