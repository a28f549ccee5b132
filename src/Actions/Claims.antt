-- ===== src/Actions/Claims.antt =====
-- The retry job of apps/actions/delivery.py: which rows are due, and how one is claimed.
use hosting_service.Base.{
  ℕ, ◌+◌, Bool, true, false, not, ◌&&◌, ◌||◌, Option, none, some, List, [], ◌∷◌, if◌then◌else◌, leb,
  ltb,
}
use hosting_service.Hosting.Models.{Table, modify, filter_rows}
use hosting_service.Actions.Rows.{ActionOutbox, OutboxStatus, pending, failed, delivered, dead}
use hosting_service.Actions.Delivery.{DeliverySettings, ActionsDb}
pub mod Exclusive

abbrev pub is_retryable : OutboxStatus → Bool
is_retryable pending = true
is_retryable failed = true
is_retryable _ = false

-- `Q(field__isnull=True) | Q(field__lte=now)`
abbrev pub has_passed : ℕ → Option ℕ → Bool
has_passed now none = true
has_passed now (some t) = leb t now

-- `_pending_outbox_filter`
unfoldable pub is_due : ℕ → ActionOutbox → Bool
is_due now row =
    is_retryable row.status && has_passed now row.next_attempt_at && has_passed now row.locked_until

-- The order of the times, where the database says on which side NULL stands.
abbrev pub time_before : Bool → Option ℕ → Option ℕ → Bool
time_before nulls_first none none = false
time_before nulls_first none (some b) = nulls_first
time_before nulls_first (some a) none = not nulls_first
time_before nulls_first (some a) (some b) = ltb a b

-- `order_by('next_attempt_at', 'created_at')`
abbrev pub ordered_before : Bool → ActionOutbox → ActionOutbox → Bool
ordered_before nulls_first a b =
    time_before nulls_first a.next_attempt_at b.next_attempt_at
    || not (time_before nulls_first b.next_attempt_at a.next_attempt_at)
      && leb a.created_at b.created_at

abbrev pub the_earlier : Bool → ActionOutbox → Option ActionOutbox → Option ActionOutbox
the_earlier nulls_first a none = some a
the_earlier nulls_first a (some b) = if ordered_before nulls_first a b then some a else some b

unfoldable pub first_in_order : Bool → List ActionOutbox → Option ActionOutbox
first_in_order nulls_first [] = none
first_in_order nulls_first (a ∷ rest) = the_earlier nulls_first a (first_in_order nulls_first rest)

abbrev pub leased : ℕ → ℕ → ActionOutbox → ActionOutbox
leased until clock row = record row { locked_until = some until; updated_at = clock }

abbrev pub with_lease : ℕ → ℕ → ActionsDb → Option ActionOutbox → Option (ActionOutbox × ActionsDb)
with_lease until clock db none = none
with_lease until clock db (some row) =
    some
      (leased until clock row, record db { outbox = modify row.id (leased until clock) db.outbox })

-- `busy` tells which rows other transactions have locked: they are skipped.
unfoldable pub claim_next_pending_outbox :
    DeliverySettings → Bool → (ℕ → Bool) → ℕ → ℕ → ActionsDb → Option (ActionOutbox × ActionsDb)
claim_next_pending_outbox cfg nulls_first busy now clock db =
    with_lease (now + cfg.lease_seconds) clock db (
      first_in_order nulls_first
        (filter_rows (λ row. is_due now row && not (busy row.id)) db.outbox))

-- The dry run gives its lease back.
abbrev pub unlocked : ActionOutbox → ActionOutbox
unlocked row = record row { locked_until = none }

abbrev pub unlock : ℕ → ActionsDb → ActionsDb
unlock id db = record db { outbox = modify id unlocked db.outbox }
