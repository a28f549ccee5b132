-- ===== src/Actions/Outbox.antt =====
-- The outbox of apps/actions under all its workers: every transaction on it as a step.
use hosting_service.Base.{
  ℕ, ◌+◌, ◌≡◌, ◌≢◌, Bool, true, false, Option, none, some, List, [], ◌∷◌, ◌++◌, Text, All,
  if◌then◌else◌, ◌==◌, ok,
}
use hosting_service.Hosting.Models.{Table, modify, insert, remove, no_rows}
use hosting_service.Actions.Values.{Fields}
use hosting_service.Actions.Rows.{
  ActionRule, ActionOutbox, OutboxStatus, pending, DeliveryKind, webhook, email, DeliveryAttempt,
  Trigger,
}
use hosting_service.Actions.Delivery.{
  DeliverySettings, ActionsDb, Flight, AttemptMeta, Begun, flying, begin_delivery, finish_delivery,
  DoesNotExist,
}
use hosting_service.Actions.Claims.{claim_next_pending_outbox, unlock}
mod Invariant
mod Flights
mod Kept
pub mod Numbered
pub mod Bounded
pub mod Lifecycle
pub mod Leases

-- `ActionOutbox.objects.create` in apps/actions/emit.py and apps/actions/email_service.py
abbrev pub new_outbox : ℕ → ℕ → ℕ → Option ℕ → DeliveryKind → Text → Fields → ActionOutbox
new_outbox now id company rule kind event_type envelope = record {
  id = id;
  company_id = company;
  action_rule = rule;
  delivery_kind = kind;
  event_type = event_type;
  envelope = envelope;
  status = pending;
  attempt_count = 0;
  next_attempt_at = none;
  locked_until = none;
  last_error = [];
  created_at = now;
  updated_at = now;
  delivered_at = none;
}

abbrev pub create_outbox : ActionOutbox → ActionsDb → ActionsDb
create_outbox row db = record db { outbox = insert row.id row db.outbox }

abbrev pub requeued : ActionOutbox → ActionOutbox
requeued row = record row {
  status = pending;
  next_attempt_at = none;
  last_error = [];
  locked_until = none;
}

abbrev pub is_webhook_of : ℕ → ActionOutbox → Bool
is_webhook_of company row = elim row.delivery_kind [
  | webhook ↦ row.company_id == company
  | email ↦ false
]

abbrev pub requeue_found : ℕ → ActionsDb → Option ActionOutbox → Option ActionsDb
requeue_found company db none = none
requeue_found company db (some row) =
    if is_webhook_of company row
    then some (record db { outbox = modify row.id requeued db.outbox })
    else none

-- The re-queue of apps/actions/admin_api_views.py; `none` is its 404.
unfoldable pub requeue_delivery : ℕ → ℕ → ActionsDb → Option ActionsDb
requeue_delivery company id db = requeue_found company db (db.outbox.row id)

-- The attempts go with their row (`on_delete=CASCADE`).
unfoldable pub delete_outbox : ℕ → ActionsDb → ActionsDb
delete_outbox id db = record db {
  outbox = remove id db.outbox;
  attempts = λ i. if id == i then [] else db.attempts i;
}

-- The database, and the deliveries between their two transactions.
pub record Workers : Type 0 where
  pub db : ActionsDb
  pub flights : List Flight

abbrev pub IsUnused : ℕ → Workers → Type 0
IsUnused id w = (w.db.outbox.row id ≡ none) × All (λ (f : Flight). f.outbox_id ≢ id) w.flights

-- One transaction. What a worker has sent in between is any outcome; rows are requeued only if
-- `requeues` says so.
pub data Move (cfg : DeliverySettings) (requeues : Bool) : Workers → Workers → Type 0 where
  begin :
      (w : Workers) (id : ℕ) (f : Flight)
      → begin_delivery id w.db ≡ flying f
      → Move cfg requeues w (record w { flights = f ∷ w.flights })
  finish :
      (db db' : ActionsDb) (before after : List Flight) (f : Flight) (now : ℕ) (trigger : Trigger)
      (run : Option ℕ) (sent : Bool × AttemptMeta) (row : ActionOutbox)
      → finish_delivery cfg now trigger run f sent db ≡ ok (db', row)
      → Move cfg requeues
          (record { db = db; flights = before ++ f ∷ after })
          (record { db = db'; flights = before ++ after })
  give_up :
      (db : ActionsDb) (before after : List Flight) (f : Flight)
      → db.outbox.row f.outbox_id ≡ none
      → Move cfg requeues
          (record { db = db; flights = before ++ f ∷ after })
          (record { db = db; flights = before ++ after })
  claim :
      (w : Workers) (db' : ActionsDb) (nulls_first : Bool) (busy : ℕ → Bool) (now clock : ℕ)
      (row : ActionOutbox)
      → claim_next_pending_outbox cfg nulls_first busy now clock w.db ≡ some (row, db')
      → Move cfg requeues w (record w { db = db' })
  release : (w : Workers) (id : ℕ) → Move cfg requeues w (record w { db = unlock id w.db })
  enqueue :
      (w : Workers) (now id company : ℕ) (rule : Option ℕ) (kind : DeliveryKind) (event_type : Text)
      (envelope : Fields)
      → IsUnused id w
      → Move cfg requeues w (record w {
        db = create_outbox (new_outbox now id company rule kind event_type envelope) w.db;
      })
  requeue :
      (w : Workers) (db' : ActionsDb) (company id : ℕ)
      → requeues ≡ true
      → requeue_delivery company id w.db ≡ some db'
      → Move cfg requeues w (record w { db = db' })
  delete_row :
      (w : Workers) (id : ℕ) → Move cfg requeues w (record w { db = delete_outbox id w.db })

pub data Run (cfg : DeliverySettings) (requeues : Bool) (s : Workers) : Workers → Type 0 where
  start : Run cfg requeues s s
  later : {v w : Workers} → Run cfg requeues s v → Move cfg requeues v w → Run cfg requeues s w

-- No row was ever put into the outbox.
abbrev pub empty_outbox : Table ActionRule → Workers
empty_outbox rules = record {
  db = record { rules = rules; outbox = no_rows; attempts = λ i. [] };
  flights = [];
}
