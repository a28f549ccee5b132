-- ===== src/Actions/Emit.antt =====
-- apps/actions/emit.py: an event is logged and goes into the outbox.
use hosting_service.Base.{
  ℕ, suc, ◌+◌, Bool, true, false, not, ◌&&◌, Option, none, some, List, [], ◌∷◌, ◌++◌, map, Text,
  text_eq, if◌then◌else◌, ◌==◌, leb, Unicode, Result, ok, err, ◌>>=◌, ◌>>◌, raise_if,
}
use hosting_service.Hosting.Models.{Table, filter_rows, insert}
use hosting_service.Actions.Values.{Value, Fields}
use hosting_service.Actions.Rows.{
  ActionRule, ActionKind, webhook_action, other_action, ActionOutbox, webhook,
}
use hosting_service.Actions.Delivery.{ActionsDb}
use hosting_service.Actions.Outbox.{new_outbox, create_outbox}
use hosting_service.Actions.Envelope.{build_envelope, EventLog, record_event}
use hosting_service.Actions.Email.{EmailSettings, build_event_body, enqueue_email_event}
use hosting_service.Actions.Registry.{DomainEventType, RegistryError, get_event_type}
pub mod Fanout

pub data EmitError : Type 0 where
  unknown_event staff_only_event : EmitError

-- What emit_event takes from elsewhere: the settings, the clock, the UUID of the event, and the
-- keys that rows are stored under.
pub record Emitter : Type 0 where
  pub unicode : Unicode
  pub text_of : Value → Text
  pub email : EmailSettings
  pub registry : List DomainEventType
  pub now : ℕ
  pub time : Text
  pub event_id : Text
  pub new_id : ℕ → ℕ

pub record EventDb : Type 0 where
  pub actions : ActionsDb
  pub event_log : List EventLog

-- `scheduled` is what `schedule_outbox_delivery` is given.
pub record Emitted : Type 0 where
  pub rows : List ActionOutbox
  pub scheduled : List ℕ
  pub db : EventDb

abbrev pub is_webhook_rule : ActionKind → Bool
is_webhook_rule webhook_action = true
is_webhook_rule other_action = false

abbrev pub matches_rule : Text → ℕ → ActionRule → Bool
matches_rule event_type company_id rule =
    rule.company_id == company_id
    && text_eq rule.event_type event_type
    && rule.enabled
    && is_webhook_rule rule.action_kind

-- `order_by('pk')`
unfoldable pub insert_by_pk : ActionRule → List ActionRule → List ActionRule
insert_by_pk rule [] = rule ∷ []
insert_by_pk rule (first ∷ rules) =
    let rest = insert_by_pk rule rules in
    if leb rule.id first.id then rule ∷ first ∷ rules else first ∷ rest

unfoldable pub order_by_pk : List ActionRule → List ActionRule
order_by_pk [] = []
order_by_pk (rule ∷ rules) = insert_by_pk rule (order_by_pk rules)

unfoldable pub create_rows :
    Emitter → Text → ℕ → Fields → ℕ → List ActionRule → ActionsDb → List ActionOutbox × ActionsDb
create_rows s event_type company_id envelope k [] db = ([], db)
create_rows s event_type company_id envelope k (rule ∷ rules) db =
    let row = new_outbox s.now (s.new_id k) company_id (some rule.id) webhook event_type envelope in
    let (rows, db') =
      create_rows s event_type company_id envelope (suc k) rules (create_outbox row db) in
    (row ∷ rows, db')

abbrev pub email_ids : Option ActionOutbox → List ℕ
email_ids none = []
email_ids (some row) = row.id ∷ []

-- The body of emit_event after its checks.
abbrev pub emitted : Emitter → Text → ℕ → Fields → Option Fields → EventDb → Emitted
emitted s event_type company_id payload actor db =
    let log = record_event s.unicode event_type (some company_id) payload actor db.event_log in
    let body =
      build_event_body s.unicode s.text_of event_type company_id payload actor s.event_id in
    let (email_row, mailed) =
      enqueue_email_event s.email s.now (s.new_id 0) company_id event_type body db.actions in
    let rules = order_by_pk (filter_rows (matches_rule event_type company_id) db.actions.rules) in
    let envelope = build_envelope s.unicode s.event_id event_type s.time company_id payload actor in
    let (rows, stored) = create_rows s event_type company_id envelope 1 rules mailed in
    record {
      rows = rows;
      scheduled = map (λ (r : ActionOutbox). r.id) rows ++ email_ids email_row;
      db = record { actions = stored; event_log = log };
    }

abbrev pub no_emission : EventDb → Emitted
no_emission db = record { rows = []; scheduled = []; db = db }

abbrev pub or_unknown_event :
    Result RegistryError DomainEventType → Result EmitError DomainEventType
or_unknown_event (ok e) = ok e
or_unknown_event (err e) = err unknown_event

unfoldable pub emit_event :
    Emitter → Text → ℕ → Fields → Option Fields → Bool → EventDb → Result EmitError Emitted
emit_event s event_type company_id payload actor force db = do
  event ← or_unknown_event (get_event_type s.registry event_type)
  raise_if event.staff_only staff_only_event
  if not event.emit_by_default && not force
      then ok (no_emission db)
      else ok (emitted s event_type company_id payload actor db)

abbrev pub or_nothing_emitted : EventDb → Result EmitError Emitted → Emitted
or_nothing_emitted db (ok e) = e
or_nothing_emitted db (err x) = no_emission db

abbrev pub emit_event_if_rules :
    Emitter → Text → ℕ → Fields → Option Fields → Bool → EventDb → Emitted
emit_event_if_rules s event_type company_id payload actor force db =
    or_nothing_emitted db (emit_event s event_type company_id payload actor force db)
