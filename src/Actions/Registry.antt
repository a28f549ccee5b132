-- ===== src/Actions/Registry.antt =====
-- apps/actions/registry.py: the catalogue of event types.
use hosting_service.Base.{
  Bool, true, false, not, ◌&&◌, Option, none, some, List, ◌∷◌, Text, text_eq, find_first, Result,
  ok, err, ◌>>◌, raise_if,
}

pub record DomainEventType : Type 0 where
  pub id : Text
  pub label : Text
  pub emit_by_default : Bool
  pub webhook : Bool
  pub staff_only : Bool

pub data RegistryError : Type 0 where
  duplicate_event_type staff_only_webhook unknown_event_type : RegistryError

-- The types registered, the latest first.
abbrev pub found_event : Text → List DomainEventType → Option DomainEventType
found_event event_id registry = find_first (λ e. text_eq e.id event_id) registry

abbrev pub is_known : Option DomainEventType → Bool
is_known none = false
is_known (some e) = true

abbrev pub is_registered_event : List DomainEventType → Text → Bool
is_registered_event registry event_id = is_known (found_event event_id registry)

unfoldable pub register_event :
    DomainEventType → List DomainEventType → Result RegistryError (List DomainEventType)
register_event event registry = do
  raise_if (is_registered_event registry event.id) duplicate_event_type
  raise_if (event.staff_only && event.webhook) staff_only_webhook
  ok (event ∷ registry)

abbrev pub or_unknown : Option DomainEventType → Result RegistryError DomainEventType
or_unknown none = err unknown_event_type
or_unknown (some e) = ok e

abbrev pub get_event_type : List DomainEventType → Text → Result RegistryError DomainEventType
get_event_type registry event_id = or_unknown (found_event event_id registry)

abbrev pub for_webhooks : Option DomainEventType → Bool
for_webhooks none = false
for_webhooks (some e) = e.webhook && not e.staff_only

abbrev pub is_webhook_event : List DomainEventType → Text → Bool
is_webhook_event registry event_id = for_webhooks (found_event event_id registry)
