-- ===== src/Actions/Envelope.antt =====
-- What is stored of an event: apps/actions/envelope.py and event_log.py.
use hosting_service.Base.{
  ℕ, suc, Bool, true, false, not, ◌||◌, Option, none, some, List, [], ◌∷◌, Text, codes, text_eq,
  is_one_of, is_empty, if◌then◌else◌, Unicode,
}
use hosting_service.Actions.Values.{
  Value, pos, null, boolean, integer, string, array, object, nil, Fields, end, field, get_field,
}
use hosting_service.Actions.Webhook.{is_truthy, or_null}
use hosting_service.Actions.Redaction.{without_fields}

abbrev pub is_no_field : Fields → Bool
is_no_field end = true
is_no_field (field k v fs) = false

-- `if actor: … if cleaned_actor:`
abbrev pub actor_field : Unicode → Option Fields → Fields
actor_field u none = end
actor_field u (some actor) =
    let cleaned = without_fields u actor in
    if is_no_field cleaned then end else field (codes "actor") (object cleaned) end

unfoldable pub build_envelope : Unicode → Text → Text → Text → ℕ → Fields → Option Fields → Fields
build_envelope u event_id event_type time company_id payload actor =
    field (codes "id") (string event_id) (
      field (codes "type") (string event_type) (
        field (codes "time") (string time) (
          field (codes "company") (object (field (codes "id") (integer (pos company_id)) end))
            (field (codes "data") (object (without_fields u payload)) (actor_field u actor)))))

-- `v in _EMPTY or v is False`
abbrev pub is_blank : Value → Bool
is_blank null = true
is_blank (boolean b) = not b
is_blank (string s) = is_empty s
is_blank (array nil) = true
is_blank (object end) = true
is_blank _ = false

abbrev pub is_skipped : Text → Value → Bool
is_skipped k v = is_one_of k (codes "company_id" ∷ codes "user_id" ∷ []) || is_blank v

unfoldable pub compact_fields : Fields → Fields
compact_fields end = end
compact_fields (field k v fs) =
    let rest = compact_fields fs in if is_skipped k v then rest else field k v rest

-- `data[key] = value`
unfoldable pub set_field : Text → Value → Fields → Fields
set_field key w end = field key w end
set_field key w (field k v fs) =
    let rest = set_field key w fs in if text_eq k key then field k w fs else field k v rest

abbrev pub actor_get : Text → Option Fields → Option Value
actor_get key none = none
actor_get key (some actor) = get_field key actor

abbrev pub with_actor_email : Option Value → Fields → Fields
with_actor_email none fs = fs
with_actor_email (some v) fs = if is_truthy v then set_field (codes "actor_email") v fs else fs

unfoldable pub compact_event_data : Unicode → Fields → Option Fields → Fields
compact_event_data u payload actor =
    with_actor_email (actor_get (codes "email") actor) (without_fields u (compact_fields payload))

abbrev pub positive_id : Value → Option ℕ
positive_id (integer (pos (suc n))) = some (suc n)
positive_id _ = none

-- `_actor_user_id`
abbrev pub actor_user_id : Option Fields → Option ℕ
actor_user_id actor = positive_id (or_null (actor_get (codes "user_id") actor))

pub record EventLog : Type 0 where
  pub company_id : Option ℕ
  pub user_id : Option ℕ
  pub event_type : Text
  pub event_data : Fields

abbrev pub record_event :
    Unicode → Text → Option ℕ → Fields → Option Fields → List EventLog → List EventLog
record_event u event_type company_id payload actor log =
    record {
      company_id = company_id;
      user_id = actor_user_id actor;
      event_type = event_type;
      event_data = compact_event_data u payload actor;
    }
    ∷ log
