-- ===== src/Tests/Events.antt =====
-- Examples on events: secrets in a payload, and an event with a rule.
use hosting_service.Base.{
  ◌≡◌, refl, true, false, none, some, [], ◌∷◌, map, codes, is_one_of, starts_with, contains_text,
  strip, strip_left, strip_right, strip_both, is_space, All, ascii_only, ok,
}
use mathlib.Core.List.{Permᴰ}
use hosting_service.Hosting.Models.{no_rows, insert, filter_rows}
use hosting_service.Actions.Values.{Value, string, array, object, nil, cons, end, field}
use hosting_service.Actions.Rows.{ActionRule, webhook_action, ActionOutbox}
use hosting_service.Actions.Redaction.{
  redact_secrets, sensitive_string, sensitive_key, search_sign_in_url, credential_follows,
  without_secrets,
}
use hosting_service.Actions.Redaction.Clean.{
  IsClean, redact_secrets-IsClean, redact_secrets_fixed_iff,
}
use hosting_service.Actions.Outbox.{empty_outbox}
use hosting_service.Actions.Registry.{DomainEventType, get_event_type}
use hosting_service.Actions.Emit.{Emitter, EventDb, Emitted, emit_event, matches_rule}
use hosting_service.Actions.Emit.Fanout.{IsNewRow, emit_event-rows}
use hosting_service.Base.{strip_left, strip_right, strip_both, is_space, strip}
use hosting_service.Actions.Values.{get_field}
use hosting_service.Actions.Rows.{webhook, dispatch}
use hosting_service.Actions.Webhook.{HttpResult, answered}
use hosting_service.Actions.Delivery.{DeliverySettings, ActionsDb}
use hosting_service.Actions.Delivery.Whole.{deliver_outbox_row}
use hosting_service.Actions.Outbox.{new_outbox, create_outbox}
use hosting_service.Actions.Perform.{
  Transport, perform, IsSendable, IsAnswered, deliver_outbox_row-IsAnswered,
}

-- A token, a link to sign in, and a name.
abbrev with_secrets : Value
with_secrets = object (
    field (codes "Access-Token") (string (codes "abc")) (
      field (codes "links") (array (cons (string (codes "https://x.test/Sign-In?next=/")) nil))
        (field (codes "name") (string (codes "my-app")) end)))

abbrev without : Value
without =
    object (field (codes "links") (array nil) (field (codes "name") (string (codes "my-app")) end))

both_dropped : redact_secrets ascii_only with_secrets ≡ without
unfolding redact_secrets without_secrets sensitive_key sensitive_string search_sign_in_url
    credential_follows contains_text starts_with strip strip_both strip_left strip_right is_space
    is_one_of
both_dropped = refl

redact_secrets-IsClean_example : IsClean ascii_only (redact_secrets ascii_only with_secrets)
redact_secrets-IsClean_example = redact_secrets-IsClean ascii_only with_secrets

second_pass :
    (redact_secrets ascii_only (redact_secrets ascii_only with_secrets)
      ≡ redact_secrets ascii_only with_secrets)
second_pass =
    (redact_secrets_fixed_iff ascii_only (redact_secrets ascii_only with_secrets)).1
      (redact_secrets-IsClean ascii_only with_secrets)

abbrev app_created : DomainEventType
app_created = record {
  id = codes "hosting.app.created";
  label = codes "Hosted app created";
  emit_by_default = true;
  webhook = true;
  staff_only = false;
}

abbrev hook : ActionRule
hook = record {
  id = 4;
  company_id = 7;
  name = codes "hook";
  event_type = codes "hosting.app.created";
  enabled = true;
  action_kind = webhook_action;
  config = end;
}

abbrev with_hook : EventDb
with_hook = record { actions = (empty_outbox (insert 4 hook no_rows)).db; event_log = [] }

abbrev emitter : Emitter
emitter = record {
  unicode = ascii_only;
  text_of = λ v. [];
  email = record { api_key = []; url = []; allow_private = false };
  registry = app_created ∷ [];
  now = 100;
  time = codes "2025-01-01T00:00:00+00:00";
  event_id = codes "550e8400";
  new_id = λ k. k;
}

known_event : get_event_type (app_created ∷ []) (codes "hosting.app.created") ≡ ok app_created
known_event = refl

emit_event-rows_example :
    (e : Emitted) × (emit_event emitter (codes "hosting.app.created") 7 end none false with_hook
      ≡ ok e)
    × Permᴰ (map (λ (r : ActionOutbox). r.action_rule) e.rows) (
        map
          (λ (r : ActionRule). some r.id)
          (filter_rows (matches_rule (codes "hosting.app.created") 7) with_hook.actions.rules))
    × All (λ (r : ActionOutbox). e.db.actions.outbox.row r.id ≡ some r) e.rows
    × All (IsNewRow ascii_only 7 end) e.rows
emit_event-rows_example =
    emit_event-rows emitter (codes "hosting.app.created") 7 end none false with_hook app_created
      (λ j k e. e) known_event refl refl

-- A webhook that a busy endpoint answers with 503 and a Retry-After.
abbrev busy_hook : ActionRule
busy_hook = record hook {
  config =
      field (codes "url") (string (codes "https://x.test/hook"))
        (field (codes "secret") (string (codes "s")) end);
}

abbrev hook_row : ActionOutbox
hook_row =
    new_outbox 100 1 7 (some 4) webhook (codes "hosting.app.created")
      (field (codes "id") (string (codes "550e8400")) end)

abbrev hook_db : ActionsDb
hook_db = create_outbox hook_row (empty_outbox (insert 4 busy_hook no_rows)).db

abbrev too_busy : HttpResult
too_busy = record { status = 503; excerpt = []; retry_after_seconds = some 90 }

abbrev busy_transport : Transport
busy_transport = record {
  allow_private = false;
  post = λ q. answered too_busy;
  returned = λ n. codes "busy";
  email = emitter.email;
  mail = λ q. answered too_busy;
  email_returned = λ n. codes "busy";
  duration = 20;
}

abbrev eight_tries : DeliverySettings
eight_tries = record {
  max_attempts = 8;
  lease_seconds = 120;
  redact = λ t. t;
  status_text = λ n. [];
}

hook-IsSendable : IsSendable busy_hook.config hook_row.envelope
unfolding get_field strip strip_both strip_left strip_right is_space
hook-IsSendable = record {
  url = codes "https://x.test/hook";
  secret = codes "s";
  authorization = [];
  has_url = refl;
  url_given = refl;
  has_secret = refl;
  secret_given = refl;
  has_id = refl;
  has_authorization = refl;
}

deliver_outbox_row-IsAnswered_example :
    (db' : ActionsDb) × (r' : ActionOutbox) × (deliver_outbox_row eight_tries
        (record {
          now = 110;
          trigger = dispatch;
          scheduled_job_run_id = none;
          send = perform busy_transport;
        })
        1
        hook_db
      ≡ ok (db', some r'))
    × (db'.outbox.row 1 ≡ some r')
    × IsAnswered eight_tries 110 too_busy hook_row r'
deliver_outbox_row-IsAnswered_example =
    deliver_outbox_row-IsAnswered eight_tries busy_transport 110 dispatch none 1 hook_db hook_row
      busy_hook too_busy refl refl refl refl hook-IsSendable (λ q. refl)
