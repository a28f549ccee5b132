-- ===== src/Actions/Email.antt =====
-- apps/actions/email_service.py: events that are passed on to the mail service.
use hosting_service.Base.{
  ℕ, Bool, true, false, not, ◌&&◌, ◌||◌, Option, none, some, [], ◌∷◌, ◌++◌, Text, codes,
  starts_with, contains_text, strip, strip_right, is_space, is_slash, replace_text, take, drop, any,
  is_empty, if◌then◌else◌, ◌==◌, leb, ltb, Unicode, Result, ok, err, ◌>>◌, raise_if,
}
use hosting_service.Actions.Values.{
  Value, pos, integer, string, array, object, Items, nil, cons, Fields, end, field,
}
use hosting_service.Actions.Webhook.{
  is_truthy, or_null, Failure, delivery_error, other_error, Posted, answered, http_error, os_error,
  raised,
}
use hosting_service.Actions.Rows.{ActionOutbox, email}
use hosting_service.Actions.Delivery.{ActionsDb}
use hosting_service.Actions.Backoff.{is_permanent_http_status}
use hosting_service.Actions.Outbox.{new_outbox, create_outbox}
use hosting_service.Actions.Redaction.{without_fields}
use hosting_service.Actions.Envelope.{actor_get, positive_id}

pub record EmailSettings : Type 0 where
  pub api_key : Text
  pub url : Text
  pub allow_private : Bool

abbrev pub email_service_api_key : EmailSettings → Text
email_service_api_key cfg = strip cfg.api_key

abbrev pub email_service_configured : EmailSettings → Bool
email_service_configured cfg = not (is_empty (email_service_api_key cfg))

unfoldable pub email_service_events_url : EmailSettings → Text
email_service_events_url cfg =
    let base = strip_right is_slash (strip cfg.url) in
    (if is_empty base then codes "https://email.shellui.com" else base) ++ codes "/api/v1/events"

unfoldable pub redact_api_key : EmailSettings → Text → Text
redact_api_key cfg text =
    let key = email_service_api_key cfg in
    if is_empty key || is_empty text || not (contains_text key text)
    then text
    else replace_text key (codes "[redacted]") text

-- `value.partition('@')`, of which the middle is dropped.
unfoldable pub partition_at : Text → Text × Text
partition_at [] = ([], [])
partition_at (c ∷ s) =
    let (local, domain) = partition_at s in if c == b'@' then ([], s) else (c ∷ local, domain)

abbrev pub ends_in_dot : Text → Bool
ends_in_dot [] = false
ends_in_dot (c ∷ []) = c == b'.'
ends_in_dot (c ∷ d ∷ s) = ends_in_dot (d ∷ s)

abbrev pub is_domain : Text → Bool
is_domain domain =
    not (is_empty domain)
    && any (λ c. c == b'.') domain
    && not (starts_with domain (codes "."))
    && not (ends_in_dot domain)

unfoldable pub looks_like_email : Text → Bool
looks_like_email value =
    let (local, domain) = partition_at value in
    not (is_empty value)
    && any (λ c. c == b'@') value
    && not (any is_space value)
    && not (is_empty local)
    && is_domain domain

-- `str(actor.get('email') or '')`; `text_of` is `str` on what is no text.
abbrev pub text_or_empty : (Value → Text) → Value → Text
text_or_empty text_of (string s) = s
text_or_empty text_of v = if is_truthy v then text_of v else []

abbrev pub with_user_id : Option ℕ → Fields
with_user_id none = end
with_user_id (some n) = field (codes "user_id") (integer (pos n)) end

abbrev pub hints_for : Text → Option ℕ → Items
hints_for address user_id =
    if looks_like_email address
    then cons (object (field (codes "email") (string address) (with_user_id user_id))) nil
    else nil

unfoldable pub recipient_hints : (Value → Text) → Option Fields → Items
recipient_hints text_of actor =
    hints_for (strip (text_or_empty text_of (or_null (actor_get (codes "email") actor))))
      (positive_id (or_null (actor_get (codes "user_id") actor)))

abbrev pub email_event_payload : Unicode → Fields → Fields
email_event_payload u payload = without_fields u payload

unfoldable pub build_event_body :
    Unicode → (Value → Text) → Text → ℕ → Fields → Option Fields → Text → Fields
build_event_body u text_of event_type company_id payload actor idempotency_key =
    field (codes "service") (string (codes "hosting")) (
      field (codes "event_type") (string event_type) (
        field (codes "company_id") (integer (pos company_id)) (
          field (codes "idempotency_key") (string idempotency_key) (
            field (codes "payload") (object (email_event_payload u payload))
              (field (codes "recipients") (array (recipient_hints text_of actor)) end)))))

-- The row that is inserted under a fresh key, if the service is configured.
abbrev pub enqueue_email_event :
    EmailSettings → ℕ → ℕ → ℕ → Text → Fields → ActionsDb → Option ActionOutbox × ActionsDb
enqueue_email_event cfg now id company_id event_type body db =
    if not (email_service_configured cfg)
    then (none, db)
    else let row = new_outbox now id company_id none email event_type body in
      (some row, create_outbox row db)

pub record EmailRequest : Type 0 where
  pub url : Text
  pub key : Text
  pub body : Fields
  pub allow_private : Bool

abbrev pub email_refused : Text → Failure
email_refused message = delivery_error (record {
  message = message;
  http_status = none;
  response_excerpt = [];
  permanent = true;
  retry_after_seconds = none;
})

-- 'Webhook URL…' becomes 'Email service URL…'.
abbrev pub renamed : Text → Text
renamed message =
    if starts_with message (codes "Webhook URL")
    then codes "Email service URL" ++ drop 11 message
    else message

abbrev pub if_throttled : ℕ → Option ℕ → Option ℕ
if_throttled status after = if status == 429 || status == 503 then after else none

abbrev pub email_outcome : EmailSettings → (ℕ → Text) → Posted → Result Failure ℕ
email_outcome cfg returned (http_error e) = err (
    delivery_error (record {
      message = renamed (redact_api_key cfg e.message);
      http_status = e.http_status;
      response_excerpt = redact_api_key cfg e.response_excerpt;
      permanent = e.permanent || is_permanent_http_status e.http_status;
      retry_after_seconds = e.retry_after_seconds;
    }))
email_outcome cfg returned (os_error text) = err (
    delivery_error (record {
      message = codes "Email service request failed.";
      http_status = none;
      response_excerpt = [];
      permanent = false;
      retry_after_seconds = none;
    }))
email_outcome cfg returned (raised text class_name) = err (other_error text class_name)
email_outcome cfg returned (answered r) =
    if leb 200 r.status && ltb r.status 300
    then ok r.status
    else err (
        delivery_error (record {
          message = returned r.status;
          http_status = some r.status;
          response_excerpt = redact_api_key cfg (take 512 r.excerpt);
          permanent = is_permanent_http_status (some r.status);
          retry_after_seconds = if_throttled r.status r.retry_after_seconds;
        }))

abbrev pub is_http_url : Text → Bool
is_http_url url = starts_with url (codes "https://") || starts_with url (codes "http://")

unfoldable pub post_email_event :
    EmailSettings → (EmailRequest → Posted) → (ℕ → Text) → Fields → Result Failure ℕ
post_email_event cfg post returned body = do
  raise_if (not (email_service_configured cfg))
      (email_refused (codes "Email service is not configured."))
  raise_if (not (is_http_url (email_service_events_url cfg)))
      (email_refused (codes "Email service URL is not http(s)."))
  email_outcome cfg returned (
      post (record {
        url = email_service_events_url cfg;
        key = email_service_api_key cfg;
        body = body;
        allow_private = cfg.allow_private;
      }))
