-- ===== src/Actions/Webhook.antt =====
-- apps/actions/handlers/webhook.py, and the mails of apps/actions/email_service.py, as calls of a poster.
use hosting_service.Base.{
  ℕ, zero, Bool, true, false, not, ◌||◌, Option, none, some, [], Text, codes, strip, all, is_empty,
  if◌then◌else◌, ◌==◌, leb, ltb, Result, ok, err, ◌>>=◌, ◌>>◌, raise_if,
}
use hosting_service.Actions.Values.{
  Value, null, boolean, integer, real, string, array, object, pos, nil, cons, end, field, Fields,
  get_field,
}
use hosting_service.Actions.Backoff.{is_permanent_http_status}

-- WebhookDeliveryError and EmailDeliveryError
pub record DeliveryError : Type 0 where
  pub message : Text
  pub http_status : Option ℕ
  pub response_excerpt : Text
  pub permanent : Bool
  pub retry_after_seconds : Option ℕ

-- What a handler raises: its own error, or another exception with its text and its class.
pub data Failure : Type 0 where
  delivery_error : DeliveryError → Failure
  other_error : Text → Text → Failure

-- What apps/actions/webhook_transport.py returns, and what it raises.
pub record HttpResult : Type 0 where
  pub status : ℕ
  pub excerpt : Text
  pub retry_after_seconds : Option ℕ

pub data Posted : Type 0 where
  answered : HttpResult → Posted
  http_error : DeliveryError → Posted
  os_error : Text → Posted
  raised : Text → Text → Posted

-- What is posted. The body, the headers and the signature are computed from these.
pub record WebhookRequest : Type 0 where
  pub url : Text
  pub secret : Text
  pub allow_private : Bool
  pub envelope : Fields
  pub webhook_id : Value
  pub event_type : Option Value
  pub attempt : ℕ
  pub authorization : Text

-- A Python value as a condition.
abbrev pub is_zero_literal : Text → Bool
is_zero_literal r = all (λ c. c == b'0' || c == b'.' || c == b'-') r

abbrev pub is_truthy : Value → Bool
is_truthy null = false
is_truthy (boolean b) = b
is_truthy (integer (pos zero)) = false
is_truthy (integer _) = true
is_truthy (real r) = not (is_zero_literal r)
is_truthy (string s) = not (is_empty s)
is_truthy (array nil) = false
is_truthy (array (cons v vs)) = true
is_truthy (object end) = false
is_truthy (object (field k v fs)) = true

-- `(d.get(key) or '').strip()`; no value but a text has a `strip`.
abbrev pub or_no_strip : Value → Result Failure Text
or_no_strip (string s) = ok (strip s)
or_no_strip v =
    if is_truthy v
    then err (other_error (codes "no attribute 'strip'") (codes "AttributeError"))
    else ok []

abbrev pub stripped : Option Value → Result Failure Text
stripped none = ok []
stripped (some v) = or_no_strip v

abbrev pub is_set : Option Value → Bool
is_set none = false
is_set (some v) = is_truthy v

abbrev pub refused : Text → Failure
refused message = delivery_error (record {
  message = message;
  http_status = none;
  response_excerpt = [];
  permanent = true;
  retry_after_seconds = none;
})

-- `_allow_private_webhook_urls`
abbrev pub allow_private_webhook_urls : Bool → Fields → Bool
allow_private_webhook_urls setting config =
    setting || is_set (get_field (codes "allow_private_urls") config)

abbrev pub or_null : Option Value → Value
or_null none = null
or_null (some v) = v

-- The error of a response, or of a request that failed.
abbrev pub webhook_outcome : (ℕ → Text) → Posted → Result Failure (Unit {0})
webhook_outcome returned (answered r) =
    if ltb r.status 400
    then ok tt
    else err (
        delivery_error (record {
          message = returned r.status;
          http_status = some r.status;
          response_excerpt = r.excerpt;
          permanent = is_permanent_http_status (some r.status);
          retry_after_seconds = r.retry_after_seconds;
        }))
webhook_outcome returned (http_error e) = err (
    delivery_error (record e { permanent = e.permanent || is_permanent_http_status e.http_status }))
webhook_outcome returned (os_error text) = err (
    delivery_error (record {
      message = text;
      http_status = none;
      response_excerpt = [];
      permanent = false;
      retry_after_seconds = none;
    }))
webhook_outcome returned (raised text class_name) = err (other_error text class_name)

-- `returned` is the message that names a status, `post` the transport.
unfoldable pub deliver_webhook_action :
    (WebhookRequest → Posted) → (ℕ → Text) → Bool → Fields → Fields → ℕ → Result Failure (Unit {0})
deliver_webhook_action post returned private_setting config envelope attempt_number = do
  url ← stripped (get_field (codes "url") config)
  raise_if (is_empty url) (refused (codes "Webhook URL is not configured."))
  secret ← stripped (get_field (codes "secret") config)
  raise_if (is_empty secret) (refused (codes "Webhook signing secret is not configured."))
  raise_if (not (is_set (get_field (codes "id") envelope)))
      (refused (codes "Envelope id is required for webhook delivery."))
  authorization ← stripped (get_field (codes "authorization_header") config)
  webhook_outcome returned (
      post (record {
        url = url;
        secret = secret;
        allow_private = allow_private_webhook_urls private_setting config;
        envelope = envelope;
        webhook_id = or_null (get_field (codes "id") envelope);
        event_type = get_field (codes "type") envelope;
        attempt = if leb 1 attempt_number then attempt_number else 1;
        authorization = authorization;
      }))
