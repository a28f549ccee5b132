-- ===== src/Actions/Delivery/Records.antt =====
-- apps/actions/delivery.py: the state of the outbox, and the rule of a delivery.
use hosting_service.Base.{
  ℕ, Bool, false, not, Option, none, some, List, [], ◌∷◌, ◌++◌, Text, codes, strip, join_with, take,
  is_empty, if◌then◌else◌,
}
use hosting_service.Hosting.Models.{Table}
use hosting_service.Actions.Rows.{
  ActionRule, webhook_action, other_action, ActionOutbox, webhook, email, DeliveryAttempt,
}

-- The settings, with `redact_api_key` and the text of a status.
pub record DeliverySettings : Type 0 where
  pub max_attempts : ℕ
  pub lease_seconds : ℕ
  pub redact : Text → Text
  pub status_text : ℕ → Text

-- The rules, the outbox, and the attempts of each row of it, the latest first.
pub record ActionsDb : Type 0 where
  pub rules : Table ActionRule
  pub outbox : Table ActionOutbox
  pub attempts : ℕ → List DeliveryAttempt

pub record AttemptMeta : Type 0 where
  pub http_status : Option ℕ
  pub response_excerpt : Text
  pub error_message : Text
  pub permanent : Bool
  pub retry_after_seconds : Option ℕ
  pub duration_ms : Option ℕ

abbrev pub no_meta : AttemptMeta
no_meta = record {
  http_status = none;
  response_excerpt = [];
  error_message = [];
  permanent = false;
  retry_after_seconds = none;
  duration_ms = none;
}

abbrev pub text_or : Text → Text → Text
text_or s other = if is_empty s then other else s

abbrev pub status_part : DeliverySettings → Option ℕ → List Text
status_part cfg none = []
status_part cfg (some status) = (codes "HTTP " ++ cfg.status_text status) ∷ []

abbrev pub body_part : Text → List Text
body_part excerpt = if is_empty excerpt then [] else (codes "body: " ++ take 512 excerpt) ∷ []

unfoldable pub format_attempt_error : DeliverySettings → AttemptMeta → Text
format_attempt_error cfg meta = join_with (codes " | ") (
    text_or (strip meta.error_message) (codes "Delivery failed.") ∷ status_part cfg meta.http_status
    ++ body_part meta.response_excerpt)

-- What `_load_rule_for_delivery` finds; without a rule `rule.enabled` raises.
pub data RuleLoad : Type 0 where
  no_rule rule_missing : RuleLoad
  terminal : Text → RuleLoad
  loaded : ActionRule → RuleLoad

abbrev pub usable : ActionRule → RuleLoad
usable rule =
    if not rule.enabled then terminal (codes "Action rule disabled.") else elim rule.action_kind [
      | webhook_action ↦ loaded rule
      | other_action ↦ terminal (codes "Unsupported action kind (webhook only).")
    ]

abbrev pub stored_rule : Option ActionRule → RuleLoad
stored_rule none = terminal (codes "Action rule deleted.")
stored_rule (some rule) = usable rule

abbrev pub webhook_rule : Table ActionRule → Option ℕ → RuleLoad
webhook_rule rules none = rule_missing
webhook_rule rules (some i) = stored_rule (rules.row i)

abbrev pub load_rule_for_delivery : Table ActionRule → ActionOutbox → RuleLoad
load_rule_for_delivery rules row = elim row.delivery_kind [
  | email ↦ no_rule
  | webhook ↦ webhook_rule rules row.action_rule
]
