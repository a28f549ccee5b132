-- ===== src/Actions/Perform.antt =====
-- apps/actions/delivery.py: what is sent between the two transactions of a delivery.
use hosting_service.Base.{
  ℕ, ◌+◌, ◌≡◌, refl, ap, ◌∙◌, inl, inr, Bool, true, false, ◌||◌, Option, none, some, Text, codes,
  is_empty, Bool-cases, ==_iff, if◌then◌else◌, leb, ltb, ok,
}
use hosting_service.Actions.Values.{Fields, get_field}
use hosting_service.Actions.Rows.{
  ActionRule, ActionOutbox, OutboxStatus, delivered, failed, dead, Trigger,
}
use hosting_service.Actions.Webhook.{
  HttpResult, Posted, answered, WebhookRequest, stripped, is_set, webhook_outcome,
  deliver_webhook_action,
}
use hosting_service.Actions.Email.{EmailSettings, EmailRequest, redact_api_key, post_email_event}
use hosting_service.Actions.Backoff.{
  is_permanent_http_status, compute_retry_delay_seconds, backoff_seconds,
}
use hosting_service.Actions.Delivery.{
  DeliverySettings, ActionsDb, Flight, AttemptMeta, no_meta, no_rule, rule_missing, terminal,
  loaded, load_rule_for_delivery, begin_delivery, finish_delivery, performed, performed_email,
  applied_row, is_terminal, attempt_error, apply_delivery_result,
}
use hosting_service.Actions.Delivery.Whole.{deliver_outbox_row}

-- The settings of the handlers, the two requests, and the messages for a status.
pub record Transport : Type 0 where
  pub allow_private : Bool
  pub post : WebhookRequest → Posted
  pub returned : ℕ → Text
  pub email : EmailSettings
  pub mail : EmailRequest → Posted
  pub email_returned : ℕ → Text
  pub duration : ℕ

-- Nothing is sent for a rule that is terminal.
abbrev pub perform : Transport → Flight → Bool × AttemptMeta
perform t f = elim f.load [
  | no_rule ↦
      performed_email (redact_api_key t.email) t.duration
        (post_email_event t.email t.mail t.email_returned f.envelope)
  | loaded rule ↦ performed t.duration (
      deliver_webhook_action t.post t.returned t.allow_private rule.config f.envelope
        (f.snapshot_attempt + 1))
  | terminal e ↦ (false, no_meta)
  | rule_missing ↦ (false, no_meta)
]

-- A rule and an envelope that deliver_webhook_action sends.
pub record IsSendable (config envelope : Fields) : Type 0 where
  pub url : Text
  pub secret : Text
  pub authorization : Text
  pub has_url : stripped (get_field (codes "url") config) ≡ ok url
  pub url_given : is_empty url ≡ false
  pub has_secret : stripped (get_field (codes "secret") config) ≡ ok secret
  pub secret_given : is_empty secret ≡ false
  pub has_id : is_set (get_field (codes "id") envelope) ≡ true
  pub has_authorization :
      stripped (get_field (codes "authorization_header") config) ≡ ok authorization

sent_webhook :
    (t : Transport) (config envelope : Fields) (n : ℕ) (a : HttpResult)
    → IsSendable config envelope
    → ((q : WebhookRequest) → t.post q ≡ answered a)
    → deliver_webhook_action t.post t.returned t.allow_private config envelope n
      ≡ webhook_outcome t.returned (answered a)
unfolding deliver_webhook_action
sent_webhook t config envelope n a s answers =
    rw (s.has_url, s.url_given, s.has_secret, s.secret_given, s.has_id, s.has_authorization)
      (ap (webhook_outcome t.returned) (answers _))

-- What becomes of a row whose attempt number `n` was answered.
abbrev pub answered_status : DeliverySettings → ℕ → HttpResult → OutboxStatus
answered_status cfg n a =
    if ltb a.status 400
    then delivered
    else if is_permanent_http_status (some a.status) || leb cfg.max_attempts n
    then dead
    else failed

abbrev pub answered_retry : DeliverySettings → ℕ → ℕ → HttpResult → Option ℕ
answered_retry cfg now n a =
    if ltb a.status 400
    then none
    else if is_permanent_http_status (some a.status) || leb cfg.max_attempts n
    then none
    else some (
        now + compute_retry_delay_seconds (some a.status) a.retry_after_seconds (backoff_seconds n))

pub record IsAnswered (cfg : DeliverySettings) (now : ℕ) (a : HttpResult) (r r' : ActionOutbox)
    : Type 0 where
  pub status : r'.status ≡ answered_status cfg (r.attempt_count + 1) a
  pub retry : r'.next_attempt_at ≡ answered_retry cfg now (r.attempt_count + 1) a
  pub count : r'.attempt_count ≡ r.attempt_count + 1
  pub unlocked : r'.locked_until ≡ none

applied-IsAnswered :
    (cfg : DeliverySettings) (t : Transport) (now : ℕ) (error : Text) (a : HttpResult)
    (r : ActionOutbox)
    → let out = performed t.duration (webhook_outcome t.returned (answered a)) in
      IsAnswered cfg now a r (applied_row cfg now error out.0 out.1 r)
unfolding applied_row
applied-IsAnswered cfg t now error a r = elim (Bool-cases (ltb a.status 400)) [
  | inl fine ↦
      rw fine
        (record { status = rw fine refl; retry = rw fine refl; count = refl; unlocked = refl })
  | inr refused ↦
      elim (Bool-cases
        (is_permanent_http_status (some a.status) || leb cfg.max_attempts (r.attempt_count + 1))) [
          | inl last ↦
              rw (refused, last)
                (record {
                  status = rw (refused, last) refl;
                  retry = rw (refused, last) refl;
                  count = refl;
                  unlocked = refl;
                })
          | inr more ↦
              rw (refused, more)
                (record {
                  status = rw (refused, more) refl;
                  retry = rw (refused, more) refl;
                  count = refl;
                  unlocked = refl;
                })
        ]
]

-- A webhook that is answered: for a row that is neither delivered nor dead, with a rule that can
-- be used and a configuration and envelope that can be sent, deliver_outbox_row returns the row as
-- it is stored then. Below 400 it is delivered; a permanent status makes it dead at once, as does
-- any other with the last attempt; else it has failed, and is tried again after the wait that the
-- status and its Retry-After ask for. The attempt is counted, and the lease ends.
pub deliver_outbox_row-IsAnswered :
    (cfg : DeliverySettings) (t : Transport) (now : ℕ) (trigger : Trigger) (run : Option ℕ) (id : ℕ)
    (db : ActionsDb) (r : ActionOutbox) (rule : ActionRule) (a : HttpResult)
    → db.outbox.row id ≡ some r
    → r.id ≡ id
    → is_terminal r.status ≡ false
    → load_rule_for_delivery db.rules r ≡ loaded rule
    → IsSendable rule.config r.envelope
    → ((q : WebhookRequest) → t.post q ≡ answered a)
    → (db' : ActionsDb) × (r' : ActionOutbox) × (deliver_outbox_row cfg
          (record { now = now; trigger = trigger; scheduled_job_run_id = run; send = perform t })
          id
          db
        ≡ ok (db', some r'))
      × (db'.outbox.row id ≡ some r')
      × IsAnswered cfg now a r r'
unfolding deliver_outbox_row begin_delivery finish_delivery
deliver_outbox_row-IsAnswered cfg t now trigger run id db r rule a there own alive load sendable
      answers =
    let out = performed t.duration (webhook_outcome t.returned (answered a)) in
    let error = attempt_error cfg (loaded rule) out.1 in
    let f : Flight = record {
      outbox_id = r.id;
      snapshot_attempt = r.attempt_count;
      load = loaded rule;
      envelope = r.envelope;
    } in
    (
      (apply_delivery_result cfg now trigger run f out r db).0,
      applied_row cfg now error out.0 out.1 r,
      rw
          (
            there,
            alive,
            load,
            ap db.outbox.row own ∙ there,
            (==_iff r.attempt_count r.attempt_count).1 refl,
            sent_webhook t rule.config r.envelope (r.attempt_count + 1) a sendable answers,
          )
          refl,
      rw (own, (==_iff id id).1 refl, there) refl,
      applied-IsAnswered cfg t now error a r,
    )
