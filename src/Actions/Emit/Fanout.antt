-- ===== src/Actions/Emit/Fanout.antt =====
-- The rows that emit_event creates.
use hosting_service.Base.{
  ℕ, suc, ◌≤◌, ◌≡◌, ◌≢◌, refl, sym, ap, subst, ◌∙◌, inl, inr, Bool, true, false, not, ◌&&◌, ◌||◌,
  Option, none, some, List, [], ◌∷◌, map, arith, Text, codes, All, Bool-cases, ==_iff, ◌==◌, leb,
  Unicode, ok,
}
use mathlib.Core.List.Permᴰ
use mathlib.Core.List.{Permᴰ}
use hosting_service.Hosting.Models.{filter_rows}
use hosting_service.Actions.Values.{object, Fields, get_field}
use hosting_service.Actions.Rows.{ActionRule, ActionOutbox, pending, webhook}
use hosting_service.Actions.Delivery.{ActionsDb}
use hosting_service.Actions.Outbox.{new_outbox}
use hosting_service.Actions.Redaction.{without_fields}
use hosting_service.Actions.Redaction.Clean.{HasCleanFields, without_fields-HasCleanFields}
use hosting_service.Actions.Envelope.{build_envelope, is_no_field}
use hosting_service.Actions.Email.{build_event_body, enqueue_email_event}
use hosting_service.Actions.Registry.{DomainEventType, get_event_type}
use hosting_service.Actions.Emit.{
  Emitter, EventDb, Emitted, matches_rule, insert_by_pk, order_by_pk, create_rows, emitted,
  emit_event,
}

insert_by_pk-perm :
    (r : ActionRule) (rules : List ActionRule) → Permᴰ (insert_by_pk r rules) (r ∷ rules)
unfolding insert_by_pk
insert_by_pk-perm r [] = Permᴰ.refl (r ∷ [])
insert_by_pk-perm r (q ∷ rules) = elim (Bool-cases (leb r.id q.id)) [
  | inl first ↦ rw first (Permᴰ.refl (r ∷ q ∷ rules))
  | inr later ↦
      rw later (Permᴰ.trans (Permᴰ.cons refl (insert_by_pk-perm r rules)) (Permᴰ.swap refl refl))
]

order_by_pk-perm : (rules : List ActionRule) → Permᴰ (order_by_pk rules) rules
unfolding order_by_pk
order_by_pk-perm [] = Permᴰ.nil
order_by_pk-perm (r ∷ rules) =
    Permᴰ.trans (insert_by_pk-perm r (order_by_pk rules)) (Permᴰ.cons refl (order_by_pk-perm rules))

-- An outbox row as it goes out: for the company, not yet attempted, its data without secrets.
pub record IsNewRow (u : Unicode) (company_id : ℕ) (payload : Fields) (row : ActionOutbox)
    : Type 0 where
  pub company : row.company_id ≡ company_id
  pub waits : row.status ≡ pending
  pub untried : row.attempt_count ≡ 0
  pub sends : get_field (codes "data") row.envelope ≡ some (object (without_fields u payload))
  pub no_secrets : HasCleanFields u (without_fields u payload)

other_id : (a b : ℕ) → a ≢ b → (a == b) ≡ false
other_id a b n = ground arith

past : (k j : ℕ) → suc k ≤ j → j ≢ k
past k j le = omega arith

module _ (s : Emitter) (event_type : Text) (company_id : ℕ) (envelope : Fields) where
  rule_ids-create_rows :
      (k : ℕ) (rules : List ActionRule) (db : ActionsDb)
      → map
          (λ (r : ActionOutbox). r.action_rule)
          (create_rows s event_type company_id envelope k rules db).0
        ≡ map (λ (r : ActionRule). some r.id) rules
  unfolding create_rows
  rule_ids-create_rows k [] db = refl
  rule_ids-create_rows k (rule ∷ rules) db =
      ap (λ l. some rule.id ∷ l) (rule_ids-create_rows (suc k) rules _)

  create_rows-All :
      (P : ActionOutbox → Type 0) (k : ℕ) (rules : List ActionRule) (db : ActionsDb)
      → ((j : ℕ) (rule : ActionRule)
          → P (new_outbox s.now (s.new_id j) company_id (some rule.id) webhook event_type envelope))
      → All P (create_rows s event_type company_id envelope k rules db).0
  unfolding create_rows
  create_rows-All P k [] db h = tt
  create_rows-All P k (rule ∷ rules) db h = (h k rule, create_rows-All P (suc k) rules _ h)

  create_rows-keeps :
      (k : ℕ) (rules : List ActionRule) (db : ActionsDb) (i : ℕ)
      → ((j : ℕ) → k ≤ j → s.new_id j ≢ i)
      → (create_rows s event_type company_id envelope k rules db).1.outbox.row i ≡ db.outbox.row i
  unfolding create_rows
  create_rows-keeps k [] db i h = refl
  create_rows-keeps k (rule ∷ rules) db i h =
      create_rows-keeps (suc k) rules _ i (λ j le. h j (omega arith))
      ∙ rw (other_id (s.new_id k) i (h k (omega arith))) refl

  create_rows-stored :
      ((j k : ℕ) → s.new_id j ≡ s.new_id k → j ≡ k)
      → (k : ℕ) (rules : List ActionRule) (db : ActionsDb)
      → let made = create_rows s event_type company_id envelope k rules db in
        All (λ (r : ActionOutbox). made.1.outbox.row r.id ≡ some r) made.0
  unfolding create_rows
  create_rows-stored distinct k [] db = tt
  create_rows-stored distinct k (rule ∷ rules) db = (
    create_rows-keeps (suc k) rules _ (s.new_id k) (λ j le e. past k j le (distinct j k e))
        ∙ rw ((==_iff (s.new_id k) (s.new_id k)).1 refl) refl,
    create_rows-stored distinct (suc k) rules _,
  )

data_of_envelope :
    (u : Unicode) (event_id event_type time : Text) (company_id : ℕ) (payload : Fields)
    (actor : Option Fields)
    → get_field (codes "data") (build_envelope u event_id event_type time company_id payload actor)
      ≡ some (object (without_fields u payload))
unfolding build_envelope get_field
data_of_envelope u event_id event_type time company_id payload none = refl
data_of_envelope u event_id event_type time company_id payload (some actor) =
    elim (Bool-cases (is_no_field (without_fields u actor))) [
      | inl nothing ↦ rw nothing refl
      | inr something ↦ rw something refl
    ]

not_quiet : (a b : Bool) → (a || b) ≡ true → (not a && not b) ≡ false
not_quiet true b e = refl
not_quiet false true e = refl
not_quiet false false e = cc

-- An event of a known type that companies see and that is emitted, with fresh keys: the rows that
-- are created are, up to their order, one for each rule that is enabled, for webhooks and for this
-- event of this company; each is stored, belongs to the company, was not attempted, and carries
-- the payload without its secrets.
pub emit_event-rows :
    (s : Emitter) (event_type : Text) (company_id : ℕ) (payload : Fields) (actor : Option Fields)
    (force : Bool) (db : EventDb) (event : DomainEventType)
    → ((j k : ℕ) → s.new_id j ≡ s.new_id k → j ≡ k)
    → get_event_type s.registry event_type ≡ ok event
    → event.staff_only ≡ false
    → (event.emit_by_default || force) ≡ true
    → (e : Emitted) × (emit_event s event_type company_id payload actor force db ≡ ok e)
      × Permᴰ (map (λ (r : ActionOutbox). r.action_rule) e.rows) (
          map
            (λ (r : ActionRule). some r.id)
            (filter_rows (matches_rule event_type company_id) db.actions.rules))
      × All (λ (r : ActionOutbox). e.db.actions.outbox.row r.id ≡ some r) e.rows
      × All (IsNewRow s.unicode company_id payload) e.rows
unfolding emit_event
emit_event-rows s event_type company_id payload actor force db event distinct known seen goes =
    let u = s.unicode in
    let rules = filter_rows (matches_rule event_type company_id) db.actions.rules in
    let body = build_event_body u s.text_of event_type company_id payload actor s.event_id in
    let envelope = build_envelope u s.event_id event_type s.time company_id payload actor in
    let mailed =
      (enqueue_email_event s.email s.now (s.new_id 0) company_id event_type body db.actions).1 in
    (
      emitted s event_type company_id payload actor db,
      rw (known, seen, not_quiet event.emit_by_default force goes) refl,
      subst (λ l. Permᴰ l (map (λ (r : ActionRule). some r.id) rules))
          (sym (rule_ids-create_rows s event_type company_id envelope 1 (order_by_pk rules) mailed))
          (Permᴰ.map (λ (r : ActionRule). some r.id) (order_by_pk-perm rules)),
      create_rows-stored s event_type company_id envelope distinct 1 (order_by_pk rules) mailed,
      create_rows-All s event_type company_id envelope (IsNewRow u company_id payload) 1
          (order_by_pk rules) mailed
          (λ j rule. record {
            company = refl;
            waits = refl;
            untried = refl;
            sends = data_of_envelope u s.event_id event_type s.time company_id payload actor;
            no_secrets = without_fields-HasCleanFields u payload;
          }),
    )
