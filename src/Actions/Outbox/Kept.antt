-- ===== src/Actions/Outbox/Kept.antt =====
-- What every step on the outbox keeps, for any property of a row and its attempts.
use hosting_service.Base.{
  ℕ, ◌+◌, ◌≡◌, refl, sym, ap, subst, ◌∙◌, inl, inr, Bool, true, Option, none, some, List, [], ◌∷◌,
  ◌++◌, All-map, All-others, Bool-cases, ==_iff, ◌==◌, ok,
}
use hosting_service.Hosting.Models.{Table, modify, insert}
use hosting_service.Actions.Rows.{ActionRule, ActionOutbox, DeliveryAttempt, Trigger}
use hosting_service.Actions.Delivery.{
  DeliverySettings, ActionsDb, Flight, AttemptMeta, flying, begin_delivery, finish_delivery,
  settled, apply_delivery_result, applied_row, new_attempt, add_attempt, outcome, attempt_error,
}
use hosting_service.Actions.Claims.{leased, unlocked}
use hosting_service.Actions.Claims.Exclusive.{claim-IsClaimed}
use hosting_service.Actions.Outbox.{
  requeued, is_webhook_of, requeue_found, requeue_delivery, delete_outbox, Workers, IsUnused, Move,
  begin, finish, give_up, claim, release, enqueue, requeue, delete_row, Run, start, later,
  empty_outbox,
}
use hosting_service.Actions.Outbox.Invariant.{after_modify, FlightOk, At, Inv, IsKept}
use hosting_service.Actions.Outbox.Flights.{
  some-injective, same_row, begun-flying, attempt_count-applied_row, alive-landing, away-At,
  landed-FlightOk, requeued-FlightOk, away-cut, cut_log, landed-db, new-flights,
}

module _ (cfg : DeliverySettings) (requeues : Bool)
    (P : ActionOutbox → List DeliveryAttempt → Type 0) (kept : IsKept cfg requeues P) where
  -- A row is saved, and no attempt is added.
  touch-Inv :
      (w : Workers) (k : ℕ) (g : ActionOutbox → ActionOutbox)
      → ((r : ActionOutbox) → (g r).id ≡ r.id)
      → ((r : ActionOutbox) (log : List DeliveryAttempt) → P r log → P (g r) log)
      → ((r : ActionOutbox) (f : Flight) → FlightOk (some r) f → FlightOk (some (g r)) f)
      → Inv P w
      → Inv P (record w { db = record w.db { outbox = modify k g w.db.outbox } })
  touch-Inv w k g ids rows flies inv = record {
    at = λ j.
        after_modify (At P w.db.attempts) (At P w.db.attempts) k g w.db.outbox
          (λ r e (id, p). (ids r ∙ id, rows r (w.db.attempts k) p)) (λ e q. q) (λ i o e q. q) j
          (inv.at j);
    flights =
        All-map _ _
          (λ f.
            after_modify (λ i o. FlightOk o f) (λ i o. FlightOk o f) k g w.db.outbox
              (λ r e. flies r f) (λ e q. q) (λ i o e q. q) f.outbox_id)
          w.flights inv.flights;
  }

  begin-Inv :
      (w : Workers) (id : ℕ) (f : Flight)
      → begin_delivery id w.db ≡ flying f
      → Inv P w
      → Inv P (record w { flights = f ∷ w.flights })
  unfolding begin_delivery
  begin-Inv w id f e inv =
      let (r, there, own, count, alive) = begun-flying w.db.rules (w.db.outbox.row id) f e in
      let key = (subst (At P w.db.attempts id) there (inv.at id)).0 in
      record {
        at = inv.at;
        flights = (
          subst (λ o. FlightOk o f) (sym (ap w.db.outbox.row (own ∙ key) ∙ there))
              (inr (count, alive)),
          inv.flights,
        );
      }

  -- One attempt is added to the row of a flight that lands.
  save-Inv :
      (db : ActionsDb) (before after : List Flight) (f : Flight) (r r' : ActionOutbox)
      (a : DeliveryAttempt)
      → db.outbox.row f.outbox_id ≡ some r
      → r'.id ≡ r.id
      → r'.attempt_count ≡ r.attempt_count + 1
      → ((log : List DeliveryAttempt) → P r log → P r' (a ∷ log))
      → Inv P (record { db = db; flights = before ++ f ∷ after })
      → Inv P (record {
        db = record db {
          outbox = modify f.outbox_id (λ x. r') db.outbox;
          attempts = add_attempt f.outbox_id a db.attempts;
        };
        flights = before ++ after;
      })
  save-Inv db before after f r r' a there id count step inv = record {
    at = λ j.
        after_modify (At P db.attempts) (At P (add_attempt f.outbox_id a db.attempts)) f.outbox_id
          (λ x. r') db.outbox
          (λ x e (own, p).
            let x≡r = same_row (sym e ∙ there) in
            rw ((==_iff f.outbox_id f.outbox_id).1 refl) (
              id ∙ sym (ap (λ y. y.id) x≡r) ∙ own,
              step (db.attempts f.outbox_id) (subst (λ y. P y (db.attempts f.outbox_id)) x≡r p),
            ))
          (λ e q. cc) (λ i o away q. away-At P db.attempts f.outbox_id i a o away q) j (inv.at j);
    flights =
        All-map _ _
          (λ g.
            after_modify (λ i o. FlightOk o g) (λ i o. FlightOk o g) f.outbox_id (λ x. r') db.outbox
              (λ x e q. landed-FlightOk g x r r' (same_row (sym e ∙ there)) count q) (λ e q. q)
              (λ i o e q. q) g.outbox_id)
          (before ++ after) (All-others _ before after f inv.flights);
  }

  -- The second transaction, where the row is found as it was.
  apply-Inv :
      (db : ActionsDb) (before after : List Flight) (f : Flight) (now : ℕ) (trigger : Trigger)
      (run : Option ℕ) (sent : Bool × AttemptMeta) (r : ActionOutbox)
      → db.outbox.row f.outbox_id ≡ some r
      → r.attempt_count ≡ f.snapshot_attempt
      → Inv P (record { db = db; flights = before ++ f ∷ after })
      → Inv P (record {
        db = (apply_delivery_result cfg now trigger run f sent r db).0;
        flights = before ++ after;
      })
  apply-Inv db before after f now trigger run sent r there same inv =
      let landed = outcome f.load sent in
      let error = attempt_error cfg f.load landed.1 in
      let (count, id) = attempt_count-applied_row cfg now error landed.0 landed.1 r in
      save-Inv db before after f r (applied_row cfg now error landed.0 landed.1 r)
        (new_attempt trigger run error landed.0 landed.1 r) there id count
        (λ log.
          kept.applied now trigger run error landed.0 landed.1 r log
            (alive-landing db before after f r there same inv.flights))
        inv

  finish-Inv :
      (db db' : ActionsDb) (before after : List Flight) (f : Flight) (now : ℕ) (trigger : Trigger)
      (run : Option ℕ) (sent : Bool × AttemptMeta) (row : ActionOutbox) (o : Option ActionOutbox)
      → db.outbox.row f.outbox_id ≡ o
      → settled cfg now trigger run f sent db o ≡ ok (db', row)
      → Inv P (record { db = db; flights = before ++ f ∷ after })
      → Inv P (record { db = db'; flights = before ++ after })
  finish-Inv db db' before after f now trigger run sent row none there e inv = cc
  finish-Inv db db' before after f now trigger run sent row (some r) there e inv =
      elim (Bool-cases (r.attempt_count == f.snapshot_attempt)) [
        | inl same ↦
            subst (λ d. Inv P (record { db = d; flights = before ++ after }))
              (landed-db (rw same at e))
              (apply-Inv db before after f now trigger run sent r there ((==_iff _ _).0 same) inv)
        | inr other ↦
            subst (λ d. Inv P (record { db = d; flights = before ++ after }))
              (landed-db (rw other at e))
              (record { at = inv.at; flights = All-others _ before after f inv.flights })
      ]

  requeue-Inv :
      (w : Workers) (db' : ActionsDb) (company : ℕ) (o : Option ActionOutbox)
      → requeues ≡ true
      → requeue_found company w.db o ≡ some db'
      → Inv P w
      → Inv P (record w { db = db' })
  requeue-Inv w db' company none allowed e inv = cc
  requeue-Inv w db' company (some r) allowed e inv = elim (Bool-cases (is_webhook_of company r)) [
    | inl own ↦
        subst (λ d. Inv P (record w { db = d })) (some-injective (rw own at e))
          (touch-Inv w r.id requeued (λ x. refl) (λ x log. kept.requeue x log allowed)
            requeued-FlightOk inv)
    | inr other ↦ cc (rw other at e)
  ]

  enqueue-Inv :
      (w : Workers) (id : ℕ) (row : ActionOutbox)
      → row.id ≡ id
      → P row []
      → IsUnused id w
      → Inv P w
      → Inv P (record w { db = record w.db { outbox = insert id row w.db.outbox } })
  enqueue-Inv w id row own fresh (unused, away) inv = record {
    at = λ j. elim (Bool-cases (id == j)) [
      | inl here ↦
          let same = (==_iff id j).0 here in
          let none_yet = subst (λ o. At P w.db.attempts id o) unused (inv.at id) in
          subst (λ i. At P w.db.attempts i ((insert id row w.db.outbox).row i)) same
            (rw ((==_iff id id).1 refl) (own, subst (P row) (sym none_yet) fresh))
      | inr other ↦ rw other (inv.at j)
    ];
    flights = new-flights w.db.outbox id row w.flights away inv.flights;
  }

  delete-Inv : (w : Workers) (id : ℕ) → Inv P w → Inv P (record w { db = delete_outbox id w.db })
  unfolding delete_outbox
  delete-Inv w id inv = record {
    at = λ j. elim (Bool-cases (id == j)) [
      | inl here ↦ rw here (cut_log id j (w.db.attempts j) here)
      | inr other ↦ rw other (away-cut P w.db.attempts id j (w.db.outbox.row j) other (inv.at j))
    ];
    flights =
        All-map _ _
          (λ f q. elim (Bool-cases (id == f.outbox_id)) [
            | inl here ↦ rw here tt
            | inr other ↦ rw other q
          ])
          w.flights inv.flights;
  }

  Move-Inv : {v w : Workers} → Move cfg requeues v w → Inv P v → Inv P w
  unfolding finish_delivery requeue_delivery delete_outbox
  Move-Inv (begin w id f e) inv = begin-Inv w id f e inv
  Move-Inv (finish db db' before after f now trigger run sent row e) inv =
      finish-Inv db db' before after f now trigger run sent row (db.outbox.row f.outbox_id) refl e
        inv
  Move-Inv (give_up db before after f e) inv = record {
    at = inv.at;
    flights = All-others _ before after f inv.flights;
  }
  Move-Inv (claim w db' nulls_first busy now clock row e) inv =
      let (old, c) = claim-IsClaimed cfg nulls_first busy now clock w.db db' row e in
      subst (λ d. Inv P (record w { db = d })) (sym c.saved)
        (touch-Inv w old.id (leased (now + cfg.lease_seconds) clock) (λ r. refl)
          (kept.lease (now + cfg.lease_seconds) clock) (λ r f q. q) inv)
  Move-Inv (release w id) inv = touch-Inv w id unlocked (λ r. refl) kept.unlock (λ r f q. q) inv
  Move-Inv (enqueue w now id company rule kind event_type envelope unused) inv =
      enqueue-Inv w id _ refl (kept.fresh now id company rule kind event_type envelope) unused inv
  Move-Inv (requeue w db' company id allowed e) inv =
      requeue-Inv w db' company (w.db.outbox.row id) allowed e inv
  Move-Inv (delete_row w id) inv = delete-Inv w id inv

  pub Run-Inv : {s w : Workers} → Run cfg requeues s w → Inv P s → Inv P w
  Run-Inv start inv = inv
  Run-Inv (later r m) inv = Move-Inv m (Run-Inv r inv)

  -- A row that is found in a reachable state.
  pub reached-At :
      (rules : Table ActionRule) (w : Workers) (i : ℕ) (row : ActionOutbox)
      → Run cfg requeues (empty_outbox rules) w
      → w.db.outbox.row i ≡ some row
      → (row.id ≡ i) × P row (w.db.attempts i)
  reached-At rules w i row run there =
      let inv = Run-Inv run (record { at = λ j. refl; flights = tt }) in
      subst (At P w.db.attempts i) there (inv.at i)
