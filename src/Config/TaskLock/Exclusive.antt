-- ===== src/Config/TaskLock/Exclusive.antt =====
-- Which runs hold the lock of a task at once.
use hosting_service.Base.{
  ℕ, ◌+◌, ◌≤◌, ◌<◌, ◌≡◌, ◌≢◌, refl, sym, ap, subst, ◌∙◌, ◌⊎◌, inl, inr, Bool, true, false, Option,
  none, some, List, [], ◌∷◌, ◌++◌, arith, Text, text_eq, text_eq_iff, text_eq_refl, All, All-map,
  Bool-cases, Option-cases, ltb, All-one, All-others,
}
use hosting_service.Config.TaskLock.{
  Redis, delete_own, release_script, lifetime, LockRun, acquired, take_lock, release_lock, Locks,
  LockMove, wait, acquire, skip, leave, LockMoves, start, later, no_runs,
}

Distinct : List LockRun → Type 0
Distinct [] = Unit
Distinct (r ∷ runs) = All (λ (q : LockRun). r.token ≢ q.token) runs × Distinct runs

same_token : {a b : Text} → some a ≡ some b → a ≡ b
same_token h = cc

less_ltb : (a b : ℕ) → a < b → ltb a b ≡ true
less_ltb a b h = ground arith

over_or_not : (a b : ℕ) → (a ≤ b) ⊎ (b < a)
over_or_not a b = ground arith

split_apart :
    (before after : List LockRun) (run r : LockRun)
    → All (λ (q : LockRun). r.token ≢ q.token) (before ++ run ∷ after)
    → (r.token ≢ run.token) × All (λ (q : LockRun). r.token ≢ q.token) (before ++ after)
split_apart [] after run r (n, h) = (n, h)
split_apart (x ∷ before) after run r (n, h) =
    let (here, rest) = split_apart before after run r h in (here, (n, rest))

-- Tokens of a list of runs that are all different.
others_apart :
    (before after : List LockRun) (run : LockRun)
    → Distinct (before ++ run ∷ after)
    → All (λ (q : LockRun). q.token ≢ run.token) (before ++ after) × Distinct (before ++ after)
unfolding Distinct
others_apart [] after run (apart, d) = (All-map _ _ (λ q n e. n (sym e)) after apart, d)
others_apart (r ∷ before) after run (apart, d) =
    let (rest, d') = others_apart before after run d in
    let (here, there) = split_apart before after run r apart in ((here, rest), (there, d'))

later_apart :
    (before middle after : List LockRun) (r r' : LockRun)
    → Distinct (before ++ r ∷ middle ++ r' ∷ after)
    → r.token ≢ r'.token
unfolding Distinct
later_apart [] middle after r r' (apart, d) = (split_apart middle after r' r apart).0
later_apart (q ∷ before) middle after r r' (apart, d) = later_apart before middle after r r' d

All-two :
    (Q : LockRun → Type 0) (before middle after : List LockRun) (r r' : LockRun)
    → All Q (before ++ r ∷ middle ++ r' ∷ after)
    → Q r × Q r'
All-two Q [] middle after r r' (q, h) = (q, All-one Q middle after r' h)
All-two Q (x ∷ before) middle after r r' (q, h) = All-two Q before middle after r r' h

module _ (R : Redis) where
  open R use {Server, get, set_nx_ex, delete, set_free, set_taken, get_deleted}

  -- Within its time to live, the key of a run has its token.
  abbrev IsHeld : Server → ℕ → LockRun → Type 0
  IsHeld s clock r = (t : ℕ) → clock ≤ t → t < r.expires → get s t r.key ≡ some r.token

  same_pair :
      {a b : Option LockRun} {s t : Server}
      → Path (Option LockRun × Server) (a, s) (b, t)
      → (a ≡ b) × (s ≡ t)
  same_pair h = (ap (λ p. p.0) h, ap (λ p. p.1) h)

  same_run : {a b : LockRun} → some a ≡ some b → a ≡ b
  same_run h = cc

  made_run : ℕ → Text → Text → ℕ → LockRun
  made_run now key token ttl = record { key = key; token = token; expires = now + lifetime ttl }

  -- What the entry of task_lock has done.
  record IsTaken (s : Server) (now : ℕ) (key token : Text) (ttl : ℕ) (run : LockRun) (s' : Server)
      : Type 0 where
    free : get s now key ≡ none
    made : run ≡ made_run now key token ttl
    stored : s' ≡ (set_nx_ex s now key token (lifetime ttl)).1

  taken_cases :
      (run' run : LockRun) (set : Bool × Server) (s' : Server)
      → set.0 ≡ true
      → acquired R run' set ≡ (some run, s')
      → (run ≡ run') × (s' ≡ set.1)
  taken_cases run' run (true, x) s' e h =
      let (one, two) = same_pair h in (sym (same_run one), sym two)
  taken_cases run' run (false, x) s' e h = cc

  take_lock-IsTaken :
      (s : Server) (now : ℕ) (key token : Text) (ttl : ℕ) (run : LockRun) (s' : Server)
      → take_lock R s now key token ttl ≡ (some run, s')
      → IsTaken s now key token ttl run s'
  unfolding take_lock made_run
  take_lock-IsTaken s now key token ttl run s' h = elim (Option-cases (get s now key)) [
    | inl free ↦
        let (made, stored) =
          taken_cases (made_run now key token ttl) run (set_nx_ex s now key token (lifetime ttl)) s'
            (set_free s now key token (lifetime ttl) free).0 h in
        record { free = free; made = made; stored = stored }
    | inr (other, taken) ↦
        cc ((same_pair (rw (set_taken s now key token other (lifetime ttl) taken) at h)).0)
  ]

  not_skipped :
      (run : LockRun) {s s' : Server} (set : Bool × Server)
      → set.0 ≡ true
      → acquired R run set ≡ (none, s')
      → s' ≡ s
  not_skipped run (true, x) e h = cc ((same_pair h).0)
  not_skipped run (false, x) e h = cc

  skipped_same :
      (s : Server) (now : ℕ) (key token : Text) (ttl : ℕ) (s' : Server)
      → take_lock R s now key token ttl ≡ (none, s')
      → s' ≡ s
  unfolding take_lock made_run
  skipped_same s now key token ttl s' h = elim (Option-cases (get s now key)) [
    | inl free ↦
        not_skipped (made_run now key token ttl) (set_nx_ex s now key token (lifetime ttl))
          (set_free s now key token (lifetime ttl) free).0 h
    | inr (other, taken) ↦
        sym (same_pair (rw (set_taken s now key token other (lifetime ttl) taken) at h)).1
  ]

  -- A run keeps its key when another takes a lock that was free …
  keep_taken :
      (s : Server) (now : ℕ) (key token : Text) (ttl : ℕ) (r : LockRun)
      → get s now key ≡ none
      → IsHeld s now r
      → IsHeld (set_nx_ex s now key token ttl).1 now r
  keep_taken s now key token ttl r free held t since lives = elim (Bool-cases (text_eq key r.key)) [
    | inl same ↦ cc (
      sym free,
      ap (get s now) ((text_eq_iff key r.key).0 same) ∙ held now (omega arith) (omega arith),
    )
    | inr other ↦
        (set_free s now key token ttl free).1 t r.key since ∙ (rw other (held t since lives))
  ]

  -- … and when another with another token ends.
  keep_deleted :
      (s : Server) (now : ℕ) (key token : Text) (r : LockRun) (o : Option Text)
      → get s now key ≡ o
      → r.token ≢ token
      → IsHeld s now r
      → IsHeld (delete_own R s now key token o) now r
  keep_deleted s now key token r none e apart held t since lives = held t since lives
  keep_deleted s now key token r (some x) e apart held t since lives =
      elim (Bool-cases (text_eq x token)) [
        | inr other ↦ rw other (held t since lives)
        | inl own ↦ elim (Bool-cases (text_eq key r.key)) [
          | inl same ↦ absurd (
              apart (
                same_token (
                  sym (held now (omega arith) (omega arith))
                  ∙ sym (ap (get s now) ((text_eq_iff key r.key).0 same))
                  ∙ e)
                ∙ (text_eq_iff x token).0 own))
          | inr away ↦ rw own (get_deleted s now key t r.key since ∙ (rw away (held t since lives)))
        ]
      ]

  keep_released :
      (s : Server) (now : ℕ) (reachable : Bool) (run r : LockRun)
      → r.token ≢ run.token
      → IsHeld s now r
      → IsHeld (release_lock R s now reachable run) now r
  unfolding release_script
  keep_released s now false run r apart held = held
  keep_released s now true run r apart held =
      keep_deleted s now run.key run.token r (get s now run.key) refl apart held

  release-All :
      (s : Server) (now : ℕ) (reachable : Bool) (run : LockRun) (runs : List LockRun)
      → All (λ (q : LockRun). q.token ≢ run.token) runs
      → All (IsHeld s now) runs
      → All (IsHeld (release_lock R s now reachable run) now) runs
  release-All s now reachable run [] apart held = tt
  release-All s now reachable run (r ∷ runs) (n, apart) (h, held) =
      (keep_released s now reachable run r n h, release-All s now reachable run runs apart held)

  record LocksInv (w : Locks R) : Type 0 where
    held : All (IsHeld w.server w.clock) w.running
    distinct : Distinct w.running

  acquire-Inv :
      (w : Locks R) (key token : Text) (ttl : ℕ)
      → get w.server w.clock key ≡ none
      → All (λ (r : LockRun). token ≢ r.token) w.running
      → LocksInv w
      → LocksInv (record w {
        server = (set_nx_ex w.server w.clock key token (lifetime ttl)).1;
        running = made_run w.clock key token ttl ∷ w.running;
      })
  unfolding Distinct made_run
  acquire-Inv w key token ttl free fresh inv = record {
    held = (
      λ t since lives.
          (set_free w.server w.clock key token (lifetime ttl) free).1 t key since
          ∙ (rw (text_eq_refl key, less_ltb t (w.clock + lifetime ttl) lives) refl),
      All-map _ _ (λ r. keep_taken w.server w.clock key token (lifetime ttl) r free) w.running
          inv.held,
    );
    distinct = (fresh, inv.distinct);
  }

  pair_path : {a b : LockRun} {s t : Server} → a ≡ b → s ≡ t → Path (LockRun × Server) (a, s) (b, t)
  pair_path p q = λ i. (p i, q i)

  LockMove-Inv : {v w : Locks R} → LockMove R v w → LocksInv v → LocksInv w
  LockMove-Inv (wait w n) inv = record {
    held = All-map _ _ (λ r held t since. held t (omega arith)) w.running inv.held;
    distinct = inv.distinct;
  }
  LockMove-Inv (acquire w key token ttl run server fresh e) inv =
      let t = take_lock-IsTaken w.server w.clock key token ttl run server e in
      subst
        (λ (x : LockRun × Server). LocksInv (record w { server = x.1; running = x.0 ∷ w.running }))
        (sym (pair_path t.made t.stored)) (acquire-Inv w key token ttl t.free fresh inv)
  LockMove-Inv (skip w key token ttl server e) inv =
      subst (λ s. LocksInv (record w { server = s }))
        (sym (skipped_same w.server w.clock key token ttl server e)) inv
  LockMove-Inv (leave server clock before after run reachable) inv =
      let (apart, d) = others_apart before after run inv.distinct in
      record {
        held =
            release-All server clock reachable run (before ++ after) apart
              (All-others _ before after run inv.held);
        distinct = d;
      }

  LockMoves-Inv :
      (s : Server) (clock : ℕ) {w : Locks R} → LockMoves R (no_runs R s clock) w → LocksInv w
  unfolding Distinct
  LockMoves-Inv s clock start = record { held = tt; distinct = tt }
  LockMoves-Inv s clock (later r m) = LockMove-Inv m (LockMoves-Inv s clock r)

-- Whatever the workers do, from any server: of two runs of the same task that are in their blocks
-- at once, the time to live of one is over.
pub one_live_run :
    (R : Redis) (server : R.Server) (clock : ℕ) (w : Locks R) (before middle after : List LockRun)
    (r r' : LockRun)
    → LockMoves R (no_runs R server clock) w
    → w.running ≡ before ++ r ∷ middle ++ r' ∷ after
    → r.key ≡ r'.key
    → (r.expires ≤ w.clock) ⊎ (r'.expires ≤ w.clock)
one_live_run R server clock w before middle after r r' moves order same =
    let inv = LockMoves-Inv R server clock moves in
    let (held, held') =
      All-two (IsHeld R w.server w.clock) before middle after r r'
        (subst (λ l. All (IsHeld R w.server w.clock) l) order inv.held) in
    let apart = later_apart before middle after r r' (subst Distinct order inv.distinct) in
    elim (over_or_not r.expires w.clock) [
      | inl over ↦ inl over
      | inr lives ↦ elim (over_or_not r'.expires w.clock) [
        | inl over ↦ inr over
        | inr lives' ↦ absurd (
            apart (
              same_token (
                sym (held w.clock (omega arith) lives)
                ∙ ap (R.get w.server w.clock) same
                ∙ held' w.clock (omega arith) lives')))
      ]
    ]
