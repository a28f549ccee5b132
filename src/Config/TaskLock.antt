-- ===== src/Config/TaskLock.antt =====
-- config/task_lock.py: the lock of a scheduled task, on a Redis server that the workers share.
use hosting_service.Base.{
  ℕ, ◌+◌, ◌≤◌, ◌≡◌, ◌≢◌, Bool, true, false, Option, none, some, List, [], ◌∷◌, ◌++◌, Text, codes,
  text_eq, All, if◌then◌else◌, ltb,
}
pub mod Exclusive

-- The server: `GET`, `SET … NX EX` (whether it was set, and the server after it) and `DEL`, each at
-- a time, with what Redis documents of them.
pub record Redis : Type 1 where
  pub Server : Type 0
  pub get : Server → ℕ → Text → Option Text
  pub set_nx_ex : Server → ℕ → Text → Text → ℕ → Bool × Server
  pub delete : Server → ℕ → Text → Server
  pub set_free :
      (s : Server) (now : ℕ) (key token : Text) (ttl : ℕ)
      → get s now key ≡ none
      → ((set_nx_ex s now key token ttl).0 ≡ true)
        × ((t : ℕ) (k : Text)
            → now ≤ t
            → get (set_nx_ex s now key token ttl).1 t k ≡ (
                if text_eq key k
                then if ltb t (now + ttl) then some token else none
                else get s t k))
  pub set_taken :
      (s : Server) (now : ℕ) (key token other : Text) (ttl : ℕ)
      → get s now key ≡ some other
      → set_nx_ex s now key token ttl ≡ (false, s)
  pub get_deleted :
      (s : Server) (now : ℕ) (key : Text) (t : ℕ) (k : Text)
      → now ≤ t
      → get (delete s now key) t k ≡ (if text_eq key k then none else get s t k)

abbrev pub lock_key : Text → Text → Text
lock_key prefix name = prefix ++ codes ":lock:" ++ name

-- `max(1, int(ttl))`
abbrev pub lifetime : ℕ → ℕ
lifetime ttl = if ltb ttl 1 then 1 else ttl

-- A run that is in its `with` block; its key expires then.
pub record LockRun : Type 0 where
  pub key : Text
  pub token : Text
  pub expires : ℕ

module _ (R : Redis) where
  open R use {Server, get, set_nx_ex, delete}

  abbrev pub delete_own : Server → ℕ → Text → Text → Option Text → Server
  delete_own s now key token none = s
  delete_own s now key token (some held) = if text_eq held token then delete s now key else s

  -- `_RELEASE_SCRIPT`
  unfoldable pub release_script : Server → ℕ → Text → Text → Server
  release_script s now key token = delete_own s now key token (get s now key)

  -- The entry of `task_lock`: the run that holds the lock, or none where another does.
  abbrev pub acquired : LockRun → Bool × Server → Option LockRun × Server
  acquired run (false, s) = (none, s)
  acquired run (true, s) = (some run, s)

  unfoldable pub take_lock : Server → ℕ → Text → Text → ℕ → Option LockRun × Server
  take_lock s now key token ttl =
      acquired (record { key = key; token = token; expires = now + lifetime ttl })
        (set_nx_ex s now key token (lifetime ttl))

  -- The end of the block; a server that cannot be reached is let be.
  abbrev pub release_lock : Server → ℕ → Bool → LockRun → Server
  release_lock s now reachable run = if reachable then release_script s now run.key run.token else s

  -- The server, the clock, and the runs that took their lock.
  pub record Locks : Type 0 where
    pub server : Server
    pub clock : ℕ
    pub running : List LockRun

  pub data LockMove : Locks → Locks → Type 0 where
    wait : (w : Locks) (n : ℕ) → LockMove w (record w { clock = w.clock + n })
    acquire :
        (w : Locks) (key token : Text) (ttl : ℕ) (run : LockRun) (server : Server)
        → All (λ (r : LockRun). token ≢ r.token) w.running
        → take_lock w.server w.clock key token ttl ≡ (some run, server)
        → LockMove w (record w { server = server; running = run ∷ w.running })
    skip :
        (w : Locks) (key token : Text) (ttl : ℕ) (server : Server)
        → take_lock w.server w.clock key token ttl ≡ (none, server)
        → LockMove w (record w { server = server })
    leave :
        (server : Server) (clock : ℕ) (before after : List LockRun) (run : LockRun)
        (reachable : Bool)
        → LockMove
            (record { server = server; clock = clock; running = before ++ run ∷ after })
            (record {
              server = release_lock server clock reachable run;
              clock = clock;
              running = before ++ after;
            })

  pub data LockMoves (s : Locks) : Locks → Type 0 where
    start : LockMoves s s
    later : {v w : Locks} → LockMoves s v → LockMove v w → LockMoves s w

  abbrev pub no_runs : Server → ℕ → Locks
  no_runs server clock = record { server = server; clock = clock; running = [] }
