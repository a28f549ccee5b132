-- ===== src/Tests/Platform.antt =====
-- Examples on the lock of tasks, the client address, the keys of the identity service, and retention.
use hosting_service.Base.{
  ℕ, ◌+◌, ◌≤◌, ◌≡◌, ◌≢◌, refl, ◌⊎◌, inl, inr, Bool, true, false, Option, none, some, List, [], ◌∷◌,
  arith, Text, codes, text_eq, text_eq_iff, starts_with, strip, strip_left, strip_right, strip_both,
  is_space, split, Bool-cases, if◌then◌else◌, ltb, ok,
}
use hosting_service.Hosting.Models.{no_rows, insert}
use hosting_service.Actions.Values.{end}
use hosting_service.Actions.Rows.{ActionOutbox, delivered, webhook}
use hosting_service.Actions.Outbox.{new_outbox}
use hosting_service.Actions.Retention.{Purge, PurgeDb, purge_expired_data, count_expired_data}
use hosting_service.Actions.Retention.Keys.{Apart}
use hosting_service.Actions.Retention.Whole.{purge_expired_data-dry_run}
use hosting_service.Config.ClientIp.{
  Addresses, get_client_ip, parse_ip_hop, ip_in_trusted_proxies, first_untrusted, xff_hops,
  before_char,
}
use hosting_service.Config.ClientIp.Proxies.{IsClient, get_client_ip-IsClient}
use hosting_service.Config.TaskLock.{
  Redis, LockRun, Locks, LockMoves, start, later, acquire, wait, no_runs, take_lock,
}
use hosting_service.Config.TaskLock.Exclusive.{one_live_run}
use hosting_service.Authapi.Jwks.{
  JwkEntry, document, JwksSettings, JwksClient, keys_of, find_key, set_key, add_entries,
  fetch_document, refresh, get_signing_key,
}
use hosting_service.Authapi.Jwks.Known.{IsLoaded, get_signing_key-IsKnown}
use hosting_service.Authapi.Jwks.Rotation.{get_signing_key-rotated}

-- Addresses that are read as they are written.
abbrev texts_as_addresses : Addresses Text
texts_as_addresses = record {
  ip_address = λ s. some s;
  text_of = λ s. s;
  same = text_eq;
  ipv4_mapped = λ s. none;
  in_network = λ s entry. none;
  network_64 = λ s. none;
}

client_found :
    get_client_ip texts_as_addresses
      (codes "10.0.0.1" ∷ [])
      (some (codes "10.0.0.1"))
      (some (codes "6.6.6.6, 203.0.113.9, 10.0.0.1"))
    ≡ some (codes "203.0.113.9")
unfolding get_client_ip parse_ip_hop ip_in_trusted_proxies first_untrusted xff_hops before_char
    split strip strip_both strip_left strip_right is_space starts_with
client_found = refl

get_client_ip-IsClient_example :
    IsClient texts_as_addresses
      (codes "10.0.0.1" ∷ [])
      (some (codes "10.0.0.1"))
      (some (codes "6.6.6.6, 203.0.113.9, 10.0.0.1"))
      (codes "203.0.113.9")
get_client_ip-IsClient_example =
    get_client_ip-IsClient texts_as_addresses (codes "10.0.0.1" ∷ []) (some (codes "10.0.0.1"))
      (some (codes "6.6.6.6, 203.0.113.9, 10.0.0.1")) (codes "203.0.113.9") client_found

-- A Redis server in memory.
record Entry : Type 0 where
  token : Text
  expires : ℕ

abbrev Store : Type 0
Store = Text → Option Entry

abbrev live : ℕ → Option Entry → Option Text
live now none = none
live now (some e) = if ltb now e.expires then some e.token else none

abbrev put : Text → Option Entry → Store → Store
put key o store k = if text_eq key k then o else store k

abbrev set_if_free : Store → Text → Entry → Option Text → Bool × Store
set_if_free store key e none = (true, put key (some e) store)
set_if_free store key e (some other) = (false, store)

stored_at :
    (key k : Text) (e : Entry) (store : Store) (t : ℕ)
    → live t (put key (some e) store k)
      ≡ (if text_eq key k then if ltb t e.expires then some e.token else none else live t (store k))
stored_at key k e store t = elim (Bool-cases (text_eq key k)) [
  | inl same ↦ rw same refl
  | inr other ↦ rw other refl
]

deleted_at :
    (key k : Text) (store : Store) (t : ℕ)
    → live t (put key none store k) ≡ (if text_eq key k then none else live t (store k))
deleted_at key k store t = elim (Bool-cases (text_eq key k)) [
  | inl same ↦ rw same refl
  | inr other ↦ rw other refl
]

abbrev memory : Redis
memory = record {
  Server = Store;
  get = λ s t k. live t (s k);
  set_nx_ex = λ s now key token ttl.
      set_if_free s key (record { token = token; expires = now + ttl }) (live now (s key));
  delete = λ s now key. put key none s;
  set_free = λ s now key token ttl free.
      rw free
        (refl, λ t k since. stored_at key k (record { token = token; expires = now + ttl }) s t);
  set_taken = λ s now key token other ttl taken. rw taken refl;
  get_deleted = λ s now key t k since. deleted_at key k s t;
}

-- A run outlives its lock, and another takes it.
abbrev slow_run : LockRun
slow_run = record { key = codes "k"; token = codes "a"; expires = 10 }

abbrev next_run : LockRun
next_run = record { key = codes "k"; token = codes "b"; expires = 30 }

abbrev first_store : Store
first_store = put (codes "k") (some (record { token = codes "a"; expires = 10 })) (λ key. none)

abbrev second_store : Store
second_store = put (codes "k") (some (record { token = codes "b"; expires = 30 })) first_store

first_taken :
    take_lock memory (λ key. none) 0 (codes "k") (codes "a") 10 ≡ (some slow_run, first_store)
unfolding take_lock
first_taken = refl

second_taken :
    take_lock memory first_store 20 (codes "k") (codes "b") 10 ≡ (some next_run, second_store)
unfolding take_lock
second_taken = refl

abbrev both_running : Locks memory
both_running = record { server = second_store; clock = 20; running = next_run ∷ slow_run ∷ [] }

other_token : codes "b" ≢ codes "a"
other_token e = cc ((text_eq_iff (codes "b") (codes "a")).1 e)

both_reached : LockMoves memory (no_runs memory (λ key. none) 0) both_running
both_reached =
    later
      (later
        (later start (
          acquire (no_runs memory (λ key. none) 0) (codes "k") (codes "a") 10 slow_run first_store
            tt first_taken))
        (wait (record { server = first_store; clock = 0; running = slow_run ∷ [] }) 20))
      (acquire (record { server = first_store; clock = 20; running = slow_run ∷ [] }) (codes "k")
        (codes "b") 10 next_run second_store (other_token, tt) second_taken)

one_live_run_example : (30 ≤ 20) ⊎ (10 ≤ 20)
one_live_run_example =
    one_live_run memory (λ key. none) 0 both_running [] [] [] next_run slow_run both_reached refl
      refl

-- Keys that are numbers, and a service that publishes a second one.
abbrev old_keys : List (JwkEntry ℕ)
old_keys = record { kid = some (codes "one"); jwk = some 1 } ∷ []

abbrev new_keys : List (JwkEntry ℕ)
new_keys = record { kid = some (codes "two"); jwk = some 2 } ∷ old_keys

abbrev jwks : JwksSettings ℕ
jwks = record { ttl = 900; retries = 2; static_document = none; number_text = λ n. [] }

abbrev old_client : JwksClient ℕ
old_client = record { fetched_at = 100; keys = keys_of jwks old_keys; raw = old_keys }

abbrev new_client : JwksClient ℕ
new_client = record { fetched_at = 120; keys = keys_of jwks new_keys; raw = new_keys }

key_found :
    get_signing_key jwks
      (λ i. document new_keys)
      (λ i. document new_keys)
      110
      120
      (some (codes "two"))
      old_client
    ≡ ok (new_client, some 2)
unfolding get_signing_key refresh fetch_document find_key add_entries set_key
key_found = refl

get_signing_key-IsKnown_example :
    (name : Text) × (some (codes "two") ≡ some name)
    × (find_key name (keys_of jwks new_keys) ≡ some 2)
    × IsLoaded jwks new_client
get_signing_key-IsKnown_example =
    get_signing_key-IsKnown jwks (λ i. document new_keys) (λ i. document new_keys) 110 120
      (some (codes "two")) old_client new_client 2 (record { loaded = refl; static = tt }) key_found

two_published : find_key (codes "two") (keys_of jwks new_keys) ≡ some 2
unfolding find_key add_entries set_key
two_published = refl

two_unknown : find_key (codes "two") (keys_of jwks old_keys) ≡ none
unfolding find_key add_entries set_key
two_unknown = refl

new_fetched : fetch_document (λ i. document new_keys) 2 1 ≡ some new_keys
unfolding fetch_document
new_fetched = refl

get_signing_key-rotated_example :
    (c' : JwksClient ℕ) × (get_signing_key jwks
        (λ i. document new_keys)
        (λ i. document new_keys)
        110
        120
        (some (codes "two"))
        old_client
      ≡ ok (c', some 2))
get_signing_key-rotated_example =
    get_signing_key-rotated jwks new_keys (codes "two") 2 (λ i. document new_keys)
      (λ i. document new_keys) 110 120 old_client refl two_published (inl two_unknown) new_fetched
      new_fetched

-- One old delivery that is finished, and one that is not.
abbrev old_row : ℕ → ActionOutbox
old_row id = new_outbox 5 id 7 none webhook (codes "e") end

abbrev old_rows : PurgeDb
old_rows = record {
  events = no_rows;
  outbox = insert 1 (record (old_row 1) { status = delivered }) (insert 2 (old_row 2) no_rows);
  runs =
      insert 8 (record { job = codes "retry_webhooks"; started_at = 3; finished_at = none })
        no_rows;
}

abbrev monthly : Purge
monthly = record { setting = 30; now = 10000000; batch_size = 2; is_late = λ t k. false }

two_keys : Apart (1 ∷ 2 ∷ [])
unfolding Apart
two_keys = (refl, (refl, tt))

one_key : Apart (8 ∷ [])
unfolding Apart
one_key = (refl, tt)

no_key : Apart []
unfolding Apart
no_key = tt

purge_expired_data-dry_run_example :
    (purge_expired_data monthly old_rows).0 ≡ count_expired_data monthly old_rows
purge_expired_data-dry_run_example =
    purge_expired_data-dry_run monthly old_rows (omega arith) (λ t k. refl) no_key two_keys one_key
