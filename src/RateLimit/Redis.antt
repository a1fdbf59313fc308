-- ===== src/RateLimit/Redis.antt =====
-- `RedisRateLimit` of crates/websocket-proxy/src/rate_limit.rs: tickets counted in Redis for all
-- instances of the proxy together, and the cleanup after instances that are gone. Redis is an
-- environment: it replies as it likes, by the commands that were sent, so that what other instances
-- and tasks do in between is among its replies. Addresses and names stand as they are printed.
pub mod Commands
mod Ensures
pub mod Keys
pub mod Cleanup
pub mod Refusals
pub mod Leaks
use rollup_boost.Prelude.{
  ℕ, zero, suc, ◌+◌, Bool, true, false, ◌&&◌, List, [], ◌∷◌, ◌++◌, Option, none, some, ltb, leb,
  if◌then◌else◌, Result, ok, err, ◌==◌,
}
use rollup_boost.Prelude.Keys.{get}
use rollup_boost.Auth.{Text, split, text_eq, same_text}
use rollup_boost.RateLimit.{Semaphore}
use Commands.{
  Command, keys, get_count, incr, decr, del, set_ex, RedisEnv, Action, ◌>>=◌, pure, fail,
  get_connection, send_keys, send_get, send_write,
}

-- What `format!` makes of parts between colons.
abbrev pub colons : List Text → Text
colons [] = []
colons (p ∷ []) = p
colons (p ∷ (q ∷ ps)) = p ++ (58 ∷ colons (q ∷ ps))

-- `ip`, `app`, `instance`, `connections`, `heartbeat` and `*`.
abbrev pub ip_word : Text
ip_word = 105 ∷ 112 ∷ []

abbrev pub app_word : Text
app_word = 97 ∷ 112 ∷ 112 ∷ []

abbrev pub instance_word : Text
instance_word = 105 ∷ 110 ∷ 115 ∷ 116 ∷ 97 ∷ 110 ∷ 99 ∷ 101 ∷ []

abbrev pub connections_word : Text
connections_word = 99 ∷ 111 ∷ 110 ∷ 110 ∷ 101 ∷ 99 ∷ 116 ∷ 105 ∷ 111 ∷ 110 ∷ 115 ∷ []

abbrev pub heartbeat_word : Text
heartbeat_word = 104 ∷ 101 ∷ 97 ∷ 114 ∷ 116 ∷ 98 ∷ 101 ∷ 97 ∷ 116 ∷ []

abbrev pub star : Text
star = 42 ∷ []

-- The keys, and with a star their patterns.
abbrev pub connections_key : Text → Text → Text → Text → Text
connections_key key_prefix kind name id =
    colons (key_prefix ∷ kind ∷ name ∷ instance_word ∷ id ∷ connections_word ∷ [])

abbrev pub heartbeat_key : Text → Text → Text
heartbeat_key key_prefix id = colons (key_prefix ∷ instance_word ∷ id ∷ heartbeat_word ∷ [])

-- `split(':').nth(n)`.
abbrev pub nth : ℕ → List Text → Option Text
nth n [] = none
nth zero (p ∷ ps) = some p
nth (suc n) (p ∷ ps) = nth n ps

unfoldable pub part : ℕ → Text → Option Text
unfolding split
part n key = nth n (split 58 key)

abbrev pub contains : List Text → Text → Bool
contains [] t = false
contains (s ∷ ss) t = if same_text s t then true else contains ss t

abbrev pub push : Option Text → List Text → List Text
push none ids = ids
push (some id) ids = id ∷ ids

-- The `filter_map` over keys, and the set of the ids in keys, in some order.
abbrev pub active_ids : List Text → List Text
active_ids [] = []
active_ids (k ∷ ks) = push (part 2 k) (active_ids ks)

abbrev pub add_id : Option Text → List Text → List Text
add_id none ids = ids
add_id (some id) ids = if contains ids id then ids else id ∷ ids

abbrev pub instance_ids : List Text → List Text
instance_ids [] = []
instance_ids (k ∷ ks) = add_id (part 4 k) (instance_ids ks)

pub record RedisTicket : Type 0 where
  pub addr : Text
  pub app : Option Text

pub data Refusal : Type 0 where
  instance_full connection_failed operation_failed ip_limit_reached app_limit_reached : Refusal

-- `S` is the semaphore's state.
pub record RedisRateLimit (S : Type 0) : Type 0 where
  pub instance_limit : ℕ
  pub per_ip_limit : ℕ
  pub per_app_limit : List (Text × ℕ)
  pub semaphore : S
  pub key_prefix : Text
  pub instance_id : Text
  pub heartbeat_ttl : ℕ
  pub background_tasks_started : Bool

abbrev pub or_none : Option ℕ → ℕ
or_none none = 0
or_none (some n) = n

module _ (sem : Semaphore) (redis : RedisEnv) where
  abbrev pub Limiter : Type 0
  Limiter = RedisRateLimit sem.State

  -- `new`, apart from the first heartbeat.
  unfoldable pub new : ℕ → ℕ → List (Text × ℕ) → Text → Text → Limiter
  new instance_limit per_ip_limit per_app_limit key_prefix instance_id = record {
    instance_limit = instance_limit;
    per_ip_limit = per_ip_limit;
    per_app_limit = per_app_limit;
    semaphore = sem.new instance_limit;
    key_prefix = key_prefix;
    instance_id = instance_id;
    heartbeat_ttl = 30;
    background_tasks_started = false;
  }

  unfoldable pub update_heartbeat : ℕ → Limiter → Action (Unit {0}) (Unit {0})
  update_heartbeat now l = do
    _ ← get_connection redis tt
    send_write redis tt (set_ex (heartbeat_key l.key_prefix l.instance_id) now l.heartbeat_ttl)

  unfoldable pub del_all : List Text → Action (Unit {0}) (Unit {0})
  del_all [] = pure tt
  del_all (k ∷ ks) = do _ ← send_write redis tt (del k); del_all ks

  unfoldable pub cleanup_instance : Limiter → Text → Action (Unit {0}) (Unit {0})
  unfolding del_all
  cleanup_instance l id = do
    ip_instance_keys ← send_keys redis tt (connections_key l.key_prefix ip_word star id)
    app_instance_keys ← send_keys redis tt (connections_key l.key_prefix app_word star id)
    _ ← del_all ip_instance_keys
    del_all app_instance_keys

  -- The loops over the ids found: its own id and those with a heartbeat are left alone.
  unfoldable pub cleanup_each : Limiter → List Text → List Text → Action (Unit {0}) (Unit {0})
  unfolding cleanup_instance
  cleanup_each l active [] = pure tt
  cleanup_each l active (id ∷ ids) =
      let rest = cleanup_each l active ids in
      if same_text id l.instance_id
      then rest
      else (if contains active id then rest else (cleanup_instance l id >>= λ u. rest))

  unfoldable pub cleanup_stale_instances : Limiter → Action (Unit {0}) (Unit {0})
  unfolding cleanup_each
  cleanup_stale_instances l = do
    _ ← get_connection redis tt
    instance_heartbeats ← send_keys redis tt (heartbeat_key l.key_prefix star)
    ip_instance_keys ← send_keys redis tt (connections_key l.key_prefix ip_word star star)
    app_instance_keys ← send_keys redis tt (connections_key l.key_prefix app_word star star)
    _ ← cleanup_each l (active_ids instance_heartbeats) (instance_ids ip_instance_keys)
    cleanup_each l (active_ids instance_heartbeats) (instance_ids app_instance_keys)

  -- The sum of the counts under some keys; one that cannot be read counts as 0.
  unfoldable pub total : List Text → Action Refusal ℕ
  total [] = pure 0
  total (k ∷ ks) = do count ← send_get redis k; rest ← total ks; pure (or_none count + rest)

  abbrev pub below : Refusal → ℕ → ℕ → Action Refusal (Unit {0})
  below e n limit = if leb limit n then fail e else pure tt

  -- The counters of one kind for one name: all instances' together are below the limit, and the own
  -- one is raised.
  unfoldable pub count_one : Refusal → Text → Text → ℕ → Limiter → Action Refusal (Unit {0})
  unfolding total
  count_one e kind name limit l = do
    found ← send_keys redis operation_failed (connections_key l.key_prefix kind name star)
    n ← total found
    _ ← below e n limit
    send_write redis operation_failed (incr (connections_key l.key_prefix kind name l.instance_id))

  unfoldable pub count_ip : Text → Limiter → Action Refusal (Unit {0})
  unfolding count_one
  count_ip addr l =
      if ltb 0 l.per_ip_limit
      then count_one ip_limit_reached ip_word addr l.per_ip_limit l
      else pure tt

  unfoldable pub count_app : Option Text → Limiter → Action Refusal (Unit {0})
  unfolding count_one
  count_app none l = pure tt
  count_app (some app) l =
      count_one app_limit_reached app_word app (or_none (get app l.per_app_limit)) l

  unfoldable pub count_both : Text → Option Text → Limiter → Action Refusal (Unit {0})
  unfolding count_ip count_app
  count_both addr app l = do
    _ ← get_connection redis connection_failed
    _ ← count_ip addr l
    count_app app l

  abbrev pub ticket_or_refusal :
      Text
      → Option Text
      → Result Refusal (Unit {0}) × List Command
      → Limiter
      → Result Refusal RedisTicket × Limiter × List Command
  ticket_or_refusal addr app (ok u, log) l = (ok (record { addr = addr; app = app }), l, log)
  ticket_or_refusal addr app (err e, log) l =
      (err e, record l { semaphore = sem.release l.semaphore }, log)

  abbrev pub with_permit :
      Option sem.State
      → Text
      → Option Text
      → Limiter
      → List Command
      → Result Refusal RedisTicket × Limiter × List Command
  with_permit none addr app l log = (err instance_full, l, log)
  with_permit (some taken) addr app l log =
      ticket_or_refusal addr app (count_both addr app l log) (record l { semaphore = taken })

  unfoldable pub try_acquire :
      Text
      → Option Text
      → Limiter
      → List Command
      → Result Refusal RedisTicket × Limiter × List Command
  unfolding count_both
  try_acquire addr app l log =
      with_permit (sem.try_acquire_owned l.semaphore) addr app
        (record l { background_tasks_started = true }) log

  -- The errors of `decr` are logged.
  abbrev pub lower : Command → List Command → List Command
  lower c log = (send_write redis tt c log).1

  abbrev pub lower_ip : Text → Limiter → List Command → List Command
  lower_ip addr l log =
      if ltb 0 l.per_ip_limit
      then lower (decr (connections_key l.key_prefix ip_word addr l.instance_id)) log
      else log

  abbrev pub lower_app : Option Text → Limiter → List Command → List Command
  lower_app none l log = log
  lower_app (some app) l log =
      lower (decr (connections_key l.key_prefix app_word app l.instance_id)) log

  unfoldable pub release : Text → Option Text → Limiter → List Command → List Command
  release addr app l log = if redis.connects log then lower_app app l (lower_ip addr l log) else log

  unfoldable pub drop_ticket : RedisTicket → Limiter → List Command → Limiter × List Command
  unfolding release
  drop_ticket t l log =
      (record l { semaphore = sem.release l.semaphore }, release t.addr t.app l log)
