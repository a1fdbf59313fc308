-- ===== src/RateLimit/Redis/Ensures.antt =====
-- What code over Redis keeps true of the commands sent, and what it leaves when it returns or fails
-- (crates/websocket-proxy/src/rate_limit.rs).
use rollup_boost.Prelude.{
  Bool, true, false, List, [], ◌∷◌, ◌++◌, Option, none, some, if◌then◌else◌, Result, ok, err, ◌≡◌,
  refl,
}
use rollup_boost.Auth.{Text}
use rollup_boost.RateLimit.Redis.Commands.{
  Command, RedisEnv, Action, and_then, ◌>>=◌, get_connection, send_keys, send_write, keys, reply_or,
}

abbrev pub Post :
    {E A : Type 0} → (A → List Command → Type 0) → (E → Type 0) → Result E A × List Command → Type 0
Post q f (ok a, log) = q a log
Post q f (err e, log) = f e

-- From commands of which `r` holds on, `m` keeps `r`, leaves `q` when it returns, and fails with an
-- error of `f`.
abbrev pub Ensures :
    {E A : Type 0}
    → (List Command → Type 0)
    → (A → List Command → Type 0)
    → (E → Type 0)
    → Action E A
    → Type 0
Ensures r q f m = (log : List Command) → r log → r (m log).1 × Post q f (m log)

and_then-Ensures :
    {E A B : Type 0} (r : List Command → Type 0) (q : A → List Command → Type 0)
    (q' : B → List Command → Type 0) (f : E → Type 0) (x : Result E A × List Command)
    (k : A → Action E B)
    → r x.1
    → Post q f x
    → ((a : A) (log : List Command) → r log → q a log → r (k a log).1 × Post q' f (k a log))
    → r (and_then x k).1 × Post q' f (and_then x k)
and_then-Ensures r q q' f (ok a, log) k h p g = g a log h p
and_then-Ensures r q q' f (err e, log) k h p g = (h, p)

pub bind-Ensures :
    {E A B : Type 0} (r : List Command → Type 0) (q : A → List Command → Type 0)
    (q' : B → List Command → Type 0) (f : E → Type 0) (m : Action E A) (k : A → Action E B)
    → Ensures r q f m
    → ((a : A) (log : List Command) → r log → q a log → r (k a log).1 × Post q' f (k a log))
    → Ensures r q' f (m >>= k)
bind-Ensures r q q' f m k h g log i =
    let (kept, left) = h log i in and_then-Ensures r q q' f (m log) k kept left g

-- What holds of a list of commands holds of it with one more.
abbrev pub IsKeptBy : (List Command → Type 0) → Command → Type 0
IsKeptBy r c = (log : List Command) → r log → r (log ++ (c ∷ []))

abbrev pub Always : {A : Type 0} → A → List Command → Type 0
Always a log = Unit {0}

if-Post :
    {E : Type 0} (q : Unit {0} → List Command → Type 0) (f : E → Type 0) (b : Bool) (e : E)
    (log : List Command)
    → q tt log
    → f e
    → Post q f (if b then ok tt else err e, log)
if-Post q f true e log h k = h
if-Post q f false e log h k = k

reply-Post :
    {E : Type 0} (f : E → Type 0) (o : Option (List Text)) (e : E) (log : List Command)
    → f e
    → Post (λ ks l. o ≡ some ks) f (reply_or e o, log)
reply-Post f none e log h = h
reply-Post f (some ks) e log h = refl

module _ (redis : RedisEnv) {E : Type 0} (r : List Command → Type 0) (f : E → Type 0) where
  pub get_connection-Ensures : (e : E) → f e → Ensures r Always f (get_connection redis e)
  get_connection-Ensures e h log i = (i, if-Post Always f (redis.connects log) e log tt h)

  pub send_write-Ensures :
      (e : E) (c : Command) → f e → IsKeptBy r c → Ensures r Always f (send_write redis e c)
  send_write-Ensures e c h k log i =
      (k log i, if-Post Always f (redis.succeeds c log) e (log ++ (c ∷ [])) tt h)

  pub send_keys-Ensures :
      (e : E) (p : Text)
      → f e
      → IsKeptBy r (keys p)
      → Ensures r
          (λ ks l. (before : List Command) × (redis.found p before ≡ some ks))
          f
          (send_keys redis e p)
  send_keys-Ensures e p h k log i = (k log i, weaken (redis.found p log) refl)
    where
      weaken :
          (o : Option (List Text))
          → redis.found p log ≡ o
          → Post
              (λ ks l. (before : List Command) × (redis.found p before ≡ some ks))
              f
              (reply_or e o, log ++ (keys p ∷ []))
      weaken none x = h
      weaken (some ks) x = (log, x)
