-- ===== src/RateLimit/Redis/Commands.antt =====
-- The commands that crates/websocket-proxy/src/rate_limit.rs sends to Redis, and code that sends
-- them and may stop with an error.
use rollup_boost.Prelude.{
  ℕ, Bool, List, [], ◌∷◌, ◌++◌, Option, none, some, if◌then◌else◌, Result, ok, err,
}
use rollup_boost.Auth.{Text}

pub data Command : Type 0 where
  keys get_count incr decr del : Text → Command
  set_ex : Text → ℕ → ℕ → Command

-- The replies, by the commands sent before; `none` and `false` are errors.
pub record RedisEnv : Type 0 where
  pub connects : List Command → Bool
  pub found : Text → List Command → Option (List Text)
  pub count : Text → List Command → Option ℕ
  pub succeeds : Command → List Command → Bool

-- Code that fails with an `E` or returns an `A`, over the commands sent so far.
abbrev pub Action : Type 0 → Type 0 → Type 0
Action E A = List Command → Result E A × List Command

abbrev pub and_then :
    {E A B : Type 0} → Result E A × List Command → (A → Action E B) → Result E B × List Command
and_then (ok a, log) f = f a log
and_then (err e, log) f = (err e, log)

infixl 5 ◌>>=◌
abbrev pub ◌>>=◌ : {E A B : Type 0} → Action E A → (A → Action E B) → Action E B
◌>>=◌ m f log = and_then (m log) f

abbrev pub pure : {E A : Type 0} → A → Action E A
pure a log = (ok a, log)

abbrev pub fail : {E A : Type 0} → E → Action E A
fail e log = (err e, log)

abbrev pub reply_or : {E A : Type 0} → E → Option A → Result E A
reply_or e none = err e
reply_or e (some a) = ok a

module _ (redis : RedisEnv) where
  abbrev pub get_connection : {E : Type 0} → E → Action E (Unit {0})
  get_connection e log = (if redis.connects log then ok tt else err e, log)

  abbrev pub send_keys : {E : Type 0} → E → Text → Action E (List Text)
  send_keys e pattern_text log =
      (reply_or e (redis.found pattern_text log), log ++ (keys pattern_text ∷ []))

  abbrev pub send_get : {E : Type 0} → Text → Action E (Option ℕ)
  send_get key log = (ok (redis.count key log), log ++ (get_count key ∷ []))

  abbrev pub send_write : {E : Type 0} → E → Command → Action E (Unit {0})
  send_write e c log = (if redis.succeeds c log then ok tt else err e, log ++ (c ∷ []))
