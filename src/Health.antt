-- ===== src/Health.antt =====
-- crates/rollup-boost/src/health.rs: the loop that checks the age of both clients' latest blocks, and
-- the clock that it reads. Instants are nanoseconds of the monotonic clock, timestamps seconds;
-- `u64` does not wrap for timestamps of this kind. The server's replies are arguments.
pub mod Clock
pub mod Report
pub mod Loop
use rollup_boost.Prelude.{
  ℕ, ◌+◌, ◌-◌, ◌/◌, Bool, true, false, ◌||◌, List, [], ◌∷◌, ltb, if◌then◌else◌, Result, ok, err,
}
use rollup_boost.Engine.{Block}
use rollup_boost.Probe.{Health, healthy, partial_content, service_unavailable}
use rollup_boost.Rpc.{RpcClientError}
use rollup_boost.Server.{ExecutionMode, is_disabled, is_dry_run, is_enabled}

pub record MonotonicTimestamp : Type 0 where
  pub last_unix : ℕ
  pub last_instant : ℕ

-- `Duration::as_secs`.
abbrev pub as_secs : ℕ → ℕ
as_secs nanos = nanos / 1000000000

-- The system time and the instant at which the tracker is made.
unfoldable pub new : ℕ → ℕ → MonotonicTimestamp
new unix now = record { last_unix = unix; last_instant = now }

-- `tick`, whose two looks at the clock, `elapsed` and then `now`, are taken to be at one instant: what
-- it returns is the new `last_unix`.
unfoldable pub tick : ℕ → MonotonicTimestamp → MonotonicTimestamp
tick now m =
    let elapsed = as_secs (now - m.last_instant) in
    record { last_unix = m.last_unix + elapsed; last_instant = now }

unfoldable pub ticks : List ℕ → MonotonicTimestamp → MonotonicTimestamp
unfolding tick
ticks [] m = m
ticks (now ∷ nows) m = ticks nows (tick now m)

-- What a round meets: the clients' latest blocks, the modes that its three tests of it read, and the
-- health that stands when it is to be set.
pub record Round : Type 0 where
  pub l2_block : Result RpcClientError Block
  pub builder_block : Result RpcClientError Block
  pub mode_at_disabled : ExecutionMode
  pub mode_at_dry_run : ExecutionMode
  pub mode_at_enabled : ExecutionMode
  pub health : Health

-- `t.saturating_sub(timestamp).gt(&self.max_unsafe_interval)`.
abbrev pub is_too_old : ℕ → ℕ → Block → Bool
is_too_old max_unsafe_interval t block = ltb max_unsafe_interval (t - block.timestamp)

-- The match on the builder's block.
unfoldable pub check_builder : ℕ → ℕ → Result RpcClientError Block → Health
check_builder max_unsafe_interval t (err e) = partial_content
check_builder max_unsafe_interval t (ok block) =
    if is_too_old max_unsafe_interval t block then partial_content else healthy

-- What follows the match on the L2 client's block.
unfoldable pub check_enabled : ℕ → ℕ → Round → Health
unfolding check_builder
check_enabled max_unsafe_interval t r =
    if is_enabled r.mode_at_enabled
    then check_builder max_unsafe_interval t r.builder_block
    else r.health

unfoldable pub check_l2 : ℕ → ℕ → Round → Result RpcClientError Block → Health
unfolding check_enabled
check_l2 max_unsafe_interval t r (err e) = service_unavailable
check_l2 max_unsafe_interval t r (ok block) =
    if is_too_old max_unsafe_interval t block
    then service_unavailable
    else if is_disabled r.mode_at_disabled || is_dry_run r.mode_at_dry_run
    then healthy
    else check_enabled max_unsafe_interval t r

-- One round of the loop: the health that it leaves.
unfoldable pub check : ℕ → ℕ → Round → Health
unfolding check_l2
check max_unsafe_interval t r = check_l2 max_unsafe_interval t r r.l2_block
