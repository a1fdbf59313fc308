-- ===== src/Probe.antt =====
-- crates/rollup-boost/src/probe.rs: the health status, and the probe endpoints in front of a service.
use rollup_boost.Prelude.{ℕ, String, if◌then◌else◌, ◌==◌, string_eq}

pub data Health : Type 0 where
  healthy partial_content service_unavailable : Health

-- `#[default]`.
abbrev pub default : Health
default = healthy

-- `Response::from(health)`, as its status code.
unfoldable pub response_status : Health → ℕ
response_status healthy = 200
response_status partial_content = 206
response_status service_unavailable = 503

-- `ProbeService::call`: the status of a probe, or the answer of the inner service.
pub data Answer (R : Type 0) : Type 0 where
  probe : ℕ → Answer R
  inner : R → Answer R

unfoldable pub call : {R : Type 0} → (String → R) → Health → String → Answer R
unfolding response_status
call service health path =
    if path == "/healthz"
    then probe (response_status health)
    else if path == "/readyz"
    then probe 200
    else if path == "/livez"
    then probe 200
    else inner (service path)
