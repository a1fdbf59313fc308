-- ===== src/Proxy.antt =====
-- The proxy in front of the engine server (crates/rollup-boost/src/proxy.rs). Texts are lists of code
-- points, as in Auth.
pub mod Routing
pub mod Clients
use rollup_boost.Prelude.{
  ℕ, Bool, true, false, ◌&&◌, ◌||◌, List, [], ◌∷◌, Option, none, some, nat_beq, if◌then◌else◌,
  Result, ok, err, ◌==◌,
}
use rollup_boost.Auth.{Text, text_eq, same_text}
use rollup_boost.Server.{ExecutionMode}
use Prim.Native.Char.{code}
use Prim.Native.String.{String}
use Prim.Native.String

-- The code points of a constant.
abbrev pub text : String → Text
text String.[] = []
text (String.◌∷◌ c s) = code c ∷ text s

abbrev pub engine_method : Text
engine_method = text "engine_"

abbrev pub forward_requests : List Text
forward_requests =
    text "eth_sendRawTransaction"
    ∷ text "eth_sendRawTransactionConditional"
    ∷ text "miner_setExtra"
    ∷ text "miner_setGasPrice"
    ∷ text "miner_setGasLimit"
    ∷ text "miner_setMaxDASize"
    ∷ []

-- `str::starts_with`.
unfoldable pub starts_with : Text → Text → Bool
starts_with [] t = true
starts_with (c ∷ cs) [] = false
starts_with (c ∷ cs) (d ∷ ds) = nat_beq c d && starts_with cs ds

-- `slice::contains`.
unfoldable pub contains : Text → List Text → Bool
contains t [] = false
contains t (u ∷ us) = t == u || contains t us

-- Where a request goes.
pub data Target : Type 0 where
  inner builder l2 : Target

-- The services that the proxy stands before, which see the buffered request; `E` is their error.
-- `forward` of the HTTP clients and the deserialisation of the method are parameters.
pub record Services (R A E : Type 0) : Type 0 where
  pub method : R → Result E Text
  pub call_inner : R → Result E A
  pub forward_l2 : R → Text → Result E A

module _ {R A E : Type 0} (services : Services R A E) where
  -- The targets that see the request, in the order in which they are started, and the answer.
  abbrev pub forward : R → Text → List Target × Result E A
  forward req method =
      if contains method forward_requests
      then (builder ∷ l2 ∷ [], services.forward_l2 req method)
      else (l2 ∷ [], services.forward_l2 req method)

  abbrev pub route : R → Result E Text → List Target × Result E A
  route req (err e) = ([], err e)
  route req (ok method) =
      if starts_with engine_method method
      then (inner ∷ [], services.call_inner req)
      else forward req method

  -- `ProxyService::call`.
  unfoldable pub call : R → List Target × Result E A
  unfolding starts_with contains
  call req = route req (services.method req)
