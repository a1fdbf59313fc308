-- ===== src/Tests/Forwarding.antt =====
-- The theorems on the proxy, with methods for bodies.
use rollup_boost.Prelude.{ℕ, ℤ, ◌≡◌, ◌↔◌, refl, [], ◌∷◌, Option, none, some, ok, All, Any, false}
use rollup_boost.Prelude.Attempt.{done}
use rollup_boost.Prelude.Keys
use rollup_boost.Auth.{Text}
use rollup_boost.Payload.{PayloadSource}
use rollup_boost.Proxy.{
  text, engine_method, forward_requests, starts_with, contains, builder, Services, call,
}
use rollup_boost.Proxy.Routing.{builder_sees_iff}
use rollup_boost.Proxy.Clients.{
  Incoming, Proxied, into_buffered_request, serve, leaving, LeavesFor, serve-LeavesFor, l2_response,
}
use rollup_boost.Http.{
  Request, Response, HttpClient, HttpEnv, forward, outgoing, authorized, secret_to_bearer_header,
  parse_response_code,
}
use rollup_boost.Http.Forward.{IsFor, IsAnswer}

-- Methods that are requests, and clients that answer with the method.
abbrev echo : Services Text Text ℕ
echo = record { method = λ r. ok r; call_inner = λ r. ok r; forward_l2 = λ r m. ok m }

builder_sees_iff_example :
    Any (λ t. t ≡ builder) (call echo (text "miner_setExtra")).0
    ↔ Any (λ u. text "miner_setExtra" ≡ u) forward_requests
builder_sees_iff_example =
    builder_sees_iff echo (text "miner_setExtra") (text "miner_setExtra") refl

-- A service that answers with the body after 7 ms.
abbrev env : HttpEnv ℕ
env = record {
  now = some 100;
  encode = λ secret iat. some (secret ∷ iat ∷ []);
  header_value = λ v. some v;
  ready = ok tt;
  decompression = λ r. r;
  decoded = λ p b. (p, b);
  answer = λ r. (7, ok (record { status = 200; headers = [] }, ok r.body));
  elapsed = 0;
  error_code = λ b. ok none;
  decompression_uri = λ r. refl;
  decompression_verb = λ r. refl;
  decompression_body = λ r. refl;
  decoded_status = λ p b. refl;
  decoded_plain = λ p b h. refl;
}

abbrev client : PayloadSource → ℕ → HttpClient
client source secret = record { url = text "http"; secret = secret; target = source; timeout = 10 }

abbrev proxied : Proxied ℕ
proxied = record {
  l2_client = client PayloadSource.l2 1;
  builder_client = client PayloadSource.builder 2;
  l2_env = env;
  builder_env = env;
  inner = λ r. done (record { parts = record { status = 404; headers = [] }; body = [] });
  method = λ b. ok b;
}

abbrev incoming : Incoming ℕ
incoming = record {
  verb = text "POST";
  uri = text "/";
  headers = (text "authorization", text "x") ∷ [];
  body = ok (text "miner_setExtra");
}

abbrev buffered : Request
buffered = record {
  verb = text "POST";
  uri = text "/";
  headers = (text "authorization", text "x") ∷ [];
  body = text "miner_setExtra";
}

abbrev answered : Response
answered = record { parts = record { status = 200; headers = [] }; body = text "miner_setExtra" }

is_buffered : into_buffered_request incoming ≡ ok buffered
unfolding into_buffered_request
is_buffered = refl

is_answered : (serve proxied incoming).1 ≡ done answered
unfolding serve into_buffered_request call starts_with contains leaving forward outgoing authorized
    secret_to_bearer_header parse_response_code Keys.insert Keys.remove
is_answered = refl

no_engine : starts_with engine_method (text "miner_setExtra") ≡ false
unfolding starts_with
no_engine = refl

serve-LeavesFor_example : All (λ x. LeavesFor proxied buffered x) (serve proxied incoming).0
serve-LeavesFor_example = serve-LeavesFor proxied incoming buffered is_buffered

l2_response_example :
    (out : Request) × (code : Option ℤ) × IsFor env (client PayloadSource.l2 1) buffered out
    × IsAnswer env (client PayloadSource.l2 1) out answered
    × (env.error_code answered.body ≡ ok code)
l2_response_example =
    l2_response proxied incoming buffered (text "miner_setExtra") answered is_buffered refl
      no_engine is_answered
