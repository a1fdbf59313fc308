-- ===== src/Http.antt =====
-- The clients that forward HTTP requests: crates/rollup-boost/src/client/http.rs over client/auth.rs,
-- and the arguments they are made from, client/rpc.rs. The connection, JSON, the encoding of tokens
-- and the layer for compressed bodies are libraries; texts are lists of code points, as in Auth.
pub mod Forward
use rollup_boost.Prelude.{
  ℕ, ℤ, List, [], ◌∷◌, ◌++◌, Option, none, some, ltb, if◌then◌else◌, Result, ok, err, ◌≡◌,
}
use rollup_boost.Prelude.Attempt.{Attempt, done, failed, ◌>>=◌, expect, try_result}
use rollup_boost.Prelude.Keys.{insert, get}
use rollup_boost.Auth.{Text, text_eq}
use rollup_boost.Payload.{PayloadSource}
use rollup_boost.Proxy.{text}

pub record Request : Type 0 where
  pub verb : Text
  pub uri : Text
  pub headers : List (Text × Text)
  pub body : Text

pub record Parts : Type 0 where
  pub status : ℕ
  pub headers : List (Text × Text)

pub record Response : Type 0 where
  pub parts : Parts
  pub body : Text

-- A secret stands as a number. The timeout is in milliseconds.
pub record HttpClient : Type 0 where
  pub url : Text
  pub secret : ℕ
  pub target : PayloadSource
  pub timeout : ℕ

abbrev pub authorization : Text
authorization = text "authorization"

abbrev pub content_encoding : Text
content_encoding = text "content-encoding"

-- `E` are the errors. `now` is none before the epoch; `decompression` is what that layer does to a
-- request, and `decoded` what it does to a response: its status stays, and so does all of one whose
-- body is not encoded; `answer` is when the service answers a request, and how; `error_code` reads a
-- body as a JSON-RPC response.
pub record HttpEnv (E : Type 0) : Type 0 where
  pub now : Option ℕ
  pub encode : ℕ → ℕ → Option Text
  pub header_value : Text → Option Text
  pub ready : Result E (Unit {0})
  pub decompression : Request → Request
  pub decoded : Parts → Result E Text → Parts × Result E Text
  pub answer : Request → ℕ × Result E (Parts × Result E Text)
  pub elapsed : E
  pub error_code : Text → Result E (Option ℤ)
  pub decompression_uri : (req : Request) → (decompression req).uri ≡ req.uri
  pub decompression_verb : (req : Request) → (decompression req).verb ≡ req.verb
  pub decompression_body : (req : Request) → (decompression req).body ≡ req.body
  pub decoded_status : (p : Parts) (b : Result E Text) → (decoded p b).0.status ≡ p.status
  pub decoded_plain :
      (p : Parts) (b : Result E Text) → get content_encoding p.headers ≡ none → decoded p b ≡ (p, b)

abbrev same : {A : Type 0} → A → A
same a = a

module _ {E : Type 0} (env : HttpEnv E) where
  unfoldable pub secret_to_bearer_header : ℕ → Attempt E Text
  secret_to_bearer_header secret = do
    iat ← expect env.now
    token ← expect (env.encode secret iat)
    expect (env.header_value (text "Bearer " ++ token))

  -- `AuthService::call`, up to the inner service.
  unfoldable pub authorized : ℕ → Request → Attempt E Request
  unfolding secret_to_bearer_header
  authorized secret request = do
    value ← secret_to_bearer_header secret
    done (record request { headers = insert authorization value request.headers })

  -- The timeout of the outermost layer, which stands over the call alone.
  abbrev pub within : {A : Type 0} → ℕ → ℕ × Result E A → Result E A
  within timeout (time, r) = if ltb timeout time then err env.elapsed else r

  -- The request that leaves the client.
  unfoldable pub outgoing : HttpClient → Request → Attempt E Request
  unfolding authorized
  outgoing client req =
      authorized client.secret (env.decompression (record req { uri = client.url }))

  unfoldable pub parse_response_code : Text → Attempt E (Option ℤ)
  parse_response_code body_bytes = try_result same (env.error_code body_bytes)

  -- `HttpClient::forward`.
  unfoldable pub forward : HttpClient → Request → Attempt E Response
  unfolding outgoing parse_response_code
  forward client req = do
    _ ← try_result same env.ready
    sent ← outgoing client req
    (parts, body) ← try_result same (within client.timeout (env.answer sent))
    body_bytes ← try_result same (env.decoded parts body).1
    code ← parse_response_code body_bytes
    done (record { parts = (env.decoded parts body).0; body = body_bytes })

-- The arguments of a client; a path stands as its text.
pub record ClientArgs : Type 0 where
  pub url : Text
  pub jwt_token : Option ℕ
  pub jwt_path : Option Text
  pub timeout : ℕ

module _ {E : Type 0} (from_file : Text → Result E ℕ) (missing_secret : E) where
  abbrev pub secret_of : Option ℕ → Option Text → Result E ℕ
  secret_of (some secret) path = ok secret
  secret_of none (some path) = from_file path
  secret_of none none = err missing_secret

  unfoldable pub get_auth_jwt : ClientArgs → Result E ℕ
  get_auth_jwt args = secret_of args.jwt_token args.jwt_path

  abbrev pub client_with : ClientArgs → PayloadSource → Result E ℕ → Result E HttpClient
  client_with args source (err e) = err e
  client_with args source (ok secret) =
      ok (record { url = args.url; secret = secret; target = source; timeout = args.timeout })

  unfoldable pub new_http_client : PayloadSource → ClientArgs → Result E HttpClient
  unfolding get_auth_jwt
  new_http_client source args = client_with args source (get_auth_jwt args)
