-- ===== src/Proxy/Clients.antt =====
-- The proxy over its two HTTP clients: crates/rollup-boost/src/proxy.rs with client/http.rs, and
-- `into_buffered_request` of server.rs.
use rollup_boost.Prelude.{
  ℤ, ◌≡◌, refl, sym, List, [], ◌∷◌, Option, none, some, Result, ok, err, All, false, subst, arith,
}
use rollup_boost.Prelude.Attempt.{Attempt, done, failed, panicked, ◌>>=◌, try_result, >>=-eq-done}
use rollup_boost.Auth.{Text, text_eq}
use rollup_boost.Proxy.{Target, inner, builder, l2, Services, call, starts_with, engine_method}
use rollup_boost.Proxy.Routing.{l2_answers}
use rollup_boost.Http.{Request, Response, HttpClient, HttpEnv, outgoing, forward}
use rollup_boost.Http.Forward.{IsAnswer, IsFor, outgoing-IsFor, forwarded}

-- A request that comes in, whose body is still to be read.
pub record Incoming (E : Type 0) : Type 0 where
  pub verb : Text
  pub uri : Text
  pub headers : List (Text × Text)
  pub body : Result E Text

abbrev pub with_body : {E : Type 0} → Incoming E → Result E Text → Result E Request
with_body req (err e) = err e
with_body req (ok bytes) =
    ok (record { verb = req.verb; uri = req.uri; headers = req.headers; body = bytes })

unfoldable pub into_buffered_request : {E : Type 0} → Incoming E → Result E Request
into_buffered_request req = with_body req req.body

abbrev pub sent_of : {E A : Type 0} → Attempt E A → Option A
sent_of (done a) = some a
sent_of (failed e) = none
sent_of panicked = none

abbrev pub returned : {E A : Type 0} → Result E (Attempt E A) → Attempt E A
returned (ok a) = a
returned (err e) = failed e

-- The proxy's parts: its clients, and what each of them meets; the server behind the proxy, and the
-- reading of the method.
pub record Proxied (E : Type 0) : Type 0 where
  pub l2_client : HttpClient
  pub builder_client : HttpClient
  pub l2_env : HttpEnv E
  pub builder_env : HttpEnv E
  pub inner : Request → Attempt E Response
  pub method : Text → Result E Text

module _ {E : Type 0} (p : Proxied E) where
  abbrev pub services : Services Request (Attempt E Response) E
  services = record {
    method = λ req. p.method req.body;
    call_inner = λ req. ok (p.inner req);
    forward_l2 = λ req m. ok (forward p.l2_env p.l2_client req);
  }

  -- The request that leaves a client, if its service is ready.
  unfoldable pub leaving : HttpEnv E → HttpClient → Request → Option Request
  leaving env client req =
      sent_of (try_result (λ e. e) env.ready >>= (λ u. outgoing env client req))

  abbrev pub add_sent : Target → Option Request → List (Target × Request) → List (Target × Request)
  add_sent t none rest = rest
  add_sent t (some out) rest = (t, out) ∷ rest

  -- The requests that the targets are sent.
  abbrev pub sent_to : List Target → Request → List (Target × Request)
  sent_to [] req = []
  sent_to (inner ∷ ts) req = sent_to ts req
  sent_to (builder ∷ ts) req =
      add_sent builder (leaving p.builder_env p.builder_client req) (sent_to ts req)
  sent_to (l2 ∷ ts) req = add_sent l2 (leaving p.l2_env p.l2_client req) (sent_to ts req)

  abbrev pub serve_buffered : Result E Request → List (Target × Request) × Attempt E Response
  serve_buffered (err e) = ([], failed e)
  serve_buffered (ok req) = (sent_to (call services req).0 req, returned (call services req).1)

  -- `ProxyService::call` with the clients: the requests that leave, and what the caller gets.
  unfoldable pub serve : Incoming E → List (Target × Request) × Attempt E Response
  unfolding into_buffered_request call leaving
  serve req = serve_buffered (into_buffered_request req)

  abbrev pub LeavesFor : Request → Target × Request → Type 0
  LeavesFor req (inner, out) = ⊥
  LeavesFor req (builder, out) = IsFor p.builder_env p.builder_client req out
  LeavesFor req (l2, out) = IsFor p.l2_env p.l2_client req out

  leaving-IsFor :
      (env : HttpEnv E) (client : HttpClient) (req out : Request)
      → leaving env client req ≡ some out
      → IsFor env client req out
  unfolding leaving
  leaving-IsFor env client req out h =
      let (_, _, k) =
        >>=-eq-done (try_result (λ e. e) env.ready) _
          (was_done (try_result (λ e. e) env.ready >>= (λ u. outgoing env client req)) h) in
      outgoing-IsFor env client req out k
    where
      was_done : {A : Type 0} {a : A} (x : Attempt E A) → sent_of x ≡ some a → x ≡ done a
      was_done (done b) h = ground arith
      was_done (failed e) h = absurd cc
      was_done panicked h = absurd cc

  add_sent-LeavesFor :
      (t : Target) (req : Request) (o : Option Request) (rest : List (Target × Request))
      → ((out : Request) → o ≡ some out → LeavesFor req (t, out))
      → All (λ x. LeavesFor req x) rest
      → All (λ x. LeavesFor req x) (add_sent t o rest)
  add_sent-LeavesFor t req none rest h a = a
  add_sent-LeavesFor t req (some out) rest h a = (h out refl, a)

  sent_to-LeavesFor :
      (ts : List Target) (req : Request) → All (λ x. LeavesFor req x) (sent_to ts req)
  sent_to-LeavesFor [] req = tt
  sent_to-LeavesFor (inner ∷ ts) req = sent_to-LeavesFor ts req
  sent_to-LeavesFor (builder ∷ ts) req =
      add_sent-LeavesFor builder req (leaving p.builder_env p.builder_client req) (sent_to ts req)
        (leaving-IsFor p.builder_env p.builder_client req) (sent_to-LeavesFor ts req)
  sent_to-LeavesFor (l2 ∷ ts) req =
      add_sent-LeavesFor l2 req (leaving p.l2_env p.l2_client req) (sent_to ts req)
        (leaving-IsFor p.l2_env p.l2_client req) (sent_to-LeavesFor ts req)

  -- Whatever request comes in, each that the proxy's clients send on goes to the URL of the builder
  -- or of the L2 client, with the verb and the body that came in, and with a fresh token of that
  -- client's own secret in the place of any credentials.
  pub serve-LeavesFor :
      (req : Incoming E) (buffered : Request)
      → into_buffered_request req ≡ ok buffered
      → All (λ x. LeavesFor buffered x) (serve req).0
  unfolding serve
  serve-LeavesFor req buffered h =
      subst (λ r. All (λ x. LeavesFor buffered x) (serve_buffered r).0) (sym h)
        (sent_to-LeavesFor (call services buffered).0 buffered)

  -- What the proxy returns to a request whose method is no Engine API method is what the L2 client's
  -- service gave within its timeout to the request as it left, whether or not the builder was sent
  -- the request and whatever became of it: the status that came, and headers and body as the client's
  -- layer for compressed bodies decodes them, which are those that came if no encoding was named.
  pub l2_response :
      (req : Incoming E) (buffered : Request) (m : Text) (r : Response)
      → into_buffered_request req ≡ ok buffered
      → p.method buffered.body ≡ ok m
      → starts_with engine_method m ≡ false
      → (serve req).1 ≡ done r
      → (out : Request) × (code : Option ℤ) × IsFor p.l2_env p.l2_client buffered out
        × IsAnswer p.l2_env p.l2_client out r
        × (p.l2_env.error_code r.body ≡ ok code)
  unfolding serve
  l2_response req buffered m r h k e a = forwarded p.l2_env p.l2_client buffered r (
      subst (λ x. returned x ≡ done r) (l2_answers services buffered m k e)
        (subst (λ x. (serve_buffered x).1 ≡ done r) h a))
