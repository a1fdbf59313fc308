-- ===== src/Http/Forward.antt =====
-- What `HttpClient::forward` sends and returns (crates/rollup-boost/src/client/http.rs and auth.rs).
use rollup_boost.Prelude.{
  ℕ, ℤ, ◌≤◌, ◌≡◌, ◌++◌, Option, none, some, Result, ok, ltb, Bool-cases, Option-cases, ◌⊎◌, inl,
  inr, arith, ap, ◌∙◌, sym,
}
use rollup_boost.Prelude.Attempt.{done, expect, try_result, >>=-eq-done, try_result-eq-done}
use rollup_boost.Prelude.Keys.{get, insert, get-insert_self}
use rollup_boost.Auth.{Text, text_eq}
use rollup_boost.Proxy.{text}
use rollup_boost.Http.{
  Request, Parts, Response, content_encoding, HttpClient, HttpEnv, authorization,
  secret_to_bearer_header, authorized, within, outgoing, parse_response_code, forward,
}

expect-eq-done : {E A : Type 0} (o : Option A) {a : A} → expect {E = E} o ≡ done a → o ≡ some a
expect-eq-done none h = absurd cc
expect-eq-done (some b) h = ground arith

module _ {E : Type 0} (env : HttpEnv E) where
  -- A request as it leaves a client: to the client's URL, with a fresh token of the client's secret
  -- in the place of whatever credentials it came with, and else as it came.
  pub record IsFor (client : HttpClient) (req out : Request) : Type 0 where
    pub at_url : out.uri ≡ client.url
    pub same_verb : out.verb ≡ req.verb
    pub same_body : out.body ≡ req.body
    pub iat : ℕ
    pub is_now : env.now ≡ some iat
    pub token : Text
    pub encoded : env.encode client.secret iat ≡ some token
    pub value : Text
    pub has_value : env.header_value (text "Bearer " ++ token) ≡ some value
    pub bearer : get authorization out.headers ≡ some value

  authorized_done :
      (secret : ℕ) (req out : Request)
      → authorized env secret req ≡ done out
      → (iat : ℕ) × (env.now ≡ some iat)
        × (token : Text) × (env.encode secret iat ≡ some token)
        × (value : Text) × (env.header_value (text "Bearer " ++ token) ≡ some value)
        × (record req { headers = insert authorization value req.headers } ≡ out)
  unfolding authorized secret_to_bearer_header
  authorized_done secret req out h =
      let (value, e, k) = >>=-eq-done (secret_to_bearer_header env secret) _ h in
      let (iat, n, e') = >>=-eq-done (expect env.now) _ e in
      let (token, t, v) = >>=-eq-done (expect (env.encode secret iat)) _ e' in
      (
        iat,
        expect-eq-done env.now n,
        token,
        expect-eq-done (env.encode secret iat) t,
        value,
        expect-eq-done (env.header_value (text "Bearer " ++ token)) v,
        ground arith,
      )

  pub outgoing-IsFor :
      (client : HttpClient) (req out : Request)
      → outgoing env client req ≡ done out
      → IsFor client req out
  unfolding outgoing
  outgoing-IsFor client req out h =
      let moved : Request = record req { uri = client.url } in
      let (iat, n, token, t, value, v, e) =
        authorized_done client.secret (env.decompression moved) out h in
      record {
        at_url = sym (ap (λ r. r.uri) e) ∙ env.decompression_uri moved;
        same_verb = sym (ap (λ r. r.verb) e) ∙ env.decompression_verb moved;
        same_body = sym (ap (λ r. r.body) e) ∙ env.decompression_body moved;
        iat = iat;
        is_now = n;
        token = token;
        encoded = t;
        value = value;
        has_value = v;
        bearer =
            ap (λ r. get authorization r.headers) (sym e)
            ∙ get-insert_self authorization value (env.decompression moved).headers;
      }

  in_time :
      {A : Type 0} (timeout : ℕ) (x : ℕ × Result E A) (a : A)
      → within env timeout x ≡ ok a
      → (x.0 ≤ timeout) × (x.1 ≡ ok a)
  in_time timeout (time, r) a h = elim (Bool-cases (ltb timeout time)) [
    | inl e ↦ absurd (let bad = (rw e at h) in cc)
    | inr e ↦ (ground (arith, e), (rw e at h))
  ]

  -- A response is what the client's service gave to a request within the timeout, as the layer for
  -- compressed bodies decodes it: with the status that came, and if no encoding of the body was named
  -- with the headers and the body that came.
  pub record IsAnswer (client : HttpClient) (out : Request) (r : Response) : Type 0 where
    pub within_timeout : (env.answer out).0 ≤ client.timeout
    pub parts : Parts
    pub body : Result E Text
    pub answered : (env.answer out).1 ≡ ok (parts, body)
    pub is_decoded : env.decoded parts body ≡ (r.parts, ok r.body)
    pub same_status : r.parts.status ≡ parts.status
    pub same_if_plain :
        ((x : Text) × (get content_encoding parts.headers ≡ some x))
        ⊎ ((r.parts ≡ parts) × (body ≡ ok r.body))

  plain_or_encoded :
      (parts r : Parts) (body : Result E Text) (bytes : Text)
      → env.decoded parts body ≡ (r, ok bytes)
      → ((x : Text) × (get content_encoding parts.headers ≡ some x))
        ⊎ ((r ≡ parts) × (body ≡ ok bytes))
  plain_or_encoded parts r body bytes h = elim (Option-cases (get content_encoding parts.headers)) [
    | inl e ↦
        let same = sym (env.decoded_plain parts body e) ∙ h in
        inr (sym (ap (λ z. z.0) same), ap (λ z. z.1) same)
    | inr e ↦ inl e
  ]

  -- A response that `forward` returns answers the request as it leaves the client, and its body is a
  -- JSON-RPC response.
  pub forwarded :
      (client : HttpClient) (req : Request) (r : Response)
      → forward env client req ≡ done r
      → (out : Request) × (code : Option ℤ) × IsFor client req out
        × IsAnswer client out r
        × (env.error_code r.body ≡ ok code)
  unfolding forward parse_response_code
  forwarded client req r h =
      let (_, _, h1) = >>=-eq-done (try_result _ env.ready) _ h in
      let (out, o, h2) = >>=-eq-done (outgoing env client req) _ h1 in
      let ((parts, body), a, h3) =
        >>=-eq-done (try_result _ (within env client.timeout (env.answer out))) _ h2 in
      let (bytes, b, h4) = >>=-eq-done (try_result _ (env.decoded parts body).1) _ h3 in
      let (code, c, h5) = >>=-eq-done (parse_response_code env bytes) _ h4 in
      let (time, came) =
        in_time client.timeout (env.answer out) (parts, body) (try_result-eq-done _ _ a) in
      let read : (env.decoded parts body).1 ≡ ok bytes = try_result-eq-done _ _ b in
      let is_r : record { parts = (env.decoded parts body).0; body = bytes } ≡ r = ground arith in
      let all : env.decoded parts body ≡ (r.parts, ok r.body) =
        ap (λ z. ((env.decoded parts body).0, z)) read ∙ ap (λ z. (z.parts, ok z.body)) is_r in
      (
        out,
        code,
        outgoing-IsFor client req out o,
        record {
          within_timeout = time;
          parts = parts;
          body = body;
          answered = came;
          is_decoded = all;
          same_status = ap (λ z. z.0.status) (sym all) ∙ env.decoded_status parts body;
          same_if_plain = plain_or_encoded parts r.parts body r.body all;
        },
        ap env.error_code (sym (ap (λ z. z.body) is_r)) ∙ try_result-eq-done _ _ c,
      )
