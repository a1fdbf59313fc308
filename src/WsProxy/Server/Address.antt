-- ===== src/WsProxy/Server/Address.antt =====
-- Which address of a header counts (crates/websocket-proxy/src/server.rs).
use rollup_boost.Prelude.{
  ℕ, List, [], ◌∷◌, ◌++◌, Option, some, ◌≡◌, ◌≢◌, refl, ap, ◌∙◌, All, String, nat_eq, ◌==◌,
  Bool-cases, inl, inr,
}
use rollup_boost.Auth.{Text, split}
use rollup_boost.Auth.Split.{split_last}
use rollup_boost.RateLimit.{Semaphore}
use rollup_boost.WsProxy.Server.{trim, next_back, unwrap_or, extract_addr, extract_from, parse_or}

-- What is split at a comma has two pieces or more, and the last is what follows the last comma.
split_at_comma :
    (front last : Text)
    → All (λ c. c ≢ 44) last
    → (p : Text) × (q : Text) × (ps : List Text) × (split 44 (front ++ (44 ∷ last)) ≡ p ∷ (q ∷ ps))
      × (next_back (q ∷ ps) ≡ some last)
unfolding split
split_at_comma [] last h = ([], last, [], ap (λ z. [] ∷ z) (split_last 44 last h), refl)
split_at_comma (c ∷ cs) last h =
    let (p, q, ps, e, k) = split_at_comma cs last h in
    elim (Bool-cases (c == 44)) [
      | inl b ↦ ([], p, q ∷ ps, rw (b, e) refl, k)
      | inr b ↦ (c ∷ p, q, ps, rw (b, e) refl, k)
    ]

-- Of a header with several addresses the last one counts, whatever a client has put before it: the
-- address is what follows the last comma, with the spaces around it taken off, or the address of
-- the connection where that does not parse.
pub last_address_counts :
    (to_str : List ℕ → Option Text) (parse_ip : Text → Option ℕ) (name : Text → String)
    (sem : Semaphore) (b : ℕ) (bs : List ℕ) (front last : Text) (fallback : ℕ)
    → to_str (b ∷ bs) ≡ some (front ++ (44 ∷ last))
    → All (λ c. c ≢ 44) last
    → extract_addr sem to_str parse_ip name (b ∷ bs) fallback
      ≡ unwrap_or (parse_ip (trim last)) fallback
unfolding extract_addr
last_address_counts to_str parse_ip name sem b bs front last fallback h k =
    let (p, q, ps, e, l) = split_at_comma front last k in
    ap (λ z. extract_from sem to_str parse_ip name z fallback) h
    ∙ ap (λ z. parse_or sem to_str parse_ip name (next_back z) fallback) e
    ∙ ap (λ z. parse_or sem to_str parse_ip name z fallback) l
