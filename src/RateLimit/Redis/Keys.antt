-- ===== src/RateLimit/Redis/Keys.antt =====
-- The instance of a key (crates/websocket-proxy/src/rate_limit.rs).
use rollup_boost.Prelude.{
  List, [], ◌∷◌, ◌++◌, append_assoc, some, ◌≡◌, ◌≢◌, refl, ap, ◌∙◌, All, arith,
}
use rollup_boost.Auth.{Text, split}
use rollup_boost.Auth.Split.{split_piece, split_last}
use rollup_boost.RateLimit.Redis.{
  colons, connections_key, instance_word, connections_word, part, nth,
}

-- A text without colons.
abbrev pub HasNoColon : Text → Type 0
HasNoColon t = All (λ c. c ≢ 58) t

split-colons :
    (p : Text) (ps : List Text)
    → HasNoColon p
    → All HasNoColon ps
    → split 58 (colons (p ∷ ps)) ≡ p ∷ ps
split-colons p [] h k = split_last 58 p h
split-colons p (q ∷ qs) h k =
    split_piece 58 p (colons (q ∷ qs)) h ∙ ap (λ z. p ∷ z) (split-colons q qs k.0 k.1)

instance_word-HasNoColon : HasNoColon instance_word
instance_word-HasNoColon = ground arith

connections_word-HasNoColon : HasNoColon connections_word
connections_word-HasNoColon = ground arith

-- The instance read off the key of a counter is the one that the key was made for, if neither the
-- prefix nor the kind, the name or the instance has a colon.
pub part-connections_key :
    (key_prefix kind name id : Text)
    → HasNoColon key_prefix
    → HasNoColon kind
    → HasNoColon name
    → HasNoColon id
    → part 4 (connections_key key_prefix kind name id) ≡ some id
unfolding part
part-connections_key key_prefix kind name id a b c d = ap (nth 4) (
    split-colons key_prefix (kind ∷ name ∷ instance_word ∷ id ∷ connections_word ∷ []) a
      (b, (c, (instance_word-HasNoColon, (d, (connections_word-HasNoColon, tt))))))

colons-append :
    (n : Text) (ns : List Text) (t : Text)
    → (u : Text) × (colons (n ∷ ns) ++ (58 ∷ t) ≡ n ++ (58 ∷ u))
colons-append n [] t = (t, refl)
colons-append n (m ∷ ms) t =
    (colons (m ∷ ms) ++ (58 ∷ t), append_assoc n (58 ∷ colons (m ∷ ms)) (58 ∷ t))

-- If neither the prefix nor the kind has a colon, what is read off the key for an address of IPv6 of
-- three parts or more, which has colons between them, is the third part of the address, whatever the
-- instance.
pub part-ipv6_key :
    (key_prefix kind n0 n1 n2 id : Text) (ns : List Text)
    → HasNoColon key_prefix
    → HasNoColon kind
    → HasNoColon n0
    → HasNoColon n1
    → HasNoColon n2
    → part 4 (connections_key key_prefix kind (colons (n0 ∷ n1 ∷ n2 ∷ ns)) id) ≡ some n2
unfolding part
part-ipv6_key key_prefix kind n0 n1 n2 id ns a b c d e =
    let rest = colons (instance_word ∷ id ∷ connections_word ∷ []) in
    let (u, f) = colons-append n2 ns rest in
    ap (nth 4) (
      split_piece 58 key_prefix _ a
      ∙ ap (λ z. key_prefix ∷ z)
          (split_piece 58 kind _ b
            ∙ ap (λ z. kind ∷ z)
                (ap (split 58) (append_assoc n0 (58 ∷ (n1 ++ (58 ∷ colons (n2 ∷ ns)))) (58 ∷ rest))
                  ∙ split_piece 58 n0 _ c
                  ∙ ap (λ z. n0 ∷ z)
                      (ap (split 58) (append_assoc n1 (58 ∷ colons (n2 ∷ ns)) (58 ∷ rest))
                        ∙ split_piece 58 n1 _ d
                        ∙ ap (λ z. n1 ∷ z) (ap (split 58) f ∙ split_piece 58 n2 u e)))))
