-- ===== src/Auth/Entries.antt =====
-- What each argument with a key leaves in the keyring (crates/websocket-proxy/src/auth.rs).
use rollup_boost.Prelude.{
  ℕ, ◌≡◌, ◌≢◌, refl, true, false, List, [], ◌∷◌, ◌++◌, some, All, Any, inl, inr, arith, subst, sym,
  ◌∙◌,
}
use rollup_boost.Prelude.Keys.{get, get-insert, get-insert_self}
use rollup_boost.Auth.{
  Text, text_eq, same_text_iff, Authentication, done, Reading, split, parse, read_argument,
  read_all, enter, try_from, none_read, get_application_for_key, get_rate_limits, is_some,
}
use rollup_boost.Auth.Keyring.{with_entry, enter_done, read_parts_done, split_argument, then_done}

-- The entries of a reading are among those of another.
pub record Extends (r r' : Reading) : Type 0 where
  pub applications :
      (app : Text)
      → is_some (get app r.applications) ≡ true
      → is_some (get app r'.applications) ≡ true
  pub limits :
      (app : Text) (n : ℕ)
      → is_some (get app r.applications) ≡ true
      → get app r.authentication.app_to_rate_limit ≡ some n
      → get app r'.authentication.app_to_rate_limit ≡ some n
  pub keys :
      (key app : Text)
      → get key r.authentication.key_to_application ≡ some app
      → get key r'.authentication.key_to_application ≡ some app

refl-Extends : (r : Reading) → Extends r r
refl-Extends r = record { applications = λ a h. h; limits = λ a n h e. e; keys = λ k a e. e }

trans-Extends : (r s t : Reading) → Extends r s → Extends s t → Extends r t
trans-Extends r s t f g = record {
  applications = λ a h. g.applications a (f.applications a h);
  limits = λ a n h e. g.limits a n (f.applications a h) (f.limits a n h e);
  keys = λ k a e. g.keys k a (f.keys k a e);
}

with_entry-Extends :
    (app key : Text) (n : ℕ) (r : Reading)
    → is_some (get app r.applications) ≡ false
    → is_some (get key r.authentication.key_to_application) ≡ false
    → Extends r (with_entry app key n r)
with_entry-Extends app key n r fresh new = record {
  applications = λ a h. ground (arith, get-insert app a tt r.applications);
  limits = λ a m h e.
      ground (arith, get-insert app a n r.authentication.app_to_rate_limit, same_text_iff app a);
  keys = λ k a e.
      ground (arith, get-insert key k app r.authentication.key_to_application, same_text_iff key k);
}

argument-Extends : (arg : Text) (r r' : Reading) → read_argument arg r ≡ done r' → Extends r r'
unfolding read_argument
argument-Extends arg r r' h =
    let (app, key, limit, _, e) = read_parts_done arg (split 58 arg) r r' h in
    let (n, _, fresh, new, same) = enter_done app key limit r r' e in
    subst (Extends r) same (with_entry-Extends app key n r fresh new)

read_all-Extends : (args : List Text) (r r' : Reading) → read_all args r ≡ done r' → Extends r r'
unfolding read_all
read_all-Extends [] r r' h = subst (Extends r) (ground arith) (refl-Extends r)
read_all-Extends (a ∷ rest) r r' h =
    let (s, e, k) = then_done (read_argument a r) (read_all rest) r' h in
    trans-Extends r s r' (argument-Extends a r s e) (read_all-Extends rest s r' k)

-- An application, a key and a limit with colons between them.
abbrev pub printed : Text → Text → Text → Text
printed app key limit = app ++ (58 ∷ (key ++ (58 ∷ limit)))

-- The application, its key and its limit stand in a reading.
pub record HasEntry (app key limit : Text) (r : Reading) : Type 0 where
  pub number : ℕ
  pub parsed : parse limit ≡ some number
  pub known : is_some (get app r.applications) ≡ true
  pub leads : get key r.authentication.key_to_application ≡ some app
  pub limited : get app r.authentication.app_to_rate_limit ≡ some number

module _ (app key limit : Text) (a : All (λ x. x ≢ 58) app) (b : All (λ x. x ≢ 58) key)
    (c : All (λ x. x ≢ 58) limit) where
  enter-HasEntry : (r r' : Reading) → enter app key limit r ≡ done r' → HasEntry app key limit r'
  enter-HasEntry r r' h =
      let (n, p, _, _, e) = enter_done app key limit r r' h in
      subst (HasEntry app key limit) e (record {
        number = n;
        parsed = p;
        known = rw (get-insert_self app tt r.applications) refl;
        leads = get-insert_self key app r.authentication.key_to_application;
        limited = get-insert_self app n r.authentication.app_to_rate_limit;
      })

  argument-HasEntry :
      (r r' : Reading)
      → read_argument (printed app key limit) r ≡ done r'
      → HasEntry app key limit r'
  unfolding read_argument
  argument-HasEntry r r' h =
      let (x, y, z, s, e) = read_parts_done _ (split 58 (printed app key limit)) r r' h in
      let parts : app ∷ key ∷ limit ∷ [] ≡ x ∷ y ∷ z ∷ [] =
        sym (split_argument app key limit a b c) ∙ s in
      enter-HasEntry r r' (ground (arith, parts, e))

  kept-HasEntry :
      (r r' : Reading) → Extends r r' → HasEntry app key limit r → HasEntry app key limit r'
  kept-HasEntry r r' x h = record {
    number = h.number;
    parsed = h.parsed;
    known = x.applications app h.known;
    leads = x.keys key app h.leads;
    limited = x.limits app h.number h.known h.limited;
  }

  read_all-HasEntry :
      (args : List Text) (r r' : Reading)
      → Any (λ t. t ≡ printed app key limit) args
      → read_all args r ≡ done r'
      → HasEntry app key limit r'
  unfolding read_all
  read_all-HasEntry [] r r' i h = absurd i
  read_all-HasEntry (t ∷ rest) r r' (inl e) h =
      let (s, now, later) = then_done (read_argument t r) (read_all rest) r' h in
      kept-HasEntry s r' (read_all-Extends rest s r' later)
        (argument-HasEntry r s (subst (λ x. read_argument x r ≡ done s) e now))
  read_all-HasEntry (t ∷ rest) r r' (inr i) h =
      let (s, now, later) = then_done (read_argument t r) (read_all rest) r' h in
      read_all-HasEntry rest s r' i later

  -- Where the arguments are accepted and one of them is an application, a key and a limit without
  -- colons in them, that limit is a number, the key leads to the application, and the application
  -- has that number as its limit, whatever the other arguments are.
  pub try_from_enters :
      (args : List Text) (auth : Authentication)
      → Any (λ t. t ≡ printed app key limit) args
      → try_from args ≡ done auth
      → (n : ℕ) × (parse limit ≡ some n)
        × (get_application_for_key key auth ≡ some app)
        × (get app (get_rate_limits auth) ≡ some n)
  unfolding try_from get_application_for_key get_rate_limits
  try_from_enters [] auth i h = absurd i
  try_from_enters (t ∷ rest) auth i h =
      let (r, e, k) = then_done (read_all (t ∷ rest) none_read) _ auth h in
      let entry = read_all-HasEntry (t ∷ rest) none_read r i e in
      let same : r.authentication ≡ auth = ground arith in
      (
        entry.number,
        entry.parsed,
        subst (λ z. get key z.key_to_application ≡ some app) same entry.leads,
        subst (λ z. get app z.app_to_rate_limit ≡ some entry.number) same entry.limited,
      )
