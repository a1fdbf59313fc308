-- ===== src/Auth/Keyring.antt =====
-- What the arguments make of keys and limits (crates/websocket-proxy/src/auth.rs).
use rollup_boost.Prelude.{
  ℕ, ◌≡◌, ◌≢◌, refl, true, false, List, [], ◌∷◌, ◌++◌, none, some, All, arith, subst, sym, ap, ◌∙◌,
}
use rollup_boost.Prelude.Keys.{get, insert, get-insert, get-insert_self}
use rollup_boost.Auth.{
  Text, text_eq, same_text_iff, Authentication, Parsed, done, failed, panicked, Reading, split,
  parse, read_argument, read_all, read_parts, read_key, read_rest, enter, try_from, none_read,
  get_application_for_key, get_rate_limits, and_then, is_some,
}
use rollup_boost.Auth.Split.{split_piece, split_last}

-- Each key's application is among those entered and has a limit, and no two keys share one.
pub record IsConsistent (r : Reading) : Type 0 where
  pub entered :
      (key app : Text)
      → get key r.authentication.key_to_application ≡ some app
      → is_some (get app r.applications) ≡ true
  pub limited :
      (app : Text)
      → is_some (get app r.applications) ≡ true
      → is_some (get app r.authentication.app_to_rate_limit) ≡ true
  pub separate :
      (key other app : Text)
      → get key r.authentication.key_to_application ≡ some app
      → get other r.authentication.key_to_application ≡ some app
      → key ≡ other

-- The reading after an argument.
abbrev pub with_entry : Text → Text → ℕ → Reading → Reading
with_entry app key limit r = record {
  applications = insert app tt r.applications;
  authentication = record {
    key_to_application = insert key app r.authentication.key_to_application;
    app_to_rate_limit = insert app limit r.authentication.app_to_rate_limit;
  };
}

pub enter_done :
    (app key limit : Text) (r r' : Reading)
    → enter app key limit r ≡ done r'
    → (n : ℕ) × (parse limit ≡ some n)
      × (is_some (get app r.applications) ≡ false)
      × (is_some (get key r.authentication.key_to_application) ≡ false)
      × (with_entry app key n r ≡ r')
unfolding enter
enter_done app key limit r r' h = ground arith

with_entry-IsConsistent :
    (app key : Text) (n : ℕ) (r : Reading)
    → is_some (get app r.applications) ≡ false
    → IsConsistent r
    → IsConsistent (with_entry app key n r)
with_entry-IsConsistent app key n r fresh v = record {
  entered = λ k a h. ground (
    arith,
    get-insert key k app r.authentication.key_to_application,
    get-insert app a tt r.applications,
    v.entered k a,
    same_text_iff key k,
    same_text_iff app a,
  );
  limited = λ a h. ground (
    arith,
    get-insert app a tt r.applications,
    get-insert app a n r.authentication.app_to_rate_limit,
    v.limited a,
  );
  separate = λ k o a h h'. ground (
    arith,
    get-insert key k app r.authentication.key_to_application,
    get-insert key o app r.authentication.key_to_application,
    v.entered k a,
    v.entered o a,
    v.separate k o a,
    same_text_iff key k,
    same_text_iff key o,
  );
}

enter-IsConsistent :
    (app key limit : Text) (r r' : Reading)
    → IsConsistent r
    → enter app key limit r ≡ done r'
    → IsConsistent r'
enter-IsConsistent app key limit r r' v h =
    let (n, p, fresh, f, e) = enter_done app key limit r r' h in
    subst IsConsistent e (with_entry-IsConsistent app key n r fresh v)

-- An argument that is read has three parts, which are entered.
pub read_parts_done :
    (arg : Text) (ps : List Text) (r r' : Reading)
    → read_parts arg ps r ≡ done r'
    → (app : Text) × (key : Text) × (limit : Text) × (ps ≡ app ∷ key ∷ limit ∷ [])
      × (enter app key limit r ≡ done r')
unfolding read_parts read_key read_rest
read_parts_done arg [] r r' h = absurd cc
read_parts_done arg ([] ∷ ps) r r' h = absurd cc
read_parts_done arg ((c ∷ cs) ∷ []) r r' h = absurd cc
read_parts_done arg ((c ∷ cs) ∷ ([] ∷ ps)) r r' h = absurd cc
read_parts_done arg ((c ∷ cs) ∷ ((k ∷ ks) ∷ [])) r r' h = absurd cc
read_parts_done arg ((c ∷ cs) ∷ ((k ∷ ks) ∷ ([] ∷ ps))) r r' h = absurd cc
read_parts_done arg ((c ∷ cs) ∷ ((k ∷ ks) ∷ ((l ∷ ls) ∷ []))) r r' h =
    (c ∷ cs, k ∷ ks, l ∷ ls, refl, h)
read_parts_done arg ((c ∷ cs) ∷ ((k ∷ ks) ∷ ((l ∷ ls) ∷ (p ∷ ps)))) r r' h = absurd cc

read_parts-IsConsistent :
    (arg : Text) (ps : List Text) (r r' : Reading)
    → IsConsistent r
    → read_parts arg ps r ≡ done r'
    → IsConsistent r'
read_parts-IsConsistent arg ps r r' v h =
    let (app, key, limit, _, e) = read_parts_done arg ps r r' h in
    enter-IsConsistent app key limit r r' v e

pub then_done :
    {A B : Type 0} (x : Parsed A) (f : A → Parsed B) (b : B)
    → and_then x f ≡ done b
    → (a : A) × (x ≡ done a) × (f a ≡ done b)
then_done (done a) f b h = (a, refl, h)
then_done (failed e) f b h = absurd cc
then_done panicked f b h = absurd cc

read_all-IsConsistent :
    (args : List Text) (r r' : Reading)
    → IsConsistent r
    → read_all args r ≡ done r'
    → IsConsistent r'
unfolding read_all read_argument
read_all-IsConsistent [] r r' v h = subst IsConsistent (ground arith) v
read_all-IsConsistent (a ∷ rest) r r' v h =
    let (s, e, h') = then_done (read_argument a r) (read_all rest) r' h in
    read_all-IsConsistent rest s r' (read_parts-IsConsistent a (split 58 a) r s v e) h'

none_read-IsConsistent : IsConsistent none_read
unfolding none_read get
none_read-IsConsistent = record {
  entered = λ k a h. absurd cc;
  limited = λ a h. absurd cc;
  separate = λ k o a h h'. absurd cc;
}

accepted_reading :
    (args : List Text) (auth : Authentication)
    → try_from args ≡ done auth
    → (r : Reading) × IsConsistent r × (r.authentication ≡ auth)
unfolding try_from
accepted_reading [] auth h = absurd cc
accepted_reading (a ∷ rest) auth h =
    let (r, e, h') = then_done (read_all (a ∷ rest) none_read) _ auth h in
    (r, read_all-IsConsistent (a ∷ rest) none_read r none_read-IsConsistent e, ground arith)

-- Where the arguments are accepted, every application that a key leads to has a rate limit.
pub try_from_limits :
    (args : List Text) (auth : Authentication) (key app : Text)
    → try_from args ≡ done auth
    → get_application_for_key key auth ≡ some app
    → is_some (get app (get_rate_limits auth)) ≡ true
unfolding get_application_for_key get_rate_limits
try_from_limits args auth key app h k =
    let (r, v, e) = accepted_reading args auth h in
    let at = subst (λ z. get key z.key_to_application ≡ some app) (sym e) k in
    subst (λ z. is_some (get app z.app_to_rate_limit) ≡ true) e
      (v.limited app (v.entered key app at))

-- Where the arguments are accepted, two keys that lead to the same application are the same.
pub try_from_separates :
    (args : List Text) (auth : Authentication) (key other app : Text)
    → try_from args ≡ done auth
    → get_application_for_key key auth ≡ some app
    → get_application_for_key other auth ≡ some app
    → key ≡ other
unfolding get_application_for_key
try_from_separates args auth key other app h k o =
    let (r, v, e) = accepted_reading args auth h in
    v.separate key other app (subst (λ z. get key z.key_to_application ≡ some app) (sym e) k)
      (subst (λ z. get other z.key_to_application ≡ some app) (sym e) o)

-- What the three parts of an argument are.
pub split_argument :
    (app key limit : Text)
    → All (λ x. x ≢ 58) app
    → All (λ x. x ≢ 58) key
    → All (λ x. x ≢ 58) limit
    → split 58 (app ++ (58 ∷ (key ++ (58 ∷ limit)))) ≡ app ∷ key ∷ limit ∷ []
split_argument app key limit a b c =
    split_piece 58 app _ a
    ∙ ap (λ ps. app ∷ ps) (split_piece 58 key limit b ∙ ap (λ ps. key ∷ ps) (split_last 58 limit c))

-- An argument of an application, a key and a limit, none of them empty or with a colon in it, is
-- entered if neither the application nor the key was before: the key then leads to the application,
-- and the application to the limit.
pub read_argument_entered :
    (c k l : ℕ) (cs ks ls : Text) (n : ℕ) (r : Reading)
    → All (λ x. x ≢ 58) (c ∷ cs)
    → All (λ x. x ≢ 58) (k ∷ ks)
    → All (λ x. x ≢ 58) (l ∷ ls)
    → parse (l ∷ ls) ≡ some n
    → get (c ∷ cs) r.applications ≡ none
    → get (k ∷ ks) r.authentication.key_to_application ≡ none
    → (r' : Reading) × (read_argument ((c ∷ cs) ++ (58 ∷ ((k ∷ ks) ++ (58 ∷ (l ∷ ls))))) r
        ≡ done r')
      × (get_application_for_key (k ∷ ks) r'.authentication ≡ some (c ∷ cs))
      × (get (c ∷ cs) (get_rate_limits r'.authentication) ≡ some n)
unfolding read_argument read_parts read_key read_rest enter get_application_for_key get_rate_limits
read_argument_entered c k l cs ks ls n r hc hk hl p fa fk = (
  with_entry (c ∷ cs) (k ∷ ks) n r,
  rw (split_argument (c ∷ cs) (k ∷ ks) (l ∷ ls) hc hk hl) (rw (fa, enter) (rw fk (rw p refl))),
  get-insert_self (k ∷ ks) (c ∷ cs) r.authentication.key_to_application,
  get-insert_self (c ∷ cs) n r.authentication.app_to_rate_limit,
)
