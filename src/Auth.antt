-- ===== src/Auth.antt =====
-- crates/websocket-proxy/src/auth.rs: the API keys of the WebSocket proxy, read from arguments
-- `application:key:rate limit`. A text is the list of its characters' code points. The maps are
-- association lists, which the code never iterates over.
pub mod Split
pub mod Keyring
pub mod Entries
use rollup_boost.Prelude.{
  ℕ, suc, ◌+◌, ◌-◌, ◌*◌, ◌^◌, Bool, true, false, ◌&&◌, List, [], ◌∷◌, Option, none, some, leb, ltb,
  nat_beq, if◌then◌else◌, Eq, ◌==◌, nat_eq, ◌≡◌, ◌↔◌, refl, arith,
}
use rollup_boost.Prelude.Keys.{get, insert}

abbrev pub Text : Type 0
Text = List ℕ

abbrev pub same_text : Text → Text → Bool
same_text [] [] = true
same_text [] (c ∷ t) = false
same_text (c ∷ s) [] = false
same_text (c ∷ s) (d ∷ t) = nat_beq c d && same_text s t

pub same_text_iff : (s t : Text) → (same_text s t ≡ true) ↔ (s ≡ t)
same_text_iff [] [] = (λ h. refl, λ h. refl)
same_text_iff [] (c ∷ t) = (λ h. absurd cc, λ h. absurd cc)
same_text_iff (c ∷ s) [] = (λ h. absurd cc, λ h. absurd cc)
same_text_iff (c ∷ s) (d ∷ t) =
    (λ h. ground (arith, same_text_iff s t), λ h. ground (arith, same_text_iff s t))

instance abbrev pub text_eq : Eq Text
text_eq = record { same = same_text; decides = same_text_iff }

-- A character in front of the first piece.
abbrev pub before_first : ℕ → List Text → List Text
before_first c [] = (c ∷ []) ∷ []
before_first c (p ∷ ps) = (c ∷ p) ∷ ps

-- `str::split` at a character.
unfoldable pub split : ℕ → Text → List Text
split sep [] = [] ∷ []
split sep (c ∷ cs) = let rest = split sep cs in if c == sep then [] ∷ rest else before_first c rest

abbrev pub is_digit : ℕ → Bool
is_digit c = leb 48 c && leb c 57

abbrev pub digits_value : Text → ℕ → Option ℕ
digits_value [] n = some n
digits_value (c ∷ cs) n =
    let rest = digits_value cs (n * 10 + (c - 48)) in if is_digit c then rest else none

abbrev pub in_usize : Option ℕ → Option ℕ
in_usize none = none
in_usize (some n) = if ltb n (2 ^ 64) then some n else none

abbrev pub unsigned : Text → Option ℕ
unsigned [] = none
unsigned (c ∷ cs) = in_usize (digits_value (c ∷ cs) 0)

-- `str::parse::<usize>`: digits, at least one, after an optional `+`.
unfoldable pub parse : Text → Option ℕ
parse [] = none
parse (c ∷ cs) = if c == 43 then unsigned cs else unsigned (c ∷ cs)

pub record Authentication : Type 0 where
  pub key_to_application : List (Text × Text)
  pub app_to_rate_limit : List (Text × ℕ)

pub data AuthenticationParseError : Type 0 where
  no_data : AuthenticationParseError
  missing_application_argument missing_api_key_argument missing_rate_limit_argument
        too_many_components duplicate_application_argument duplicate_api_key_argument :
      Text → AuthenticationParseError

-- An argument whose limit is no number panics in `unwrap`.
pub data Parsed (A : Type 0) : Type 0 where
  done : A → Parsed A
  failed : AuthenticationParseError → Parsed A
  panicked : Parsed A

-- The set `applications` and the two maps.
pub record Reading : Type 0 where
  pub applications : List (Text × Unit {0})
  pub authentication : Authentication

abbrev pub is_some : {A : Type 0} → Option A → Bool
is_some none = false
is_some (some _) = true

abbrev pub insert_all : Text → Text → Option ℕ → Reading → Parsed Reading
insert_all app key none r = panicked
insert_all app key (some limit) r = done (record {
  applications = insert app tt r.applications;
  authentication = record {
    key_to_application = insert key app r.authentication.key_to_application;
    app_to_rate_limit = insert app limit r.authentication.app_to_rate_limit;
  };
})

-- The tests for duplicates, and the inserts.
unfoldable pub enter : Text → Text → Text → Reading → Parsed Reading
enter app key limit r =
    if is_some (get app r.applications)
    then failed (duplicate_application_argument app)
    else if is_some (get key r.authentication.key_to_application)
    then failed (duplicate_api_key_argument app)
    else insert_all app key (parse limit) r

-- The parts of an argument, read from the left.
unfoldable pub read_rest : Text → Text → List Text → Reading → Parsed Reading
unfolding enter
read_rest app key [] r = failed (missing_rate_limit_argument app)
read_rest app key ([] ∷ ps) r = failed (missing_rate_limit_argument app)
read_rest app key ((c ∷ cs) ∷ []) r = enter app key (c ∷ cs) r
read_rest app key ((c ∷ cs) ∷ (p ∷ ps)) r = failed (too_many_components app)

unfoldable pub read_key : Text → List Text → Reading → Parsed Reading
unfolding read_rest
read_key app [] r = failed (missing_api_key_argument app)
read_key app ([] ∷ ps) r = failed (missing_api_key_argument app)
read_key app ((c ∷ cs) ∷ ps) r = read_rest app (c ∷ cs) ps r

unfoldable pub read_parts : Text → List Text → Reading → Parsed Reading
unfolding read_key
read_parts arg [] r = failed (missing_application_argument arg)
read_parts arg ([] ∷ ps) r = failed (missing_application_argument arg)
read_parts arg ((c ∷ cs) ∷ ps) r = read_key (c ∷ cs) ps r

unfoldable pub read_argument : Text → Reading → Parsed Reading
unfolding split read_parts
read_argument arg r = read_parts arg (split 58 arg) r

abbrev pub and_then : {A B : Type 0} → Parsed A → (A → Parsed B) → Parsed B
and_then (done a) f = f a
and_then (failed e) f = failed e
and_then panicked f = panicked

-- The loop.
unfoldable pub read_all : List Text → Reading → Parsed Reading
unfolding read_argument
read_all [] r = done r
read_all (a ∷ rest) r = and_then (read_argument a r) (read_all rest)

unfoldable pub none_read : Reading
none_read = record {
  applications = [];
  authentication = record { key_to_application = []; app_to_rate_limit = [] };
}

-- `Authentication::try_from`.
unfoldable pub try_from : List Text → Parsed Authentication
unfolding read_all none_read
try_from [] = failed no_data
try_from (a ∷ rest) = and_then (read_all (a ∷ rest) none_read) (λ r. done r.authentication)

unfoldable pub get_application_for_key : Text → Authentication → Option Text
get_application_for_key key a = get key a.key_to_application

unfoldable pub get_rate_limits : Authentication → List (Text × ℕ)
get_rate_limits a = a.app_to_rate_limit
