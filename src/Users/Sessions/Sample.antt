-- ===== src/Users/Sessions/Sample.antt =====
-- A collection that is a list, keys that are a function, and tokens that spell their scope, for the
-- runs of the tests.
mod Tests
use Prim.Native.String.{String, ◌++◌}
use text.Mathlib.TextLemmas.{append_cancel_left}
use mathlib.Core.List.{Memᴰ}
use mathlib.Core.Bool.{false≢true}
use ppchat.Prelude.{
  ℕ, ◌/◌, ◌≡◌, ◌≢◌, ◌⊎◌, inl, inr, refl, sym, ap, subst, ◌∙◌, if_pos, if_neg, ite_elim, arith, Bool,
  true, false, Option, none, some, List, [], ◌∷◌, ◌++◌ as ◌+++◌, ite, str_dec, str-ne, dec_lt, ◌==◌,
  ◌&&◌, if◌then◌else◌,
}
use ppchat.Users.Jwt.{Time, Packages, JwtClaims, SigningMethod, Token}
use ppchat.Users.Jwt.Tokens.{Parses}
use ppchat.Users.Store.{
  Mongo, Redis, UserSession, Cond, Holds, Matches, user_id_is, device_type_is, device_id_is,
  session_id_is, token_hash_is, is_valid_is, expires_after, Swapped, here, there, Upserted, Found,
  found, no_documents, failed, Replaced, replaced, not_replaced, Command, after_all,
}
use ppchat.Users.Sessions.{UserSessionKey}
use ppchat.Users.Sessions.Spec.{Issue}

abbrev bool_dec : Discrete Bool
bool_dec true true = yes refl
bool_dec true false = no (λ e. false≢true (sym e))
bool_dec false true = no false≢true
bool_dec false false = yes refl

abbrev holds? : (c : Cond) (s : UserSession) → Dec (Holds c s)
holds? (user_id_is v) s = str_dec s.user_id v
holds? (device_type_is v) s = str_dec s.device_type v
holds? (device_id_is v) s = str_dec s.device_id v
holds? (session_id_is v) s = str_dec s.session_id v
holds? (token_hash_is v) s = str_dec s.access_token_hash v
holds? (is_valid_is b) s = bool_dec s.is_valid b
holds? (expires_after t) s = dec_lt t s.expire_time

abbrev both : {P Q : Type 0} → Dec P → Dec Q → Dec (P × Q)
both (yes p) (yes q) = yes (p, q)
both (yes p) (no n) = no (λ h. n h.1)
both (no n) d = no (λ h. n h.0)

abbrev matches? : (f : List Cond) (s : UserSession) → Dec (Matches f s)
matches? [] s = yes tt
matches? (c ∷ f) s = both (holds? c s) (matches? f s)

abbrev Docs : Type 0
Docs = List UserSession

abbrev find_first : Docs → List Cond → Found UserSession
find_first [] f = no_documents
find_first (s ∷ db) f = let rest = find_first db f in ite (matches? f s) (found s) rest

abbrev upsert : List Cond → UserSession → Docs → Docs
upsert f new [] = new ∷ []
upsert f new (s ∷ db) = let rest = upsert f new db in ite (matches? f s) (new ∷ db) (s ∷ rest)

found_inj : {s r : UserSession} → found s ≡ found r → s ≡ r
found_inj h = cc

free_of :
    (f : List Cond) (s : UserSession) (xs : List UserSession)
    → ¬ Matches f s
    → ((r : UserSession) → Memᴰ r xs → ¬ Matches f r)
    → (r : UserSession) → Memᴰ r (s ∷ xs)
    → ¬ Matches f r
free_of f s xs n free r (Memᴰ.head e) = subst (λ x. ¬ Matches f x) (sym e) n
free_of f s xs n free r (Memᴰ.tail h) = free r h

find_first-found :
    (db : Docs) (f : List Cond) (s : UserSession)
    → find_first db f ≡ found s
    → Memᴰ s db × Matches f s
find_first-found [] f s at = absurd (cc)
find_first-found (r ∷ db) f s at = elim (matches? f r) [
  | yes m ↦
      let same : r ≡ s = found_inj (sym (if_pos (matches? f r) m _ _) ∙ at) in
      (Memᴰ.head (sym same), subst (Matches f) same m)
  | no n ↦
      let (h, m) = find_first-found db f s (sym (if_neg (matches? f r) n _ _) ∙ at) in
      (Memᴰ.tail h, m)
]

find_first-none :
    (db : Docs) (f : List Cond) (s : UserSession)
    → find_first db f ≡ no_documents
    → Memᴰ s db
    → ¬ Matches f s
find_first-none [] f s at h = elim h [ ]
find_first-none (r ∷ db) f s at (Memᴰ.head e) = λ m.
    let met : found r ≡ no_documents =
      sym (if_pos (matches? f r) (subst (Matches f) e m) _ _) ∙ at in
    cc
find_first-none (r ∷ db) f s at (Memᴰ.tail h) = elim (matches? f r) [
  | yes m ↦ let met : found r ≡ no_documents = sym (if_pos (matches? f r) m _ _) ∙ at in absurd (cc)
  | no n ↦ find_first-none db f s (sym (if_neg (matches? f r) n _ _) ∙ at) h
]

Upserted-tail :
    (f : List Cond) (new s : UserSession) (xs ys : List UserSession)
    → ¬ Matches f s
    → Upserted f new xs ys
    → Upserted f new (s ∷ xs) (s ∷ ys)
Upserted-tail f new s xs ys n (inl swap) = inl (there swap)
Upserted-tail f new s xs ys n (inr (free, added)) =
    inr (free_of f s xs n free, ap (λ zs. s ∷ zs) added)

pub upsert-Upserted :
    (f : List Cond) (new : UserSession) (db : Docs) → Upserted f new db (upsert f new db)
upsert-Upserted f new [] = inr (λ s h. elim h [ ], refl)
upsert-Upserted f new (s ∷ db) =
    ite_elim (Upserted f new (s ∷ db)) (matches? f s) (λ m. inl (here m))
      (λ n. Upserted-tail f new s db (upsert f new db) n (upsert-Upserted f new db))

abbrev query : Bool → Docs → List Cond → Found UserSession
query true db f = failed
query false db f = find_first db f

pub query-found :
    (broken : Bool) (db : Docs) (f : List Cond) (s : UserSession)
    → query broken db f ≡ found s
    → Memᴰ s db × Matches f s
query-found true db f s at = absurd (cc)
query-found false db f s at = find_first-found db f s at

pub query-none :
    (broken : Bool) (db : Docs) (f : List Cond) (s : UserSession)
    → query broken db f ≡ no_documents
    → Memᴰ s db
    → ¬ Matches f s
query-none true db f s at h = absurd (cc)
query-none false db f s at h = find_first-none db f s at h

pub user_inj : {s r : String} → found s ≡ found r → s ≡ r
user_inj h = cc

pub log_inj : {xs ys : Docs} → some xs ≡ some ys → xs ≡ ys
log_inj h = cc

pub replaces :
    (f : List Cond) (s : UserSession) (db db' : Docs) → replaced (upsert f s db) ≢ not_replaced db'
replaces f s db db' h = cc

-- A query that does not break does not fail.
pub find_first-ne : (db : Docs) (f : List Cond) → find_first db f ≢ failed
find_first-ne [] f = λ h. cc
find_first-ne (s ∷ db) f =
    ite_elim (λ r. r ≢ failed) (matches? f s) (λ _ h. absurd (cc)) (λ _. find_first-ne db f)

pub replaced_inj : {xs ys : Docs} → replaced xs ≡ replaced ys → xs ≡ ys
replaced_inj h = cc

-- With `broken`, queries of sessions fail.
abbrev pub mongo : Bool → Mongo
mongo broken = record {
  Ctx = Unit;
  Db = Docs;
  with_timeout = λ x ms. x;
  sessions = λ db. db;
  find_session = λ x db f. query broken db f;
  find_user = λ x db id. found id;
  insert_log = λ x db s. some db;
  update_by_id = λ x db id s. db;
  replace_session = λ x db f s. replaced (upsert f s db);
  recoded = λ s. s;
  find_session-found = λ x db f s. query-found broken db f s;
  find_session-none = λ x db f s. query-none broken db f s;
  find_user-found = λ x db id user_id at. sym (user_inj at);
  sessions-insert_log = λ x db db' s at. sym (log_inj at);
  sessions-update_by_id = λ x db id s. refl;
  sessions-replaced =
      λ x db db' f s at. subst (Upserted f s db) (replaced_inj at) (upsert-Upserted f s db);
  sessions-not_replaced = λ x db db' f s at. absurd (replaces f s db db' at);
}

abbrev pub redis : (broken : Bool) → Redis (Mongo.Ctx (mongo broken))
redis broken = record {
  Cache = String → Option String;
  entry = λ c k. c k;
  get = λ x c k. c k;
  send = λ x c cs. after_all cs c;
  expire = λ c k j. ite (str_dec k j) none (c j);
  get_cases = λ x c k. inr refl;
  send_cases = λ x c cs. inr (λ k. refl);
  entry-expire = λ c k j. refl;
}

-- One user has tokens, of one scope, which they spell.
abbrev spelled : List String → Option String
spelled [] = none
spelled (t ∷ []) = some t
spelled (t ∷ u ∷ ts) = none

abbrev sign : JwtClaims → Option String
sign claims =
    ite (str_dec claims.sub "alice")
      (if claims.iat == 0 && claims.nbf == 0 && claims.exp == 7200
        then spelled claims.scope
        else none)
      none

abbrev claims_in : String → JwtClaims
claims_in token = record { sub = "alice"; iat = 0; nbf = 0; exp = 7200; scope = token ∷ [] }

abbrev read : Option String → String → Option Token
read none token = none
read (some secret) token = some (record { valid = true; claims = some (claims_in token) })

abbrev pub packages : Packages
packages = record {
  trim_space = λ s. s;
  to_upper = λ s. s;
  sha256_hex = λ s. s;
  signed_string = λ m claims secret. sign claims;
  parse = λ key now token. read (key true) token;
  unix = λ t. t / 1000;
  get_subject = λ claims. some claims.sub;
}

abbrev claims_of : String → ℕ → ℕ → ℕ → List String → JwtClaims
claims_of sub iat nbf exp scope = record {
  sub = sub;
  iat = iat;
  nbf = nbf;
  exp = exp;
  scope = scope;
}

sign-claims :
    (sub : String) (iat nbf exp : ℕ) (ts : List String) (token : String)
    → sign (claims_of sub iat nbf exp ts) ≡ some token
    → claims_of sub iat nbf exp ts ≡ claims_in token
sign-claims sub iat nbf exp [] token at = absurd (ground (arith, at))
sign-claims sub iat nbf exp (t ∷ u ∷ ts) token at = absurd (ground (arith, at))
sign-claims sub iat nbf exp (t ∷ []) token at =
    let sub_is : sub ≡ "alice" = ground (arith, at) in
    let iat_is : iat ≡ 0 = ground (arith, at) in
    let nbf_is : nbf ≡ 0 = ground (arith, at) in
    let exp_is : exp ≡ 7200 = ground (arith, at) in
    let token_is : t ≡ token = ground (arith, at) in
    λ i. claims_of (sub_is i) (iat_is i) (nbf_is i) (exp_is i) (token_is i ∷ [])

read-known :
    (o : Option String) (secret token : String)
    → o ≡ some secret
    → read o token ≡ some (record { valid = true; claims = some (claims_in token) })
read-known none secret token h = absurd (cc)
read-known (some s) secret token h = refl

pub packages-Parses : Parses packages
packages-Parses m claims secret token key now made known from until =
    let its = sign-claims claims.sub claims.iat claims.nbf claims.exp claims.scope token made in
    read-known (key true) secret token known
    ∙ ap (λ c. some (record { valid = true; claims = some c })) (sym its)

abbrev pub web : UserSessionKey
web = record { user_id = "alice"; device_type = "web"; device_id = "w" }

abbrev pub phone : UserSessionKey
phone = record { user_id = "alice"; device_type = "ios"; device_id = "p" }

abbrev pub issue : Issue
issue = record {
  token_of = λ s. "sha256:" ++ s;
  device_of = λ s. ite (str_dec s "t3") phone web;
  token_of_inj = λ s t e. append_cancel_left "sha256:" s t e;
}
