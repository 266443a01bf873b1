-- ===== src/Users/Jwt.antt =====
-- tools/security/jwt.go: signing and checking a token, on the packages jwt, strings and crypto/sha256.
pub mod Tokens
use Prim.Native.String.{String, ◌++◌}
use ppchat.Prelude.{
  ℕ, ◌+◌, ◌≡◌, Bool, true, false, Option, none, some, List, [], ◌∷◌, leb, ◌==◌, if◌then◌else◌, ite,
  str_dec,
}

-- Milliseconds, to which MongoDB cuts a time. Go's zero time is 0.
abbrev pub Time : Type 0
Time = ℕ

pub record Options : Type 0 where
  pub secret : String
  pub alg : String
  pub ttl : Time

-- The claims that the code sets; the seconds of `Unix()` are `Time / 1000`.
pub record JwtClaims : Type 0 where
  pub sub : String
  pub iat : ℕ
  pub nbf : ℕ
  pub exp : ℕ
  pub scope : List String

pub data SigningMethod : Type 0 where
  hs256 hs384 hs512 : SigningMethod

-- What `Parse` returns without an error. `claims` is `none` where they are not `MapClaims`.
pub record Token : Type 0 where
  pub valid : Bool
  pub claims : Option JwtClaims

pub data Error : Type 0 where
  unsupported_alg : String → Error
  sign_failed parse_failed invalid_token hash_mismatch claims_mismatch : Error
  find_user_failed no_user_id mongo_failed token_expired : Error
  token_verify_failed : Error → Error

-- `panicked`: the nil result of a failed call is read.
pub data Result (A : Type 0) : Type 0 where
  ok : A → Result A
  fail : Error → Result A
  panicked : Result A

abbrev pub and_then : {A B : Type 0} → Result A → (A → Result B) → Result B
and_then (ok a) f = f a
and_then (fail e) f = fail e
and_then panicked f = panicked

-- The packages, with no assumption. `parse key now t` hands `key` whether the algorithm of the
-- token is of the HMAC family, and gets the secret or an error; `get_subject` is `GetSubject`.
pub record Packages : Type 0 where
  pub trim_space : String → String
  pub to_upper : String → String
  pub sha256_hex : String → String
  pub signed_string : SigningMethod → JwtClaims → String → Option String
  pub parse : (Bool → Option String) → Time → String → Option Token
  pub unix : Time → ℕ
  pub get_subject : JwtClaims → Option String

abbrev two_hours : Time
two_hours = 7200000

unfoldable pub default_options : String → Options
default_options secret = record { secret = secret; alg = "HS256"; ttl = two_hours }

module _ (p : Packages) where
  unfoldable pub hash_token : String → String
  hash_token token = "sha256:" ++ p.sha256_hex token

  unfoldable pub method_named : String → String → Result SigningMethod
  method_named alg name = ite (str_dec name "") (ok hs256) (
      ite (str_dec name "HS256") (ok hs256) (
        ite (str_dec name "HS384") (ok hs384)
          (ite (str_dec name "HS512") (ok hs512) (fail (unsupported_alg alg)))))

  unfoldable pub signing_method : String → Result SigningMethod
  unfolding method_named
  signing_method alg = method_named alg (p.to_upper (p.trim_space alg))

  -- `opts.TTL <= 0` is 0 here.
  unfoldable pub lifetime : Options → Time
  lifetime opts = if opts.ttl == 0 then two_hours else opts.ttl

  unfoldable pub claims_at : Options → String → List String → Time → JwtClaims
  unfolding lifetime
  claims_at opts user_id scopes now = record {
    sub = user_id;
    iat = p.unix now;
    nbf = p.unix now;
    exp = p.unix (now + lifetime opts);
    scope = scopes;
  }

  unfoldable pub signed : Time → Option String → Result (String × String × Time)
  signed exp none = fail sign_failed
  signed exp (some token) = ok (token, hash_token token, exp)

  -- The token, its hash, and when it expires.
  unfoldable pub generate : Options → String → List String → Time → Result (String × String × Time)
  unfolding signed lifetime claims_at
  generate opts user_id scopes now = and_then (signing_method opts.alg) (λ method.
      signed (now + lifetime opts)
        (p.signed_string method (claims_at opts user_id scopes now) opts.secret))

  -- The function that gives `Parse` the secret.
  unfoldable pub key_func : Options → Bool → Option String
  key_func opts hmac = if hmac then some opts.secret else none

  unfoldable pub claims_of : Option JwtClaims → Result JwtClaims
  claims_of none = fail claims_mismatch
  claims_of (some c) = ok c

  unfoldable pub check_hash : String → String → Token → Result JwtClaims
  unfolding claims_of
  check_hash token expected t =
      let its = claims_of t.claims in
      ite (str_dec expected "") its
        (ite (str_dec (hash_token token) expected) its (fail hash_mismatch))

  unfoldable pub check_parsed : String → String → Option Token → Result JwtClaims
  unfolding check_hash
  check_parsed token expected none = fail parse_failed
  check_parsed token expected (some t) =
      if t.valid then check_hash token expected t else fail invalid_token

  unfoldable pub jwt_verify : Options → String → String → Time → Result JwtClaims
  unfolding check_parsed
  jwt_verify opts token expected now =
      and_then (signing_method opts.alg)
        (λ _. check_parsed token expected (p.parse (key_func opts) now token))
