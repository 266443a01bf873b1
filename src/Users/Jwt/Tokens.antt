-- ===== src/Users/Jwt/Tokens.antt =====
-- What a token of `Generate` in tools/security/jwt.go carries through `Verify`.
use Prim.Native.String.{String}
use text.Mathlib.TextLemmas.{append-eq-nil_iff}
use ppchat.Prelude.{
  ◌+◌, ◌≡◌, ◌≢◌, ◌<◌, ◌≤◌, refl, sym, ap, ◌∙◌, true, Bool, Option, none, some, List, str-ne, arith,
}
use ppchat.Users.Jwt.{
  Time, Packages, JwtClaims, Options, SigningMethod, Result, ok, fail, panicked, and_then,
  hash_mismatch, hash_token, lifetime, claims_at, signed, generate, signing_method, key_func,
  check_hash, check_parsed, jwt_verify, claims_of, method_named,
}

module _ (p : Packages) where
  hash_token-ne : (token : String) → hash_token p token ≢ ""
  unfolding hash_token
  hash_token-ne token e = str-ne "sha256:" "" refl (append-eq-nil_iff.0 e).0

  -- What stands behind a result without an error.
  abbrev pub IsSigned : Options → String → List String → Time → String → String → Type 0
  IsSigned opts id scopes now token hash =
      (m : SigningMethod) × (signing_method p opts.alg ≡ ok m)
      × (p.signed_string m (claims_at p opts id scopes now) opts.secret ≡ some token)
      × (hash ≡ hash_token p token)

  signed_cases :
      (exp : Time) (o : Option String) (token hash : String) (end : Time)
      → signed p exp o ≡ ok (token, hash, end)
      → (o ≡ some token) × (hash ≡ hash_token p token)
  unfolding signed
  signed_cases exp none token hash end at = absurd (cc)
  signed_cases exp (some t) token hash end at =
      let same : t ≡ token = cc in
      let hashed : hash_token p t ≡ hash = cc in (ap some same, sym hashed ∙ ap (hash_token p) same)

  and_then_cases :
      {A B : Type 0} (r : Result A) (f : A → Result B) (b : B)
      → and_then r f ≡ ok b
      → (a : A) × (r ≡ ok a) × (f a ≡ ok b)
  and_then_cases (ok a) f b at = (a, refl, at)
  and_then_cases (fail e) f b at = absurd (cc)
  and_then_cases panicked f b at = absurd (cc)

  pub generate_cases :
      (opts : Options) (id : String) (scopes : List String) (now : Time) (token hash : String)
      (exp : Time)
      → generate p opts id scopes now ≡ ok (token, hash, exp)
      → IsSigned opts id scopes now token hash
  unfolding generate
  generate_cases opts id scopes now token hash exp at =
      let (m, method, its) = and_then_cases (signing_method p opts.alg) _ (token, hash, exp) at in
      let (text, hashed) = signed_cases _ _ token hash exp its in (m, method, text, hashed)

  pub generate_hash-ne :
      (opts : Options) (id : String) (scopes : List String) (now : Time) (token hash : String)
      (exp : Time)
      → generate p opts id scopes now ≡ ok (token, hash, exp)
      → hash ≢ ""
  generate_hash-ne opts id scopes now token hash exp at =
      let (m, method, text, hashed) = generate_cases opts id scopes now token hash exp at in
      λ empty. hash_token-ne token (sym hashed ∙ empty)

  signed-ne : (exp : Time) (o : Option String) → signed p exp o ≢ panicked
  unfolding signed
  signed-ne exp none at = cc
  signed-ne exp (some t) at = cc

  method_named-ne : (alg name : String) → method_named p alg name ≢ panicked
  unfolding method_named
  method_named-ne alg name at = ground (arith, at)

  method_of-ne :
      (r : Result SigningMethod) (f : SigningMethod → Result (String × String × Time))
      → r ≢ panicked
      → ((m : SigningMethod) → f m ≢ panicked)
      → and_then r f ≢ panicked
  method_of-ne (ok m) f r_ne f_ne = f_ne m
  method_of-ne (fail e) f r_ne f_ne = λ at. cc
  method_of-ne panicked f r_ne f_ne = absurd (r_ne refl)

  pub generate-ne :
      (opts : Options) (id : String) (scopes : List String) (now : Time)
      → generate p opts id scopes now ≢ panicked
  unfolding generate signing_method
  generate-ne opts id scopes now =
      method_of-ne (signing_method p opts.alg) _ (method_named-ne opts.alg _) (λ m. signed-ne _ _)

  -- The package jwt: a token that was signed with an algorithm of the HMAC family parses under the
  -- same secret from its `nbf` on and before its `exp`, to the claims that were signed.
  abbrev pub Parses : Type 0
  Parses =
      (m : SigningMethod) (claims : JwtClaims) (secret token : String) (key : Bool → Option String)
      (now : Time)
      → p.signed_string m claims secret ≡ some token
      → key true ≡ some secret
      → claims.nbf ≤ p.unix now
      → p.unix now < claims.exp
      → p.parse key now token ≡ some (record { valid = true; claims = some claims })

  -- Where signed tokens parse: a token that `Generate` returns is accepted by `Verify` with the same
  -- options until it expires, with the claims that it was made of, if the expected hash is the one
  -- that was returned or empty, and is refused under any other hash.
  pub jwt_verify-generate :
      (opts : Options) (id : String) (scopes : List String) (made now : Time) (token hash : String)
      (exp : Time)
      → Parses
      → generate p opts id scopes made ≡ ok (token, hash, exp)
      → p.unix made ≤ p.unix now
      → p.unix now < p.unix (made + lifetime p opts)
      → (jwt_verify p opts token hash now ≡ ok (claims_at p opts id scopes made))
        × (jwt_verify p opts token "" now ≡ ok (claims_at p opts id scopes made))
        × ((other : String)
            → other ≢ ""
            → other ≢ hash
            → jwt_verify p opts token other now ≡ fail hash_mismatch)
  unfolding jwt_verify
  jwt_verify-generate opts id scopes made now token hash exp parses at from until =
      let (m, method, text, hashed) = generate_cases opts id scopes made token hash exp at in
      let claims = claims_at p opts id scopes made in
      let parsed : p.parse (key_func p opts) now token
          ≡ some (record { valid = true; claims = some claims }) =
        parses m claims opts.secret token (key_func p opts) now text (unfold key_func in refl)
          (unfold claims_at in from) (unfold claims_at in until) in
      let checked : (expected : String)
          → jwt_verify p opts token expected now
            ≡ check_parsed p token expected (some (record { valid = true; claims = some claims })) =
        λ expected.
          ap
            (λ r.
              and_then r (λ _. check_parsed p token expected (p.parse (key_func p opts) now token)))
            method
          ∙ ap (check_parsed p token expected) parsed in
      (
        checked hash ∙ unfold check_parsed check_hash claims_of in ground (arith, hashed),
        checked "" ∙ unfold check_parsed check_hash claims_of in ground (arith),
        λ other some_hash apart.
            checked other
            ∙ unfold check_parsed check_hash claims_of in ground (arith, hashed, some_hash, apart),
      )
