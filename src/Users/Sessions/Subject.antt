-- ===== src/Users/Sessions/Subject.antt =====
-- The user that `GetUserByToken` finds for the token of a session.
use ppchat.Prelude.{◌+◌, ◌≡◌, ◌<◌, ◌≤◌, refl, ap, ◌∙◌, String, some}
use ppchat.Users.Jwt.{
  Time, Packages, JwtClaims, Result, ok, fail, panicked, default_options, generate, claims_at,
  lifetime,
}
use ppchat.Users.Jwt.Tokens.{Parses, jwt_verify-generate}
use ppchat.Users.Store.{Mongo, Redis, UserSession}
use ppchat.Users.Sessions.{
  LoginParams, Readings, return_session, login_signed, login_known, login, get_user_by_id,
  get_user_by_token, user_verified, user_claimed, new_session,
}

module _ (p : Packages) (secret : String) (mongo : Mongo) (redis : Redis (Mongo.Ctx mongo)) where
  open mongo use {Ctx, Db}
  open redis use {Cache}

  module _ (x : Ctx) (in_ : LoginParams) (t : Readings) (s : UserSession) where
    -- The token that a session carries is one of `Generate`.
    abbrev IsGenerated : Type 0
    IsGenerated =
        (exp : Time) × (generate p (default_options secret) in_.user_id in_.scopes t.at_token
          ≡ ok (s.access_token, s.access_token_hash, exp))

    return_session_cases :
        (r : UserSession) (out : Db × Cache × Result Unit)
        → (return_session p secret mongo redis r out).2 ≡ ok s
        → r ≡ s
    unfolding return_session
    return_session_cases r (db, c, ok _) at = cc
    return_session_cases r (db, c, fail e) at = absurd (cc)
    return_session_cases r (db, c, panicked) at = absurd (cc)

    login_signed_cases :
        (id : String) (db : Db) (c : Cache) (r : Result (String × String × Time))
        → generate p (default_options secret) in_.user_id in_.scopes t.at_token ≡ r
        → (login_signed p secret mongo redis x in_ t id db c r).2 ≡ ok s
        → IsGenerated
    unfolding login_signed new_session
    login_signed_cases id db c (ok (token, hash, exp)) made at =
        let same = return_session_cases _ _ at in
        (exp, made ∙ ap (λ r. ok (r.access_token, r.access_token_hash, exp)) same)
    login_signed_cases id db c (fail e) made at = absurd (cc)
    login_signed_cases id db c panicked made at = absurd (cc)

    login_known_cases :
        (db : Db) (c : Cache) (r : Result String)
        → (login_known p secret mongo redis x in_ t db c r).2 ≡ ok s
        → IsGenerated
    unfolding login_known
    login_known_cases db c (ok id) at = login_signed_cases id db c _ refl at
    login_known_cases db c (fail e) at = absurd (cc)
    login_known_cases db c panicked at = absurd (cc)

    login_cases :
        (db : Db) (c : Cache) → (login p secret mongo redis x in_ t db c).2 ≡ ok s → IsGenerated
    unfolding login
    login_cases db c at = login_known_cases db c _ at

    -- Where signed tokens parse and `GetSubject` reads `sub`: if a login succeeds, `GetUserByToken`
    -- with the token and the hash of its session returns what `GetUserById` returns for the user id of
    -- the login, on any database, from the second of the token on until two hours after it was made.
    pub get_user_by_token-login :
        (db : Db) (c : Cache) (x' : Ctx) (db' : Db) (now : Time)
        → Parses p
        → ((claims : JwtClaims) → p.get_subject claims ≡ some claims.sub)
        → (login p secret mongo redis x in_ t db c).2 ≡ ok s
        → p.unix t.at_token ≤ p.unix now
        → p.unix now < p.unix (t.at_token + 7200000)
        → get_user_by_token p secret mongo redis x' db' s.access_token s.access_token_hash now
          ≡ get_user_by_id p secret mongo redis x' db' in_.user_id
    unfolding get_user_by_token
    get_user_by_token-login db c x' db' now parses subject at from until =
        let (exp, made) = login_cases db c at in
        let claims = claims_at p (default_options secret) in_.user_id in_.scopes t.at_token in
        let accepted =
          (jwt_verify-generate p (default_options secret) in_.user_id in_.scopes t.at_token now
            s.access_token s.access_token_hash exp parses made from
            (unfold default_options lifetime in until)).0 in
        ap (user_verified p secret mongo redis x' db') accepted
        ∙ (unfold user_verified in
            ap (user_claimed p secret mongo redis x' db') (subject claims)
            ∙ unfold user_claimed claims_at in refl)
