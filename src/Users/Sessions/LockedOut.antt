-- ===== src/Users/Sessions/LockedOut.antt =====
-- `Verify` where a query fails.
use ppchat.Prelude.{◌≡◌, ◌≢◌, refl, ap, ◌∙◌, if_pos, arith, String, some, List, str_dec}
use ppchat.Users.Jwt.{
  Time, Packages, JwtClaims, ok, fail, token_expired, default_options, jwt_verify,
}
use ppchat.Users.Store.{Mongo, Redis, failed, Command, after_all}
use ppchat.Users.Sessions.{
  token_key, session_filter, verify, verify_claimed, verify_cached, verify_hit, deny,
}

module _ (p : Packages) (secret : String) (mongo : Mongo) (redis : Redis (Mongo.Ctx mongo)) where
  open mongo use {Ctx, Db, with_timeout, find_session}
  open redis use {Cache, entry, get, send}

  abbrev IsFine : String → String → Time → Type 0
  IsFine token hash at =
      (claims : JwtClaims) × (jwt_verify p (default_options secret) token hash at ≡ ok claims)

  refused-hit :
      (x : Ctx) (token hash : String) (at now later : Time) (db : Db) (c : Cache)
      → IsFine token hash at
      → get x c (token_key hash) ≡ some "-"
      → (verify p secret mongo redis x token hash at now later db c).1 ≡ fail token_expired
  unfolding verify verify_claimed verify_cached
  refused-hit x token hash at now later db c (claims, fine) marked =
      rw (fine, marked) (ground arith)

  denied-hit :
      (x : Ctx) (token hash v : String) (at now later : Time) (db : Db) (c : Cache)
      → IsFine token hash at
      → get x c (token_key hash) ≡ some v
      → v ≢ "-"
      → find_session (with_timeout x 300) db (session_filter v now) ≡ failed
      → verify p secret mongo redis x token hash at now later db c
        ≡ (deny p secret mongo redis x hash c, fail token_expired)
  unfolding verify verify_claimed verify_cached verify_hit
  denied-hit x token hash v at now later db c (claims, fine) cached real broken =
      rw (fine, cached, broken) (ground (arith, real))

  -- Where Redis runs what it is sent and reads what it has: if the query for the session that Redis
  -- names fails, whether or not the session is good, `Verify` says that the token has expired, and so
  -- does every other check of the token that finds Redis as it was left.
  pub verify_locks_out :
      (x : Ctx) (token hash v : String) (at now later : Time) (db : Db) (c : Cache)
      → ((y : Ctx) (d : Cache) (k : String) → get y d k ≡ entry d k)
      → ((cs : List Command) (k : String) → entry (send x c cs) k ≡ after_all cs (entry c) k)
      → IsFine token hash at
      → get x c (token_key hash) ≡ some v
      → v ≢ "-"
      → find_session (with_timeout x 300) db (session_filter v now) ≡ failed
      → let (c', r) = verify p secret mongo redis x token hash at now later db c in
        (r ≡ fail token_expired)
        × ((y : Ctx) (at' now' later' : Time) (db' : Db)
            → IsFine token hash at'
            → (verify p secret mongo redis y token hash at' now' later' db' c').1
              ≡ fail token_expired)
  verify_locks_out x token hash v at now later db c reads runs fine cached real broken =
      let out = denied-hit x token hash v at now later db c fine cached real broken in
      (
        ap (λ o. o.1) out,
        λ y at' now' later' db' fine'. refused-hit y token hash at' now' later' db' _ fine' (
            reads y _ (token_key hash)
            ∙ ap (λ o. entry o.0 (token_key hash)) out
            ∙ unfold deny in
              (runs _ (token_key hash)
                ∙ if_pos (str_dec (token_key hash) (token_key hash)) refl _ _)),
      )
