-- ===== src/Users/Sessions/Refined.antt =====
-- Runs of logins and checks against the map from devices to sessions.
use mathlib.Core.List.{Memᴰ}
use ppchat.Prelude.{◌≡◌, inr, refl, sym, subst, arith, String, none, List, [], ◌∷◌}
use ppchat.Users.Jwt.{Time, Packages, default_options, jwt_verify}
use ppchat.Users.Store.{Mongo, Redis, UserSession}
use ppchat.Users.Sessions.{token_key, verify}
use ppchat.Users.Sessions.Docs.{OnePerDevice}
use ppchat.Users.Sessions.Spec.{
  Devices, Issue, Steady, Call, logs_in, verifies, expires, AllAllowed, Fits, step, answers,
}
use ppchat.Users.Sessions.Cached.{Agrees, entries-Agrees}
use ppchat.Users.Sessions.Checked.{verify_claimed-Checks}
use ppchat.Users.Sessions.Logged.{login-Logged}

nothing_in : (s : UserSession) → Memᴰ s [] → ⊥
nothing_in s h = elim h [ ]

module _ (p : Packages) (secret : String) (mongo : Mongo) (redis : Redis (Mongo.Ctx mongo))
    (issue : Issue) (steady : Steady p secret mongo redis) where
  open mongo use {Ctx, Db, sessions}
  open redis use {Cache, entry, entry-expire}

  expire_Agrees :
      (clock : Time) (key : String) (docs : List UserSession) (c : Cache) (a : Devices)
      → Agrees issue clock docs (entry c) a
      → Agrees issue clock docs (entry (redis.expire c key)) a
  expire_Agrees clock key docs c a g =
      entries-Agrees issue g (omega arith)
        (λ h v at. inr (ground (arith, entry-expire c key (token_key h), at)))

  answers-AllAllowed_from :
      (calls : List (Call Ctx)) (clock : Time) (db : Db) (c : Cache) (a : Devices)
      → Fits p secret issue clock calls
      → Agrees issue clock (sessions db) (entry c) a
      → AllAllowed p secret a calls (answers p secret mongo redis calls (db, c))
  unfolding answers step verify
  answers-AllAllowed_from [] clock db c a fits g = tt
  answers-AllAllowed_from (logs_in x in_ t ∷ calls) clock db c a (issued, goes, fits) g =
      let (a', allowed, g') =
        login-Logged p secret mongo redis issue steady x clock t c a goes in_ issued db g in
      (a', allowed, answers-AllAllowed_from calls t.at_cache _ _ a' fits g')
  answers-AllAllowed_from (verifies x token hash at now later ∷ calls) clock db c a (goes, on, fits)
        g =
      let (g', accepts, rejects) =
        verify_claimed-Checks p secret mongo redis issue steady x hash clock now later db c a g goes
          on (jwt_verify p (default_options secret) token hash at) in
      (a, (refl, accepts, rejects), answers-AllAllowed_from calls later db _ a fits g')
  answers-AllAllowed_from (expires key ∷ calls) clock db c a fits g =
      (a, refl, answers-AllAllowed_from calls clock db _ a fits (expire_Agrees clock key _ c a g))

  -- Where no query and no replacement fails, Redis runs what it is sent, the clock does not go back,
  -- and each login is under the trimmed user id with a session id made for its token and device: in
  -- any run of logins, checks and expiries of keys from an empty collection and an empty Redis, the
  -- answers are allowed by the map from devices to sessions. A login that succeeds makes its session
  -- that of its device and another changes nothing; a token whose claims are fine is accepted only
  -- with a device's session that has its hash, is valid and has not expired, and is refused as expired
  -- only where no device has one; any other token is not accepted.
  pub answers-AllAllowed :
      (calls : List (Call Ctx)) (clock : Time) (db : Db) (c : Cache)
      → Fits p secret issue clock calls
      → sessions db ≡ []
      → ((k : String) → entry c k ≡ none)
      → AllAllowed p secret (λ _. none) calls (answers p secret mongo redis calls (db, c))
  answers-AllAllowed calls clock db c fits empty clear =
      let nothing : (s : UserSession) → Memᴰ s (sessions db) → ⊥ =
        λ s h. nothing_in s (subst (Memᴰ s) empty h) in
      answers-AllAllowed_from calls clock db c (λ _. none) fits
        (record {
          own = λ s h. absurd (nothing s h);
          held = λ s h. absurd (nothing s h);
          kept = λ k s h. absurd (cc);
          one = subst OnePerDevice (sym empty) tt;
          known = λ h v at. absurd (ground (arith, clear (token_key h), at));
        })
