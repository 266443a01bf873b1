-- ===== src/Users/Sessions/Spec.antt =====
-- Runs of module/user/service/user.go, and what they promise of a map from devices to sessions.
use ppchat.Prelude.{◌≡◌, ◌≢◌, ◌<◌, ◌≤◌, ◌⊎◌, String, true, Option, none, some, List, [], ◌∷◌, ite}
use ppchat.Users.Jwt.{
  Time, Packages, JwtClaims, Result, ok, fail, panicked, token_expired, default_options, generate,
  jwt_verify,
}
use ppchat.Users.Store.{Mongo, Redis, UserSession, Cond, failed, not_replaced, Command, after_all}
use ppchat.Users.Sessions.{UserSessionKey, LoginParams, Readings, login, verify}
use ppchat.Users.Sessions.Docs.{key_of, key_dec}

abbrev pub key_in : LoginParams → UserSessionKey
key_in in_ = record {
  user_id = in_.user_id;
  device_type = in_.device_type;
  device_id = in_.device_id;
}

-- The session of each device.
abbrev pub Devices : Type 0
Devices = UserSessionKey → Option UserSession

abbrev pub assign : UserSessionKey → UserSession → Devices → Devices
assign k s a j = ite (key_dec k j) (some s) (a j)

-- A session is good for a token at a time.
abbrev pub IsGood : String → Time → UserSession → Type 0
IsGood hash now s = (s.access_token_hash ≡ hash) × (s.is_valid ≡ true) × (now < s.expire_time)

-- A login that succeeds makes its session that of the device; the time of its update is set last.
abbrev pub LoginAllowed : Devices → LoginParams → Result UserSession → Devices → Type 0
LoginAllowed a in_ (ok s) a' =
    (key_of s ≡ key_in in_)
    × (s.session_id ≡ in_.session_id)
    × (s.is_valid ≡ true)
    × ((t : Time) × (a' ≡ assign (key_of s) (record s { update_time = t }) a))
LoginAllowed a in_ (fail e) a' = a' ≡ a
LoginAllowed a in_ panicked a' = ⊥

-- A token whose signature and claims are fine is accepted with the session of a device that is good
-- for it, and is refused as expired only where no device has one.
abbrev pub VerifyAllowed : Devices → String → Time → Time → Result UserSession → Type 0
VerifyAllowed a hash now later r =
    ((s : UserSession) × (r ≡ ok s) × (a (key_of s) ≡ some s) × IsGood hash now s)
    ⊎ ((r ≡ fail token_expired)
        × ((k : UserSessionKey) (s : UserSession) → a k ≡ some s → ¬ IsGood hash later s))

-- A key of Redis expires or is evicted at any time.
pub data Call (Ctx : Type 0) : Type 0 where
  logs_in : Ctx → LoginParams → Readings → Call Ctx
  verifies : Ctx → String → String → Time → Time → Time → Call Ctx
  expires : String → Call Ctx

-- What the caller of a login or a check gets.
abbrev pub Answer : Type 0
Answer = Option (Result UserSession)

-- The tokens and the devices that session ids stand for.
pub record Issue : Type 0 where
  pub token_of : String → String
  pub device_of : String → UserSessionKey
  pub token_of_inj : (s t : String) → token_of s ≡ token_of t → s ≡ t

module _ (p : Packages) (secret : String) where
  abbrev pub Claims : String → String → Time → Result JwtClaims
  Claims token hash at = jwt_verify p (default_options secret) token hash at

  abbrev pub Allowed : {C : Type 0} → Devices → Call C → Answer → Devices → Type 0
  Allowed a (logs_in x in_ t) (some r) a' = LoginAllowed a in_ r a'
  Allowed a (verifies x token hash at now later) (some r) a' =
      (a' ≡ a)
      × ((claims : JwtClaims) → Claims token hash at ≡ ok claims → VerifyAllowed a hash now later r)
      × (((claims : JwtClaims) → Claims token hash at ≢ ok claims) → (s : UserSession) → r ≢ ok s)
  Allowed a (expires key) none a' = a' ≡ a
  Allowed a c r a' = ⊥

  -- The calls in turn.
  abbrev pub AllAllowed : {C : Type 0} → Devices → List (Call C) → List Answer → Type 0
  AllAllowed a [] [] = Unit
  AllAllowed a (c ∷ cs) (r ∷ rs) = (a' : Devices) × Allowed a c r a' × AllAllowed a' cs rs
  AllAllowed a cs rs = ⊥

  module _ (issue : Issue) where
    open issue use {token_of, device_of}

    -- A login under the trimmed user id, with a session id that was made for this token and device.
    abbrev pub IsIssued : LoginParams → Time → Type 0
    IsIssued in_ at =
        (p.trim_space in_.user_id ≡ in_.user_id)
        × (in_.session_id ≢ "-")
        × (device_of in_.session_id ≡ key_in in_)
        × ((token hash : String) (exp : Time)
            → generate p (default_options secret) in_.user_id in_.scopes at ≡ ok (token, hash, exp)
            → token_of in_.session_id ≡ hash)

    -- The clock does not go back from call to call, and the logins are issued.
    abbrev pub Fits : {C : Type 0} → Time → List (Call C) → Type 0
    Fits clock [] = Unit
    Fits clock (logs_in x in_ t ∷ cs) =
        IsIssued in_ t.at_token × (clock ≤ t.at_cache) × Fits t.at_cache cs
    Fits clock (verifies x token hash at now later ∷ cs) =
        (clock ≤ now) × (now ≤ later) × Fits later cs
    Fits clock (expires key ∷ cs) = Fits clock cs

  module _ (mongo : Mongo) (redis : Redis (Mongo.Ctx mongo)) where
    open mongo use {Ctx, Db, find_session, replace_session}
    open redis use {Cache, entry, send, expire}

    -- No query and no replacement fails, and Redis runs what it is sent.
    abbrev pub Steady : Type 0
    Steady =
        ((x : Ctx) (db : Db) (f : List Cond) → find_session x db f ≢ failed)
        × ((x : Ctx) (db db' : Db) (f : List Cond) (s : UserSession)
            → replace_session x db f s ≢ not_replaced db')
        × ((x : Ctx) (c : Cache) (cs : List Command) (k : String)
            → entry (send x c cs) k ≡ after_all cs (entry c) k)

    abbrev with_db : Db × Cache × Result UserSession → (Db × Cache) × Answer
    with_db (db, c, r) = ((db, c), some r)

    abbrev with_cache : Db → Cache × Result UserSession → (Db × Cache) × Answer
    with_cache db (c, r) = ((db, c), some r)

    unfoldable pub step : Call Ctx → Db × Cache → (Db × Cache) × Answer
    step (logs_in x in_ t) (db, c) = with_db (login p secret mongo redis x in_ t db c)
    step (verifies x token hash at now later) (db, c) =
        with_cache db (verify p secret mongo redis x token hash at now later db c)
    step (expires key) (db, c) = ((db, expire c key), none)

    -- The answers of a run.
    unfoldable pub answers : List (Call Ctx) → Db × Cache → List Answer
    answers [] w = []
    answers (c ∷ cs) w = let (w', r) = step c w in r ∷ answers cs w'
