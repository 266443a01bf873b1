-- ===== src/Users/Requests.antt =====
-- module/user/service/user.go: the arguments of the calls, and the filters, commands and documents
-- that they make.
use Prim.Native.String.{String, ◌++◌}
use ppchat.Prelude.{
  ◌-◌, true, Option, none, some, List, [], ◌∷◌, ◌&&◌, ltb, if◌then◌else◌, ite, str_dec,
}
use ppchat.Users.Jwt.{Time, Result, ok, fail, find_user_failed}
use ppchat.Users.Store.{
  UserSession, Cond, user_id_is, device_type_is, device_id_is, session_id_is, token_hash_is,
  is_valid_is, expires_after, Found, found, no_documents, failed, Command, del, set,
}

pub record UserSessionKey : Type 0 where
  pub user_id : String
  pub device_type : String
  pub device_id : String

-- `Now` is `none` where it is the zero time. The code reads `TTL` and does not use it.
pub record LoginParams : Type 0 where
  pub session_id : String
  pub user_id : String
  pub tenant_id : String
  pub device_type : String
  pub device_id : String
  pub ip : String
  pub user_agent : String
  pub scopes : List String
  pub ttl : Time
  pub now : Option Time

-- The readings of the clock in a login.
pub record Readings : Type 0 where
  pub at_login : Time
  pub at_token : Time
  pub at_old : Time
  pub at_new : Time
  pub at_cache : Time

unfoldable pub token_key : String → String
token_key hash = "user_session:token_hash:" ++ hash

unfoldable pub device_filter : UserSessionKey → List Cond
device_filter key =
    user_id_is key.user_id ∷ device_type_is key.device_type ∷ device_id_is key.device_id ∷ []

unfoldable pub valid_filter : UserSessionKey → List Cond
valid_filter key =
    user_id_is key.user_id
    ∷ device_type_is key.device_type
    ∷ device_id_is key.device_id
    ∷ is_valid_is true
    ∷ []

unfoldable pub session_filter : String → Time → List Cond
session_filter sid now = session_id_is sid ∷ is_valid_is true ∷ expires_after now ∷ []

unfoldable pub hash_filter : String → Time → List Cond
hash_filter hash now = token_hash_is hash ∷ is_valid_is true ∷ expires_after now ∷ []

-- The commands for Redis at the end of `ReLoginArchiveAndReplace`.
unfoldable pub revoke : Option UserSession → List Command
unfolding token_key
revoke none = []
revoke (some old) =
    ite (str_dec old.access_token_hash "") [] (del (token_key old.access_token_hash) ∷ [])

unfoldable pub publish : UserSession → Time → List Command
unfolding token_key
publish s now =
    let gone = ite (str_dec s.access_token_hash "") [] (del (token_key s.access_token_hash) ∷ []) in
    let kept = set (token_key s.access_token_hash) s.session_id (s.expire_time - now) ∷ [] in
    if s.is_valid && ltb now s.expire_time
    then ite (str_dec s.access_token_hash "") gone (ite (str_dec s.session_id "") gone kept)
    else gone

-- `rec` in `Login`, with the fields that it does not set.
unfoldable pub new_session : LoginParams → Time → String → String → Time → UserSession
new_session in_ now token hash exp = record {
  session_id = in_.session_id;
  user_id = in_.user_id;
  tenant_id = in_.tenant_id;
  device_type = in_.device_type;
  device_id = in_.device_id;
  app_version = "";
  os = "";
  ip = "";
  user_agent = "";
  access_token = token;
  login_time = now;
  last_active = now;
  expire_time = exp;
  expire_at = exp;
  logout_time = none;
  status = "online";
  reason = "";
  access_token_hash = hash;
  refresh_token_hash = "";
  scope = [];
  is_valid = true;
  risk_score = 0;
  ex = "";
  create_time = now;
  update_time = now;
}

abbrev pub login_now : Option Time → Time → Time
login_now none at = at
login_now (some t) at = t

-- `mongo.ErrNoDocuments` and other errors alike.
abbrev pub user_found : Found String → Result String
user_found (found id) = ok id
user_found no_documents = fail find_user_failed
user_found failed = fail find_user_failed
