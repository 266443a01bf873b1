-- ===== src/Users/Sessions/Sample/Tests.antt =====
-- Runs of module/user/service/user.go: two logins of one device, with checks of both tokens.
use Prim.Native.String.{String, ◌++◌}
use mathlib.Core.List.{Memᴰ}
use ppchat.Prelude.{
  ◌≡◌, ◌≢◌, ◌≤◌, refl, sym, ap, ◌∙◌, arith, true, false, Option, none, some, List, [], ◌∷◌, str-ne,
  str_dec, ite, get_elem?,
}
use ppchat.Users.Jwt.{
  Time, JwtClaims, ok, fail, token_expired, hash_mismatch, default_options, generate, jwt_verify,
  claims_at, signing_method, method_named, signed, lifetime, hash_token, key_func,
}
use ppchat.Users.Jwt.Tokens.{jwt_verify-generate}
use ppchat.Users.Store.{UserSession}
use ppchat.Users.Sessions.{
  LoginParams, Readings, UserSessionKey, new_session, login, get_user_by_token, get_user_by_id,
  verify, token_key,
}
use ppchat.Users.Sessions.Spec.{
  Call, logs_in, verifies, expires, Fits, IsIssued, AllAllowed, answers, step, IsGood,
}
use ppchat.Users.Sessions.Refined.{answers-AllAllowed}
use ppchat.Users.Sessions.Subject.{get_user_by_token-login}
use ppchat.Users.Sessions.LockedOut.{verify_locks_out}
use ppchat.Users.Sessions.Accepted.{run, verify-IsGood}
use ppchat.Users.Sessions.Sample.{
  find_first-ne, replaces, mongo, redis, packages, packages-Parses, issue,
}

abbrev web_login : String → LoginParams
web_login sid = record {
  session_id = sid;
  user_id = "alice";
  tenant_id = "";
  device_type = "web";
  device_id = "w";
  ip = "10.0.0.1";
  user_agent = "ua";
  scopes = sid ∷ [];
  ttl = 0;
  now = none;
}

abbrev readings : Time → Readings
readings at = record { at_login = 1; at_token = 1; at_old = at; at_new = at; at_cache = at }

abbrev calls : List (Call Unit)
calls =
    logs_in tt (web_login "t1") (readings 2)
    ∷ verifies tt "t1" "sha256:t1" 3 3 4
    ∷ logs_in tt (web_login "t2") (readings 5)
    ∷ verifies tt "t1" "sha256:t1" 6 6 7
    ∷ expires "user_session:token_hash:sha256:t2"
    ∷ verifies tt "t2" "sha256:t2" 8 8 9
    ∷ []

abbrev no_entry : String → Option String
no_entry k = none

made :
    (sid : String)
    → generate packages (default_options "k") "alice" (sid ∷ []) 1
      ≡ ok (sid, "sha256:" ++ sid, 7200001)
unfolding generate signing_method method_named signed lifetime hash_token claims_at default_options
    str_dec
made sid = refl

made_hash :
    (sid token hash : String) (exp : Time)
    → generate packages (default_options "k") "alice" (sid ∷ []) 1 ≡ ok (token, hash, exp)
    → "sha256:" ++ sid ≡ hash
made_hash sid token hash exp at = let same = sym (made sid) ∙ at in cc

IsIssued-t1 : IsIssued packages "k" issue (web_login "t1") 1
unfolding str_dec
IsIssued-t1 = (refl, str-ne "t1" "-" refl, refl, made_hash "t1")

IsIssued-t2 : IsIssued packages "k" issue (web_login "t2") 1
unfolding str_dec
IsIssued-t2 = (refl, str-ne "t2" "-" refl, refl, made_hash "t2")

calls-Fits : Fits packages "k" issue 0 calls
calls-Fits = (
  IsIssued-t1,
  omega arith,
  (
    omega arith,
    omega arith,
    (IsIssued-t2, omega arith, (omega arith, omega arith, (omega arith, omega arith, tt))),
  ),
)

answers-AllAllowed_example :
    AllAllowed packages "k"
      (λ _. none)
      calls
      (answers packages "k" (mongo false) (redis false) calls ([], no_entry))
answers-AllAllowed_example =
    answers-AllAllowed packages "k" (mongo false) (redis false) issue
      ((λ x db f. find_first-ne db f), (λ x db db' f s. replaces f s db db'), λ x c cs k. refl)
      calls 0 [] no_entry calls-Fits refl (λ k. refl)

jwt_verify-generate_example :
    let opts = default_options "k" in
    (jwt_verify packages opts "t1" "sha256:t1" 5000
      ≡ ok (claims_at packages opts "alice" ("t1" ∷ []) 1))
    × (jwt_verify packages opts "t1" "" 5000 ≡ ok (claims_at packages opts "alice" ("t1" ∷ []) 1))
    × ((other : String)
        → other ≢ ""
        → other ≢ "sha256:t1"
        → jwt_verify packages opts "t1" other 5000 ≡ fail hash_mismatch)
unfolding lifetime default_options
jwt_verify-generate_example =
    jwt_verify-generate packages (default_options "k") "alice" ("t1" ∷ []) 1 5000 "t1" "sha256:t1"
      7200001 packages-Parses (made "t1") (omega arith) (omega arith)

login_t1 :
    (login packages "k" (mongo false) (redis false) tt (web_login "t1") (readings 2) [] no_entry).2
    ≡ ok (new_session (web_login "t1") 1 "t1" "sha256:t1" 7200001)
unfolding login str_dec generate signing_method default_options hash_token
login_t1 = refl

get_user_by_token-login_example :
    get_user_by_token packages "k" (mongo false) (redis false) tt [] "t1" "sha256:t1" 5000
    ≡ get_user_by_id packages "k" (mongo false) (redis false) tt [] "alice"
unfolding new_session
get_user_by_token-login_example =
    get_user_by_token-login packages "k" (mongo false) (redis false) tt (web_login "t1")
      (readings 2) (new_session (web_login "t1") 1 "t1" "sha256:t1" 7200001) [] no_entry tt [] 5000
      packages-Parses (λ claims. refl) login_t1 (omega arith) (omega arith)

abbrev t1_entry : String → Option String
t1_entry k = ite (str_dec k "user_session:token_hash:sha256:t1") (some "t1") none

t1_fine :
    jwt_verify packages (default_options "k") "t1" "sha256:t1" 3
    ≡ ok (claims_at packages (default_options "k") "alice" ("t1" ∷ []) 1)
unfolding lifetime default_options
t1_fine =
    (jwt_verify-generate packages (default_options "k") "alice" ("t1" ∷ []) 1 3 "t1" "sha256:t1"
      7200001 packages-Parses (made "t1") (omega arith) (omega arith)).0

verify_locks_out_example :
    let (c, r) =
      verify packages "k" (mongo true) (redis true) tt "t1" "sha256:t1" 3 3 4 [] t1_entry in
    (r ≡ fail token_expired)
    × ((y : Unit) (at now later : Time) (db : List UserSession)
        → (claims : JwtClaims) × (jwt_verify packages (default_options "k") "t1" "sha256:t1" at
            ≡ ok claims)
        → (verify packages "k" (mongo true) (redis true) y "t1" "sha256:t1" at now later db c).1
          ≡ fail token_expired)
unfolding token_key str_dec
verify_locks_out_example =
    verify_locks_out packages "k" (mongo true) (redis true) tt "t1" "sha256:t1" "t1" 3 3 4 []
      t1_entry (λ y d k. refl) (λ cs k. refl) (_, t1_fine) refl (str-ne "t1" "-" refl) refl

-- After the second login the first token is refused, and the second is accepted from MongoDB.
answers_of_calls :
    (get_elem? (answers packages "k" (mongo false) (redis false) calls ([], no_entry)) 3
      ≡ some (some (fail token_expired)))
    × (get_elem? (answers packages "k" (mongo false) (redis false) calls ([], no_entry)) 5
        ≡ some (
            some (
              ok (record (new_session (web_login "t2") 1 "t2" "sha256:t2" 7200001) {
                update_time = 5;
              }))))
unfolding answers step login verify str_dec jwt_verify signing_method default_options key_func
    hash_token generate ppchat.Users.Sessions.valid_filter ppchat.Users.Sessions.revoke
    ppchat.Users.Sessions.publish ppchat.Users.Sessions.device_filter
    ppchat.Users.Sessions.hash_filter ppchat.Prelude.dec_lt
answers_of_calls = (refl, refl)

abbrev two_calls : List (Call Unit)
two_calls =
    logs_in tt (web_login "t1") (readings 2) ∷ expires "user_session:token_hash:sha256:t1" ∷ []

abbrev stored_t1 : UserSession
stored_t1 = record (new_session (web_login "t1") 1 "t1" "sha256:t1" 7200001) { update_time = 2 }

accepted_t1 :
    let (db, c) = run packages "k" (mongo false) (redis false) two_calls ([], no_entry) in
    (verify packages "k" (mongo false) (redis false) tt "t1" "sha256:t1" 3 3 4 db c).1
    ≡ ok stored_t1
unfolding answers step login verify str_dec jwt_verify signing_method default_options key_func
    hash_token generate ppchat.Users.Requests.valid_filter ppchat.Users.Requests.revoke
    ppchat.Users.Requests.publish ppchat.Users.Requests.device_filter
    ppchat.Users.Requests.hash_filter ppchat.Prelude.dec_lt
accepted_t1 = refl

verify-IsGood_example :
    let (db, c) = run packages "k" (mongo false) (redis false) two_calls ([], no_entry) in
    Memᴰ stored_t1 db × IsGood "sha256:t1" 3 stored_t1
verify-IsGood_example =
    verify-IsGood packages "k" (mongo false) (redis false) (λ s. "sha256:" ++ s) two_calls []
      no_entry tt "t1" "sha256:t1" 3 3 4 stored_t1 (made_hash "t1", tt) refl (λ k. refl) accepted_t1
