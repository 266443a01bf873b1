-- ===== src/Users/Sessions/Sound.antt =====
-- What the collection and the keys say of each other after logins whose calls can fail.
use mathlib.Core.List.{Memᴰ}
use ppchat.Prelude.{
  ◌≡◌, ◌≢◌, ◌⊎◌, inl, inr, refl, sym, ap, subst, ◌∙◌, String, false, Option, none, some, List, [],
  ◌∷◌, ◌++◌ as ◌+++◌,
}
use ppchat.Users.Jwt.{Time, Packages, Result, ok, fail, panicked, default_options, generate}
use ppchat.Users.Jwt.Tokens.{generate_hash-ne}
use ppchat.Users.Store.{
  Mongo, Redis, UserSession, Cond, Swapped, here, there, Upserted, Found, found, no_documents,
  failed, Replaced, replaced, not_replaced, after_all,
}
use ppchat.Users.Sessions.{
  UserSessionKey, LoginParams, Readings, token_key, device_filter, revoke, publish, login_now,
  new_session, replace_sent, replace_new, replace_logged, replace_found,
  re_login_archive_and_replace, return_session, login_signed, login_known, login,
}
use ppchat.Users.Sessions.Cached.{Entries, publish_cases, revoke_cases}

last_cases :
    (new s : UserSession) (xs : List UserSession) → Memᴰ s (xs +++ new ∷ []) → (s ≡ new) ⊎ Memᴰ s xs
last_cases new s [] (Memᴰ.head e) = inl e
last_cases new s [] (Memᴰ.tail h) = elim h [ ]
last_cases new s (x ∷ xs) (Memᴰ.head e) = inr (Memᴰ.head e)
last_cases new s (x ∷ xs) (Memᴰ.tail h) = elim (last_cases new s xs h) [
  | inl same ↦ inl same
  | inr old ↦ inr (Memᴰ.tail old)
]

Swapped-cases :
    (f : List Cond) (new s : UserSession) (xs ys : List UserSession)
    → Swapped f new xs ys
    → Memᴰ s ys
    → (s ≡ new) ⊎ Memᴰ s xs
Swapped-cases f new s [] ys w h = elim w [ ]
Swapped-cases f new s (o ∷ xs) ys (here m) (Memᴰ.head e) = inl e
Swapped-cases f new s (o ∷ xs) ys (here m) (Memᴰ.tail h) = inr (Memᴰ.tail h)
Swapped-cases f new s (o ∷ xs) (q ∷ ys) (there w) (Memᴰ.head e) = inr (Memᴰ.head e)
Swapped-cases f new s (o ∷ xs) (q ∷ ys) (there w) (Memᴰ.tail h) =
    elim (Swapped-cases f new s xs ys w h) [ inl same ↦ inl same | inr old ↦ inr (Memᴰ.tail old) ]

-- A document after an upsert is the new one or one from before.
Upserted-cases :
    (f : List Cond) (new s : UserSession) (xs ys : List UserSession)
    → Upserted f new xs ys
    → Memᴰ s ys
    → (s ≡ new) ⊎ Memᴰ s xs
Upserted-cases f new s xs ys (inl w) h = Swapped-cases f new s xs ys w h
Upserted-cases f new s xs ys (inr (free, added)) h = last_cases new s xs (subst (Memᴰ s) added h)

module _ (token_of : String → String) where
  -- Each session has the hash that its id stands for, and so has each id that Redis keeps.
  abbrev pub AreOwn : List UserSession → Type 0
  AreOwn docs = (s : UserSession) → Memᴰ s docs → token_of s.session_id ≡ s.access_token_hash

  abbrev pub AreNamed : Entries → Type 0
  AreNamed e = (hash v : String) → e (token_key hash) ≡ some v → v ≢ "-" → token_of v ≡ hash

  Upserted-AreOwn :
      (f : List Cond) (new : UserSession) (xs ys : List UserSession)
      → token_of new.session_id ≡ new.access_token_hash
      → Upserted f new xs ys
      → AreOwn xs
      → AreOwn ys
  Upserted-AreOwn f new xs ys its up own s h = elim (Upserted-cases f new s xs ys up h) [
    | inl same ↦ subst (λ r. token_of r.session_id ≡ r.access_token_hash) (sym same) its
    | inr before ↦ own s before
  ]

  sent-AreNamed :
      (s : UserSession) (old : Option UserSession) (now : Time) (e e' : Entries)
      → token_of s.session_id ≡ s.access_token_hash
      → s.access_token_hash ≢ ""
      → ((k : String) → e' k ≡ after_all (revoke old +++ publish s now) e k)
      → AreNamed e
      → AreNamed e'
  sent-AreNamed s old now e e' its some_hash sent named hash v at real =
      let (e1, revoked, fewer) = revoke_cases old (publish s now) e in
      let at1 : after_all (publish s now) e1 (token_key hash) ≡ some v =
        ap (λ f. f (token_key hash)) (sym revoked) ∙ sym (sent (token_key hash)) ∙ at in
      elim (publish_cases s now e1 hash v some_hash at1) [
        | inl (same, sid) ↦ ap token_of (sym sid) ∙ its ∙ same
        | inr (_, before) ↦ named hash v (fewer (token_key hash) v before) real
      ]

  module _ (p : Packages) (secret : String) (mongo : Mongo) (redis : Redis (Mongo.Ctx mongo)) where
    open mongo use {
      Ctx, Db, sessions, find_session, insert_log, replace_session, update_by_id, recoded,
      sessions-insert_log, sessions-update_by_id, sessions-replaced, sessions-not_replaced,
    }
    open redis use {Cache, entry, send, send_cases}

    abbrev pub IsSound : Db → Cache → Type 0
    IsSound db c = AreOwn (sessions db) × AreNamed (entry c)

    abbrev Keeps : {A : Type 0} → Db × Cache × Result A → Type 0
    Keeps out = IsSound out.0 out.1

    -- A login is made with an id that stands for the hash of its token.
    abbrev pub IsFor : LoginParams → Time → Type 0
    IsFor in_ at =
        (token hash : String) (exp : Time)
        → generate p (default_options secret) in_.user_id in_.scopes at ≡ ok (token, hash, exp)
        → token_of in_.session_id ≡ hash

    module _ (x : Ctx) (key : UserSessionKey) (rec_ : UserSession) (t : Readings) (c : Cache)
        (its : token_of rec_.session_id ≡ rec_.access_token_hash)
        (some_hash : rec_.access_token_hash ≢ "") where
      abbrev stored : UserSession
      stored = record rec_ { update_time = t.at_new }

      replace_sent-IsSound :
          (old : Option UserSession) (db : Db) (r : Replaced Db)
          → IsSound db c
          → replace_session x db (device_filter key) stored ≡ r
          → Keeps (replace_sent p secret mongo redis x old stored t.at_cache c r)
      unfolding replace_sent
      replace_sent-IsSound old db (replaced db') (own, named) at = (
        Upserted-AreOwn _ stored _ _ its (sessions-replaced x db db' _ stored at) own,
        elim (send_cases x c (revoke old +++ publish stored t.at_cache)) [
          | inl lost ↦ subst (λ d. AreNamed (entry d)) (sym lost) named
          | inr sent ↦ sent-AreNamed stored old t.at_cache (entry c) _ its some_hash sent named
        ],
      )
      replace_sent-IsSound old db (not_replaced db') (own, named) at = (
        elim (sessions-not_replaced x db db' _ stored at) [
          | inl same ↦ subst AreOwn (sym same) own
          | inr up ↦ Upserted-AreOwn _ stored _ _ its up own
        ],
        named,
      )

      replace_new-IsSound :
          (old : Option UserSession) (db : Db)
          → IsSound db c
          → Keeps (replace_new p secret mongo redis x key rec_ t old db c)
      unfolding replace_new
      replace_new-IsSound old db sound = replace_sent-IsSound old db _ sound refl

      replace_logged-IsSound :
          (o s : UserSession) (db : Db) (r : Option Db)
          → IsSound db c
          → insert_log x db s ≡ r
          → Keeps (replace_logged p secret mongo redis x key rec_ t o db c r)
      unfolding replace_logged
      replace_logged-IsSound o s db none sound at = sound
      replace_logged-IsSound o s db (some db') (own, named) at =
          let old : UserSession = record o { is_valid = false; update_time = t.at_old } in
          let same =
            sessions-update_by_id x db' o.session_id old ∙ sessions-insert_log x db db' s at in
          replace_new-IsSound (some old) (update_by_id x db' o.session_id old)
            (subst AreOwn (sym same) own, named)

      replace_found-IsSound :
          (db : Db) (f : Found UserSession)
          → IsSound db c
          → Keeps (replace_found p secret mongo redis x key rec_ t db c f)
      unfolding replace_found
      replace_found-IsSound db (found o) sound = replace_logged-IsSound o _ db _ sound refl
      replace_found-IsSound db no_documents sound = replace_new-IsSound none db sound
      replace_found-IsSound db failed sound = sound

    module _ (x : Ctx) (in_ : LoginParams) (t : Readings) (issued : IsFor in_ t.at_token) where
      return_session-IsSound :
          (s : UserSession) (out : Db × Cache × Result Unit)
          → Keeps out
          → Keeps (return_session p secret mongo redis s out)
      unfolding return_session
      return_session-IsSound s (db, c, ok _) sound = sound
      return_session-IsSound s (db, c, fail e) sound = sound
      return_session-IsSound s (db, c, panicked) sound = sound

      login_signed-IsSound :
          (id : String) (db : Db) (c : Cache) (r : Result (String × String × Time))
          → IsSound db c
          → generate p (default_options secret) in_.user_id in_.scopes t.at_token ≡ r
          → Keeps (login_signed p secret mongo redis x in_ t id db c r)
      unfolding login_signed re_login_archive_and_replace new_session
      login_signed-IsSound id db c (ok (token, hash, exp)) sound made =
          let s = new_session in_ (login_now in_.now t.at_login) token hash exp in
          let some_hash =
            generate_hash-ne p (default_options secret) in_.user_id in_.scopes t.at_token token hash
              exp made in
          return_session-IsSound s _
            (replace_found-IsSound x _ s t c (issued token hash exp made) some_hash db _ sound)
      login_signed-IsSound id db c (fail e) sound made = sound
      login_signed-IsSound id db c panicked sound made = sound

      login_known-IsSound :
          (db : Db) (c : Cache) (r : Result String)
          → IsSound db c
          → Keeps (login_known p secret mongo redis x in_ t db c r)
      unfolding login_known
      login_known-IsSound db c (ok id) sound = login_signed-IsSound id db c _ sound refl
      login_known-IsSound db c (fail e) sound = sound
      login_known-IsSound db c panicked sound = sound

      pub login-IsSound :
          (db : Db) (c : Cache) → IsSound db c → Keeps (login p secret mongo redis x in_ t db c)
      unfolding login
      login-IsSound db c sound = login_known-IsSound db c _ sound
