-- ===== src/Chat/Registry/Removed.antt =====
-- What a removal takes out of the indexes of service/chat/registry.go.
use ppchat.Prelude.{
  ◌≡◌, ◌≢◌, inl, inr, refl, arith, String, ite, none, some, [], ◌∷◌, length, str_dec, lookup,
  insert, erase, lookup-insert, lookup-erase, Option-cases,
}
use ppchat.Chat.ConnManager.Index.{SnowMap, UserMap, conns_of, entry, drop}
use ppchat.Chat.Registry.{
  Conn, Registry, remove_user, remove_conn, values, list_by_user, get_by_conn_id,
}

remove_user-entry :
    (c : Conn) (us : UserMap) (user id : String)
    → lookup str_dec c.snow_id us ≡ none
    → c.snow_id ≢ c.session_id
    → entry user id (remove_user c us)
      ≡ ite
          (str_dec c.session_id user)
          (ite (str_dec c.id id) none (entry user id us))
          (entry user id us)
unfolding entry conns_of drop lookup remove_user
remove_user-entry c us user id unused apart = elim (Option-cases (lookup str_dec c.session_id us)) [
  | inl absent ↦ rw (absent, remove_user) (ground (arith, absent))
  | inr (m, at) ↦
      let rest = erase str_dec c.id m in
      let us' = insert str_dec c.session_id rest us in
      rw (at, remove_user)
        (ground (
          arith,
          at,
          lookup-insert str_dec c.session_id user rest us,
          lookup-erase str_dec c.snow_id user us',
          lookup-erase str_dec c.id id m,
        ))
]

-- Where the user index has no entry for a connection's `snowId`, which is not its session, its removal
-- takes the entry of its session and its id out of the user index, that of its id out of the other
-- index, and nothing else.
remove_conn-entry :
    (c : Conn) (r : Registry) (user id : String)
    → lookup str_dec c.snow_id r.by_user ≡ none
    → c.snow_id ≢ c.session_id
    → (entry user id (remove_conn c r).by_user
        ≡ ite
            (str_dec c.session_id user)
            (ite (str_dec c.id id) none (entry user id r.by_user))
            (entry user id r.by_user))
      × (get_by_conn_id id (remove_conn c r) ≡ ite (str_dec c.id id) none (get_by_conn_id id r))
unfolding remove_conn get_by_conn_id
remove_conn-entry c r user id unused apart =
    (remove_user-entry c r.by_user user id unused apart, lookup-erase str_dec c.id id r.by_conn)

last_of-remove_user :
    (c : Conn) (us : UserMap) (m : SnowMap)
    → lookup str_dec c.session_id us ≡ some m
    → length (erase str_dec c.id m) ≡ 0
    → remove_user c us ≡ drop c.snow_id (insert str_dec c.session_id (erase str_dec c.id m) us)
unfolding remove_user drop
last_of-remove_user c us m at last = rw (at, remove_user) (ground (arith, last))

nil_of-length : (m : SnowMap) → length m ≡ 0 → m ≡ []
nil_of-length [] h = refl
nil_of-length (e ∷ m) h = absurd (omega arith)

-- Where the last connection of a session is removed, and its `snowId` is not the name of the session,
-- the session of that name, if there is one, loses all its connections, and the session that was
-- emptied keeps an empty map.
pub remove_conn-other :
    (c : Conn) (r : Registry) (m : SnowMap)
    → lookup str_dec c.session_id r.by_user ≡ some m
    → length (erase str_dec c.id m) ≡ 0
    → c.snow_id ≢ c.session_id
    → (list_by_user c.snow_id (remove_conn c r) ≡ [])
      × (lookup str_dec c.session_id (remove_conn c r).by_user ≡ some [])
unfolding remove_conn list_by_user conns_of drop
remove_conn-other c r m at last apart =
    let rest = erase str_dec c.id m in
    let us = insert str_dec c.session_id rest r.by_user in
    let empty = nil_of-length rest last in
    let gone : lookup str_dec c.snow_id (erase str_dec c.snow_id us) ≡ none =
      ground (arith, lookup-erase str_dec c.snow_id c.snow_id us) in
    (
      rw (last_of-remove_user c r.by_user m at last, drop, gone) (unfold values in refl),
      rw (last_of-remove_user c r.by_user m at last) (
          ground (
            arith,
            lookup-erase str_dec c.snow_id c.session_id us,
            lookup-insert str_dec c.session_id c.session_id rest r.by_user,
            empty,
          )),
    )
