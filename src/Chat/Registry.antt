-- ===== src/Chat/Registry.antt =====
-- service/chat/registry.go: the connections of a gateway, by id and by user. The mutex makes each
-- method one step. `Ptr` is the address of a `conn`, and the maps are those of the connection manager.
pub mod Removed
mod Tests
use ppchat.Prelude.{
  ℕ, String, Option, none, some, List, [], ◌∷◌, ◌==◌, if◌then◌else◌, length, str_dec, lookup,
  insert, erase,
}
use ppchat.Chat.ConnManager.Index.{Ptr, SnowMap, UserMap, conns_of, link, drop}

pub record Conn : Type 0 where
  pub id : String
  pub snow_id : String
  pub user_id : String
  pub session_id : String

-- `by_user` maps a session to its connections by their ids, `by_conn` an id to its connection.
pub record Registry : Type 0 where
  pub by_user : UserMap
  pub by_conn : SnowMap

abbrev pub new_registry : Registry
new_registry = record { by_user = []; by_conn = [] }

unfoldable pub add_conn : Ptr → Conn → Registry → Registry
unfolding link
add_conn p c r = record {
  by_user = link c.session_id c.id p r.by_user;
  by_conn = insert str_dec c.id p r.by_conn;
}

-- The entry that goes with the last connection is that of `snowId`.
unfoldable pub remove_user : Conn → UserMap → UserMap
unfolding drop
remove_user c us = elim (lookup str_dec c.session_id us) [
  | none ↦ us
  | some m ↦
      let rest = erase str_dec c.id m in
      let us' = insert str_dec c.session_id rest us in
      if length rest == 0 then drop c.snow_id us' else us'
]

unfoldable pub remove_conn : Conn → Registry → Registry
unfolding remove_user
remove_conn c r = record {
  by_user = remove_user c r.by_user;
  by_conn = erase str_dec c.id r.by_conn;
}

-- The values of a map, in the order of the range.
unfoldable pub values : SnowMap → List Ptr
values [] = []
values ((id, p) ∷ m) = p ∷ values m

unfoldable pub list_by_user : String → Registry → List Ptr
unfolding values
list_by_user user r = values (conns_of user r.by_user)

unfoldable pub get_by_conn_id : String → Registry → Option Ptr
get_by_conn_id id r = lookup str_dec id r.by_conn

unfoldable pub list_all : Registry → List Ptr
unfolding values
list_all r = values r.by_conn
