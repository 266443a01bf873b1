-- ===== src/Chat/Registry/Tests.antt =====
-- Runs of service/chat/registry.go.
use ppchat.Prelude.{◌≡◌, refl, some, [], ◌∷◌, str_dec, str-ne, lookup, insert, erase}
use ppchat.Chat.ConnManager.Index.{conns_of, link}
use ppchat.Chat.Registry.{Conn, Registry, new_registry, add_conn, remove_conn, list_by_user}
use ppchat.Chat.Registry.Removed.{remove_conn-other}

abbrev mine : Conn
mine = record { id = "c1"; snow_id = "s2"; user_id = "u"; session_id = "s1" }

abbrev theirs : Conn
theirs = record { id = "c2"; snow_id = "n2"; user_id = "v"; session_id = "s2" }

abbrev one : Registry
one = add_conn 1 mine new_registry

abbrev both : Registry
both = add_conn 2 theirs one

remove_conn-other_example :
    (list_by_user "s2" (remove_conn mine both) ≡ [])
    × (lookup str_dec "s1" (remove_conn mine both).by_user ≡ some [])
unfolding add_conn str_dec insert lookup erase link conns_of
remove_conn-other_example =
    remove_conn-other mine both (("c1", 1) ∷ []) refl refl (str-ne "s2" "s1" refl)
