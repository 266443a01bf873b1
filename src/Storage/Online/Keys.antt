-- ===== src/Storage/Online/Keys.antt =====
-- The names of the keys in service/storage/online.go, and what is read off them.
use Prim.Native.String.{String, ◌++◌}
use Prim.Native.Char.{code}
use ppchat.Prelude.{
  ℕ, zero, suc, ◌+◌, ◌-◌, leb, Bool, Option, none, some, ◌==◌, if◌then◌else◌, List, [], ◌∷◌, ite,
  str_dec,
}
use ppchat.Storage.Online.RedisIndex.{Time}

-- The fields of `OnlineConfig` that the store reads; a duration that is not positive is 0.
pub record OnlineConfig : Type 0 where
  pub node_id : String
  pub ttl : Time
  pub channel_name : String
  pub use_cluster_tag : Bool
  pub use_exat : Bool
  pub unauth_ttl : Time
  pub user_index_ttl : Time

unfoldable pub unauth_session_key : OnlineConfig → String → String
unauth_session_key conf snow =
    if conf.use_cluster_tag
    then "n:{" ++ conf.node_id ++ "}:id:" ++ snow
    else "n:" ++ conf.node_id ++ ":id:" ++ snow

unfoldable pub unauth_index_key : OnlineConfig → String
unauth_index_key conf =
    if conf.use_cluster_tag then "nidxu:{" ++ conf.node_id ++ "}" else "nidxu:" ++ conf.node_id

-- The form with a cluster tag, which `HeartbeatAuthorized` writes out for any gateway.
abbrev pub tagged_session_key : String → String → String → String
tagged_session_key node user snow = "n:{" ++ node ++ ":" ++ user ++ "}:id:" ++ snow

abbrev pub tagged_index_key : String → String → String
tagged_index_key node user = "nidx:{" ++ node ++ ":" ++ user ++ "}"

unfoldable pub session_key : OnlineConfig → String → String → String
session_key conf user snow =
    if conf.use_cluster_tag
    then tagged_session_key conf.node_id user snow
    else "n:" ++ conf.node_id ++ ":id:" ++ snow ++ ":u:" ++ user

unfoldable pub user_index_key : OnlineConfig → String → String
user_index_key conf user =
    if conf.use_cluster_tag
    then tagged_index_key conf.node_id user
    else "nidx:" ++ conf.node_id ++ ":u:" ++ user

-- `strings.IndexByte` for an ASCII character, as a position of characters, `none` for -1.
unfoldable pub index_of : ℕ → String → Option ℕ
index_of c String.[] = none
index_of c (String.◌∷◌ d s) =
    let rest = index_of c s in
    if code d == c then some 0 else elim rest [ none ↦ none | some i ↦ some (suc i) ]

unfoldable pub take_chars : ℕ → String → String
take_chars zero s = ""
take_chars (suc n) String.[] = ""
take_chars (suc n) (String.◌∷◌ d s) = String.◌∷◌ d (take_chars n s)

unfoldable pub drop_chars : ℕ → String → String
drop_chars zero s = s
drop_chars (suc n) String.[] = ""
drop_chars (suc n) (String.◌∷◌ d s) = drop_chars n s

-- `strings.SplitN(s, c, 2)[0]`
unfoldable pub first_part : ℕ → String → String
first_part c String.[] = ""
first_part c (String.◌∷◌ d s) =
    let rest = first_part c s in if code d == c then "" else String.◌∷◌ d rest

-- The positions of the braces are those in the whole key.
unfoldable pub gateway_between : String → Option ℕ → Option ℕ → String
unfolding take_chars drop_chars first_part
gateway_between key none end = ""
gateway_between key (some start) none = ""
gateway_between key (some start) (some end) =
    if leb end (start + 1)
    then ""
    else first_part b':' (take_chars (end - (start + 1)) (drop_chars (start + 1) key))

unfoldable pub extract_gateway : String → String
unfolding index_of
extract_gateway key = gateway_between key (index_of b'{' key) (index_of b'}' key)

-- `GetUserGateway`, on the keys that the scan for the user returns; `none` is the error.
unfoldable pub get_user_gateway : List String → Option String
unfolding extract_gateway
get_user_gateway [] = none
get_user_gateway (key ∷ keys) =
    let gateway = extract_gateway key in ite (str_dec gateway "") none (some gateway)
