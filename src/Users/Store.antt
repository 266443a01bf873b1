-- ===== src/Users/Store.antt =====
-- The collections `user_session`, `user_session_log` and `user` of MongoDB and the keys of Redis, by
-- the documented behaviour of the calls that module/user/service/user.go makes.
use mathlib.Core.List.{Memᴰ}
use ppchat.Prelude.{
  ℕ, ◌≡◌, ◌<◌, ◌⊎◌, String, Bool, Option, none, some, List, [], ◌∷◌, ◌++◌, ite, str_dec,
}
use ppchat.Users.Jwt.{Time}

-- `UserSession` of module/user/model/user_session.go.
pub record UserSession : Type 0 where
  pub session_id : String
  pub user_id : String
  pub tenant_id : String
  pub device_type : String
  pub device_id : String
  pub app_version : String
  pub os : String
  pub ip : String
  pub user_agent : String
  pub access_token : String
  pub login_time : Time
  pub last_active : Time
  pub expire_time : Time
  pub expire_at : Time
  pub logout_time : Option Time
  pub status : String
  pub reason : String
  pub access_token_hash : String
  pub refresh_token_hash : String
  pub scope : List String
  pub is_valid : Bool
  pub risk_score : ℕ
  pub ex : String
  pub create_time : Time
  pub update_time : Time

-- The fields of a filter, which a document has to meet all.
pub data Cond : Type 0 where
  user_id_is device_type_is device_id_is session_id_is token_hash_is : String → Cond
  is_valid_is : Bool → Cond
  expires_after : Time → Cond

abbrev pub Holds : Cond → UserSession → Type 0
Holds (user_id_is v) s = s.user_id ≡ v
Holds (device_type_is v) s = s.device_type ≡ v
Holds (device_id_is v) s = s.device_id ≡ v
Holds (session_id_is v) s = s.session_id ≡ v
Holds (token_hash_is v) s = s.access_token_hash ≡ v
Holds (is_valid_is b) s = s.is_valid ≡ b
Holds (expires_after t) s = t < s.expire_time

abbrev pub Matches : List Cond → UserSession → Type 0
Matches [] s = Unit
Matches (c ∷ cs) s = Holds c s × Matches cs s

-- One document that matches the filter is replaced.
pub data Swapped (f : List Cond) (new : UserSession)
    : List UserSession → List UserSession → Type 0 where
  here :
      {old : UserSession} {rest : List UserSession}
      → Matches f old
      → Swapped f new (old ∷ rest) (new ∷ rest)
  there :
      {s : UserSession} {xs ys : List UserSession}
      → Swapped f new xs ys
      → Swapped f new (s ∷ xs) (s ∷ ys)

-- `ReplaceOne` with `SetUpsert(true)`.
abbrev pub Upserted : List Cond → UserSession → List UserSession → List UserSession → Type 0
Upserted f new xs ys =
    Swapped f new xs ys ⊎ (((s : UserSession) → Memᴰ s xs → ¬ Matches f s) × (ys ≡ xs ++ new ∷ []))

pub data Found (A : Type 0) : Type 0 where
  found : A → Found A
  no_documents : Found A
  failed : Found A

-- What `ReplaceOne` returns: a result, or an error and no result.
pub data Replaced (A : Type 0) : Type 0 where
  replaced : A → Replaced A
  not_replaced : A → Replaced A

abbrev pub left_by : {A : Type 0} → Replaced A → A
left_by (replaced a) = a
left_by (not_replaced a) = a

-- `sessions db` lists the documents of `user_session`. A call that fails to replace may have done so.
-- `update_by_id` with a document that has no update operator changes nothing.
pub record Mongo : Type 1 where
  pub Ctx : Type 0
  pub Db : Type 0
  pub with_timeout : Ctx → Time → Ctx
  pub sessions : Db → List UserSession
  pub find_session : Ctx → Db → List Cond → Found UserSession
  pub find_user : Ctx → Db → String → Found String
  pub insert_log : Ctx → Db → UserSession → Option Db
  pub update_by_id : Ctx → Db → String → UserSession → Db
  pub replace_session : Ctx → Db → List Cond → UserSession → Replaced Db
  -- What `bson.Unmarshal` makes of what `bson.Marshal` makes.
  pub recoded : UserSession → UserSession
  pub find_session-found :
      (x : Ctx) (db : Db) (f : List Cond) (s : UserSession)
      → find_session x db f ≡ found s
      → Memᴰ s (sessions db) × Matches f s
  pub find_session-none :
      (x : Ctx) (db : Db) (f : List Cond) (s : UserSession)
      → find_session x db f ≡ no_documents
      → Memᴰ s (sessions db)
      → ¬ Matches f s
  pub find_user-found :
      (x : Ctx) (db : Db) (id user_id : String) → find_user x db id ≡ found user_id → user_id ≡ id
  pub sessions-insert_log :
      (x : Ctx) (db db' : Db) (s : UserSession)
      → insert_log x db s ≡ some db'
      → sessions db' ≡ sessions db
  pub sessions-update_by_id :
      (x : Ctx) (db : Db) (id : String) (s : UserSession)
      → sessions (update_by_id x db id s) ≡ sessions db
  pub sessions-replaced :
      (x : Ctx) (db db' : Db) (f : List Cond) (s : UserSession)
      → replace_session x db f s ≡ replaced db'
      → Upserted f s (sessions db) (sessions db')
  pub sessions-not_replaced :
      (x : Ctx) (db db' : Db) (f : List Cond) (s : UserSession)
      → replace_session x db f s ≡ not_replaced db'
      → (sessions db' ≡ sessions db) ⊎ Upserted f s (sessions db) (sessions db')

pub data Command : Type 0 where
  del : String → Command
  set : String → String → Time → Command

-- What commands leave of the value of a key; that a value expires is a step of its own.
abbrev pub after_all : List Command → (String → Option String) → String → Option String
after_all [] e j = e j
after_all (del k ∷ cs) e j = after_all cs (λ i. ite (str_dec k i) none (e i)) j
after_all (set k v ttl ∷ cs) e j = after_all cs (λ i. ite (str_dec k i) (some v) (e i)) j

-- `send` is a command, or the commands of a `TxPipeline`, sent as one step: they run, or the call
-- fails and none does. `get` is `none` on a missing key and where the call fails.
pub record Redis (Ctx : Type 0) : Type 1 where
  pub Cache : Type 0
  pub entry : Cache → String → Option String
  pub get : Ctx → Cache → String → Option String
  pub send : Ctx → Cache → List Command → Cache
  pub expire : Cache → String → Cache
  pub get_cases : (x : Ctx) (c : Cache) (k : String) → (get x c k ≡ none) ⊎ (get x c k ≡ entry c k)
  pub send_cases :
      (x : Ctx) (c : Cache) (cs : List Command)
      → (send x c cs ≡ c) ⊎ ((k : String) → entry (send x c cs) k ≡ after_all cs (entry c) k)
  pub entry-expire :
      (c : Cache) (k j : String) → entry (expire c k) j ≡ ite (str_dec k j) none (entry c j)
