-- ===== src/Registry/Manager/Methods.antt =====
-- service/registry/manager.go: the methods that a node registers as services, and what is read off
-- the metadata.
use Prim.Native.String.{◌++◌}
use ppchat.Prelude.{
  ℕ, String, ite, false, Option, none, some, List, [], ◌∷◌, map, str_dec, lookup, insert, erase,
}
use ppchat.Registry.Balancer.{Instance}
use ppchat.Registry.Manager.{
  Manager, Client, Filter, MethodInfo, RegisterOptions, start_watch, all, pick, read,
}

-- The text of an error that the client did not return.
abbrev pub no_self : String
no_self = "self instance not set"

abbrev pub service_id : Instance → String → String
service_id self method = self.id ++ "#" ++ method

-- The instance of a method; the caller's map gets the entry of the method.
unfoldable pub method_instance : Instance → String → String → List (String × String) → Instance
unfolding insert
method_instance self service method meta = record {
  service = service;
  id = service_id self method;
  address = self.address;
  port = self.port;
  metadata = insert str_dec "method" method meta;
  ephemeral = false;
}

module _ {R : Type 0} (client : Client R) where
  abbrev pub register_self : Instance → RegisterOptions → R → R × Option String
  register_self inst opt r = client.register inst opt r

  abbrev pub deregister_self : String → String → R → R × Option String
  deregister_self service id r = client.deregister service id r

  -- The registry without the service that the method had under another id.
  abbrev pub clean_old : String → Option MethodInfo → R → R
  clean_old svc_id none r = r
  clean_old svc_id (some old) r =
      ite (str_dec old.service_id svc_id) r (client.deregister old.service_name old.service_id r).0

  unfoldable pub register_done :
      Instance
      → String
      → List (String × String)
      → Manager
      → R × Option String
      → Manager × R × Option String
  unfolding start_watch insert
  register_done inst method meta m (r, some err) = (m, r, some err)
  register_done inst method meta m (r, none) =
      let info : MethodInfo = record {
        service_name = inst.service;
        service_id = inst.id;
        meta = inst.metadata;
        opts = m.self_opts;
        name = method;
      } in
      let m1 = record m { method_infos = insert str_dec method info m.method_infos } in
      (start_watch inst.service (client.list_of inst.service r) m1, r, none)

  unfoldable pub register_for :
      Option Instance → String → List (String × String) → Manager → R → Manager × R × Option String
  unfolding register_done method_instance lookup
  register_for none method meta m r = (m, r, some "self instance not set; call SetSelf first")
  register_for (some self) method meta m r =
      let service = m.method_prefix ++ "-" ++ method in
      let inst = method_instance self service method meta in
      let r1 = clean_old (service_id self method) (lookup str_dec method m.method_infos) r in
      register_done inst method meta m (register_self inst m.self_opts r1)

  -- `RegisterMethod`
  unfoldable pub register_method :
      String → List (String × String) → Manager → R → Manager × R × Option String
  unfolding register_for
  register_method method meta m r = register_for m.self_inst method meta m r

  abbrev update_for :
      Option Instance → String → List (String × String) → Manager → R → R × Option String
  update_for none method meta m r = (r, some no_self)
  update_for (some self) method meta m r =
      client.register (method_instance self ("chat." ++ method) method meta) m.self_opts r

  -- `UpdateMethodMetaReplace`
  unfoldable pub update_method_meta_replace :
      String → List (String × String) → Manager → R → R × Option String
  unfolding method_instance
  update_method_meta_replace method meta m r = update_for m.self_inst method meta m r

  -- `UpdateMethodMetaPatch`
  unfoldable pub update_method_meta_patch :
      String → List (String × String) → Manager → R → R × Option String
  unfolding update_method_meta_replace
  update_method_meta_patch method patch m r = elim m.self_inst [
    | none ↦ (r, some no_self)
    | some self ↦ update_method_meta_replace method patch m r
  ]

  abbrev pub forget : String → Manager → R × Option String → Manager × R × Option String
  forget method m (r, some err) = (m, r, some err)
  forget method m (r, none) =
      (record m { method_infos = erase str_dec method m.method_infos }, r, none)

  abbrev pub unregister_for : Option Instance → String → Manager → R → Manager × R × Option String
  unregister_for none method m r = (m, r, some no_self)
  unregister_for (some self) method m r =
      forget method m (client.deregister ("chat." ++ method) (service_id self method) r)

  -- `UnregisterMethod`
  unfoldable pub unregister_method : String → Manager → R → Manager × R × Option String
  unfolding erase
  unregister_method method m r = unregister_for m.self_inst method m r

-- `for k, v := range it.Metadata { row[k] = v }`
abbrev put_all : List (String × String) → List (String × String) → List (String × String)
put_all [] row = row
put_all ((k, v) ∷ meta) row = put_all meta (insert str_dec k v row)

-- `GetMeta`; `show` is `fmt.Sprint`.
unfoldable pub get_meta : (ℕ → String) → String → Manager → List (List (String × String))
unfolding all insert
get_meta show service m =
    map
      (λ (it : Instance).
        put_all it.metadata
          (("_instance_id", it.id) ∷ ("_address", it.address) ∷ ("_port", show it.port) ∷ []))
      (all service m)

-- The values of the key that are not empty, as the entries of `seen`.
abbrev seen_values : String → List Instance → List (String × Unit {0}) → List (String × Unit {0})
seen_values key [] seen = seen
seen_values key (it ∷ insts) seen =
    seen_values key insts
      (let v = read key it.metadata in ite (str_dec v "") seen (insert str_dec v tt seen))

abbrev keys_of : List (String × Unit {0}) → List String
keys_of [] = []
keys_of ((k, u) ∷ seen) = k ∷ keys_of seen

-- `GetMetaKey`; `sort` is `sort.Strings`.
unfoldable pub get_meta_key : (List String → List String) → String → String → Manager → List String
unfolding all insert
get_meta_key sort service key m = sort (keys_of (seen_values key (all service m) []))

-- `getIDs` of `StartTTLReport`
unfoldable pub get_ids : List (String × MethodInfo) → List String
get_ids [] = []
get_ids ((method, info) ∷ infos) =
    let rest = get_ids infos in ite (str_dec info.service_id "") rest (info.service_id ∷ rest)

-- The functions `Pick` and `All` of the package, on `DefaultMgr`.
unfoldable pub global_pick :
    String → Option Filter → Option Manager → Option Manager × Option Instance
unfolding pick
global_pick service f none = (none, none)
global_pick service f (some m) = let (m1, inst) = pick service f m in (some m1, inst)

unfoldable pub global_all : String → Option Manager → List Instance
unfolding all
global_all service none = []
global_all service (some m) = all service m
