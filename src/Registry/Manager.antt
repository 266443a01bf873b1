-- ===== src/Registry/Manager.antt =====
-- service/registry/manager.go: the services that a node watches, and the methods that it registers as
-- services. `R` is the state of the registry behind the client; a method of the manager returns the
-- manager, that state, and the text of its error. An entry of a map that is missing reads as "".
use Prim.Native.String.{◌++◌}
use ppchat.Prelude.{
  ℕ, zero, suc, ◌+◌, ◌-◌, String, ite, Bool, true, false, not, ◌&&◌, ◌||◌, Option, none, some, List,
  [], ◌∷◌, map, length, ltb, leb, ◌==◌, if◌then◌else◌, str_dec, lookup, insert, erase,
}
use ppchat.Registry.Balancer.{Instance, Swrr, update, next}
pub mod Methods
pub mod Watched
pub mod Reachable
pub mod Picked
mod Tests

pub record RegisterOptions : Type 0 where
  pub ttl : ℕ
  pub health_url : String
  pub warmup_weight : ℕ

pub record Filter : Type 0 where
  pub zone : String
  pub require : List (String × String)

-- `cancel` is the number of the context that the function cancels.
pub record ServiceState : Type 0 where
  pub all : List Instance
  pub lb : Swrr
  pub watching : Bool
  pub cancel : Option ℕ

pub record MethodInfo : Type 0 where
  pub service_name : String
  pub service_id : String
  pub meta : List (String × String)
  pub opts : RegisterOptions
  pub name : String

-- `contexts` counts the contexts made by `StartWatch`, and `live` are those of the loops that
-- have not ended and whose context is not cancelled, with the service of each; a cancelled loop may
-- still apply one update, as `watched` may at any time.
pub record Manager : Type 0 where
  pub states : List (String × ServiceState)
  pub refresh_ttl : ℕ
  pub self_inst : Option Instance
  pub self_opts : RegisterOptions
  pub method_infos : List (String × MethodInfo)
  pub method_prefix : String
  pub contexts : ℕ
  pub live : List (ℕ × String)

-- The client of the registry: an error is its text, and `none` is nil.
pub record Client (R : Type 0) : Type 0 where
  pub register : Instance → RegisterOptions → R → R × Option String
  pub deregister : String → String → R → R × Option String
  pub list_of : String → R → Option (List Instance)

-- `New`; a duration that is not positive is 0, and nanoseconds are counted.
unfoldable pub new_manager : ℕ → Manager
new_manager refresh_ttl = record {
  states = [];
  refresh_ttl = if refresh_ttl == 0 then 30000000000 else refresh_ttl;
  self_inst = none;
  self_opts = record { ttl = 0; health_url = ""; warmup_weight = 0 };
  method_infos = [];
  method_prefix = "";
  contexts = 0;
  live = [];
}

unfoldable pub set_self : Instance → RegisterOptions → String → Manager → Manager
set_self inst opts method_prefix m = record m {
  self_inst = some inst;
  self_opts = opts;
  method_prefix = method_prefix;
}

abbrev pub new_state : ServiceState
new_state = record { all = []; lb = []; watching = false; cancel = none }

abbrev pub state_or_new : Option ServiceState → ServiceState
state_or_new none = new_state
state_or_new (some s) = s

-- The state that `ensure` returns; the functions below store it.
unfoldable pub ensure : String → Manager → ServiceState
unfolding lookup
ensure service m = state_or_new (lookup str_dec service m.states)

abbrev pub store : String → ServiceState → Manager → Manager
store service s m = record m { states = insert str_dec service s m.states }

unfoldable pub apply : String → List Instance → Manager → Manager
unfolding ensure insert
apply service insts m =
    store service (record (ensure service m) { all = insts; lb = update insts }) m

unfoldable apply_listed : String → Option (List Instance) → Manager → Manager
unfolding apply
apply_listed service none m = m
apply_listed service (some insts) m = apply service insts m

unfoldable watch_new : String → Option (List Instance) → Manager → Manager
unfolding apply_listed ensure insert
watch_new service listed m =
    let s = record (ensure service m) { cancel = some m.contexts; watching = true } in
    let m1 = record m { contexts = suc m.contexts; live = (m.contexts, service) ∷ m.live } in
    apply_listed service listed (store service s m1)

-- `StartWatch`, on the answer of the registry to the first list; it returns no error.
unfoldable pub start_watch : String → Option (List Instance) → Manager → Manager
unfolding watch_new ensure insert
start_watch service listed m =
    if (ensure service m).watching
    then store service (ensure service m) m
    else watch_new service listed m

-- A loop whose context is cancelled ends.
abbrev end_loop : ℕ → List (ℕ × String) → List (ℕ × String)
end_loop n [] = []
end_loop n ((k, service) ∷ live) =
    let rest = end_loop n live in if k == n then rest else (k, service) ∷ rest

abbrev cancelled : Option ℕ → List (ℕ × String) → List (ℕ × String)
cancelled none live = live
cancelled (some n) live = end_loop n live

-- `StopWatch`
unfoldable pub stop_watch : String → Manager → Manager
unfolding ensure insert
stop_watch service m =
    let s = ensure service m in
    store service (record s { watching = false }) (record m { live = cancelled s.cancel m.live })

-- The loop of the context `n`: an update of the watcher, or a full list after an error, is applied;
-- the loop ends where the watcher cannot be started, which `ConsulRegistry` always can.
unfoldable pub watched : String → Option (List Instance) → Manager → Manager
unfolding apply_listed
watched service upd m = apply_listed service upd m

unfoldable pub watch_fails : ℕ → Manager → Manager
watch_fails n m = record m { live = end_loop n m.live }

unfoldable pub all : String → Manager → List Instance
unfolding ensure
all service m = (ensure service m).all

abbrev pub read : String → List (String × String) → String
read k meta = elim (lookup str_dec k meta) [ none ↦ "" | some v ↦ v ]

abbrev pub str_eq : String → String → Bool
str_eq s t = ite (str_dec s t) true false

abbrev pub requires : List (String × String) → Instance → Bool
requires [] it = true
requires ((k, v) ∷ require) it = str_eq (read k it.metadata) v && requires require it

-- What an instance must have to stay in the pool.
abbrev pub passes : Filter → Instance → Bool
passes f it =
    (str_eq f.zone ""
      || str_eq (read "zone" it.metadata) f.zone
      || str_eq (read "az" it.metadata) f.zone)
    && requires f.require it

abbrev pub pool_of : Filter → List Instance → List Instance
pool_of f [] = []
pool_of f (it ∷ insts) = let rest = pool_of f insts in if passes f it then it ∷ rest else rest

abbrev pub is_open : Filter → Bool
is_open f = str_eq f.zone "" && (length f.require == 0)

-- The state of the service with the balancer after `Next`.
unfoldable pub pick_any : String → Manager → Manager × Option Instance
unfolding ensure insert
pick_any service m =
    let s = ensure service m in
    let (lb, inst) = next s.lb in (store service (record s { lb = lb }) m, inst)

unfoldable pub pick_from : List Instance → Option Instance
pick_from pool = (next (update pool)).1

-- `Pick`; `All` ensures the state too.
unfoldable pub pick : String → Option Filter → Manager → Manager × Option Instance
unfolding pick_any pick_from all ensure insert
pick service none m = pick_any service m
pick service (some f) m =
    if is_open f
    then pick_any service m
    else (store service (ensure service m) m, pick_from (pool_of f (all service m)))
