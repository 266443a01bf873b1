-- ===== src/Registry/Manager/Tests.antt =====
-- Runs of the manager on a registry that is the list of its instances.
use ppchat.Prelude.{
  ◌≤◌, ◌≡◌, refl, String, false, none, some, List, [], ◌∷◌, if◌then◌else◌, str_dec, lookup, insert,
}
use ppchat.Registry.Balancer.{Instance}
use ppchat.Registry.Balancer.Choice.{instances}
use ppchat.Registry.Manager.{
  Manager, Client, RegisterOptions, Filter, new_manager, set_self, ensure, start_watch, watch_new,
  apply_listed, apply, all, pick, str_eq,
}
use ppchat.Registry.Manager.Watched.{loops}
use ppchat.Registry.Manager.Reachable.{Reach, made, self_set, watch_started, Reach-one_loop}
use ppchat.Registry.Manager.Picked.{IsChoice, pick-IsChoice}

-- As Consul does, by the id alone.
abbrev take_out : String → List Instance → List Instance
take_out id [] = []
take_out id (it ∷ r) = let rest = take_out id r in if str_eq it.id id then rest else it ∷ rest

abbrev of_service : String → List Instance → List Instance
of_service service [] = []
of_service service (it ∷ r) =
    let rest = of_service service r in if str_eq it.service service then it ∷ rest else rest

abbrev client : Client (List Instance)
client = record {
  register = λ inst opts r. (inst ∷ take_out inst.id r, none);
  deregister = λ service id r. (take_out id r, none);
  list_of = λ service r. some (of_service service r);
}

abbrev node : Instance
node = record {
  service = "chat";
  id = "node-01";
  address = "127.0.0.1";
  port = 8080;
  metadata = ("zone", "az1") ∷ [];
  ephemeral = false;
}

abbrev opts : RegisterOptions
opts = record { ttl = 0; health_url = ""; warmup_weight = 0 }

abbrev started : Manager
started = start_watch "chat" (some (node ∷ [])) (set_self node opts "msg" (new_manager 0))

started-Reach : Reach client started
started-Reach = watch_started "chat" (some (node ∷ [])) (self_set node opts "msg" (made 0))

Reach-one_loop_example :
    (instances (ensure "chat" started).lb ≡ all "chat" started) × (loops "chat" started.live ≤ 1)
Reach-one_loop_example = Reach-one_loop client started started-Reach "chat"

one_loop : loops "chat" started.live ≡ 1
unfolding start_watch watch_new apply_listed apply ensure lookup insert str_dec set_self new_manager
one_loop = refl

abbrev in_zone : Filter
in_zone = record { zone = "az1"; require = [] }

pick-IsChoice_example :
    IsChoice (some in_zone) (all "chat" started) (pick "chat" (some in_zone) started).1
pick-IsChoice_example = pick-IsChoice client started started-Reach "chat" (some in_zone)
