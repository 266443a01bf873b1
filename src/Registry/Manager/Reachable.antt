-- ===== src/Registry/Manager/Reachable.antt =====
-- What holds of a manager after any calls and events.
use Prim.Native.String.{◌++◌}
use ppchat.Prelude.{ℕ, ◌≤◌, ◌≡◌, refl, arith, String, Option, none, some, List}
use ppchat.Registry.Balancer.{Instance}
use ppchat.Registry.Balancer.Choice.{instances}
use ppchat.Registry.Manager.{
  Manager, Client, RegisterOptions, Filter, new_manager, set_self, ensure, start_watch, stop_watch,
  watched, watch_fails, all, pick,
}
use ppchat.Registry.Manager.Methods.{
  register_method, register_for, register_done, unregister_method, unregister_for, forget,
  method_instance,
}
use ppchat.Registry.Manager.Watched.{
  IsValid, loops, apply_listed-IsValid, watch_fails-IsValid, pick-IsValid, start_watch-IsValid,
  stop_watch-IsValid,
}

module _ {R : Type 0} (client : Client R) where
  -- The managers after any calls of the methods, with any answers of the registry and any updates and
  -- failures of watchers.
  pub data Reach : Manager → Type 0 where
    made : (refresh_ttl : ℕ) → Reach (new_manager refresh_ttl)
    self_set :
        {m : Manager} (inst : Instance) (opts : RegisterOptions) (method_prefix : String)
        → Reach m
        → Reach (set_self inst opts method_prefix m)
    watch_started :
        {m : Manager} (service : String) (listed : Option (List Instance))
        → Reach m
        → Reach (start_watch service listed m)
    watch_stopped : {m : Manager} (service : String) → Reach m → Reach (stop_watch service m)
    updated :
        {m : Manager} (service : String) (upd : Option (List Instance))
        → Reach m
        → Reach (watched service upd m)
    failed : {m : Manager} (n : ℕ) → Reach m → Reach (watch_fails n m)
    picked :
        {m : Manager} (service : String) (f : Option Filter) → Reach m → Reach (pick service f m).0
    registered :
        {m : Manager} (method : String) (meta : List (String × String)) (r : R)
        → Reach m
        → Reach (register_method client method meta m r).0
    unregistered :
        {m : Manager} (method : String) (r : R)
        → Reach m
        → Reach (unregister_method client method m r).0

  register_done-IsValid :
      (inst : Instance) (method : String) (meta : List (String × String)) (m : Manager)
      (res : R × Option String)
      → IsValid m
      → IsValid (register_done client inst method meta m res).0
  unfolding register_done ensure
  register_done-IsValid inst method meta m (r, some err) h = h
  register_done-IsValid inst method meta m (r, none) h =
      start_watch-IsValid inst.service (client.list_of inst.service r)
        (record m { method_infos = _ })
        (record { coherent = h.coherent; known = h.known; single = h.single })

  register_for-IsValid :
      (self : Option Instance) (method : String) (meta : List (String × String)) (m : Manager)
      (r : R)
      → IsValid m
      → IsValid (register_for client self method meta m r).0
  unfolding register_for
  register_for-IsValid none method meta m r h = h
  register_for-IsValid (some self) method meta m r h =
      let inst = method_instance self (m.method_prefix ++ "-" ++ method) method meta in
      register_done-IsValid inst method meta m _ h

  forget-IsValid :
      (method : String) (m : Manager) (res : R × Option String)
      → IsValid m
      → IsValid (forget client method m res).0
  unfolding ensure
  forget-IsValid method m (r, some err) h = h
  forget-IsValid method m (r, none) h = record {
    coherent = h.coherent;
    known = h.known;
    single = h.single;
  }

  unregister_for-IsValid :
      (self : Option Instance) (method : String) (m : Manager) (r : R)
      → IsValid m
      → IsValid (unregister_for client self method m r).0
  unregister_for-IsValid none method m r h = h
  unregister_for-IsValid (some self) method m r h = forget-IsValid method m _ h

  pub Reach-IsValid : (m : Manager) → Reach m → IsValid m
  unfolding new_manager set_self ensure watched register_method unregister_method
  Reach-IsValid m (made ttl) = record {
    coherent = λ s. (refl, tt);
    known = λ k s r. absurd cc;
    single = λ s. omega arith;
  }
  Reach-IsValid m (self_set inst opts method_prefix reached) =
      let h = Reach-IsValid _ reached in
      record { coherent = h.coherent; known = h.known; single = h.single }
  Reach-IsValid m (watch_started service listed reached) =
      start_watch-IsValid service listed _ (Reach-IsValid _ reached)
  Reach-IsValid m (watch_stopped service reached) =
      stop_watch-IsValid service _ (Reach-IsValid _ reached)
  Reach-IsValid m (updated service upd reached) =
      apply_listed-IsValid service upd _ (Reach-IsValid _ reached)
  Reach-IsValid m (failed n reached) = watch_fails-IsValid n _ (Reach-IsValid _ reached)
  Reach-IsValid m (picked service f reached) = pick-IsValid service f _ (Reach-IsValid _ reached)
  Reach-IsValid m (registered method meta r reached) =
      register_for-IsValid _ method meta _ r (Reach-IsValid _ reached)
  Reach-IsValid m (unregistered method r reached) =
      unregister_for-IsValid _ method _ r (Reach-IsValid _ reached)

  -- In a manager after any calls, answers and failures, the balancer of each service holds exactly its
  -- instances, in their order, and at most one loop with a context that is not cancelled watches it.
  pub Reach-one_loop :
      (m : Manager)
      → Reach m
      → (service : String)
      → (instances (ensure service m).lb ≡ all service m) × (loops service m.live ≤ 1)
  unfolding all
  Reach-one_loop m reached service =
      let h = Reach-IsValid m reached in ((h.coherent service).0, ground (arith, h.single service))
