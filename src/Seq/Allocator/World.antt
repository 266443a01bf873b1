-- ===== src/Seq/Allocator/World.antt =====
-- Allocators at work: any number of calls of `Malloc` on one Redis and one MongoDB, in any order of
-- their steps, with calls to the servers that fail, keys that expire, and the other calls of `DAO`.
use ppchat.Prelude.{ℕ, ◌≡◌, ◌⊎◌, String, none, some, List, [], ◌∷◌, ◌++◌, get_elem?, set}
use ppchat.Seq.Mongo.{Mongo}
use ppchat.Seq.Watermarks.{Call, run_call}
use ppchat.Seq.Redis.{Redis}
use ppchat.Seq.Allocator.{Allocator, Fault, Malloc, new_call, Servers, advance}

module _ (redis : Redis) (mongo : Mongo) where
  pub record World : Type 0 where
    pub servers : Servers redis mongo
    pub calls : List Malloc

  -- Each key is as it was, or has lost its fields.
  abbrev pub Expired : redis.Keys → redis.Keys → Type 0
  Expired r r' =
      (k : String)
      → ((redis.hget r' k "curr" ≡ redis.hget r k "curr")
          × (redis.hget r' k "end" ≡ redis.hget r k "end"))
        ⊎ (redis.hget r' k "end" ≡ none)

  module _ (a : Allocator) where
    -- Where a world goes when the call `i` takes its next step.
    unfoldable pub ran : ℕ → Malloc → Fault → World → World
    unfolding advance
    ran i m f w =
        let (s, pc) = advance redis mongo a m.pc m f w.servers in
        record { servers = s; calls = set w.calls i (record m { pc = pc }) }

    pub data Step : World → World → Type 0 where
      invokes :
          (tenant conv : String) (need now : ℕ) (w : World)
          → Step w (record w { calls = w.calls ++ (new_call tenant conv need now ∷ []) })
      runs :
          (i : ℕ) (m : Malloc) (f : Fault) (w : World)
          → get_elem? w.calls i ≡ some m
          → Step w (ran i m f w)
      expires :
          (keys : redis.Keys) (w : World)
          → Expired w.servers.keys keys
          → Step w (record w { servers = record { keys = keys; db = w.servers.db } })
      moves :
          (k : Call) (w : World)
          → Step w (record w {
            servers = record { keys = w.servers.keys; db = run_call mongo k w.servers.db };
          })

    -- The worlds that a start without calls and without keys leads to.
    pub data Reach (s : Servers redis mongo) : World → Type 0 where
      starts : Reach s (record { servers = s; calls = [] })
      goes_on : (w w' : World) → Reach s w → Step w w' → Reach s w'
