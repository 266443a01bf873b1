-- ===== src/Chat/ConnManager/Removing.antt =====
-- `RemoveBySnow`, `KickAllUnauth`, `sweepOnce` and `Close` keep the manager well-formed.
use ppchat.Prelude.{
  ℕ, ◌≡◌, ◌≢◌, String, true, false, none, some, List, [], ◌∷◌, arith, ltb, Option-cases, ite_elim,
  if_elim, inl, inr, str_dec, lookup, erase, Unique, erase-Unique, lookup-erase, lookup-tail,
  lookup-head,
}
use ppchat.Chat.ConnManager.Index.{Ptr, SnowMap, entry, unlink, entry-unlink, unlink-IsUnique}
use ppchat.Chat.ConnManager.State.{Socket, Time, WsConn, ConnManager, close_quiet-fields}
use ppchat.Chat.ConnManager.Removal.{
  detach, remove_by_snow, kick_entry, kick_loop, kick_all_unauth, sweep_entry, sweep_due,
  sweep_loop, close_each, sweep_once, close,
}
use ppchat.Chat.ConnManager.Linked.{erase-Linked, erase_unauth-Linked}
use ppchat.Chat.ConnManager.Invariant.{IsValid, close_quiet-IsValid}

module _ (s : String) (p : Ptr) (m : ConnManager) (v : IsValid m)
    (at : lookup str_dec s m.by_snow ≡ some p) where
  -- A connection without a user leaves the main index.
  plain-IsValid :
      (m.heap p).authorized ≡ false → IsValid (record m { by_snow = erase str_dec s m.by_snow })
  plain-IsValid plain = record {
    linked = erase_unauth-Linked v.linked s p at plain;
    unique_snow = erase-Unique str_dec s m.by_snow v.unique_snow;
    unique_user = v.unique_user;
  }

  -- A connection of a user leaves both indexes.
  gone-IsValid :
      (conns : List (String × Socket))
      → IsValid (record m {
        by_snow = erase str_dec s m.by_snow;
        by_user = unlink (m.heap p).user_id s m.by_user;
        conns = conns;
      })
  gone-IsValid conns = record {
    linked =
        erase-Linked v.linked _ _ s p at (λ j. lookup-erase str_dec s j m.by_snow)
          (λ u j. entry-unlink (m.heap p).user_id s m.by_user u j);
    unique_snow = erase-Unique str_dec s m.by_snow v.unique_snow;
    unique_user = unlink-IsUnique (m.heap p).user_id m.by_user v.unique_user s;
  }

  -- The user of an authorized connection has an inner map, and is not "".
  has_user :
      (m.heap p).authorized ≡ true
      → ((m.heap p).user_id ≢ "") × (lookup str_dec (m.heap p).user_id m.by_user ≢ none)
  unfolding entry lookup
  has_user auth =
      let o = (m.heap p).user_id in
      (
        λ e. ground (arith, v.linked.listed s p at auth (λ e. cc), v.linked.owned o s p),
        λ e. ground (arith, v.linked.listed s p at auth (λ e. cc)),
      )

  detach-IsValid : IsValid (detach (m.heap p) s (record m { by_snow = erase str_dec s m.by_snow }))
  unfolding detach
  detach-IsValid =
      if_elim IsValid (m.heap p).authorized
        (λ auth.
          ite_elim IsValid (str_dec (m.heap p).user_id "") (λ anon. absurd ((has_user auth).0 anon))
            (λ _. elim (Option-cases (lookup str_dec (m.heap p).user_id m.by_user)) [
              | inl nobody ↦ absurd ((has_user auth).1 nobody)
              | inr (mm, held) ↦ rw held (gone-IsValid _)
            ]))
        plain-IsValid

  sweep_entry-IsValid : IsValid (sweep_entry s (m.heap p) m)
  unfolding sweep_entry
  sweep_entry-IsValid =
      if_elim IsValid (m.heap p).authorized
        (λ auth.
          ite_elim IsValid (str_dec (m.heap p).user_id "") (λ anon. absurd ((has_user auth).0 anon))
            (λ _. elim (Option-cases (lookup str_dec (m.heap p).user_id m.by_user)) [
              | inl nobody ↦ absurd ((has_user auth).1 nobody)
              | inr (mm, held) ↦ rw held (gone-IsValid _)
            ]))
        plain-IsValid

pub remove_by_snow-IsValid :
    (s : String) (m : ConnManager) → IsValid m → IsValid (remove_by_snow s m)
unfolding remove_by_snow
remove_by_snow-IsValid s m v =
    ite_elim IsValid (str_dec s "") (λ _. v)
      λ _. elim (Option-cases (lookup str_dec s m.by_snow)) [
        | inl missing ↦ rw missing v
        | inr (p, at) ↦ rw at (close_quiet-IsValid _ _ (detach-IsValid s p m v at))
      ]

-- The entries of `rest` are still in the main index of `m`: so it is in a range over that index that
-- deletes only entries it has visited.
abbrev pub Within : SnowMap → SnowMap → Type 0
Within rest sn =
    (j : String) (q : Ptr) → lookup str_dec j rest ≡ some q → lookup str_dec j sn ≡ some q

Within-tail :
    (s : String) (p : Ptr) (rest sn : SnowMap)
    → lookup str_dec s rest ≡ none
    → Within ((s, p) ∷ rest) sn
    → Within rest sn
Within-tail s p rest sn absent all j q e = all j q (lookup-tail str_dec s p rest j q absent e).1

Within-erase :
    (s : String) (p : Ptr) (rest sn sn' : SnowMap)
    → lookup str_dec s rest ≡ none
    → Within ((s, p) ∷ rest) sn
    → sn' ≡ erase str_dec s sn
    → Within rest sn'
Within-erase s p rest sn sn' absent all e j q at =
    let (apart, found) = lookup-tail str_dec s p rest j q absent at in
    ground (arith, lookup-erase str_dec s j sn, all j q found)

Within-head :
    (s : String) (p : Ptr) (rest sn : SnowMap)
    → Within ((s, p) ∷ rest) sn
    → lookup str_dec s sn ≡ some p
Within-head s p rest sn all = all s p (lookup-head str_dec s p rest)

sweep_entry-by_snow :
    (s : String) (w : WsConn) (m : ConnManager)
    → (sweep_entry s w m).by_snow ≡ erase str_dec s m.by_snow
unfolding sweep_entry
sweep_entry-by_snow s w m = ground arith

-- What one round of such a range owes to the next.
record Round (rest : SnowMap) (m : ConnManager) : Type 0 where
  valid : IsValid m
  within : Within rest m.by_snow

module _ (s : String) (p : Ptr) (rest : SnowMap) (m : ConnManager)
    (absent : lookup str_dec s rest ≡ none) (r : Round ((s, p) ∷ rest) m) where
  skip-Round : Round rest m
  skip-Round = record { valid = r.valid; within = Within-tail s p rest m.by_snow absent r.within }

  kick_entry-Round : Round rest (kick_entry s (m.heap p) m)
  unfolding kick_entry
  kick_entry-Round =
      if_elim (Round rest) (m.heap p).authorized (λ auth. skip-Round)
        λ plain. record {
          valid =
              close_quiet-IsValid (m.heap p).conn _
                (plain-IsValid s p m r.valid (Within-head s p rest m.by_snow r.within) plain);
          within =
              Within-erase s p rest m.by_snow _ absent r.within
                (close_quiet-fields (m.heap p).conn _).1;
        }

  sweep_due-Round : (now : Time) → Round rest (sweep_due now s (m.heap p) m)
  unfolding sweep_due
  sweep_due-Round now =
      if_elim (Round rest) (ltb (m.heap p).expire_at now)
        (λ due. record {
          valid = sweep_entry-IsValid s p m r.valid (Within-head s p rest m.by_snow r.within);
          within =
              Within-erase s p rest m.by_snow _ absent r.within
                (sweep_entry-by_snow s (m.heap p) m);
        })
        (λ live. skip-Round)

kick_loop-IsValid :
    (rest : SnowMap) (n : ℕ) (m : ConnManager)
    → Unique str_dec rest
    → Round rest m
    → IsValid (kick_loop rest n m).0
unfolding kick_loop
kick_loop-IsValid [] n m u r = r.valid
kick_loop-IsValid ((s, p) ∷ rest) n m u r =
    kick_loop-IsValid rest _ _ u.1 (kick_entry-Round s p rest m u.0 r)

pub kick_all_unauth-IsValid : (m : ConnManager) → IsValid m → IsValid (kick_all_unauth m).0
unfolding kick_all_unauth
kick_all_unauth-IsValid m v =
    kick_loop-IsValid m.by_snow 0 m v.unique_snow (record { valid = v; within = λ j q e. e })

sweep_loop-IsValid :
    (now : Time) (rest : SnowMap) (expired : List Ptr) (m : ConnManager)
    → Unique str_dec rest
    → Round rest m
    → IsValid (sweep_loop now rest expired m).0
unfolding sweep_loop
sweep_loop-IsValid now [] expired m u r = r.valid
sweep_loop-IsValid now ((s, p) ∷ rest) expired m u r =
    sweep_loop-IsValid now rest _ _ u.1 (sweep_due-Round s p rest m u.0 r now)

close_each-IsValid : (ps : List Ptr) (m : ConnManager) → IsValid m → IsValid (close_each ps m)
unfolding close_each
close_each-IsValid [] m v = v
close_each-IsValid (p ∷ ps) m v = close_each-IsValid ps _ (close_quiet-IsValid (m.heap p).conn m v)

pub sweep_once-IsValid : (now : Time) (m : ConnManager) → IsValid m → IsValid (sweep_once now m)
unfolding sweep_once
sweep_once-IsValid now m v = close_each-IsValid _ _ (
    sweep_loop-IsValid now m.by_snow [] m v.unique_snow (record { valid = v; within = λ j q e. e }))

-- A closed manager is empty.
pub close-IsValid : (m : ConnManager) → IsValid (close m)
unfolding close entry lookup
close-IsValid m = record {
  linked = record {
    named = λ s p e. absurd (cc);
    live = λ s p e. absurd (cc);
    held = λ u s p e. absurd (cc);
    owned = λ u s p e. absurd (cc);
    listed = λ s p e. absurd (cc);
  };
  unique_snow = tt;
  unique_user = λ u. tt;
}
