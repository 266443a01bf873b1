-- ===== src/Chat/ConnManager/Linked.antt =====
-- The invariant that ties the two indexes of the manager to the `WsConn` cells, and the changes of
-- the indexes that keep it.
use ppchat.Prelude.{
  ◌≡◌, ◌≢◌, inl, inr, Option-cases, String, ite, true, false, Option, none, some, arith, str_dec,
  lookup, insert, erase, lookup-insert, lookup-erase,
}
use ppchat.Chat.ConnManager.Index.{Ptr, SnowMap, UserMap, entry, link, drop, entry-link, entry-drop}
use ppchat.Chat.ConnManager.State.{WsConn, write}

-- `ex` is a connection that its user may not list, while it moves to another.
pub record Linked (ex : Option Ptr) (h : Ptr → WsConn) (sn : SnowMap) (us : UserMap) : Type 0 where
  pub named : (s : String) (p : Ptr) → lookup str_dec s sn ≡ some p → (h p).snow_id ≡ s
  pub live : (s : String) (p : Ptr) → lookup str_dec s sn ≡ some p → (h p).conn ≢ none
  pub held : (u s : String) (p : Ptr) → entry u s us ≡ some p → lookup str_dec s sn ≡ some p
  pub owned :
      (u s : String) (p : Ptr)
      → entry u s us ≡ some p
      → ((h p).authorized ≡ true) × ((h p).user_id ≡ u) × (u ≢ "")
  pub listed :
      (s : String) (p : Ptr)
      → lookup str_dec s sn ≡ some p
      → (h p).authorized ≡ true
      → ex ≢ some p
      → entry (h p).user_id s us ≡ some p

module _ {ex : Option Ptr} {h : Ptr → WsConn} {sn : SnowMap} {us : UserMap}
    (inv : Linked ex h sn us) where
  -- A connection leaves both indexes.
  pub erase-Linked :
      (sn' : SnowMap) (us' : UserMap) (s : String) (p : Ptr)
      → lookup str_dec s sn ≡ some p
      → ((j : String) → lookup str_dec j sn' ≡ ite (str_dec s j) none (lookup str_dec j sn))
      → ((u j : String)
          → entry u j us'
            ≡ ite (str_dec (h p).user_id u) (ite (str_dec s j) none (entry u j us)) (entry u j us))
      → Linked ex h sn' us'
  erase-Linked sn' us' s p at sn_law us_law = record {
    named = λ j q e. grind (arith, sn_law j, inv.named j q);
    live = λ j q e. grind (arith, sn_law j, inv.live j q);
    held = λ u j q e. grind (arith, sn_law j, us_law u j, inv.held u j q, inv.owned u j q);
    owned = λ u j q e. grind (arith, us_law u j, inv.owned u j q);
    listed = λ j q e a x. grind (arith, sn_law j, us_law (h q).user_id j, inv.listed j q);
  }

module _ {h : Ptr → WsConn} {sn : SnowMap} {us : UserMap} (inv : Linked none h sn us) where
  -- A connection that no user holds leaves the main index.
  pub erase_unauth-Linked :
      (s : String) (p : Ptr)
      → lookup str_dec s sn ≡ some p
      → (h p).authorized ≡ false
      → Linked none h (erase str_dec s sn) us
  erase_unauth-Linked s p at plain = record {
    named = λ j q e. grind (arith, lookup-erase str_dec s j sn, inv.named j q);
    live = λ j q e. grind (arith, lookup-erase str_dec s j sn, inv.live j q);
    held =
        λ u j q e. grind (arith, lookup-erase str_dec s j sn, inv.held u j q e, inv.owned u j q e);
    owned = inv.owned;
    listed = λ j q e a x. grind (arith, lookup-erase str_dec s j sn, inv.listed j q);
  }

  pub one_owner :
      (u v s : String) (p q : Ptr) → entry u s us ≡ some p → entry v s us ≡ some q → u ≡ v
  one_owner u v s p q a b =
      ground (arith, inv.held u s p, inv.held v s q, inv.owned u s p, inv.owned v s q)

  -- A user leaves with all its connections.
  pub drop-Linked :
      (user : String) (sn' : SnowMap)
      → ((j : String)
          → lookup str_dec j sn'
            ≡ elim (entry user j us) [ none ↦ lookup str_dec j sn | some _ ↦ none ])
      → Linked none h sn' (drop user us)
  drop-Linked user sn' law = record {
    named = λ j q e. grind (arith, law j, inv.named j q);
    live = λ j q e. grind (arith, law j, inv.live j q);
    held = λ u j q e. elim (Option-cases (entry user j us)) [
      | inl away ↦ ground (arith, law j, entry-drop user u j us, inv.held u j q)
      | inr (x, at) ↦ ground (arith, entry-drop user u j us, one_owner user u j x q at)
    ];
    owned = λ u j q e. ground (arith, entry-drop user u j us, inv.owned u j q);
    listed = λ j q e a x. ground (arith, law j, entry-drop user (h q).user_id j us, inv.listed j q);
  }

  -- A cell changes in what the invariant does not read.
  pub touch-Linked :
      (p : Ptr) (w : WsConn)
      → w.snow_id ≡ (h p).snow_id
      → w.conn ≡ (h p).conn
      → w.authorized ≡ (h p).authorized
      → w.user_id ≡ (h p).user_id
      → Linked none (write h p w) sn us
  touch-Linked p w a b c d = record {
    named = λ j q e. ground (arith, inv.named j q);
    live = λ j q e. ground (arith, inv.live j q);
    held = inv.held;
    owned = λ u j q e. ground (arith, inv.owned u j q);
    listed = λ j q e o x. ground (arith, inv.listed j q);
  }

  module _ (p : Ptr) (fresh : (j : String) → lookup str_dec j sn ≢ some p) (w : WsConn) where
    -- A new connection without a user.
    pub add_unauth-Linked :
        w.conn ≢ none
        → w.authorized ≡ false
        → lookup str_dec w.snow_id sn ≡ none
        → Linked none (write h p w) (insert str_dec w.snow_id p sn) us
    add_unauth-Linked opened plain new = record {
      named =
          λ j q e. ground (arith, lookup-insert str_dec w.snow_id j p sn, inv.named j q, fresh j);
      live = λ j q e. ground (arith, lookup-insert str_dec w.snow_id j p sn, inv.live j q, fresh j);
      held = λ u j q e. ground (arith, lookup-insert str_dec w.snow_id j p sn, inv.held u j q);
      owned = λ u j q e. ground (arith, inv.held u j q, inv.owned u j q, fresh j);
      listed = λ j q e o x.
          ground (arith, lookup-insert str_dec w.snow_id j p sn, inv.listed j q, fresh j);
    }

    -- A new connection of a user.
    pub register-Linked :
        w.conn ≢ none
        → w.authorized ≡ true
        → w.user_id ≢ ""
        → lookup str_dec w.snow_id sn ≡ none
        → Linked none (write h p w) (insert str_dec w.snow_id p sn) (link w.user_id w.snow_id p us)
    register-Linked opened auth some_user new = record {
      named =
          λ j q e. ground (arith, lookup-insert str_dec w.snow_id j p sn, inv.named j q, fresh j);
      live = λ j q e. ground (arith, lookup-insert str_dec w.snow_id j p sn, inv.live j q, fresh j);
      held = λ u j q e. ground (
        arith,
        lookup-insert str_dec w.snow_id j p sn,
        entry-link w.user_id w.snow_id p us u j,
        inv.held u j q,
      );
      owned = λ u j q e. ground (
        arith,
        entry-link w.user_id w.snow_id p us u j,
        inv.held u j q,
        inv.owned u j q,
        fresh j,
      );
      listed = λ j q e o x. ground (
        arith,
        lookup-insert str_dec w.snow_id j p sn,
        entry-link w.user_id w.snow_id p us (h q).user_id j,
        entry-link w.user_id w.snow_id p us w.user_id j,
        inv.listed j q,
        fresh j,
      );
    }

  module _ (s : String) (p : Ptr) (at : lookup str_dec s sn ≡ some p) where
    -- A connection is taken off the index of its user.
    pub unbind-Linked :
        (us' : UserMap)
        → ((u j : String)
            → entry u j us'
              ≡ ite
                  (str_dec (h p).user_id u)
                  (ite (str_dec s j) none (entry u j us))
                  (entry u j us))
        → Linked (some p) h sn us'
    unbind-Linked us' law = record {
      named = inv.named;
      live = inv.live;
      held = λ u j q e. ground (arith, law u j, inv.held u j q);
      owned = λ u j q e. ground (arith, law u j, inv.owned u j q);
      listed = λ j q e o x.
          ground (arith, law (h q).user_id j, inv.listed j q, inv.named j q, inv.named s p);
    }

    pub unbind-entry :
        (us' : UserMap)
        → ((u j : String)
            → entry u j us'
              ≡ ite
                  (str_dec (h p).user_id u)
                  (ite (str_dec s j) none (entry u j us))
                  (entry u j us))
        → (u j : String) → entry u j us' ≢ some p
    unbind-entry us' law u j e =
        ground (arith, law u j, inv.owned u j p, inv.held u j p, inv.named j p, inv.named s p)

    -- Nothing has to be taken off for one that has no user.
    pub plain-Linked : (h p).authorized ≡ false → Linked (some p) h sn us
    plain-Linked plain = record {
      named = inv.named;
      live = inv.live;
      held = inv.held;
      owned = inv.owned;
      listed = λ j q e o x. ground (arith, inv.listed j q);
    }

    pub plain-entry : (h p).authorized ≡ false → (u j : String) → entry u j us ≢ some p
    plain-entry plain u j e = ground (arith, inv.owned u j p)

-- A connection that no user lists is bound to one.
pub bind-Linked :
    {h : Ptr → WsConn} {sn : SnowMap} {us : UserMap} (s user : String) (p : Ptr) (w : WsConn)
    → Linked (some p) h sn us
    → ((u j : String) → entry u j us ≢ some p)
    → lookup str_dec s sn ≡ some p
    → user ≢ ""
    → w.snow_id ≡ s
    → w.conn ≡ (h p).conn
    → w.authorized ≡ true
    → w.user_id ≡ user
    → Linked none (write h p w) sn (link user s p us)
bind-Linked {h} {sn} {us} s user p w inv alone at some_user a b c d = record {
  named = λ j q e. ground (arith, inv.named j q, inv.named s p);
  live = λ j q e. ground (arith, inv.live j q);
  held = λ u j q e. ground (arith, entry-link user s p us u j, inv.held u j q);
  owned = λ u j q e. ground (arith, entry-link user s p us u j, inv.owned u j q, alone u j);
  listed = λ j q e o x. ground (
    arith,
    entry-link user s p us user j,
    entry-link user s p us (h q).user_id j,
    inv.named j q,
    inv.named s p,
    inv.listed j q,
  );
}
