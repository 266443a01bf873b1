-- ===== src/Chat/ConnManager/Adding.antt =====
-- `AddUnauth`, `AddAuthorized`, `BindUser` and `Heartbeat` keep the manager well-formed.
use ppchat.Prelude.{
  ◌≡◌, ◌≢◌, refl, String, ite, true, Option, none, some, arith, Option-cases, ite_elim, if_elim,
  inl, inr, str_dec, lookup, insert-Unique, lookup-erase, sym, subst,
}
use ppchat.Chat.ConnManager.Index.{
  Ptr, UserMap, entry, link, unlink, entry-cut, entry-unlink, link-IsUnique, unlink-IsUnique,
}
use ppchat.Chat.ConnManager.State.{
  Socket, Time, WsConn, ConnManager, Outcome, panicked, write, evict, evict-fields,
}
use ppchat.Chat.ConnManager.Ops.{
  ensure_room, add_unauth, add_authorized, register, bind_user, bind_room, bind_to, bound, unbind,
  heartbeat,
}
use ppchat.Chat.ConnManager.Linked.{
  Linked, add_unauth-Linked, register-Linked, touch-Linked, unbind-Linked, unbind-entry,
  plain-Linked, plain-entry, bind-Linked,
}
use ppchat.Chat.ConnManager.Invariant.{
  IsValid, IsValidBut, evict-IsValid, ensure_room_cases, ensure_room-IsValid,
}

-- The address of a new `WsConn` is not in use.
abbrev pub IsFresh : Ptr → ConnManager → Type 0
IsFresh p m = (j : String) → lookup str_dec j m.by_snow ≢ some p

abbrev Keeps : ConnManager × Outcome → Type 0
Keeps r = IsValid r.0

pub add_unauth-IsValid :
    (p : Ptr) (sid : String) (c : Option Socket) (now : Time) (m : ConnManager)
    → IsValid m
    → IsFresh p m
    → IsValid (add_unauth p sid c now m).0
unfolding add_unauth
add_unauth-IsValid p sid none now m v fresh = v
add_unauth-IsValid p sid (some c) now m v fresh =
    ite_elim Keeps (str_dec sid "") (λ _. v)
      λ some_sid. elim (Option-cases (lookup str_dec sid m.by_snow)) [
        | inr (q, taken) ↦ rw taken v
        | inl new ↦ rw new (record {
          linked = add_unauth-Linked v.linked p fresh _ (λ h. cc) refl new;
          unique_snow = insert-Unique str_dec sid p m.by_snow v.unique_snow;
          unique_user = v.unique_user;
        })
      ]

-- What making room keeps besides: nothing new is in the main index.
ensure_room-IsFresh :
    (user : String) (p : Ptr) (m m' : ConnManager)
    → IsValid m
    → IsFresh p m
    → ensure_room user m ≡ some m'
    → IsFresh p m'
ensure_room-IsFresh user p m m' v fresh =
    ensure_room_cases (IsFresh p) user m m' v fresh λ sid q _ _ j e.
      ground
        (arith, evict-fields user q m, lookup-erase str_dec (m.heap q).snow_id j m.by_snow, fresh j)

ensure_room-absent :
    (user s : String) (m m' : ConnManager)
    → IsValid m
    → lookup str_dec s m.by_snow ≡ none
    → ensure_room user m ≡ some m'
    → lookup str_dec s m'.by_snow ≡ none
ensure_room-absent user s m m' v absent =
    ensure_room_cases (λ n. lookup str_dec s n.by_snow ≡ none) user m m' v absent
      λ sid q _ _.
        ground (arith, evict-fields user q m, lookup-erase str_dec (m.heap q).snow_id s m.by_snow)

pub register-IsValid :
    (p : Ptr) (user sid : String) (c : Socket) (now : Time) (m : ConnManager)
    → IsValid m
    → IsFresh p m
    → user ≢ ""
    → lookup str_dec sid m.by_snow ≡ none
    → IsValid (register p user sid c now m)
unfolding register
register-IsValid p user sid c now m v fresh some_user new = record {
  linked = register-Linked v.linked p fresh _ (λ h. cc) refl some_user new;
  unique_snow = insert-Unique str_dec sid p m.by_snow v.unique_snow;
  unique_user = link-IsUnique user m.by_user v.unique_user sid p;
}

pub add_authorized-IsValid :
    (p : Ptr) (user sid : String) (c : Option Socket) (now : Time) (m : ConnManager)
    → IsValid m
    → IsFresh p m
    → IsValid (add_authorized p user sid c now m).0
unfolding add_authorized
add_authorized-IsValid p user sid none now m v fresh = v
add_authorized-IsValid p user sid (some c) now m v fresh =
    ite_elim Keeps (str_dec user "") (λ _. v)
      λ some_user.
        ite_elim Keeps (str_dec sid "") (λ _. v)
          λ some_sid. elim (Option-cases (lookup str_dec sid m.by_snow)) [
            | inr (q, taken) ↦ rw taken v
            | inl new ↦ elim (Option-cases (ensure_room user m)) [
              | inl full ↦ rw (new, full) v
              | inr (m1, room) ↦
                  rw (new, room)
                    (register-IsValid p user sid c now m1 (ensure_room-IsValid user m m1 v room)
                      (ensure_room-IsFresh user p m m1 v fresh room) some_user
                      (ensure_room-absent user sid m m1 v new room))
            ]
          ]

pub heartbeat-IsValid :
    (sid : String) (now : Time) (m : ConnManager) → IsValid m → IsValid (heartbeat sid now m).0
unfolding heartbeat
heartbeat-IsValid sid now m v =
    ite_elim Keeps (str_dec sid "") (λ _. v)
      λ some_sid. elim (Option-cases (lookup str_dec sid m.by_snow)) [
        | inl missing ↦ rw missing v
        | inr (p, at) ↦ elim (Option-cases (m.heap p).conn) [
          | inl shut ↦ rw (at, shut) v
          | inr (c, opened) ↦
              rw (at, opened)
                (record {
                  linked = touch-Linked v.linked p _ refl refl refl refl;
                  unique_snow = v.unique_snow;
                  unique_user = v.unique_user;
                })
        ]
      ]

-- What holds between `unbind` and `bind_to`: the connection is in the main index, of no user.
pub record Moving (s : String) (p : Ptr) (m : ConnManager) : Type 0 where
  pub valid : IsValidBut (some p) m
  pub at : lookup str_dec s m.by_snow ≡ some p
  pub alone : (u j : String) → entry u j m.by_user ≢ some p

pub unbind-Moving :
    (s user : String) (p : Ptr) (m : ConnManager)
    → IsValid m
    → lookup str_dec s m.by_snow ≡ some p
    → ((m.heap p).authorized ≡ true → (m.heap p).user_id ≢ user)
    → Moving s p (unbind p user m)
unfolding unbind
unbind-Moving s user p m v at other =
    if_elim (Moving s p) (m.heap p).authorized
      (λ auth.
        ite_elim (Moving s p) (str_dec (m.heap p).user_id "")
          (λ anon.
            absurd (ground (arith, v.linked.listed s p, v.linked.owned (m.heap p).user_id s p)))
          λ _.
            ite_elim (Moving s p) (str_dec (m.heap p).user_id user)
              (λ same. absurd (other auth same))
              λ _.
                let sid_of : (m.heap p).snow_id ≡ s = v.linked.named s p at in
                let us' : UserMap = unlink (m.heap p).user_id (m.heap p).snow_id m.by_user in
                let law : (u j : String)
                    → entry u j us'
                      ≡ ite (str_dec (m.heap p).user_id u)
                          (ite (str_dec s j) none (entry u j m.by_user)) (entry u j m.by_user) =
                  λ u j.
                    subst
                      (λ x.
                        entry u j us'
                        ≡ ite (str_dec (m.heap p).user_id u)
                            (ite (str_dec x j) none (entry u j m.by_user)) (entry u j m.by_user))
                      sid_of (entry-unlink (m.heap p).user_id (m.heap p).snow_id m.by_user u j) in
                record {
                  valid = record {
                    linked = unbind-Linked v.linked s p at us' law;
                    unique_snow = v.unique_snow;
                    unique_user =
                        unlink-IsUnique (m.heap p).user_id m.by_user v.unique_user
                          (m.heap p).snow_id;
                  };
                  at = at;
                  alone = unbind-entry v.linked s p at us' law;
                })
      (λ plain. record {
        valid = record {
          linked = plain-Linked v.linked s p at plain;
          unique_snow = v.unique_snow;
          unique_user = v.unique_user;
        };
        at = at;
        alone = plain-entry v.linked s p at plain;
      })

evict-Moving :
    (s user sid : String) (p q : Ptr) (m : ConnManager)
    → Moving s p m
    → entry user sid m.by_user ≡ some q
    → Moving s p (evict user q m)
evict-Moving s user sid p q m mv at =
    let f = evict-fields user q m in
    let there = mv.valid.linked.held user sid q at in
    let apart : q ≢ p = λ e. mv.alone user sid (ground arith) in
    record {
      valid = evict-IsValid user sid q m mv.valid at;
      at = ground (
        arith,
        f,
        lookup-erase str_dec (m.heap q).snow_id s m.by_snow,
        mv.at,
        there,
        mv.valid.linked.named s p,
        mv.valid.linked.named sid q,
      );
      alone =
          λ u j e. ground (arith, f, entry-cut user (m.heap q).snow_id m.by_user u j, mv.alone u j);
    }

bind_to-IsValid :
    (s user : String) (p : Ptr) (c : Socket) (now : Time) (m : ConnManager)
    → Moving s p m
    → user ≢ ""
    → IsValid (bind_to p c user now m)
unfolding bind_to
bind_to-IsValid s user p c now m mv some_user =
    let sid_of : (m.heap p).snow_id ≡ s = mv.valid.linked.named s p mv.at in
    let w : WsConn = bound (m.heap p) user m.conf.auth_ttl now in
    record {
      linked =
          subst (λ x. Linked none (write m.heap p w) m.by_snow (link user x p m.by_user))
            (sym sid_of)
            (bind-Linked s user p w mv.valid.linked mv.alone mv.at some_user sid_of refl refl refl);
      unique_snow = mv.valid.unique_snow;
      unique_user = link-IsUnique user m.by_user mv.valid.unique_user (m.heap p).snow_id p;
    }

abbrev KeepsUnlessPanic : ConnManager × Outcome → Type 0
KeepsUnlessPanic r = r.1 ≢ panicked → IsValid r.0

bind_room-IsValid :
    (s user : String) (p : Ptr) (c : Socket) (now : Time) (m1 : ConnManager)
    → user ≢ ""
    → Moving s p m1
    → (room : Option ConnManager) → ensure_room user m1 ≡ room
    → KeepsUnlessPanic (bind_room p c user now m1 room)
unfolding bind_room
bind_room-IsValid s user p c now m1 some_user mv none e calm = absurd (calm refl)
bind_room-IsValid s user p c now m1 some_user mv (some m2) e calm =
    bind_to-IsValid s user p c now m2
      (ensure_room_cases (Moving s p) user m1 m2 mv.valid mv
        (λ sid q at _. evict-Moving s user sid p q m1 mv at) e)
      some_user

-- Binding a connection to a user keeps the manager well-formed, unless it is bound to this user
-- already, or making room panics.
pub bind_user-IsValid :
    (sid user : String) (now : Time) (m : ConnManager)
    → IsValid m
    → ((p : Ptr) → entry user sid m.by_user ≢ some p)
    → (bind_user sid user now m).1 ≢ panicked
    → IsValid (bind_user sid user now m).0
unfolding bind_user
bind_user-IsValid sid user now m v unbound =
    ite_elim KeepsUnlessPanic (str_dec sid "") (λ _ _. v)
      λ _.
        ite_elim KeepsUnlessPanic (str_dec user "") (λ _ _. v)
          λ some_user. elim (Option-cases (lookup str_dec sid m.by_snow)) [
            | inl missing ↦ rw missing (λ _. v)
            | inr (p, at) ↦ elim (Option-cases (m.heap p).conn) [
              | inl shut ↦ rw (at, shut) (λ _. v)
              | inr (c, opened) ↦
                  rw (at, opened)
                    (bind_room-IsValid sid user p c now _ some_user
                      (unbind-Moving sid user p m v at (λ auth same. unbound p (
                        subst (λ u. entry u sid m.by_user ≡ some p) same
                          (v.linked.listed sid p at auth (λ e. cc)))))
                      _ refl)
            ]
          ]
