-- ===== src/Chat/ConnManager/Users.antt =====
-- `Add` and `Remove`, which clear a user, keep the manager well-formed.
use ppchat.Prelude.{
  ◌≡◌, refl, String, true, Option, none, some, List, [], ◌∷◌, arith, Option-cases, ite_elim, inl,
  inr, str_dec, lookup, insert, erase, Unique, erase-Unique, insert-Unique, lookup-erase, sym,
  subst,
}
use ppchat.Chat.ConnManager.Index.{
  Ptr, SnowMap, UserMap, conns_of, entry, link, drop, IsUnique, drop-IsUnique, link-IsUnique,
}
use ppchat.Chat.ConnManager.State.{Socket, Time, ConnManager, close_quiet, close_quiet-fields}
use ppchat.Chat.ConnManager.Ops.{new_conn, close_all, remove, add}
use ppchat.Chat.ConnManager.Linked.{Linked, drop-Linked, register-Linked}
use ppchat.Chat.ConnManager.Invariant.{IsValid}
use ppchat.Chat.ConnManager.Adding.{IsFresh}

-- What `close_all` leaves: the entries of `mm` are gone from the main index.
pub close_all-lookup :
    (mm : SnowMap) (m : ConnManager) (j : String)
    → lookup str_dec j (close_all mm m).by_snow
      ≡ elim (lookup str_dec j mm) [ none ↦ lookup str_dec j m.by_snow | some _ ↦ none ]
unfolding close_all lookup
close_all-lookup [] m j = refl
close_all-lookup ((s, p) ∷ mm) m j =
    let m' : ConnManager = record m { by_snow = erase str_dec s m.by_snow } in
    ground (
      arith,
      close_all-lookup mm (close_quiet (m.heap p).conn m') j,
      close_quiet-fields (m.heap p).conn m',
      lookup-erase str_dec s j m.by_snow,
    )

pub close_all-fields :
    (mm : SnowMap) (m : ConnManager)
    → ((close_all mm m).heap ≡ m.heap)
      × ((close_all mm m).by_user ≡ m.by_user)
      × ((close_all mm m).conns ≡ m.conns)
      × ((close_all mm m).conf ≡ m.conf)
unfolding close_all
close_all-fields [] m = (refl, refl, refl, refl)
close_all-fields ((s, p) ∷ mm) m =
    let m' : ConnManager = record m { by_snow = erase str_dec s m.by_snow } in
    ground (
      arith,
      close_all-fields mm (close_quiet (m.heap p).conn m'),
      close_quiet-fields (m.heap p).conn m',
    )

close_all-Unique :
    (mm : SnowMap) (m : ConnManager)
    → Unique str_dec m.by_snow
    → Unique str_dec (close_all mm m).by_snow
unfolding close_all
close_all-Unique [] m u = u
close_all-Unique ((s, p) ∷ mm) m u =
    let m' : ConnManager = record m { by_snow = erase str_dec s m.by_snow } in
    close_all-Unique mm (close_quiet (m.heap p).conn m') (
      subst (Unique str_dec) (sym (close_quiet-fields (m.heap p).conn m').1)
        (erase-Unique str_dec s m.by_snow u))

-- The state after a user is cleared.
abbrev cleared : String → List (String × Socket) → ConnManager → ConnManager
cleared user conns m = close_all (conns_of user m.by_user) (record m { conns = conns })

cleared-Linked :
    (user : String) (conns : List (String × Socket)) (m : ConnManager)
    → IsValid m
    → Linked none
        (cleared user conns m).heap
        (cleared user conns m).by_snow
        (drop user (cleared user conns m).by_user)
unfolding entry
cleared-Linked user conns m v =
    let mm : SnowMap = conns_of user m.by_user in
    let f = close_all-fields mm (record m { conns = conns }) in
    rw (f.0, f.1) (drop-Linked v.linked user _ (close_all-lookup mm (record m { conns = conns })))

cleared-IsUnique :
    (user : String) (conns : List (String × Socket)) (m : ConnManager)
    → IsValid m
    → IsUnique (drop user (cleared user conns m).by_user)
cleared-IsUnique user conns m v =
    rw (close_all-fields (conns_of user m.by_user) (record m { conns = conns })).1
      (drop-IsUnique user m.by_user v.unique_user)

pub remove-IsValid : (user : String) (m : ConnManager) → IsValid m → IsValid (remove user m)
unfolding remove
remove-IsValid user m v =
    ite_elim IsValid (str_dec user "") (λ _. v)
      λ _. record {
        linked = cleared-Linked user _ m v;
        unique_snow = close_all-Unique _ _ v.unique_snow;
        unique_user = cleared-IsUnique user _ m v;
      }

-- The new inner map of `Add` is what linking into the cleared index makes.
single-link :
    (user sid : String) (p : Ptr) (us : UserMap)
    → link user sid p (drop user us) ≡ insert str_dec user ((sid, p) ∷ []) (drop user us)
unfolding link conns_of drop insert
single-link user sid p us = ground (arith, lookup-erase str_dec user user us)

pub add-IsValid :
    (p : Ptr) (user sid : String) (c : Option Socket) (now : Time) (m : ConnManager)
    → IsValid m
    → IsFresh p m
    → ((q : Ptr) → lookup str_dec sid m.by_snow ≡ some q → entry user sid m.by_user ≡ some q)
    → IsValid (add p user sid c now m)
unfolding add entry
add-IsValid p user sid none now m v fresh own = v
add-IsValid p user sid (some c) now m v fresh own =
    ite_elim IsValid (str_dec user "") (λ _. v)
      λ some_user.
        let mm : SnowMap = conns_of user m.by_user in
        let m0 : ConnManager = record m { conns = insert str_dec user c m.conns } in
        let law = close_all-lookup mm m0 in
        rw (← single-link user sid p (close_all mm m0).by_user) (record {
          linked =
              register-Linked (cleared-Linked user _ m v) p (λ j e. ground (arith, law j, fresh j))
                (new_conn sid user true c m.conf.auth_ttl now) (λ h. cc) refl some_user
                (elim (Option-cases (lookup str_dec sid m.by_snow)) [
                  | inl new ↦ ground (arith, law sid)
                  | inr (q, at) ↦ ground (arith, law sid, own q at)
                ]);
          unique_snow = insert-Unique str_dec sid p _ (close_all-Unique mm m0 v.unique_snow);
          unique_user = link-IsUnique user _ (cleared-IsUnique user _ m v) sid p;
        })
