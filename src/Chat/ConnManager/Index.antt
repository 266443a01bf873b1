-- ===== src/Chat/ConnManager/Index.antt =====
-- The nested map `byUser` of conn_manager.go: user -> (snowID -> *WsConn). An inner map is a Go
-- reference, so a change of `mm := m.byUser[u]` is a change of `m.byUser[u]`.
use ppchat.Prelude.{
  ℕ, ◌+◌, ◌≤◌, ◌<◌, String, ◌≡◌, ite, Option, none, some, List, [], arith, ◌==◌, if◌then◌else◌,
  length, str_dec, lookup, insert, erase, lookup-insert, lookup-erase, Option-cases, inl, inr,
  lookup_of_length-eq-zero, Bool-cases, if_pos, if_neg, subst, Unique, insert-Unique, erase-Unique,
  length-insert-le, length-erase-le, length-erase-lt,
}

-- The address of a `WsConn`.
abbrev pub Ptr : Type 0
Ptr = ℕ

abbrev pub SnowMap : Type 0
SnowMap = List (String × Ptr)

abbrev pub UserMap : Type 0
UserMap = List (String × SnowMap)

abbrev or_nil : Option SnowMap → SnowMap
or_nil none = []
or_nil (some mm) = mm

-- `m.byUser[user]`; a missing key reads as the nil map, which ranges and counts as an empty one.
unfoldable pub conns_of : String → UserMap → SnowMap
conns_of user m = or_nil (lookup str_dec user m)

-- `m.byUser[user][snowID]`
unfoldable pub entry : String → String → UserMap → Option Ptr
unfolding conns_of
entry user sid m = lookup str_dec sid (conns_of user m)

-- `if m.byUser[user] == nil { ... = make(...) }; m.byUser[user][snowID] = w`
unfoldable pub link : String → String → Ptr → UserMap → UserMap
unfolding conns_of
link user sid p m = insert str_dec user (insert str_dec sid p (conns_of user m)) m

-- `delete(mm, snowID)` on the inner map, which stays in place when it becomes empty.
unfoldable pub cut : String → String → UserMap → UserMap
cut user sid m = elim (lookup str_dec user m) [
  | none ↦ m
  | some mm ↦ insert str_dec user (erase str_dec sid mm) m
]

-- `delete(mm, snowID); if len(mm) == 0 { delete(m.byUser, user) }`
unfoldable pub unlink : String → String → UserMap → UserMap
unlink user sid m = elim (lookup str_dec user m) [
  | none ↦ m
  | some mm ↦
      let rest = erase str_dec sid mm in
      if length rest == 0 then erase str_dec user m else insert str_dec user rest m
]

-- `delete(m.byUser, user)`
unfoldable pub drop : String → UserMap → UserMap
drop user m = erase str_dec user m

-- `len(m.byUser[user])`
unfoldable pub size : String → UserMap → ℕ
unfolding conns_of
size user m = length (conns_of user m)

module _ (user sid : String) (p : Ptr) (m : UserMap) (u s : String) where
  pub entry-link :
      entry u s (link user sid p m)
      ≡ ite (str_dec user u) (ite (str_dec sid s) (some p) (entry u s m)) (entry u s m)
  unfolding entry link
  entry-link = ground (
    arith,
    lookup-insert str_dec user u (insert str_dec sid p (conns_of user m)) m,
    lookup-insert str_dec sid s p (conns_of user m),
  )

module _ (user sid : String) (m : UserMap) (u s : String) where
  pub entry-cut :
      entry u s (cut user sid m)
      ≡ ite (str_dec user u) (ite (str_dec sid s) none (entry u s m)) (entry u s m)
  unfolding entry cut lookup
  entry-cut = elim (Option-cases (lookup str_dec user m)) [
    | inl e ↦ rw (e, cut) (ground arith)
    | inr (mm, e) ↦
        rw (e, cut)
          (ground (
            arith,
            lookup-insert str_dec user u (erase str_dec sid mm) m,
            lookup-erase str_dec sid s mm,
          ))
  ]

  pub entry-unlink :
      entry u s (unlink user sid m)
      ≡ ite (str_dec user u) (ite (str_dec sid s) none (entry u s m)) (entry u s m)
  unfolding entry unlink lookup
  entry-unlink = elim (Option-cases (lookup str_dec user m)) [
    | inl e ↦ rw (e, unlink) (ground arith)
    | inr (mm, e) ↦
        rw (e, unlink)
          (ground (
            arith,
            lookup-insert str_dec user u (erase str_dec sid mm) m,
            lookup-erase str_dec user u m,
            lookup-erase str_dec sid s mm,
            lookup_of_length-eq-zero str_dec s (erase str_dec sid mm),
          ))
  ]

pub entry-drop :
    (user u s : String) (m : UserMap)
    → entry u s (drop user m) ≡ ite (str_dec user u) none (entry u s m)
unfolding entry drop lookup
entry-drop user u s m = ground (arith, lookup-erase str_dec user u m)

-- How the operations change the number of connections of a user.
module _ (user sid : String) (m : UserMap) (u : String) where
  pub size-link-le : (p : Ptr) → size u (link user sid p m) ≤ size u m + ite (str_dec user u) 1 0
  unfolding size link
  size-link-le p = ground (
    arith,
    lookup-insert str_dec user u (insert str_dec sid p (conns_of user m)) m,
    length-insert-le str_dec sid p (conns_of user m),
  )

  pub size-cut-le : size u (cut user sid m) ≤ size u m
  unfolding size cut lookup
  size-cut-le = elim (Option-cases (lookup str_dec user m)) [
    | inl e ↦ rw (e, cut) (ground arith)
    | inr (mm, e) ↦
        rw (e, cut)
          (ground (
            arith,
            lookup-insert str_dec user u (erase str_dec sid mm) m,
            length-erase-le str_dec sid mm,
          ))
  ]

  pub size-unlink-le : size u (unlink user sid m) ≤ size u m
  unfolding size unlink lookup
  size-unlink-le = elim (Option-cases (lookup str_dec user m)) [
    | inl e ↦ rw (e, unlink) (ground arith)
    | inr (mm, e) ↦
        rw (e, unlink)
          (ground (
            arith,
            lookup-insert str_dec user u (erase str_dec sid mm) m,
            lookup-erase str_dec user u m,
            length-erase-le str_dec sid mm,
          ))
  ]

-- A cut of an entry that is there makes room for one.
pub size-cut-lt :
    (user sid : String) (p : Ptr) (m : UserMap)
    → entry user sid m ≡ some p
    → size user (cut user sid m) < size user m
unfolding size cut entry lookup
size-cut-lt user sid p m h = elim (Option-cases (lookup str_dec user m)) [
  | inl e ↦ absurd (ground arith)
  | inr (mm, e) ↦
      rw (e, cut)
        (ground (
          arith,
          lookup-insert str_dec user user (erase str_dec sid mm) m,
          length-erase-lt str_dec sid p mm,
        ))
]

-- No snowflake id stands twice in the inner map of a user.
abbrev pub IsUnique : UserMap → Type 0
IsUnique m = (u : String) → Unique str_dec (conns_of u m)

pub put-IsUnique :
    (user : String) (mm : SnowMap) (m : UserMap)
    → IsUnique m
    → Unique str_dec mm
    → IsUnique (insert str_dec user mm m)
unfolding conns_of
put-IsUnique user mm m all one u =
    rw (lookup-insert str_dec user u mm m)
      (elim (str_dec user u) [ yes e ↦ rw (if_pos _ e) one | no e ↦ rw (if_neg _ e) (all u) ])

module _ (user : String) (m : UserMap) (all : IsUnique m) where
  pub drop-IsUnique : IsUnique (drop user m)
  unfolding conns_of drop
  drop-IsUnique u =
      rw (lookup-erase str_dec user u m)
        (elim (str_dec user u) [ yes e ↦ rw (if_pos _ e) tt | no e ↦ rw (if_neg _ e) (all u) ])

  module _ (sid : String) where
    inner-Unique :
        (mm : SnowMap) → lookup str_dec user m ≡ some mm → Unique str_dec (erase str_dec sid mm)
    unfolding conns_of
    inner-Unique mm e =
        erase-Unique str_dec sid mm (subst (λ o. Unique str_dec (or_nil o)) e (all user))

    pub link-IsUnique : (p : Ptr) → IsUnique (link user sid p m)
    unfolding link
    link-IsUnique p =
        put-IsUnique user _ m all (insert-Unique str_dec sid p (conns_of user m) (all user))

    pub cut-IsUnique : IsUnique (cut user sid m)
    unfolding cut
    cut-IsUnique = elim (Option-cases (lookup str_dec user m)) [
      | inl e ↦ rw (e, cut) all
      | inr (mm, e) ↦ rw (e, cut) (put-IsUnique user _ m all (inner-Unique mm e))
    ]

    pub unlink-IsUnique : IsUnique (unlink user sid m)
    unfolding unlink drop
    unlink-IsUnique = elim (Option-cases (lookup str_dec user m)) [
      | inl e ↦ rw (e, unlink) all
      | inr (mm, e) ↦ elim (Bool-cases (length (erase str_dec sid mm) == 0)) [
        | inl last ↦ rw (e, unlink) (rw last drop-IsUnique)
        | inr more ↦ rw (e, unlink) (rw more (put-IsUnique user _ m all (inner-Unique mm e)))
      ]
    ]
