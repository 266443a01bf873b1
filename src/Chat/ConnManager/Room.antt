-- ===== src/Chat/ConnManager/Room.antt =====
-- Making room for a connection: which one `ensureRoomForUserLocked` evicts, and what it keeps.
use ppchat.Prelude.{
  ◌≤◌, ◌<◌, ◌≡◌, ◌⊎◌, inl, inr, refl, String, Option, none, some, [], ◌∷◌, arith, ltb,
  if◌then◌else◌, Bool-cases, str_dec, lookup, Unique, lookup-tail, lookup-head, length, ◌∙◌,
}
use ppchat.Chat.ConnManager.Index.{Ptr, SnowMap}
use ppchat.Chat.ConnManager.State.{WsConn, oldest}

module _ (heap : Ptr → WsConn) where
  -- Where `oldest` takes its result from.
  abbrev Among : Option Ptr → SnowMap → Ptr → Type 0
  Among best mm p = (best ≡ some p) ⊎ ((sid : String) × (lookup str_dec sid mm ≡ some p))

  oldest-Among :
      (best : Option Ptr) (mm : SnowMap) (p : Ptr)
      → Unique str_dec mm
      → oldest heap best mm ≡ some p
      → Among best mm p
  unfolding oldest
  oldest-Among best [] p u e = inl e
  oldest-Among none ((sid, q) ∷ mm) p u e = elim (oldest-Among (some q) mm p u.1 e) [
    | inl here ↦ inr (sid, lookup-head str_dec sid q mm ∙ here)
    | inr (j, there) ↦ inr (j, (lookup-tail str_dec sid q mm j p u.0 there).1)
  ]
  oldest-Among (some b) ((sid, q) ∷ mm) p u e =
      elim (Bool-cases (ltb (heap q).created_at (heap b).created_at)) [
        | inl older ↦ elim (oldest-Among (some q) mm p u.1 (rw older at e)) [
          | inl here ↦ inr (sid, lookup-head str_dec sid q mm ∙ here)
          | inr (j, there) ↦ inr (j, (lookup-tail str_dec sid q mm j p u.0 there).1)
        ]
        | inr newer ↦ elim (oldest-Among (some b) mm p u.1 (rw newer at e)) [
          | inl here ↦ inl here
          | inr (j, there) ↦ inr (j, (lookup-tail str_dec sid q mm j p u.0 there).1)
        ]
      ]

  -- The connection found is one of the user's.
  pub oldest-lookup :
      (mm : SnowMap) (p : Ptr)
      → Unique str_dec mm
      → oldest heap none mm ≡ some p
      → (sid : String) × (lookup str_dec sid mm ≡ some p)
  oldest-lookup mm p u e = elim (oldest-Among none mm p u e) [
    | inl absent ↦ absurd (cc)
    | inr found ↦ found
  ]

  -- No connection looked at is older than the result.
  abbrev OldestOf : Option Ptr → SnowMap → Ptr → Type 0
  OldestOf best mm p =
      ((b : Ptr) → best ≡ some b → (heap p).created_at ≤ (heap b).created_at)
      × ((sid : String) (q : Ptr)
          → lookup str_dec sid mm ≡ some q
          → (heap p).created_at ≤ (heap q).created_at)

  oldest-OldestOf :
      (best : Option Ptr) (mm : SnowMap) (p : Ptr)
      → oldest heap best mm ≡ some p
      → OldestOf best mm p
  unfolding oldest lookup
  oldest-OldestOf best [] p e = (λ b at. ground arith, λ sid q at. absurd (cc))
  oldest-OldestOf none ((sid, q) ∷ mm) p e =
      let rest = oldest-OldestOf (some q) mm p e in
      (λ b at. absurd (cc), λ j r at. ground (arith, rest.0 q refl, rest.1 j r))
  oldest-OldestOf (some b) ((sid, q) ∷ mm) p e =
      let c = if ltb (heap q).created_at (heap b).created_at then q else b in
      let rest = oldest-OldestOf (some c) mm p e in
      (λ a at. ground (arith, rest.0 c refl), λ j r at. ground (arith, rest.0 c refl, rest.1 j r))

  oldest-some : (b : Ptr) (mm : SnowMap) → (p : Ptr) × (oldest heap (some b) mm ≡ some p)
  unfolding oldest
  oldest-some b [] = (b, refl)
  oldest-some b ((sid, q) ∷ mm) =
      oldest-some (if ltb (heap q).created_at (heap b).created_at then q else b) mm

  -- It is found unless the user has no connection at all.
  pub oldest-ne-none : (mm : SnowMap) → 0 < length mm → (p : Ptr) × (oldest heap none mm ≡ some p)
  unfolding oldest
  oldest-ne-none [] h = absurd (omega arith)
  oldest-ne-none ((sid, q) ∷ mm) h = oldest-some q mm

  -- The connection that is chosen was created no later than any other of the user.
  pub oldest-le :
      (mm : SnowMap) (p : Ptr)
      → oldest heap none mm ≡ some p
      → (sid : String) (q : Ptr) → lookup str_dec sid mm ≡ some q
      → (heap p).created_at ≤ (heap q).created_at
  oldest-le mm p e = (oldest-OldestOf none mm p e).1
