-- ===== src/Users/Sessions/Cached.antt =====
-- How the collection `user_session` and the keys of Redis stand for a map from devices to sessions.
use Prim.Native.String.{String}
use text.Mathlib.TextLemmas.{append_cancel_left}
use mathlib.Core.List.{Memᴰ}
use ppchat.Prelude.{
  ◌≡◌, ◌≢◌, ◌≤◌, ◌⊎◌, inl, inr, refl, sym, ap, subst, ◌∙◌, arith, Option, none, some, List, [], ◌∷◌,
  ◌++◌ as ◌+++◌, ite, str_dec, if_pos, if_neg, ite_elim, if_elim, ◌-◌, ◌&&◌, ltb,
}
use ppchat.Users.Jwt.{Time}
use ppchat.Users.Store.{UserSession, Upserted, Command, del, set, after_all}
use ppchat.Users.Sessions.{UserSessionKey, token_key, device_filter, revoke, publish}
use ppchat.Users.Sessions.Docs.{key_of, key_dec, OnePerDevice, Upserted-TakesPlace}
use ppchat.Users.Sessions.Spec.{Devices, assign, IsGood, Issue}

pub not-IsGood_later :
    (hash : String) (now later : Time) (s : UserSession)
    → now ≤ later
    → ¬ IsGood hash now s
    → ¬ IsGood hash later s
not-IsGood_later hash now later s le bad (same, valid, lives) = bad (same, valid, omega arith)

token_key_inj : (h g : String) → token_key h ≡ token_key g → h ≡ g
unfolding token_key
token_key_inj h g e = append_cancel_left "user_session:token_hash:" h g e

abbrev pub Entries : Type 0
Entries = String → Option String

-- A value after one command `SET` on the key of a token.
pub set_cases :
    (hash w : String) (ttl : Time) (e : Entries) (h v : String)
    → after_all (set (token_key hash) w ttl ∷ []) e (token_key h) ≡ some v
    → ((hash ≡ h) × (w ≡ v)) ⊎ ((hash ≢ h) × (e (token_key h) ≡ some v))
set_cases hash w ttl e h v = elim (str_dec (token_key hash) (token_key h)) [
  | yes same ↦ λ at. inl (token_key_inj hash h same, ground (arith, at))
  | no apart ↦ λ at. inr (λ same. apart (ap token_key same), ground (arith, at, apart))
]

del_cases :
    (hash : String) (e : Entries) (h v : String)
    → after_all (del (token_key hash) ∷ []) e (token_key h) ≡ some v
    → (hash ≢ h) × (e (token_key h) ≡ some v)
del_cases hash e h v = elim (str_dec (token_key hash) (token_key h)) [
  | yes same ↦ λ at. absurd (ground (arith, at))
  | no apart ↦ λ at. (λ same. apart (ap token_key same), ground (arith, at, apart))
]

-- The deletion of the old token leaves fewer values.
pub revoke_cases :
    (old : Option UserSession) (cs : List Command) (e : Entries)
    → (e' : Entries) × (after_all (revoke old +++ cs) e ≡ after_all cs e')
      × ((k v : String) → e' k ≡ some v → e k ≡ some v)
unfolding revoke
revoke_cases none cs e = (e, refl, λ k v at. at)
revoke_cases (some o) cs e =
    ite_elim
      (λ ds.
        (e' : Entries) × (after_all (ds +++ cs) e ≡ after_all cs e')
        × ((k v : String) → e' k ≡ some v → e k ≡ some v))
      (str_dec o.access_token_hash "") (λ _. (e, refl, λ k v at. at))
      (λ _. (
        (λ i. ite (str_dec (token_key o.access_token_hash) i) none (e i)),
        refl,
        λ k v at. ground (arith, at),
      ))

abbrev pub Published : UserSession → Entries → String → String → Type 0
Published s e h v =
    ((s.access_token_hash ≡ h) × (s.session_id ≡ v))
    ⊎ ((s.access_token_hash ≢ h) × (e (token_key h) ≡ some v))

pub publish_cases :
    (s : UserSession) (now : Time) (e : Entries) (h v : String)
    → s.access_token_hash ≢ ""
    → after_all (publish s now) e (token_key h) ≡ some v
    → Published s e h v
unfolding publish
publish_cases s now e h v some_hash =
    let P : List Command → Type 0 =
      λ cs. after_all cs e (token_key h) ≡ some v → Published s e h v in
    let none_if : List Command → List Command = λ cs. ite (str_dec s.access_token_hash "") [] cs in
    let del_it : List Command = del (token_key s.access_token_hash) ∷ [] in
    let set_it : List Command =
      set (token_key s.access_token_hash) s.session_id (s.expire_time - now) ∷ [] in
    let gone : P (none_if del_it) =
      ite_elim P (str_dec s.access_token_hash "") {a = []} {b = del_it}
        (λ empty. absurd (some_hash empty))
        (λ _ at. inr (del_cases s.access_token_hash e h v at)) in
    let kept : P (ite (str_dec s.session_id "") (none_if del_it) set_it) =
      ite_elim P (str_dec s.session_id "") {a = none_if del_it} {b = set_it} (λ _. gone)
        (λ _ at. set_cases s.access_token_hash s.session_id (s.expire_time - now) e h v at) in
    let its : P (
        ite (str_dec s.access_token_hash "") (none_if del_it)
          (ite (str_dec s.session_id "") (none_if del_it) set_it)) =
      ite_elim P (str_dec s.access_token_hash "") {a = none_if del_it}
        {b = ite (str_dec s.session_id "") (none_if del_it) set_it} (λ _. gone) (λ _. kept) in
    if_elim P (s.is_valid && ltb now s.expire_time)
      {x = ite (str_dec s.access_token_hash "") (none_if del_it)
        (ite (str_dec s.session_id "") (none_if del_it) set_it)}
      {y = none_if del_it} (λ _. its) (λ _. gone)

some_inj : {s r : UserSession} → some s ≡ some r → s ≡ r
some_inj h = cc

module _ (issue : Issue) where
  open issue use {token_of, device_of, token_of_inj}

  -- What was issued with the session.
  abbrev pub IsOwn : UserSession → Type 0
  IsOwn s =
      (token_of s.session_id ≡ s.access_token_hash)
      × (device_of s.session_id ≡ key_of s)
      × (s.session_id ≢ "-")

  -- A value of Redis under a token: the mark of a token for which there is no session, or the
  -- session id that was issued with the token.
  abbrev pub IsKnown : Time → List UserSession → String → String → Type 0
  IsKnown clock docs hash v =
      ((v ≡ "-") × ((s : UserSession) → Memᴰ s docs → ¬ IsGood hash clock s))
      ⊎ ((v ≢ "-") × (token_of v ≡ hash))

  pub record Agrees (clock : Time) (docs : List UserSession) (e : Entries) (a : Devices)
      : Type 0 where
    pub own : (s : UserSession) → Memᴰ s docs → IsOwn s
    pub held : (s : UserSession) → Memᴰ s docs → a (key_of s) ≡ some s
    pub kept : (k : UserSessionKey) (s : UserSession) → a k ≡ some s → Memᴰ s docs × (key_of s ≡ k)
    pub one : OnePerDevice docs
    pub known : (hash v : String) → e (token_key hash) ≡ some v → IsKnown clock docs hash v

  later-IsKnown :
      (clock later : Time) (docs : List UserSession) (hash v : String)
      → clock ≤ later
      → IsKnown clock docs hash v
      → IsKnown later docs hash v
  later-IsKnown clock later docs hash v le (inl (mark, bad)) =
      inl (mark, λ s h. not-IsGood_later hash clock later s le (bad s h))
  later-IsKnown clock later docs hash v le (inr its) = inr its

  -- What is known of another token stays known.
  other-IsKnown :
      (later : Time) (k : UserSessionKey) (s : UserSession) (docs docs' : List UserSession)
      (hash v : String)
      → s.access_token_hash ≢ hash
      → ((r : UserSession) → Memᴰ r docs' → (r ≡ s) ⊎ (Memᴰ r docs × (key_of r ≢ k)))
      → IsKnown later docs hash v
      → IsKnown later docs' hash v
  other-IsKnown later k s docs docs' hash v apart back (inl (mark, bad)) = inl (
    mark,
    λ r h. elim (back r h) [
      | inl same ↦ λ good. apart (ap (λ x. x.access_token_hash) (sym same) ∙ good.0)
      | inr (before, _) ↦ bad r before
    ],
  )
  other-IsKnown later k s docs docs' hash v apart back (inr its) = inr its

  module _ {clock later : Time} {docs : List UserSession} {e e' : Entries} {a : Devices} where
    -- Time goes on and values change to others that are known.
    pub entries-Agrees :
        Agrees clock docs e a
        → clock ≤ later
        → ((h v : String)
            → e' (token_key h) ≡ some v
            → IsKnown later docs h v ⊎ (e (token_key h) ≡ some v))
        → Agrees later docs e' a
    entries-Agrees g le cases = record {
      own = g.own;
      held = g.held;
      kept = g.kept;
      one = g.one;
      known = λ h v at. elim (cases h v at) [
        | inl new ↦ new
        | inr old ↦ later-IsKnown clock later docs h v le (g.known h v old)
      ];
    }

    pub set-Agrees :
        (hash v : String) (ttl : Time)
        → Agrees clock docs e a
        → clock ≤ later
        → IsKnown later docs hash v
        → ((k : String) → e' k ≡ after_all (set (token_key hash) v ttl ∷ []) e k)
        → Agrees later docs e' a
    set-Agrees hash v ttl g le new sent = entries-Agrees g le (λ h w at.
        elim (set_cases hash v ttl e h w (sym (sent (token_key h)) ∙ at)) [
          | inl (same, its) ↦
              inl
                (subst (λ x. IsKnown later docs x w) same (subst (IsKnown later docs hash) its new))
          | inr (_, old) ↦ inr old
        ])

    -- The session of a device is replaced, and the values of Redis change as they do in a login.
    pub upserted-Agrees :
        (k : UserSessionKey) (s : UserSession) (old : Option UserSession) (docs' : List UserSession)
        → Agrees clock docs e a
        → clock ≤ later
        → Upserted (device_filter k) s docs docs'
        → key_of s ≡ k
        → IsOwn s
        → s.access_token_hash ≢ ""
        → ((i : String) → e' i ≡ after_all (revoke old +++ publish s later) e i)
        → Agrees later docs' e' (assign k s a)
    upserted-Agrees k s old docs' g le up named its some_hash sent =
        let (is_in, back, forth, ones) = Upserted-TakesPlace k s docs docs' up g.one named in
        let (e1, revoked, fewer) = revoke_cases old (publish s later) e in
        record {
          own = λ r h. elim (back r h) [
            | inl same ↦ subst IsOwn (sym same) its
            | inr (before, ne) ↦ g.own r before
          ];
          held = λ r h. elim (back r h) [
            | inl same ↦
                if_pos (key_dec k (key_of r)) (sym (ap key_of same ∙ named)) _ _
                ∙ ap some (sym same)
            | inr (before, ne) ↦
                if_neg (key_dec k (key_of r)) (λ eq. ne (sym eq)) _ _ ∙ g.held r before
          ];
          kept = λ j r. elim (key_dec k j) [
            | yes same ↦ λ at.
                let its : s ≡ r = some_inj (sym (if_pos (key_dec k j) same _ _) ∙ at) in
                (subst (λ x. Memᴰ x docs') its is_in, sym (ap key_of its) ∙ named ∙ same)
            | no apart ↦ λ at.
                let (before, at_j) = g.kept j r (sym (if_neg (key_dec k j) apart _ _) ∙ at) in
                (forth r before (λ eq. apart (sym eq ∙ at_j)), at_j)
          ];
          one = ones;
          known = λ h v at.
              let e1_at : after_all (publish s later) e1 (token_key h) ≡ some v =
                ap (λ f. f (token_key h)) (sym revoked) ∙ sym (sent (token_key h)) ∙ at in
              elim (publish_cases s later e1 h v some_hash e1_at) [
                | inl (same, sid) ↦
                    inr (λ mark. its.2 (sid ∙ mark), ap token_of (sym sid) ∙ its.0 ∙ same)
                | inr (apart, before) ↦ other-IsKnown later k s docs docs' h v apart back (
                    later-IsKnown clock later docs h v le
                      (g.known h v (fewer (token_key h) v before)))
              ];
        }
