-- ===== src/Nats/Idem.antt =====
-- service/natsx/idem.go: the store of message ids that were seen, and the middleware over it. The
-- mutex makes `SeenOnce` one step, but for its first reading of the clock; times are nanoseconds.
pub mod Once
pub mod Redelivery
mod Tests
use ppchat.Prelude.{
  ℕ, ◌+◌, ◌*◌, ◌/◌, String, ite, Bool, true, false, Option, none, some, List, [], ◌∷◌, ltb, leb,
  ◌==◌, if◌then◌else◌, str_dec, lookup, insert,
}

abbrev pub Time : Type 0
Time = ℕ

-- `t.Unix()`
abbrev pub unix : Time → ℕ
unix t = t / 1000000000

-- `m` maps a key to the second in which it expires. A ttl that is not positive is 0.
pub record MemIdem : Type 0 where
  pub m : List (String × ℕ)
  pub ttl : Time

unfoldable pub new_mem_idem : Time → MemIdem
new_mem_idem default_ttl = record { m = []; ttl = default_ttl }

-- The loop of the cleaning goroutine over the entries.
unfoldable pub purge : ℕ → List (String × ℕ) → List (String × ℕ)
purge now [] = []
purge now ((k, exp) ∷ m) = let rest = purge now m in if leb exp now then rest else (k, exp) ∷ rest

unfoldable pub clean : Time → MemIdem → MemIdem
clean now mi = record mi { m = purge (unix now) mi.m }

-- `ok && old > time.Now().Unix()`
abbrev pub alive : Option ℕ → Time → Bool
alive none now = false
alive (some old) now = ltb (unix now) old

-- `called` is the time of the first reading of the clock, `locked` that of the second.
unfoldable pub seen_once : String → Time → Time → Time → MemIdem → MemIdem × Bool
seen_once key ttl called locked mi =
    let lasts = if ttl == 0 then mi.ttl else ttl in
    if alive (lookup str_dec key mi.m) locked
    then (mi, true)
    else (record mi { m = insert str_dec key (unix (called + lasts)) mi.m }, false)

abbrev non_empty : Option String → Option String
non_empty none = none
non_empty (some v) = ite (str_dec v "") none (some v)

-- The loop over the names of the header.
unfoldable pub first_header : List String → List (String × String) → String
first_header [] h = ""
first_header (k ∷ ks) h =
    let rest = first_header ks h in
    elim (non_empty (lookup str_dec k h)) [ none ↦ rest | some v ↦ v ]

unfoldable pub msg_id_from_header : List (String × String) → String
unfolding first_header
msg_id_from_header h = first_header ("Nats-Msg-Id" ∷ "nats-msg-id" ∷ "X-Msg-Id" ∷ "x-msg-id" ∷ []) h

pub record NatsxMessage : Type 0 where
  pub subject : String
  pub payload : String
  pub header : List (String × String)

-- The handler is not called, and no error is returned; or it is, and its result is returned.
pub data Delivery : Type 0 where
  skipped : Delivery
  handled : Option String → Delivery

-- `trim_space` is `strings.TrimSpace`, `join` puts two texts behind one another.
module _ (trim_space : String → String) (join : String → String → String) where
  unfoldable pub message_id : NatsxMessage → String
  message_id msg =
      let id = msg_id_from_header msg.header in
      ite (str_dec id "") (join (join msg.subject "|") (trim_space msg.payload)) id

  -- `handle` is the next handler: it returns no error, or one. A message that was seen is skipped.
  unfoldable pub deliver :
      (NatsxMessage → Option String)
      → NatsxMessage
      → Time
      → Time
      → Time
      → MemIdem
      → MemIdem × Delivery
  unfolding seen_once
  deliver handle msg ttl called locked mi =
      let (mi', seen) = seen_once (message_id msg) ttl called locked mi in
      (mi', if seen then skipped else handled (handle msg))
