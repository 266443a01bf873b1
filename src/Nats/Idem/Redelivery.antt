-- ===== src/Nats/Idem/Redelivery.antt =====
-- What the middleware does with a message that comes again.
use ppchat.Prelude.{
  ◌+◌, ◌<◌, ◌≡◌, String, false, Option, List, ◌==◌, if◌then◌else◌, arith, Bool-cases, inl, inr,
}
use ppchat.Nats.Idem.{
  Time, unix, MemIdem, NatsxMessage, skipped, handled, message_id, deliver, seen_once,
}
use ppchat.Nats.Idem.Once.{Op, run_ops, AllBefore, seen_once-window}

module _ (trim_space : String → String) (join : String → String → String) where
  -- A message whose handler was called, and a message with the same id that is delivered later, before
  -- the second in which the ttl of the first ends: the second is skipped, whatever the handler returned
  -- for the first, an error included, and whatever ran in between.
  pub deliver_once :
      (handle : NatsxMessage → Option String) (msg again : NatsxMessage) (ttl called locked : Time)
      (mi : MemIdem) (os : List Op) (ttl' called' locked' : Time) (result : Option String)
      → (deliver trim_space join handle msg ttl called locked mi).1 ≡ handled result
      → message_id trim_space join again ≡ message_id trim_space join msg
      → AllBefore (unix (called + (if ttl == 0 then mi.ttl else ttl))) os
      → unix locked' < unix (called + (if ttl == 0 then mi.ttl else ttl))
      → (deliver trim_space join handle again ttl' called' locked'
          (run_ops os (deliver trim_space join handle msg ttl called locked mi).0)).1
        ≡ skipped
  unfolding deliver
  deliver_once handle msg again ttl called locked mi os ttl' called' locked' result out same before
        within =
      let key = message_id trim_space join msg in
      let new : (seen_once key ttl called locked mi).1 ≡ false =
        elim (Bool-cases (seen_once key ttl called locked mi).1) [
          | inl seen ↦ absurd (ground (arith, seen, out))
          | inr fresh ↦ fresh
        ] in
      let window =
        seen_once-window key ttl called locked mi os ttl' called' locked' new before within in
      rw (same, window)
