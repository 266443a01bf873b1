-- ===== src/Nats/Idem/Tests.antt =====
-- Runs of service/natsx/idem.go.
use Prim.Native.String.{◌++◌}
use ppchat.Prelude.{◌≡◌, refl, arith, String, Option, some, List, [], ◌∷◌, lookup}
use ppchat.Nats.Idem.{MemIdem, new_mem_idem, seen_once, NatsxMessage, skipped, deliver}
use ppchat.Nats.Idem.Once.{Op, sees, cleans, run_ops}
use ppchat.Nats.Idem.Redelivery.{deliver_once}

abbrev store : MemIdem
store = new_mem_idem 60000000000

abbrev between : List Op
between = cleans 20000000000 ∷ sees "b" 0 21000000000 21000000000 ∷ []

abbrev message : NatsxMessage
message = record { subject = "s"; payload = "hello"; header = ("X-Msg-Id", "m1") ∷ [] }

abbrev broken : NatsxMessage → Option String
broken msg = some "failed"

deliver_once_example :
    (deliver
      (λ s. s)
      (λ s t. s ++ t)
      broken
      message
      0
      40000000000
      40000000000
      (run_ops between
        (deliver (λ s. s) (λ s t. s ++ t) broken message 0 10000000000 10000000000 store).0)).1
    ≡ skipped
unfolding new_mem_idem
deliver_once_example =
    deliver_once (λ s. s) (λ s t. s ++ t) broken message message 0 10000000000 10000000000 store
      between 0 40000000000 40000000000 (some "failed")
      (unfold deliver seen_once new_mem_idem lookup in refl) refl (omega arith, (omega arith, tt))
      (omega arith)
