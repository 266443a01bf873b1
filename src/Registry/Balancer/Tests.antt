-- ===== src/Registry/Balancer/Tests.antt =====
-- Runs of the balancer.
use ppchat.Prelude.{◌≡◌, refl, arith, String, Bool, false, List, [], ◌∷◌, map, lookup, str_dec}
use ppchat.Registry.Balancer.{
  Instance, update, next, parse_weight, parse_text, parse_digits, positive_or_one, visit_each,
  visit, settle_best, settle,
}
use ppchat.Registry.Balancer.Items.{sum_weight, total_weight}
use ppchat.Registry.Balancer.Fair.{calls, count, next-fair}

abbrev node : String → String → Instance
node id weight = record {
  service = "chat";
  id = id;
  address = "127.0.0.1";
  port = 8080;
  metadata = ("weight", weight) ∷ [];
  ephemeral = false;
}

abbrev two_nodes : List Instance
two_nodes = node "a" "2" ∷ node "b" "-7" ∷ []

weights : (parse_weight (("weight", "250") ∷ []) ≡ 250) × (parse_weight (("weight", "-7") ∷ []) ≡ 1)
unfolding parse_weight parse_text parse_digits positive_or_one lookup str_dec
weights = (refl, refl)

abbrev ids : List Instance → List String
ids insts = map (λ (i : Instance). i.id) insts

order : ids (calls 6 (update two_nodes)).1 ≡ "a" ∷ "b" ∷ "a" ∷ "a" ∷ "b" ∷ "a" ∷ []
unfolding calls next visit_each visit settle_best settle parse_weight parse_text parse_digits
    positive_or_one lookup str_dec
order = refl

next-fair_example :
    ((p : Instance → Bool)
      → count p (calls (total_weight (update two_nodes)) (update two_nodes)).1
        ≡ sum_weight p (update two_nodes))
    × ((calls (total_weight (update two_nodes)) (update two_nodes)).0 ≡ update two_nodes)
unfolding parse_weight parse_text parse_digits positive_or_one lookup str_dec
next-fair_example = next-fair (node "a" "2") (node "b" "-7" ∷ []) (omega arith)
