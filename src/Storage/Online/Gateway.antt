-- ===== src/Storage/Online/Gateway.antt =====
-- The gateway that `ExtractGateway` finds in the name of a user's index.
use Prim.Native.String.{String, ◌++◌, ◌∷◌}
use Prim.Native.Char.{Char, code}
use text.Mathlib.TextLemmas.{nil-append, cons-append}
use ppchat.Prelude.{
  ℕ, suc, ◌+◌, ◌-◌, ◌≡◌, refl, arith, leb, true, false, none, some, ◌==◌, Option-cases, Bool-cases,
  inl, inr, ◌≢◌,
}
use ppchat.Storage.Online.Keys.{
  OnlineConfig, user_index_key, index_of, take_chars, drop_chars, first_part, gateway_between,
  extract_gateway,
}

-- The character does not stand in the text.
abbrev pub Lacks : ℕ → String → Type 0
Lacks c s = index_of c s ≡ none

abbrev count : String → ℕ
count String.[] = 0
count (String.◌∷◌ d s) = suc (count s)

Lacks-tail :
    (c : ℕ) (d : Char) (s : String) → Lacks c (String.◌∷◌ d s) → ((code d == c) ≡ false) × Lacks c s
unfolding index_of
Lacks-tail c d s h = (ground (arith, h), ground (arith, h))

-- A text that ends in the character has a first one, which is not in a prefix that lacks it.
index_of-append :
    (c : ℕ) (s t : String) (i : ℕ)
    → Lacks c s
    → index_of c t ≡ some i
    → index_of c (s ++ t) ≡ some (count s + i)
unfolding index_of
index_of-append c String.[] t i h at = rw (nil-append t, at) (ground arith)
index_of-append c (String.◌∷◌ d s) t i h at =
    let (apart, rest) = Lacks-tail c d s h in
    rw (cons-append d s t, apart, index_of-append c s t i rest at) (ground arith)

index_of_last :
    (c : ℕ) (s t : String) → index_of c t ≢ none → (i : ℕ) × (index_of c (s ++ t) ≡ some i)
unfolding index_of
index_of_last c String.[] t h = elim (Option-cases (index_of c t)) [
  | inl absent ↦ absurd (h absent)
  | inr (i, found) ↦ (i, rw (nil-append t) found)
]
index_of_last c (String.◌∷◌ d s) t h =
    let (i, at) = index_of_last c s t h in
    elim (Bool-cases (code d == c)) [
      | inl here ↦ (0, rw (cons-append d s t, here) refl)
      | inr there ↦ (suc i, rw (cons-append d s t, there, at) refl)
    ]

-- The part before the character, which comes after a text that lacks it.
first_part-take :
    (c : ℕ) (d : Char) (s t : String) (j : ℕ)
    → (code d == c) ≡ true
    → Lacks c s
    → first_part c (take_chars (count s + suc j) (s ++ (String.◌∷◌ d t))) ≡ s
unfolding first_part take_chars
first_part-take c d String.[] t j sep h =
    let one_more : count "" + suc j ≡ suc j = omega arith in
    rw (nil-append (String.◌∷◌ d t), one_more, sep) refl
first_part-take c d (String.◌∷◌ e s) t j sep h =
    let (apart, rest) = Lacks-tail c e s h in
    let longer : count (String.◌∷◌ e s) + suc j ≡ suc (count s + suc j) = omega arith in
    rw (longer, cons-append e s (String.◌∷◌ d t), apart, first_part-take c d s t j sep rest) refl

-- The characters of the literals, in front of a text.
opened : (t : String) → "nidx:{" ++ t ≡ "n" ∷ "i" ∷ "d" ∷ "x" ∷ ":" ∷ "{" ∷ t
opened t =
    rw
      (
        cons-append "n" "idx:{" t,
        cons-append "i" "dx:{" t,
        cons-append "d" "x:{" t,
        cons-append "x" ":{" t,
        cons-append ":" "{" t,
        cons-append "{" "" t,
        nil-append t,
      )
      refl

colon : (t : String) → ":" ++ t ≡ ":" ∷ t
colon t = rw (cons-append ":" "" t, nil-append t) refl

read :
    (node tail : String) (j : ℕ)
    → Lacks b':' node
    → index_of b'}' (node ++ ":" ∷ tail) ≡ some (count node + suc j)
    → extract_gateway ("nidx:{" ++ node ++ ":" ∷ tail) ≡ node
unfolding extract_gateway gateway_between
read node tail j no_colon at =
    let body = node ++ ":" ∷ tail in
    let key = "nidx:{" ++ body in
    let start : index_of b'{' key ≡ some 5 = rw (opened body) (unfold index_of in refl) in
    let end : index_of b'}' key ≡ some (6 + (count node + suc j)) =
      rw (opened body) (unfold index_of in rw at (ground arith)) in
    let inner : drop_chars 6 key ≡ body = rw (opened body) (unfold drop_chars in refl) in
    let wide : leb (6 + (count node + suc j)) (5 + 1) ≡ false = ground arith in
    let size : 6 + (count node + suc j) - (5 + 1) ≡ count node + suc j = omega arith in
    rw (start, end, gateway_between, wide, size, inner)
      (first_part-take b':' ":" node tail j refl no_colon)

-- Where the names carry a cluster tag, and the name of the node has neither of the characters `}`
-- and `:`, `ExtractGateway` reads the node off the name of the index of any user.
extract_gateway-user_index_key :
    (conf : OnlineConfig) (user : String)
    → conf.use_cluster_tag ≡ true
    → Lacks b'}' conf.node_id
    → Lacks b':' conf.node_id
    → extract_gateway (user_index_key conf user) ≡ conf.node_id
unfolding user_index_key
extract_gateway-user_index_key conf user tagged no_close no_colon =
    let (j, last) = index_of_last b'}' user "}" (unfold index_of in λ e. cc) in
    let at =
      index_of-append b'}' conf.node_id (":" ∷ (user ++ "}")) (suc j) no_close
        (unfold index_of in rw last refl) in
    rw (tagged, colon (user ++ "}")) (read conf.node_id (user ++ "}") j no_colon at)
