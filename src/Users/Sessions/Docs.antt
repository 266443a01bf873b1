-- ===== src/Users/Sessions/Docs.antt =====
-- The documents of `user_session` by their devices, and what an upsert by a device makes of them.
use mathlib.Core.List.{Memᴰ}
use ppchat.Prelude.{
  ◌≡◌, ◌≢◌, ◌⊎◌, inl, inr, refl, sym, ap, subst, ◌∙◌, List, [], ◌∷◌, ◌++◌, str_dec,
}
use ppchat.Users.Store.{UserSession, Matches, Swapped, here, there, Upserted}
use ppchat.Users.Sessions.{UserSessionKey, device_filter}

abbrev pub key_of : UserSession → UserSessionKey
key_of s = record { user_id = s.user_id; device_type = s.device_type; device_id = s.device_id }

pub key_ext :
    (k j : UserSessionKey)
    → k.user_id ≡ j.user_id
    → k.device_type ≡ j.device_type
    → k.device_id ≡ j.device_id
    → k ≡ j
key_ext k j user type id = λ i. record { user_id = user i; device_type = type i; device_id = id i }

abbrev pub key_dec : Discrete UserSessionKey
key_dec k j = elim (str_dec k.user_id j.user_id) [
  | no n ↦ no (λ e. n (ap (λ k. k.user_id) e))
  | yes user ↦ elim (str_dec k.device_type j.device_type) [
    | no n ↦ no (λ e. n (ap (λ k. k.device_type) e))
    | yes type ↦ elim (str_dec k.device_id j.device_id) [
      | no n ↦ no (λ e. n (ap (λ k. k.device_id) e))
      | yes id ↦ yes (key_ext k j user type id)
    ]
  ]
]

-- No device has two documents.
abbrev pub OnePerDevice : List UserSession → Type 0
OnePerDevice [] = Unit
OnePerDevice (s ∷ ss) =
    ((other : UserSession) → Memᴰ other ss → key_of other ≢ key_of s) × OnePerDevice ss

-- `new` takes the place of the document of the device, if it has one.
abbrev pub TakesPlace : UserSessionKey → UserSession → List UserSession → List UserSession → Type 0
TakesPlace k new xs ys =
    Memᴰ new ys
    × ((s : UserSession) → Memᴰ s ys → (s ≡ new) ⊎ (Memᴰ s xs × (key_of s ≢ k)))
    × ((s : UserSession) → Memᴰ s xs → key_of s ≢ k → Memᴰ s ys)
    × OnePerDevice ys

matches-key_of : (k : UserSessionKey) (s : UserSession) → Matches (device_filter k) s → key_of s ≡ k
unfolding device_filter
matches-key_of k s (user, (type, (id, _))) = key_ext (key_of s) k user type id

key_of-matches : (k : UserSessionKey) (s : UserSession) → key_of s ≡ k → Matches (device_filter k) s
unfolding device_filter
key_of-matches k s e =
    (ap (λ k. k.user_id) e, (ap (λ k. k.device_type) e, (ap (λ k. k.device_id) e, tt)))

mem-left :
    {s : UserSession} {xs : List UserSession} (ys : List UserSession)
    → Memᴰ s xs
    → Memᴰ s (xs ++ ys)
mem-left ys (Memᴰ.head e) = Memᴰ.head e
mem-left ys (Memᴰ.tail h) = Memᴰ.tail (mem-left ys h)

mem-last : (new : UserSession) (xs : List UserSession) → Memᴰ new (xs ++ new ∷ [])
mem-last new [] = Memᴰ.head refl
mem-last new (x ∷ xs) = Memᴰ.tail (mem-last new xs)

mem_snoc_cases :
    (s new : UserSession) (xs : List UserSession) → Memᴰ s (xs ++ new ∷ []) → (s ≡ new) ⊎ Memᴰ s xs
mem_snoc_cases s new [] (Memᴰ.head e) = inl e
mem_snoc_cases s new [] (Memᴰ.tail h) = elim h [ ]
mem_snoc_cases s new (x ∷ xs) (Memᴰ.head e) = inr (Memᴰ.head e)
mem_snoc_cases s new (x ∷ xs) (Memᴰ.tail h) = elim (mem_snoc_cases s new xs h) [
  | inl same ↦ inl same
  | inr old ↦ inr (Memᴰ.tail old)
]

nothing_in : (s : UserSession) → Memᴰ s [] → ⊥
nothing_in s h = elim h [ ]

-- Where a document of a list is, with what is asked of the first and of the others.
each_in :
    (P : UserSession → Type 0) (x : UserSession) (xs : List UserSession)
    → P x
    → ((s : UserSession) → Memᴰ s xs → P s)
    → (s : UserSession) → Memᴰ s (x ∷ xs)
    → P s
each_in P x xs first rest s (Memᴰ.head e) = subst P (sym e) first
each_in P x xs first rest s (Memᴰ.tail h) = rest s h

snoc-OnePerDevice :
    (k : UserSessionKey) (new : UserSession) (xs : List UserSession)
    → OnePerDevice xs
    → key_of new ≡ k
    → ((s : UserSession) → Memᴰ s xs → key_of s ≢ k)
    → OnePerDevice (xs ++ new ∷ [])
snoc-OnePerDevice k new [] one named free = (λ other h. absurd (nothing_in other h), tt)
snoc-OnePerDevice k new (x ∷ xs) (apart, one) named free = (
  λ other h e. elim (mem_snoc_cases other new xs h) [
    | inl same ↦ free x (Memᴰ.head refl) (sym e ∙ ap key_of same ∙ named)
    | inr old ↦ apart other old e
  ],
  snoc-OnePerDevice k new xs one named (λ s h. free s (Memᴰ.tail h)),
)

Swapped-had :
    (k : UserSessionKey) (new : UserSession) (xs ys : List UserSession)
    → Swapped (device_filter k) new xs ys
    → (old : UserSession) × Memᴰ old xs × (key_of old ≡ k)
Swapped-had k new [] ys h = elim h [ ]
Swapped-had k new (o ∷ xs) ys (here m) = (o, Memᴰ.head refl, matches-key_of k o m)
Swapped-had k new (s ∷ xs) (t ∷ ys) (there more) =
    let (old, h, named) = Swapped-had k new xs ys more in (old, Memᴰ.tail h, named)

Swapped-TakesPlace :
    (k : UserSessionKey) (new : UserSession) (xs ys : List UserSession)
    → Swapped (device_filter k) new xs ys
    → OnePerDevice xs
    → key_of new ≡ k
    → TakesPlace k new xs ys
Swapped-TakesPlace k new [] ys h one named = elim h [ ]
Swapped-TakesPlace k new (o ∷ xs) ys (here m) (apart, one) named =
    let at = matches-key_of k o m in
    (
      Memᴰ.head refl,
      each_in (λ s. (s ≡ new) ⊎ (Memᴰ s (o ∷ xs) × (key_of s ≢ k))) new xs (inl refl)
          (λ s h. inr (Memᴰ.tail h, λ e. apart s h (e ∙ sym at))),
      each_in (λ s. key_of s ≢ k → Memᴰ s (new ∷ xs)) o xs (λ ne. absurd (ne at))
          (λ s h _. Memᴰ.tail h),
      (λ other h e. apart other h (e ∙ named ∙ sym at), one),
    )
Swapped-TakesPlace k new (s ∷ xs) (t ∷ ys) (there more) (apart, one) named =
    let (is_in, back, forth, ones) = Swapped-TakesPlace k new xs ys more one named in
    let (old, had, at) = Swapped-had k new xs ys more in
    let other : key_of s ≢ k = λ e. apart old had (at ∙ sym e) in
    (
      Memᴰ.tail is_in,
      each_in (λ r. (r ≡ new) ⊎ (Memᴰ r (s ∷ xs) × (key_of r ≢ k))) s ys
          (inr (Memᴰ.head refl, other))
          (λ r h. elim (back r h) [
            | inl same ↦ inl same
            | inr (before, ne) ↦ inr (Memᴰ.tail before, ne)
          ]),
      each_in (λ r. key_of r ≢ k → Memᴰ r (s ∷ ys)) s xs (λ _. Memᴰ.head refl)
          (λ r h ne. Memᴰ.tail (forth r h ne)),
      (
        λ r h e. elim (back r h) [
          | inl same ↦ other (sym e ∙ ap key_of same ∙ named)
          | inr (before, ne) ↦ apart r before e
        ],
        ones,
      ),
    )

pub Upserted-TakesPlace :
    (k : UserSessionKey) (new : UserSession) (xs ys : List UserSession)
    → Upserted (device_filter k) new xs ys
    → OnePerDevice xs
    → key_of new ≡ k
    → TakesPlace k new xs ys
Upserted-TakesPlace k new xs ys (inl swap) one named = Swapped-TakesPlace k new xs ys swap one named
Upserted-TakesPlace k new xs ys (inr (free, added)) one named =
    let other : (s : UserSession) → Memᴰ s xs → key_of s ≢ k =
      λ s h e. free s h (key_of-matches k s e) in
    subst (TakesPlace k new xs) (sym added) (
      mem-last new xs,
      λ s h. elim (mem_snoc_cases s new xs h) [
        | inl same ↦ inl same
        | inr old ↦ inr (old, other s old)
      ],
      λ s h _. mem-left (new ∷ []) h,
      snoc-OnePerDevice k new xs one named other,
    )
