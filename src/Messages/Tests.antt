-- ===== src/Messages/Tests.antt =====
-- A message with a text, built, inserted and fetched.
use mathlib.Core.List.{Memᴰ}
use ppchat.Prelude.{
  ℕ, pos, ◌≡◌, ◌≤◌, ◌⊎◌, ◌↔◌, ◌≢◌, ap, subst, inl, inr, refl, sym, String, true, false, none, some,
  List, [], ◌∷◌, str_dec, ite, if_pos, if_neg, ◌∙◌,
}
use ppchat.Messages.Wire.{ContentType, MessageData}
use ppchat.Messages.Model.{MessageModel}
use ppchat.Messages.Copy.{Packages, rune_count, first_runes, trim_preview}
use ppchat.Messages.Build.{build_message_model, base_model}
use ppchat.Messages.Shape.{IsShaped, build_message_model-IsShaped}
use ppchat.Messages.Preview.{trim_preview_bound}
use ppchat.Messages.Stored.{find_failed, Collection, inserted, Found, found, no_documents}

abbrev packages : Packages String String
packages = record {
  trim_space = λ s. s;
  as_map = λ s. s;
  format = λ s. "";
  unmarshal = λ s. some s;
}

abbrev hello : MessageData ℕ String
hello = record {
  client_msg_id = "c1";
  create_time = 7;
  send_time = 0;
  session_type = pos 1;
  send_id = "alice";
  recv_id = "bob";
  msg_from = pos 1;
  content_type = ContentType.text;
  sender_platform_id = pos 5;
  sender_nickname = "";
  sender_face_url = "";
  group_id = "";
  is_read = false;
  status = pos 0;
  guild_id = "";
  channel_id = "";
  thread_id = "";
  attached_info = "";
  ex = "";
  local_ex = "";
  is_edited = false;
  edited_at = pos 0;
  edit_version = pos 0;
  expire_at = pos 0;
  access_level = "";
  trace_id = "";
  session_id = "";
  tags = [];
  reply_to = "";
  is_ephemeral = false;
  offline_push = none;
  text_elem = some (record { content = "hello" });
  advanced_text_elem = none;
  markdown_text_elem = none;
  picture_elem = none;
  sound_elem = none;
  video_elem = none;
  file_elem = none;
  location_elem = none;
  card_elem = none;
  at_text_elem = none;
  face_elem = none;
  merge_elem = none;
  quote_elem = none;
  typing_elem = false;
  custom_elem = none;
  notification_elem = none;
}

build_message_model-IsShaped_example :
    IsShaped packages "t" "s1" 9 hello 4 "p2p:a:b" ContentType.text true
      (build_message_model packages "t" "s1" 9 (some hello) 4 "p2p:a:b")
build_message_model-IsShaped_example =
    build_message_model-IsShaped packages "t" "s1" 9 hello 4 "p2p:a:b"

trim_preview_bound_example :
    (rune_count (trim_preview packages "hello") ≤ 121)
    × (rune_count "hello" ≤ 120 → trim_preview packages "hello" ≡ "hello")
    × (121 ≤ rune_count "hello"
        → (rune_count (trim_preview packages "hello") ≡ 121)
          × (first_runes 120 (trim_preview packages "hello") ≡ first_runes 120 "hello"))
trim_preview_bound_example = trim_preview_bound packages "hello"

abbrev Docs : Type 0
Docs = List (MessageModel ℕ String)

abbrev find : Docs → String → Found (MessageModel ℕ String)
find [] id = no_documents
find (d ∷ c) id = let rest = find c id in ite (str_dec d.server_msg_id id) (found d) rest

found_inj : {d e : MessageModel ℕ String} → found d ≡ found e → d ≡ e
found_inj h = cc

inserted_inj : {c d : Docs} → inserted c ≡ inserted d → c ≡ d
inserted_inj h = cc

put_last : (c : Docs) (d e : MessageModel ℕ String) → Memᴰ e (d ∷ c) → (e ≡ d) ⊎ Memᴰ e c
put_last c d e (Memᴰ.head same) = inl same
put_last c d e (Memᴰ.tail h) = inr h

was_put : (c : Docs) (d e : MessageModel ℕ String) → (e ≡ d) ⊎ Memᴰ e c → Memᴰ e (d ∷ c)
was_put c d e (inl same) = Memᴰ.head same
was_put c d e (inr h) = Memᴰ.tail h

find-found :
    (c : Docs) (id : String) (d : MessageModel ℕ String)
    → find c id ≡ found d
    → Memᴰ d c × (d.server_msg_id ≡ id)
find-found [] id d at = absurd (cc)
find-found (x ∷ c) id d at = elim (str_dec x.server_msg_id id) [
  | yes here ↦
      let same : x ≡ d = found_inj (sym (if_pos (str_dec x.server_msg_id id) here _ _) ∙ at) in
      (Memᴰ.head (sym same), subst (λ e. e.server_msg_id ≡ id) same here)
  | no other ↦
      let (h, its) = find-found c id d (sym (if_neg (str_dec x.server_msg_id id) other _ _) ∙ at) in
      (Memᴰ.tail h, its)
]

find-none :
    (c : Docs) (id : String) (d : MessageModel ℕ String)
    → find c id ≡ no_documents
    → Memᴰ d c
    → d.server_msg_id ≢ id
find-none [] id d at h = elim h [ ]
find-none (x ∷ c) id d at (Memᴰ.head same) = λ its.
    let here : x.server_msg_id ≡ id = ap (λ e. e.server_msg_id) (sym same) ∙ its in
    let met : found x ≡ no_documents = sym (if_pos (str_dec x.server_msg_id id) here _ _) ∙ at in cc
find-none (x ∷ c) id d at (Memᴰ.tail h) = elim (str_dec x.server_msg_id id) [
  | yes here ↦
      let met : found x ≡ no_documents = sym (if_pos (str_dec x.server_msg_id id) here _ _) ∙ at in
      absurd (cc)
  | no other ↦ find-none c id d (sym (if_neg (str_dec x.server_msg_id id) other _ _) ∙ at) h
]

-- A map without entries is left out of a document.
abbrev read_back : MessageModel ℕ String → MessageModel ℕ String
read_back m = record m {
  ex = elim m.ex [ none ↦ none | some x ↦ ite (str_dec x "{}") none (some x) ];
}

abbrev decoded : Found (MessageModel ℕ String) → Found (MessageModel ℕ String)
decoded (found d) = found (read_back d)
decoded no_documents = no_documents
decoded find_failed = find_failed

decoded-found :
    (c : Docs) (id : String) (d : MessageModel ℕ String) (f : Found (MessageModel ℕ String))
    → find c id ≡ f
    → decoded f ≡ found d
    → (e : MessageModel ℕ String) × Memᴰ e c × (e.server_msg_id ≡ id) × (d ≡ read_back e)
decoded-found c id d (found e) at same =
    let (h, its) = find-found c id e at in (e, h, its, found_inj (sym same))
decoded-found c id d no_documents at same = absurd (cc)
decoded-found c id d find_failed at same = absurd (cc)

decoded-none :
    (c : Docs) (id : String) (d : MessageModel ℕ String) (f : Found (MessageModel ℕ String))
    → find c id ≡ f
    → decoded f ≡ no_documents
    → Memᴰ d c
    → d.server_msg_id ≢ id
decoded-none c id d (found e) at same h = absurd (cc)
decoded-none c id d no_documents at same h = find-none c id d at h
decoded-none c id d find_failed at same h = absurd (cc)

abbrev coll : Collection (MessageModel ℕ String) (λ m. m.server_msg_id)
coll = record {
  State = Docs;
  docs = λ c. c;
  read_back = read_back;
  insert_one = λ c d. inserted (d ∷ c);
  find_one = λ c id. decoded (find c id);
  docs-insert_one = λ c c' d e at.
      subst (λ x. Memᴰ e x ↔ ((e ≡ d) ⊎ Memᴰ e c)) (inserted_inj at)
        (put_last c d e, was_put c d e);
  find_one-found = λ c id d. decoded-found c id d _ refl;
  find_one-none = λ c id d. decoded-none c id d _ refl;
}

abbrev hello_model : MessageModel ℕ String
hello_model = record (base_model packages "t" "s1" 9 hello 4 "p2p:a:b") {
  text_elem = some (record { content = "hello" });
  content_text = "hello";
}
