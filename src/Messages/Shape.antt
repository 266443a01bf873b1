-- ===== src/Messages/Shape.antt =====
-- Which element a message of module/chat/service/message.go stores.
use ppchat.Prelude.{ℕ, ◌≡◌, refl, String, Bool, true, false, Option, none, some}
use ppchat.Messages.Wire.{
  ContentType, MessageData, TextElem, WireAdvancedText, PictureElem, SoundElem, VideoElem, FileElem,
  LocationElem, CardElem, WireAtText, WireFace, WireMerge, WireQuote, WireCustom, NotificationElem,
}
use ppchat.Messages.Model.{MessageModel}
use ppchat.Messages.Copy.{Packages, nz64}
use ppchat.Messages.Cases.{
  Built, built, not_built, with_text, with_advanced_text, with_markdown, with_picture, with_sound,
  with_video, with_file, with_location, with_card, with_at_text, with_face, with_merge, with_quote,
  with_custom, with_msg_notification, with_typing,
}
use ppchat.Messages.Build.{base_model, fill, build_message_model}
use ppchat.Messages.Elements.{is_some, elements, carries, kept, refusal}

module _ {Float Json Struct : Type 0} (p : Packages Json Struct) where
  module _ (tenant_id server_id : String) (now : ℕ) (md : MessageData Float Struct) (seq_num : ℕ)
      (conversation_id : String) where
    abbrev base : MessageModel Float Json
    base = base_model p tenant_id server_id now md seq_num conversation_id

    -- A result of a message of a type: a document where the message has the element, with that
    -- element and no other, and an error where it has not.
    abbrev pub IsShaped : ContentType → Bool → Built (MessageModel Float Json) → Type 0
    IsShaped c has (built m) =
        (has ≡ true)
        × (elements m ≡ kept c)
        × (m.server_msg_id ≡ server_id)
        × (m.seq_num ≡ seq_num)
        × (m.conversation_id ≡ conversation_id)
        × (m.content_type ≡ md.content_type)
        × (m.send_time_ms ≡ nz64 md.send_time now)
    IsShaped c has (not_built e) = (has ≡ false) × (e ≡ refusal c)

    with_text-IsShaped :
        (e : Option TextElem) → IsShaped ContentType.text (is_some e) (with_text p base e)
    unfolding with_text base_model
    with_text-IsShaped none = (refl, refl)
    with_text-IsShaped (some e) = (refl, refl, refl, refl, refl, refl, refl)

    with_advanced_text-IsShaped :
        (e : Option WireAdvancedText)
        → IsShaped ContentType.advanced_text (is_some e) (with_advanced_text p base e)
    unfolding with_advanced_text base_model
    with_advanced_text-IsShaped none = (refl, refl)
    with_advanced_text-IsShaped (some e) = (refl, refl, refl, refl, refl, refl, refl)

    with_markdown-IsShaped :
        (e : Option TextElem) → IsShaped ContentType.markdown (is_some e) (with_markdown p base e)
    unfolding with_markdown base_model
    with_markdown-IsShaped none = (refl, refl)
    with_markdown-IsShaped (some e) = (refl, refl, refl, refl, refl, refl, refl)

    with_picture-IsShaped :
        (e : Option PictureElem) → IsShaped ContentType.picture (is_some e) (with_picture p base e)
    unfolding with_picture base_model
    with_picture-IsShaped none = (refl, refl)
    with_picture-IsShaped (some e) = (refl, refl, refl, refl, refl, refl, refl)

    with_sound-IsShaped :
        (e : Option SoundElem) → IsShaped ContentType.sound (is_some e) (with_sound p base e)
    unfolding with_sound base_model
    with_sound-IsShaped none = (refl, refl)
    with_sound-IsShaped (some e) = (refl, refl, refl, refl, refl, refl, refl)

    with_video-IsShaped :
        (e : Option VideoElem) → IsShaped ContentType.video (is_some e) (with_video p base e)
    unfolding with_video base_model
    with_video-IsShaped none = (refl, refl)
    with_video-IsShaped (some e) = (refl, refl, refl, refl, refl, refl, refl)

    with_file-IsShaped :
        (e : Option FileElem) → IsShaped ContentType.file (is_some e) (with_file p base e)
    unfolding with_file base_model
    with_file-IsShaped none = (refl, refl)
    with_file-IsShaped (some e) = (refl, refl, refl, refl, refl, refl, refl)

    with_location-IsShaped :
        (e : Option (LocationElem Float))
        → IsShaped ContentType.location (is_some e) (with_location p base e)
    unfolding with_location base_model
    with_location-IsShaped none = (refl, refl)
    with_location-IsShaped (some e) = (refl, refl, refl, refl, refl, refl, refl)

    with_card-IsShaped :
        (e : Option CardElem) → IsShaped ContentType.card (is_some e) (with_card p base e)
    unfolding with_card base_model
    with_card-IsShaped none = (refl, refl)
    with_card-IsShaped (some e) = (refl, refl, refl, refl, refl, refl, refl)

    with_at_text-IsShaped :
        (e : Option WireAtText) → IsShaped ContentType.at_text (is_some e) (with_at_text p base e)
    unfolding with_at_text base_model
    with_at_text-IsShaped none = (refl, refl)
    with_at_text-IsShaped (some e) = (refl, refl, refl, refl, refl, refl, refl)

    with_face-IsShaped :
        (e : Option (WireFace Struct)) → IsShaped ContentType.face (is_some e) (with_face p base e)
    unfolding with_face base_model
    with_face-IsShaped none = (refl, refl)
    with_face-IsShaped (some e) = (refl, refl, refl, refl, refl, refl, refl)

    with_merge-IsShaped :
        (e : Option WireMerge) → IsShaped ContentType.merge (is_some e) (with_merge p base e)
    unfolding with_merge base_model
    with_merge-IsShaped none = (refl, refl)
    with_merge-IsShaped (some e) = (refl, refl, refl, refl, refl, refl, refl)

    with_quote-IsShaped :
        (e : Option WireQuote) → IsShaped ContentType.quote (is_some e) (with_quote p base e)
    unfolding with_quote base_model
    with_quote-IsShaped none = (refl, refl)
    with_quote-IsShaped (some e) = (refl, refl, refl, refl, refl, refl, refl)

    with_custom-IsShaped :
        (e : Option (WireCustom Struct))
        → IsShaped ContentType.custom (is_some e) (with_custom p base e)
    unfolding with_custom base_model
    with_custom-IsShaped none = (refl, refl)
    with_custom-IsShaped (some e) = (refl, refl, refl, refl, refl, refl, refl)

    with_msg_notification-IsShaped :
        (e : Option NotificationElem)
        → IsShaped ContentType.msg_notification (is_some e) (with_msg_notification p base e)
    unfolding with_msg_notification base_model
    with_msg_notification-IsShaped none = (refl, refl)
    with_msg_notification-IsShaped (some e) = (refl, refl, refl, refl, refl, refl, refl)

    with_typing-IsShaped : (has : Bool) → IsShaped ContentType.typing has (with_typing p base has)
    unfolding with_typing base_model
    with_typing-IsShaped true = (refl, refl, refl, refl, refl, refl, refl)
    with_typing-IsShaped false = (refl, refl)

    fill-IsShaped : (c : ContentType) → IsShaped c (carries md c) (fill p base md c)
    unfolding fill
    fill-IsShaped ContentType.text = with_text-IsShaped md.text_elem
    fill-IsShaped ContentType.advanced_text = with_advanced_text-IsShaped md.advanced_text_elem
    fill-IsShaped ContentType.markdown = with_markdown-IsShaped md.markdown_text_elem
    fill-IsShaped ContentType.picture = with_picture-IsShaped md.picture_elem
    fill-IsShaped ContentType.sound = with_sound-IsShaped md.sound_elem
    fill-IsShaped ContentType.video = with_video-IsShaped md.video_elem
    fill-IsShaped ContentType.file = with_file-IsShaped md.file_elem
    fill-IsShaped ContentType.location = with_location-IsShaped md.location_elem
    fill-IsShaped ContentType.card = with_card-IsShaped md.card_elem
    fill-IsShaped ContentType.at_text = with_at_text-IsShaped md.at_text_elem
    fill-IsShaped ContentType.face = with_face-IsShaped md.face_elem
    fill-IsShaped ContentType.merge = with_merge-IsShaped md.merge_elem
    fill-IsShaped ContentType.quote = with_quote-IsShaped md.quote_elem
    fill-IsShaped ContentType.custom = with_custom-IsShaped md.custom_elem
    fill-IsShaped ContentType.msg_notification = with_msg_notification-IsShaped md.notification_elem
    fill-IsShaped ContentType.typing = with_typing-IsShaped md.typing_elem
    fill-IsShaped ContentType.unspecified = (refl, refl)
    fill-IsShaped ContentType.reaction = (refl, refl)
    fill-IsShaped ContentType.revoked = (refl, refl)
    fill-IsShaped (ContentType.unlisted n) = (refl, refl)

    -- `BuildMessageModelFromPB` returns a document for exactly the messages that have the element of
    -- their content type: the document has this element and no other, and none at all for TYPING; its
    -- type, server id, conversation and number are those that are given, and its send time is that of
    -- the message or, where that is 0, the reading of the clock. For any other message it returns an
    -- error, which says that the element is nil or, for the types without an element (0, REACTION,
    -- REVOKE and numbers that are no type), not supported.
    pub build_message_model-IsShaped :
        IsShaped md.content_type
          (carries md md.content_type)
          (build_message_model p tenant_id server_id now (some md) seq_num conversation_id)
    unfolding build_message_model
    build_message_model-IsShaped = fill-IsShaped md.content_type
