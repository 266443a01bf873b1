-- ===== src/Messages/Elements.antt =====
-- Which elements the messages of module/chat/service/message.go have.
use ppchat.Prelude.{Bool, true, false, Option, none, some, List, [], ◌∷◌}
use ppchat.Messages.Wire.{ContentType, MessageData}
use ppchat.Messages.Model.{MessageModel}
use ppchat.Messages.Cases.{BuildError, nil_elem, unsupported_content_type}

abbrev pub is_some : {A : Type 0} → Option A → Bool
is_some none = false
is_some (some a) = true

abbrev pub listed : {A : Type 0} → ContentType → Option A → List ContentType → List ContentType
listed c none cs = cs
listed c (some a) cs = c ∷ cs

-- The types of the elements that a document has.
abbrev pub elements : {Float Json : Type 0} → MessageModel Float Json → List ContentType
elements m = listed ContentType.text m.text_elem (
    listed ContentType.advanced_text m.advanced_text_elem (
      listed ContentType.markdown m.markdown_text_elem (
        listed ContentType.picture m.picture_elem (
          listed ContentType.sound m.sound_elem (
            listed ContentType.video m.video_elem (
              listed ContentType.file m.file_elem (
                listed ContentType.location m.location_elem (
                  listed ContentType.card m.card_elem (
                    listed ContentType.at_text m.at_text_elem (
                      listed ContentType.face m.face_elem (
                        listed ContentType.merge m.merge_elem (
                          listed ContentType.quote m.quote_elem (
                            listed ContentType.custom m.custom_elem (
                              listed ContentType.msg_notification m.notification_elem
                                []))))))))))))))

-- Whether a message of the wire has the element of a type.
abbrev pub carries : {Float Struct : Type 0} → MessageData Float Struct → ContentType → Bool
carries md ContentType.text = is_some md.text_elem
carries md ContentType.advanced_text = is_some md.advanced_text_elem
carries md ContentType.markdown = is_some md.markdown_text_elem
carries md ContentType.picture = is_some md.picture_elem
carries md ContentType.sound = is_some md.sound_elem
carries md ContentType.video = is_some md.video_elem
carries md ContentType.file = is_some md.file_elem
carries md ContentType.location = is_some md.location_elem
carries md ContentType.card = is_some md.card_elem
carries md ContentType.at_text = is_some md.at_text_elem
carries md ContentType.face = is_some md.face_elem
carries md ContentType.merge = is_some md.merge_elem
carries md ContentType.quote = is_some md.quote_elem
carries md ContentType.custom = is_some md.custom_elem
carries md ContentType.msg_notification = is_some md.notification_elem
carries md ContentType.typing = md.typing_elem
carries md ContentType.unspecified = false
carries md ContentType.reaction = false
carries md ContentType.revoked = false
carries md (ContentType.unlisted n) = false

-- The elements of a document of a type.
abbrev pub kept : ContentType → List ContentType
kept ContentType.typing = []
kept ContentType.text = ContentType.text ∷ []
kept ContentType.advanced_text = ContentType.advanced_text ∷ []
kept ContentType.markdown = ContentType.markdown ∷ []
kept ContentType.picture = ContentType.picture ∷ []
kept ContentType.sound = ContentType.sound ∷ []
kept ContentType.video = ContentType.video ∷ []
kept ContentType.file = ContentType.file ∷ []
kept ContentType.location = ContentType.location ∷ []
kept ContentType.card = ContentType.card ∷ []
kept ContentType.at_text = ContentType.at_text ∷ []
kept ContentType.face = ContentType.face ∷ []
kept ContentType.merge = ContentType.merge ∷ []
kept ContentType.quote = ContentType.quote ∷ []
kept ContentType.custom = ContentType.custom ∷ []
kept ContentType.msg_notification = ContentType.msg_notification ∷ []
kept ContentType.unspecified = []
kept ContentType.reaction = []
kept ContentType.revoked = []
kept (ContentType.unlisted n) = []

-- The error for a message that does not have what its type asks for.
abbrev pub refusal : ContentType → BuildError
refusal ContentType.unspecified = unsupported_content_type
refusal ContentType.reaction = unsupported_content_type
refusal ContentType.revoked = unsupported_content_type
refusal (ContentType.unlisted n) = unsupported_content_type
refusal ContentType.text = nil_elem ContentType.text
refusal ContentType.advanced_text = nil_elem ContentType.advanced_text
refusal ContentType.markdown = nil_elem ContentType.markdown
refusal ContentType.picture = nil_elem ContentType.picture
refusal ContentType.sound = nil_elem ContentType.sound
refusal ContentType.video = nil_elem ContentType.video
refusal ContentType.file = nil_elem ContentType.file
refusal ContentType.location = nil_elem ContentType.location
refusal ContentType.card = nil_elem ContentType.card
refusal ContentType.at_text = nil_elem ContentType.at_text
refusal ContentType.face = nil_elem ContentType.face
refusal ContentType.merge = nil_elem ContentType.merge
refusal ContentType.quote = nil_elem ContentType.quote
refusal ContentType.custom = nil_elem ContentType.custom
refusal ContentType.msg_notification = nil_elem ContentType.msg_notification
refusal ContentType.typing = nil_elem ContentType.typing
