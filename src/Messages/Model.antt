-- ===== src/Messages/Model.antt =====
-- `MessageModel` of module/chat/model/msg.go, the document of a message.
use ppchat.Prelude.{ℕ, ℤ, String, Bool, Option, List}
use ppchat.Messages.Wire.{
  ContentType, TextElem, PictureElem, SoundElem, VideoElem, FileElem, LocationElem, CardElem,
  NotificationElem, MessageEntity, AtInfo, OfflinePushInfo,
}

pub record MessageLite : Type 0 where
  pub server_msg_id : String
  pub content_type : ContentType
  pub text_elem : Option TextElem
  pub send_time_ms : ℕ
  pub send_id : String
  pub recv_id : String
  pub session_type : ℤ

pub record AdvancedTextElem : Type 0 where
  pub text_ : String
  pub message_entity_list : List MessageEntity

pub record MarkdownTextElem : Type 0 where
  pub content : String

pub record AtTextElem : Type 0 where
  pub text_ : String
  pub at_user_list : List String
  pub at_users_info : List AtInfo
  pub quote_message : Option MessageLite
  pub is_at_self : Bool

-- A `map[string]interface{}` that can be nil.
pub record FaceElem (Json : Type 0) : Type 0 where
  pub index : ℤ
  pub data_ : Option Json

pub record MergeElem : Type 0 where
  pub title : String
  pub abstract_list : List String
  pub multi_message : List (Option MessageLite)
  pub message_entity_list : List MessageEntity

pub record QuoteElem : Type 0 where
  pub text_ : String
  pub quote_message : Option MessageLite

pub record CustomElem (Json : Type 0) : Type 0 where
  pub data_ : Option Json
  pub description : String
  pub extension : String

pub record RevokeModel : Type 0 where
  pub role : ℤ
  pub user_id : String
  pub nickname : String
  pub time : ℤ

-- `id` is `none` where it is the zero ObjectID.
pub record MessageModel (Float Json : Type 0) : Type 0 where
  pub id : Option String
  pub tenant_id : String
  pub client_msg_id : String
  pub server_msg_id : String
  pub create_time_ms : ℕ
  pub send_time_ms : ℕ
  pub session_type : ℤ
  pub send_id : String
  pub recv_id : String
  pub msg_from : ℤ
  pub content_type : ContentType
  pub sender_platform_id : ℤ
  pub sender_nickname : String
  pub sender_face_url : String
  pub group_id : String
  pub conversation_id : String
  pub seq_num : ℕ
  pub is_read : ℕ
  pub status : ℤ
  pub guild_id : String
  pub channel_id : String
  pub thread_id : String
  pub text_elem : Option TextElem
  pub advanced_text_elem : Option AdvancedTextElem
  pub markdown_text_elem : Option MarkdownTextElem
  pub picture_elem : Option PictureElem
  pub sound_elem : Option SoundElem
  pub video_elem : Option VideoElem
  pub file_elem : Option FileElem
  pub location_elem : Option (LocationElem Float)
  pub card_elem : Option CardElem
  pub at_text_elem : Option AtTextElem
  pub face_elem : Option (FaceElem Json)
  pub merge_elem : Option MergeElem
  pub quote_elem : Option QuoteElem
  pub custom_elem : Option (CustomElem Json)
  pub notification_elem : Option NotificationElem
  pub content_text : String
  pub offline_push : Option OfflinePushInfo
  pub attached_info : String
  pub ex : Option Json
  pub local_ex : String
  pub is_edited : ℕ
  pub edited_at_ms : ℤ
  pub edit_version : ℤ
  pub expire_at_ms : ℤ
  pub access_level : String
  pub trace_id : String
  pub session_trace : String
  pub tags : List String
  pub reply_to : String
  pub is_ephemeral : ℕ
  pub rich : Option Json
  pub auto_mod : List Json
  pub revoke : Option RevokeModel
