-- ===== src/Messages/Wire.antt =====
-- The messages of the wire (gen/message), with the fields that module/chat/service/message.go reads. A
-- pointer that can be nil is an option; nil and empty slices are both the empty list. Floating-point
-- numbers and `google.protobuf.Struct` are types of their own.
use ppchat.Prelude.{ℕ, ℤ, pos, String, Bool, Option, List}

-- The constants of `ContentType`, and the numbers that are none of them.
pub data ContentType : Type 0 where
  unspecified text advanced_text markdown picture sound video file location card at_text face merge
        quote typing custom msg_notification reaction revoked :
      ContentType
  unlisted : ℤ → ContentType

unfoldable pub number : ContentType → ℤ
number ContentType.unspecified = pos 0
number ContentType.text = pos 101
number ContentType.advanced_text = pos 102
number ContentType.markdown = pos 103
number ContentType.picture = pos 201
number ContentType.sound = pos 202
number ContentType.video = pos 203
number ContentType.file = pos 204
number ContentType.location = pos 205
number ContentType.card = pos 301
number ContentType.at_text = pos 302
number ContentType.face = pos 303
number ContentType.merge = pos 304
number ContentType.quote = pos 305
number ContentType.typing = pos 306
number ContentType.custom = pos 399
number ContentType.msg_notification = pos 401
number ContentType.reaction = pos 402
number ContentType.revoked = pos 403
number (ContentType.unlisted n) = n

-- The elements that have the same fields on the wire and in a document.
pub record TextElem : Type 0 where
  pub content : String

pub record PictureBaseInfo : Type 0 where
  pub uuid : String
  pub type_ : String
  pub size : ℤ
  pub width : ℤ
  pub height : ℤ
  pub url : String

pub record PictureElem : Type 0 where
  pub source_picture : Option PictureBaseInfo
  pub big_picture : Option PictureBaseInfo
  pub snapshot_picture : Option PictureBaseInfo

pub record SoundElem : Type 0 where
  pub uuid : String
  pub sound_path : String
  pub source_url : String
  pub data_size : ℤ
  pub duration : ℤ
  pub sound_type : String

pub record VideoElem : Type 0 where
  pub video_path : String
  pub video_uuid : String
  pub video_url : String
  pub video_type : String
  pub video_size : ℤ
  pub duration : ℤ
  pub snapshot_path : String
  pub snapshot_uuid : String
  pub snapshot_size : ℤ
  pub snapshot_url : String
  pub snapshot_width : ℤ
  pub snapshot_height : ℤ
  pub snapshot_type : String

pub record FileElem : Type 0 where
  pub uuid : String
  pub source_url : String
  pub file_name : String
  pub file_size : ℤ
  pub file_type : String

pub record LocationElem (Float : Type 0) : Type 0 where
  pub description : String
  pub longitude : Float
  pub latitude : Float

pub record CardElem : Type 0 where
  pub user_id : String
  pub nickname : String
  pub face_url : String
  pub ex : String

pub record NotificationElem : Type 0 where
  pub detail : String

pub record MessageEntity : Type 0 where
  pub type_ : String
  pub offset : ℤ
  pub length : ℤ
  pub url : String
  pub ex : String

pub record AtInfo : Type 0 where
  pub at_user_id : String
  pub group_nickname : String

pub record OfflinePushInfo : Type 0 where
  pub title : String
  pub desc : String
  pub ex : String
  pub ios_badge_count_plus1 : Bool
  pub ios_category : String
  pub ios_sound : String
  pub android_vivo_classification : Bool

-- A message inside another, with the fields that `copyLite` reads.
pub record Quoted : Type 0 where
  pub server_msg_id : String
  pub content_type : ContentType
  pub send_time : ℕ
  pub send_id : String
  pub recv_id : String
  pub session_type : ℤ
  pub text_elem : Option TextElem

pub record WireAdvancedText : Type 0 where
  pub text_ : String
  pub message_entity_list : List (Option MessageEntity)

pub record WireAtText : Type 0 where
  pub text_ : String
  pub at_user_list : List String
  pub at_users_info : List (Option AtInfo)
  pub quote_message : Option Quoted
  pub is_at_self : Bool

pub record WireFace (Struct : Type 0) : Type 0 where
  pub index : ℤ
  pub data_ : Option Struct

pub record WireMerge : Type 0 where
  pub title : String
  pub abstract_list : List String
  pub multi_message : List (Option Quoted)
  pub message_entity_list : List (Option MessageEntity)

pub record WireQuote : Type 0 where
  pub text_ : String
  pub quote_message : Option Quoted

pub record WireCustom (Struct : Type 0) : Type 0 where
  pub data_ : Option Struct
  pub description : String
  pub extension : String

-- The times are milliseconds, 0 where the client set none. Of `typing_elem` only its presence is read.
pub record MessageData (Float Struct : Type 0) : Type 0 where
  pub client_msg_id : String
  pub create_time : ℕ
  pub send_time : ℕ
  pub session_type : ℤ
  pub send_id : String
  pub recv_id : String
  pub msg_from : ℤ
  pub content_type : ContentType
  pub sender_platform_id : ℤ
  pub sender_nickname : String
  pub sender_face_url : String
  pub group_id : String
  pub is_read : Bool
  pub status : ℤ
  pub guild_id : String
  pub channel_id : String
  pub thread_id : String
  pub attached_info : String
  pub ex : String
  pub local_ex : String
  pub is_edited : Bool
  pub edited_at : ℤ
  pub edit_version : ℤ
  pub expire_at : ℤ
  pub access_level : String
  pub trace_id : String
  pub session_id : String
  pub tags : List String
  pub reply_to : String
  pub is_ephemeral : Bool
  pub offline_push : Option OfflinePushInfo
  pub text_elem : Option TextElem
  pub advanced_text_elem : Option WireAdvancedText
  pub markdown_text_elem : Option TextElem
  pub picture_elem : Option PictureElem
  pub sound_elem : Option SoundElem
  pub video_elem : Option VideoElem
  pub file_elem : Option FileElem
  pub location_elem : Option (LocationElem Float)
  pub card_elem : Option CardElem
  pub at_text_elem : Option WireAtText
  pub face_elem : Option (WireFace Struct)
  pub merge_elem : Option WireMerge
  pub quote_elem : Option WireQuote
  pub typing_elem : Bool
  pub custom_elem : Option (WireCustom Struct)
  pub notification_elem : Option NotificationElem
