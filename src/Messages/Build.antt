-- ===== src/Messages/Build.antt =====
-- module/chat/service/message.go: `BuildMessageModelFromPB`.
use Prim.Native.String.{String}
use ppchat.Prelude.{ℕ, Option, none, some, []}
use ppchat.Messages.Wire.{ContentType, MessageData}
use ppchat.Messages.Model.{MessageModel}
use ppchat.Messages.Copy.{Packages, nz64, bool2i, copy_push, try_parse_json_map}
use ppchat.Messages.Cases.{
  Built, not_built, nil_message_data, unsupported_content_type, with_text, with_advanced_text,
  with_markdown, with_picture, with_sound, with_video, with_file, with_location, with_card,
  with_at_text, with_face, with_merge, with_quote, with_custom, with_msg_notification, with_typing,
}

module _ {Float Json Struct : Type 0} (p : Packages Json Struct) where
  -- The message before its content.
  unfoldable pub base_model :
      String → String → ℕ → MessageData Float Struct → ℕ → String → MessageModel Float Json
  unfolding nz64 bool2i copy_push try_parse_json_map
  base_model tenant_id server_id now md seq_num conversation_id = record {
    id = none;
    tenant_id = tenant_id;
    client_msg_id = md.client_msg_id;
    server_msg_id = server_id;
    create_time_ms = nz64 md.create_time now;
    send_time_ms = nz64 md.send_time now;
    session_type = md.session_type;
    send_id = md.send_id;
    recv_id = md.recv_id;
    msg_from = md.msg_from;
    content_type = md.content_type;
    sender_platform_id = md.sender_platform_id;
    sender_nickname = md.sender_nickname;
    sender_face_url = md.sender_face_url;
    group_id = md.group_id;
    conversation_id = conversation_id;
    seq_num = seq_num;
    is_read = bool2i md.is_read;
    status = md.status;
    guild_id = md.guild_id;
    channel_id = md.channel_id;
    thread_id = md.thread_id;
    text_elem = none;
    advanced_text_elem = none;
    markdown_text_elem = none;
    picture_elem = none;
    sound_elem = none;
    video_elem = none;
    file_elem = none;
    location_elem = none;
    card_elem = none;
    at_text_elem = none;
    face_elem = none;
    merge_elem = none;
    quote_elem = none;
    custom_elem = none;
    notification_elem = none;
    content_text = "";
    offline_push = copy_push md.offline_push;
    attached_info = md.attached_info;
    ex = try_parse_json_map p md.ex;
    local_ex = md.local_ex;
    is_edited = bool2i md.is_edited;
    edited_at_ms = md.edited_at;
    edit_version = md.edit_version;
    expire_at_ms = md.expire_at;
    access_level = md.access_level;
    trace_id = md.trace_id;
    session_trace = md.session_id;
    tags = md.tags;
    reply_to = md.reply_to;
    is_ephemeral = bool2i md.is_ephemeral;
    rich = none;
    auto_mod = [];
    revoke = none;
  }

  unfoldable pub fill :
      MessageModel Float Json
      → MessageData Float Struct
      → ContentType
      → Built (MessageModel Float Json)
  unfolding with_text with_advanced_text with_markdown with_picture with_sound with_video with_file
      with_location with_card with_at_text with_face with_merge with_quote with_typing with_custom
      with_msg_notification
  fill m md ContentType.text = with_text p m md.text_elem
  fill m md ContentType.advanced_text = with_advanced_text p m md.advanced_text_elem
  fill m md ContentType.markdown = with_markdown p m md.markdown_text_elem
  fill m md ContentType.picture = with_picture p m md.picture_elem
  fill m md ContentType.sound = with_sound p m md.sound_elem
  fill m md ContentType.video = with_video p m md.video_elem
  fill m md ContentType.file = with_file p m md.file_elem
  fill m md ContentType.location = with_location p m md.location_elem
  fill m md ContentType.card = with_card p m md.card_elem
  fill m md ContentType.at_text = with_at_text p m md.at_text_elem
  fill m md ContentType.face = with_face p m md.face_elem
  fill m md ContentType.merge = with_merge p m md.merge_elem
  fill m md ContentType.quote = with_quote p m md.quote_elem
  fill m md ContentType.typing = with_typing p m md.typing_elem
  fill m md ContentType.custom = with_custom p m md.custom_elem
  fill m md ContentType.msg_notification = with_msg_notification p m md.notification_elem
  fill m md ContentType.unspecified = not_built unsupported_content_type
  fill m md ContentType.reaction = not_built unsupported_content_type
  fill m md ContentType.revoked = not_built unsupported_content_type
  fill m md (ContentType.unlisted n) = not_built unsupported_content_type

  -- `server_id` is what `ids.GenerateString` returns, `now` the reading of the clock.
  unfoldable pub build_message_model :
      String
      → String
      → ℕ
      → Option (MessageData Float Struct)
      → ℕ
      → String
      → Built (MessageModel Float Json)
  unfolding base_model fill
  build_message_model tenant_id server_id now none seq_num conversation_id =
      not_built nil_message_data
  build_message_model tenant_id server_id now (some md) seq_num conversation_id =
      fill (base_model tenant_id server_id now md seq_num conversation_id) md md.content_type
