-- ===== src/Messages/Cases.antt =====
-- module/chat/service/message.go: the cases of the switch in `BuildMessageModelFromPB`.
use Prim.Native.String.{◌++◌}
use ppchat.Prelude.{Bool, true, false, Option, none, some}
use ppchat.Messages.Wire.{
  ContentType, TextElem, PictureElem, SoundElem, VideoElem, FileElem, LocationElem, CardElem,
  NotificationElem, WireAdvancedText, WireAtText, WireFace, WireMerge, WireQuote, WireCustom,
}
use ppchat.Messages.Model.{MessageModel}
use ppchat.Messages.Copy.{
  Packages, copy_pic, copy_entities, copy_lite, copy_lite_slice, copy_at_infos, trim_preview,
  try_parse_json_map, any_to_map,
}

pub data BuildError : Type 0 where
  nil_message_data : BuildError
  nil_elem : ContentType → BuildError
  unsupported_content_type : BuildError

pub data Built (A : Type 0) : Type 0 where
  built : A → Built A
  not_built : BuildError → Built A

module _ {Float Json Struct : Type 0} (p : Packages Json Struct) where
  -- The cases of the switch, each on the pointer that it looks at.
  unfoldable pub with_text :
      MessageModel Float Json → Option TextElem → Built (MessageModel Float Json)
  unfolding trim_preview
  with_text m none = not_built (nil_elem ContentType.text)
  with_text m (some e) = built (record m {
    text_elem = some (record { content = e.content });
    content_text = trim_preview p e.content;
  })

  unfoldable pub with_advanced_text :
      MessageModel Float Json → Option WireAdvancedText → Built (MessageModel Float Json)
  unfolding trim_preview copy_entities
  with_advanced_text m none = not_built (nil_elem ContentType.advanced_text)
  with_advanced_text m (some e) = built (record m {
    advanced_text_elem =
        some
          (record { text_ = e.text_; message_entity_list = copy_entities e.message_entity_list });
    content_text = trim_preview p e.text_;
  })

  unfoldable pub with_markdown :
      MessageModel Float Json → Option TextElem → Built (MessageModel Float Json)
  unfolding trim_preview
  with_markdown m none = not_built (nil_elem ContentType.markdown)
  with_markdown m (some e) = built (record m {
    markdown_text_elem = some (record { content = e.content });
    content_text = trim_preview p e.content;
  })

  unfoldable pub with_picture :
      MessageModel Float Json → Option PictureElem → Built (MessageModel Float Json)
  unfolding copy_pic
  with_picture m none = not_built (nil_elem ContentType.picture)
  with_picture m (some e) = built (record m {
    picture_elem = some (record {
      source_picture = copy_pic e.source_picture;
      big_picture = copy_pic e.big_picture;
      snapshot_picture = copy_pic e.snapshot_picture;
    });
    content_text = "[图片]";
  })

  unfoldable pub with_sound :
      MessageModel Float Json → Option SoundElem → Built (MessageModel Float Json)
  with_sound m none = not_built (nil_elem ContentType.sound)
  with_sound m (some e) = built (record m {
    sound_elem = some (record {
      uuid = e.uuid;
      sound_path = e.sound_path;
      source_url = e.source_url;
      data_size = e.data_size;
      duration = e.duration;
      sound_type = e.sound_type;
    });
    content_text = "[语音]";
  })

  unfoldable pub with_video :
      MessageModel Float Json → Option VideoElem → Built (MessageModel Float Json)
  with_video m none = not_built (nil_elem ContentType.video)
  with_video m (some e) = built (record m {
    video_elem = some (record {
      video_path = e.video_path;
      video_uuid = e.video_uuid;
      video_url = e.video_url;
      video_type = e.video_type;
      video_size = e.video_size;
      duration = e.duration;
      snapshot_path = e.snapshot_path;
      snapshot_uuid = e.snapshot_uuid;
      snapshot_size = e.snapshot_size;
      snapshot_url = e.snapshot_url;
      snapshot_width = e.snapshot_width;
      snapshot_height = e.snapshot_height;
      snapshot_type = e.snapshot_type;
    });
    content_text = "[视频]";
  })

  unfoldable pub with_file :
      MessageModel Float Json → Option FileElem → Built (MessageModel Float Json)
  with_file m none = not_built (nil_elem ContentType.file)
  with_file m (some e) = built (record m {
    file_elem = some (record {
      uuid = e.uuid;
      source_url = e.source_url;
      file_name = e.file_name;
      file_size = e.file_size;
      file_type = e.file_type;
    });
    content_text = "[文件] " ++ e.file_name;
  })

  unfoldable pub with_location :
      MessageModel Float Json → Option (LocationElem Float) → Built (MessageModel Float Json)
  with_location m none = not_built (nil_elem ContentType.location)
  with_location m (some e) = built (record m {
    location_elem =
        some
          (record { description = e.description; longitude = e.longitude; latitude = e.latitude });
    content_text = "[位置] " ++ e.description;
  })

  unfoldable pub with_card :
      MessageModel Float Json → Option CardElem → Built (MessageModel Float Json)
  with_card m none = not_built (nil_elem ContentType.card)
  with_card m (some e) = built (record m {
    card_elem =
        some
          (record { user_id = e.user_id; nickname = e.nickname; face_url = e.face_url; ex = e.ex });
    content_text = "[名片] " ++ e.nickname;
  })

  unfoldable pub with_at_text :
      MessageModel Float Json → Option WireAtText → Built (MessageModel Float Json)
  unfolding trim_preview copy_at_infos copy_lite
  with_at_text m none = not_built (nil_elem ContentType.at_text)
  with_at_text m (some e) = built (record m {
    at_text_elem = some (record {
      text_ = e.text_;
      at_user_list = e.at_user_list;
      at_users_info = copy_at_infos e.at_users_info;
      quote_message = copy_lite e.quote_message;
      is_at_self = e.is_at_self;
    });
    content_text = trim_preview p e.text_;
  })

  unfoldable pub with_face :
      MessageModel Float Json → Option (WireFace Struct) → Built (MessageModel Float Json)
  unfolding try_parse_json_map
  with_face m none = not_built (nil_elem ContentType.face)
  with_face m (some e) = built (record m {
    face_elem = some (record { index = e.index; data_ = try_parse_json_map p (p.format e.data_) });
    content_text = "[表情]";
  })

  unfoldable pub with_merge :
      MessageModel Float Json → Option WireMerge → Built (MessageModel Float Json)
  unfolding copy_lite_slice copy_entities
  with_merge m none = not_built (nil_elem ContentType.merge)
  with_merge m (some e) = built (record m {
    merge_elem = some (record {
      title = e.title;
      abstract_list = e.abstract_list;
      multi_message = copy_lite_slice e.multi_message;
      message_entity_list = copy_entities e.message_entity_list;
    });
    content_text = "[合并转发] " ++ e.title;
  })

  unfoldable pub with_quote :
      MessageModel Float Json → Option WireQuote → Built (MessageModel Float Json)
  unfolding trim_preview copy_lite
  with_quote m none = not_built (nil_elem ContentType.quote)
  with_quote m (some e) = built (record m {
    quote_elem = some (record { text_ = e.text_; quote_message = copy_lite e.quote_message });
    content_text = trim_preview p e.text_;
  })

  unfoldable pub with_custom :
      MessageModel Float Json → Option (WireCustom Struct) → Built (MessageModel Float Json)
  unfolding any_to_map
  with_custom m none = not_built (nil_elem ContentType.custom)
  with_custom m (some e) = built (record m {
    custom_elem = some (record {
      data_ = any_to_map p e.data_;
      description = e.description;
      extension = e.extension;
    });
    content_text = "[自定义] " ++ e.description;
  })

  unfoldable pub with_msg_notification :
      MessageModel Float Json → Option NotificationElem → Built (MessageModel Float Json)
  with_msg_notification m none = not_built (nil_elem ContentType.msg_notification)
  with_msg_notification m (some e) =
      built (record m {
        notification_elem = some (record { detail = e.detail });
        content_text = "[通知]";
      })

  -- The element of a message that is being typed is not stored.
  unfoldable pub with_typing : MessageModel Float Json → Bool → Built (MessageModel Float Json)
  with_typing m false = not_built (nil_elem ContentType.typing)
  with_typing m true = built (record m { content_text = "[正在输入]" })
