-- ===== src/Messages/Copy.antt =====
-- module/chat/service/message.go and tools/common.go: the helpers of `BuildMessageModelFromPB`.
use Prim.Native.String.{String, ◌++◌}
use ppchat.Prelude.{
  ℕ, zero, suc, ltb, Bool, true, false, Option, none, some, List, [], ◌∷◌, ◌==◌, if◌then◌else◌, ite,
  str_dec,
}
use ppchat.Messages.Wire.{TextElem, PictureBaseInfo, MessageEntity, AtInfo, OfflinePushInfo, Quoted}
use ppchat.Messages.Model.{MessageLite}

-- The packages: `strings.TrimSpace`, `AsMap` and `protojson.Format` of a struct, and `json.Unmarshal`
-- into a map, `none` where it fails.
pub record Packages (Json Struct : Type 0) : Type 0 where
  pub trim_space : String → String
  pub as_map : Struct → Json
  pub format : Option Struct → String
  pub unmarshal : String → Option Json

-- tools/common.go
unfoldable pub nz64 : ℕ → ℕ → ℕ
nz64 v d = if v == 0 then d else v

unfoldable pub bool2i : Bool → ℕ
bool2i true = 1
bool2i false = 0

-- `len([]rune(s))` and `string([]rune(s)[:n])`
unfoldable pub rune_count : String → ℕ
rune_count String.[] = 0
rune_count (String.◌∷◌ c s) = suc (rune_count s)

unfoldable pub first_runes : ℕ → String → String
first_runes zero s = ""
first_runes (suc n) String.[] = ""
first_runes (suc n) (String.◌∷◌ c s) = String.◌∷◌ c (first_runes n s)

unfoldable pub preview : String → String
unfolding rune_count first_runes
preview s = if ltb 120 (rune_count s) then first_runes 120 s ++ "…" else s

unfoldable pub copy_pic : Option PictureBaseInfo → Option PictureBaseInfo
copy_pic none = none
copy_pic (some p) = some (record {
  uuid = p.uuid;
  type_ = p.type_;
  size = p.size;
  width = p.width;
  height = p.height;
  url = p.url;
})

unfoldable pub copy_entities : List (Option MessageEntity) → List MessageEntity
copy_entities [] = []
copy_entities (none ∷ src) = copy_entities src
copy_entities (some e ∷ src) =
    record { type_ = e.type_; offset = e.offset; length = e.length; url = e.url; ex = e.ex }
    ∷ copy_entities src

abbrev pub copy_text : Option TextElem → Option TextElem
copy_text none = none
copy_text (some e) = some (record { content = e.content })

unfoldable pub copy_lite : Option Quoted → Option MessageLite
copy_lite none = none
copy_lite (some m) = some (record {
  server_msg_id = m.server_msg_id;
  content_type = m.content_type;
  text_elem = copy_text m.text_elem;
  send_time_ms = m.send_time;
  send_id = m.send_id;
  recv_id = m.recv_id;
  session_type = m.session_type;
})

unfoldable pub copy_lite_slice : List (Option Quoted) → List (Option MessageLite)
unfolding copy_lite
copy_lite_slice [] = []
copy_lite_slice (x ∷ list) = copy_lite x ∷ copy_lite_slice list

unfoldable pub copy_at_infos : List (Option AtInfo) → List AtInfo
copy_at_infos [] = []
copy_at_infos (none ∷ src) = copy_at_infos src
copy_at_infos (some a ∷ src) =
    record { at_user_id = a.at_user_id; group_nickname = a.group_nickname } ∷ copy_at_infos src

unfoldable pub copy_push : Option OfflinePushInfo → Option OfflinePushInfo
copy_push none = none
copy_push (some o) = some (record {
  title = o.title;
  desc = o.desc;
  ex = o.ex;
  ios_badge_count_plus1 = o.ios_badge_count_plus1;
  ios_category = o.ios_category;
  ios_sound = o.ios_sound;
  android_vivo_classification = o.android_vivo_classification;
})

module _ {Json Struct : Type 0} (p : Packages Json Struct) where
  unfoldable pub trim_preview : String → String
  unfolding preview
  trim_preview s = preview (p.trim_space s)

  unfoldable pub try_parse_json_map : String → Option Json
  try_parse_json_map v = ite (str_dec (p.trim_space v) "") none (p.unmarshal v)

  unfoldable pub any_to_map : Option Struct → Option Json
  any_to_map none = none
  any_to_map (some s) = some (p.as_map s)
