-- ===== src/Wire.antt =====
-- The entities of frontend/src/types/chat.ts that the socket decodes.
-- An optional field is an `Option`; a field that may be `undefined`, `null` or present is an
-- `Option` of an `Option`. `toMessage` takes some author names over without a type test, so these
-- fields hold a dynamic value.
pub mod Decode
pub mod Responses
use mini_discord.Prelude.{ℕ, String, Bool, List, Option}
use mini_discord.Json.{Json}

pub record Attachment : Type 0 where
  pub url : String
  pub file_name : String
  pub content_type : String

pub record LinkPreview : Type 0 where
  pub url : String
  pub title : Option String
  pub description : Option String
  pub site_name : Option String
  pub image_token : Option String

pub record ReplyPreview : Type 0 where
  pub message_id : ℕ
  pub author_id : ℕ
  pub author_first_name : String
  pub author_last_name : String
  pub author_nickname : Option String
  pub content : String
  pub has_attachments : Bool

pub record Message : Type 0 where
  pub id : ℕ
  pub channel_id : ℕ
  pub author_id : ℕ
  pub author_first_name : Json
  pub author_last_name : Json
  pub author_nickname : Json
  pub author_avatar_url : String
  pub content : String
  pub attachments : Option (List Attachment)
  pub reply_to_id : Option (Option ℕ)
  pub reply_to : Option (Option ReplyPreview)
  pub mentions : Option (List ℕ)
  pub mentions_everyone : Option Bool
  pub embeds : List LinkPreview
  pub created_at : String
  pub edited_at : Option String

pub record DmChannel : Type 0 where
  pub channel_id : ℕ
  pub peer_user_id : ℕ
  pub peer_nickname : String
  pub peer_avatar_url : Option String
  pub last_message_at : Option String

pub record MessageEmbedsEvent : Type 0 where
  pub channel_id : ℕ
  pub message_id : ℕ
  pub embeds : List LinkPreview

pub record MessageEditedEvent : Type 0 where
  pub channel_id : ℕ
  pub message_id : ℕ
  pub content : String
  pub edited_at : String

pub data ChannelType : Type 0 where
  text voice dm : ChannelType

pub record Channel : Type 0 where
  pub id : ℕ
  pub server_id : ℕ
  pub name : String
  pub type : ChannelType

pub record Server : Type 0 where
  pub id : ℕ
  pub name : String
  pub owner_id : ℕ

-- `detached` is set by voice events alone, no decoder reads it.
pub record VoiceParticipant : Type 0 where
  pub user_id : ℕ
  pub first_name : Option String
  pub last_name : Option String
  pub nickname : Option String
  pub avatar_url : Option String
  pub mic_enabled : Option Bool
  pub deafened : Option Bool

pub record VoiceChannelParticipants : Type 0 where
  pub channel_id : ℕ
  pub participants : List VoiceParticipant

pub record ServerMember : Type 0 where
  pub user_id : ℕ
  pub first_name : Option String
  pub last_name : Option String
  pub nickname : Option String
  pub avatar_url : Option String

pub record ChannelUnread : Type 0 where
  pub channel_id : ℕ
  pub server_id : ℕ
  pub unread_count : ℕ
