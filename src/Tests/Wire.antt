-- ===== src/Tests/Wire.antt =====
-- Decoders at concrete replies.
use mini_discord.Prelude.{◌≡◌, refl, [], ◌∷◌, none, some, inl, inr}
use mini_discord.Json.{str}
use mini_discord.Wire.{Message, LinkPreview, Server}
use mini_discord.Wire.Decode.{to_message}
use mini_discord.Wire.Decode.RoundTrip.{encode_message, IsWireMessage, to_message-encode}

abbrev link : LinkPreview
link = record {
  url = "https://x.org";
  title = none;
  description = none;
  site_name = none;
  image_token = none;
}

abbrev reply : Message
reply = record {
  id = 5;
  channel_id = 2;
  author_id = 9;
  author_first_name = str "A";
  author_last_name = str "B";
  author_nickname = str "";
  author_avatar_url = "";
  content = "hi";
  attachments = none;
  reply_to_id = some (some 3);
  reply_to = none;
  mentions = some (4 ∷ []);
  mentions_everyone = none;
  embeds = link ∷ [];
  created_at = "2026";
  edited_at = none;
}

reply-IsWireMessage : IsWireMessage reply
reply-IsWireMessage = record {
  first_name = "A";
  has_first_name = refl;
  last_name = "B";
  has_last_name = refl;
  nickname = "";
  has_nickname = refl;
  attachment_urls = tt;
  embed_urls = (refl, tt);
  reply_id = inr (3, refl);
  reply = inl refl;
}

to_message-encode_example : to_message "" (encode_message reply) ≡ some reply
to_message-encode_example = to_message-encode "" reply reply-IsWireMessage

abbrev server : Server
server = record { id = 1; name = "s"; owner_id = 2 }
