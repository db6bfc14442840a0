-- ===== src/Wire/Decode.antt =====
-- The decoders of frontend/src/services/chatSocket.ts: `parseAttachments`, `parseEmbeds`,
-- `toMessage`, `toDMChannel`. The clock's `new Date().toISOString()` is the argument `now`.
pub mod RoundTrip
use mini_discord.Prelude.{
  ℕ, String, str_eq, Bool, false, not, List, [], ◌∷◌, map, Option, none, some, if◌then◌else◌, keep,
}
use mini_discord.Json.{
  Json, undefined, null, bool, str, get, is_object, js_or, js_coalesce, as_number, as_string,
  as_bool, as_array,
}
use mini_discord.Wire.{Attachment, LinkPreview, ReplyPreview, Message, DmChannel}

infixl 5 ◌>>=◌
abbrev pub ◌>>=◌ {ℓ κ} : {A : Type ℓ} {B : Type κ} → Option A → (A → Option B) → Option B
none >>= f = none
some a >>= f = f a

-- `o ?? d`
abbrev pub or_default {ℓ} : {A : Type ℓ} → Option A → A → A
or_default none d = d
or_default (some a) d = a

-- `typeof v === "string" ? v : ""`
abbrev pub text_of : Json → String
text_of v = or_default (as_string v) ""

abbrev pub filter_map {ℓ κ} : {A : Type ℓ} {B : Type κ} → (A → Option B) → List A → List B
filter_map f [] = []
filter_map f (x ∷ xs) = let rest = filter_map f xs in elim (f x) [ none ↦ rest | some y ↦ y ∷ rest ]

abbrev pub has_url : String → Bool
has_url url = not (str_eq url "")

abbrev to_attachment : Json → Attachment
to_attachment item = record {
  url = text_of (get "url" item);
  file_name = text_of (get "file_name" item);
  content_type = text_of (get "content_type" item);
}

abbrev attachments_of : Option (List Json) → Option (List Attachment)
attachments_of none = none
attachments_of (some items) =
    some (keep (λ a. has_url a.url) (map to_attachment (keep is_object items)))

unfoldable pub parse_attachments : Json → Option (List Attachment)
parse_attachments raw = attachments_of (as_array raw)

abbrev to_embed : Json → LinkPreview
to_embed item = record {
  url = text_of (get "url" item);
  title = as_string (get "title" item);
  description = as_string (get "description" item);
  site_name = as_string (get "site_name" item);
  image_token = as_string (get "image_token" item);
}

abbrev embeds_of : Option (List Json) → List LinkPreview
embeds_of none = []
embeds_of (some items) = keep (λ e. has_url e.url) (map to_embed (keep is_object items))

unfoldable pub parse_embeds : Json → List LinkPreview
parse_embeds raw = embeds_of (as_array raw)

-- `typeof v === "string" && v`
abbrev only_string : Json → Json
only_string (str s) = str s
only_string _ = bool false

-- `v ?? ""`
abbrev or_empty : Json → Json
or_empty v = js_coalesce v (str "")

unfoldable pub author_first_name : Json → Json
author_first_name m = js_or (only_string (get "author_first_name" m)) (
    js_or (or_empty (get "first_name" (get "author" m))) (
      js_or (or_empty (get "firstName" (get "author" m))) (
        js_or (only_string (get "first_name" m))
          (js_or (only_string (get "authorFirstName" m)) (str "")))))

unfoldable pub author_last_name : Json → Json
author_last_name m = js_or (only_string (get "author_last_name" m)) (
    js_or (or_empty (get "last_name" (get "author" m))) (
      js_or (or_empty (get "lastName" (get "author" m))) (
        js_or (only_string (get "last_name" m))
          (js_or (only_string (get "authorLastName" m)) (str "")))))

unfoldable pub author_nickname : Json → Json
author_nickname m = js_or (only_string (get "author_nickname" m)) (
    js_or (or_empty (get "nickname" (get "author" m))) (
      js_or (or_empty (get "nickName" (get "author" m)))
        (js_or (only_string (get "nickname" m)) (str ""))))

-- `(typeof v === "string" && v) || rest`, where `rest` is a string
abbrev text_or : Json → String → String
text_or (str s) rest = if str_eq s "" then rest else s
text_or _ rest = rest

unfoldable pub author_avatar_url : Json → String
author_avatar_url m = text_or (get "author_avatar_url" m) (
    text_or (get "auuthor_avatar_url" m)
      (text_or (get "authorAvatarUrl" m) (text_or (get "avatar_url" m) "")))

abbrev to_reply_id : Json → Option (Option ℕ)
to_reply_id undefined = none
to_reply_id null = none
to_reply_id v = some (as_number v)

abbrev reply_preview : Json → ℕ → ReplyPreview
reply_preview r message_id = record {
  message_id = message_id;
  author_id = or_default (as_number (get "author_id" r)) 0;
  author_first_name = text_of (get "author_first_name" r);
  author_last_name = text_of (get "author_last_name" r);
  author_nickname = as_string (get "author_nickname" r);
  content = text_of (get "content" r);
  has_attachments = or_default (as_bool (get "has_attachments" r)) false;
}

abbrev null_if_null_id : Option (Option ℕ) → Option (Option ReplyPreview)
null_if_null_id (some none) = some none
null_if_null_id _ = none

abbrev preview_of : Json → Option ℕ → Option (Option ReplyPreview)
preview_of r none = none
preview_of r (some message_id) = some (some (reply_preview r message_id))

-- `replyTo`, from `candidate.reply_to` and `replyToId`.
unfoldable pub to_reply : Json → Option (Option ℕ) → Option (Option ReplyPreview)
to_reply undefined id = null_if_null_id id
to_reply null id = null_if_null_id id
to_reply r id = preview_of r (as_number (get "message_id" r))

unfoldable pub to_mentions : Json → Option (List ℕ)
to_mentions raw = elim (as_array raw) [
  | none ↦ none
  | some items ↦ some (filter_map as_number items)
]

unfoldable pub to_message : String → Json → Option Message
to_message now raw = if not (is_object raw) then none else do
  channel_id ← as_number (get "channel_id" raw)
  author_id ← as_number (get "author_id" raw)
  content ← as_string (get "content" raw)
  let reply_to_id = to_reply_id (get "reply_to_id" raw)
  some (record {
    id = or_default (as_number (get "id" raw)) 0;
    channel_id = channel_id;
    author_id = author_id;
    author_first_name = author_first_name raw;
    author_last_name = author_last_name raw;
    author_nickname = author_nickname raw;
    author_avatar_url = author_avatar_url raw;
    content = content;
    attachments = parse_attachments (get "attachments" raw);
    reply_to_id = reply_to_id;
    reply_to = to_reply (get "reply_to" raw) reply_to_id;
    mentions = to_mentions (get "mentions" raw);
    mentions_everyone = as_bool (get "mentions_everyone" raw);
    embeds = parse_embeds (get "embeds" raw);
    created_at = or_default (as_string (get "created_at" raw)) now;
    edited_at = as_string (get "edited_at" raw);
  })

unfoldable pub to_dm_channel : Json → Option DmChannel
to_dm_channel raw = if not (is_object raw) then none else do
  channel_id ← as_number (get "channel_id" raw)
  peer_user_id ← as_number (get "peer_user_id" raw)
  some (record {
    channel_id = channel_id;
    peer_user_id = peer_user_id;
    peer_nickname = text_of (get "peer_nickname" raw);
    peer_avatar_url = as_string (get "peer_avatar_url" raw);
    last_message_at = as_string (get "last_message_at" raw);
  })
