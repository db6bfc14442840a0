-- ===== src/Messages.antt =====
-- The messages of the open channels and their pages: frontend/src/hooks/useMessages.ts.
-- The hook's states are one record, its maps by channel are functions (`none` where there is no
-- entry). A request and the handling of its reply are two operations, so that events can come
-- between them. The error banner is the last message given to `setError`.
pub mod Patches
pub mod History
use mini_discord.Prelude.{
  ℕ, String, str_eq, ◌==◌, Bool, true, false, not, ◌&&◌, ◌||◌, List, [], ◌∷◌, ◌++◌, map, any,
  Option, none, some, if◌then◌else◌, keep, includes, put, is_some,
}
use mini_discord.Wire.{
  Message, ReplyPreview, MessageEmbedsEvent, MessageEditedEvent, Channel, ChannelType,
}
use mini_discord.Wire.Responses.{Window, Page}

-- `ChannelPagination`: the optional fields are `undefined`, here `none` and `false`, at first.
pub record Pagination : Type 0 where
  pub cursor : String
  pub has_more : Bool
  pub is_loading_more : Bool
  pub error : Bool
  pub newer_cursor : Option String
  pub has_more_newer : Bool
  pub is_loading_newer : Bool

pub record Messages : Type 0 where
  pub messages_by_channel : ℕ → Option (List Message)
  pub loaded_channels : ℕ → Bool
  pub pagination_by_channel : ℕ → Option Pagination
  pub channels_by_server : List (ℕ × List Channel)
  pub error : Option String

-- `prev[c] ?? []`
abbrev pub list_of : Option (List Message) → List Message
list_of none = []
list_of (some ms) = ms

abbrev pub more_newer : Option Pagination → Bool
more_newer none = false
more_newer (some p) = p.has_more_newer

-- `prev[c]` of which fields are overwritten; it is there whenever the code does so.
abbrev pub page_of : Option Pagination → Pagination
page_of (some p) = p
page_of none = record {
  cursor = "";
  has_more = false;
  is_loading_more = false;
  error = false;
  newer_cursor = none;
  has_more_newer = false;
  is_loading_newer = false;
}

abbrev pub set_messages : ℕ → List Message → Messages → Messages
set_messages c ms s = record s { messages_by_channel = put c (some ms) s.messages_by_channel }

abbrev pub set_page : ℕ → Pagination → Messages → Messages
set_page c p s = record s { pagination_by_channel = put c (some p) s.pagination_by_channel }

-- What the hook reads of the rest of the page; `show` is `String` on numbers.
pub record Context : Type 0 where
  pub selected_server_id : ℕ
  pub dm_channel_ids : List ℕ
  pub show : ℕ → String

abbrev pub knows_channel : ℕ → List (ℕ × List Channel) → Bool
knows_channel c servers = any (λ kv. any (λ ch. ch.id == c) kv.1) servers

abbrev append_channel : ℕ → Channel → List (ℕ × List Channel) → List (ℕ × List Channel)
append_channel server ch [] = (server, ch ∷ []) ∷ []
append_channel server ch (kv ∷ rest) =
    let tail = append_channel server ch rest in
    if kv.0 == server then (server, kv.1 ++ ch ∷ []) ∷ rest else kv ∷ tail

abbrev add_placeholder : Context → ℕ → List (ℕ × List Channel) → List (ℕ × List Channel)
add_placeholder ctx c servers =
    if knows_channel c servers || ctx.selected_server_id == 0 || includes c ctx.dm_channel_ids
    then servers
    else append_channel ctx.selected_server_id
        (record {
          id = c;
          server_id = ctx.selected_server_id;
          name = ctx.show c;
          type = ChannelType.text;
        })
        servers

-- `socket.onMessage`
unfoldable pub incoming : Context → Message → Messages → Messages
incoming ctx message s =
    let c = message.channel_id in
    if more_newer (s.pagination_by_channel c) then s else record s {
      messages_by_channel =
          put c (some (list_of (s.messages_by_channel c) ++ message ∷ [])) s.messages_by_channel;
      channels_by_server = add_placeholder ctx c s.channels_by_server;
    }

-- The first message with the id.
abbrev pub set_embeds : MessageEmbedsEvent → List Message → List Message
set_embeds event [] = []
set_embeds event (message ∷ rest) =
    let later = set_embeds event rest in
    if message.id == event.message_id
    then record message { embeds = event.embeds } ∷ rest
    else message ∷ later

abbrev pub patch : (List Message → List Message) → Option (List Message) → Option (List Message)
patch f none = none
patch f (some ms) = some (f ms)

abbrev pub patch_channel :
    (List Message → List Message) → ℕ → (ℕ → Option (List Message)) → ℕ → Option (List Message)
patch_channel f c by_channel = put c (patch f (by_channel c)) by_channel

-- `socket.onMessageEmbeds`
unfoldable pub embeds_arrived : MessageEmbedsEvent → Messages → Messages
embeds_arrived event s = record s {
  messages_by_channel = patch_channel (set_embeds event) event.channel_id s.messages_by_channel;
}

abbrev requote : MessageEditedEvent → Option (Option ReplyPreview) → Option (Option ReplyPreview)
requote event (some (some reply)) =
    if reply.message_id == event.message_id
    then some (some (record reply { content = event.content }))
    else some (some reply)
requote event other = other

abbrev pub edit_message : MessageEditedEvent → Message → Message
edit_message event message =
    if message.id == event.message_id
    then record message { content = event.content; edited_at = some event.edited_at }
    else record message { reply_to = requote event message.reply_to }

-- `socket.onMessageEdited`
unfoldable pub edit_arrived : MessageEditedEvent → Messages → Messages
edit_arrived event s = record s {
  messages_by_channel =
      patch_channel (map (edit_message event)) event.channel_id s.messages_by_channel;
}

abbrev fresh_page : String → Bool → Pagination
fresh_page cursor has_more = record (page_of none) { cursor = cursor; has_more = has_more }

-- The first load of a channel: whether it is requested, and its reply.
unfoldable pub wants_load : Bool → ℕ → Messages → Bool
wants_load is_connected c s = not (c == 0) && is_connected && not (s.loaded_channels c)

unfoldable pub load_arrived : ℕ → Page → Messages → Messages
load_arrived c page s =
    record (set_page c (fresh_page page.next_cursor page.has_more)
      (set_messages c page.messages s)) { loaded_channels = put c true s.loaded_channels }

abbrev set_error : String → Messages → Messages
set_error message s = record s { error = some message }

-- The `catch` of the first load, of the jump and of the reset.
unfoldable pub load_failed : String → Messages → Messages
load_failed message s = set_error message s

-- `loadOlderMessages` up to its request, with the cursor it asks for, and after the reply.
abbrev older_cursor : Option Pagination → Option String
older_cursor none = none
older_cursor (some p) =
    if p.is_loading_more || not p.has_more || str_eq p.cursor "" then none else some p.cursor

abbrev start_older : Option String → ℕ → Messages → Messages
start_older none c s = s
start_older (some cursor) c s =
    set_page c
      (record (page_of (s.pagination_by_channel c)) { is_loading_more = true; error = false }) s

unfoldable pub load_older : Bool → ℕ → Messages → Option String × Messages
load_older is_connected c s =
    let cursor =
      if not is_connected || c == 0 then none else older_cursor (s.pagination_by_channel c) in
    (cursor, start_older cursor c s)

unfoldable pub older_arrived : ℕ → Page → Messages → Messages
older_arrived c page s =
    set_page c
      (record (page_of (s.pagination_by_channel c)) {
        cursor = page.next_cursor;
        has_more = page.has_more;
        is_loading_more = false;
        error = false;
      })
      (set_messages c (page.messages ++ list_of (s.messages_by_channel c)) s)

unfoldable pub older_failed : ℕ → Messages → Messages
older_failed c s =
    set_page c
      (record (page_of (s.pagination_by_channel c)) { is_loading_more = false; error = true }) s

-- `loadNewerMessages`
abbrev non_empty : Option String → Option String
non_empty none = none
non_empty (some cursor) = if str_eq cursor "" then none else some cursor

abbrev newer_cursor_of : Option Pagination → Option String
newer_cursor_of none = none
newer_cursor_of (some p) =
    if p.is_loading_newer || not p.has_more_newer then none else non_empty p.newer_cursor

abbrev start_newer : Option String → ℕ → Messages → Messages
start_newer none c s = s
start_newer (some cursor) c s =
    set_page c (record (page_of (s.pagination_by_channel c)) { is_loading_newer = true }) s

unfoldable pub load_newer : Bool → ℕ → Messages → Option String × Messages
load_newer is_connected c s =
    let cursor =
      if not is_connected || c == 0 then none else newer_cursor_of (s.pagination_by_channel c) in
    (cursor, start_newer cursor c s)

unfoldable pub newer_arrived : ℕ → Page → Messages → Messages
newer_arrived c page s =
    set_page c
      (record (page_of (s.pagination_by_channel c)) {
        newer_cursor = some page.next_cursor;
        has_more_newer = page.has_more;
        is_loading_newer = false;
      })
      (set_messages c (list_of (s.messages_by_channel c) ++ page.messages) s)

unfoldable pub newer_failed : ℕ → Messages → Messages
newer_failed c s =
    set_page c (record (page_of (s.pagination_by_channel c)) { is_loading_newer = false }) s

-- `jumpToMessage`: what it returns at once, or `none` where it asks for the window.
unfoldable pub jump_to_message : Bool → ℕ → ℕ → Messages → Option Bool × Messages
jump_to_message is_connected c m s =
    if not is_connected || c == 0 || m == 0
    then (some false, s)
    else if any (λ message. message.id == m) (list_of (s.messages_by_channel c))
    then (some true, s)
    else (none, record s { loaded_channels = put c true s.loaded_channels })

unfoldable pub window_arrived : ℕ → Window → Messages → Messages
window_arrived c w s =
    set_page c
      (record {
        cursor = w.older_cursor;
        has_more = w.has_more_older;
        is_loading_more = false;
        error = false;
        newer_cursor = some w.newer_cursor;
        has_more_newer = w.has_more_newer;
        is_loading_newer = false;
      })
      (set_messages c w.messages s)

-- `resetToLiveTail`, after its reply
unfoldable pub tail_arrived : ℕ → Page → Messages → Messages
tail_arrived c page s =
    set_page c (fresh_page page.next_cursor page.has_more) (set_messages c page.messages s)

-- `handleDeleteMessage`: the message goes at once; when the server refuses, the channel is loaded
-- again, and the error shows.
unfoldable pub delete_message : Bool → ℕ → ℕ → Messages → Messages
delete_message is_connected m c s =
    if not is_connected then set_error "No connection" s else record s {
      messages_by_channel =
          patch_channel (keep (λ message. not (message.id == m))) c s.messages_by_channel;
    }

unfoldable pub delete_failed : String → ℕ → Option Page → Messages → Messages
delete_failed error c none s = set_error error s
delete_failed error c (some page) s = set_messages c page.messages (set_error error s)
