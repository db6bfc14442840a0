-- ===== src/Socket/Dispatch.antt =====
-- `ws.onmessage` and `handleSocketError` of frontend/src/services/chatSocket.ts.
pub mod Induction
pub mod Replies
use mini_discord.Prelude.{
  ℕ, String, str_eq, ◌==◌, Bool, true, false, not, ◌&&◌, Option, none, some, if◌then◌else◌, is_some,
}
use mini_discord.Json.{
  Json, str, obj, end, field, get, is_number, is_string, as_number, as_string, as_array, js_or,
  js_coalesce,
}
use mini_discord.Text.{lower_contains}
use mini_discord.Wire.{DmChannel}
use mini_discord.Wire.Decode.{to_message, to_dm_channel, parse_embeds, ◌>>=◌, or_default}
use mini_discord.Socket.{
  ChatSocket, PendingCommand, resolved, rejected, server_error, Emission, emit, finish,
}

-- The field `request_id` of what the server sends: absent or empty, the text `r${n}`, or another.
pub data EchoedId : Type 0 where
  missing foreign : EchoedId
  own : ℕ → EchoedId

pub record WsServerEvent : Type 0 where
  pub event : Json
  pub request_id : EchoedId
  pub error : Json
  pub content : Json

-- `requestId && requestId !== expected`
abbrev pub is_stale : EchoedId → ℕ → Bool
is_stale missing n = false
is_stale foreign n = true
is_stale (own m) n = not (m == n)

pub data EventKind : Type 0 where
  message message_embeds message_edited voice_participants : EventKind
  voice_user_joined voice_user_left voice_status_changed : EventKind
  voice_user_detached voice_user_resumed typing_start typing_stop : EventKind
  dm_opened dm_list dm_closed user_search : EventKind
  sfu_offer sfu_answer sfu_candidate sfu_track_published sfu_track_unpublished : EventKind
  sfu_active_speakers sfu_error sfu_session_closed error ack other : EventKind

abbrev late_kind : String → EventKind
late_kind e =
    if str_eq e "sfu_offer"
    then sfu_offer
    else if str_eq e "sfu_answer"
    then sfu_answer
    else if str_eq e "sfu_candidate"
    then sfu_candidate
    else if str_eq e "sfu_track_published"
    then sfu_track_published
    else if str_eq e "sfu_track_unpublished"
    then sfu_track_unpublished
    else if str_eq e "sfu_active_speakers"
    then sfu_active_speakers
    else if str_eq e "sfu_error"
    then sfu_error
    else if str_eq e "sfu_session_closed"
    then sfu_session_closed
    else if str_eq e "error"
    then error
    else if str_eq e "ack"
    then ack
    else other

abbrev early_kind : String → EventKind
early_kind e =
    if str_eq e "message"
    then message
    else if str_eq e "message_embeds"
    then message_embeds
    else if str_eq e "message_edited"
    then message_edited
    else if str_eq e "voice_participants"
    then voice_participants
    else if str_eq e "voice_user_joined"
    then voice_user_joined
    else if str_eq e "voice_user_left"
    then voice_user_left
    else if str_eq e "voice_status_changed"
    then voice_status_changed
    else if str_eq e "voice_user_detached"
    then voice_user_detached
    else if str_eq e "voice_user_resumed"
    then voice_user_resumed
    else if str_eq e "typing_start"
    then typing_start
    else if str_eq e "typing_stop"
    then typing_stop
    else if str_eq e "dm_opened"
    then dm_opened
    else if str_eq e "dm_list"
    then dm_list
    else if str_eq e "dm_closed"
    then dm_closed
    else if str_eq e "user_search"
    then user_search
    else late_kind e

-- The order of the tests of `parsed.event`.
unfoldable pub kind_of : Json → EventKind
kind_of (str e) = early_kind e
kind_of _ = other

abbrev pub action_of : Option PendingCommand → Option String
action_of none = none
action_of (some p) = some p.action

-- `pending?.action === action`
abbrev pub pending_is : String → Option PendingCommand → Bool
pending_is action none = false
pending_is action (some p) = str_eq p.action action

-- A reply that is known by its event: resolves the pending command if it has the given action.
reply_to : Option PendingCommand → Bool → Json → ChatSocket → ChatSocket
unfolding finish
reply_to none fits content s = s
reply_to (some p) fits content s = if fits then finish p (resolved content) s else s

-- `text.toLowerCase().includes("unknown action")`; `none` where `text` is no string, and the call
-- throws.
abbrev unknown_action : Json → Option Bool
unknown_action (str text) = some (lower_contains "unknown action" text)
unknown_action _ = none

abbrev report : Json → Bool → ChatSocket → ChatSocket
report text hidden s = if hidden then s else emit (Emission.error (server_error text)) s

reject_with : Option PendingCommand → Json → Bool → ChatSocket → ChatSocket
unfolding finish
reject_with none text hidden s = report text hidden s
reject_with (some p) text hidden s = report text hidden (finish p (rejected (server_error text)) s)

abbrev pub stale_for : EchoedId → Option PendingCommand → Bool
stale_for echoed none = false
stale_for echoed (some p) = is_stale echoed p.request_id

-- `handleSocketError`
unfoldable pub handle_socket_error : Json → EchoedId → ChatSocket → ChatSocket
unfolding reject_with lower_contains
handle_socket_error text echoed s =
    if stale_for echoed s.pending
    then emit (Emission.error (server_error text)) s
    else if pending_is "get_user_info" s.pending
    then elim (unknown_action text) [
      | none ↦ s
      | some unsupported ↦ reject_with s.pending text unsupported s
    ]
    else reject_with s.pending text false s

abbrev emit_if : Bool → Emission → ChatSocket → ChatSocket
emit_if ok e s = if ok then emit e s else s

abbrev emit_some : Option Emission → ChatSocket → ChatSocket
emit_some none s = s
emit_some (some e) s = emit e s

-- `payload && typeof payload.channel_id === "number" && payload.user && typeof
-- payload.user.user_id === "number"`
abbrev is_voice_user : Json → Bool
is_voice_user payload =
    is_number (get "channel_id" payload) && is_number (get "user_id" (get "user" payload))

abbrev is_track : Json → Bool
is_track payload = is_number (get "channel_id" payload) && is_number (get "user_id" payload)

abbrev is_session_text : String → Json → Bool
is_session_text key payload = is_string (get "session_id" payload) && is_string (get key payload)

decode_message : String → Json → Option Emission
unfolding to_message
decode_message now content = do m ← to_message now content; some (Emission.message m)

decode_embeds : Json → Option Emission
unfolding parse_embeds
decode_embeds content = do
  channel_id ← as_number (get "channel_id" content)
  message_id ← as_number (get "message_id" content)
  some (
      Emission.message_embeds (record {
        channel_id = channel_id;
        message_id = message_id;
        embeds = parse_embeds (get "embeds" content);
      }))

decode_edited : String → Json → Option Emission
decode_edited now payload = do
  channel_id ← as_number (get "channel_id" payload)
  message_id ← as_number (get "message_id" payload)
  content ← as_string (get "content" payload)
  some (
      Emission.message_edited (record {
        channel_id = channel_id;
        message_id = message_id;
        content = content;
        edited_at = or_default (as_string (get "edited_at" payload)) now;
      }))

-- `dm.peer_user_id === this.pending.openDMPeerUserId`
abbrev pub same_peer : Option PendingCommand → ℕ → Bool
same_peer none peer = false
same_peer (some p) peer = elim p.open_dm_peer_user_id [ none ↦ false | some q ↦ peer == q ]

open_dm_reply : Option DmChannel → Json → ChatSocket → ChatSocket
unfolding reply_to
open_dm_reply none content s = s
open_dm_reply (some dm) content s =
    let t = emit (Emission.dm_opened dm) s in
    reply_to t.pending (pending_is "open_dm" t.pending && same_peer t.pending dm.peer_user_id)
      content t

abbrev sfu_failure : Json → Json → Json
sfu_failure content err = js_coalesce content (
    obj (
      field "session_id" (str "")
        (field "code" (str "unknown") (field "message" (js_or err (str "SFU error")) end))))

-- `typeof parsed.error === "string" && parsed.error.trim()`; `blank` says of a text whether it is
-- all white space.
abbrev has_error : (String → Bool) → Json → Bool
has_error blank (str text) = not (blank text)
has_error blank _ = false

-- the test behind the last `if`, which is also reached by an `ack` with nothing pending
stray : (String → Bool) → WsServerEvent → ChatSocket → ChatSocket
unfolding handle_socket_error
stray blank m s = if has_error blank m.error then handle_socket_error m.error m.request_id s else s

acknowledge : (String → Bool) → Option PendingCommand → WsServerEvent → ChatSocket → ChatSocket
unfolding stray finish
acknowledge blank none m s = stray blank m s
acknowledge blank (some p) m s =
    if is_stale m.request_id p.request_id then s else finish p (resolved m.content) s

-- One case for each test of `parsed.event`.
unfoldable pub dispatch :
    (String → Bool) → String → EventKind → WsServerEvent → ChatSocket → ChatSocket
unfolding decode_message decode_embeds decode_edited open_dm_reply reply_to handle_socket_error
    acknowledge
dispatch blank now message m s = emit_some (decode_message now m.content) s
dispatch blank now message_embeds m s = emit_some (decode_embeds m.content) s
dispatch blank now message_edited m s = emit_some (decode_edited now m.content) s
dispatch blank now voice_participants m s =
    emit_if (is_some (as_array (get "participants" m.content)))
      (Emission.voice_participants (get "participants" m.content)) s
dispatch blank now voice_user_joined m s =
    emit_if (is_voice_user m.content) (Emission.voice_user_joined m.content) s
dispatch blank now voice_user_left m s =
    emit_if (is_voice_user m.content) (Emission.voice_user_left m.content) s
dispatch blank now voice_status_changed m s =
    emit_if (is_voice_user m.content) (Emission.voice_status_changed m.content) s
dispatch blank now voice_user_detached m s =
    emit_if (is_voice_user m.content) (Emission.voice_user_detached m.content) s
dispatch blank now voice_user_resumed m s =
    emit_if (is_voice_user m.content) (Emission.voice_user_resumed m.content) s
dispatch blank now typing_start m s =
    emit_if (is_track m.content) (Emission.typing m.content true) s
dispatch blank now typing_stop m s =
    emit_if (is_track m.content) (Emission.typing m.content false) s
dispatch blank now dm_opened m s = open_dm_reply (to_dm_channel m.content) m.content s
dispatch blank now dm_list m s = reply_to s.pending (pending_is "list_dms" s.pending) m.content s
dispatch blank now dm_closed m s = reply_to s.pending (pending_is "close_dm" s.pending) m.content s
dispatch blank now user_search m s =
    reply_to s.pending (pending_is "search_users" s.pending) m.content s
dispatch blank now sfu_offer m s =
    emit_if (is_session_text "sdp" m.content) (Emission.sfu_offer m.content) s
dispatch blank now sfu_answer m s =
    emit_if (is_session_text "sdp" m.content) (Emission.sfu_answer m.content) s
dispatch blank now sfu_candidate m s =
    emit_if (is_session_text "candidate" m.content) (Emission.sfu_candidate m.content) s
dispatch blank now sfu_track_published m s =
    emit_if (is_track m.content) (Emission.sfu_track_published m.content) s
dispatch blank now sfu_track_unpublished m s =
    emit_if (is_track m.content) (Emission.sfu_track_unpublished m.content) s
dispatch blank now sfu_active_speakers m s =
    emit_if
      (is_number (get "channel_id" m.content) && is_some (as_array (get "user_ids" m.content)))
      (Emission.sfu_active_speakers m.content) s
dispatch blank now sfu_error m s = emit (Emission.sfu_error (sfu_failure m.content m.error)) s
dispatch blank now sfu_session_closed m s =
    emit_if (is_string (get "session_id" m.content)) (Emission.sfu_session_closed m.content) s
dispatch blank now error m s = handle_socket_error (js_or m.error (str "Chat error")) m.request_id s
dispatch blank now ack m s = acknowledge blank s.pending m s
dispatch blank now other m s = stray blank m s

-- `ws.onmessage`; `none` is a text that `JSON.parse` rejects, or `null`, where the handler throws
-- before it changes anything.
unfoldable pub on_message :
    (String → Bool) → String → Option WsServerEvent → ChatSocket → ChatSocket
unfolding dispatch kind_of
on_message blank now none s = s
on_message blank now (some m) s = dispatch blank now (kind_of m.event) m s
