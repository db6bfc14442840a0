-- ===== src/Servers/Flows.antt =====
-- The handlers of useServers (frontend/src/hooks/useServers.ts) that await the server. What a handler
-- waits for is a `Request`; it goes on with the reply. `syncServersAndChannels` waits twice, and what
-- its caller does next is its `Purpose`.
use mini_discord.Prelude.{
  String, ℕ, ◌+◌, ◌==◌, ltb, Bool, true, false, not, ◌||◌, List, [], ◌∷◌, ◌++◌, Option, none, some,
  if◌then◌else◌, length, entry,
}
use mini_discord.Text.{trim}
use mini_discord.Wire.{Server, text}
use mini_discord.Wire.Responses.Rows.{ServerChannels}
use mini_discord.Servers.{
  ServersState, Toast, success, failure, sync_arrived, clear_servers, first_channel,
}

pub data Reply (A : Type 0) : Type 0 where
  replied : A → Reply A
  refused : String → Reply A

pub data Purpose : Type 0 where
  background : Purpose
  server_added channel_added : List ℕ → Purpose
  server_deleted channel_deleted server_selected server_joined : Purpose

pub data Request : Type 0 where
  getting_servers : Purpose → Option ℕ → Request
  getting_states : Purpose → Option ℕ → List Server → Request
  creating_server : List ℕ → Request
  creating_main creating_voice : List ℕ → ℕ → Request
  creating_channel : List ℕ → ℕ → Request
  deleting_server : ℕ → Request
  deleting_channel : ℕ → ℕ → Request
  joining_server : ℕ → Request
  searching : List ℕ → ℕ → Request

-- what the server answers to a request
abbrev pub Answer : Request → Type 0
Answer (getting_servers purpose preferred) = Reply (List Server)
Answer (getting_states purpose preferred servers) = Reply (List (ℕ × ServerChannels))
Answer (creating_server name) = Reply ℕ
Answer (searching query id) = Reply (List (ℕ × String))
Answer request = Reply Unit

-- `MAX_SERVER_CHANNEL_NAME_LENGTH`
abbrev pub max_name_length : ℕ
max_name_length = 16

abbrev pub say : String → ServersState → ServersState
say message s = record s { error = message }

abbrev pub toast : Toast → ServersState → ServersState
toast t s = record s { toasts = s.toasts ++ t ∷ [] }

abbrev is_empty : List ℕ → Bool
is_empty [] = true
is_empty (c ∷ cs) = false

-- what the caller of `syncServersAndChannels` does after it
unfoldable pub synced : Purpose → ServersState → ServersState
synced background s = s
synced (server_added name) s = toast (success name) (record s {
  error = "";
  is_create_server_open = false;
  new_server_name = [];
  is_creating_server = false;
})
synced (channel_added name) s = toast (success name) (record s {
  error = "";
  is_create_channel_open = false;
  new_channel_name = [];
  is_creating_channel = false;
})
synced server_deleted s = toast (success []) (say "" s)
synced channel_deleted s = toast (success []) (say "" s)
synced server_selected s = s
synced server_joined s = record s {
  join_query = [];
  join_results = [];
  is_join_open = false;
  error = "";
}

-- what the caller does with an error
unfoldable pub sync_failed : Purpose → String → ServersState → ServersState
sync_failed background message s = s
sync_failed (server_added name) message s =
    toast (failure message) (record s { error = message; is_creating_server = false })
sync_failed (channel_added name) message s =
    toast (failure message) (record s { error = message; is_creating_channel = false })
sync_failed server_deleted message s = toast (failure message) (say message s)
sync_failed channel_deleted message s = toast (failure message) (say message s)
sync_failed server_selected message s = say message s
sync_failed server_joined message s = say message s

unfoldable pub begin_sync : Purpose → Option ℕ → ServersState → ServersState × Option Request
unfolding synced
begin_sync purpose preferred s =
    if s.has_socket then (s, some (getting_servers purpose preferred)) else (synced purpose s, none)

unfoldable pub got_servers :
    Purpose → Option ℕ → Reply (List Server) → ServersState → ServersState × Option Request
unfolding synced sync_failed
got_servers purpose preferred (refused message) s = (sync_failed purpose message s, none)
got_servers purpose preferred (replied []) s = (synced purpose (clear_servers s), none)
got_servers purpose preferred (replied (server ∷ rest)) s =
    (s, some (getting_states purpose preferred (server ∷ rest)))

unfoldable pub got_states :
    Purpose
    → Option ℕ
    → List Server
    → Reply (List (ℕ × ServerChannels))
    → ServersState
    → ServersState × Option Request
unfolding synced sync_failed
got_states purpose preferred servers (refused message) s = (sync_failed purpose message s, none)
got_states purpose preferred servers (replied states) s =
    (synced purpose (sync_arrived preferred servers states s), none)

-- the results of the latest search alone are shown
abbrev found : ℕ → Reply (List (ℕ × String)) → ServersState → ServersState
found id (replied results) s =
    if id == s.search_request
    then record s { join_results = results; error = ""; is_searching = false }
    else s
found id (refused message) s =
    if id == s.search_request
    then record s { join_results = []; error = message; is_searching = false }
    else s

-- a step of a handler: on an error its `catch` and `finally`, else the next request
unfoldable pub go_or_fail :
    Purpose
    → Reply Unit
    → (ServersState → ServersState × Option Request)
    → ServersState
    → ServersState × Option Request
unfolding sync_failed
go_or_fail purpose (refused message) next s = (sync_failed purpose message s, none)
go_or_fail purpose (replied done) next s = next s

unfoldable pub server_created : List ℕ → Reply ℕ → ServersState → ServersState × Option Request
unfolding sync_failed
server_created name (refused message) s = (sync_failed (server_added name) message s, none)
server_created name (replied id) s = (s, some (creating_main name id))

unfoldable pub answer_request :
    (r : Request) → Answer r → ServersState → ServersState × Option Request
unfolding got_servers got_states go_or_fail server_created begin_sync
answer_request (getting_servers purpose preferred) reply s = got_servers purpose preferred reply s
answer_request (getting_states purpose preferred servers) reply s =
    got_states purpose preferred servers reply s
answer_request (creating_server name) reply s = server_created name reply s
answer_request (creating_main name id) reply s =
    go_or_fail (server_added name) reply (λ t. (t, some (creating_voice name id))) s
answer_request (creating_voice name id) reply s =
    go_or_fail (server_added name) reply (begin_sync (server_added name) (some id)) s
answer_request (creating_channel name server) reply s =
    go_or_fail (channel_added name) reply (begin_sync (channel_added name) (some server)) s
answer_request (deleting_server server) reply s =
    go_or_fail server_deleted reply (begin_sync server_deleted none) s
answer_request (deleting_channel server channel) reply s =
    go_or_fail channel_deleted reply (begin_sync channel_deleted (some server)) s
answer_request (joining_server server) reply s =
    go_or_fail server_joined reply (begin_sync server_joined (some server)) s
answer_request (searching query id) reply s = (found id reply s, none)

abbrev is_offline : ServersState → Bool
is_offline s = not s.has_socket || not s.is_connected

-- `handleAddServerSubmit` up to its first `await`
unfoldable pub add_server_submit : ServersState → ServersState × Option Request
unfolding trim
add_server_submit s =
    let name = trim s.new_server_name in
    if is_offline s
    then (say "No connection" s, none)
    else if is_empty name
    then (say "Enter the server name" s, none)
    else if ltb max_name_length (length name)
    then (say "Server name must be at most 16 characters" s, none)
    else if s.is_creating_server
    then (s, none)
    else (record s { is_creating_server = true }, some (creating_server name))

-- `handleAddChannelSubmit`
unfoldable pub add_channel_submit : ServersState → ServersState × Option Request
unfolding trim
add_channel_submit s =
    let name = trim s.new_channel_name in
    if is_offline s || s.selected_server == 0
    then (say "No connection to chat" s, none)
    else if is_empty name
    then (say "Enter the channel name" s, none)
    else if ltb max_name_length (length name)
    then (say "Channel name must be at most 16 characters" s, none)
    else if s.is_creating_channel
    then (s, none)
    else (record s { is_creating_channel = true }, some (creating_channel name s.selected_server))

-- `handleDeleteServer` and `handleDeleteChannel`, with the answer to `window.confirm`
unfoldable pub delete_server_clicked : Bool → ServersState → ServersState × Option Request
delete_server_clicked confirmed s =
    if is_offline s || s.selected_server == 0
    then (say "No connection" s, none)
    else if confirmed
    then (s, some (deleting_server s.selected_server))
    else (s, none)

unfoldable pub delete_channel_clicked : Bool → ℕ → ServersState → ServersState × Option Request
delete_channel_clicked confirmed channel s =
    if is_offline s || (s.selected_server == 0 || channel == 0)
    then (say "No connection" s, none)
    else if confirmed
    then (s, some (deleting_channel s.selected_server channel))
    else (s, none)

-- `handleSelectServer`
unfoldable pub select_server : ℕ → ServersState → ServersState × Option Request
unfolding begin_sync
select_server server s =
    let s₁ : ServersState = record s {
      selected_server = server;
      stored_selected = if server == 0 then s.stored_selected else some server;
      error = "";
    } in
    if is_offline s
    then (
      record s₁ { selected_channel = first_channel (entry [] server s.channels_by_server) },
      none,
    )
    else begin_sync server_selected (some server) s₁

-- `handleJoinServer`
unfoldable pub join_server_clicked : ℕ → ServersState → ServersState × Option Request
join_server_clicked server s =
    if is_offline s then (say "No connection" s, none) else (s, some (joining_server server))

-- `query.length`, in UTF-16 units
abbrev units : List ℕ → ℕ
units [] = 0
units (c ∷ cs) = (if ltb c 0x10000 then 1 else 2) + units cs

-- the effect of the search: what it leaves, with the timer of the query that it arms
unfoldable pub search_effect : ServersState → ServersState
unfolding trim
search_effect s =
    let query = trim s.join_query in
    let idle : ServersState = record s {
      search_timer = none;
      join_results = [];
      is_searching = false;
    } in
    if not s.is_join_open
    then idle
    else if is_offline s
    then idle
    else if ltb (units query) 2
    then idle
    else record s { search_timer = some query; is_searching = true }

abbrev pub search_armed : Option (List ℕ) → ServersState → ServersState × Option Request
search_armed none s = (s, none)
search_armed (some query) s =
    let id = s.search_request + 1 in
    (record s { search_timer = none; search_request = id }, some (searching query id))

-- the timer runs out
unfoldable pub search_fired : ServersState → ServersState × Option Request
search_fired s = search_armed s.search_timer s

-- typing in the search field, and opening or closing the dialog; the effect runs after each
unfoldable pub type_query : List ℕ → ServersState → ServersState
unfolding search_effect
type_query query s = search_effect (record s { join_query = query })

unfoldable pub open_join : ServersState → ServersState
unfolding search_effect
open_join s =
    search_effect (record s { error = ""; join_query = []; join_results = []; is_join_open = true })

unfoldable pub close_join : ServersState → ServersState
unfolding search_effect
close_join s = search_effect (record s { is_join_open = false })

unfoldable pub open_create_server : ServersState → ServersState
open_create_server s = record s { error = ""; new_server_name = []; is_create_server_open = true }

unfoldable pub open_create_channel : ServersState → ServersState
open_create_channel s = record s {
  error = "";
  new_channel_name = [];
  new_channel_type = text;
  is_create_channel_open = true;
}
