-- ===== src/Servers/Run.antt =====
-- The acts on useServers (frontend/src/hooks/useServers.ts), in any order.
use mini_discord.Prelude.{
  String, ℕ, zero, suc, ◌≡◌, Bool, List, [], ◌∷◌, ◌++◌, Option, none, some, arith,
}
use mini_discord.Text.{trim}
use mini_discord.Servers.{ServersState, message_arrived}
use mini_discord.Servers.Flows.{
  replied, background, Request, searching, Answer, begin_sync, answer_request, add_server_submit,
  add_channel_submit, delete_server_clicked, delete_channel_clicked, select_server,
  join_server_clicked, search_effect, search_fired, type_query, open_join, close_join,
  open_create_server, open_create_channel,
}

-- What the user does, what the timers do, and what the server answers to a request, by its place.
pub data Act : Type 0 where
  submits_server submits_channel : Act
  deletes_server : Bool → Act
  deletes_channel : Bool → ℕ → Act
  selects joins_server : ℕ → Act
  opens_join closes_join opens_create_server opens_create_channel : Act
  types_query types_server types_channel : List ℕ → Act
  search_timer_fires interval_fires : Act
  message_comes : ℕ → Act
  connection_changes : Bool → Act
  answers : ℕ → ((r : Request) → Answer r) → Act

pub record ServersRun : Type 0 where
  pub state : ServersState
  pub requests : List Request

abbrev pub add_request : ServersState × Option Request → List Request → ServersRun
add_request (s, none) rs = record { state = s; requests = rs }
add_request (s, some r) rs = record { state = s; requests = rs ++ r ∷ [] }

abbrev pub request_at : ℕ → List Request → Option Request
request_at n [] = none
request_at zero (r ∷ rs) = some r
request_at (suc n) (r ∷ rs) = request_at n rs

abbrev pub remove_request : ℕ → List Request → List Request
remove_request n [] = []
remove_request zero (r ∷ rs) = rs
remove_request (suc n) (r ∷ rs) = r ∷ remove_request n rs

unfoldable pub answer_at : ℕ → ((r : Request) → Answer r) → Option Request → ServersRun → ServersRun
unfolding answer_request
answer_at n answer none q = q
answer_at n answer (some r) q =
    add_request (answer_request r (answer r) q.state) (remove_request n q.requests)

unfoldable pub handled : (ℕ → String) → Act → ServersState → ServersState × Option Request
unfolding add_server_submit add_channel_submit delete_server_clicked delete_channel_clicked
    select_server join_server_clicked open_join close_join open_create_server open_create_channel
    type_query search_fired begin_sync message_arrived
handled d submits_server s = add_server_submit s
handled d submits_channel s = add_channel_submit s
handled d (deletes_server confirmed) s = delete_server_clicked confirmed s
handled d (deletes_channel confirmed c) s = delete_channel_clicked confirmed c s
handled d (selects server) s = select_server server s
handled d (joins_server server) s = join_server_clicked server s
handled d opens_join s = (open_join s, none)
handled d closes_join s = (close_join s, none)
handled d opens_create_server s = (open_create_server s, none)
handled d opens_create_channel s = (open_create_channel s, none)
handled d (types_query query) s = (type_query query s, none)
handled d (types_server name) s = (record s { new_server_name = name }, none)
handled d (types_channel name) s = (record s { new_channel_name = name }, none)
handled d search_timer_fires s = search_fired s
handled d interval_fires s = begin_sync background none s
handled d (message_comes c) s = (message_arrived d c s, none)
handled d (connection_changes b) s = (record s { is_connected = b }, none)
handled d (answers n answer) s = (s, none)

unfoldable pub act : (ℕ → String) → Act → ServersRun → ServersRun
unfolding answer_at handled
act digits (answers n answer) q = answer_at n answer (request_at n q.requests) q
act digits a q = add_request (handled digits a q.state) q.requests

unfoldable pub act_all : (ℕ → String) → List Act → ServersRun → ServersRun
unfolding act
act_all digits [] q = q
act_all digits (a ∷ acts) q = act_all digits acts (act digits a q)

-- A search whose request is on its way when the field is emptied still shows its results.
pub stale_search_shown :
    (s : ServersState) (query : List ℕ) (results : List (ℕ × String))
    → s.search_timer ≡ some query
    → let sent = (search_fired s).0 in
      let emptied = type_query [] sent in
      (emptied.join_results ≡ [])
      × ((answer_request
            (searching query sent.search_request)
            (replied results)
            emptied).0.join_results
          ≡ results)
unfolding search_fired type_query search_effect answer_request trim
stale_search_shown s query results e = ground (arith, e)
