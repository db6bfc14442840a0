-- ===== src/Tests/Servers.antt =====
-- Servers and channels on small inputs.
use mini_discord.Prelude.{
  String, ℕ, ◌≡◌, refl, true, false, List, [], ◌∷◌, none, some, includes, get_entry, entry, ◌⊎◌,
}
use mini_discord.Wire.{Server, Channel, text}
use mini_discord.Wire.Responses.Rows.{ServerChannels}
use mini_discord.Servers.{ServersState, sync_arrived, has_server, has_channel}
use mini_discord.Servers.Sync.{sync_arrived-selects, sync_arrived-twice}
use mini_discord.Servers.Flows.{
  replied, refused, background, Request, getting_servers, getting_states, creating_server,
  creating_main, creating_voice, creating_channel, deleting_server, deleting_channel,
  joining_server, searching, Answer, answer_request, search_fired, type_query,
}
use mini_discord.Servers.Run.{
  Act, submits_server, opens_create_server, types_server, answers, ServersRun, act_all,
  stale_search_shown, interval_fires,
}
use mini_discord.Servers.Dms.{sync-dm}
use mini_discord.Servers.Busy.{Creating, act_all-Creating}

abbrev home : Server
home = record { id = 5; name = "Home"; owner_id = 1 }

abbrev hall : Channel
hall = record { id = 51; server_id = 5; name = "Main"; type = text }

abbrev states : List (ℕ × ServerChannels)
states = (5, record { channels = hall ∷ []; voice_participants = [] }) ∷ []

-- The direct message 90 is open, and a search for "ab" is about to be sent.
abbrev at_dm : ServersState
at_dm = record {
  has_socket = true;
  is_connected = true;
  servers = home ∷ [];
  channels_by_server = [];
  voice_by_channel = [];
  messages_by_channel = (90, []) ∷ [];
  selected_server = 5;
  selected_channel = 90;
  stored_servers = [];
  stored_channels = [];
  stored_selected = none;
  dm_channel_ids = 90 ∷ [];
  is_creating_server = false;
  is_creating_channel = false;
  is_create_server_open = false;
  new_server_name = [];
  is_create_channel_open = false;
  new_channel_name = [];
  new_channel_type = text;
  is_join_open = true;
  join_query = 97 ∷ 98 ∷ [];
  join_results = [];
  is_searching = true;
  search_timer = some (97 ∷ 98 ∷ []);
  search_request = 3;
  error = "";
  toasts = [];
}

sync_arrived-selects_example :
    let r = sync_arrived (some 8) (home ∷ []) states at_dm in
    let channels = entry [] r.selected_server r.channels_by_server in
    (has_server r.selected_server r.servers ≡ true)
    × (r.stored_selected ≡ some r.selected_server)
    × ((has_channel r.selected_channel channels ≡ true)
        ⊎ (includes r.selected_channel (90 ∷ []) ≡ true)
        ⊎ ((channels ≡ []) × (r.selected_channel ≡ 0)))
sync_arrived-selects_example = sync_arrived-selects (some 8) home [] states at_dm refl

sync_arrived-twice_example :
    let once = sync_arrived (some 8) (home ∷ []) states at_dm in
    sync_arrived none (home ∷ []) states once ≡ once
sync_arrived-twice_example = sync_arrived-twice (some 8) home [] states at_dm refl

stale_search_shown_example :
    let sent = (search_fired at_dm).0 in
    let emptied = type_query [] sent in
    (emptied.join_results ≡ [])
    × ((answer_request
          (searching (97 ∷ 98 ∷ []) sent.search_request)
          (replied ((7, "abc") ∷ []))
          emptied).0.join_results
        ≡ (7, "abc") ∷ [])
stale_search_shown_example = stale_search_shown at_dm (97 ∷ 98 ∷ []) ((7, "abc") ∷ []) refl

abbrev accepted : (r : Request) → Answer r
accepted (getting_servers purpose preferred) = replied (home ∷ [])
accepted (getting_states purpose preferred servers) = replied states
accepted (creating_server name) = replied 5
accepted (creating_main name id) = refused "no permission"
accepted (creating_voice name id) = refused "no permission"
accepted (creating_channel name server) = refused "no permission"
accepted (deleting_server server) = refused "no permission"
accepted (deleting_channel server channel) = refused "no permission"
accepted (joining_server server) = refused "no permission"
accepted (searching query id) = replied []

abbrev digits : ℕ → String
digits n = "channel"

-- The form is sent twice; the first channel of the new server cannot be made.
abbrev acts : List Act
acts =
    opens_create_server
    ∷ types_server (65 ∷ 32 ∷ [])
    ∷ submits_server
    ∷ submits_server
    ∷ answers 0 accepted
    ∷ answers 0 accepted
    ∷ []

abbrev quiet : ServersRun
quiet = record { state = at_dm; requests = [] }

act_all-Creating_example : Creating (act_all digits acts quiet)
act_all-Creating_example = act_all-Creating digits acts quiet (refl, refl)

-- Two synchronisations overlap while the direct message is open.
abbrev intervals : List Act
intervals =
    interval_fires
    ∷ interval_fires
    ∷ answers 0 accepted
    ∷ answers 1 accepted
    ∷ answers 0 accepted
    ∷ []

sync-dm_example :
    let kept = (act_all digits intervals quiet).state in
    let none_left = (answer_request (getting_servers background none) (replied []) kept).0 in
    (kept.selected_channel ≡ 90)
    × (get_entry 90 kept.messages_by_channel ≡ some [])
    × (none_left.selected_channel ≡ 0)
    × (get_entry 90 none_left.messages_by_channel ≡ none)
    × (includes 90 none_left.dm_channel_ids ≡ true)
sync-dm_example = sync-dm digits intervals [] quiet refl refl tt (tt, (tt, (tt, (tt, (tt, tt)))))
