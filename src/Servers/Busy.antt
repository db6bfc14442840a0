-- ===== src/Servers/Busy.antt =====
-- The guards against creating twice (frontend/src/hooks/useServers.ts), over any series of acts.
use mini_discord.Prelude.{
  String, ℕ, zero, suc, ◌+◌, ◌==◌, ◌≡◌, refl, sym, ◌∙◌, Bool, true, false, List, [], ◌∷◌, ◌++◌,
  Option, none, some, if◌then◌else◌, arith, ◌≤◌, Bool-cases, inl, inr,
}
use mini_discord.Servers.{ServersState, message_arrived, clear_servers, sync_arrived}
use mini_discord.Servers.Flows.{
  Reply, replied, refused, Purpose, background, server_added, channel_added, server_deleted,
  channel_deleted, server_selected, server_joined, Request, getting_servers, getting_states,
  creating_server, creating_main, creating_voice, creating_channel, deleting_server,
  deleting_channel, joining_server, searching, Answer, synced, sync_failed, begin_sync, got_servers,
  got_states, server_created, go_or_fail, answer_request, add_server_submit, add_channel_submit,
  delete_server_clicked, delete_channel_clicked, select_server, join_server_clicked, search_effect,
  search_armed, search_fired, type_query, open_join, close_join, open_create_server,
  open_create_channel,
}
use mini_discord.Servers.Run.{
  Act, submits_server, submits_channel, deletes_server, deletes_channel, selects, joins_server,
  opens_join, closes_join, opens_create_server, opens_create_channel, types_query, types_server,
  types_channel, search_timer_fires, interval_fires, message_comes, connection_changes, answers,
  ServersRun, add_request, request_at, remove_request, answer_at, handled, act, act_all,
}

abbrev is_server_added : Purpose → Bool
is_server_added (server_added name) = true
is_server_added purpose = false

abbrev is_channel_added : Purpose → Bool
is_channel_added (channel_added name) = true
is_channel_added purpose = false

-- the request belongs to `handleAddServerSubmit`
abbrev pub adds_server : Request → Bool
adds_server (getting_servers purpose preferred) = is_server_added purpose
adds_server (getting_states purpose preferred servers) = is_server_added purpose
adds_server (creating_server name) = true
adds_server (creating_main name id) = true
adds_server (creating_voice name id) = true
adds_server r = false

-- the request belongs to `handleAddChannelSubmit`
abbrev pub adds_channel : Request → Bool
adds_channel (getting_servers purpose preferred) = is_channel_added purpose
adds_channel (getting_states purpose preferred servers) = is_channel_added purpose
adds_channel (creating_channel name server) = true
adds_channel r = false

abbrev bit : Bool → ℕ
bit b = if b then 1 else 0

abbrev pub count : (Request → Bool) → List Request → ℕ
count p [] = 0
count p (r ∷ rs) = bit (p r) + count p rs

abbrev more : (Request → Bool) → Option Request → ℕ
more p none = 0
more p (some r) = bit (p r)

-- A handler starts a request exactly when it raises the flag.
abbrev Balanced : ServersState → ServersState × Option Request → ℕ → ℕ → Type 0
Balanced s r servers channels =
    (bit r.0.is_creating_server + servers ≡ bit s.is_creating_server + more adds_server r.1)
    × (bit r.0.is_creating_channel + channels ≡ bit s.is_creating_channel + more adds_channel r.1)

-- The flags are up for a purpose.
abbrev UpFor : Purpose → ServersState → Type 0
UpFor purpose s =
    (bit (is_server_added purpose) ≤ bit s.is_creating_server)
    × (bit (is_channel_added purpose) ≤ bit s.is_creating_channel)

synced-Balanced :
    (purpose : Purpose) (s : ServersState)
    → UpFor purpose s
    → Balanced s
        (synced purpose s, none)
        (bit (is_server_added purpose))
        (bit (is_channel_added purpose))
unfolding synced
synced-Balanced background s h = ground (arith, h)
synced-Balanced (server_added name) s h = ground (arith, h)
synced-Balanced (channel_added name) s h = ground (arith, h)
synced-Balanced purpose s h = ground (arith, h)

sync_failed-Balanced :
    (purpose : Purpose) (message : String) (s : ServersState)
    → UpFor purpose s
    → Balanced s
        (sync_failed purpose message s, none)
        (bit (is_server_added purpose))
        (bit (is_channel_added purpose))
unfolding sync_failed
sync_failed-Balanced background message s h = ground (arith, h)
sync_failed-Balanced (server_added name) message s h = ground (arith, h)
sync_failed-Balanced (channel_added name) message s h = ground (arith, h)
sync_failed-Balanced purpose message s h = ground (arith, h)

begin_sync-Balanced :
    (purpose : Purpose) (preferred : Option ℕ) (s : ServersState)
    → UpFor purpose s
    → Balanced s
        (begin_sync purpose preferred s)
        (bit (is_server_added purpose))
        (bit (is_channel_added purpose))
unfolding begin_sync
begin_sync-Balanced purpose preferred s h = elim (Bool-cases s.has_socket) [
  | inl e ↦ simp e (ground arith)
  | inr e ↦ simp e (synced-Balanced purpose s h)
]

go_or_fail-Balanced :
    (purpose : Purpose) (reply : Reply Unit) (next : ServersState → ServersState × Option Request)
    (s : ServersState)
    → UpFor purpose s
    → Balanced s (next s) (bit (is_server_added purpose)) (bit (is_channel_added purpose))
    → Balanced s
        (go_or_fail purpose reply next s)
        (bit (is_server_added purpose))
        (bit (is_channel_added purpose))
unfolding go_or_fail
go_or_fail-Balanced purpose (refused message) next s h n = sync_failed-Balanced purpose message s h
go_or_fail-Balanced purpose (replied done) next s h n = n

-- The flags are up for a request.
abbrev Up : Request → ServersState → Type 0
Up r s =
    (bit (adds_server r) ≤ bit s.is_creating_server)
    × (bit (adds_channel r) ≤ bit s.is_creating_channel)

answer_request-Balanced :
    (r : Request) (a : Answer r) (s : ServersState)
    → Up r s
    → Balanced s (answer_request r a s) (bit (adds_server r)) (bit (adds_channel r))
unfolding answer_request clear_servers sync_arrived got_servers got_states server_created
answer_request-Balanced (getting_servers purpose preferred) (refused message) s h =
    sync_failed-Balanced purpose message s h
answer_request-Balanced (getting_servers purpose preferred) (replied []) s h =
    synced-Balanced purpose (clear_servers s) h
answer_request-Balanced (getting_servers purpose preferred) (replied (server ∷ rest)) s h =
    (refl, refl)
answer_request-Balanced (getting_states purpose preferred servers) (refused message) s h =
    sync_failed-Balanced purpose message s h
answer_request-Balanced (getting_states purpose preferred servers) (replied states) s h =
    synced-Balanced purpose (sync_arrived preferred servers states s) h
answer_request-Balanced (creating_server name) (refused message) s h =
    sync_failed-Balanced (server_added name) message s h
answer_request-Balanced (creating_server name) (replied id) s h = (refl, refl)
answer_request-Balanced (creating_main name id) a s h =
    go_or_fail-Balanced (server_added name) a (λ t. (t, some (creating_voice name id))) s h
      (refl, refl)
answer_request-Balanced (creating_voice name id) a s h =
    go_or_fail-Balanced (server_added name) a (begin_sync (server_added name) (some id)) s h
      (begin_sync-Balanced (server_added name) (some id) s h)
answer_request-Balanced (creating_channel name server) a s h =
    go_or_fail-Balanced (channel_added name) a (begin_sync (channel_added name) (some server)) s h
      (begin_sync-Balanced (channel_added name) (some server) s h)
answer_request-Balanced (deleting_server server) a s h =
    go_or_fail-Balanced server_deleted a (begin_sync server_deleted none) s h
      (begin_sync-Balanced server_deleted none s h)
answer_request-Balanced (deleting_channel server channel) a s h =
    go_or_fail-Balanced channel_deleted a (begin_sync channel_deleted (some server)) s h
      (begin_sync-Balanced channel_deleted (some server) s h)
answer_request-Balanced (joining_server server) a s h =
    go_or_fail-Balanced server_joined a (begin_sync server_joined (some server)) s h
      (begin_sync-Balanced server_joined (some server) s h)
answer_request-Balanced (searching query id) (replied results) s h = ground arith
answer_request-Balanced (searching query id) (refused message) s h = ground arith

select_server-Balanced : (server : ℕ) (s : ServersState) → Balanced s (select_server server s) 0 0
unfolding select_server
select_server-Balanced server s =
    let s₁ : ServersState = record s {
      selected_server = server;
      stored_selected = if server == 0 then s.stored_selected else some server;
      error = "";
    } in
    let begun = begin_sync-Balanced server_selected (some server) s₁ (ground arith) in
    ground (arith, begun)

search_effect-Balanced : (s : ServersState) → Balanced s (search_effect s, none) 0 0
unfolding search_effect
search_effect-Balanced s = ground arith

search_fired-Balanced : (o : Option (List ℕ)) (s : ServersState) → Balanced s (search_armed o s) 0 0
search_fired-Balanced none s = (refl, refl)
search_fired-Balanced (some query) s = (refl, refl)

handled-Balanced :
    (digits : ℕ → String) (a : Act) (s : ServersState) → Balanced s (handled digits a s) 0 0
unfolding handled type_query open_join close_join add_server_submit add_channel_submit
    delete_server_clicked delete_channel_clicked join_server_clicked message_arrived search_fired
    open_create_server open_create_channel
handled-Balanced digits submits_server s = ground arith
handled-Balanced digits submits_channel s = ground arith
handled-Balanced digits (deletes_server confirmed) s = ground arith
handled-Balanced digits (deletes_channel confirmed c) s = ground arith
handled-Balanced digits (selects server) s = select_server-Balanced server s
handled-Balanced digits (joins_server server) s = ground arith
handled-Balanced digits opens_join s =
    search_effect-Balanced
      (record s { error = ""; join_query = []; join_results = []; is_join_open = true })
handled-Balanced digits closes_join s = search_effect-Balanced (record s { is_join_open = false })
handled-Balanced digits opens_create_server s = (refl, refl)
handled-Balanced digits opens_create_channel s = (refl, refl)
handled-Balanced digits (types_query query) s =
    search_effect-Balanced (record s { join_query = query })
handled-Balanced digits (types_server name) s = (refl, refl)
handled-Balanced digits (types_channel name) s = (refl, refl)
handled-Balanced digits search_timer_fires s = search_fired-Balanced s.search_timer s
handled-Balanced digits interval_fires s = begin_sync-Balanced background none s (ground arith)
handled-Balanced digits (message_comes c) s = ground arith
handled-Balanced digits (connection_changes b) s = (refl, refl)
handled-Balanced digits (answers n answer) s = (refl, refl)

-- There is one request of `handleAddServerSubmit` while its flag is up, and none otherwise; likewise of
-- `handleAddChannelSubmit`.
abbrev pub Creating : ServersRun → Type 0
Creating q =
    (count adds_server q.requests ≡ bit q.state.is_creating_server)
    × (count adds_channel q.requests ≡ bit q.state.is_creating_channel)

count-append :
    (p : Request → Bool) (rs : List Request) (r : Request)
    → count p (rs ++ r ∷ []) ≡ count p rs + bit (p r)
count-append p [] r = ground arith
count-append p (x ∷ rs) r = ground (arith, count-append p rs r)

add_request-count :
    (p : Request → Bool) (r : ServersState × Option Request) (rs : List Request)
    → count p (add_request r rs).requests ≡ count p rs + more p r.1
add_request-count p (s, none) rs = ground arith
add_request-count p (s, some r) rs = count-append p rs r

add_request-state :
    (r : ServersState × Option Request) (rs : List Request) → (add_request r rs).state ≡ r.0
add_request-state (s, none) rs = refl
add_request-state (s, some r) rs = refl

remove_request-count :
    (p : Request → Bool) (n : ℕ) (rs : List Request) (r : Request)
    → request_at n rs ≡ some r
    → count p rs ≡ bit (p r) + count p (remove_request n rs)
remove_request-count p n [] r e = ground (arith, e)
remove_request-count p zero (x ∷ rs) r e = ground (arith, e)
remove_request-count p (suc n) (x ∷ rs) r e = ground (arith, remove_request-count p n rs r e)

add_request-Creating :
    (s : ServersState) (r : ServersState × Option Request) (rs : List Request)
    (servers channels : ℕ)
    → Balanced s r servers channels
    → servers + count adds_server rs ≡ bit s.is_creating_server
    → channels + count adds_channel rs ≡ bit s.is_creating_channel
    → Creating (add_request r rs)
add_request-Creating s r rs servers channels b h k =
    rw
      (
        add_request-count adds_server r rs,
        add_request-count adds_channel r rs,
        add_request-state r rs,
      )
      (ground (arith, b, h, k))

answer_at-Creating :
    (n : ℕ) (answer : (r : Request) → Answer r) (o : Option Request) (q : ServersRun)
    → request_at n q.requests ≡ o
    → Creating q
    → Creating (answer_at n answer o q)
unfolding answer_at
answer_at-Creating n answer none q e h = h
answer_at-Creating n answer (some r) q e h =
    let of_servers = remove_request-count adds_server n q.requests r e in
    let of_channels = remove_request-count adds_channel n q.requests r e in
    add_request-Creating q.state (answer_request r (answer r) q.state) (remove_request n q.requests)
      (bit (adds_server r)) (bit (adds_channel r))
      (answer_request-Balanced r (answer r) q.state (ground (arith, of_servers, of_channels, h)))
      (sym of_servers ∙ h.0) (sym of_channels ∙ h.1)

act-Creating :
    (digits : ℕ → String) (a : Act) (q : ServersRun) → Creating q → Creating (act digits a q)
unfolding act
act-Creating digits (answers n answer) q h =
    answer_at-Creating n answer (request_at n q.requests) q refl h
act-Creating digits a q h =
    add_request-Creating q.state (handled digits a q.state) q.requests 0 0
      (handled-Balanced digits a q.state) (omega (arith, h.0)) (omega (arith, h.1))

-- From a state in which nothing is being created, after any acts and answers in any order, refusals
-- among them: at most one server and one channel are being created at once, each exactly while its
-- button is disabled, which it never stays.
pub act_all-Creating :
    (digits : ℕ → String) (acts : List Act) (q : ServersRun)
    → Creating q
    → Creating (act_all digits acts q)
unfolding act_all
act_all-Creating digits [] q h = h
act_all-Creating digits (a ∷ acts) q h =
    act_all-Creating digits acts (act digits a q) (act-Creating digits a q h)
