-- ===== src/Servers/Dms.antt =====
-- The synchronisations of useServers (frontend/src/hooks/useServers.ts) while a direct message is open.
use mini_discord.Prelude.{
  String, ℕ, zero, suc, ◌≡◌, refl, true, List, [], ◌∷◌, ◌++◌, Option, none, some, All, arith,
  includes, get_entry, Bool-cases, inl, inr,
}
use mini_discord.Wire.{Server, Channel, Message}
use mini_discord.Wire.Responses.Rows.{ServerChannels}
use mini_discord.Servers.{ServersState, clear_servers, sync_arrived, next_channel}
use mini_discord.Servers.Sync.{sync_arrived-messages}
use mini_discord.Servers.Flows.{
  Reply, replied, refused, background, Request, getting_servers, getting_states, Answer, synced,
  sync_failed, begin_sync, got_servers, got_states, answer_request,
}
use mini_discord.Servers.Run.{
  Act, interval_fires, connection_changes, answers, ServersRun, add_request, request_at,
  remove_request, answer_at, handled, act, act_all,
}

-- a request of a synchronisation by the interval
abbrev pub IsSync : Request → Type 0
IsSync (getting_servers background none) = Unit {0}
IsSync (getting_states background none (server ∷ rest)) = Unit {0}
IsSync request = ⊥

abbrev FindsServers : Reply (List Server) → Type 0
FindsServers (replied []) = ⊥
FindsServers reply = Unit {0}

-- The interval fires, the connection changes, or a request is refused or answered, that for the servers
-- with one server at least.
abbrev pub Syncs : Act → Type 0
Syncs interval_fires = Unit {0}
Syncs (connection_changes b) = Unit {0}
Syncs (answers n answer) = FindsServers (answer (getting_servers background none))
Syncs a = ⊥

-- The conversation `c` is open, and its messages are loaded.
abbrev pub Open : ℕ → List ℕ → List Message → ServersState → Type 0
Open c dms messages s =
    (s.selected_channel ≡ c)
    × (s.dm_channel_ids ≡ dms)
    × (get_entry c s.messages_by_channel ≡ some messages)

abbrev OptSync : Option Request → Type 0
OptSync none = Unit {0}
OptSync (some r) = IsSync r

request_at-OptSync : (n : ℕ) (rs : List Request) → All IsSync rs → OptSync (request_at n rs)
request_at-OptSync n [] k = tt
request_at-OptSync zero (r ∷ rs) k = k.0
request_at-OptSync (suc n) (r ∷ rs) k = request_at-OptSync n rs k.1

remove_request-IsSync :
    (n : ℕ) (rs : List Request) → All IsSync rs → All IsSync (remove_request n rs)
remove_request-IsSync n [] k = k
remove_request-IsSync zero (r ∷ rs) k = k.1
remove_request-IsSync (suc n) (r ∷ rs) k = (k.0, remove_request-IsSync n rs k.1)

All-snoc : (rs : List Request) (r : Request) → All IsSync rs → IsSync r → All IsSync (rs ++ r ∷ [])
All-snoc [] r k e = (e, tt)
All-snoc (x ∷ rs) r k e = (k.0, All-snoc rs r k.1 e)

module _ (c : ℕ) (dms : List ℕ) (messages : List Message) (is_dm : includes c dms ≡ true) where
  abbrev OpenRun : ServersRun → Type 0
  OpenRun q = Open c dms messages q.state × All IsSync q.requests

  next_channel-dm :
      (s : ServersState) (channels : List Channel)
      → s.selected_channel ≡ c
      → s.dm_channel_ids ≡ dms
      → next_channel s.dm_channel_ids channels s.selected_channel ≡ c
  unfolding next_channel
  next_channel-dm s channels e d = rw (e, d, is_dm) (ground arith)

  sync_arrived-Open :
      (server : Server) (rest : List Server) (states : List (ℕ × ServerChannels)) (s : ServersState)
      → Open c dms messages s
      → Open c dms messages (sync_arrived none (server ∷ rest) states s)
  unfolding sync_arrived
  sync_arrived-Open server rest states s (e, d, m) =
      (next_channel-dm s _ e d, d, sync_arrived-messages none server rest states s c messages m)

  served :
      (reply : Reply (List Server)) (rs : List Request) (s : ServersState)
      → FindsServers reply
      → All IsSync rs
      → Open c dms messages s
      → OpenRun (add_request (got_servers background none reply s) rs)
  unfolding got_servers sync_failed
  served (refused message) rs s f k h = (h, k)
  served (replied []) rs s f k h = absurd f
  served (replied (server ∷ rest)) rs s f k h =
      (h, All-snoc rs (getting_states background none (server ∷ rest)) k tt)

  stated :
      (server : Server) (rest : List Server) (reply : Reply (List (ℕ × ServerChannels)))
      (rs : List Request) (s : ServersState)
      → All IsSync rs
      → Open c dms messages s
      → OpenRun (add_request (got_states background none (server ∷ rest) reply s) rs)
  unfolding got_states sync_failed synced
  stated server rest (refused message) rs s k h = (h, k)
  stated server rest (replied states) rs s k h = (sync_arrived-Open server rest states s h, k)

  answer_at-Open :
      (n : ℕ) (answer : (r : Request) → Answer r) (o : Option Request) (q : ServersRun)
      → FindsServers (answer (getting_servers background none))
      → OptSync o
      → OpenRun q
      → OpenRun (answer_at n answer o q)
  unfolding answer_at answer_request
  answer_at-Open n answer none q f k h = h
  answer_at-Open n answer (some (getting_servers background none)) q f k h =
      served (answer (getting_servers background none)) (remove_request n q.requests) q.state f
        (remove_request-IsSync n q.requests h.1) h.0
  answer_at-Open n answer (some (getting_states background none (server ∷ rest))) q f k h =
      stated server rest (answer (getting_states background none (server ∷ rest)))
        (remove_request n q.requests) q.state (remove_request-IsSync n q.requests h.1) h.0
  answer_at-Open n answer (some r) q f k h = absurd k

  act-Open :
      (digits : ℕ → String) (a : Act) (q : ServersRun)
      → Syncs a
      → OpenRun q
      → OpenRun (act digits a q)
  unfolding act handled begin_sync synced
  act-Open digits interval_fires q f h = elim (Bool-cases q.state.has_socket) [
    | inl e ↦ rw e (h.0, All-snoc q.requests (getting_servers background none) h.1 tt)
    | inr e ↦ rw e h
  ]
  act-Open digits (connection_changes b) q f h = h
  act-Open digits (answers n answer) q f h =
      answer_at-Open n answer (request_at n q.requests) q f (request_at-OptSync n q.requests h.1) h
  act-Open digits a q f h = absurd f

  act_all-Open :
      (digits : ℕ → String) (acts : List Act) (q : ServersRun)
      → All Syncs acts
      → OpenRun q
      → OpenRun (act_all digits acts q)
  unfolding act_all
  act_all-Open digits [] q f h = h
  act_all-Open digits (a ∷ acts) q f h =
      act_all-Open digits acts (act digits a q) f.1 (act-Open digits a q f.0 h)

-- While a conversation is open whose messages are loaded, any synchronisations by the interval, also
-- overlapping ones, that are refused or find a server, keep it open, with those messages. The first one
-- after them that finds none closes it and drops its messages, although it is still among the user's
-- conversations.
pub sync-dm :
    (digits : ℕ → String) (acts : List Act) (messages : List Message) (q : ServersRun)
    → includes q.state.selected_channel q.state.dm_channel_ids ≡ true
    → get_entry q.state.selected_channel q.state.messages_by_channel ≡ some messages
    → All IsSync q.requests
    → All Syncs acts
    → let c = q.state.selected_channel in
      let kept = (act_all digits acts q).state in
      let none_left = (answer_request (getting_servers background none) (replied []) kept).0 in
      (kept.selected_channel ≡ c)
      × (get_entry c kept.messages_by_channel ≡ some messages)
      × (none_left.selected_channel ≡ 0)
      × (get_entry c none_left.messages_by_channel ≡ none)
      × (includes c none_left.dm_channel_ids ≡ true)
unfolding answer_request got_servers synced clear_servers
sync-dm digits acts messages q dm loaded k f =
    let c = q.state.selected_channel in
    let (e, d, m) =
      (act_all-Open c q.state.dm_channel_ids messages dm digits acts q f
        ((refl, refl, loaded), k)).0 in
    (e, m, refl, refl, rw d dm)
