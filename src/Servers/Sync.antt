-- ===== src/Servers/Sync.antt =====
-- What `syncServersAndChannels` leaves.
use mini_discord.Prelude.{
  ℕ, ◌==◌, ◌≡◌, refl, sym, ap, ◌∙◌, true, false, List, [], ◌∷◌, Option, none, some, get_entry,
  entry, includes, arith, is_some, inl, inr, ◌⊎◌, Bool-cases, get_entry-set_entry, ==_refl, ==_iff,
  subst,
}
use mini_discord.Wire.{Server, Channel, Message}
use mini_discord.Wire.Responses.Rows.{ServerChannels}
use mini_discord.Servers.{
  ServersState, sync_arrived, active_server, has_server, next_channel, has_channel, with_channels,
  add_missing, channels_of, all_channels,
}

if_present-active :
    (preferred : Option ℕ) (from_state : ℕ) (server : Server) (rest : List Server)
    → (server.id == 0) ≡ false
    → has_server (active_server preferred from_state (server ∷ rest)) (server ∷ rest) ≡ true
unfolding active_server
if_present-active preferred from_state server rest e = ground (arith, e)

next_channel-known :
    (dms : List ℕ) (channels : List Channel) (prev : ℕ)
    → let c = next_channel dms channels prev in
      (has_channel c channels ≡ true) ⊎ (includes c dms ≡ true) ⊎ ((channels ≡ []) × (c ≡ 0))
unfolding next_channel
next_channel-known dms [] prev = ground arith
next_channel-known dms (c ∷ cs) prev = ground (arith, ==_refl c.id)

-- After a synchronisation with at least one server, ids being positive: the selected server is one of
-- the user's, it is the one stored, and the selected channel is one of that server's, or a direct
-- message, or none when that server has no channels.
pub sync_arrived-selects :
    (preferred : Option ℕ) (server : Server) (rest : List Server)
    (states : List (ℕ × ServerChannels)) (s : ServersState)
    → (server.id == 0) ≡ false
    → let r = sync_arrived preferred (server ∷ rest) states s in
      let channels = entry [] r.selected_server r.channels_by_server in
      (has_server r.selected_server r.servers ≡ true)
      × (r.stored_selected ≡ some r.selected_server)
      × ((has_channel r.selected_channel channels ≡ true)
          ⊎ (includes r.selected_channel s.dm_channel_ids ≡ true)
          ⊎ ((channels ≡ []) × (r.selected_channel ≡ 0)))
unfolding sync_arrived
sync_arrived-selects preferred server rest states s e =
    let active = active_server preferred s.selected_server (server ∷ rest) in
    (
      if_present-active preferred s.selected_server server rest e,
      refl,
      next_channel-known s.dm_channel_ids (entry [] active (channels_of states)) s.selected_channel,
    )

get_entry-with_channels :
    (k : ℕ) (cs : List Channel) (next : List (ℕ × List Message)) (messages : List Message)
    → get_entry k next ≡ some messages
    → get_entry k (with_channels cs next) ≡ some messages
unfolding with_channels
get_entry-with_channels k [] next messages e = e
get_entry-with_channels k (c ∷ cs) next messages e =
    get_entry-with_channels k cs (add_missing (get_entry c.id next) c.id next) messages
      (kept (get_entry c.id next) refl)
  where
    kept :
        (o : Option (List Message))
        → get_entry c.id next ≡ o
        → get_entry k (add_missing o c.id next) ≡ some messages
    kept (some other) at = e
    kept none at = elim (Bool-cases (k == c.id)) [
      | inl same ↦
          let lost : none ≡ some messages =
            sym at ∙ ap (λ j. get_entry j next) (sym ((==_iff k c.id).0 same)) ∙ e in
          ground (arith, lost)
      | inr other ↦ rw (get_entry-set_entry k c.id [] next, other) e
    ]

-- A synchronisation with at least one server keeps the messages that were loaded, of every channel,
-- a direct message's among them.
pub sync_arrived-messages :
    (preferred : Option ℕ) (server : Server) (rest : List Server)
    (states : List (ℕ × ServerChannels)) (s : ServersState) (k : ℕ) (messages : List Message)
    → get_entry k s.messages_by_channel ≡ some messages
    → get_entry k (sync_arrived preferred (server ∷ rest) states s).messages_by_channel
      ≡ some messages
unfolding sync_arrived
sync_arrived-messages preferred server rest states s k messages e =
    get_entry-with_channels k (all_channels (channels_of states)) s.messages_by_channel messages e

with_channels_here :
    (k : ℕ) (cs : List Channel) (next : List (ℕ × List Message))
    → has_channel k cs ≡ true
    → is_some (get_entry k (with_channels cs next)) ≡ true
unfolding with_channels
with_channels_here k [] next h = ground (arith, h)
with_channels_here k (c ∷ cs) next h = elim (Bool-cases (c.id == k)) [
  | inl e ↦ stays (get_entry k (add_missing (get_entry c.id next) c.id next)) refl (
      subst (λ j. is_some (get_entry j (add_missing (get_entry c.id next) c.id next)) ≡ true)
        ((==_iff c.id k).0 e) (added (get_entry c.id next) refl))
  | inr e ↦
      with_channels_here k cs (add_missing (get_entry c.id next) c.id next) (ground (arith, h, e))
]
  where
    added :
        (o : Option (List Message))
        → get_entry c.id next ≡ o
        → is_some (get_entry c.id (add_missing o c.id next)) ≡ true
    added (some messages) at = ap is_some at
    added none at = rw (get_entry-set_entry c.id c.id [] next, ==_refl c.id) refl

    stays :
        (o : Option (List Message))
        → get_entry k (add_missing (get_entry c.id next) c.id next) ≡ o
        → is_some o ≡ true
        → is_some (get_entry k (with_channels cs (add_missing (get_entry c.id next) c.id next)))
          ≡ true
    stays none at h = ground (arith, h)
    stays (some messages) at h =
        ap is_some
          (get_entry-with_channels k cs (add_missing (get_entry c.id next) c.id next) messages at)

add_missing_stable :
    (o : Option (List Message)) (c : ℕ) (next : List (ℕ × List Message))
    → is_some o ≡ true
    → add_missing o c next ≡ next
add_missing_stable none c next h = ground (arith, h)
add_missing_stable (some messages) c next h = refl

with_channels_stable :
    (cs : List Channel) (next : List (ℕ × List Message))
    → ((c : ℕ) → has_channel c cs ≡ true → is_some (get_entry c next) ≡ true)
    → with_channels cs next ≡ next
unfolding with_channels
with_channels_stable [] next h = refl
with_channels_stable (c ∷ cs) next h =
    let here : has_channel c.id (c ∷ cs) ≡ true = ground (arith, ==_refl c.id) in
    rw (add_missing_stable (get_entry c.id next) c.id next (h c.id here))
      (with_channels_stable cs next (λ k e. h k (ground (arith, e))))

active_server_stable :
    (preferred : Option ℕ) (from_state : ℕ) (server : Server) (rest : List Server)
    → (server.id == 0) ≡ false
    → active_server none (active_server preferred from_state (server ∷ rest)) (server ∷ rest)
      ≡ active_server preferred from_state (server ∷ rest)
unfolding active_server
active_server_stable preferred from_state server rest e =
    ground (arith, e, if_present-active preferred from_state server rest e)

next_channel_stable :
    (dms : List ℕ) (channels : List Channel) (prev : ℕ)
    → next_channel dms channels (next_channel dms channels prev) ≡ next_channel dms channels prev
unfolding next_channel
next_channel_stable dms [] prev = ground arith
next_channel_stable dms (c ∷ cs) prev = ground (arith, ==_refl c.id)

-- The periodic synchronisation is stable: when the server answers as before, with at least one server,
-- ids being positive, it changes nothing.
pub sync_arrived-twice :
    (preferred : Option ℕ) (server : Server) (rest : List Server)
    (states : List (ℕ × ServerChannels)) (s : ServersState)
    → (server.id == 0) ≡ false
    → let once = sync_arrived preferred (server ∷ rest) states s in
      sync_arrived none (server ∷ rest) states once ≡ once
unfolding sync_arrived
sync_arrived-twice preferred server rest states s e =
    let once = sync_arrived preferred (server ∷ rest) states s in
    let channels = channels_of states in
    let active = active_server_stable preferred s.selected_server server rest e in
    let chosen =
      ap (λ a. next_channel s.dm_channel_ids (entry [] a channels) once.selected_channel) active
      ∙ next_channel_stable s.dm_channel_ids (entry [] once.selected_server channels)
          s.selected_channel in
    let messages =
      with_channels_stable (all_channels channels) once.messages_by_channel
        (λ k. with_channels_here k (all_channels channels) s.messages_by_channel) in
    λ i. record once {
      selected_server = active i;
      stored_selected = some (active i);
      selected_channel = chosen i;
      messages_by_channel = messages i;
    }
