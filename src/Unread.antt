-- ===== src/Unread.antt =====
-- Read marks and unread counters: frontend/src/hooks/useUnread.ts. The hook's refs and its two
-- states are one record; `Date.now()`, the selected channel, the page's visibility and whether the
-- socket can send are arguments. Channels and messages have positive ids.
pub mod Marks
pub mod Lost
pub mod Pending
pub mod Counters
use mini_discord.Prelude.{
  ℕ, ◌+◌, ◌*◌, leb, ltb, max, ◌==◌, Bool, true, false, not, ◌&&◌, ◌||◌, List, [], ◌∷◌, ◌++◌, Option,
  none, some, if◌then◌else◌, keep, any, includes, put, entry, set_entry,
}
use mini_discord.Wire.{Message, Channel, ChannelUnread}

pub record Mark : Type 0 where
  pub channel_id : ℕ
  pub message_id : ℕ

-- The maps by channel are functions; `?? 0` is the value of a missing entry. `timers` holds the
-- channels with an armed timer in the order of arming, `marks` the frames sent.
pub record Unread : Type 0 where
  pub unread_by_channel : List (ℕ × ℕ)
  pub unread_mention_by_channel : List (ℕ × Bool)
  pub last_message_id : ℕ → ℕ
  pub server_id_by_channel : ℕ → ℕ
  pub pending : ℕ → Option ℕ
  pub last_sent : ℕ → ℕ
  pub last_sent_at : ℕ → ℕ
  pub timers : List ℕ
  pub marks : List Mark

unfoldable pub initial : Unread
initial = record {
  unread_by_channel = [];
  unread_mention_by_channel = [];
  last_message_id = λ _. 0;
  server_id_by_channel = λ _. 0;
  pending = λ _. none;
  last_sent = λ _. 0;
  last_sent_at = λ _. 0;
  timers = [];
  marks = [];
}

abbrev pub mark_read_throttle_ms : ℕ
mark_read_throttle_ms = 2000

-- `sendMarkRead` drops the frame when the WebSocket is not open.
abbrev send_mark : Bool → ℕ → ℕ → List Mark → List Mark
send_mark is_open c m marks =
    if is_open then marks ++ record { channel_id = c; message_id = m } ∷ [] else marks

abbrev send_pending : Bool → ℕ → ℕ → Option ℕ → Unread → Unread
send_pending is_open now c none s = s
send_pending is_open now c (some m) s =
    if leb m (s.last_sent c) then record s { pending = put c none s.pending } else record s {
      marks = send_mark is_open c m s.marks;
      last_sent = put c m s.last_sent;
      last_sent_at = put c now s.last_sent_at;
      pending = put c none s.pending;
    }

unfoldable pub send_now : Bool → ℕ → ℕ → Unread → Unread
send_now is_open now c s = send_pending is_open now c (s.pending c) s

abbrev pub drop_timer : ℕ → List ℕ → List ℕ
drop_timer c = keep (λ k. not (k == c))

unfoldable pub flush_channel : Bool → ℕ → ℕ → Unread → Unread
unfolding send_now
flush_channel is_open now c s = send_now is_open now c (record s { timers = drop_timer c s.timers })

-- the channels as they were when the loop began
abbrev pub flush_channels : Bool → ℕ → List ℕ → Unread → Unread
unfolding flush_channel
flush_channels is_open now [] s = s
flush_channels is_open now (c ∷ cs) s =
    flush_channels is_open now cs (flush_channel is_open now c s)

unfoldable pub flush_all : Bool → ℕ → Unread → Unread
flush_all is_open now s = flush_channels is_open now s.timers s

-- The timer of a channel runs out: nothing happens unless it is armed.
unfoldable pub timer_fired : Bool → ℕ → ℕ → Unread → Unread
unfolding send_now
timer_fired is_open now c s =
    if includes c s.timers
    then send_now is_open now c (record s { timers = drop_timer c s.timers })
    else s

-- `now - lastSentAt >= MARK_READ_THROTTLE_MS`
unfoldable pub schedule_send : Bool → ℕ → ℕ → ℕ → Bool → Unread → Unread
unfolding send_now flush_channel
schedule_send is_open now c m force s =
    if leb m (s.last_sent c)
    then s
    else let s₁ : Unread = record s { pending = put c (some m) s.pending } in
      if force
      then flush_channel is_open now c s₁
      else if leb (s.last_sent_at c + mark_read_throttle_ms) now
      then send_now is_open now c s₁
      else if includes c s.timers
      then s₁
      else record s₁ { timers = s.timers ++ c ∷ [] }

-- Counters of a channel that is read are cleared, unless they are already.
abbrev clear_count : ℕ → List (ℕ × ℕ) → List (ℕ × ℕ)
clear_count c counts = if entry 0 c counts == 0 then counts else set_entry c 0 counts

abbrev clear_mention : ℕ → List (ℕ × Bool) → List (ℕ × Bool)
clear_mention c flags = if entry false c flags then set_entry c false flags else flags

unfoldable pub mark_channel_read : Bool → ℕ → ℕ → ℕ → Bool → Unread → Unread
unfolding schedule_send
mark_channel_read is_open now c m force s =
    if c == 0 || m == 0
    then s
    else schedule_send is_open now c m force (record s {
      unread_by_channel = clear_count c s.unread_by_channel;
      unread_mention_by_channel = clear_mention c s.unread_mention_by_channel;
    })

-- What the listener sees of the page.
pub record Page : Type 0 where
  pub current_user_id : Option ℕ
  pub selected_channel_id : ℕ
  pub is_visible : Bool

abbrev pub is_user : Option ℕ → ℕ → Bool
is_user none a = false
is_user (some u) a = u == a

abbrev has_mention : ℕ → Option (List ℕ) → Bool
has_mention u none = false
has_mention u (some ids) = includes u ids

-- `flag === true`
abbrev said_true : Option Bool → Bool
said_true none = false
said_true (some b) = b

abbrev pub is_mentioned : Option ℕ → Message → Bool
is_mentioned none message = false
is_mentioned (some u) message =
    has_mention u message.mentions || said_true message.mentions_everyone

abbrev note_known : Message → Unread → Unread
note_known message s =
    if ltb (s.last_message_id message.channel_id) message.id
    then record s { last_message_id = put message.channel_id message.id s.last_message_id }
    else s

abbrev count_message : Option ℕ → Message → Unread → Unread
count_message user message s = record s {
  unread_by_channel =
      set_entry message.channel_id (entry 0 message.channel_id s.unread_by_channel + 1)
        s.unread_by_channel;
  unread_mention_by_channel =
      if is_mentioned user message
      then set_entry message.channel_id true s.unread_mention_by_channel
      else s.unread_mention_by_channel;
}

-- `socket.onMessage`
unfoldable pub incoming : Page → Bool → ℕ → Message → Unread → Unread
unfolding mark_channel_read
incoming page is_open now message s =
    let known = note_known message s in
    if is_user page.current_user_id message.author_id
    then known
    else if message.channel_id == page.selected_channel_id && page.is_visible
    then mark_channel_read is_open now message.channel_id message.id false known
    else count_message page.current_user_id message known

abbrev unread_entries : List ChannelUnread → List (ℕ × ℕ) → List (ℕ × ℕ)
unread_entries [] acc = acc
unread_entries (c ∷ cs) acc = unread_entries cs (set_entry c.channel_id c.unread_count acc)

-- Where the reply names a server.
abbrev note_servers : List ChannelUnread → (ℕ → ℕ) → ℕ → ℕ
note_servers [] server_of = server_of
note_servers (c ∷ cs) server_of =
    note_servers cs (if c.server_id == 0 then server_of else put c.channel_id c.server_id server_of)

-- `refreshUnread`, once the reply is there
unfoldable pub refresh_unread : List ChannelUnread → Unread → Unread
refresh_unread channels s = record s {
  unread_by_channel = unread_entries channels [];
  server_id_by_channel = note_servers channels s.server_id_by_channel;
}

-- `list[list.length - 1].id`, 0 for a list that is empty or not there
abbrev last_id : List Message → ℕ
last_id [] = 0
last_id (message ∷ []) = message.id
last_id (message ∷ next ∷ rest) = last_id (next ∷ rest)

-- The effect that marks the open channel read while the page is visible.
unfoldable pub view_selected : Page → Bool → ℕ → List Message → Unread → Unread
unfolding mark_channel_read
view_selected page is_open now loaded s =
    let c = page.selected_channel_id in
    let m = max (s.last_message_id c) (last_id loaded) in
    if c == 0 || not page.is_visible
    then s
    else if m == 0
    then record s { unread_by_channel = clear_count c s.unread_by_channel }
    else mark_channel_read is_open now c m false
        (record s { last_message_id = put c m s.last_message_id })

abbrev note_channels : ℕ → List Channel → (ℕ → ℕ) → ℕ → ℕ
note_channels server [] server_of = server_of
note_channels server (ch ∷ chs) server_of = note_channels server chs (put ch.id server server_of)

-- The servers in ascending order, as `Object.entries` gives them.
abbrev note_lists : List (ℕ × List Channel) → (ℕ → ℕ) → ℕ → ℕ
note_lists [] server_of = server_of
note_lists (kv ∷ rest) server_of = note_lists rest (note_channels kv.0 kv.1 server_of)

abbrev add_count : ℕ → ℕ → List (ℕ × ℕ) → List (ℕ × ℕ)
add_count server count acc =
    if count == 0 || server == 0 then acc else set_entry server (entry 0 server acc + count) acc

abbrev pub server_counts : (ℕ → ℕ) → List (ℕ × ℕ) → List (ℕ × ℕ) → List (ℕ × ℕ)
server_counts server_of [] acc = acc
server_counts server_of (kv ∷ rest) acc =
    server_counts server_of rest (add_count (server_of kv.0) kv.1 acc)

-- The server of a channel, 0 where there is none.
unfoldable pub server_map : List (ℕ × List Channel) → Unread → ℕ → ℕ
server_map servers s = note_lists servers s.server_id_by_channel

unfoldable pub unread_by_server : List (ℕ × List Channel) → Unread → List (ℕ × ℕ)
unfolding server_map
unread_by_server servers s = server_counts (server_map servers s) s.unread_by_channel []

unfoldable pub total_unread : List (ℕ × ℕ) → ℕ
total_unread [] = 0
total_unread (kv ∷ rest) = kv.1 + total_unread rest

unfoldable pub has_unread_mention : List (ℕ × ℕ) → List (ℕ × Bool) → Bool
has_unread_mention counts flags = any (λ kv. kv.1 && ltb 0 (entry 0 kv.0 counts)) flags
