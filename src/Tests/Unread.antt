-- ===== src/Tests/Unread.antt =====
-- Read marks on a short series of actions.
use mini_discord.Prelude.{◌≡◌, refl, true, false, List, [], ◌∷◌, none, some, arith, includes}
use mini_discord.Json.{undefined}
use mini_discord.Wire.{Message, Channel, ChannelType}
use mini_discord.Unread.{
  Unread, unread_by_server, Page, initial, incoming, total_unread, schedule_send, send_now,
  flush_all,
}
use mini_discord.Unread.Marks.{Action, run, ids, Rising, marks-Rising}
use mini_discord.Unread.Lost.{lost_mark}
use mini_discord.Unread.Pending.{flush_all-none}

abbrev pub message : Message
message = record {
  id = 5;
  channel_id = 2;
  author_id = 9;
  author_first_name = undefined;
  author_last_name = undefined;
  author_nickname = undefined;
  author_avatar_url = "";
  content = "hi";
  attachments = none;
  reply_to_id = none;
  reply_to = none;
  mentions = none;
  mentions_everyone = none;
  embeds = [];
  created_at = "";
  edited_at = none;
}

-- The user reads messages 3 and 4 of channel 1; the second mark waits for its timer.
abbrev reading : List Action
reading =
    Action.reads true 5000 1 3 false
    ∷ Action.reads true 5100 1 4 false
    ∷ Action.fires true 7000 1
    ∷ []

-- what a run computes with
unread : Unit {0}
unfolding run initial incoming total_unread schedule_send flush_all
unread = tt

read_ids : ids 1 (run reading initial).marks ≡ 3 ∷ 4 ∷ []
unfolding unread
read_ids = refl

marks-Rising_example : Rising 0 (3 ∷ 4 ∷ [])
unfolding unread
marks-Rising_example = marks-Rising 1 reading

flush_all-none_example : (flush_all false 5200 (run reading initial)).pending 1 ≡ none
flush_all-none_example = flush_all-none reading false 5200 1

abbrev elsewhere : Page
elsewhere = record { current_user_id = some 1; selected_channel_id = 3; is_visible = true }

-- Message 4 is read while its mark has to wait; the timer fires while the WebSocket is not open, and
-- the user reads message 4 again when it is.
abbrev waiting : Unread
waiting = run (Action.reads true 5000 1 3 false ∷ Action.reads true 5100 1 4 false ∷ []) initial

abbrev later : List Action
later = Action.reads true 9000 1 4 false ∷ Action.leaves true 9100 1 ∷ []

lost_mark_example : includes 4 (ids 1 (run later (send_now false 7000 1 waiting)).marks) ≡ false
unfolding unread
lost_mark_example = lost_mark 7000 1 4 later waiting refl (omega arith) refl

-- Channel 2 belongs to server 7, channel 4 to none.
abbrev two_channels : Unread
two_channels = record initial { unread_by_channel = (2, 3) ∷ (4, 1) ∷ [] }

abbrev text_channel : Channel
text_channel = record { id = 2; server_id = 7; name = "general"; type = ChannelType.text }

by_server : unread_by_server ((7, text_channel ∷ []) ∷ []) two_channels ≡ (7, 3) ∷ []
unfolding unread unread_by_server
by_server = refl
