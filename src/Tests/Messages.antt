-- ===== src/Tests/Messages.antt =====
-- Loaded messages: patches and pages on short lists.
use mini_discord.Prelude.{ℕ, refl, true, false, List, [], ◌∷◌, ◌++◌, none}
use mini_discord.Wire.{Message, MessageEmbedsEvent, MessageEditedEvent}
use mini_discord.Wire.Responses.{Page, Window}
use mini_discord.Messages.{
  Messages, Context, incoming, embeds_arrived, edit_arrived, window_arrived, newer_arrived,
  load_arrived,
}
use mini_discord.Messages.History.{IsPart, jumps, receives, Steps-IsPart}
use mini_discord.Tests.Unread.{message}

abbrev empty : Messages
empty = record {
  messages_by_channel = λ _. none;
  loaded_channels = λ _. false;
  pagination_by_channel = λ _. none;
  channels_by_server = [];
  error = none;
}

abbrev ctx : Context
ctx = record { selected_server_id = 1; dm_channel_ids = []; show = λ _. "2" }

-- The window holds message 5 of a history in which message 6 follows.
abbrev next_message : Message
next_message = record message { id = 6 }

abbrev window : Window
window = record {
  messages = message ∷ [];
  older_cursor = "";
  newer_cursor = "c";
  has_more_older = false;
  has_more_newer = true;
}

abbrev windowed : Messages
windowed = window_arrived 2 window empty

abbrev edit : MessageEditedEvent
edit = record { channel_id = 2; message_id = 5; content = "ho"; edited_at = "now" }

abbrev embeds : MessageEmbedsEvent
embeds = record { channel_id = 2; message_id = 5; embeds = [] }

-- what the operations compute with
messages : Unit {0}
unfolding incoming embeds_arrived edit_arrived window_arrived newer_arrived load_arrived
messages = tt

abbrev ids : List ℕ
ids = 5 ∷ []

Steps-IsPart_example :
    IsPart
      ((message ∷ next_message ∷ []) ++ next_message ∷ [])
      2
      (incoming ctx next_message windowed)
Steps-IsPart_example =
    Steps-IsPart 2 ((message ∷ next_message ∷ []) ++ next_message ∷ [])
      (incoming ctx next_message windowed)
      (receives (message ∷ next_message ∷ []) windowed ctx next_message refl
        (jumps empty window [] (next_message ∷ []) (λ e. cc)))

abbrev last_page : Page
last_page = record { messages = []; next_cursor = ""; has_more = false }
