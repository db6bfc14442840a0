-- ===== src/Tests/Notify.antt =====
-- Notification rules, tab election and sound limits at concrete inputs.
use mini_discord.Prelude.{ℕ, ◌≡◌, ◌≢◌, ◌↔◌, refl, true, false, [], ◌∷◌, none, some, arith}
use mini_discord.Notify.Rules.{
  all, mentions, none_, NotificationSettings, message, mention, NotifiableMessage, NotifyContext,
  is_mention, resolve_level, should_notify,
}
use mini_discord.Notify.Rules.Decisions.{Audible, should_notify_iff}
use mini_discord.Notify.Leader.{Tab, init_leader_election, claim, stop}
use mini_discord.Notify.Leader.Election.{hear, hear-leads, hear_unique, restart_claims_nothing}
use mini_discord.Notify.Sound.{SoundName}
use mini_discord.Notify.Sound.Limits.{Call}

abbrev settings : NotificationSettings
settings = record {
  default_level = mentions;
  hide_message_preview = false;
  dnd_until = none;
  servers = [];
  channels = [];
}

abbrev plain : NotifiableMessage
plain = record {
  id = 1;
  channel_id = 2;
  author_id = 3;
  mentions = some (4 ∷ []);
  mentions_everyone = none;
  reply_to_author = none;
}

abbrev away : NotifyContext
away = record {
  current_user_id = some 4;
  active_channel_id = 2;
  is_page_visible = false;
  server_id = 1;
  settings = some settings;
}

mentioned : should_notify 100 plain away ≡ mention
unfolding should_notify
mentioned = refl

should_notify_iff_example :
    ((should_notify 100 plain away ≡ mention) ↔ (
      Audible 100 plain away
      × (is_mention plain (some 4) ≡ true)
      × (resolve_level (some settings) 1 2 ≢ none_)))
    × ((should_notify 100 plain away ≡ message) ↔ (
        Audible 100 plain away
        × (is_mention plain (some 4) ≡ false)
        × (resolve_level (some settings) 1 2 ≡ all)))
should_notify_iff_example = should_notify_iff 100 plain away

abbrev leader : ℕ → Tab
leader id = record {
  is_leader = true;
  my_id = id;
  leader_id = some id;
  heartbeating = true;
  watching = false;
}

hear_unique_example : (hear (5 ∷ 7 ∷ []) (leader 7)).is_leader ≡ false
hear_unique_example =
    hear_unique (leader 5) (leader 7) (7 ∷ []) (5 ∷ 7 ∷ []) (λ e. omega (arith, e)) refl refl leads
  where
    leads : (hear (7 ∷ []) (leader 5)).is_leader ≡ true
    leads = ((hear-leads (7 ∷ []) (leader 5)).1 (refl, (omega arith, tt)))

abbrev idle : Tab
idle = record {
  is_leader = false;
  my_id = 0;
  leader_id = none;
  heartbeating = false;
  watching = false;
}

restart_claims_nothing_example :
    ((claim (init_leader_election 6 (stop (leader 5)))).0.is_leader ≡ false)
    × ((claim (init_leader_election 6 (stop (leader 5)))).1 ≡ [])
restart_claims_nothing_example = restart_claims_nothing 6 5 (leader 5) refl

abbrev call : ℕ → Call
call now = record {
  enabled = true;
  now = now;
  name = SoundName.message;
  opts = record { channel_id = some 2; bypass_channel_limit = false };
}
