-- ===== src/Notify/Rules/Decisions.antt =====
-- When a message notifies.
use mini_discord.Prelude.{ℕ, ◌==◌, ◌≡◌, ◌≢◌, ◌↔◌, true, false, ◌&&◌, some, arith}
use mini_discord.Notify.Rules.{
  all, none_, NotificationSettings, message, mention, NotifiableMessage, NotifyContext, is_id,
  is_mention, is_muted, is_do_not_disturb, resolve_level, should_notify,
}

-- Nothing suppresses the message whatever its level: it is another user's, not on screen, and
-- neither do-not-disturb nor a mute is in force.
pub record Audible (now : ℕ) (msg : NotifiableMessage) (ctx : NotifyContext) : Type 0 where
  pub foreign : is_id ctx.current_user_id msg.author_id ≡ false
  pub unseen : ((msg.channel_id == ctx.active_channel_id) && ctx.is_page_visible) ≡ false
  pub disturbing : is_do_not_disturb ctx.settings now ≡ false
  pub unmuted : is_muted ctx.settings ctx.server_id msg.channel_id now ≡ false

-- A message notifies as a mention exactly when it is audible, mentions the user, and its channel's
-- level is not `none`; and plainly exactly when it is audible, does not mention the
-- user, and the level is `all`.
pub should_notify_iff :
    (now : ℕ) (msg : NotifiableMessage) (ctx : NotifyContext)
    → ((should_notify now msg ctx ≡ mention) ↔ (
        Audible now msg ctx
        × (is_mention msg ctx.current_user_id ≡ true)
        × (resolve_level ctx.settings ctx.server_id msg.channel_id ≢ none_)))
      × ((should_notify now msg ctx ≡ message) ↔ (
          Audible now msg ctx
          × (is_mention msg ctx.current_user_id ≡ false)
          × (resolve_level ctx.settings ctx.server_id msg.channel_id ≡ all)))
unfolding should_notify
should_notify_iff now msg ctx = ground arith

-- The level of a direct-message channel, which has no server, depends on the channel's own override
-- alone: neither the default level nor any server's override has a say in it.
pub resolve_level-dm :
    (s t : NotificationSettings) (channel : ℕ)
    → s.channels ≡ t.channels
    → resolve_level (some s) 0 channel ≡ resolve_level (some t) 0 channel
unfolding resolve_level
resolve_level-dm s t channel e = rw e
