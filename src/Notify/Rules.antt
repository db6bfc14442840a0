-- ===== src/Notify/Rules.antt =====
-- frontend/src/services/notifications/rules.ts and the settings of types/notifications.ts. Times are
-- milliseconds; a stored time is what `new Date(iso).getTime()` gives, `none` for `null`, the
-- empty text and a text that is no date.
pub mod Decisions
use mini_discord.Prelude.{
  ℕ, ltb, leb, ◌==◌, Bool, true, false, not, ◌&&◌, ◌||◌, List, [], ◌∷◌, Option, none, some,
  if◌then◌else◌, find, includes,
}

pub data NotificationLevel : Type 0 where
  all mentions none_ : NotificationLevel

pub record ServerOverride : Type 0 where
  pub server_id : ℕ
  pub level : Option NotificationLevel
  pub muted_until : Option ℕ

pub record ChannelOverride : Type 0 where
  pub channel_id : ℕ
  pub level : Option NotificationLevel
  pub muted_until : Option ℕ

pub record NotificationSettings : Type 0 where
  pub default_level : NotificationLevel
  pub hide_message_preview : Bool
  pub dnd_until : Option ℕ
  pub servers : List ServerOverride
  pub channels : List ChannelOverride

pub data NotifyDecision : Type 0 where
  skip message mention : NotifyDecision

pub record NotifiableMessage : Type 0 where
  pub id : ℕ
  pub channel_id : ℕ
  pub author_id : ℕ
  pub mentions : Option (List ℕ)
  pub mentions_everyone : Option Bool
  pub reply_to_author : Option ℕ

pub record NotifyContext : Type 0 where
  pub current_user_id : Option ℕ
  pub active_channel_id : ℕ
  pub is_page_visible : Bool
  pub server_id : ℕ
  pub settings : Option NotificationSettings

-- `list?.includes(id)`
abbrev listed : ℕ → Option (List ℕ) → Bool
listed id none = false
listed id (some ids) = includes id ids

-- `a === id`, false where `a` is absent
abbrev pub is_id : Option ℕ → ℕ → Bool
is_id none id = false
is_id (some a) id = a == id

abbrev is_true : Option Bool → Bool
is_true none = false
is_true (some b) = b

abbrev mentioned_by : NotifiableMessage → ℕ → Bool
mentioned_by msg user =
    listed user msg.mentions || (is_id msg.reply_to_author user || is_true msg.mentions_everyone)

unfoldable pub is_mention : NotifiableMessage → Option ℕ → Bool
is_mention msg none = false
is_mention msg (some user) = mentioned_by msg user

unfoldable pub is_time_in_future : Option ℕ → ℕ → Bool
is_time_in_future none now = false
is_time_in_future (some t) now = ltb now t

abbrev pub channel_override : ℕ → NotificationSettings → Option ChannelOverride
channel_override channel s = find (λ c. c.channel_id == channel) s.channels

abbrev pub server_override : ℕ → NotificationSettings → Option ServerOverride
server_override server s = find (λ o. o.server_id == server) s.servers

-- `override?.level` and `override?.muted_until ?? null`
abbrev channel_level : Option ChannelOverride → Option NotificationLevel
channel_level none = none
channel_level (some o) = o.level

abbrev server_level : Option ServerOverride → Option NotificationLevel
server_level none = none
server_level (some o) = o.level

abbrev channel_mute : Option ChannelOverride → Option ℕ
channel_mute none = none
channel_mute (some o) = o.muted_until

abbrev server_mute : Option ServerOverride → Option ℕ
server_mute none = none
server_mute (some o) = o.muted_until

abbrev level_or : Option NotificationLevel → NotificationLevel → NotificationLevel
level_or none d = d
level_or (some l) d = l

unfoldable pub resolve_level : Option NotificationSettings → ℕ → ℕ → NotificationLevel
resolve_level none server channel = all
resolve_level (some s) server channel = level_or (channel_level (channel_override channel s)) (
    if leb server 0
    then all
    else level_or (server_level (server_override server s)) s.default_level)

unfoldable pub is_muted : Option NotificationSettings → ℕ → ℕ → ℕ → Bool
unfolding is_time_in_future
is_muted none server channel now = false
is_muted (some s) server channel now =
    is_time_in_future (channel_mute (channel_override channel s)) now
    || is_time_in_future (server_mute (server_override server s)) now

unfoldable pub is_do_not_disturb : Option NotificationSettings → ℕ → Bool
unfolding is_time_in_future
is_do_not_disturb none now = false
is_do_not_disturb (some s) now = is_time_in_future s.dnd_until now

-- `shouldNotify` from the resolved level on.
abbrev decide : NotificationLevel → Bool → Bool → NotifyDecision
decide none_ muted mentioned = skip
decide all muted mentioned = if muted then skip else if mentioned then mention else message
decide mentions muted mentioned = if muted then skip else if mentioned then mention else skip

-- `now` is the value of `Date.now()` in the calls of `isMuted` and `isDoNotDisturb`.
unfoldable pub should_notify : ℕ → NotifiableMessage → NotifyContext → NotifyDecision
unfolding is_do_not_disturb is_muted is_mention resolve_level
should_notify now msg ctx =
    if is_id ctx.current_user_id msg.author_id
    then skip
    else if (msg.channel_id == ctx.active_channel_id) && ctx.is_page_visible
    then skip
    else if is_do_not_disturb ctx.settings now
    then skip
    else decide (resolve_level ctx.settings ctx.server_id msg.channel_id)
        (is_muted ctx.settings ctx.server_id msg.channel_id now)
        (is_mention msg ctx.current_user_id)
