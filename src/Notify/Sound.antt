-- ===== src/Notify/Sound.antt =====
-- `playSound` of frontend/src/services/notifications/sound.ts: the two rate limits. The setting
-- `isSoundEnabled()` and the time `Date.now()` are arguments. What is played is kept in order, with
-- its time; the pool of audio elements has no part in the decision.
pub mod Limits
use mini_discord.Prelude.{
  ℕ, ◌+◌, ltb, ◌==◌, Bool, not, ◌&&◌, List, [], ◌∷◌, ◌++◌, Option, none, some, if◌then◌else◌,
}

pub data SoundName : Type 0 where
  message mention join leave : SoundName

pub record PlayOptions : Type 0 where
  pub channel_id : Option ℕ
  pub bypass_channel_limit : Bool

pub record Played : Type 0 where
  pub name : SoundName
  pub channel : Option ℕ
  pub at : ℕ

-- `lastPlayedByChannel` is a function, `none` where the map has no entry.
pub record Player : Type 0 where
  pub last_played_by_channel : ℕ → Option ℕ
  pub last_played_global : ℕ
  pub played : List Played

abbrev pub channel_rate_limit_ms : ℕ
channel_rate_limit_ms = 3000

abbrev pub global_rate_limit_ms : ℕ
global_rate_limit_ms = 1000

-- `map.get(id) ?? 0`
abbrev or_zero : Option ℕ → ℕ
or_zero none = 0
or_zero (some n) = n

-- `now - last < limit`; the difference is negative where the clock was set back.
abbrev pub within : ℕ → ℕ → ℕ → Bool
within now last limit = ltb now (last + limit)

-- the test of the channel's limit
abbrev pub channel_limited : Option ℕ → Bool → ℕ → (ℕ → Option ℕ) → Bool
channel_limited none bypass now last = Bool.false
channel_limited (some c) bypass now last =
    not bypass && within now (or_zero (last c)) channel_rate_limit_ms

abbrev note_channel : Option ℕ → ℕ → (ℕ → Option ℕ) → ℕ → Option ℕ
note_channel none now last = last
note_channel (some c) now last = λ k. if k == c then some now else last k

unfoldable pub play_sound : Bool → ℕ → SoundName → PlayOptions → Player → Player
play_sound enabled now name opts p =
    if not enabled
    then p
    else if within now p.last_played_global global_rate_limit_ms
    then p
    else if channel_limited opts.channel_id opts.bypass_channel_limit now p.last_played_by_channel
    then p
    else record p {
      played = p.played ++ record { name = name; channel = opts.channel_id; at = now } ∷ [];
      last_played_global = now;
      last_played_by_channel = note_channel opts.channel_id now p.last_played_by_channel;
    }
