-- ===== src/Wire/Responses/Commands.antt =====
-- The methods of `ChatSocket` that send a command and wait for its acknowledgement alone
-- (frontend/src/services/chatSocket.ts).
use mini_discord.Prelude.{ℕ, String, Bool}
use mini_discord.Json.{Fields, bool, num, str, end, field}
use mini_discord.Wire.Responses.{ok, Method}

-- The promise resolves with nothing, whatever the reply holds.
abbrev pub acked : String → Fields → Method (Unit {0})
acked action payload = record { action = action; payload = payload; decode = λ v. ok tt }

abbrev pub join_server : ℕ → Method (Unit {0})
join_server server = acked "join_server" (field "server_id" (num server) end)

abbrev pub delete_server : ℕ → Method (Unit {0})
delete_server server = acked "delete_server" (field "server_id" (num server) end)

abbrev pub delete_channel : ℕ → Method (Unit {0})
delete_channel channel = acked "delete_channel" (field "channel_id" (num channel) end)

abbrev pub delete_message : ℕ → Method (Unit {0})
delete_message message = acked "delete_message" (field "message_id" (num message) end)

abbrev pub edit_message : ℕ → String → Method (Unit {0})
edit_message message content =
    acked "edit_message" (field "message_id" (num message) (field "content" (str content) end))

abbrev pub leave_voice_channel : Method (Unit {0})
leave_voice_channel = acked "leave_voice_channel" end

abbrev pub change_voice_status : ℕ → Bool → Bool → Method (Unit {0})
change_voice_status user mic_enabled deafened = acked "change_voice_status" (
    field "user_id" (num user)
      (field "mic_enabled" (bool mic_enabled) (field "deafened" (bool deafened) end)))

abbrev pub close_dm : ℕ → Method (Unit {0})
close_dm channel = acked "close_dm" (field "channel_id" (num channel) end)

abbrev pub send_sfu_answer : String → String → Method (Unit {0})
send_sfu_answer session sdp =
    acked "sfu_answer" (field "session_id" (str session) (field "sdp" (str sdp) end))

abbrev pub send_sfu_publish_state : String → String → Bool → Method (Unit {0})
send_sfu_publish_state session source active = acked "sfu_publish_state" (
    field "session_id" (str session)
      (field "source" (str source) (field "active" (bool active) end)))

pub data VideoQuality : Type 0 where
  off low high : VideoQuality

abbrev quality_text : VideoQuality → String
quality_text VideoQuality.off = "off"
quality_text VideoQuality.low = "low"
quality_text VideoQuality.high = "high"

abbrev pub send_sfu_subscribe_video : String → ℕ → String → VideoQuality → Method (Unit {0})
send_sfu_subscribe_video session user source quality = acked "sfu_subscribe_video" (
    field "session_id" (str session) (
      field "target_user_id" (num user)
        (field "source" (str source) (field "quality" (str (quality_text quality)) end))))
