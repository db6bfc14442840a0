-- ===== src/Voice/Microphone.antt =====
-- The user's microphone: what the buttons show, what the call client does and what the server was told.
use mini_discord.Prelude.{
  ℕ, ◌≡◌, refl, Bool, true, false, not, ◌&&◌, List, [], ◌∷◌, ◌++◌, if◌then◌else◌, arith,
}
use mini_discord.Wire.{VoiceParticipant}
use mini_discord.Voice.{
  VoiceState, VoiceCommand, change_voice_status, set_microphone, in_channel, tell_status, with_mic,
  with_status, toggle_microphone, toggle_deafen,
}

-- Whether the call client's microphone is on, and what the server was told of it and of deafening;
-- when a call begins, it is on and the user is not deafened.
abbrev pub Told : Type 0
Told = Bool × Bool × Bool

abbrev hear : VoiceCommand → Told → Told
hear (set_microphone mic) (m, a, b) = (mic, a, b)
hear (change_voice_status user mic deafened) (m, a, b) = (m, mic, deafened)

abbrev pub told : List VoiceCommand → Told → Told
told [] t = t
told (c ∷ cs) t = told cs (hear c t)

abbrev pub at_start : Told
at_start = (true, true, false)

told-append :
    (cs : List VoiceCommand) (c : VoiceCommand) (t : Told)
    → told (cs ++ c ∷ []) t ≡ hear c (told cs t)
told-append [] c t = refl
told-append (x ∷ cs) c t = told-append cs c (hear x t)

-- In a call over an open socket; the microphone is off while the user is deafened, and what was told is
-- what the buttons show.
abbrev pub Agrees : VoiceState → Type 0
Agrees s =
    ((s.has_client && s.has_socket) && in_channel s ≡ true)
    × (told s.asked at_start ≡ (s.is_mic_enabled, s.is_mic_enabled, s.is_deafened))
    × ((s.is_deafened && s.is_mic_enabled) ≡ false)

told_both :
    (cs : List VoiceCommand) (user : ℕ) (mic deafened : Bool) (t : Told)
    → told (cs ++ set_microphone mic ∷ [] ++ change_voice_status user mic deafened ∷ []) t
      ≡ (mic, mic, deafened)
told_both cs user mic deafened t =
    rw
      (
        told-append (cs ++ set_microphone mic ∷ []) (change_voice_status user mic deafened) t,
        told-append cs (set_microphone mic) t,
      )
      refl

tell_status-Agrees :
    (mic deafened : Bool) (f : VoiceParticipant → VoiceParticipant) (s : VoiceState)
    → ((s.has_client && s.has_socket) && in_channel s) ≡ true
    → s.is_mic_enabled ≡ mic
    → s.is_deafened ≡ deafened
    → (deafened && mic) ≡ false
    → Agrees (tell_status mic deafened f s)
tell_status-Agrees mic deafened f s on m d off =
    let client : s.has_client ≡ true = ground (arith, on) in
    let socket : s.has_socket ≡ true = ground (arith, on) in
    let joined : in_channel s ≡ true = ground (arith, on) in
    (
      on,
      rw (client, socket, joined, told_both s.asked s.user_id mic deafened at_start, m, d) refl,
      rw (m, d) off,
    )

if-Agrees :
    (b : Bool) (x y : VoiceState)
    → (b ≡ true → Agrees x)
    → (b ≡ false → Agrees y)
    → Agrees (if b then x else y)
if-Agrees true x y h k = h refl
if-Agrees false x y h k = k refl

toggle_microphone-Agrees : (s : VoiceState) → Agrees s → Agrees (toggle_microphone s)
unfolding toggle_microphone
toggle_microphone-Agrees s h =
    let next = not s.is_mic_enabled in
    let s₁ : VoiceState = record s { is_mic_enabled = next } in
    if-Agrees s.is_deafened s (tell_status next false (with_mic next) s₁) (λ e. h)
      (λ e. tell_status-Agrees next false (with_mic next) s₁ h.0 refl e refl)

toggle_deafen-Agrees : (s : VoiceState) → Agrees s → Agrees (toggle_deafen s)
unfolding toggle_deafen
toggle_deafen-Agrees s h =
    let mic = s.mic_before_deafen in
    let heard : VoiceState = record s { is_deafened = false; is_mic_enabled = mic } in
    let deaf : VoiceState = record s {
      mic_before_deafen = s.is_mic_enabled;
      is_deafened = true;
      is_mic_enabled = false;
    } in
    if-Agrees s.is_deafened (tell_status mic false (with_status mic false) heard)
      (tell_status false true (with_status false true) deaf)
      (λ e. tell_status-Agrees mic false (with_status mic false) heard h.0 refl refl refl)
      (λ e. tell_status-Agrees false true (with_status false true) deaf h.0 refl refl refl)

-- One of the two buttons, `true` for deafening.
abbrev pub press : Bool → VoiceState → VoiceState
unfolding toggle_microphone toggle_deafen
press true s = toggle_deafen s
press false s = toggle_microphone s

abbrev pub press_all : List Bool → VoiceState → VoiceState
unfolding press
press_all [] s = s
press_all (b ∷ bs) s = press_all bs (press b s)

-- In a call over an open socket, from a state that agrees, however the two buttons are pressed: the
-- call client's microphone is on exactly when the button shows it on, the server was last told that and
-- whether the user is deafened, and the microphone is off while the user is deafened.
pub press_all-Agrees : (bs : List Bool) (s : VoiceState) → Agrees s → Agrees (press_all bs s)
unfolding press_all
press_all-Agrees [] s h = h
press_all-Agrees (true ∷ bs) s h = press_all-Agrees bs (toggle_deafen s) (toggle_deafen-Agrees s h)
press_all-Agrees (false ∷ bs) s h =
    press_all-Agrees bs (toggle_microphone s) (toggle_microphone-Agrees s h)
