-- ===== src/Call/Session/Closed.antt =====
-- What the functions of a session keep: a predicate that is closed under the changes of which they
-- are made is kept by each of them.
use mini_discord.Prelude.{
  String, ℕ, zero, suc, ◌==◌, ◌≡◌, refl, Bool, true, false, not, ◌&&◌, ◌||◌, List, [], Option, none,
  some, arith, is_some, inl, inr, Bool-cases,
}
use mini_discord.Wire.{VoiceParticipant}
use mini_discord.Call.State.{
  camera, CallClient, connected, reconnecting, lost, Command, subscribe, resume_session,
  join_channel, leave_channel, offer, publish_state, Notice, status, local_stream, local_screen,
  listen_only, voice_error, send, emit,
}
use mini_discord.Call.Session.{
  Joined, Caller, owner, recovery, Task, sleeping, resuming, rejoining, creating, opening, offering,
  leaving, acquiring, joining, Outcome, teardown, finish_leave, left, begin_leave, leave, join,
  slot_decls, fail, give_up, open_session, start_over, apply_session, open_peer, rejoin, go_on,
  wake, resumed, offered_slots, joined, restore_camera_state, announce_publish_state, session_lost,
  session_closed, connection_failed, is_peer, sfu_error, sync_participants, set_all, merge_all,
}

abbrev pub is_subscribe : Command → Bool
is_subscribe (subscribe session k t) = true
is_subscribe c = false

-- `connected` or `reconnecting`
abbrev pub is_call_status : Notice → Bool
is_call_status (status connected) = true
is_call_status (status reconnecting) = true
is_call_status e = false

-- The fields that no session depends on.
abbrev pub with_media :
    List (ℕ × VoiceParticipant) → Bool → Option ℕ → Bool → Option ℕ → Bool → CallClient → CallClient
with_media users has_stream track enabled screen sampling s = record s {
  participants = users;
  has_stream = has_stream;
  camera_track = track;
  camera_enabled = enabled;
  screen_stream = screen;
  sampling = sampling;
}

pub record SessionLaws (P : CallClient → Type 0) : Type 0 where
  pub asks : (c : Command) (s : CallClient) → is_subscribe c ≡ false → P s → P (send c s)
  pub tells : (e : Notice) (s : CallClient) → is_call_status e ≡ false → P s → P (emit e s)
  pub keeps_media :
      (users : List (ℕ × VoiceParticipant)) (has_stream : Bool) (track : Option ℕ) (enabled : Bool)
      (screen : Option ℕ) (sampling : Bool) (s : CallClient)
      → P s
      → P (with_media users has_stream track enabled screen sampling s)
  pub torn_down : (s : CallClient) → P s → P (teardown s)
  pub session_opened :
      (r : Joined) (s : CallClient)
      → (r.session == 0) ≡ false
      → P s
      → P (open_peer (apply_session r s))
  pub session_resumed :
      (s : CallClient)
      → P s
      → P (emit (status connected) (record s { session_lost_handled = false }))
  pub loss_ignored :
      (s : CallClient)
      → s.session_lost_handled ≡ false
      → (s.channel_id == 0) ≡ false
      → P s
      → P (record s { session_lost_handled = true })
  pub loss_told :
      (s : CallClient)
      → s.session_lost_handled ≡ false
      → (s.channel_id == 0) ≡ false
      → P s
      → P (emit (status reconnecting) (record s { session_lost_handled = true }))

module _ (P : CallClient → Type 0) (laws : SessionLaws P) where
  finish_leave-P : (s : CallClient) → P s → P (finish_leave s)
  unfolding finish_leave
  finish_leave-P s p =
      let s₁ = teardown s in
      let s₂ = with_media [] false none false none s₁.sampling s₁ in
      laws.tells (local_stream false) (emit (local_screen none) s₂) refl (
        laws.tells (local_screen none) s₂ refl
          (laws.keeps_media [] false none false none s₁.sampling s₁ (laws.torn_down s p)))

  left-P : (then_join : Option ℕ) (s : CallClient) → P s → P (left then_join s).0
  unfolding left
  left-P none s p = finish_leave-P s p
  left-P (some channel) s p = finish_leave-P s p

  begin_leave-P : (then_join : Option ℕ) (s : CallClient) → P s → P (begin_leave then_join s).0
  unfolding begin_leave
  begin_leave-P then_join s p = elim (Bool-cases (s.channel_id == 0)) [
    | inl e ↦ rw e (left-P then_join s p)
    | inr e ↦ rw e (laws.asks leave_channel s refl p)
  ]

  pub leave-P : (s : CallClient) → P s → P (leave s).0
  unfolding leave
  leave-P s p = begin_leave-P none s p

  pub join-P : (channel : ℕ) (s : CallClient) → P s → P (join channel s).0
  unfolding join
  join-P channel s p = elim (Bool-cases (s.channel_id == channel)) [
    | inl e ↦ rw e p
    | inr e ↦ rw e (begin_leave-P (some channel) s p)
  ]

  restore_camera_state-P : (s : CallClient) → P s → P (restore_camera_state s)
  unfolding restore_camera_state announce_publish_state
  restore_camera_state-P s p = elim (Bool-cases (s.session_id == 0)) [
    | inl e ↦ rw e p
    | inr e ↦ rw e (
        laws.asks (publish_state s.session_id camera (s.camera_enabled && is_some s.camera_track)) s
          refl p)
  ]

  fail-P : (c : Caller) (s : CallClient) → P s → P (fail c s).0
  unfolding fail give_up
  fail-P owner s p = p
  fail-P (recovery channel generation zero) s p =
      elim (Bool-cases (generation == s.recovery_generation)) [
        | inl e ↦ rw e (leave-P (emit (status lost) s) (laws.tells (status lost) s refl p))
        | inr e ↦ rw e p
      ]
  fail-P (recovery channel generation (suc n)) s p = p

  open_session-P : (c : Caller) (r : Joined) (s : CallClient) → P s → P (open_session c r s).0
  unfolding open_session
  open_session-P c r s p = elim (Bool-cases (r.session == 0)) [
    | inl e ↦ rw e (fail-P c s p)
    | inr e ↦ rw e (laws.session_opened r s e p)
  ]

  start_over-P : (channel : ℕ) (c : Caller) (s : CallClient) → P s → P (start_over channel c s).0
  unfolding start_over
  start_over-P channel c s p =
      laws.asks (join_channel channel) (teardown s) refl (laws.torn_down s p)

  pub rejoin-P : (channel : ℕ) (c : Caller) (s : CallClient) → P s → P (rejoin channel c s).0
  unfolding rejoin
  rejoin-P channel c s p = elim (Bool-cases (channel == 0)) [
    | inl e ↦ rw e p
    | inr e ↦
        elim (Bool-cases (is_some s.pc && (not (s.session_id == 0) && s.channel_id == channel))) [
          | inl e' ↦ rw (e, e') (laws.asks (resume_session s.session_id) s refl p)
          | inr e' ↦ rw (e, e') (start_over-P channel c s p)
        ]
  ]

  wake-P :
      (channel generation n : ℕ) (is_open : Bool) (s : CallClient)
      → P s
      → P (wake channel generation n is_open s).0
  unfolding wake
  wake-P channel generation n is_open s p =
      elim (Bool-cases (generation == s.recovery_generation)) [
        | inr e ↦ rw e p
        | inl e ↦ elim (Bool-cases is_open) [
          | inr e' ↦ rw (e, e') p
          | inl e' ↦ rw (e, e') (rejoin-P channel (recovery channel generation n) s p)
        ]
      ]

  resumed-P :
      (channel : ℕ) (c : Caller) (o : Option (List VoiceParticipant)) (s : CallClient)
      → P s
      → P (resumed channel c o s).0
  unfolding resumed
  resumed-P channel c none s p = start_over-P channel c s p
  resumed-P channel c (some users) s p =
      let s₁ = emit (status connected) (record s { session_lost_handled = false }) in
      let s₂ =
        with_media (set_all users []) s.has_stream s.camera_track s.camera_enabled s.screen_stream
          s.sampling s₁ in
      restore_camera_state-P s₂ (
        laws.keeps_media (set_all users []) s.has_stream s.camera_track s.camera_enabled
          s.screen_stream s.sampling s₁ (laws.session_resumed s p))

  offered_slots-P : (c : Caller) (ok : Bool) (s : CallClient) → P s → P (offered_slots c ok s).0
  unfolding offered_slots
  offered_slots-P c false s p = fail-P c s p
  offered_slots-P c true s p =
      restore_camera_state-P (record s { sampling = true })
        (laws.keeps_media s.participants s.has_stream s.camera_track s.camera_enabled
          s.screen_stream true s p)

  joined-P :
      (has_stream : Bool) (o : Option Joined) (s : CallClient) → P s → P (joined has_stream o s).0
  unfolding joined
  joined-P has_stream none s p = p
  joined-P has_stream (some r) s p = elim (Bool-cases (s.channel_id == r.channel)) [
    | inl e ↦ rw e p
    | inr e ↦
        let s₁ = with_media s.participants has_stream none false s.screen_stream s.sampling s in
        rw e (
          open_session-P owner r (emit (local_stream has_stream) s₁) (
            laws.tells (local_stream has_stream) s₁ refl (
              laws.keeps_media s.participants has_stream none false s.screen_stream s.sampling s
                p)))
  ]

  pub go_on-P : (t : Task) (o : Outcome t) (s : CallClient) → P s → P (go_on t o s).0
  unfolding go_on
  go_on-P (sleeping channel generation n) is_open s p = wake-P channel generation n is_open s p
  go_on-P (resuming channel c) users s p = resumed-P channel c users s p
  go_on-P (rejoining channel c) none s p = fail-P c s p
  go_on-P (rejoining channel c) (some r) s p = open_session-P c r s p
  go_on-P (creating n c) false s p = fail-P c s p
  go_on-P (creating n c) true s p = p
  go_on-P (opening n c) false s p = fail-P c s p
  go_on-P (opening n c) true s p =
      laws.asks (offer s.session_id (slot_decls n s.publish_slots)) s refl p
  go_on-P (offering c) ok s p = offered_slots-P c ok s p
  go_on-P (leaving then_join) ok s p = left-P then_join s p
  go_on-P (acquiring channel) none s p = laws.asks (join_channel channel) s refl p
  go_on-P (acquiring channel) (some message) s p =
      laws.asks (join_channel channel) (emit (listen_only message) s) refl
        (laws.tells (listen_only message) s refl p)
  go_on-P (joining channel has_stream) r s p = joined-P has_stream r s p

  session_lost-P : (is_open : Bool) (s : CallClient) → P s → P (session_lost is_open s).0
  unfolding session_lost
  session_lost-P is_open s p = elim (Bool-cases (s.session_lost_handled || s.channel_id == 0)) [
    | inl e ↦ rw e p
    | inr e ↦
        let fresh : s.session_lost_handled ≡ false = ground arith in
        let in_channel : (s.channel_id == 0) ≡ false = ground arith in
        elim (Bool-cases is_open) [
          | inl o ↦ rw (e, o) (laws.loss_told s fresh in_channel p)
          | inr o ↦ rw (e, o) (laws.loss_ignored s fresh in_channel p)
        ]
  ]

  pub session_closed-P :
      (session : ℕ) (is_open : Bool) (s : CallClient) → P s → P (session_closed session is_open s).0
  unfolding session_closed
  session_closed-P session is_open s p = elim (Bool-cases (session == s.session_id)) [
    | inl e ↦ rw e (session_lost-P is_open s p)
    | inr e ↦ rw e p
  ]

  pub connection_failed-P :
      (id : ℕ) (is_open : Bool) (s : CallClient) → P s → P (connection_failed id is_open s).0
  unfolding connection_failed
  connection_failed-P id is_open s p = elim (Bool-cases (is_peer id s.pc)) [
    | inl e ↦ rw e (session_lost-P is_open s p)
    | inr e ↦ rw e p
  ]

  pub sfu_error-P :
      (session : ℕ) (message : String) (s : CallClient) → P s → P (sfu_error session message s)
  unfolding sfu_error
  sfu_error-P session message s p =
      elim (Bool-cases (not (session == 0) && not (session == s.session_id))) [
        | inl e ↦ rw e p
        | inr e ↦ rw e (laws.tells (voice_error message) s refl p)
      ]

  pub sync_participants-P :
      (channel : ℕ) (users : List VoiceParticipant) (s : CallClient)
      → P s
      → P (sync_participants channel users s)
  unfolding sync_participants
  sync_participants-P channel users s p =
      elim (Bool-cases (not (channel == s.channel_id) || s.channel_id == 0)) [
        | inl e ↦ rw e p
        | inr e ↦ rw e (
            laws.keeps_media (merge_all s.self_user_id users s.participants) s.has_stream
              s.camera_track s.camera_enabled s.screen_stream s.sampling s p)
      ]
