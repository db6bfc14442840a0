-- ===== src/Call/Video/Closed.antt =====
-- What the events of tracks and users keep.
use mini_discord.Prelude.{
  ℕ, ◌==◌, ◌≡◌, refl, Bool, true, false, not, ◌&&◌, ◌||◌, List, [], ◌∷◌, Option, none, some, ◌++◌,
  is_some, get_entry, set_entry, inl, inr, Bool-cases, delete_entry,
}
use mini_discord.Wire.{VoiceParticipant}
use mini_discord.Call.State.{
  Source, camera, Kind, is_video, is_tile_source, Tier, Key, add_key, delete_key, delete_user,
  has_key, Tile, VideoSlots, CallClient, subscribe, Notice, remote_stream, remote_left, send, emit,
}
use mini_discord.Call.Video.{
  desired, reconcile, reconcile_remote_video, refresh_tile, refresh_remote_video, slots_or_none,
  fill_slot, end_slot, handle_track, track_published, track_unpublished, show_again, request_video,
  video_ended, other_ended, remove_from, user_left, user_joined, tile_or_new, tell_left, add_track,
  known, quality_for, subscribe_all, flush_subscriptions, subscribe_failed, missing_from, retarget,
  active_speakers, unique, is_nil,
}

-- An emission about a participant's stream.
abbrev pub is_remote : Notice → Bool
is_remote (remote_stream user) = true
is_remote (remote_left user) = true
is_remote e = false

-- The fields that the tiles are made of, and the requests for video that wait.
abbrev pub with_tiles :
    List (ℕ × VoiceParticipant)
    → List (ℕ × Tile)
    → List (ℕ × VideoSlots)
    → List Key
    → List Key
    → Bool
    → CallClient
    → CallClient
with_tiles users tiles slots hidden pending debouncing s = record s {
  participants = users;
  tiles = tiles;
  video_slots = slots;
  hidden = hidden;
  pending_subscriptions = pending;
  debouncing = debouncing;
}

pub record TileLaws (P : CallClient → Type 0) : Type 0 where
  pub tells_remote : (e : Notice) (s : CallClient) → is_remote e ≡ true → P s → P (emit e s)
  pub redraws :
      (users : List (ℕ × VoiceParticipant)) (tiles : List (ℕ × Tile))
      (slots : List (ℕ × VideoSlots)) (hidden pending : List Key) (debouncing : Bool)
      (s : CallClient)
      → P s
      → P (with_tiles users tiles slots hidden pending debouncing s)

module _ (P : CallClient → Type 0) (laws : TileLaws P) where
  reconcile_remote_video-P :
      (live : ℕ → Bool) (user : ℕ) (tile : Tile) (s : CallClient)
      → P s
      → P (reconcile_remote_video live user tile s)
  unfolding reconcile_remote_video
  reconcile_remote_video-P live user tile s p =
      let d = desired live s.hidden user (slots_or_none (get_entry user s.video_slots)) in
      laws.redraws s.participants (set_entry user (reconcile d tile) s.tiles) s.video_slots s.hidden
        s.pending_subscriptions s.debouncing s p

  refresh_tile-P :
      (live : ℕ → Bool) (user : ℕ) (o : Option Tile) (s : CallClient)
      → P s
      → P (refresh_tile live user o s)
  unfolding refresh_tile
  refresh_tile-P live user none s p = p
  refresh_tile-P live user (some tile) s p =
      laws.tells_remote (remote_stream user) (reconcile_remote_video live user tile s) refl
        (reconcile_remote_video-P live user tile s p)

  refresh_remote_video-P :
      (live : ℕ → Bool) (user : ℕ) (s : CallClient) → P s → P (refresh_remote_video live user s)
  unfolding refresh_remote_video
  refresh_remote_video-P live user s p = refresh_tile-P live user (get_entry user s.tiles) s p

  hide-P :
      (live : ℕ → Bool) (user : ℕ) (hidden : List Key) (s : CallClient)
      → P s
      → P (refresh_remote_video live user (record s { hidden = hidden }))
  hide-P live user hidden s p =
      refresh_remote_video-P live user (record s { hidden = hidden })
        (laws.redraws s.participants s.tiles s.video_slots hidden s.pending_subscriptions
          s.debouncing s p)

  pub handle_track-P :
      (live : ℕ → Bool) (user : ℕ) (source : Source) (kind : Kind) (t : ℕ) (s : CallClient)
      → P s
      → P (handle_track live user source kind t s)
  unfolding handle_track
  handle_track-P live user source kind t s p =
      let tile = tile_or_new (get_entry user s.tiles) in
      let users = set_entry user (known user (get_entry user s.participants)) s.participants in
      let slots =
        set_entry user (fill_slot source t (slots_or_none (get_entry user s.video_slots)))
          s.video_slots in
      let s₂ = with_tiles users s.tiles slots s.hidden s.pending_subscriptions s.debouncing s in
      let tiles = set_entry user (add_track kind t tile) s.tiles in
      elim (Bool-cases (user == s.self_user_id)) [
        | inl e ↦ rw e p
        | inr e ↦ elim (Bool-cases (is_video kind && is_tile_source source)) [
          | inl v ↦
              rw (e, v)
                (laws.tells_remote (remote_stream user) (reconcile_remote_video live user tile s₂)
                  refl
                  (reconcile_remote_video-P live user tile s₂ (
                    laws.redraws users s.tiles slots s.hidden s.pending_subscriptions s.debouncing s
                      p)))
          | inr v ↦
              rw (e, v)
                (laws.tells_remote (remote_stream user)
                  (with_tiles users tiles s.video_slots s.hidden s.pending_subscriptions
                    s.debouncing s)
                  refl
                  (laws.redraws users tiles s.video_slots s.hidden s.pending_subscriptions
                    s.debouncing s p))
        ]
      ]

  pub video_ended-P :
      (live : ℕ → Bool) (user : ℕ) (source : Source) (t : ℕ) (s : CallClient)
      → P s
      → P (video_ended live true user source t s)
  unfolding video_ended
  video_ended-P live user source t s p =
      let slots = end_slot user source t (get_entry user s.video_slots) s.video_slots in
      refresh_remote_video-P live user (record s { video_slots = slots })
        (laws.redraws s.participants s.tiles slots s.hidden s.pending_subscriptions s.debouncing s
          p)

  pub other_ended-P :
      (user : ℕ) (kind : Kind) (t : ℕ) (s : CallClient) → P s → P (other_ended user kind t s)
  unfolding other_ended
  other_ended-P user kind t s p =
      let tiles = remove_from user kind t (get_entry user s.tiles) s.tiles in
      laws.tells_remote (remote_stream user) (record s { tiles = tiles }) refl
        (laws.redraws s.participants tiles s.video_slots s.hidden s.pending_subscriptions
          s.debouncing s p)

  show_again-P : (live : ℕ → Bool) (k : Key) (s : CallClient) → P s → P (show_again live k s)
  unfolding show_again
  show_again-P live k s p = elim (Bool-cases (is_tile_source k.1)) [
    | inl e ↦ rw e (hide-P live k.0 (delete_key k s.hidden) s p)
    | inr e ↦ rw e p
  ]

  request_video-P : (kind : Kind) (k : Key) (s : CallClient) → P s → P (request_video kind k s)
  unfolding request_video
  request_video-P kind k s p = elim (Bool-cases (not (is_video kind))) [
    | inl e ↦ rw e p
    | inr e ↦ elim (Bool-cases (has_key k s.subscribed)) [
      | inl e' ↦ rw (e, e') p
      | inr e' ↦
          rw (e, e')
            (laws.redraws s.participants s.tiles s.video_slots s.hidden
              (add_key k s.pending_subscriptions) true s p)
    ]
  ]

  pub track_published-P :
      (live : ℕ → Bool) (channel : ℕ) (k : Key) (kind : Kind) (s : CallClient)
      → P s
      → P (track_published live channel k kind s)
  unfolding track_published
  track_published-P live channel k kind s p =
      elim (Bool-cases (not (channel == s.channel_id) || k.0 == s.self_user_id)) [
        | inl e ↦ rw e p
        | inr e ↦ rw e (request_video-P kind k (show_again live k s) (show_again-P live k s p))
      ]

  pub track_unpublished-P :
      (live : ℕ → Bool) (channel : ℕ) (k : Key) (s : CallClient)
      → P s
      → P (track_unpublished live channel k s)
  unfolding track_unpublished
  track_unpublished-P live channel k s p =
      elim (Bool-cases (not (channel == s.channel_id) || k.0 == s.self_user_id)) [
        | inl e ↦ rw e p
        | inr e ↦ elim (Bool-cases (is_tile_source k.1)) [
          | inl v ↦ rw (e, v) (hide-P live k.0 (add_key k s.hidden) s p)
          | inr v ↦ rw (e, v) p
        ]
      ]

  pub user_joined-P :
      (channel : ℕ) (u : VoiceParticipant) (s : CallClient) → P s → P (user_joined channel u s)
  unfolding user_joined
  user_joined-P channel u s p =
      elim (Bool-cases (not (channel == s.channel_id) || u.user_id == s.self_user_id)) [
        | inl e ↦ rw e p
        | inr e ↦ rw e (
            laws.redraws (set_entry u.user_id u s.participants) s.tiles s.video_slots s.hidden
              s.pending_subscriptions s.debouncing s p)
      ]

-- For a predicate that reads neither the subscriptions nor the speakers.
pub record SubscriptionLaws (P : CallClient → Type 0) : Type 0 where
  pub subscribes :
      (session : ℕ) (k : Key) (t : Tier) (s : CallClient) → P s → P (send (subscribe session k t) s)
  pub resubscribes :
      (subscribed : List Key) (speakers : List ℕ) (s : CallClient)
      → P s
      → P (record s { subscribed = subscribed; speakers = speakers })
  pub clears :
      (s : CallClient) → P s → P (record s { debouncing = false; pending_subscriptions = [] })

module _ (P : CallClient → Type 0) (laws : SubscriptionLaws P) where
  subscribe_all-P : (ks : List Key) (s : CallClient) → P s → P (subscribe_all ks s)
  unfolding subscribe_all
  subscribe_all-P [] s p = p
  subscribe_all-P (k ∷ ks) s p =
      let s₁ : CallClient = record s { subscribed = add_key k s.subscribed } in
      let t = quality_for s.speakers k in
      subscribe_all-P ks (send (subscribe s.session_id k t) s₁) (
        laws.subscribes s.session_id k t s₁
          (laws.resubscribes (add_key k s.subscribed) s.speakers s p))

  pub flush_subscriptions-P : (s : CallClient) → P s → P (flush_subscriptions s)
  unfolding flush_subscriptions
  flush_subscriptions-P s p =
      let s₁ : CallClient = record s { debouncing = false; pending_subscriptions = [] } in
      let p₁ = laws.clears s p in
      elim (Bool-cases (s.session_id == 0)) [
        | inl e ↦ rw e p₁
        | inr e ↦ rw e (subscribe_all-P s.pending_subscriptions s₁ p₁)
      ]

  pub subscribe_failed-P : (k : Key) (s : CallClient) → P s → P (subscribe_failed k s)
  unfolding subscribe_failed
  subscribe_failed-P k s p = laws.resubscribes (delete_key k s.subscribed) s.speakers s p

  retarget-P : (us : List ℕ) (s : CallClient) → P s → P (retarget us s)
  unfolding retarget
  retarget-P [] s p = p
  retarget-P (u ∷ us) s p = elim (Bool-cases (has_key (u, camera) s.subscribed)) [
    | inl e ↦
        let t = quality_for s.speakers (u, camera) in
        rw e (
          retarget-P us (send (subscribe s.session_id (u, camera) t) s)
            (laws.subscribes s.session_id (u, camera) t s p))
    | inr e ↦ rw e (retarget-P us s p)
  ]

  pub active_speakers-P :
      (channel : ℕ) (ids : List ℕ) (s : CallClient) → P s → P (active_speakers channel ids s)
  unfolding active_speakers
  active_speakers-P channel ids s p =
      let next = unique ids in
      let affected = missing_from next s.speakers ++ missing_from s.speakers next in
      let s₁ : CallClient = record s { speakers = next } in
      let p₁ = laws.resubscribes s.subscribed next s p in
      elim (Bool-cases (channel == s.channel_id)) [
        | inr e ↦ rw e p
        | inl e ↦ elim (Bool-cases (is_nil affected)) [
          | inl n ↦ rw (e, n) p
          | inr n ↦ elim (Bool-cases (s.session_id == 0)) [
            | inl z ↦ rw (e, n, z) p₁
            | inr z ↦ rw (e, n, z) (retarget-P affected s₁ p₁)
          ]
        ]
      ]

-- `user_left`, for a predicate that is kept when the user's subscriptions go
module _ (P : CallClient → Type 0) (tiled : TileLaws P)
    (unsubscribes : (user : ℕ) (s : CallClient)
      → P s
      → P (record s { subscribed = delete_user user s.subscribed })) where
  tell_left-P : (user : ℕ) (b : Bool) (s : CallClient) → P s → P (tell_left user b s)
  tell_left-P user true s p = tiled.tells_remote (remote_left user) s refl p
  tell_left-P user false s p = p

  pub user_left-P : (channel user : ℕ) (s : CallClient) → P s → P (user_left channel user s)
  unfolding user_left
  user_left-P channel user s p =
      let s₁ : CallClient = record s { subscribed = delete_user user s.subscribed } in
      let s₂ =
        with_tiles (delete_entry user s.participants) (delete_entry user s.tiles)
          (delete_entry user s.video_slots) (delete_user user s.hidden)
          (delete_user user s.pending_subscriptions) s.debouncing s₁ in
      elim (Bool-cases (channel == s.channel_id)) [
        | inr e ↦ rw e p
        | inl e ↦ rw e (
            tell_left-P user (is_some (get_entry user s.tiles)) s₂ (
              tiled.redraws (delete_entry user s.participants) (delete_entry user s.tiles)
                (delete_entry user s.video_slots) (delete_user user s.hidden)
                (delete_user user s.pending_subscriptions) s.debouncing s₁ (unsubscribes user s p)))
      ]
