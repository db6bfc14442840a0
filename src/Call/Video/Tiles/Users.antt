-- ===== src/Call/Video/Tiles/Users.antt =====
-- What a participant's tile shows when a user joins or leaves.
use mini_discord.Prelude.{
  ℕ, ◌==◌, ◌≡◌, refl, Bool, true, false, not, ◌||◌, List, Option, none, some, get_entry,
  delete_entry, is_some, arith, Bool-cases, inl, inr, get_entry-delete_entry,
}
use mini_discord.Wire.{VoiceParticipant}
use mini_discord.Call.State.{Source, screen, camera, Key, delete_user, VideoSlots, CallClient}
use mini_discord.Call.State.Keys.{has_key-delete_user}
use mini_discord.Call.Video.{desired, available, user_left, user_joined, tell_left}
use mini_discord.Call.Video.Tiles.{ShownAt, Shown-cong, AllShown}

available-delete_user :
    (live : ℕ → Bool) (k : ℕ) (source : Source) (user : ℕ) (hidden : List Key) (o : Option ℕ)
    → (k == user) ≡ false
    → available live hidden k source o ≡ available live (delete_user user hidden) k source o
available-delete_user live k source user hidden none e = refl
available-delete_user live k source user hidden (some t) e =
    rw (has_key-delete_user (k, source) user hidden) (ground (arith, e))

desired-delete_user :
    (live : ℕ → Bool) (k user : ℕ) (hidden : List Key) (v : VideoSlots)
    → (k == user) ≡ false
    → desired live hidden k v ≡ desired live (delete_user user hidden) k v
unfolding desired
desired-delete_user live k user hidden v e = ground (
  arith,
  available-delete_user live k screen user hidden v.screen_track e,
  available-delete_user live k camera user hidden v.camera_track e,
)

abbrev gone : ℕ → CallClient → CallClient
gone user s = record s {
  participants = delete_entry user s.participants;
  video_slots = delete_entry user s.video_slots;
  tiles = delete_entry user s.tiles;
  subscribed = delete_user user s.subscribed;
  pending_subscriptions = delete_user user s.pending_subscriptions;
  hidden = delete_user user s.hidden;
}

gone-ShownAt :
    (live : ℕ → Bool) (k user : ℕ) (s : CallClient)
    → ShownAt live k s
    → ShownAt live k (gone user s)
gone-ShownAt live k user s h = elim (Bool-cases (k == user)) [
  | inl e ↦
      rw (get_entry-delete_entry k user s.tiles, get_entry-delete_entry k user s.video_slots, e)
        refl
  | inr e ↦
      rw (get_entry-delete_entry k user s.tiles, get_entry-delete_entry k user s.video_slots, e)
        (Shown-cong (desired live s.hidden k) (desired live (delete_user user s.hidden) k)
          (get_entry k s.tiles) (get_entry k s.video_slots)
          (λ v. desired-delete_user live k user s.hidden v e) h)
]

tell_left-ShownAt :
    (live : ℕ → Bool) (k user : ℕ) (b : Bool) (s : CallClient)
    → ShownAt live k s
    → ShownAt live k (tell_left user b s)
tell_left-ShownAt live k user true s h = h
tell_left-ShownAt live k user false s h = h

pub user_left-AllShown :
    (live : ℕ → Bool) (channel user : ℕ) (s : CallClient)
    → AllShown live s
    → AllShown live (user_left channel user s)
unfolding user_left
user_left-AllShown live channel user s h u = elim (Bool-cases (channel == s.channel_id)) [
  | inl e ↦ rw e (
      tell_left-ShownAt live u user (is_some (get_entry user s.tiles)) (gone user s)
        (gone-ShownAt live u user s (h u)))
  | inr e ↦ rw e (h u)
]

pub user_joined-AllShown :
    (live : ℕ → Bool) (channel : ℕ) (p : VoiceParticipant) (s : CallClient)
    → AllShown live s
    → AllShown live (user_joined channel p s)
unfolding user_joined
user_joined-AllShown live channel p s h =
    elim (Bool-cases (not (channel == s.channel_id) || p.user_id == s.self_user_id)) [
      | inl e ↦ rw e h
      | inr e ↦ rw e h
    ]
