-- ===== src/Call/Video/Tiles.antt =====
-- What a participant's tile shows.
pub mod Tracks
pub mod Users
use mini_discord.Prelude.{
  ℕ, ◌==◌, ◌≡◌, refl, sym, ap, ◌∙◌, Bool, true, false, not, ◌||◌, List, [], ◌∷◌, Option, none, some,
  keep, set_entry, get_entry, delete_entry, is_some, arith, Bool-cases, inl, inr, ==_refl, ==_iff,
  subst, get_entry-set_entry, get_entry-delete_entry,
}
use mini_discord.Wire.{VoiceParticipant}
use mini_discord.Call.State.{
  Source, screen, camera, Kind, Key, add_key, delete_key, delete_user, Tile, VideoSlots, CallClient,
}
use mini_discord.Call.State.Keys.{has_key-add_key, has_key-delete_key, has_key-delete_user}
use mini_discord.Call.Video.{
  desired, reconcile, reconcile_remote_video, refresh_tile, refresh_remote_video, slots_or_none,
  no_slots, available, fill_slot, empty_slot, end_slot, handle_track, track_published,
  track_unpublished, show_again, request_video, video_ended, user_left, user_joined, other_ended,
  remove_from, tile_or_new, tell_left, add_track,
}

abbrev pub as_list : Option ℕ → List ℕ
as_list none = []
as_list (some t) = t ∷ []

-- A tile with at most one video track gets the desired one.
reconcile_lem :
    (d e : Option ℕ) (tile : Tile)
    → tile.video_tracks ≡ as_list e
    → (reconcile d tile).video_tracks ≡ as_list d
unfolding reconcile
reconcile_lem none none tile h = simp h refl
reconcile_lem none (some t) tile h = simp h refl
reconcile_lem (some d) none tile h = simp h refl
reconcile_lem (some d) (some t) tile h = simp h (ground arith)

abbrev Shown : (VideoSlots → Option ℕ) → Option Tile → Option VideoSlots → Type 0
Shown d none slots = slots ≡ none
Shown d (some tile) slots = tile.video_tracks ≡ as_list (d (slots_or_none slots))

-- The user's tile shows the desired track; a user without a tile has no tracks.
abbrev pub ShownAt : (ℕ → Bool) → ℕ → CallClient → Type 0
ShownAt live u s = Shown (desired live s.hidden u) (get_entry u s.tiles) (get_entry u s.video_slots)

Shown-cong :
    (d d' : VideoSlots → Option ℕ) (o : Option Tile) (slots : Option VideoSlots)
    → ((v : VideoSlots) → d v ≡ d' v)
    → Shown d o slots
    → Shown d' o slots
Shown-cong d d' none slots e h = h
Shown-cong d d' (some tile) slots e h = h ∙ ap as_list (e (slots_or_none slots))

-- Before a refresh: some track or none, and no tracks without a tile.
abbrev Weak : Option Tile → Option VideoSlots → Type 0
Weak none slots = slots ≡ none
Weak (some tile) slots = (e : Option ℕ) × (tile.video_tracks ≡ as_list e)

Shown-Weak :
    (d : VideoSlots → Option ℕ) (o : Option Tile) (slots : Option VideoSlots)
    → Shown d o slots
    → Weak o slots
Shown-Weak d none slots h = h
Shown-Weak d (some tile) slots h = (d (slots_or_none slots), h)

reconcile_same :
    (live : ℕ → Bool) (u : ℕ) (tile : Tile) (s : CallClient) (e : Option ℕ)
    → tile.video_tracks ≡ as_list e
    → ShownAt live u (reconcile_remote_video live u tile s)
unfolding reconcile_remote_video
reconcile_same live u tile s e h =
    let d = desired live s.hidden u (slots_or_none (get_entry u s.video_slots)) in
    rw (get_entry-set_entry u u (reconcile d tile) s.tiles, ==_refl u) (reconcile_lem d e tile h)

reconcile_other :
    (live : ℕ → Bool) (k u : ℕ) (tile : Tile) (s : CallClient)
    → (k == u) ≡ false
    → ShownAt live k s
    → ShownAt live k (reconcile_remote_video live u tile s)
unfolding reconcile_remote_video
reconcile_other live k u tile s e h =
    let d = desired live s.hidden u (slots_or_none (get_entry u s.video_slots)) in
    rw (get_entry-set_entry k u (reconcile d tile) s.tiles, e) h

refresh_same :
    (live : ℕ → Bool) (u : ℕ) (o : Option Tile) (s : CallClient)
    → get_entry u s.tiles ≡ o
    → Weak o (get_entry u s.video_slots)
    → ShownAt live u (refresh_tile live u o s)
unfolding refresh_tile
refresh_same live u none s e h = rw e h
refresh_same live u (some tile) s e h = reconcile_same live u tile s h.0 h.1

refresh_other :
    (live : ℕ → Bool) (k u : ℕ) (o : Option Tile) (s : CallClient)
    → (k == u) ≡ false
    → ShownAt live k s
    → ShownAt live k (refresh_tile live u o s)
unfolding refresh_tile
refresh_other live k u none s e h = h
refresh_other live k u (some tile) s e h = reconcile_other live k u tile s e h

-- A refresh of the user's tile, where the other users show what they should.
refresh_remote_video-ShownAt :
    (live : ℕ → Bool) (k u : ℕ) (s : CallClient)
    → Weak (get_entry u s.tiles) (get_entry u s.video_slots)
    → ((k == u) ≡ false → ShownAt live k s)
    → ShownAt live k (refresh_remote_video live u s)
unfolding refresh_remote_video
refresh_remote_video-ShownAt live k u s weak h = elim (Bool-cases (k == u)) [
  | inl e ↦
      subst (λ j. ShownAt live j (refresh_tile live u (get_entry u s.tiles) s))
        (sym ((==_iff k u).0 e)) (refresh_same live u (get_entry u s.tiles) s refl weak)
  | inr e ↦ refresh_other live k u (get_entry u s.tiles) s e (h e)
]

available-add_key :
    (live : ℕ → Bool) (k : ℕ) (source : Source) (a : Key) (hidden : List Key) (o : Option ℕ)
    → (k == a.0) ≡ false
    → available live hidden k source o ≡ available live (add_key a hidden) k source o
available-add_key live k source a hidden none e = refl
available-add_key live k source a hidden (some t) e =
    rw (has_key-add_key (k, source) a hidden) (ground (arith, e))

available-delete_key :
    (live : ℕ → Bool) (k : ℕ) (source : Source) (a : Key) (hidden : List Key) (o : Option ℕ)
    → (k == a.0) ≡ false
    → available live hidden k source o ≡ available live (delete_key a hidden) k source o
available-delete_key live k source a hidden none e = refl
available-delete_key live k source a hidden (some t) e =
    rw (has_key-delete_key (k, source) a hidden) (ground (arith, e))

desired-add_key :
    (live : ℕ → Bool) (k : ℕ) (a : Key) (hidden : List Key) (v : VideoSlots)
    → (k == a.0) ≡ false
    → desired live hidden k v ≡ desired live (add_key a hidden) k v
unfolding desired
desired-add_key live k a hidden v e = ground (
  arith,
  available-add_key live k screen a hidden v.screen_track e,
  available-add_key live k camera a hidden v.camera_track e,
)

desired-delete_key :
    (live : ℕ → Bool) (k : ℕ) (a : Key) (hidden : List Key) (v : VideoSlots)
    → (k == a.0) ≡ false
    → desired live hidden k v ≡ desired live (delete_key a hidden) k v
unfolding desired
desired-delete_key live k a hidden v e = ground (
  arith,
  available-delete_key live k screen a hidden v.screen_track e,
  available-delete_key live k camera a hidden v.camera_track e,
)

-- A change of the paused sources of one user, and the refresh of the tile.
rehide-ShownAt :
    (live : ℕ → Bool) (k u : ℕ) (hidden : List Key) (s : CallClient)
    → ((j : ℕ) (v : VideoSlots)
        → (j == u) ≡ false
        → desired live s.hidden j v ≡ desired live hidden j v)
    → ((j : ℕ) → ShownAt live j s)
    → ShownAt live k (refresh_remote_video live u (record s { hidden = hidden }))
rehide-ShownAt live k u hidden s same h =
    refresh_remote_video-ShownAt live k u (record s { hidden = hidden })
      (Shown-Weak (desired live s.hidden u) (get_entry u s.tiles) (get_entry u s.video_slots) (h u))
      (λ e.
        Shown-cong (desired live s.hidden k) (desired live hidden k) (get_entry k s.tiles)
          (get_entry k s.video_slots) (λ v. same k v e) (h k))

-- Every user's tile shows what it should.
abbrev pub AllShown : (ℕ → Bool) → CallClient → Type 0
AllShown live s = (u : ℕ) → ShownAt live u s

pub track_unpublished-AllShown :
    (live : ℕ → Bool) (channel : ℕ) (a : Key) (s : CallClient)
    → AllShown live s
    → AllShown live (track_unpublished live channel a s)
unfolding track_unpublished
track_unpublished-AllShown live channel a s h u = ground (
  arith,
  h u,
  rehide-ShownAt live u a.0 (add_key a s.hidden) s (λ j v e. desired-add_key live j a s.hidden v e)
      h,
)

show_again-AllShown :
    (live : ℕ → Bool) (a : Key) (s : CallClient)
    → AllShown live s
    → AllShown live (show_again live a s)
unfolding show_again
show_again-AllShown live a s h u = ground (
  arith,
  h u,
  rehide-ShownAt live u a.0 (delete_key a s.hidden) s
      (λ j v e. desired-delete_key live j a s.hidden v e) h,
)

request_video-AllShown :
    (live : ℕ → Bool) (kind : Kind) (a : Key) (s : CallClient)
    → AllShown live s
    → AllShown live (request_video kind a s)
unfolding request_video
request_video-AllShown live kind a s h u = ground (arith, h u)

pub track_published-AllShown :
    (live : ℕ → Bool) (channel : ℕ) (a : Key) (kind : Kind) (s : CallClient)
    → AllShown live s
    → AllShown live (track_published live channel a kind s)
unfolding track_published
track_published-AllShown live channel a kind s h u = ground (
  arith,
  h u,
  request_video-AllShown live kind a (show_again live a s) (show_again-AllShown live a s h) u,
)
