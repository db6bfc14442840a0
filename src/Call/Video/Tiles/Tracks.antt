-- ===== src/Call/Video/Tiles/Tracks.antt =====
-- What a participant's tile shows when a track arrives or ends.
use mini_discord.Prelude.{
  ℕ, ◌==◌, ◌≡◌, refl, sym, ◌∙◌, Bool, true, false, not, ◌&&◌, List, Option, none, some, set_entry,
  get_entry, arith, Bool-cases, inl, inr, ==_refl, ==_iff, subst, get_entry-set_entry,
}
use mini_discord.Call.State.{
  Source, Kind, is_video, is_tile_source, Key, Tile, VideoSlots, CallClient,
}
use mini_discord.Call.Video.{
  desired, reconcile_remote_video, slots_or_none, no_slots, fill_slot, empty_slot, end_slot,
  handle_track, video_ended, other_ended, remove_from, remove_track, tile_or_new, add_track,
}
use mini_discord.Call.Video.Tiles.{
  as_list, Shown, ShownAt, Weak, Shown-Weak, reconcile_same, reconcile_other,
  refresh_remote_video-ShownAt, AllShown,
}

Weak-tile_or_new :
    (o : Option Tile) (slots : Option VideoSlots)
    → Weak o slots
    → (e : Option ℕ) × ((tile_or_new o).video_tracks ≡ as_list e)
Weak-tile_or_new none slots h = (none, refl)
Weak-tile_or_new (some tile) slots h = h

reconcile-ShownAt :
    (live : ℕ → Bool) (k u : ℕ) (tile : Tile) (s : CallClient)
    → (e : Option ℕ) × (tile.video_tracks ≡ as_list e)
    → ((k == u) ≡ false → ShownAt live k s)
    → ShownAt live k (reconcile_remote_video live u tile s)
reconcile-ShownAt live k u tile s weak h = elim (Bool-cases (k == u)) [
  | inl e ↦
      subst (λ j. ShownAt live j (reconcile_remote_video live u tile s)) (sym ((==_iff k u).0 e))
        (reconcile_same live u tile s weak.0 weak.1)
  | inr e ↦ reconcile_other live k u tile s e (h e)
]

-- Slots of another user change.
other_slots-ShownAt :
    (live : ℕ → Bool) (k u : ℕ) (v : VideoSlots) (s : CallClient)
    → ShownAt live k s
    → (k == u) ≡ false
    → ShownAt live k (record s { video_slots = set_entry u v s.video_slots })
other_slots-ShownAt live k u v s h e = rw (get_entry-set_entry k u v s.video_slots, e) h

tile_or_new-Shown :
    (d : VideoSlots → Option ℕ) (o : Option Tile) (slots : Option VideoSlots)
    → d no_slots ≡ none
    → Shown d o slots
    → (tile_or_new o).video_tracks ≡ as_list (d (slots_or_none slots))
tile_or_new-Shown d none slots e h = rw (h, e) refl
tile_or_new-Shown d (some tile) slots e h = h

add_track-video :
    (kind : Kind) (t : ℕ) (tile : Tile)
    → is_video kind ≡ false
    → (add_track kind t tile).video_tracks ≡ tile.video_tracks
add_track-video kind t tile e = ground (arith, e)

desired-no_slots :
    (live : ℕ → Bool) (hidden : List Key) (u : ℕ) → desired live hidden u no_slots ≡ none
unfolding desired
desired-no_slots live hidden u = refl

audio-ShownAt :
    (live : ℕ → Bool) (k u : ℕ) (kind : Kind) (t : ℕ) (s : CallClient)
    → is_video kind ≡ false
    → AllShown live s
    → ShownAt live k (record s {
      tiles = set_entry u (add_track kind t (tile_or_new (get_entry u s.tiles))) s.tiles;
    })
audio-ShownAt live k u kind t s audio h = elim (Bool-cases (k == u)) [
  | inl e ↦
      let s' : CallClient = record s {
        tiles = set_entry u (add_track kind t (tile_or_new (get_entry u s.tiles))) s.tiles;
      } in
      subst (λ j. ShownAt live j s') (sym ((==_iff k u).0 e)) same
  | inr e ↦
      rw (get_entry-set_entry k u (add_track kind t (tile_or_new (get_entry u s.tiles))) s.tiles, e)
        (h k)
]
  where
    same : ShownAt live u (record s {
      tiles = set_entry u (add_track kind t (tile_or_new (get_entry u s.tiles))) s.tiles;
    })
    same =
        rw
          (
            get_entry-set_entry u u (add_track kind t (tile_or_new (get_entry u s.tiles))) s.tiles,
            ==_refl u,
          )
          (add_track-video kind t (tile_or_new (get_entry u s.tiles)) audio
            ∙ tile_or_new-Shown (desired live s.hidden u) (get_entry u s.tiles)
                (get_entry u s.video_slots) (desired-no_slots live s.hidden u) (h u))

-- A track that arrives, of video in a tile's source, or any other.
pub handle_track-AllShown :
    (live : ℕ → Bool) (user : ℕ) (source : Source) (kind : Kind) (t : ℕ) (s : CallClient)
    → (is_video kind && not (is_tile_source source)) ≡ false
    → AllShown live s
    → AllShown live (handle_track live user source kind t s)
unfolding handle_track
handle_track-AllShown live user source kind t s fits h u =
    let slots = slots_or_none (get_entry user s.video_slots) in
    ground (
      arith,
      fits,
      h u,
      λ (e : is_video kind ≡ false). audio-ShownAt live u user kind t s e h,
      reconcile-ShownAt live u user (tile_or_new (get_entry user s.tiles))
          (record s { video_slots = set_entry user (fill_slot source t slots) s.video_slots })
          (Weak-tile_or_new (get_entry user s.tiles) (get_entry user s.video_slots) (
            Shown-Weak (desired live s.hidden user) (get_entry user s.tiles)
              (get_entry user s.video_slots) (h user)))
          (other_slots-ShownAt live u user (fill_slot source t slots) s (h u)),
    )

-- The ended track's slot is emptied, if there are slots at all.
end_slot-Weak :
    (u : ℕ) (source : Source) (t : ℕ) (tile : Option Tile) (o : Option VideoSlots)
    (slots : List (ℕ × VideoSlots))
    → get_entry u slots ≡ o
    → Weak tile o
    → Weak tile (get_entry u (end_slot u source t o slots))
end_slot-Weak u source t none none slots e h = e
end_slot-Weak u source t none (some v) slots e h = ground (arith, h)
end_slot-Weak u source t (some tile) o slots e h = h

end_slot-other :
    (k u : ℕ) (source : Source) (t : ℕ) (o : Option VideoSlots) (slots : List (ℕ × VideoSlots))
    → (k == u) ≡ false
    → get_entry k (end_slot u source t o slots) ≡ get_entry k slots
end_slot-other k u source t none slots e = refl
end_slot-other k u source t (some v) slots e =
    rw (get_entry-set_entry k u (empty_slot source t v) slots, e) refl

pub video_ended-AllShown :
    (live : ℕ → Bool) (user : ℕ) (source : Source) (t : ℕ) (s : CallClient)
    → AllShown live s
    → AllShown live (video_ended live true user source t s)
unfolding video_ended
video_ended-AllShown live user source t s h u =
    let o = get_entry user s.video_slots in
    refresh_remote_video-ShownAt live u user
      (record s { video_slots = end_slot user source t o s.video_slots })
      (end_slot-Weak user source t (get_entry user s.tiles) o s.video_slots refl
        (Shown-Weak (desired live s.hidden user) (get_entry user s.tiles) o (h user)))
      (λ e. rw (end_slot-other u user source t o s.video_slots e) (h u))

remove_track-video :
    (kind : Kind) (t : ℕ) (tile : Tile)
    → is_video kind ≡ false
    → (remove_track kind t tile).video_tracks ≡ tile.video_tracks
remove_track-video kind t tile e = ground (arith, e)

pub other_ended-AllShown :
    (live : ℕ → Bool) (user : ℕ) (kind : Kind) (t : ℕ) (s : CallClient)
    → is_video kind ≡ false
    → AllShown live s
    → AllShown live (other_ended user kind t s)
unfolding other_ended
other_ended-AllShown live user kind t s audio h u = removed (get_entry user s.tiles) refl
  where
    removed :
        (o : Option Tile)
        → get_entry user s.tiles ≡ o
        → ShownAt live u (record s { tiles = remove_from user kind t o s.tiles })
    removed none e = h u
    removed (some tile) e =
        let less : Tile = remove_track kind t tile in
        elim (Bool-cases (u == user)) [
          | inl same ↦
              subst (λ j. ShownAt live j (record s { tiles = set_entry user less s.tiles }))
                (sym ((==_iff u user).0 same))
                (rw (get_entry-set_entry user user less s.tiles, ==_refl user)
                  (remove_track-video kind t tile audio
                    ∙ subst
                        (λ o. Shown (desired live s.hidden user) o (get_entry user s.video_slots)) e
                        (h user)))
          | inr other ↦ rw (get_entry-set_entry u user less s.tiles, other) (h u)
        ]
