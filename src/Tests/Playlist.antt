-- ===== src/Tests/Playlist.antt =====
-- The queue and the history on short lists.
use mini_discord.Prelude.{ℕ, List, ◌≡◌, refl, [], ◌∷◌, some}
use mini_discord.Playlist.{LoopMode, Track, get_next_index, get_previous_index, shuffle_tracks}
use mini_discord.Playlist.Order.{get_next_index-previous}

abbrev three : List ℕ
three = 1 ∷ 2 ∷ 3 ∷ []

shuffled : shuffle_tracks (λ i. 0) three ≡ 2 ∷ 3 ∷ 1 ∷ []
unfolding shuffle_tracks
shuffled = refl

get_next_index-previous_example :
    get_previous_index 3 1 LoopMode.all (some (2 ∷ 0 ∷ 1 ∷ [])) ≡ some 0
unfolding get_next_index
get_next_index-previous_example =
    get_next_index-previous 3 0 1 1 (some (2 ∷ 0 ∷ 1 ∷ [])) (refl, (refl, (refl, tt))) refl refl

abbrev track : Track
track = record { id = 7 }
