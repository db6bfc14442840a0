-- ===== src/Playlist.antt =====
-- The queue order and the play history: frontend/src/services/playlistService.ts. The choices of
-- `Math.random` are an argument: `choices` gives, for the step at `i`, the value of
-- `Math.floor(Math.random() * (i + 1))`.
pub mod Order
pub mod Shuffle
pub mod History
use mini_discord.Prelude.{
  ℕ, zero, suc, ◌-◌, ltb, ◌==◌, Bool, true, false, not, List, [], ◌∷◌, Option, none, some,
  if◌then◌else◌, length, take, keep, range_from,
}

pub data LoopMode : Type 0 where
  off one all : LoopMode

abbrev pub loops_all : LoopMode → Bool
loops_all LoopMode.all = true
loops_all mode = false

-- `xs[i]`
abbrev pub nth {ℓ} : {A : Type ℓ} → ℕ → List A → Option A
nth i [] = none
nth zero (x ∷ xs) = some x
nth (suc i) (x ∷ xs) = nth i xs

abbrev next_pos : Option ℕ → Option ℕ
next_pos none = none
next_pos (some p) = some (suc p)

-- `xs.indexOf(a)`, `none` for -1
abbrev pub index_of : ℕ → List ℕ → Option ℕ
index_of a [] = none
index_of a (x ∷ xs) = let later = next_pos (index_of a xs) in if x == a then some 0 else later

-- `-1 + 1` is the first position
abbrev pub after : Option ℕ → ℕ
after none = 0
after (some p) = suc p

abbrev pub active_order : ℕ → Option (List ℕ) → List ℕ
active_order n none = range_from 0 n
active_order n (some order) = if length order == n then order else range_from 0 n

abbrev pub next_in : List ℕ → ℕ → LoopMode → Option ℕ
next_in order current mode =
    let pos = after (index_of current order) in
    if ltb pos (length order) then nth pos order else if loops_all mode then nth 0 order else none

unfoldable pub get_next_index : ℕ → ℕ → LoopMode → Option (List ℕ) → Option ℕ
get_next_index n current mode order =
    if n == 0 then none else next_in (active_order n order) current mode

-- Before the first position, or of a track that is not there, the end.
abbrev pub before : Option ℕ → LoopMode → List ℕ → Option ℕ
before (some (suc p)) mode order = nth p order
before (some zero) mode order = if loops_all mode then nth (length order - 1) order else none
before none mode order = if loops_all mode then nth (length order - 1) order else none

unfoldable pub get_previous_index : ℕ → ℕ → LoopMode → Option (List ℕ) → Option ℕ
get_previous_index n current mode order =
    if n == 0
    then none
    else before (index_of current (active_order n order)) mode (active_order n order)

-- `xs[i] = a`
abbrev pub set_nth {ℓ} : {A : Type ℓ} → ℕ → A → List A → List A
set_nth i a [] = []
set_nth zero a (x ∷ xs) = a ∷ xs
set_nth (suc i) a (x ∷ xs) = x ∷ set_nth i a xs

abbrev pub swap_found {ℓ} : {A : Type ℓ} → ℕ → ℕ → Option A → Option A → List A → List A
swap_found i j (some x) (some y) xs = set_nth j x (set_nth i y xs)
swap_found i j none o xs = xs
swap_found i j (some x) none xs = xs

-- `[xs[i], xs[j]] = [xs[j], xs[i]]`, for positions in the list
abbrev pub swap {ℓ} : {A : Type ℓ} → ℕ → ℕ → List A → List A
swap i j xs = swap_found i j (nth i xs) (nth j xs) xs

-- the loop from `i` down to 1
abbrev pub shuffle_from {ℓ} : {A : Type ℓ} → (ℕ → ℕ) → ℕ → List A → List A
shuffle_from choices zero xs = xs
shuffle_from choices (suc i) xs = shuffle_from choices i (swap (suc i) (choices (suc i)) xs)

unfoldable pub shuffle_tracks {ℓ} : {A : Type ℓ} → (ℕ → ℕ) → List A → List A
shuffle_tracks choices items = shuffle_from choices (length items - 1) items

-- What the history reads of a track.
pub record Track : Type 0 where
  pub id : ℕ

abbrev pub max_history : ℕ
max_history = 50

-- The stored list, and whether storage takes the new one.
unfoldable pub add_to_history : Bool → Track → List Track → List Track
add_to_history writable track stored =
    if writable
    then take max_history (track ∷ keep (λ t. not (t.id == track.id)) stored)
    else stored
