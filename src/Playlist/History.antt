-- ===== src/Playlist/History.antt =====
-- The play history.
use mini_discord.Prelude.{
  ℕ, zero, suc, ◌≤◌, ◌==◌, ◌≡◌, refl, Bool, true, false, not, List, [], ◌∷◌, map, length, take,
  keep, includes, arith, Bool-cases, inl, inr,
}
use mini_discord.Playlist.{Track, add_to_history}
use mini_discord.Playlist.Order.{Unique}

abbrev pub ids : List Track → List ℕ
ids = map (λ t. t.id)

length-take : {A : Type 0} (n : ℕ) (xs : List A) → length (take n xs) ≤ n
length-take zero xs = omega arith
length-take (suc n) [] = omega arith
length-take (suc n) (x ∷ xs) = omega (arith, length-take n xs)

take-includes :
    (n a : ℕ) (ts : List Track) → includes a (ids ts) ≡ false → includes a (ids (take n ts)) ≡ false
take-includes zero a ts e = refl
take-includes (suc n) a [] e = refl
take-includes (suc n) a (t ∷ ts) e = ground (arith, take-includes n a ts)

take-Unique : (n : ℕ) (ts : List Track) → Unique (ids ts) → Unique (ids (take n ts))
take-Unique zero ts u = tt
take-Unique (suc n) [] u = tt
take-Unique (suc n) (t ∷ ts) u = (take-includes n t.id ts u.0, take-Unique n ts u.1)

keep-includes :
    (p : Track → Bool) (a : ℕ) (ts : List Track)
    → includes a (ids ts) ≡ false
    → includes a (ids (keep p ts)) ≡ false
keep-includes p a [] e = refl
keep-includes p a (t ∷ ts) e = ground (arith, keep-includes p a ts)

keep-Unique : (p : Track → Bool) (ts : List Track) → Unique (ids ts) → Unique (ids (keep p ts))
keep-Unique p [] u = tt
keep-Unique p (t ∷ ts) u = elim (Bool-cases (p t)) [
  | inl e ↦ rw e (keep-includes p t.id ts u.0, keep-Unique p ts u.1)
  | inr e ↦ rw e (keep-Unique p ts u.1)
]

dropped : (a : ℕ) (ts : List Track) → includes a (ids (keep (λ t. not (t.id == a)) ts)) ≡ false
dropped a [] = refl
dropped a (t ∷ ts) = let ih = dropped a ts in ground (arith, ih)

-- A history without repetitions and of at most 50 tracks stays so whenever a track is added, whether
-- or not the browser stores it.
pub add_to_history-Unique :
    (writable : Bool) (track : Track) (stored : List Track)
    → Unique (ids stored)
    → length stored ≤ 50
    → Unique (ids (add_to_history writable track stored))
      × (length (add_to_history writable track stored) ≤ 50)
unfolding add_to_history
add_to_history-Unique false track stored u n = (u, n)
add_to_history-Unique true track stored u n =
    let added = track ∷ keep (λ t. not (t.id == track.id)) stored in
    (take-Unique 50 added (dropped track.id stored, keep-Unique _ stored u), length-take 50 added)
