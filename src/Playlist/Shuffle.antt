-- ===== src/Playlist/Shuffle.antt =====
-- A shuffle keeps what is in the list.
use mini_discord.Prelude.{
  ℕ, zero, suc, ◌+◌, ◌-◌, ◌≡◌, refl, ◌∙◌, Bool, List, [], ◌∷◌, Option, none, some, if◌then◌else◌,
  length, arith,
}
use mini_discord.Playlist.{nth, set_nth, swap, swap_found, shuffle_from, shuffle_tracks}

module _ {A : Type 0} (p : A → Bool) where
  abbrev one_if : A → ℕ
  one_if a = if p a then 1 else 0

  -- How many elements pass the test.
  abbrev pub count : List A → ℕ
  count [] = 0
  count (x ∷ xs) = one_if x + count xs

  count-set_nth :
      (i : ℕ) (x y : A) (xs : List A)
      → nth i xs ≡ some x
      → count (set_nth i y xs) + one_if x ≡ count xs + one_if y
  count-set_nth i x y [] e = ground arith
  count-set_nth zero x y (z ∷ xs) e = ground arith
  count-set_nth (suc i) x y (z ∷ xs) e = omega (arith, count-set_nth i x y xs e)

  nth-set_nth :
      (i j : ℕ) (x y : A) (xs : List A)
      → nth i xs ≡ some x
      → nth j xs ≡ some y
      → nth j (set_nth i y xs) ≡ some y
  nth-set_nth i j x y [] e d = d
  nth-set_nth zero zero x y (z ∷ xs) e d = refl
  nth-set_nth zero (suc j) x y (z ∷ xs) e d = d
  nth-set_nth (suc i) zero x y (z ∷ xs) e d = d
  nth-set_nth (suc i) (suc j) x y (z ∷ xs) e d = nth-set_nth i j x y xs e d

  count-swap_found :
      (i j : ℕ) (o q : Option A) (xs : List A)
      → nth i xs ≡ o
      → nth j xs ≡ q
      → count (swap_found i j o q xs) ≡ count xs
  count-swap_found i j none q xs e d = refl
  count-swap_found i j (some x) none xs e d = refl
  count-swap_found i j (some x) (some y) xs e d =
      let first = count-set_nth i x y xs e in
      let second = count-set_nth j y x (set_nth i y xs) (nth-set_nth i j x y xs e d) in
      omega (arith, first, second)

  count-shuffle_from :
      (choices : ℕ → ℕ) (i : ℕ) (xs : List A) → count (shuffle_from choices i xs) ≡ count xs
  count-shuffle_from choices zero xs = refl
  count-shuffle_from choices (suc i) xs =
      let j = choices (suc i) in
      count-shuffle_from choices i (swap (suc i) j xs)
      ∙ count-swap_found (suc i) j (nth (suc i) xs) (nth j xs) xs refl refl

-- Whatever the random choices, a shuffle has for every test as many elements that pass it as the
-- list it was given.
pub shuffle_tracks-count :
    {A : Type 0} (p : A → Bool) (choices : ℕ → ℕ) (items : List A)
    → count p (shuffle_tracks choices items) ≡ count p items
unfolding shuffle_tracks
shuffle_tracks-count p choices items = count-shuffle_from p choices (length items - 1) items
