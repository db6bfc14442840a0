-- ===== src/Playlist/Order.antt =====
-- Going on and going back in a looping queue.
use mini_discord.Prelude.{
  ℕ, zero, suc, ◌-◌, ◌<◌, ltb, ◌==◌, ◌≡◌, subst, true, false, List, [], ◌∷◌, Option, some,
  if◌then◌else◌, length, includes, arith, Bool-cases, inl, inr,
}
use mini_discord.Playlist.{
  LoopMode, nth, index_of, after, active_order, next_in, before, get_next_index, get_previous_index,
}

-- No track twice.
abbrev pub Unique : List ℕ → Type 0
Unique [] = Unit {0}
Unique (x ∷ xs) = (includes x xs ≡ false) × Unique xs

-- Where a track stands.
index_of-nth :
    (a p : ℕ) (xs : List ℕ) → index_of a xs ≡ some p → (nth p xs ≡ some a) × (p < length xs)
index_of-nth a p [] e = ground arith
index_of-nth a zero (x ∷ xs) e = ground arith
index_of-nth a (suc p) (x ∷ xs) e = ground (arith, index_of-nth a p xs)

nth-includes : (p j : ℕ) (xs : List ℕ) → nth p xs ≡ some j → includes j xs ≡ true
nth-includes p j [] e = ground arith
nth-includes zero j (x ∷ xs) e = ground arith
nth-includes (suc p) j (x ∷ xs) e = ground (arith, nth-includes p j xs e)

nth-index_of : (p j : ℕ) (xs : List ℕ) → Unique xs → nth p xs ≡ some j → index_of j xs ≡ some p
nth-index_of p j [] u e = ground arith
nth-index_of zero j (x ∷ xs) u e = ground arith
nth-index_of (suc p) j (x ∷ xs) u e =
    ground (arith, nth-index_of p j xs u.1 e, nth-includes p j xs e, u.0)

-- From the track after position `p`, or the first one at the end, back to position `p`.
step_back :
    (order : List ℕ) (i j p : ℕ)
    → Unique order
    → nth p order ≡ some i
    → p < length order
    → (if ltb (suc p) (length order) then nth (suc p) order else nth 0 order) ≡ some j
    → before (index_of j order) LoopMode.all order ≡ some i
step_back order i j p u here lt next = elim (Bool-cases (ltb (suc p) (length order))) [
  | inl e ↦
      let there : nth (suc p) order ≡ some j = ground (arith, next, e) in
      rw (nth-index_of (suc p) j order u there) here
  | inr e ↦
      let there : nth 0 order ≡ some j = ground (arith, next, e) in
      let last : length order - 1 ≡ p = ground (arith, lt, e) in
      rw (nth-index_of 0 j order u there, last) here
]

next_in-before :
    (order : List ℕ) (i j p : ℕ)
    → Unique order
    → index_of i order ≡ some p
    → next_in order i LoopMode.all ≡ some j
    → before (index_of j order) LoopMode.all order ≡ some i
next_in-before order i j p u at next =
    let (here, lt) = index_of-nth i p order at in
    step_back order i j p u here lt (subst (λ o. step o ≡ some j) at next)
  where
    step : Option ℕ → Option ℕ
    step o = if ltb (after o) (length order) then nth (after o) order else nth 0 order

-- In a queue that loops, played in an order without repetitions in which the current track `i`
-- stands, the track before the next one is `i` again.
pub get_next_index-previous :
    (n i j p : ℕ) (order : Option (List ℕ))
    → Unique (active_order n order)
    → index_of i (active_order n order) ≡ some p
    → get_next_index n i LoopMode.all order ≡ some j
    → get_previous_index n j LoopMode.all order ≡ some i
unfolding get_next_index get_previous_index
get_next_index-previous n i j p order u at next = elim (Bool-cases (n == 0)) [
  | inl e ↦ ground (arith, next, e)
  | inr e ↦
      let playing : next_in (active_order n order) i LoopMode.all ≡ some j =
        ground (next, e, arith) in
      rw e (next_in-before (active_order n order) i j p u at playing)
]
