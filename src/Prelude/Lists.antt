-- ===== src/Prelude/Lists.antt =====
-- Lists measured by native numbers, searched and filtered by Boolean tests.
use Prim.Native.Nat.{ℕ, zero, suc, ◌+◌}
use mathlib.Core.Path.{◌≡◌}
use mathlib.Core.Bool.{Bool, false, not, ◌||◌}
use mathlib.Core.List.{List, [], ◌∷◌, ◌++◌}
use mathlib.Core.Option.{Option, none, some}
use native.Mathlib.Omega.{arith}
use mini_discord.Prelude.Tests.{if◌then◌else◌, ◌==◌}

module _ {ℓ} {A : Type ℓ} where
  abbrev pub length : List A → ℕ
  length [] = 0
  length (x ∷ xs) = suc (length xs)

  abbrev pub take : ℕ → List A → List A
  take zero xs = []
  take (suc n) [] = []
  take (suc n) (x ∷ xs) = x ∷ take n xs

  -- `Array.prototype.find`
  abbrev pub find : (A → Bool) → List A → Option A
  find p [] = none
  find p (x ∷ xs) = if p x then some x else find p xs

  -- `Array.prototype.filter`
  abbrev pub keep : (A → Bool) → List A → List A
  keep p [] = []
  keep p (x ∷ xs) = let rest = keep p xs in if p x then x ∷ rest else rest

  -- `Array.prototype.some`
  abbrev pub any : (A → Bool) → List A → Bool
  any p [] = false
  any p (x ∷ xs) = p x || any p xs

  abbrev pub All {κ} : (A → Type κ) → List A → Type κ
  All P [] = Unit
  All P (x ∷ xs) = P x × All P xs

  pub length-append : (xs ys : List A) → length (xs ++ ys) ≡ length xs + length ys
  length-append [] ys = omega arith
  length-append (x ∷ xs) ys = omega (arith, length-append xs ys)

-- `Array.prototype.includes` on numbers
abbrev pub includes : ℕ → List ℕ → Bool
includes a [] = false
includes a (x ∷ xs) = x == a || includes a xs

-- `start, start + 1, …`, of the given length
abbrev pub range_from : ℕ → ℕ → List ℕ
range_from start zero = []
range_from start (suc n) = start ∷ range_from (suc start) n

-- A map on number keys as a function, after `map.set(c, v)`.
abbrev pub put {ℓ} : {A : Type ℓ} → ℕ → A → (ℕ → A) → ℕ → A
put c v f k = if k == c then v else f k

-- An object or a `Map` with number keys, in the order of insertion: `m[c] ?? d`, `m.set(c, v)`,
-- `m.delete(c)` and `m.get(c)`.
abbrev pub entry {ℓ} : {A : Type ℓ} → A → ℕ → List (ℕ × A) → A
entry d c [] = d
entry d c (kv ∷ rest) = if kv.0 == c then kv.1 else entry d c rest

abbrev pub set_entry {ℓ} : {A : Type ℓ} → ℕ → A → List (ℕ × A) → List (ℕ × A)
set_entry c v [] = (c, v) ∷ []
set_entry c v (kv ∷ rest) =
    let tail = set_entry c v rest in if kv.0 == c then (c, v) ∷ rest else kv ∷ tail

abbrev pub delete_entry {ℓ} : {A : Type ℓ} → ℕ → List (ℕ × A) → List (ℕ × A)
delete_entry c = keep (λ kv. not (kv.0 == c))

abbrev pub get_entry {ℓ} : {A : Type ℓ} → ℕ → List (ℕ × A) → Option A
get_entry c [] = none
get_entry c (kv ∷ rest) = if kv.0 == c then some kv.1 else get_entry c rest
