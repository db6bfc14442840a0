-- ===== src/Prelude/Includes.antt =====
-- Membership by `includes` in lists that grow and shrink.
use Prim.Native.Nat.{ℕ}
use mathlib.Core.Path.{◌≡◌, refl, ap}
use mathlib.Core.Logic.{inl, inr}
use mathlib.Core.Bool.{Bool, ◌&&◌, ◌||◌}
use mathlib.Core.List.{List, [], ◌∷◌, ◌++◌}
use native.Mathlib.Omega.{arith}
use mini_discord.Prelude.Tests.{◌==◌, ==_iff, Bool-cases}
use mini_discord.Prelude.Lists.{includes, keep}

pub includes-append :
    (a : ℕ) (xs ys : List ℕ) → includes a (xs ++ ys) ≡ (includes a xs || includes a ys)
includes-append a [] ys = refl
includes-append a (x ∷ xs) ys = let ih = includes-append a xs ys in ground (arith, ih)

pub includes-keep :
    (p : ℕ → Bool) (a : ℕ) (xs : List ℕ) → includes a (keep p xs) ≡ (includes a xs && p a)
includes-keep p a [] = refl
includes-keep p a (x ∷ xs) =
    let ih = includes-keep p a xs in
    elim (Bool-cases (x == a)) [
      | inl e ↦ ground (arith, ih, e, ap p ((==_iff x a).0 e))
      | inr e ↦ ground (arith, ih, e)
    ]
