-- ===== src/Prelude/Maps.antt =====
-- Laws of the maps on number keys.
use Prim.Native.Nat.{ℕ}
use mathlib.Core.Path.{◌≡◌}
use mathlib.Core.Option.{none, some}
use mathlib.Core.List.{List, [], ◌∷◌}
use native.Mathlib.Omega.{arith}
use mini_discord.Prelude.Tests.{if◌then◌else◌, ◌==◌}
use mini_discord.Prelude.Lists.{get_entry, set_entry, delete_entry}

module _ {ℓ} {A : Type ℓ} (k c : ℕ) where
  pub get_entry-set_entry :
      (v : A) (kvs : List (ℕ × A))
      → get_entry k (set_entry c v kvs) ≡ (if k == c then some v else get_entry k kvs)
  get_entry-set_entry v [] = ground arith
  get_entry-set_entry v (kv ∷ kvs) = let ih = get_entry-set_entry v kvs in ground arith

  pub get_entry-delete_entry :
      (kvs : List (ℕ × A))
      → get_entry k (delete_entry c kvs) ≡ (if k == c then none else get_entry k kvs)
  get_entry-delete_entry [] = ground arith
  get_entry-delete_entry (kv ∷ kvs) = let ih = get_entry-delete_entry kvs in ground arith
