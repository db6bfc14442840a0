-- ===== src/Call/State/Keys.antt =====
-- The sets of keys `user:source`.
use mini_discord.Prelude.{
  ℕ, ◌==◌, ◌≡◌, refl, ap, subst, true, not, ◌&&◌, ◌||◌, List, [], ◌∷◌, ◌++◌, arith, Bool-cases, inl,
  inr,
}
use mini_discord.Call.State.{
  Source, source_eq, Key, key_eq, has_key, add_key, delete_key, delete_user,
}

source_eq-eq : (s t : Source) → source_eq s t ≡ true → s ≡ t
source_eq-eq s t e = ground arith

pub source_eq_refl : (s : Source) → source_eq s s ≡ true
source_eq_refl s = ground arith

pub key_eq-eq : (a b : Key) → key_eq a b ≡ true → a ≡ b
key_eq-eq (u, s) (v, t) e =
    let users : u ≡ v = ground arith in
    let sources : s ≡ t = ground (arith, source_eq-eq s t) in λ i. (users i, sources i)

pub key_eq_refl : (k : Key) → key_eq k k ≡ true
key_eq_refl k = ground (arith, source_eq_refl k.1)

pub has_key-append :
    (k a : Key) (ks : List Key) → has_key k (ks ++ a ∷ []) ≡ (has_key k ks || key_eq a k)
has_key-append k a [] = ground arith
has_key-append k a (x ∷ ks) = let ih = has_key-append k a ks in ground (arith, ih)

pub has_key-add_key :
    (k a : Key) (ks : List Key) → has_key k (add_key a ks) ≡ (has_key k ks || key_eq a k)
has_key-add_key k a ks = elim (Bool-cases (key_eq a k)) [
  | inl e ↦
      subst (λ b. has_key b (add_key a ks) ≡ (has_key b ks || key_eq a b)) (key_eq-eq a k e) same
  | inr e ↦ rw e (ground (arith, has_key-append k a ks, e))
]
  where
    same : has_key a (add_key a ks) ≡ (has_key a ks || key_eq a a)
    same = ground (arith, has_key-append a a ks, key_eq_refl a)

pub has_key-delete_key :
    (k a : Key) (ks : List Key) → has_key k (delete_key a ks) ≡ (has_key k ks && not (key_eq k a))
has_key-delete_key k a [] = refl
has_key-delete_key k a (x ∷ ks) = elim (Bool-cases (key_eq x k)) [
  | inl e ↦ ground (arith, has_key-delete_key k a ks, ap (λ y. key_eq y a) (key_eq-eq x k e), e)
  | inr e ↦ ground (arith, has_key-delete_key k a ks, e)
]

pub has_key-delete_user :
    (k : Key) (u : ℕ) (ks : List Key)
    → has_key k (delete_user u ks) ≡ (has_key k ks && not (k.0 == u))
has_key-delete_user k u [] = refl
has_key-delete_user k u (x ∷ ks) = elim (Bool-cases (key_eq x k)) [
  | inl e ↦ ground (arith, has_key-delete_user k u ks, ap (λ y. y.0 == u) (key_eq-eq x k e), e)
  | inr e ↦ ground (arith, has_key-delete_user k u ks, e)
]
