-- ===== src/Call/Video/Tiers.antt =====
-- The quality that is asked for each subscribed video follows the active speakers.
use mini_discord.Prelude.{
  ℕ, ◌==◌, ◌≡◌, ◌⊎◌, subst, refl, Bool, true, false, not, ◌&&◌, List, [], ◌∷◌, ◌++◌, Option, none,
  some, if◌then◌else◌, includes, arith, Bool-cases, inl, inr, includes-append, includes-keep,
}
use mini_discord.Call.State.{
  Source, mic, screen, camera, screen_audio, unknown, source_eq, is_camera, Tier, Key, key_eq,
  has_key, add_key, delete_user, CallClient, Command, subscribe, send,
}
use mini_discord.Call.State.Keys.{
  key_eq-eq, key_eq_refl, has_key-add_key, has_key-delete_key, has_key-delete_user,
}
use mini_discord.Call.Video.{
  quality_for, subscribe_all, flush_subscriptions, subscribe_failed, missing_from, retarget,
  active_speakers, unique,
}

abbrev later : Option Tier → Option Tier → Option Tier
later none first = first
later (some t) first = some t

-- what a command asks of the key
abbrev asked : Key → Command → Option Tier
asked k (subscribe session k' t) = if key_eq k' k then some t else none
asked k c = none

-- The quality that the last request for the key asks for.
abbrev pub last_tier : Key → List Command → Option Tier
last_tier k [] = none
last_tier k (c ∷ cs) = later (last_tier k cs) (asked k c)

pub last_tier-append :
    (k : Key) (cs : List Command) (c : Command)
    → last_tier k (cs ++ c ∷ []) ≡ later (asked k c) (last_tier k cs)
last_tier-append k [] c = ground arith
last_tier-append k (x ∷ cs) c = let ih = last_tier-append k cs c in ground (arith, ih)

is_camera-source_eq : (s t : Source) → source_eq s t ≡ true → is_camera s ≡ is_camera t
is_camera-source_eq s t e = ground arith

quality_for-key_eq :
    (speakers : List ℕ) (a b : Key)
    → key_eq a b ≡ true
    → quality_for speakers a ≡ quality_for speakers b
unfolding quality_for
quality_for-key_eq speakers a b e = ground (arith, is_camera-source_eq a.1 b.1)

-- A key that is subscribed was last asked for at its quality, within a session.
abbrev pub Tiered : Key → CallClient → Type 0
Tiered k s =
    (has_key k s.subscribed ≡ false)
    ⊎ ((last_tier k s.sent ≡ some (quality_for s.speakers k)) × ((s.session_id == 0) ≡ false))

abbrev subscribe_one : Key → CallClient → CallClient
unfolding quality_for
subscribe_one a s =
    send (subscribe s.session_id a (quality_for s.speakers a))
      (record s { subscribed = add_key a s.subscribed })

subscribe_one-Tiered :
    (k a : Key) (s : CallClient)
    → (s.session_id == 0) ≡ false
    → Tiered k s
    → Tiered k (subscribe_one a s)
unfolding subscribe_one
subscribe_one-Tiered k a s live h =
    rw
      (
        has_key-add_key k a s.subscribed,
        last_tier-append k s.sent (subscribe s.session_id a (quality_for s.speakers a)),
      )
      (ground (arith, quality_for-key_eq s.speakers a k, h, live))

subscribe_all-Tiered :
    (k : Key) (ks : List Key) (s : CallClient)
    → (s.session_id == 0) ≡ false
    → Tiered k s
    → Tiered k (subscribe_all ks s)
unfolding subscribe_all subscribe_one
subscribe_all-Tiered k [] s live h = h
subscribe_all-Tiered k (a ∷ ks) s live h =
    subscribe_all-Tiered k ks (subscribe_one a s) live (subscribe_one-Tiered k a s live h)

pub flush_subscriptions-Tiered :
    (k : Key) (s : CallClient) → Tiered k s → Tiered k (flush_subscriptions s)
unfolding flush_subscriptions
flush_subscriptions-Tiered k s h = elim (Bool-cases (s.session_id == 0)) [
  | inl e ↦ rw e h
  | inr e ↦ rw e (
      subscribe_all-Tiered k s.pending_subscriptions
        (record s { debouncing = false; pending_subscriptions = [] }) e h)
]

pub subscribe_failed-Tiered :
    (k a : Key) (s : CallClient) → Tiered k s → Tiered k (subscribe_failed a s)
unfolding subscribe_failed
subscribe_failed-Tiered k a s h = rw (has_key-delete_key k a s.subscribed) (ground (arith, h))

pub delete_user-Tiered :
    (k : Key) (u : ℕ) (s : CallClient)
    → Tiered k s
    → Tiered k (record s { subscribed = delete_user u s.subscribed })
delete_user-Tiered k u s h = rw (has_key-delete_user k u s.subscribed) (ground (arith, h))

-- What the requests of `retarget` leave as the last one for a key.
abbrev retargeted : Key → List ℕ → Bool → Option Tier → Option Tier → Option Tier
retargeted k us is_subscribed new old =
    if (is_camera k.1 && includes k.0 us) && is_subscribed then new else old

abbrev retarget_one : ℕ → CallClient → CallClient
unfolding quality_for
retarget_one u s =
    if has_key (u, camera) s.subscribed
    then send (subscribe s.session_id (u, camera) (quality_for s.speakers (u, camera))) s
    else s

key_eq-camera : (u : ℕ) (k : Key) → key_eq (u, camera) k ≡ (u == k.0 && is_camera k.1)
key_eq-camera u (v, mic) = ground arith
key_eq-camera u (v, camera) = ground arith
key_eq-camera u (v, screen) = ground arith
key_eq-camera u (v, screen_audio) = ground arith
key_eq-camera u (v, unknown n) = ground arith

retarget_one-last :
    (k : Key) (u : ℕ) (s : CallClient)
    → last_tier k (retarget_one u s).sent
      ≡ retargeted k
          (u ∷ [])
          (has_key k s.subscribed)
          (some (quality_for s.speakers k))
          (last_tier k s.sent)
unfolding retarget_one
retarget_one-last k u s = elim (Bool-cases (key_eq (u, camera) k)) [
  | inl e ↦
      subst
        (λ a.
          last_tier a (retarget_one u s).sent
          ≡ retargeted a (u ∷ []) (has_key a s.subscribed) (some (quality_for s.speakers a))
              (last_tier a s.sent))
        (key_eq-eq (u, camera) k e) same
  | inr e ↦ ground (
    arith,
    last_tier-append k s.sent
        (subscribe s.session_id (u, camera) (quality_for s.speakers (u, camera))),
    key_eq-camera u k,
    e,
  )
]
  where
    same :
        last_tier (u, camera) (retarget_one u s).sent
        ≡ retargeted
            (u, camera)
            (u ∷ [])
            (has_key (u, camera) s.subscribed)
            (some (quality_for s.speakers (u, camera)))
            (last_tier (u, camera) s.sent)
    same = ground (
      arith,
      last_tier-append (u, camera) s.sent
          (subscribe s.session_id (u, camera) (quality_for s.speakers (u, camera))),
      key_eq_refl (u, camera),
    )

retarget-last :
    (k : Key) (us : List ℕ) (s : CallClient)
    → (last_tier k (retarget us s).sent
        ≡ retargeted k us
            (has_key k s.subscribed)
            (some (quality_for s.speakers k))
            (last_tier k s.sent))
      × ((retarget us s).subscribed ≡ s.subscribed)
      × ((retarget us s).speakers ≡ s.speakers)
      × ((retarget us s).session_id ≡ s.session_id)
unfolding retarget retarget_one
retarget-last k [] s = (ground arith, refl, refl, refl)
retarget-last k (u ∷ us) s =
    let rest = retarget-last k us (retarget_one u s) in
    let here = retarget_one-last k u s in ground (arith, rest, here)

includes-unique : (a : ℕ) (xs : List ℕ) → includes a (unique xs) ≡ includes a xs
includes-unique a [] = refl
includes-unique a (x ∷ xs) =
    ground (arith, includes-keep (λ y. not (y == x)) a (unique xs), includes-unique a xs)

-- Who speaks before or after but not both is affected.
quality_for-unaffected :
    (k : Key) (old next : List ℕ)
    → includes k.0 (missing_from next old ++ missing_from old next) ≡ false
    → quality_for old k ≡ quality_for next k
unfolding quality_for
quality_for-unaffected k old next e = ground (
  arith,
  includes-append k.0 (missing_from next old) (missing_from old next),
  includes-keep (λ u. not (includes u old)) k.0 next,
  includes-keep (λ u. not (includes u next)) k.0 old,
  e,
)

quality_for-not_camera :
    (k : Key) (old next : List ℕ) → is_camera k.1 ≡ false → quality_for old k ≡ quality_for next k
unfolding quality_for
quality_for-not_camera k old next e = ground (arith, e)

retarget-Tiered :
    (k : Key) (next : List ℕ) (s : CallClient)
    → (s.session_id == 0) ≡ false
    → Tiered k s
    → Tiered k (
        retarget
          (missing_from next s.speakers ++ missing_from s.speakers next)
          (record s { speakers = next }))
retarget-Tiered k next s live h =
    let us = missing_from next s.speakers ++ missing_from s.speakers next in
    let (last, subs, spk, ses) = retarget-last k us (record s { speakers = next }) in
    ground (
      arith,
      last,
      subs,
      spk,
      ses,
      live,
      h,
      quality_for-unaffected k s.speakers next,
      quality_for-not_camera k s.speakers next,
    )

pub active_speakers-Tiered :
    (k : Key) (channel : ℕ) (user_ids : List ℕ) (s : CallClient)
    → Tiered k s
    → Tiered k (active_speakers channel user_ids s)
unfolding active_speakers
active_speakers-Tiered k channel user_ids s h =
    ground (
      arith,
      h,
      λ (live : (s.session_id == 0) ≡ false). retarget-Tiered k (unique user_ids) s live h,
    )
