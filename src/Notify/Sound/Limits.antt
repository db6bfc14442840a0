-- ===== src/Notify/Sound/Limits.antt =====
-- The sounds that any sequence of calls plays keep their distance.
use mini_discord.Prelude.{
  ℕ, ◌+◌, ◌≤◌, ◌==◌, ◌≡◌, refl, sym, subst, ap, Bool, true, false, List, [], ◌∷◌, ◌++◌, Option,
  none, some, if◌then◌else◌, keep, All, arith, Bool-cases, inl, inr, append-nil,
}
use mini_discord.Notify.Sound.{
  SoundName, PlayOptions, Played, Player, play_sound, channel_rate_limit_ms, global_rate_limit_ms,
  or_zero,
}

pub record Call : Type 0 where
  pub enabled : Bool
  pub now : ℕ
  pub name : SoundName
  pub opts : PlayOptions

unfoldable pub start : Player
start = record { last_played_by_channel = λ _. none; last_played_global = 0; played = [] }

abbrev play : Call → Player → Player
play c p = play_sound c.enabled c.now c.name c.opts p

unfoldable pub play_all : List Call → Player → Player
unfolding play_sound
play_all [] p = p
play_all (c ∷ cs) p = play_all cs (play c p)

-- Each sound comes `gap` after the one before, and the first not before `due`.
abbrev pub Spaced : ℕ → ℕ → List Played → Type 0
Spaced gap due [] = Unit {0}
Spaced gap due (x ∷ xs) = (due ≤ x.at) × Spaced gap (x.at + gap) xs

-- When the next sound is due.
abbrev due_after : ℕ → ℕ → List Played → ℕ
due_after gap due [] = due
due_after gap due (x ∷ xs) = due_after gap (x.at + gap) xs

Spaced-append :
    (gap due : ℕ) (xs : List Played) (x : Played)
    → Spaced gap due xs
    → due_after gap due xs ≤ x.at
    → Spaced gap due (xs ++ x ∷ []) × (due_after gap due (xs ++ x ∷ []) ≡ x.at + gap)
Spaced-append gap due [] x h k = ((k, tt), refl)
Spaced-append gap due (y ∷ xs) x h k =
    let (s, d) = Spaced-append gap (y.at + gap) xs x h.1 k in ((h.0, s), d)

-- The global limit: what is played is spaced, and the next sound is due a second after the last.
abbrev Global : Player → Type 0
Global p =
    Spaced global_rate_limit_ms global_rate_limit_ms p.played
    × (due_after global_rate_limit_ms global_rate_limit_ms p.played
        ≡ p.last_played_global + global_rate_limit_ms)

play-Global : (c : Call) (p : Player) → Global p → Global (play c p)
unfolding play_sound
play-Global c p h = ground (
  arith,
  Spaced-append global_rate_limit_ms global_rate_limit_ms p.played
      (record { name = c.name; channel = c.opts.channel_id; at = c.now }) h.0,
)

play_all-Global : (cs : List Call) (p : Player) → Global p → Global (play_all cs p)
unfolding play_all
play_all-Global [] p h = h
play_all-Global (c ∷ cs) p h = play_all-Global cs (play c p) (play-Global c p h)

-- Any sequence of calls, at any times, plays sounds at least a second apart.
pub play_all-Spaced : (cs : List Call) → Spaced 1000 1000 (play_all cs start).played
unfolding start
play_all-Spaced cs = (play_all-Global cs start (tt, refl)).0

-- The sounds of one channel.
abbrev is_channel : ℕ → Option ℕ → Bool
is_channel k none = false
is_channel k (some c) = k == c

abbrev pub of_channel : ℕ → List Played → List Played
of_channel k = keep (λ x. is_channel k x.channel)

keep-append :
    (p : Played → Bool) (xs : List Played) (x : Played)
    → keep p (xs ++ x ∷ []) ≡ keep p xs ++ (if p x then x ∷ [] else [])
keep-append p [] x = refl
keep-append p (y ∷ xs) x = elim (Bool-cases (p y)) [
  | inl e ↦ rw e (ap (λ l. y ∷ l) (keep-append p xs x))
  | inr e ↦ rw e (keep-append p xs x)
]

abbrev Local : ℕ → List Played → Option ℕ → Type 0
Local k played last =
    Spaced channel_rate_limit_ms channel_rate_limit_ms (of_channel k played)
    × (due_after channel_rate_limit_ms channel_rate_limit_ms (of_channel k played)
        ≡ or_zero last + channel_rate_limit_ms)

-- A sound of another channel leaves the channel's sounds.
other-Local :
    (k : ℕ) (xs : List Played) (last : Option ℕ) (x : Played)
    → is_channel k x.channel ≡ false
    → Local k xs last
    → Local k (xs ++ x ∷ []) last
other-Local k xs last x e h = rw (keep-append (λ y. is_channel k y.channel) xs x, e, append-nil) h

-- A sound of the channel is its last one.
same-Local :
    (k : ℕ) (xs : List Played) (last : Option ℕ) (x : Played)
    → is_channel k x.channel ≡ true
    → or_zero last + channel_rate_limit_ms ≤ x.at
    → Local k xs last
    → Local k (xs ++ x ∷ []) (some x.at)
same-Local k xs last x e late h =
    rw (keep-append (λ y. is_channel k y.channel) xs x, e)
      (Spaced-append channel_rate_limit_ms channel_rate_limit_ms (of_channel k xs) x h.0
        (omega (arith, h.1, late)))

play_sound-Local :
    (k : ℕ) (enabled : Bool) (now : ℕ) (name : SoundName) (ch : Option ℕ) (p : Player)
    → Local k p.played (p.last_played_by_channel k)
    → let q =
        play_sound enabled now name (record { channel_id = ch; bypass_channel_limit = false }) p in
      Local k q.played (q.last_played_by_channel k)
unfolding play_sound
play_sound-Local k enabled now name none p h = ground (
  arith,
  other-Local k p.played (p.last_played_by_channel k)
      (record { name = name; channel = none; at = now }) refl h,
)
play_sound-Local k enabled now name (some c) p h =
    let x : Played = record { name = name; channel = some c; at = now } in
    ground (
      arith,
      λ (e : is_channel k x.channel ≡ true)
            (late : or_zero (p.last_played_by_channel k) + channel_rate_limit_ms ≤ now).
          same-Local k p.played (p.last_played_by_channel k) x e late h,
      λ (e : is_channel k x.channel ≡ false).
          other-Local k p.played (p.last_played_by_channel k) x e h,
    )

play-Local :
    (k : ℕ) (c : Call) (p : Player)
    → c.opts.bypass_channel_limit ≡ false
    → Local k p.played (p.last_played_by_channel k)
    → Local k (play c p).played ((play c p).last_played_by_channel k)
play-Local k c p e h =
    subst
      (λ b.
        let q =
          play_sound c.enabled c.now c.name
            (record { channel_id = c.opts.channel_id; bypass_channel_limit = b }) p in
        Local k q.played (q.last_played_by_channel k))
      (sym e) (play_sound-Local k c.enabled c.now c.name c.opts.channel_id p h)

-- Calls that keep the limit of their channel.
abbrev pub Limited : List Call → Type 0
Limited = All (λ c. c.opts.bypass_channel_limit ≡ false)

play_all-Local :
    (k : ℕ) (cs : List Call) (p : Player)
    → Limited cs
    → Local k p.played (p.last_played_by_channel k)
    → Local k (play_all cs p).played ((play_all cs p).last_played_by_channel k)
unfolding play_all
play_all-Local k [] p b h = h
play_all-Local k (c ∷ cs) p b h = play_all-Local k cs (play c p) b.1 (play-Local k c p b.0 h)

-- In any sequence of calls that do not bypass the limit of a channel, at any times, the sounds of
-- each channel come at least three seconds apart.
pub play_all-channel :
    (k : ℕ) (cs : List Call)
    → Limited cs
    → Spaced 3000 3000 (of_channel k (play_all cs start).played)
unfolding start
play_all-channel k cs b = (play_all-Local k cs start b (tt, refl)).0
