-- ===== src/Typing/Expiry.antt =====
-- Whoever is shown as typing has a timer that ends it, until the clean-up.
use mini_discord.Prelude.{
  ℕ, ◌==◌, ◌≡◌, refl, Bool, true, false, not, ◌&&◌, ◌||◌, List, [], ◌∷◌, ◌++◌, Option,
  if◌then◌else◌, keep, includes, arith, All, subst, sym, ap, ==_iff,
}
use mini_discord.Typing.{
  Typing, nobody, clear_user, set_timer, show_user, on_typing, expires, clean_up,
}

pub data TypingEvent : Type 0 where
  typed : ℕ → ℕ → Bool → TypingEvent
  timed_out : ℕ → ℕ → TypingEvent

unfoldable pub react : Option ℕ → TypingEvent → Typing → Typing
unfolding on_typing expires
react user (typed c u is_typing) s = on_typing user c u is_typing s
react user (timed_out c u) s = expires c u s

unfoldable pub react_all : Option ℕ → List TypingEvent → Typing → Typing
unfolding react
react_all user [] s = s
react_all user (e ∷ events) s = react_all user events (react user e s)

includes-keep :
    (v u : ℕ) (l : List ℕ)
    → includes v (keep (λ id. not (id == u)) l) ≡ (includes v l && not (v == u))
includes-keep v u [] = refl
includes-keep v u (x ∷ l) = let ih = includes-keep v u l in ground (arith, ih)

includes-append : (v u : ℕ) (l : List ℕ) → includes v (l ++ u ∷ []) ≡ (includes v l || u == v)
includes-append v u [] = ground arith
includes-append v u (x ∷ l) = let ih = includes-append v u l in ground (arith, ih)

-- The user `v` is shown in the channel `k` exactly if the timer is armed.
abbrev IsTimed : ℕ → ℕ → Typing → Type 0
IsTimed k v s = includes v (s.typing_by_channel k) ≡ s.timers k v

includes-clear_user :
    (k v c u : ℕ) (typing : ℕ → List ℕ)
    → includes v (clear_user c u typing k) ≡ (includes v (typing k) && not ((k == c) && (v == u)))
unfolding clear_user
includes-clear_user k v c u typing = let kept = includes-keep v u (typing c) in ground (arith, kept)

includes-show_user :
    (k v c u : ℕ) (typing : ℕ → List ℕ)
    → includes v (show_user c u typing k) ≡ (includes v (typing k) || ((k == c) && (v == u)))
includes-show_user k v c u typing =
    let grown = includes-append v u (typing c) in ground (arith, grown)

set_timer-at :
    (k v c u : ℕ) (armed : Bool) (timers : ℕ → ℕ → Bool)
    → set_timer c u armed timers k v ≡ (if (k == c) && (v == u) then armed else timers k v)
set_timer-at k v c u armed timers = ground arith

react-IsTimed :
    (k v : ℕ) (user : Option ℕ) (e : TypingEvent) (s : Typing)
    → IsTimed k v s
    → IsTimed k v (react user e s)
unfolding react on_typing expires
react-IsTimed k v user (typed c u false) s h =
    let cleared = includes-clear_user k v c u s.typing_by_channel in
    let off = set_timer-at k v c u false s.timers in ground (arith, cleared, off, h)
react-IsTimed k v user (typed c u true) s h =
    let shown = includes-show_user k v c u s.typing_by_channel in
    let on = set_timer-at k v c u true s.timers in ground (arith, shown, on, h)
react-IsTimed k v user (timed_out c u) s h =
    let cleared = includes-clear_user k v c u s.typing_by_channel in
    let off = set_timer-at k v c u false s.timers in ground (arith, cleared, off, h)

react_all-IsTimed :
    (k v : ℕ) (user : Option ℕ) (events : List TypingEvent) (s : Typing)
    → IsTimed k v s
    → IsTimed k v (react_all user events s)
unfolding react_all
react_all-IsTimed k v user [] s h = h
react_all-IsTimed k v user (e ∷ events) s h =
    react_all-IsTimed k v user events (react user e s) (react-IsTimed k v user e s h)

-- After any typing events and timers that ran out, a user is shown as typing in a channel exactly
-- while a timer for the user and the channel is armed.
pub shown-timed :
    (user : Option ℕ) (events : List TypingEvent) (k v : ℕ)
    → let s = react_all user events nobody in includes v (s.typing_by_channel k) ≡ s.timers k v
unfolding nobody
shown-timed user events k v = react_all-IsTimed k v user events nobody refl

-- The event does not say whether the user `v` types in the channel `k`.
abbrev pub SaysNothing : ℕ → ℕ → TypingEvent → Type 0
SaysNothing k v (typed c u is_typing) = ((k == c) && (v == u)) ≡ false
SaysNothing k v (timed_out c u) = Unit {0}

-- The user `v` is shown in the channel `k` or not, and has no timer.
abbrev IsStuck : ℕ → ℕ → Bool → Typing → Type 0
IsStuck k v shown s = (includes v (s.typing_by_channel k) ≡ shown) × (s.timers k v ≡ false)

react-IsStuck :
    (k v : ℕ) (shown : Bool) (user : Option ℕ) (e : TypingEvent) (s : Typing)
    → SaysNothing k v e
    → IsStuck k v shown s
    → IsStuck k v shown (react user e s)
unfolding react on_typing expires
react-IsStuck k v shown user (typed c u false) s n h =
    let cleared = includes-clear_user k v c u s.typing_by_channel in
    let off = set_timer-at k v c u false s.timers in ground (arith, cleared, off, n, h)
react-IsStuck k v shown user (typed c u true) s n h =
    let grown = includes-show_user k v c u s.typing_by_channel in
    let on = set_timer-at k v c u true s.timers in ground (arith, grown, on, n, h)
react-IsStuck k v shown user (timed_out c u) s n h =
    let cleared = includes-clear_user k v c u s.typing_by_channel in
    let off = set_timer-at k v c u false s.timers in
    ground (
      arith,
      cleared,
      off,
      h,
      λ (e : (k == c) ≡ true) (d : (v == u) ≡ true).
          subst (λ i. s.timers i u ≡ s.timers k v) ((==_iff k c).0 e)
            (ap (s.timers k) (sym ((==_iff v u).0 d))),
    )

react_all-IsStuck :
    (k v : ℕ) (shown : Bool) (user : Option ℕ) (events : List TypingEvent) (s : Typing)
    → All (SaysNothing k v) events
    → IsStuck k v shown s
    → IsStuck k v shown (react_all user events s)
unfolding react_all
react_all-IsStuck k v shown user [] s n h = h
react_all-IsStuck k v shown user (e ∷ events) s n h =
    react_all-IsStuck k v shown user events (react user e s) n.1
      (react-IsStuck k v shown user e s n.0 h)

-- Over the clean-up and any typing events and timers afterwards, until an event of the server says
-- again whether a user types in a channel, the user stays shown there if shown before, and not shown
-- otherwise: nothing ends what was shown.
pub clean_up-stuck :
    (user : Option ℕ) (k v : ℕ) (later : List TypingEvent) (s : Typing)
    → All (SaysNothing k v) later
    → includes v ((react_all user later (clean_up s)).typing_by_channel k)
      ≡ includes v (s.typing_by_channel k)
unfolding clean_up
clean_up-stuck user k v later s n =
    (react_all-IsStuck k v (includes v (s.typing_by_channel k)) user later (clean_up s) n
      (refl, refl)).0
