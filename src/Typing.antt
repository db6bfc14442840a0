-- ===== src/Typing.antt =====
-- Who is typing: frontend/src/hooks/useTypingIndicator.ts. The map of lists is a function, with the
-- empty list for a missing entry (the hook deletes an entry that gets empty); `timers` says for a
-- channel and a user whether a timer is armed.
pub mod Expiry
use mini_discord.Prelude.{
  ℕ, ◌==◌, Bool, true, false, not, List, [], ◌∷◌, ◌++◌, Option, none, some, if◌then◌else◌, keep,
  includes, put,
}

pub record Typing : Type 0 where
  pub typing_by_channel : ℕ → List ℕ
  pub timers : ℕ → ℕ → Bool

unfoldable pub nobody : Typing
nobody = record { typing_by_channel = λ _. []; timers = λ _. λ _. false }

unfoldable pub clear_user : ℕ → ℕ → (ℕ → List ℕ) → ℕ → List ℕ
clear_user c u typing =
    if not (includes u (typing c))
    then typing
    else put c (keep (λ id. not (id == u)) (typing c)) typing

abbrev pub set_timer : ℕ → ℕ → Bool → (ℕ → ℕ → Bool) → ℕ → ℕ → Bool
set_timer c u armed timers = put c (put u armed (timers c)) timers

abbrev show_user : ℕ → ℕ → (ℕ → List ℕ) → ℕ → List ℕ
show_user c u typing = if includes u (typing c) then typing else put c (typing c ++ u ∷ []) typing

abbrev is_self : Option ℕ → ℕ → Bool
is_self none u = false
is_self (some me) u = u == me

-- `socket.onTyping`; the timer that is armed before is cleared, and a new one takes its place.
unfoldable pub on_typing : Option ℕ → ℕ → ℕ → Bool → Typing → Typing
unfolding clear_user
on_typing user c u is_typing s =
    if is_self user u
    then s
    else if not is_typing
    then record {
      typing_by_channel = clear_user c u s.typing_by_channel;
      timers = set_timer c u false s.timers;
    }
    else record {
      typing_by_channel = show_user c u s.typing_by_channel;
      timers = set_timer c u true s.timers;
    }

-- A timer runs out: nothing happens unless it is armed.
unfoldable pub expires : ℕ → ℕ → Typing → Typing
unfolding clear_user
expires c u s =
    if s.timers c u
    then record {
      typing_by_channel = clear_user c u s.typing_by_channel;
      timers = set_timer c u false s.timers;
    }
    else s

-- The effect's clean-up, when the connection goes: all timers are cleared.
unfoldable pub clean_up : Typing → Typing
clean_up s = record s { timers = λ _. λ _. false }
