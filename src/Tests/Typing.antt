-- ===== src/Tests/Typing.antt =====
-- Typing indicators on short series of events.
use mini_discord.Prelude.{◌≡◌, refl, true, List, [], ◌∷◌, some, includes}
use mini_discord.Typing.{Typing, nobody, clean_up}
use mini_discord.Typing.Expiry.{
  TypingEvent, typed, timed_out, react_all, shown-timed, clean_up-stuck,
}

-- Users 3 and 4 type in channel 2; the timer of 3 runs out.
abbrev events : List TypingEvent
events = typed 2 3 true ∷ typed 2 4 true ∷ timed_out 2 3 ∷ []

abbrev after : Typing
after = react_all (some 1) events nobody

still_shown : after.typing_by_channel 2 ≡ 4 ∷ []
unfolding react_all nobody
still_shown = refl

shown-timed_example : includes 4 (after.typing_by_channel 2) ≡ after.timers 2 4
shown-timed_example = shown-timed (some 1) events 2 4

-- The timer of 4 would have run out, and user 3 types again.
abbrev later : List TypingEvent
later = timed_out 2 4 ∷ typed 2 3 true ∷ []

clean_up-stuck_example :
    includes 4 ((react_all (some 1) later (clean_up after)).typing_by_channel 2) ≡ true
unfolding react_all nobody
clean_up-stuck_example = clean_up-stuck (some 1) 2 4 later after (tt, (refl, tt))
