-- ===== src/Voice/Presence.antt =====
-- Who is in which voice channel: the lists that the handlers keep, and what they stand for.
use mini_discord.Prelude.{
  ℕ, ◌==◌, zero, suc, ◌≡◌, refl, ap, ◌∙◌, subst, Bool, false, not, ◌&&◌, ◌||◌, List, [], ◌∷◌, ◌++◌,
  if◌then◌else◌, arith,
}
use mini_discord.Wire.{VoiceParticipant}
use mini_discord.Voice.{
  VoiceState, has_user, voice_user_joined, voice_user_left, status_changed, voice_joined,
  voice_left,
}
use mini_discord.Voice.Lists.{
  present, voice_user_joined-present, voice_user_left-present, keeps_channel-joined,
  keeps_channel-left, status_changed-present, voice_joined-present, voice_left-present,
}

-- Somebody joins or leaves a channel or changes the status; the user begins to join or to leave one,
-- or a call that was begun is answered, in any order: calls are counted from 0.
pub data VoiceEvent : Type 0 where
  joins : ℕ → VoiceParticipant → VoiceEvent
  leaves : ℕ → ℕ → VoiceEvent
  changes : ℕ → VoiceParticipant → VoiceEvent
  self_begins : VoiceEvent
  self_joins : ℕ → ℕ → List VoiceParticipant → VoiceEvent
  self_leaves : ℕ → VoiceEvent

-- The hook's state, and for each call of `handleJoinVoice` and `handleLeaveVoice` the channel in which
-- it was begun, which the call keeps over its `await`.
pub record Calling : Type 0 where
  pub voice : VoiceState
  pub begun_in : List ℕ

-- the channel of a call, or 0
abbrev pub begun : ℕ → List ℕ → ℕ
begun n [] = 0
begun zero (c ∷ cs) = c
begun (suc n) (c ∷ cs) = begun n cs

unfoldable pub voice_event : VoiceEvent → Calling → Calling
voice_event (joins c p) q = record q { voice = voice_user_joined c p q.voice }
voice_event (leaves c u) q = record q { voice = voice_user_left c u q.voice }
voice_event (changes c p) q = record q { voice = status_changed c p q.voice }
voice_event self_begins q = record q { begun_in = q.begun_in ++ q.voice.voice_channel ∷ [] }
voice_event (self_joins n c users) q = record q {
  voice = voice_joined (begun n q.begun_in) c users q.voice;
}
voice_event (self_leaves n) q = record q { voice = voice_left (begun n q.begun_in) q.voice }

unfoldable pub react_all : List VoiceEvent → Calling → Calling
unfolding voice_event
react_all [] q = q
react_all (e ∷ es) q = react_all es (voice_event e q)

-- The abstract view: a set of pairs of a channel and a user, the user's own channel, and the channels
-- in which the user began to join or to leave.
pub record Rooms : Type 0 where
  pub is_in : ℕ → ℕ → Bool
  pub here : ℕ
  pub begun_in : List ℕ

-- the pairs that are left when the user leaves the channel
abbrev away : ℕ → ℕ → Rooms → ℕ → ℕ → Bool
away self c r k v = r.is_in k v && (c == 0 || not (k == c && v == self))

unfoldable pub enter : ℕ → VoiceEvent → Rooms → Rooms
enter self (joins c p) r = record r { is_in = λ k v. (k == c && v == p.user_id) || r.is_in k v }
enter self (leaves c u) r = record r { is_in = λ k v. r.is_in k v && not (k == c && v == u) }
enter self (changes c p) r = r
enter self self_begins r = record r { begun_in = r.begun_in ++ r.here ∷ [] }
enter self (self_joins n c users) r = record r {
  is_in =
      λ k v. if k == c then v == self || has_user v users else away self (begun n r.begun_in) r k v;
  here = c;
}
enter self (self_leaves n) r = record r {
  is_in = λ k v. away self (begun n r.begun_in) r k v;
  here = 0;
}

unfoldable pub enter_all : ℕ → List VoiceEvent → Rooms → Rooms
unfolding enter
enter_all self [] r = r
enter_all self (e ∷ es) r = enter_all self es (enter self e r)

abbrev pub Shows : Rooms → Calling → Type 0
Shows r q =
    ((k u : ℕ) → present k u q.voice.participants ≡ r.is_in k u)
    × (q.voice.voice_channel ≡ r.here)
    × (q.begun_in ≡ r.begun_in)
    × ((q.voice.user_id == 0) ≡ false)

voice_event-Shows :
    (e : VoiceEvent) (r : Rooms) (q : Calling)
    → Shows r q
    → Shows (enter q.voice.user_id e r) (voice_event e q)
unfolding voice_event enter status_changed voice_joined voice_left
voice_event-Shows (joins c p) r q (h, here, calls, me) = (
  λ k u.
      voice_user_joined-present k u c p q.voice ∙ ap (λ b. (k == c && u == p.user_id) || b) (h k u),
  (keeps_channel-joined c p q.voice).0 ∙ here,
  calls,
  ground (arith, me, keeps_channel-joined c p q.voice),
)
voice_event-Shows (leaves c v) r q (h, here, calls, me) = (
  λ k u. voice_user_left-present k u c v q.voice ∙ ap (λ b. b && not (k == c && u == v)) (h k u),
  (keeps_channel-left c v q.voice).0 ∙ here,
  calls,
  ground (arith, me, keeps_channel-left c v q.voice),
)
voice_event-Shows (changes c p) r q (h, here, calls, me) =
    (λ k u. status_changed-present k u c p q.voice ∙ h k u, here, calls, me)
voice_event-Shows self_begins r q (h, here, calls, me) = (h, here, λ i. calls i ++ here i ∷ [], me)
voice_event-Shows (self_joins n c users) r q (h, here, calls, me) = (
  λ k u. voice_joined-present k u (begun n q.begun_in) c users q.voice me ∙ (λ i.
      if k == c
      then u == q.voice.user_id || has_user u users
      else h k u i
        && (begun n (calls i) == 0 || not (k == begun n (calls i) && u == q.voice.user_id))),
  refl,
  calls,
  me,
)
voice_event-Shows (self_leaves n) r q (h, here, calls, me) = (
  λ k u. voice_left-present k u (begun n q.begun_in) q.voice me ∙ (λ i.
      h k u i && (begun n (calls i) == 0 || not (k == begun n (calls i) && u == q.voice.user_id))),
  refl,
  calls,
  me,
)

voice_event-user :
    (e : VoiceEvent) (q : Calling) → (voice_event e q).voice.user_id ≡ q.voice.user_id
unfolding voice_event status_changed voice_joined voice_left
voice_event-user (joins c p) q = (keeps_channel-joined c p q.voice).1
voice_event-user (leaves c v) q = (keeps_channel-left c v q.voice).1
voice_event-user (changes c p) q = refl
voice_event-user self_begins q = refl
voice_event-user (self_joins n c users) q = refl
voice_event-user (self_leaves n) q = refl

-- For a user who is logged in, after any events from a state that shows some pairs of a channel and a
-- user: the lists show the pairs that the events make of those, with the user's own channel. Joining
-- adds a pair, leaving removes it, a status changes none. Calls of the user may overlap: an answer to
-- joining or to leaving removes the user from the channel in which that call was begun, and from no
-- other; joining takes over the server's list with the user in it.
pub react_all-Shows :
    (self : ℕ) (es : List VoiceEvent) (r : Rooms) (q : Calling)
    → q.voice.user_id ≡ self
    → Shows r q
    → Shows (enter_all self es r) (react_all es q)
unfolding react_all enter_all
react_all-Shows self [] r q me h = h
react_all-Shows self (e ∷ es) r q me h =
    react_all-Shows self es (enter self e r) (voice_event e q) (voice_event-user e q ∙ me)
      (subst (λ u. Shows (enter u e r) (voice_event e q)) me (voice_event-Shows e r q h))
