-- ===== src/Voice/Lists.antt =====
-- The lists of participants of frontend/src/hooks/useVoice.ts: who is in a channel's list after each
-- of the handlers.
use mini_discord.Prelude.{
  ℕ, ◌==◌, ◌≡◌, refl, sym, ap, Bool, true, false, not, ◌&&◌, ◌||◌, List, [], ◌∷◌, ◌++◌, Option,
  none, some, if◌then◌else◌, set_entry, get_entry, delete_entry, entry, arith, Bool-cases, inl, inr,
  ==_iff, get_entry-set_entry, get_entry-delete_entry,
}
use mini_discord.Wire.{VoiceParticipant}
use mini_discord.Voice.{
  VoiceState, has_user, without, put_or_drop, change_first, change_in, merge_participant, drop_self,
  self_participant, voice_user_joined, voice_user_left, status_changed, voice_joined, voice_left,
}

-- The user is in the channel.
abbrev pub present : ℕ → ℕ → List (ℕ × List VoiceParticipant) → Bool
present c u lists = has_user u (entry [] c lists)

abbrev in_list : ℕ → Option (List VoiceParticipant) → Bool
in_list u none = false
in_list u (some ps) = has_user u ps

present-get_entry :
    (c u : ℕ) (lists : List (ℕ × List VoiceParticipant))
    → present c u lists ≡ in_list u (get_entry c lists)
present-get_entry c u [] = refl
present-get_entry c u (kv ∷ rest) = ground (arith, present-get_entry c u rest)

present-set_entry :
    (k u c : ℕ) (ps : List VoiceParticipant) (lists : List (ℕ × List VoiceParticipant))
    → present k u (set_entry c ps lists) ≡ (if k == c then has_user u ps else present k u lists)
present-set_entry k u c ps lists =
    rw (present-get_entry k u (set_entry c ps lists), get_entry-set_entry k c ps lists)
      (ground (arith, present-get_entry k u lists))

present-put_or_drop :
    (k u c : ℕ) (ps : List VoiceParticipant) (lists : List (ℕ × List VoiceParticipant))
    → present k u (put_or_drop c ps lists) ≡ (if k == c then has_user u ps else present k u lists)
present-put_or_drop k u c [] lists =
    rw (present-get_entry k u (delete_entry c lists), get_entry-delete_entry k c lists)
      (ground (arith, present-get_entry k u lists))
present-put_or_drop k u c (p ∷ ps) lists = present-set_entry k u c (p ∷ ps) lists

has_user-append :
    (u : ℕ) (ps : List VoiceParticipant) (p : VoiceParticipant)
    → has_user u (ps ++ p ∷ []) ≡ (has_user u ps || p.user_id == u)
has_user-append u [] p = ground arith
has_user-append u (x ∷ ps) p = ground (arith, has_user-append u ps p)

has_user-without :
    (u v : ℕ) (ps : List VoiceParticipant)
    → has_user u (without v ps) ≡ (has_user u ps && not (u == v))
has_user-without u v [] = refl
has_user-without u v (p ∷ ps) = ground (arith, has_user-without u v ps)

has_user-change_first :
    (u v : ℕ) (f : VoiceParticipant → VoiceParticipant) (ps : List VoiceParticipant)
    → ((p : VoiceParticipant) → (f p).user_id ≡ v)
    → has_user u (change_first v f ps) ≡ has_user u ps
has_user-change_first u v f [] h = refl
has_user-change_first u v f (p ∷ ps) h = ground (arith, has_user-change_first u v f ps h, h p)

present-change_in :
    (k u c v : ℕ) (f : VoiceParticipant → VoiceParticipant)
    (lists : List (ℕ × List VoiceParticipant))
    → ((p : VoiceParticipant) → (f p).user_id ≡ v)
    → present k u (change_in c v f lists) ≡ present k u lists
present-change_in k u c v f lists h = elim (Bool-cases (has_user v (entry [] c lists))) [
  | inr e ↦ rw e refl
  | inl e ↦
      rw
        (
          e,
          present-set_entry k u c (change_first v f (entry [] c lists)) lists,
          has_user-change_first u v f (entry [] c lists) h,
        )
        (same (k == c) refl)
]
  where
    same :
        (b : Bool)
        → (k == c) ≡ b
        → (if b then has_user u (entry [] c lists) else present k u lists) ≡ present k u lists
    same true e = ap (λ j. present j u lists) (sym ((==_iff k c).0 e))
    same false e = refl

present_same :
    (k c u : ℕ) (lists : List (ℕ × List VoiceParticipant))
    → (k == c) ≡ true
    → present k u lists ≡ has_user u (entry [] c lists)
present_same k c u lists e = ap (λ j. present j u lists) ((==_iff k c).0 e)

has_user_same :
    (u v : ℕ) (ps : List VoiceParticipant) → (u == v) ≡ true → has_user u ps ≡ has_user v ps
has_user_same u v ps e = ap (λ w. has_user w ps) ((==_iff u v).0 e)

already_in :
    (k u c v : ℕ) (lists : List (ℕ × List VoiceParticipant))
    → has_user v (entry [] c lists) ≡ true
    → present k u lists ≡ ((k == c && u == v) || present k u lists)
already_in k u c v lists e =
    ground (arith, present_same k c u lists, has_user_same u v (entry [] c lists), e)

not_in :
    (k u c v : ℕ) (lists : List (ℕ × List VoiceParticipant))
    → has_user v (entry [] c lists) ≡ false
    → present k u lists ≡ (present k u lists && not (k == c && u == v))
not_in k u c v lists e =
    ground (arith, present_same k c u lists, has_user_same u v (entry [] c lists), e)

pub voice_user_joined-present :
    (k u c : ℕ) (p : VoiceParticipant) (s : VoiceState)
    → present k u (voice_user_joined c p s).participants
      ≡ ((k == c && u == p.user_id) || present k u s.participants)
unfolding voice_user_joined
voice_user_joined-present k u c p s =
    let current = entry [] c s.participants in
    let at_c = present_same k c u s.participants in
    elim (Bool-cases (has_user p.user_id current)) [
      | inl e ↦ rw e (already_in k u c p.user_id s.participants e)
      | inr e ↦
          rw (e, present-set_entry k u c (current ++ p ∷ []) s.participants)
            (ground (arith, at_c, has_user-append u current p))
    ]

pub voice_user_left-present :
    (k u c v : ℕ) (s : VoiceState)
    → present k u (voice_user_left c v s).participants
      ≡ (present k u s.participants && not (k == c && u == v))
unfolding voice_user_left
voice_user_left-present k u c v s =
    let current = entry [] c s.participants in
    let at_c = present_same k c u s.participants in
    elim (Bool-cases (has_user v current)) [
      | inl e ↦
          rw (e, present-put_or_drop k u c (without v current) s.participants)
            (ground (arith, at_c, has_user-without u v current))
      | inr e ↦ rw e (not_in k u c v s.participants e)
    ]

drop_self-present :
    (k u c self : ℕ) (lists : List (ℕ × List VoiceParticipant))
    → present k u (drop_self c (get_entry c lists) self lists)
      ≡ (present k u lists && not (k == c && u == self))
drop_self-present k u c self lists = dropped (get_entry c lists) refl
  where
    dropped :
        (o : Option (List VoiceParticipant))
        → get_entry c lists ≡ o
        → present k u (drop_self c o self lists) ≡ (present k u lists && not (k == c && u == self))
    dropped none e =
        ground (arith, present_same k c u lists, present-get_entry c u lists, ap (in_list u) e)
    dropped (some current) e = rw (present-put_or_drop k u c (without self current) lists) (
        ground (
          arith,
          present_same k c u lists,
          present-get_entry c u lists,
          ap (in_list u) e,
          has_user-without u self current,
        ))

pub keeps_channel-joined :
    (c : ℕ) (p : VoiceParticipant) (s : VoiceState)
    → ((voice_user_joined c p s).voice_channel ≡ s.voice_channel)
      × ((voice_user_joined c p s).user_id ≡ s.user_id)
unfolding voice_user_joined
keeps_channel-joined c p s = ground arith

pub keeps_channel-left :
    (c v : ℕ) (s : VoiceState)
    → ((voice_user_left c v s).voice_channel ≡ s.voice_channel)
      × ((voice_user_left c v s).user_id ≡ s.user_id)
unfolding voice_user_left
keeps_channel-left c v s = ground arith

pub status_changed-present :
    (k u c : ℕ) (p : VoiceParticipant) (s : VoiceState)
    → present k u (status_changed c p s).participants ≡ present k u s.participants
unfolding status_changed
status_changed-present k u c p s =
    present-change_in k u c p.user_id (merge_participant p) s.participants (λ x. refl)

pub voice_left-present :
    (k u c : ℕ) (s : VoiceState)
    → (s.user_id == 0) ≡ false
    → present k u (voice_left c s).participants
      ≡ (present k u s.participants && (c == 0 || not (k == c && u == s.user_id)))
unfolding voice_left
voice_left-present k u c s me =
    let current = entry [] c s.participants in
    elim (Bool-cases (c == 0)) [
      | inl e ↦ rw (me, e) (ground arith)
      | inr e ↦
          rw (me, e, present-put_or_drop k u c (without s.user_id current) s.participants)
            (ground
              (arith, present_same k c u s.participants, has_user-without u s.user_id current))
    ]

-- the lists without the user in the channel `b` that is left for the channel `c`
abbrev left_for : ℕ → ℕ → VoiceState → List (ℕ × List VoiceParticipant)
left_for b c s =
    if b == 0 || b == c
    then s.participants
    else drop_self b (get_entry b s.participants) s.user_id s.participants

left_for-present :
    (k u b c : ℕ) (s : VoiceState)
    → (k == c) ≡ false
    → present k u (left_for b c s)
      ≡ (present k u s.participants && (b == 0 || not (k == b && u == s.user_id)))
left_for-present k u b c s other = elim (Bool-cases (b == 0 || b == c)) [
  | inl e ↦ rw e (stays (present k u s.participants) e)
  | inr e ↦
      rw (e, drop_self-present k u b s.user_id s.participants)
        (moves (present k u s.participants) e)
]
  where
    stays :
        (p : Bool)
        → (b == 0 || b == c) ≡ true
        → p ≡ (p && (b == 0 || not (k == b && u == s.user_id)))
    stays p e = ground (arith, other, e)

    moves :
        (p : Bool)
        → (b == 0 || b == c) ≡ false
        → (p && not (k == b && u == s.user_id)) ≡ (p && (b == 0 || not (k == b && u == s.user_id)))
    moves p e = ground (arith, e)

pub voice_joined-present :
    (k u b c : ℕ) (users : List VoiceParticipant) (s : VoiceState)
    → (s.user_id == 0) ≡ false
    → present k u (voice_joined b c users s).participants ≡ (
        if k == c
        then u == s.user_id || has_user u users
        else present k u s.participants && (b == 0 || not (k == b && u == s.user_id)))
unfolding voice_joined
voice_joined-present k u b c users s me =
    rw (me, present-set_entry k u c (self_participant s ∷ without s.user_id users) (left_for b c s))
      (ground (
        arith,
        has_user-without u s.user_id users,
        λ (e : (k == c) ≡ false). left_for-present k u b c s e,
      ))
