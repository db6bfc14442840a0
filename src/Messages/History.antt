-- ===== src/Messages/History.antt =====
-- The loaded messages of a channel as a part of the channel's history.
use mini_discord.Prelude.{
  ℕ, ◌≡◌, refl, sym, ap, ◌∙◌, true, false, List, [], ◌∷◌, ◌++◌, Option, none, some, append-nil,
  append_assoc, arith, ==_refl, subst, Bool-cases, inl, inr,
}
use mini_discord.Wire.{Message}
use mini_discord.Wire.Responses.{Page, Window}
use mini_discord.Messages.{
  Messages, Context, Pagination, incoming, older_arrived, newer_arrived, window_arrived,
  tail_arrived, load_arrived, list_of, more_newer, page_of,
}

-- The loaded messages are a run of the history without a gap; they reach its end unless there is
-- known to be more.
pub record IsPart (history : List Message) (c : ℕ) (s : Messages) : Type 0 where
  pub older : List Message
  pub newer : List Message
  pub parts : older ++ list_of (s.messages_by_channel c) ++ newer ≡ history
  pub at_end : more_newer (s.pagination_by_channel c) ≡ false → newer ≡ []

abbrev loaded_messages : ℕ → Messages → List Message
loaded_messages c s = list_of (s.messages_by_channel c)

-- The page ends just before the loaded messages.
abbrev pub IsOlderPage : List Message → ℕ → Messages → Page → Type 0
IsOlderPage history c s page =
    (o n : List Message)
    → o ++ list_of (s.messages_by_channel c) ++ n ≡ history
    → (before : List Message) × (o ≡ before ++ page.messages)

-- The page begins just after the loaded messages, and says whether the history goes on.
abbrev pub IsNewerPage : List Message → ℕ → Messages → Page → Type 0
IsNewerPage history c s page =
    (o n : List Message)
    → o ++ list_of (s.messages_by_channel c) ++ n ≡ history
    → (after : List Message) × (n ≡ page.messages ++ after) × (page.has_more ≡ false → after ≡ [])

-- What happens to the channel `c`, with its history at the server: messages come in, and replies
-- arrive that describe the history of that moment.
pub data Steps (c : ℕ) : List Message → Messages → Type 0 where
  loads :
      (s : Messages) (page : Page) (older : List Message)
      → Steps c (older ++ page.messages) (load_arrived c page s)
  resets :
      (s : Messages) (page : Page) (older : List Message)
      → Steps c (older ++ page.messages) (tail_arrived c page s)
  jumps :
      (s : Messages) (w : Window) (older newer : List Message)
      → (w.has_more_newer ≡ false → newer ≡ [])
      → Steps c (older ++ w.messages ++ newer) (window_arrived c w s)
  receives :
      (history : List Message) (s : Messages) (ctx : Context) (message : Message)
      → message.channel_id ≡ c
      → Steps c history s
      → Steps c (history ++ message ∷ []) (incoming ctx message s)
  extends_back :
      (history : List Message) (s : Messages) (page : Page)
      → IsOlderPage history c s page
      → Steps c history s
      → Steps c history (older_arrived c page s)
  extends_on :
      (history : List Message) (s : Messages) (page : Page)
      → IsNewerPage history c s page
      → Steps c history s
      → Steps c history (newer_arrived c page s)

load_arrived-IsPart :
    (c : ℕ) (s : Messages) (page : Page) (older : List Message)
    → IsPart (older ++ page.messages) c (load_arrived c page s)
unfolding load_arrived
load_arrived-IsPart c s page older = record {
  older = older;
  newer = [];
  parts = rw (==_refl c) (append-nil (older ++ page.messages));
  at_end = λ _. refl;
}

tail_arrived-IsPart :
    (c : ℕ) (s : Messages) (page : Page) (older : List Message)
    → IsPart (older ++ page.messages) c (tail_arrived c page s)
unfolding tail_arrived
tail_arrived-IsPart c s page older = record {
  older = older;
  newer = [];
  parts = rw (==_refl c) (append-nil (older ++ page.messages));
  at_end = λ _. refl;
}

window_arrived-IsPart :
    (c : ℕ) (s : Messages) (w : Window) (older newer : List Message)
    → (w.has_more_newer ≡ false → newer ≡ [])
    → IsPart (older ++ w.messages ++ newer) c (window_arrived c w s)
unfolding window_arrived
window_arrived-IsPart c s w older newer h = record {
  older = older;
  newer = newer;
  parts = rw (==_refl c) refl;
  at_end = rw (==_refl c) h;
}

page_of-newer : (o : Option Pagination) → (page_of o).has_more_newer ≡ more_newer o
page_of-newer none = refl
page_of-newer (some p) = refl

older_arrived-IsPart :
    (history : List Message) (c : ℕ) (s : Messages) (page : Page)
    → IsOlderPage history c s page
    → IsPart history c s
    → IsPart history c (older_arrived c page s)
unfolding older_arrived
older_arrived-IsPart history c s page documented part =
    let (before, e) = documented part.older part.newer part.parts in
    record {
      older = before;
      newer = part.newer;
      parts = rw (==_refl c) (
          ap (λ t. t ++ part.newer) (sym (append_assoc before page.messages (loaded_messages c s)))
          ∙ ap (λ o. o ++ loaded_messages c s ++ part.newer) (sym e)
          ∙ part.parts);
      at_end = rw (==_refl c, page_of-newer (s.pagination_by_channel c)) part.at_end;
    }

newer_arrived-IsPart :
    (history : List Message) (c : ℕ) (s : Messages) (page : Page)
    → IsNewerPage history c s page
    → IsPart history c s
    → IsPart history c (newer_arrived c page s)
unfolding newer_arrived
newer_arrived-IsPart history c s page documented part =
    let (after, e, h) = documented part.older part.newer part.parts in
    record {
      older = part.older;
      newer = after;
      parts = rw (==_refl c) (
          ap (λ t. t ++ after) (sym (append_assoc part.older (loaded_messages c s) page.messages))
          ∙ append_assoc (part.older ++ loaded_messages c s) page.messages after
          ∙ ap (λ n. part.older ++ loaded_messages c s ++ n) (sym e)
          ∙ part.parts);
      at_end = rw (==_refl c) h;
    }

-- While there is more, the message belongs to what is not loaded.
skipped-IsPart :
    (history : List Message) (c : ℕ) (s : Messages) (message : Message)
    → more_newer (s.pagination_by_channel c) ≡ true
    → IsPart history c s
    → IsPart (history ++ message ∷ []) c s
skipped-IsPart history c s message more part = record {
  older = part.older;
  newer = part.newer ++ message ∷ [];
  parts =
      sym (append_assoc (part.older ++ loaded_messages c s) part.newer (message ∷ []))
      ∙ ap (λ h. h ++ message ∷ []) part.parts;
  at_end = λ e. ground (arith, more, e);
}

appended-IsPart :
    (history : List Message) (s : Messages) (ctx : Context) (message : Message)
    → more_newer (s.pagination_by_channel message.channel_id) ≡ false
    → IsPart history message.channel_id s
    → IsPart (history ++ message ∷ []) message.channel_id (incoming ctx message s)
unfolding incoming
appended-IsPart history s ctx message live part =
    let c = message.channel_id in
    record {
      older = part.older;
      newer = [];
      parts =
          rw (live, ==_refl c)
            (append-nil (part.older ++ (loaded_messages c s ++ message ∷ []))
              ∙ sym (append_assoc part.older (loaded_messages c s) (message ∷ []))
              ∙ ap (λ t. t ++ message ∷ [])
                  (sym (append-nil (part.older ++ loaded_messages c s))
                    ∙ ap (λ n. part.older ++ loaded_messages c s ++ n) (sym (part.at_end live))
                    ∙ part.parts));
      at_end = λ _. refl;
    }

incoming-IsPart :
    (history : List Message) (s : Messages) (ctx : Context) (message : Message)
    → IsPart history message.channel_id s
    → IsPart (history ++ message ∷ []) message.channel_id (incoming ctx message s)
unfolding incoming
incoming-IsPart history s ctx message part =
    elim (Bool-cases (more_newer (s.pagination_by_channel message.channel_id))) [
      | inl more ↦ rw more (skipped-IsPart history message.channel_id s message more part)
      | inr live ↦ appended-IsPart history s ctx message live part
    ]

-- Whatever messages come in and pages arrive, as long as each page is what the server documents
-- for the moment at which it arrives, the loaded messages are a run of the channel's history without
-- a gap, which reaches the end of the history unless the state says that there is more.
pub Steps-IsPart :
    (c : ℕ) (history : List Message) (s : Messages) → Steps c history s → IsPart history c s
Steps-IsPart c _ _ (loads s page older) = load_arrived-IsPart c s page older
Steps-IsPart c _ _ (resets s page older) = tail_arrived-IsPart c s page older
Steps-IsPart c _ _ (jumps s w older newer h) = window_arrived-IsPart c s w older newer h
Steps-IsPart c _ _ (receives history s ctx message e steps) =
    subst (λ k. IsPart history k s → IsPart (history ++ message ∷ []) k (incoming ctx message s)) e
      (incoming-IsPart history s ctx message) (Steps-IsPart c history s steps)
Steps-IsPart c _ _ (extends_back history s page h steps) =
    older_arrived-IsPart history c s page h (Steps-IsPart c history s steps)
Steps-IsPart c _ _ (extends_on history s page h steps) =
    newer_arrived-IsPart history c s page h (Steps-IsPart c history s steps)
