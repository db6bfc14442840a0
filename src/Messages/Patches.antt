-- ===== src/Messages/Patches.antt =====
-- Previews and edits that arrive for loaded messages.
use mini_discord.Prelude.{
  ℕ, String, ◌==◌, ◌≡◌, ◌≢◌, refl, ap, List, [], ◌∷◌, map, Option, none, some, if◌then◌else◌, All,
  arith, ==_refl, Bool-cases, inl, inr,
}
use mini_discord.Wire.{Message, ReplyPreview, MessageEmbedsEvent, MessageEditedEvent}
use mini_discord.Messages.{
  Messages, embeds_arrived, edit_arrived, set_embeds, edit_message, requote, list_of, patch,
  patch_channel,
}

-- A patch of the previews and one of the texts do not see each other.
edit-set_embeds :
    (edit : MessageEditedEvent) (embeds : MessageEmbedsEvent) (ms : List Message)
    → map (edit_message edit) (set_embeds embeds ms)
      ≡ set_embeds embeds (map (edit_message edit) ms)
edit-set_embeds edit embeds [] = refl
edit-set_embeds edit embeds (m ∷ ms) = let ih = edit-set_embeds edit embeds ms in ground (arith, ih)

patch_channel-at :
    (f : List Message → List Message) (c k : ℕ) (by_channel : ℕ → Option (List Message))
    → patch_channel f c by_channel k ≡ (if k == c then patch f (by_channel k) else by_channel k)
patch_channel-at f c k by_channel = ground arith

patch_comm :
    (f g : List Message → List Message)
    → ((ms : List Message) → f (g ms) ≡ g (f ms))
    → (o : Option (List Message)) → patch f (patch g o) ≡ patch g (patch f o)
patch_comm f g e none = refl
patch_comm f g e (some ms) = ap some (e ms)

-- Whatever the order in which a preview and an edit arrive, for the same message or not, the same
-- messages are loaded.
pub edit-embeds :
    (edit : MessageEditedEvent) (embeds : MessageEmbedsEvent) (s : Messages) (k : ℕ)
    → (edit_arrived edit (embeds_arrived embeds s)).messages_by_channel k
      ≡ (embeds_arrived embeds (edit_arrived edit s)).messages_by_channel k
unfolding edit_arrived embeds_arrived
edit-embeds edit embeds s k =
    let f = map (edit_message edit) in
    let g = set_embeds embeds in
    let loaded = s.messages_by_channel in
    rw
      (
        patch_channel-at f edit.channel_id k (patch_channel g embeds.channel_id loaded),
        patch_channel-at g embeds.channel_id k (patch_channel f edit.channel_id loaded),
        patch_channel-at g embeds.channel_id k loaded,
        patch_channel-at f edit.channel_id k loaded,
      )
      (ground (arith, patch_comm f g (edit-set_embeds edit embeds) (loaded k)))

-- The quotation of the message `id` in a reply shows the text.
abbrev pub Quotes : ℕ → String → Option (Option ReplyPreview) → Type 0
Quotes id text (some (some r)) = r.message_id ≡ id → r.content ≡ text
Quotes id text other = Unit {0}

-- The message itself, or else its quotation, shows the text.
abbrev pub Shows : ℕ → String → Message → Type 0
Shows id text m = (m.id ≡ id → m.content ≡ text) × (m.id ≢ id → Quotes id text m.reply_to)

requote-Quotes :
    (event : MessageEditedEvent) (o : Option (Option ReplyPreview))
    → Quotes event.message_id event.content (requote event o)
requote-Quotes event none = tt
requote-Quotes event (some none) = tt
requote-Quotes event (some (some q)) = elim (Bool-cases (q.message_id == event.message_id)) [
  | inl e ↦ rw e (λ _. refl)
  | inr e ↦ rw e (λ i. ground (arith, i, e))
]

edit_message-Shows :
    (event : MessageEditedEvent) (m : Message)
    → Shows event.message_id event.content (edit_message event m)
edit_message-Shows event m = elim (Bool-cases (m.id == event.message_id)) [
  | inl e ↦ rw e (λ _. refl, λ n. ground (arith, n, e))
  | inr e ↦ rw e (λ i. ground (arith, i, e), λ _. requote-Quotes event m.reply_to)
]

map-Shows :
    (event : MessageEditedEvent) (ms : List Message)
    → All (Shows event.message_id event.content) (map (edit_message event) ms)
map-Shows event [] = tt
map-Shows event (m ∷ ms) = (edit_message-Shows event m, map-Shows event ms)

ids-edit :
    (event : MessageEditedEvent) (ms : List Message)
    → map (λ m. m.id) (map (edit_message event) ms) ≡ map (λ m. m.id) ms
ids-edit event [] = refl
ids-edit event (m ∷ ms) = let ih = ids-edit event ms in ground arith

-- After an edit arrives, no loaded message of its channel shows an old text of the edited message,
-- neither itself nor in a reply that quotes it; and the ids of the loaded messages, with their order,
-- are as before.
pub edit_arrived-Shows :
    (event : MessageEditedEvent) (s : Messages)
    → let before = list_of (s.messages_by_channel event.channel_id) in
      let after = list_of ((edit_arrived event s).messages_by_channel event.channel_id) in
      All (Shows event.message_id event.content) after
      × (map (λ m. m.id) after ≡ map (λ m. m.id) before)
unfolding edit_arrived
edit_arrived-Shows event s =
    rw
      (
        patch_channel-at (map (edit_message event)) event.channel_id event.channel_id
            s.messages_by_channel,
        ==_refl event.channel_id,
      )
      (go (s.messages_by_channel event.channel_id))
  where
    go :
        (o : Option (List Message))
        → All (Shows event.message_id event.content) (list_of (patch (map (edit_message event)) o))
          × (map (λ m. m.id) (list_of (patch (map (edit_message event)) o))
              ≡ map (λ m. m.id) (list_of o))
    go none = (tt, refl)
    go (some ms) = (map-Shows event ms, ids-edit event ms)
