-- ===== src/Wire/Decode/RoundTrip.antt =====
-- What the decoders of frontend/src/services/chatSocket.ts make of well-formed values: a message
-- in the server's format decodes to itself.
use text.Mathlib.TextEquality.{eq_iff}
use mini_discord.Prelude.{
  ℕ, String, ◌≡◌, refl, ap, sym, subst, ◌∙◌, Bool-cases, ◌⊎◌, inl, inr, Bool, true, List, [], ◌∷◌,
  map, Option, none, some, All, keep, arith,
}
use mini_discord.Json.{
  Json, undefined, null, bool, num, str, arr, obj, end, field, lookup, get, is_object, as_number,
  as_string, as_bool, as_array, to_list, of_list,
}
use mini_discord.Wire.{Attachment, LinkPreview, ReplyPreview, Message}
use mini_discord.Wire.Decode.{
  parse_attachments, parse_embeds, author_first_name, author_last_name, author_nickname,
  author_avatar_url, to_reply, to_mentions, to_message, has_url, filter_map, to_attachment,
  to_embed, to_reply_id, reply_preview, attachments_of, embeds_of,
}

to_list-of_list : (l : List Json) → to_list (of_list l) ≡ l
to_list-of_list [] = refl
to_list-of_list (v ∷ l) = ap (λ r. v ∷ r) (to_list-of_list l)

abbrev opt {ℓ} : {A : Type ℓ} → (A → Json) → Option A → Json
opt f none = undefined
opt f (some a) = f a

abbrev list_of {ℓ} : {A : Type ℓ} → (A → Json) → List A → Json
list_of f l = arr (of_list (map f l))

abbrev encode_attachment : Attachment → Json
encode_attachment a = obj (
    field "url" (str a.url)
      (field "file_name" (str a.file_name) (field "content_type" (str a.content_type) end)))

abbrev encode_embed : LinkPreview → Json
encode_embed e = obj (
    field "url" (str e.url) (
      field "title" (opt str e.title) (
        field "description" (opt str e.description) (
          field "site_name" (opt str e.site_name)
            (field "image_token" (opt str e.image_token) end)))))

abbrev encode_reply : ReplyPreview → Json
encode_reply r = obj (
    field "message_id" (num r.message_id) (
      field "author_id" (num r.author_id) (
        field "author_first_name" (str r.author_first_name) (
          field "author_last_name" (str r.author_last_name) (
            field "author_nickname" (opt str r.author_nickname) (
              field "content" (str r.content)
                (field "has_attachments" (bool r.has_attachments) end)))))))

-- A field that is `null` on the wire and one that is missing differ.
abbrev nullable {ℓ} : {A : Type ℓ} → (A → Json) → Option (Option A) → Json
nullable f none = undefined
nullable f (some none) = null
nullable f (some (some a)) = f a

-- The server's format of a message (types/websocket.go), and of a direct-message channel.
unfoldable pub encode_message : Message → Json
encode_message m = obj (
    field "id" (num m.id) (
      field "channel_id" (num m.channel_id) (
        field "author_id" (num m.author_id) (
          field "author_first_name" m.author_first_name (
            field "author_last_name" m.author_last_name (
              field "author_nickname" m.author_nickname (
                field "author_avatar_url" (str m.author_avatar_url) (
                  field "content" (str m.content) (
                    field "attachments" (opt (list_of encode_attachment) m.attachments) (
                      field "reply_to_id" (nullable num m.reply_to_id) (
                        field "reply_to" (nullable encode_reply m.reply_to) (
                          field "mentions" (opt (list_of num) m.mentions) (
                            field "mentions_everyone" (opt bool m.mentions_everyone) (
                              field "embeds" (list_of encode_embed m.embeds) (
                                field "created_at" (str m.created_at)
                                  (field "edited_at" (opt str m.edited_at) end))))))))))))))))

abbrev OptAll {ℓ κ} : {A : Type ℓ} → (A → Type κ) → Option (List A) → Type κ
OptAll P none = Unit
OptAll P (some l) = All P l

-- The author's names are texts, each link has an address, and a reply names a message by a number.
pub record IsWireMessage (m : Message) : Type 0 where
  pub first_name : String
  pub has_first_name : m.author_first_name ≡ str first_name
  pub last_name : String
  pub has_last_name : m.author_last_name ≡ str last_name
  pub nickname : String
  pub has_nickname : m.author_nickname ≡ str nickname
  pub attachment_urls : OptAll (λ (a : Attachment). has_url a.url ≡ true) m.attachments
  pub embed_urls : All (λ (e : LinkPreview). has_url e.url ≡ true) m.embeds
  pub reply_id : (m.reply_to_id ≡ none) ⊎ ((n : ℕ) × (m.reply_to_id ≡ some (some n)))
  pub reply : (m.reply_to ≡ none) ⊎ ((r : ReplyPreview) × (m.reply_to ≡ some (some r)))

attachments_back :
    (l : List Attachment)
    → All (λ (a : Attachment). has_url a.url ≡ true) l
    → keep (λ a. has_url a.url) (map to_attachment (keep is_object (map encode_attachment l))) ≡ l
unfolding lookup
attachments_back [] h = refl
attachments_back (a ∷ l) (h, k) = rw h (ap (λ r. a ∷ r) (attachments_back l k))

opt_text : (o : Option String) → as_string (opt str o) ≡ o
opt_text none = refl
opt_text (some s) = refl

opt_bool : (o : Option Bool) → as_bool (opt bool o) ≡ o
opt_bool none = refl
opt_bool (some s) = refl

embed_back : (e : LinkPreview) → to_embed (encode_embed e) ≡ e
unfolding lookup
embed_back e =
    rw (opt_text e.title, opt_text e.description, opt_text e.site_name, opt_text e.image_token)

embeds_back :
    (l : List LinkPreview)
    → All (λ (e : LinkPreview). has_url e.url ≡ true) l
    → keep (λ e. has_url e.url) (map to_embed (keep is_object (map encode_embed l))) ≡ l
unfolding lookup
embeds_back [] h = refl
embeds_back (e ∷ l) (h, k) = rw h (λ i. embed_back e i ∷ embeds_back l k i)

numbers_back : (l : List ℕ) → filter_map as_number (map num l) ≡ l
numbers_back [] = refl
numbers_back (n ∷ l) = ap (λ r. n ∷ r) (numbers_back l)

parse_attachments-encode :
    (o : Option (List Attachment))
    → OptAll (λ (a : Attachment). has_url a.url ≡ true) o
    → parse_attachments (opt (list_of encode_attachment) o) ≡ o
unfolding parse_attachments
parse_attachments-encode none h = refl
parse_attachments-encode (some l) h =
    rw (to_list-of_list (map encode_attachment l)) (ap some (attachments_back l h))

parse_embeds-encode :
    (l : List LinkPreview)
    → All (λ (e : LinkPreview). has_url e.url ≡ true) l
    → parse_embeds (list_of encode_embed l) ≡ l
unfolding parse_embeds
parse_embeds-encode l h = rw (to_list-of_list (map encode_embed l)) (embeds_back l h)

to_mentions-encode : (o : Option (List ℕ)) → to_mentions (opt (list_of num) o) ≡ o
unfolding to_mentions
to_mentions-encode none = refl
to_mentions-encode (some l) = rw (to_list-of_list (map num l)) (ap some (numbers_back l))

reply_back : (r : ReplyPreview) → reply_preview (encode_reply r) r.message_id ≡ r
unfolding lookup
reply_back r = rw (opt_text r.author_nickname)

to_reply-encode :
    (o : Option (Option ReplyPreview)) (id : Option (Option ℕ))
    → (id ≡ none) ⊎ ((n : ℕ) × (id ≡ some (some n)))
    → (o ≡ none) ⊎ ((r : ReplyPreview) × (o ≡ some (some r)))
    → to_reply (nullable encode_reply o) id ≡ o
unfolding to_reply lookup
to_reply-encode o id (inl e) (inl k) = rw (k, e)
to_reply-encode o id (inr (n, e)) (inl k) = rw (k, e)
to_reply-encode o id h (inr (r, k)) = rw k (ap (λ q. some (some q)) (reply_back r))

to_reply_id-encode :
    (id : Option (Option ℕ))
    → (id ≡ none) ⊎ ((n : ℕ) × (id ≡ some (some n)))
    → to_reply_id (nullable num id) ≡ id
to_reply_id-encode id (inl e) = rw e
to_reply_id-encode id (inr (n, e)) = rw e

first_name-encode :
    (m : Message) (s : String)
    → m.author_first_name ≡ str s
    → author_first_name (encode_message m) ≡ m.author_first_name
unfolding author_first_name encode_message lookup
first_name-encode m s e = simp e (ground (arith, eq_iff s ""))

last_name-encode :
    (m : Message) (s : String)
    → m.author_last_name ≡ str s
    → author_last_name (encode_message m) ≡ m.author_last_name
unfolding author_last_name encode_message lookup
last_name-encode m s e = simp e (ground (arith, eq_iff s ""))

nickname-encode :
    (m : Message) (s : String)
    → m.author_nickname ≡ str s
    → author_nickname (encode_message m) ≡ m.author_nickname
unfolding author_nickname encode_message lookup
nickname-encode m s e = simp e (ground (arith, eq_iff s ""))

avatar-encode : (m : Message) → author_avatar_url (encode_message m) ≡ m.author_avatar_url
unfolding author_avatar_url encode_message lookup
avatar-encode m = ground (arith, eq_iff m.author_avatar_url "")

-- Every message in the server's format, with names that are texts, reply ids that are numbers and
-- links that have an address, decodes to itself, at whatever time it is decoded.
pub to_message-encode :
    (now : String) (m : Message) → IsWireMessage m → to_message now (encode_message m) ≡ some m
unfolding to_message encode_message lookup
to_message-encode now m h = λ i. some (record {
  id = m.id;
  channel_id = m.channel_id;
  author_id = m.author_id;
  author_first_name = first_name-encode m h.first_name h.has_first_name i;
  author_last_name = last_name-encode m h.last_name h.has_last_name i;
  author_nickname = nickname-encode m h.nickname h.has_nickname i;
  author_avatar_url = avatar-encode m i;
  content = m.content;
  attachments = parse_attachments-encode m.attachments h.attachment_urls i;
  reply_to_id = to_reply_id-encode m.reply_to_id h.reply_id i;
  reply_to =
      (ap (to_reply (nullable encode_reply m.reply_to))
            (to_reply_id-encode m.reply_to_id h.reply_id)
          ∙ to_reply-encode m.reply_to m.reply_to_id h.reply_id h.reply)
        i;
  mentions = to_mentions-encode m.mentions i;
  mentions_everyone = opt_bool m.mentions_everyone i;
  embeds = parse_embeds-encode m.embeds h.embed_urls i;
  created_at = m.created_at;
  edited_at = opt_text m.edited_at i;
})

keep-All : {A : Type 0} (p : A → Bool) (l : List A) → All (λ a. p a ≡ true) (keep p l)
keep-All p [] = tt
keep-All p (x ∷ l) = elim (Bool-cases (p x)) [
  | inl e ↦ rw e (e, keep-All p l)
  | inr e ↦ rw e (keep-All p l)
]

attachments_of-urls :
    (o : Option (List Json)) → OptAll (λ (a : Attachment). has_url a.url ≡ true) (attachments_of o)
attachments_of-urls none = tt
attachments_of-urls (some l) =
    keep-All {A = Attachment} (λ a. has_url a.url) (map to_attachment (keep is_object l))

embeds_of-urls :
    (o : Option (List Json)) → All (λ (e : LinkPreview). has_url e.url ≡ true) (embeds_of o)
embeds_of-urls none = tt
embeds_of-urls (some l) =
    keep-All {A = LinkPreview} (λ e. has_url e.url) (map to_embed (keep is_object l))

parse_attachments-urls :
    (raw : Json) → OptAll (λ (a : Attachment). has_url a.url ≡ true) (parse_attachments raw)
unfolding parse_attachments
parse_attachments-urls raw = attachments_of-urls (as_array raw)

parse_embeds-urls :
    (raw : Json) → All (λ (e : LinkPreview). has_url e.url ≡ true) (parse_embeds raw)
unfolding parse_embeds
parse_embeds-urls raw = embeds_of-urls (as_array raw)

to_message-links :
    (now : String) (raw : Json) {m : Message}
    → to_message now raw ≡ some m
    → (m.attachments ≡ parse_attachments (get "attachments" raw))
      × (m.embeds ≡ parse_embeds (get "embeds" raw))
unfolding to_message
to_message-links now raw e = ground arith

-- Whatever the server sends, a decoded message has only attachments and previews with an address.
pub to_message-urls :
    (now : String) (raw : Json) {m : Message}
    → to_message now raw ≡ some m
    → OptAll (λ (a : Attachment). has_url a.url ≡ true) m.attachments
      × All (λ (e : LinkPreview). has_url e.url ≡ true) m.embeds
to_message-urls now raw e =
    let (a, b) = to_message-links now raw e in
    (
      subst (OptAll (λ (a : Attachment). has_url a.url ≡ true)) (sym a) (parse_attachments-urls _),
      subst (All (λ (e : LinkPreview). has_url e.url ≡ true)) (sym b) (parse_embeds-urls _),
    )
