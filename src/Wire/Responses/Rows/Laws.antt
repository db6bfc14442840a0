-- ===== src/Wire/Responses/Rows/Laws.antt =====
-- Lists of rows survive their encoding.
use mini_discord.Prelude.{
  String, ◌≡◌, refl, ap, true, false, not, List, [], ◌∷◌, map, any, Option, some,
}
use mini_discord.Json.{Json, num, arr, obj, end, field, str, of_list, to_list, lookup}
use mini_discord.Wire.{Server}
use mini_discord.Wire.Decode.{filter_map}
use mini_discord.Wire.Responses.{ok, readable, decode_rows}
use mini_discord.Wire.Responses.Rows.{get_servers, to_server}

abbrev pub encode_server : Server → Json
encode_server s =
    obj (field "id" (num s.id) (field "name" (str s.name) (field "owner_id" (num s.owner_id) end)))

abbrev pub rows_reply : String → List Json → Json
rows_reply key rows = obj (field key (arr (of_list rows)) end)

to_list-of_list : (xs : List Json) → to_list (of_list xs) ≡ xs
to_list-of_list [] = refl
to_list-of_list (x ∷ xs) = ap (λ l. x ∷ l) (to_list-of_list xs)

module _ {A : Type 0} (f : Json → Option A) (encode : A → Json)
    (good : (a : A) → f (encode a) ≡ some a) where
  filter_map-map : (xs : List A) → filter_map f (map encode xs) ≡ xs
  filter_map-map [] = refl
  filter_map-map (x ∷ xs) = rw (good x) (ap (λ l. x ∷ l) (filter_map-map xs))

  any_unreadable-map :
      ((a : A) → readable (encode a) ≡ true)
      → (xs : List A) → any (λ v. not (readable v)) (map encode xs) ≡ false
  any_unreadable-map r [] = refl
  any_unreadable-map r (x ∷ xs) = rw (r x) (any_unreadable-map r xs)

  -- Rows that decode to what they encode.
  decode_rows-map :
      ((a : A) → readable (encode a) ≡ true) → (xs : List A) → decode_rows f (map encode xs) ≡ ok xs
  decode_rows-map r xs = rw (any_unreadable-map r xs) (ap ok (filter_map-map xs))

-- Decoding the reply that lists the servers `ss` gives `ss`.
pub get_servers-encode :
    (ss : List Server) → get_servers.decode (rows_reply "servers" (map encode_server ss)) ≡ ok ss
unfolding get_servers lookup
get_servers-encode ss =
    rw (to_list-of_list (map encode_server ss))
      (decode_rows-map to_server encode_server (λ s. refl) (λ s. refl) ss)
