-- ===== src/Json.antt =====
-- Values of a dynamic type (`unknown`), as `JSON.parse` returns them, and the tests that
-- frontend/src/services/chatSocket.ts and authToken.ts make on them. Numbers are natural numbers.
use mini_discord.Prelude.{
  ℕ, String, str_eq, ◌==◌, Bool, true, false, not, List, [], ◌∷◌, Option, none, some, if◌then◌else◌,
}

mutual
  pub data Json : Type 0 where
    undefined null : Json
    bool : Bool → Json
    num : ℕ → Json
    str : String → Json
    arr : Items → Json
    obj : Fields → Json

  pub data Items : Type 0 where
    nil : Items
    cons : Json → Items → Items

  pub data Fields : Type 0 where
    end : Fields
    field : String → Json → Fields → Fields

-- `v[key]` on the fields of an object; a missing key reads `undefined`.
unfoldable pub lookup : String → Fields → Json
lookup key end = undefined
lookup key (field k v rest) = if str_eq k key then v else lookup key rest

-- `v?.key`: no field of a value that is not an object is ever read by the code but `undefined`.
abbrev pub get : String → Json → Json
get key (obj fields) = lookup key fields
get key _ = undefined

-- `v && typeof v === "object"`
abbrev pub is_object : Json → Bool
is_object (obj fields) = true
is_object (arr items) = true
is_object _ = false

abbrev pub is_number : Json → Bool
is_number (num n) = true
is_number _ = false

abbrev pub is_string : Json → Bool
is_string (str s) = true
is_string _ = false

-- `Boolean(v)`
abbrev pub truthy : Json → Bool
truthy undefined = false
truthy null = false
truthy (bool b) = b
truthy (num n) = not (n == 0)
truthy (str s) = not (str_eq s "")
truthy (arr items) = true
truthy (obj fields) = true

-- `a || b`
abbrev pub js_or : Json → Json → Json
js_or a b = if truthy a then a else b

-- `a ?? b`
abbrev pub js_coalesce : Json → Json → Json
js_coalesce undefined b = b
js_coalesce null b = b
js_coalesce a b = a

-- `typeof v === "number" ? v : …`, and the same for the other primitive types.
abbrev pub as_number : Json → Option ℕ
as_number (num n) = some n
as_number _ = none

abbrev pub as_string : Json → Option String
as_string (str s) = some s
as_string _ = none

abbrev pub as_bool : Json → Option Bool
as_bool (bool b) = some b
as_bool _ = none

abbrev pub to_list : Items → List Json
to_list nil = []
to_list (cons v rest) = v ∷ to_list rest

abbrev pub of_list : List Json → Items
of_list [] = nil
of_list (v ∷ rest) = cons v (of_list rest)

-- `Array.isArray(v) ? v : …`
abbrev pub as_array : Json → Option (List Json)
as_array (arr items) = some (to_list items)
as_array _ = none
