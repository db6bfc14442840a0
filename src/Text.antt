-- ===== src/Text.antt =====
-- Texts as lists of code points, for the methods of `String.prototype` that the code calls.
use Prim.Native.Char.{code}
use mini_discord.Prelude.{
  ℕ, ◌+◌, String, ◌==◌, leb, Bool, true, false, ◌&&◌, ◌||◌, List, [], ◌∷◌, map, if◌then◌else◌,
}

abbrev pub codes : String → List ℕ
codes String.[] = []
codes (String.◌∷◌ c s) = code c ∷ codes s

-- `toLowerCase` as far as a search for an ASCII text can tell: the Latin capitals, and the Kelvin
-- sign, whose lower case is `k`.
unfoldable pub lower : ℕ → ℕ
lower c = if leb b'A' c && leb c b'Z' then c + 32 else if c == 0x212a then b'k' else c

unfoldable pub is_prefix : List ℕ → List ℕ → Bool
is_prefix [] text = true
is_prefix (p ∷ ps) [] = false
is_prefix (p ∷ ps) (c ∷ cs) = p == c && is_prefix ps cs

-- `text.includes(part)`
unfoldable pub contains : List ℕ → List ℕ → Bool
unfolding is_prefix
contains part [] = is_prefix part []
contains part (c ∷ cs) = is_prefix part (c ∷ cs) || contains part cs

-- `text.toLowerCase().includes(part)`
unfoldable pub lower_contains : String → String → Bool
unfolding lower contains
lower_contains part text = contains (codes part) (map lower (codes text))

-- white space and line ends, as `trim` removes them
abbrev is_space : ℕ → Bool
is_space c =
    leb 9 c && leb c 13
    || (leb 0x2000 c && leb c 0x200a)
    || (leb 0x2028 c && leb c 0x2029)
    || (c == 32)
    || (c == 0xa0)
    || (c == 0x1680)
    || (c == 0x202f)
    || (c == 0x205f)
    || (c == 0x3000)
    || (c == 0xfeff)

abbrev trim_start : List ℕ → List ℕ
trim_start [] = []
trim_start (c ∷ cs) = if is_space c then trim_start cs else c ∷ cs

abbrev add_before : ℕ → List ℕ → List ℕ
add_before c [] = if is_space c then [] else c ∷ []
add_before c (x ∷ xs) = c ∷ x ∷ xs

abbrev trim_end : List ℕ → List ℕ
trim_end [] = []
trim_end (c ∷ cs) = add_before c (trim_end cs)

-- `text.trim()`
unfoldable pub trim : List ℕ → List ℕ
trim cs = trim_end (trim_start cs)
