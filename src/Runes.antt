-- ===== src/Runes.antt =====
-- What the code uses of Go's packages strings and unicode, on a text as the list of its runes.
use makidoku.Common.{
  ℕ, zero, suc, ◌-◌, Bool, true, false, ◌&&◌, ◌||◌, List, [], ◌∷◌, ◌++◌, leb, ◌==◌, if◌then◌else◌,
}
use mathlib.Core.List.{reverse}

abbrev pub Text : Type 0
Text = List ℕ

abbrev pub text_eq : Text → Text → Bool
text_eq [] [] = true
text_eq [] (y ∷ ys) = false
text_eq (x ∷ xs) [] = false
text_eq (x ∷ xs) (y ∷ ys) = x == y && text_eq xs ys

abbrev pub space : ℕ
space = 0x20

-- unicode.IsSpace
unfoldable pub is_space : ℕ → Bool
is_space r =
    (leb 9 r && leb r 13)
    || r == space
    || r == 0x85
    || r == 0xa0
    || r == 0x1680
    || (leb 0x2000 r && leb r 0x200a)
    || r == 0x2028
    || r == 0x2029
    || r == 0x202f
    || r == 0x205f
    || r == 0x3000

unfoldable pub trim_left : Text → Text
unfolding is_space
trim_left [] = []
trim_left (r ∷ rs) = let rest = trim_left rs in if is_space r then rest else r ∷ rs

-- strings.TrimSpace
unfoldable pub trim_space : Text → Text
unfolding trim_left
trim_space t = reverse (trim_left (reverse (trim_left t)))

abbrev pub add_word : Text → List Text → List Text
add_word [] ws = ws
add_word (r ∷ rs) ws = (r ∷ rs) ∷ ws

-- strings.Fields: the word that is being read, and the words behind it.
unfoldable pub fields_from : Text → Text → List Text
unfolding is_space
fields_from word [] = add_word word []
fields_from word (r ∷ rs) =
    let ended = add_word word (fields_from [] rs) in
    let longer = fields_from (word ++ r ∷ []) rs in if is_space r then ended else longer

unfoldable pub fields : Text → List Text
unfolding fields_from
fields t = fields_from [] t

-- strings.Join with a space.
unfoldable pub join_words : List Text → Text
join_words [] = []
join_words (w ∷ []) = w
join_words (w ∷ (v ∷ vs)) = w ++ space ∷ join_words (v ∷ vs)

-- What a replacement of all matches leaves: `matched` is how many runes match in front, and `skip`
-- how many of the last match are still to be passed over.
unfoldable pub replace_from : (Text → ℕ) → Text → ℕ → Text → Text
replace_from matched by skip [] = []
replace_from matched by (suc skip) (r ∷ rs) = replace_from matched by skip rs
replace_from matched by zero (r ∷ rs) =
    let rest = replace_from matched by (matched (r ∷ rs) - 1) rs in
    if matched (r ∷ rs) == 0 then r ∷ rest else by ++ rest

unfoldable pub replace_all : (Text → ℕ) → Text → Text → Text
unfolding replace_from
replace_all matched by t = replace_from matched by 0 t
