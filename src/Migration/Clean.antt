-- ===== src/Migration/Clean.antt =====
-- CleanTitle and DeepQueries of internal/migration/deepsearch.go. The tables of the package unicode
-- are the parameters `to_lower` and `is_letter`.
use makidoku.Common.{
  ℕ, drop, suc, ◌+◌, ◌-◌, Bool, true, false, not, ◌&&◌, ◌||◌, List, [], ◌∷◌, length, take, leb, ltb,
  ◌==◌, if◌then◌else◌, any, map, is_empty,
}
use mathlib.Core.List.{reverse}
use makidoku.Runes.{Text, text_eq, space, trim_space, fields, join_words, replace_all}

-- "([{<" and ")]}>"
abbrev is_open : ℕ → Bool
is_open r = r == b'(' || r == b'[' || r == b'{' || r == b'<'

abbrev is_close : ℕ → Bool
is_close r = r == b')' || r == b']' || r == b'}' || r == b'>'

abbrev pub opening : Bool → ℕ → Bool
opening forward r = if forward then is_open r else is_close r

abbrev pub closing : Bool → ℕ → Bool
closing forward r = if forward then is_close r else is_open r

-- The depth of the brackets after a rune, and whether the rune is kept.
abbrev pub depth_after : Bool → ℕ → ℕ → ℕ
depth_after forward depth r =
    if opening forward r
    then depth + 1
    else if closing forward r && ltb 0 depth
    then depth - 1
    else depth

abbrev pub is_kept : Bool → ℕ → ℕ → Bool
is_kept forward depth r =
    not (opening forward r) && not (closing forward r && ltb 0 depth) && depth == 0

unfoldable pub outside : Bool → ℕ → Text → Text
outside forward depth [] = []
outside forward depth (r ∷ rs) =
    let rest = outside forward (depth_after forward depth r) rs in
    if is_kept forward depth r then r ∷ rest else rest

unfoldable pub remove_text_in_brackets : Text → Bool → Text
unfolding outside
remove_text_in_brackets t forward =
    if forward then outside true 0 t else reverse (outside false 0 (reverse t))

-- `\s` and `\d`
abbrev is_blank : ℕ → Bool
is_blank r = r == space || r == 9 || r == 10 || r == 12 || r == 13

abbrev is_digit : ℕ → Bool
is_digit r = leb b'0' r && leb r b'9'

abbrev blanks : Text → ℕ
blanks [] = 0
blanks (r ∷ rs) = if is_blank r then 1 else 0

abbrev digits : Text → ℕ
digits [] = 0
digits (r ∷ rs) = let rest = digits rs in if is_digit r then suc rest else 0

-- The runes of a word in front with `\s?\d*` behind it, on top of `n`; 0 where the word is not there.
abbrev after_word : Text → Text → ℕ → ℕ
after_word [] rs n = n + blanks rs + digits (drop (blanks rs) rs)
after_word (w ∷ ws) [] n = 0
after_word (w ∷ ws) (r ∷ rs) n = let rest = after_word ws rs (suc n) in if w == r then rest else 0

-- "часть" and "глава"
abbrev part_word : Text
part_word = 0x447 ∷ 0x430 ∷ 0x441 ∷ 0x442 ∷ 0x44c ∷ []

abbrev chapter_word : Text
chapter_word = 0x433 ∷ 0x43b ∷ 0x430 ∷ 0x432 ∷ 0x430 ∷ []

abbrev either : ℕ → ℕ → ℕ
either m n = if m == 0 then n else m

-- chapterMarker: how many runes it matches in front.
unfoldable pub chapter_marker : Text → ℕ
chapter_marker [] = 0
chapter_marker (r ∷ rs) =
    let n = blanks rs in
    let rest = drop n rs in
    if r == b'-'
    then either (after_word part_word rest (suc n)) (after_word chapter_word rest (suc n))
    else 0

-- " - " in front.
abbrev spaced_dash : Text → ℕ
spaced_dash (a ∷ (b ∷ (c ∷ rs))) = if a == space && b == b'-' && c == space then 3 else 0
spaced_dash _ = 0

-- The run of spaces in front.
abbrev space_run : Text → ℕ
space_run [] = 0
space_run (r ∷ rs) = let rest = space_run rs in if r == space then suc rest else 0

abbrev is_ascii_letter : ℕ → Bool
is_ascii_letter r = (leb b'a' r && leb r b'z') || (leb b'A' r && leb r b'Z')

abbrev is_plain : ℕ → Bool
is_plain r = is_digit r || r == b'-' || r == space

-- A replacement of single runes by spaces.
abbrev blank_unless : (ℕ → Bool) → Text → Text
blank_unless keep = map (λ r. if keep r then r else space)

module _ (to_lower : ℕ → ℕ) (is_letter : ℕ → Bool) where
  abbrev pub has_non_ascii_letter : Text → Bool
  has_non_ascii_letter = any (λ r. ltb 0x7f r && is_letter r)

  abbrev strip : Text → Text
  strip t =
      if has_non_ascii_letter t
      then blank_unless (λ r. is_letter r || is_plain r) t
      else blank_unless (λ r. is_ascii_letter r || is_plain r) t

  abbrev without_brackets : Text → Text
  without_brackets lowered =
      if leb (length (remove_text_in_brackets lowered true)) 5
      then remove_text_in_brackets lowered false
      else remove_text_in_brackets lowered true

  unfoldable pub clean_title : Text → Text
  unfolding remove_text_in_brackets chapter_marker trim_space replace_all
  clean_title title =
      let unmarked =
        trim_space
          (replace_all chapter_marker (space ∷ []) (without_brackets (map to_lower title))) in
      let dashed = replace_all spaced_dash (space ∷ []) (trim_space (strip unmarked)) in
      trim_space (replace_all space_run (space ∷ []) dashed)

-- sort.SliceStable by length, the longest first.
insert_word : Text → List Text → List Text
insert_word w [] = w ∷ []
insert_word w (v ∷ vs) =
    let rest = insert_word w vs in if ltb (length w) (length v) then v ∷ rest else w ∷ v ∷ vs

unfoldable pub longest_first : List Text → List Text
unfolding insert_word
longest_first [] = []
longest_first (w ∷ ws) = insert_word w (longest_first ws)

-- The loop over the groups, with the queries that are there.
unfoldable pub distinct_queries : List Text → List Text → List Text
unfolding trim_space
distinct_queries seen [] = []
distinct_queries seen (q ∷ qs) =
    let query = trim_space q in
    let rest = distinct_queries seen qs in
    let more = query ∷ distinct_queries (query ∷ seen) qs in
    if is_empty query || any (text_eq query) seen then rest else more

unfoldable pub deep_queries : Text → List Text
unfolding fields longest_first join_words distinct_queries
deep_queries cleaned =
    let words = fields cleaned in
    let longest = longest_first words in
    if is_empty words
    then []
    else distinct_queries [] (
        cleaned
        ∷ join_words (take 2 longest)
        ∷ join_words (take 1 longest)
        ∷ join_words (take 2 words)
        ∷ join_words (take 1 words)
        ∷ [])
