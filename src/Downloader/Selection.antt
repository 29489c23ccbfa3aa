-- ===== src/Downloader/Selection.antt =====
-- The choice of the chapters to download (selectChapters and parseChapterRange of
-- internal/downloader/queue.go). A number of a chapter is the rank of its float64 (that of both zeros
-- is 0; a chapter's own number, from the table or from JSON, is never NaN); `parse_float` is
-- strconv.ParseFloat.
pub mod Kept
use makidoku.Common.{
  ℕ, ◌≡◌, String, Bool, true, false, not, ◌&&◌, ◌||◌, Option, none, some, List, [], ◌∷◌, ◌==◌,
  is_empty, any, filter, map, if◌then◌else◌,
}
use makidoku.Common.Int.{ℤ, less}
use makidoku.Common.Sorting.{sort_stable}
use makidoku.Common.Result.{Result, ok, err, ◌>>=◌}
use makidoku.Runes.{Text, text_eq, trim_space}

pub data Float : Type 0 where
  nan : Float
  number : ℤ → Float

-- a < b, which is false of NaN on either side.
abbrev pub less_float : Float → Float → Bool
less_float nan b = false
less_float (number a) nan = false
less_float (number a) (number b) = less a b

pub record Chapter : Type 0 where
  pub id : Text
  pub source_chapter_id : Text
  pub chapter_number : Option ℤ

pub record ChapterSelection : Type 0 where
  pub ids : List Text
  pub range : Text

pub data SelectionError : Type 0 where
  invalid_range no_chapters_selected matched_no_chapters : SelectionError

-- Split at the first hyphen, if there is one.
abbrev add_rune : ℕ → Text × Option Text → Text × Option Text
add_rune r (first, rest) = (r ∷ first, rest)

unfoldable pub split_hyphen : Text → Text × Option Text
split_hyphen [] = ([], none)
split_hyphen (r ∷ rs) =
    let rest = add_rune r (split_hyphen rs) in if r == 45 then ([], some rs) else rest

abbrev pub bounds : Float → Float → Result SelectionError (Float × Float)
bounds lower upper = if less_float upper lower then err invalid_range else ok (lower, upper)

-- a >= b, which is false of NaN on either side.
abbrev at_least : Float → Float → Bool
at_least nan b = false
at_least (number a) nan = false
at_least (number a) (number b) = not (less a b)

module _ (parse_float : Text → Option Float) where
  abbrev pub number_in : Text → Result SelectionError Float
  number_in t = elim (parse_float (trim_space t)) [ none ↦ err invalid_range | some n ↦ ok n ]

  abbrev pub upper_of : Float → Option Text → Result SelectionError (Float × Float)
  upper_of lower none = bounds lower lower
  upper_of lower (some t) = number_in t >>= λ upper. bounds lower upper

  abbrev pub range_of : Text × Option Text → Result SelectionError (Float × Float)
  range_of (first, rest) = number_in first >>= λ lower. upper_of lower rest

  unfoldable pub parse_chapter_range : Text → Result SelectionError (Float × Float)
  unfolding split_hyphen trim_space
  parse_chapter_range t = range_of (split_hyphen (trim_space t))

  abbrev pub has_range : ChapterSelection → Bool
  has_range s = not (is_empty (trim_space s.range))

  -- The range, if the selection has one.
  abbrev pub wanted_range : ChapterSelection → Result SelectionError (Option (Float × Float))
  wanted_range s =
      if has_range s then (parse_chapter_range s.range >>= λ r. ok (some r)) else ok none

  abbrev within : Option (Float × Float) → Option ℤ → Bool
  within none n = false
  within (some r) none = false
  within (some (lower, upper)) (some n) = at_least (number n) lower && at_least upper (number n)

  abbrev wants : List Text → Text → Bool
  wants ids t = any (λ id. text_eq (trim_space id) t) ids

  abbrev pub is_included : ChapterSelection → Option (Float × Float) → Chapter → Bool
  is_included s range c =
      wants s.ids c.id || wants s.ids c.source_chapter_id || within range c.chapter_number

  -- A chapter without a number goes behind those with one.
  abbrev pub earlier : Option ℤ → Option ℤ → Bool
  earlier none n = false
  earlier (some a) none = true
  earlier (some a) (some b) = less a b

  abbrev pub chapter_before : Chapter → Chapter → Bool
  chapter_before a b = earlier a.chapter_number b.chapter_number

  abbrev pub non_empty : ChapterSelection → List Chapter → Result SelectionError (List Chapter)
  non_empty s [] =
      if is_empty s.ids && not (has_range s)
      then err no_chapters_selected
      else err matched_no_chapters
  non_empty s (c ∷ cs) = ok (sort_stable chapter_before (c ∷ cs))

  unfoldable pub select_chapters :
      List Chapter → ChapterSelection → Result SelectionError (List Chapter)
  unfolding parse_chapter_range sort_stable
  select_chapters chapters s =
      wanted_range s >>= λ range. non_empty s (filter (is_included s range) chapters)
