-- ===== src/Examples/Chapters.antt =====
-- A range over three chapters, one of them without a number, for internal/downloader/queue.go.
use makidoku.Common.{ℕ, ◌≡◌, refl, Option, none, some, List, [], ◌∷◌, if◌then◌else◌}
use makidoku.Common.Int.{ℤ, pos}
use makidoku.Common.Result.{ok}
use makidoku.Runes.{Text, text_eq}
use makidoku.Downloader.Selection.{
  Float, nan, number, Chapter, ChapterSelection, parse_chapter_range, select_chapters,
}

-- "1", "2", "nan" and no other number.
abbrev digit : Text → Option Float
digit t =
    if text_eq t (49 ∷ [])
    then some (number (pos 1))
    else if text_eq t (50 ∷ [])
    then some (number (pos 2))
    else if text_eq t (110 ∷ 97 ∷ 110 ∷ [])
    then some nan
    else none

abbrev chapter : ℕ → Option ℤ → Chapter
chapter id n = record { id = id ∷ []; source_chapter_id = 115 ∷ id ∷ []; chapter_number = n }

abbrev listed : List Chapter
listed = chapter 99 none ∷ chapter 98 (some (pos 2)) ∷ chapter 97 (some (pos 1)) ∷ []

-- The id "c" and the range " 1 - 2 ".
abbrev wanted : ChapterSelection
wanted = record { ids = (99 ∷ []) ∷ []; range = 32 ∷ 49 ∷ 32 ∷ 45 ∷ 32 ∷ 50 ∷ 32 ∷ [] }

parsed : parse_chapter_range digit wanted.range ≡ ok (number (pos 1), number (pos 2))
unfolding parse_chapter_range
parsed = refl

chosen :
    select_chapters digit listed wanted
    ≡ ok (chapter 97 (some (pos 1)) ∷ chapter 98 (some (pos 2)) ∷ chapter 99 none ∷ [])
unfolding select_chapters
chosen = refl

-- The range "nan" is one that includes no number.
by_id_only :
    select_chapters digit listed (record wanted { range = 110 ∷ 97 ∷ 110 ∷ [] })
    ≡ ok (chapter 99 none ∷ [])
unfolding select_chapters
by_id_only = refl
