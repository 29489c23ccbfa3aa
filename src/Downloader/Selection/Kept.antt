-- ===== src/Downloader/Selection/Kept.antt =====
-- About the chapters that a selection keeps, and their order (selectChapters of
-- internal/downloader/queue.go).
use makidoku.Common.{
  ◌<◌, ◌≡◌, Bool, true, false, Option, List, [], is_empty, filter, count_if, length,
}
use makidoku.Common.Pairs.{Pairwise}
use makidoku.Common.Result.{Result, ok, err}
use makidoku.Runes.{Text}
use makidoku.Downloader.Selection.{
  Float, Chapter, ChapterSelection, SelectionError, invalid_range, no_chapters_selected,
  matched_no_chapters, wanted_range, is_included, chapter_before, has_range,
}

-- The only error of a range.
abbrev FailsInvalid {ℓ} : {A : Type ℓ} → Result SelectionError A → Type 0
FailsInvalid (err e) = e ≡ invalid_range
FailsInvalid (ok a) = Unit

module _ (parse_float : Text → Option Float) (chapters : List Chapter) (s : ChapterSelection) where
  -- The chapters that the selection includes, in the order of the source.
  abbrev pub included : Option (Float × Float) → List Chapter
  included range = filter (is_included parse_float s range) chapters

  abbrev pub IsSelected : Result SelectionError (List Chapter) → Type 0
  IsSelected (err invalid_range) = wanted_range parse_float s ≡ err invalid_range
  IsSelected (err no_chapters_selected) =
      (is_empty s.ids ≡ true) × (has_range parse_float s ≡ false)
  IsSelected (err matched_no_chapters) =
      (range : Option (Float × Float)) × (wanted_range parse_float s ≡ ok range)
      × (included range ≡ [])
  IsSelected (ok selected) =
      (range : Option (Float × Float)) × (wanted_range parse_float s ≡ ok range)
      × (0 < length selected)
      × ((p : Chapter → Bool) → count_if p selected ≡ count_if p (included range))
      × Pairwise (λ x y. chapter_before parse_float y x ≡ false) selected
