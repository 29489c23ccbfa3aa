-- ===== src/Tachibackup/Messages.antt =====
-- The decoders of the messages that hold no message (internal/tachibackup/decode.go). A visitor is
-- the body of the `switch`, and a decoder runs it over the fields of the message.
use makidoku.Common.{ℕ, suc, Bool, List, length, ◌==◌, if◌then◌else◌}
use makidoku.Common.Int.{ℤ}
use makidoku.Common.Result.{Result, ok, ◌>>=◌}
use makidoku.Tachibackup.Model.{
  Text, Chapter, empty_chapter, History, empty_history, Category, empty_category, Tracking,
  empty_tracking, Source, empty_source, SavedSearch, empty_saved_search,
}
use makidoku.Tachibackup.Wire.{
  Wire, Field, DecodeError, for_each_field, int32_of, int64_of, boolean_of, float32_of, bytes_of,
  string_of,
}

module _ (w : Wire) where
  abbrev int32 : Field → Result DecodeError ℤ
  int32 = int32_of w

  abbrev int64 : Field → Result DecodeError ℤ
  int64 = int64_of w

  abbrev boolean : Field → Result DecodeError Bool
  boolean = boolean_of w

  abbrev float32 : Field → Result DecodeError ℕ
  float32 = float32_of w

  abbrev bytes : Field → Result DecodeError (List ℕ)
  bytes = bytes_of w

  abbrev string : Field → Result DecodeError Text
  string = string_of w

  unfoldable pub visit_chapter : Chapter → Field → Result DecodeError Chapter
  visit_chapter out f =
      if f.num == 1
      then (do v ← string f; ok (record out { url = v }))
      else if f.num == 2
      then (do v ← string f; ok (record out { name = v }))
      else if f.num == 3
      then (do v ← string f; ok (record out { scanlator = v }))
      else if f.num == 4
      then (do v ← boolean f; ok (record out { read = v }))
      else if f.num == 5
      then (do v ← boolean f; ok (record out { bookmark = v }))
      else if f.num == 6
      then (do v ← int64 f; ok (record out { last_page_read = v }))
      else if f.num == 7
      then (do v ← int64 f; ok (record out { date_fetch = v }))
      else if f.num == 8
      then (do v ← int64 f; ok (record out { date_upload = v }))
      else if f.num == 9
      then (do v ← float32 f; ok (record out { chapter_number = v }))
      else if f.num == 10
      then (do v ← int64 f; ok (record out { source_order = v }))
      else if f.num == 11
      then (do v ← int64 f; ok (record out { last_modified_at = v }))
      else if f.num == 12
      then (do v ← int64 f; ok (record out { version = v }))
      else if f.num == 13
      then (do v ← string f; ok (record out { memo = v }))
      else ok out

  unfoldable pub decode_chapter : List ℕ → Result DecodeError Chapter
  unfolding for_each_field visit_chapter
  decode_chapter raw = for_each_field w (suc (length raw)) visit_chapter raw empty_chapter

  unfoldable pub visit_history : History → Field → Result DecodeError History
  visit_history out f =
      if f.num == 1
      then (do v ← string f; ok (record out { url = v }))
      else if f.num == 2
      then (do v ← int64 f; ok (record out { last_read = v }))
      else if f.num == 3
      then (do v ← int64 f; ok (record out { read_duration = v }))
      else ok out

  unfoldable pub decode_history : List ℕ → Result DecodeError History
  unfolding for_each_field visit_history
  decode_history raw = for_each_field w (suc (length raw)) visit_history raw empty_history

  unfoldable pub visit_category : Category → Field → Result DecodeError Category
  visit_category out f =
      if f.num == 1
      then (do v ← string f; ok (record out { name = v }))
      else if f.num == 2
      then (do v ← int64 f; ok (record out { order = v }))
      else if f.num == 3
      then (do v ← int64 f; ok (record out { id = v }))
      else if f.num == 100
      then (do v ← int64 f; ok (record out { flags = v }))
      else if f.num == 900
      then (do v ← boolean f; ok (record out { hidden = v }))
      else ok out

  unfoldable pub decode_category : List ℕ → Result DecodeError Category
  unfolding for_each_field visit_category
  decode_category raw = for_each_field w (suc (length raw)) visit_category raw empty_category

  unfoldable pub visit_tracking : Tracking → Field → Result DecodeError Tracking
  visit_tracking out f =
      if f.num == 1
      then (do v ← int32 f; ok (record out { sync_id = v }))
      else if f.num == 2
      then (do v ← int64 f; ok (record out { library_id = v }))
      else if f.num == 3
      then (do v ← int32 f; ok (record out { media_id_int = v }))
      else if f.num == 4
      then (do v ← string f; ok (record out { tracking_url = v }))
      else if f.num == 5
      then (do v ← string f; ok (record out { title = v }))
      else if f.num == 6
      then (do v ← float32 f; ok (record out { last_chapter_read = v }))
      else if f.num == 7
      then (do v ← int32 f; ok (record out { total_chapters = v }))
      else if f.num == 8
      then (do v ← float32 f; ok (record out { score = v }))
      else if f.num == 9
      then (do v ← int32 f; ok (record out { status = v }))
      else if f.num == 10
      then (do v ← int64 f; ok (record out { started_reading_date = v }))
      else if f.num == 11
      then (do v ← int64 f; ok (record out { finished_reading_date = v }))
      else if f.num == 12
      then (do v ← boolean f; ok (record out { private = v }))
      else if f.num == 100
      then (do v ← int64 f; ok (record out { media_id = v }))
      else ok out

  unfoldable pub decode_tracking : List ℕ → Result DecodeError Tracking
  unfolding for_each_field visit_tracking
  decode_tracking raw = for_each_field w (suc (length raw)) visit_tracking raw empty_tracking

  unfoldable pub visit_source : Source → Field → Result DecodeError Source
  visit_source out f =
      if f.num == 1
      then (do v ← string f; ok (record out { name = v }))
      else if f.num == 2
      then (do v ← int64 f; ok (record out { source_id = v }))
      else ok out

  unfoldable pub decode_source : List ℕ → Result DecodeError Source
  unfolding for_each_field visit_source
  decode_source raw = for_each_field w (suc (length raw)) visit_source raw empty_source

  unfoldable pub visit_saved_search : SavedSearch → Field → Result DecodeError SavedSearch
  visit_saved_search out f =
      if f.num == 1
      then (do v ← string f; ok (record out { name = v }))
      else if f.num == 2
      then (do v ← string f; ok (record out { query = v }))
      else if f.num == 3
      then (do v ← string f; ok (record out { filter_list = v }))
      else if f.num == 4
      then (do v ← int64 f; ok (record out { source = v }))
      else ok out

  unfoldable pub decode_saved_search : List ℕ → Result DecodeError SavedSearch
  unfolding for_each_field visit_saved_search
  decode_saved_search raw =
      for_each_field w (suc (length raw)) visit_saved_search raw empty_saved_search
