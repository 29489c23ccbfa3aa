-- ===== src/Tachibackup/Library.antt =====
-- The decoder of one library entry, decodeManga of internal/tachibackup/decode.go.
use makidoku.Common.{ℕ, suc, Bool, true, some, List, [], ◌∷◌, ◌++◌, length, ◌==◌, if◌then◌else◌}
use makidoku.Common.Int.{ℤ}
use makidoku.Common.Result.{Result, ok, ◌>>=◌}
use makidoku.Tachibackup.Model.{Text, Manga, empty_manga}
use makidoku.Tachibackup.Messages
use makidoku.Tachibackup.Metadata
use makidoku.Tachibackup.Wire.{
  Wire, Field, DecodeError, for_each_field, int32_of, int64_of, boolean_of, float32_of, bytes_of,
  string_of,
}

module _ (w : Wire) where
  abbrev int32 : Field → Result DecodeError ℤ
  int32 = int32_of w

  abbrev int64 : Field → Result DecodeError ℤ
  int64 = int64_of w

  abbrev boolean : Field → Result DecodeError Bool
  boolean = boolean_of w

  abbrev float32 : Field → Result DecodeError ℕ
  float32 = float32_of w

  abbrev bytes : Field → Result DecodeError (List ℕ)
  bytes = bytes_of w

  abbrev string : Field → Result DecodeError Text
  string = string_of w

  unfoldable pub visit_manga : Manga → Field → Result DecodeError Manga
  visit_manga out f =
      if f.num == 1
      then (do v ← int64 f; ok (record out { source = v }))
      else if f.num == 2
      then (do v ← string f; ok (record out { url = v }))
      else if f.num == 3
      then (do v ← string f; ok (record out { title = v }))
      else if f.num == 4
      then (do v ← string f; ok (record out { artist = v }))
      else if f.num == 5
      then (do v ← string f; ok (record out { author = v }))
      else if f.num == 6
      then (do v ← string f; ok (record out { description = v }))
      else if f.num == 7
      then (do v ← string f; ok (record out { genre = out.genre ++ v ∷ [] }))
      else if f.num == 8
      then (do v ← int32 f; ok (record out { status = v }))
      else if f.num == 9
      then (do v ← string f; ok (record out { thumbnail_url = v }))
      else if f.num == 13
      then (do v ← int64 f; ok (record out { date_added = v }))
      else if f.num == 14
      then (do v ← int32 f; ok (record out { viewer = v }))
      else if f.num == 16
      then (do
        raw ← bytes f
        v ← Messages.decode_chapter w raw
        ok (record out { chapters = out.chapters ++ v ∷ [] }))
      else if f.num == 17
      then (do v ← int64 f; ok (record out { categories = out.categories ++ v ∷ [] }))
      else if f.num == 18
      then (do
        raw ← bytes f
        v ← Messages.decode_tracking w raw
        ok (record out { tracking = out.tracking ++ v ∷ [] }))
      else if f.num == 100
      then (do v ← boolean f; ok (record out { favorite = v }))
      else if f.num == 101
      then (do v ← int32 f; ok (record out { chapter_flags = v }))
      else if f.num == 103
      then (do v ← int32 f; ok (record out { viewer_flags = some v }))
      else if f.num == 104
      then (do
        raw ← bytes f
        v ← Messages.decode_history w raw
        ok (record out { history = out.history ++ v ∷ [] }))
      else if f.num == 105
      then (do v ← int32 f; ok (record out { update_strategy = v }))
      else if f.num == 106
      then (do v ← int64 f; ok (record out { last_modified_at = v }))
      else if f.num == 107
      then (do v ← int64 f; ok (record out { favorite_modified_at = some v }))
      else if f.num == 108
      then (do
        v ← string f
        ok (record out { excluded_scanlators = out.excluded_scanlators ++ v ∷ [] }))
      else if f.num == 109
      then (do v ← int64 f; ok (record out { version = v }))
      else if f.num == 110
      then (do v ← string f; ok (record out { notes = v }))
      else if f.num == 111
      then (do v ← boolean f; ok (record out { initialized = v }))
      else if f.num == 112
      then (do v ← string f; ok (record out { memo = v }))
      else if f.num == 600
      then (do
        raw ← bytes f
        v ← Metadata.decode_merged_reference w raw
        ok (record out { merged_references = out.merged_references ++ v ∷ [] }))
      else if f.num == 601
      then (do
        raw ← bytes f
        v ← Metadata.decode_flat_metadata w raw
        ok (record out { flat_metadata = some v }))
      else if f.num == 602
      then (do v ← int32 f; ok (record out { custom_status = v }))
      else if f.num == 603
      then (do v ← string f; ok (record out { custom_thumbnail_url = v }))
      else if f.num == 800
      then (do v ← string f; ok (record out { custom_title = v }))
      else if f.num == 801
      then (do v ← string f; ok (record out { custom_artist = v }))
      else if f.num == 802
      then (do v ← string f; ok (record out { custom_author = v }))
      else if f.num == 804
      then (do v ← string f; ok (record out { custom_description = v }))
      else if f.num == 805
      then (do v ← string f; ok (record out { custom_genre = out.custom_genre ++ v ∷ [] }))
      else ok out

  unfoldable pub decode_manga : List ℕ → Result DecodeError Manga
  unfolding for_each_field visit_manga
  decode_manga raw =
      for_each_field w (suc (length raw)) visit_manga raw (record empty_manga { favorite = true })
