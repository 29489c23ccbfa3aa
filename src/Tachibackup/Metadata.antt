-- ===== src/Tachibackup/Metadata.antt =====
-- The decoders of feeds, merged references and the flat metadata record
-- (internal/tachibackup/decode.go).
use makidoku.Common.{ℕ, suc, Bool, true, some, List, [], ◌∷◌, ◌++◌, length, ◌==◌, if◌then◌else◌}
use makidoku.Common.Int.{ℤ, pos}
use makidoku.Common.Result.{Result, ok, ◌>>=◌}
use makidoku.Tachibackup.Model.{
  Text, Feed, empty_feed, MergedReference, empty_merged_reference, FlatMetadataTag,
  empty_flat_metadata_tag, FlatMetadataTitle, empty_flat_metadata_title, FlatMetadata,
  empty_flat_metadata,
}
use makidoku.Tachibackup.Messages
use makidoku.Tachibackup.Wire.{
  Wire, Field, DecodeError, for_each_field, int32_of, int64_of, boolean_of, float32_of, bytes_of,
  string_of,
}

-- The four results of decodeSearchMetadata.
pub record SearchMetadata : Type 0 where
  pub uploader : Text
  pub extra : Text
  pub indexed : Text
  pub version : ℤ

abbrev pub empty_search_metadata : SearchMetadata
empty_search_metadata = record { uploader = []; extra = []; indexed = []; version = pos 0 }

module _ (w : Wire) where
  abbrev int32 : Field → Result DecodeError ℤ
  int32 = int32_of w

  abbrev int64 : Field → Result DecodeError ℤ
  int64 = int64_of w

  abbrev boolean : Field → Result DecodeError Bool
  boolean = boolean_of w

  abbrev float32 : Field → Result DecodeError ℕ
  float32 = float32_of w

  abbrev bytes : Field → Result DecodeError (List ℕ)
  bytes = bytes_of w

  abbrev string : Field → Result DecodeError Text
  string = string_of w

  unfoldable pub visit_feed : Feed → Field → Result DecodeError Feed
  visit_feed out f =
      if f.num == 1
      then (do v ← int64 f; ok (record out { source = v }))
      else if f.num == 2
      then (do v ← boolean f; ok (record out { global = v }))
      else if f.num == 9
      then (do
        raw ← bytes f
        v ← Messages.decode_saved_search w raw
        ok (record out { saved_search = some v }))
      else ok out

  unfoldable pub decode_feed : List ℕ → Result DecodeError Feed
  unfolding for_each_field visit_feed
  decode_feed raw =
      for_each_field w (suc (length raw)) visit_feed raw (record empty_feed { global = true })

  unfoldable pub visit_merged_reference :
      MergedReference → Field → Result DecodeError MergedReference
  visit_merged_reference out f =
      if f.num == 1
      then (do v ← boolean f; ok (record out { is_info_manga = v }))
      else if f.num == 2
      then (do v ← boolean f; ok (record out { get_chapter_updates = v }))
      else if f.num == 3
      then (do v ← int32 f; ok (record out { chapter_sort_mode = v }))
      else if f.num == 4
      then (do v ← int32 f; ok (record out { chapter_priority = v }))
      else if f.num == 5
      then (do v ← boolean f; ok (record out { download_chapters = v }))
      else if f.num == 6
      then (do v ← string f; ok (record out { merge_url = v }))
      else if f.num == 7
      then (do v ← string f; ok (record out { manga_url = v }))
      else if f.num == 8
      then (do v ← int64 f; ok (record out { manga_source_id = v }))
      else ok out

  unfoldable pub decode_merged_reference : List ℕ → Result DecodeError MergedReference
  unfolding for_each_field visit_merged_reference
  decode_merged_reference raw =
      for_each_field w (suc (length raw)) visit_merged_reference raw empty_merged_reference

  unfoldable pub visit_search_metadata : SearchMetadata → Field → Result DecodeError SearchMetadata
  visit_search_metadata out f =
      if f.num == 1
      then (do v ← string f; ok (record out { uploader = v }))
      else if f.num == 2
      then (do v ← string f; ok (record out { extra = v }))
      else if f.num == 3
      then (do v ← string f; ok (record out { indexed = v }))
      else if f.num == 4
      then (do v ← int32 f; ok (record out { version = v }))
      else ok out

  unfoldable pub decode_search_metadata : List ℕ → Result DecodeError SearchMetadata
  unfolding for_each_field visit_search_metadata
  decode_search_metadata raw =
      for_each_field w (suc (length raw)) visit_search_metadata raw empty_search_metadata

  unfoldable pub visit_flat_metadata_tag :
      FlatMetadataTag → Field → Result DecodeError FlatMetadataTag
  visit_flat_metadata_tag out f =
      if f.num == 1
      then (do v ← string f; ok (record out { namespace = v }))
      else if f.num == 2
      then (do v ← string f; ok (record out { name = v }))
      else if f.num == 3
      then (do v ← int32 f; ok (record out { type = v }))
      else ok out

  unfoldable pub decode_flat_metadata_tag : List ℕ → Result DecodeError FlatMetadataTag
  unfolding for_each_field visit_flat_metadata_tag
  decode_flat_metadata_tag raw =
      for_each_field w (suc (length raw)) visit_flat_metadata_tag raw empty_flat_metadata_tag

  unfoldable pub visit_flat_metadata_title :
      FlatMetadataTitle → Field → Result DecodeError FlatMetadataTitle
  visit_flat_metadata_title out f =
      if f.num == 1
      then (do v ← string f; ok (record out { title = v }))
      else if f.num == 2
      then (do v ← int32 f; ok (record out { type = v }))
      else ok out

  unfoldable pub decode_flat_metadata_title : List ℕ → Result DecodeError FlatMetadataTitle
  unfolding for_each_field visit_flat_metadata_title
  decode_flat_metadata_title raw =
      for_each_field w (suc (length raw)) visit_flat_metadata_title raw empty_flat_metadata_title

  unfoldable pub visit_flat_metadata : FlatMetadata → Field → Result DecodeError FlatMetadata
  visit_flat_metadata out f =
      if f.num == 1
      then (do
        raw ← bytes f
        m ← decode_search_metadata raw
        ok (record out {
          uploader = m.uploader;
          extra = m.extra;
          indexed_extra = m.indexed;
          extra_version = m.version;
        }))
      else if f.num == 2
      then (do
        raw ← bytes f
        v ← decode_flat_metadata_tag raw
        ok (record out { tags = out.tags ++ v ∷ [] }))
      else if f.num == 3
      then (do
        raw ← bytes f
        v ← decode_flat_metadata_title raw
        ok (record out { titles = out.titles ++ v ∷ [] }))
      else ok out

  unfoldable pub decode_flat_metadata : List ℕ → Result DecodeError FlatMetadata
  unfolding for_each_field visit_flat_metadata
  decode_flat_metadata raw =
      for_each_field w (suc (length raw)) visit_flat_metadata raw empty_flat_metadata
