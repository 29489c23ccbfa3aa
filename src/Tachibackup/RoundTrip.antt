-- ===== src/Tachibackup/RoundTrip.antt =====
-- About decoding what a writer of the format wrote (internal/tachibackup/decode.go).
use makidoku.Common.{ℕ, suc, ◌<◌, ◌≡◌, refl, ap, Bool, true, false, List, [], arith, length}
use makidoku.Common.Int.{
  ℤ, FitsInt32, FitsInt64, of_int, of_int-lt, to_int32-of_int, to_int64-of_int,
}
use makidoku.Common.Result.{ok}
use mathlib.Core.List.{append-nil}
use makidoku.Tachibackup.Wire.{
  varint_of, int32_of, int64_of, boolean_of, float32_of, bytes_of, string_of,
}
use makidoku.Tachibackup.Model.{
  Chapter, empty_chapter, History, empty_history, Category, empty_category, Tracking,
  empty_tracking,
}
use makidoku.Tachibackup.Messages.{
  visit_chapter, decode_chapter, visit_history, decode_history, visit_category, decode_category,
  visit_tracking, decode_tracking,
}
use makidoku.Tachibackup.Codec.{
  Codec, varint, fixed32, bytes, field_of, encode, for_each_field-encode,
}
use makidoku.Tachibackup.Entries.{
  of_bool, FitsInt32-FitsInt64, ChapterFits, chapter_entries, chapter-valid, HistoryFits,
  history_entries, history-valid, CategoryFits, category_entries, category-valid, TrackingFits,
  tracking_entries, tracking-valid,
}

module _ (c : Codec) where
  read_varint :
      (num v : ℕ)
      → v < 0x1_0000_0000_0000_0000
      → varint_of c.wire (field_of c (varint num v)) ≡ ok v
  unfolding varint_of
  read_varint num v h = rw (← append-nil (c.append_varint v)) (rw (c.varint_read v [] h) refl)

  pub read_int64 :
      (num : ℕ) (z : ℤ) → FitsInt64 z → int64_of c.wire (field_of c (varint num (of_int z))) ≡ ok z
  unfolding int64_of
  read_int64 num z h = rw (read_varint num (of_int z) (of_int-lt z h)) (ap ok (to_int64-of_int z h))

  pub read_int32 :
      (num : ℕ) (z : ℤ) → FitsInt32 z → int32_of c.wire (field_of c (varint num (of_int z))) ≡ ok z
  unfolding int32_of
  read_int32 num z h =
      rw (read_varint num (of_int z) (of_int-lt z (FitsInt32-FitsInt64 z h)))
        (ap ok (to_int32-of_int z h))

  pub read_boolean :
      (num : ℕ) (b : Bool) → boolean_of c.wire (field_of c (varint num (of_bool b))) ≡ ok b
  unfolding boolean_of
  read_boolean num true = rw (read_varint num 1 (omega arith)) refl
  read_boolean num false = rw (read_varint num 0 (omega arith)) refl

  pub read_float32 :
      (num v : ℕ) → v < 0x1_0000_0000 → float32_of c.wire (field_of c (fixed32 num v)) ≡ ok v
  unfolding float32_of
  read_float32 num v h = rw (← append-nil (c.append_fixed32 v)) (rw (c.fixed32_read v [] h) refl)

  pub read_bytes : (num : ℕ) (b : List ℕ) → bytes_of c.wire (field_of c (bytes num b)) ≡ ok b
  unfolding bytes_of
  read_bytes num b = rw (← append-nil (c.append_bytes b)) (rw (c.bytes_read b []) refl)

  pub read_string : (num : ℕ) (b : List ℕ) → string_of c.wire (field_of c (bytes num b)) ≡ ok b
  unfolding string_of
  read_string num b = read_bytes num b

  -- A chapter record whose numbers fit their types, written field by field under the numbers that the
  -- decoder knows, decodes to itself, under any wire package that reads back what it writes.
  pub decode-encode_chapter :
      (x : Chapter) → ChapterFits x → decode_chapter c.wire (encode c (chapter_entries x)) ≡ ok x
  unfolding decode_chapter visit_chapter
  decode-encode_chapter x h =
      rw
        (for_each_field-encode c (visit_chapter c.wire)
          (suc (length (encode c (chapter_entries x)))) (chapter_entries x) empty_chapter
          (chapter-valid x h) (omega arith))
        (rw
          (
            read_string 1 x.url,
            read_string 2 x.name,
            read_string 3 x.scanlator,
            read_boolean 4 x.read,
            read_boolean 5 x.bookmark,
            read_int64 6 x.last_page_read h.last_page_read,
            read_int64 7 x.date_fetch h.date_fetch,
            read_int64 8 x.date_upload h.date_upload,
            read_float32 9 x.chapter_number h.chapter_number,
            read_int64 10 x.source_order h.source_order,
            read_int64 11 x.last_modified_at h.last_modified_at,
            read_int64 12 x.version h.version,
            read_string 13 x.memo,
          )
          refl)

  -- A history record whose numbers fit their types, written field by field under the numbers that the
  -- decoder knows, decodes to itself, under any wire package that reads back what it writes.
  pub decode-encode_history :
      (x : History) → HistoryFits x → decode_history c.wire (encode c (history_entries x)) ≡ ok x
  unfolding decode_history visit_history
  decode-encode_history x h =
      rw
        (for_each_field-encode c (visit_history c.wire)
          (suc (length (encode c (history_entries x)))) (history_entries x) empty_history
          (history-valid x h) (omega arith))
        (rw
          (
            read_string 1 x.url,
            read_int64 2 x.last_read h.last_read,
            read_int64 3 x.read_duration h.read_duration,
          )
          refl)

  -- A category record whose numbers fit their types, written field by field under the numbers that the
  -- decoder knows, decodes to itself, under any wire package that reads back what it writes.
  pub decode-encode_category :
      (x : Category)
      → CategoryFits x
      → decode_category c.wire (encode c (category_entries x)) ≡ ok x
  unfolding decode_category visit_category
  decode-encode_category x h =
      rw
        (for_each_field-encode c (visit_category c.wire)
          (suc (length (encode c (category_entries x)))) (category_entries x) empty_category
          (category-valid x h) (omega arith))
        (rw
          (
            read_string 1 x.name,
            read_int64 2 x.order h.order,
            read_int64 3 x.id h.id,
            read_int64 100 x.flags h.flags,
            read_boolean 900 x.hidden,
          )
          refl)

  -- A tracking record whose numbers fit their types, written field by field under the numbers that the
  -- decoder knows, decodes to itself, under any wire package that reads back what it writes.
  pub decode-encode_tracking :
      (x : Tracking)
      → TrackingFits x
      → decode_tracking c.wire (encode c (tracking_entries x)) ≡ ok x
  unfolding decode_tracking visit_tracking
  decode-encode_tracking x h =
      rw
        (for_each_field-encode c (visit_tracking c.wire)
          (suc (length (encode c (tracking_entries x)))) (tracking_entries x) empty_tracking
          (tracking-valid x h) (omega arith))
        (rw
          (
            read_int32 1 x.sync_id h.sync_id,
            read_int64 2 x.library_id h.library_id,
            read_int32 3 x.media_id_int h.media_id_int,
            read_string 4 x.tracking_url,
            read_string 5 x.title,
            read_float32 6 x.last_chapter_read h.last_chapter_read,
            read_int32 7 x.total_chapters h.total_chapters,
            read_float32 8 x.score h.score,
            read_int32 9 x.status h.status,
            read_int64 10 x.started_reading_date h.started_reading_date,
            read_int64 11 x.finished_reading_date h.finished_reading_date,
            read_boolean 12 x.private,
            read_int64 100 x.media_id h.media_id,
          )
          refl)
