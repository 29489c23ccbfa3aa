-- ===== src/Tachibackup/Document.antt =====
-- The document as a whole: decodeBackup and Decode of internal/tachibackup/decode.go.
use makidoku.Common.{
  ℕ, suc, ◌+◌, Bool, false, Option, none, some, List, [], ◌∷◌, ◌++◌, length, ◌==◌, ◌&&◌, ◌||◌, not,
  is_empty, ltb, if◌then◌else◌,
}
use makidoku.Common.Int.{ℤ}
use makidoku.Common.Result.{Result, ok, err, ◌>>=◌}
use makidoku.Tachibackup.Model.{Text, Backup, empty_backup}
use makidoku.Tachibackup.Messages
use makidoku.Tachibackup.Metadata
use makidoku.Tachibackup.Library
use makidoku.Tachibackup.Wire.{
  Wire, Field, DecodeError, no_backup_records, json_unsupported, too_large, gzip_failed,
  for_each_field, int32_of, int64_of, boolean_of, float32_of, bytes_of, string_of,
}

abbrev pub has_records : Backup → Bool
has_records b = not (is_empty b.manga && is_empty b.categories && is_empty b.sources)

abbrev pub checked : Backup → Result DecodeError Backup
checked b = if has_records b then ok b else err no_backup_records

module _ (w : Wire) where
  abbrev int32 : Field → Result DecodeError ℤ
  int32 = int32_of w

  abbrev int64 : Field → Result DecodeError ℤ
  int64 = int64_of w

  abbrev boolean : Field → Result DecodeError Bool
  boolean = boolean_of w

  abbrev float32 : Field → Result DecodeError ℕ
  float32 = float32_of w

  abbrev bytes : Field → Result DecodeError (List ℕ)
  bytes = bytes_of w

  abbrev string : Field → Result DecodeError Text
  string = string_of w

  unfoldable pub visit_backup : Backup → Field → Result DecodeError Backup
  visit_backup out f =
      if f.num == 1
      then (do
        raw ← bytes f
        v ← Library.decode_manga w raw
        ok (record out { manga = out.manga ++ v ∷ [] }))
      else if f.num == 2
      then (do
        raw ← bytes f
        v ← Messages.decode_category w raw
        ok (record out { categories = out.categories ++ v ∷ [] }))
      else if f.num == 101
      then (do
        raw ← bytes f
        v ← Messages.decode_source w raw
        ok (record out { sources = out.sources ++ v ∷ [] }))
      else if f.num == 104
      then (ok (record out { preferences = out.preferences + 1 }))
      else if f.num == 105
      then (ok (record out { source_preferences = out.source_preferences + 1 }))
      else if f.num == 106
      then (ok (record out { extension_stores = out.extension_stores + 1 }))
      else if f.num == 600
      then (do
        raw ← bytes f
        v ← Messages.decode_saved_search w raw
        ok (record out { saved_searches = out.saved_searches ++ v ∷ [] }))
      else if f.num == 610
      then (do
        raw ← bytes f
        v ← Metadata.decode_feed w raw
        ok (record out { feeds = out.feeds ++ v ∷ [] }))
      else ok out

  unfoldable pub decode_backup : List ℕ → Result DecodeError Backup
  unfolding for_each_field visit_backup
  decode_backup raw = do
    out ← for_each_field w (suc (length raw)) visit_backup raw empty_backup
    checked out

-- 512 << 20
abbrev pub max_decoded_bytes : ℕ
max_decoded_bytes = 0x2000_0000

abbrev pub is_gzip : List ℕ → Bool
is_gzip (a ∷ b ∷ rest) = a == 0x1f && b == 0x8b
is_gzip _ = false

abbrev pub is_json : List ℕ → Bool
is_json (a ∷ b ∷ rest) = a == 0x7b && (b == 0x7d || b == 0x22 || b == 0x0a)
is_json _ = false

-- `gunzip n` reads at most `n` bytes of the stream; `none` is a failure of compress/gzip.
module _ (w : Wire) (gunzip : ℕ → List ℕ → Option (List ℕ)) where
  abbrev pub decode_plain : Option (List ℕ) → Result DecodeError Backup
  decode_plain none = err gzip_failed
  decode_plain (some plain) =
      if ltb max_decoded_bytes (length plain) then err too_large else decode_backup w plain

  unfoldable pub decode : List ℕ → Result DecodeError Backup
  decode input =
      if is_gzip input
      then decode_plain (gunzip (max_decoded_bytes + 1) input)
      else if is_json input
      then err json_unsupported
      else decode_backup w input
