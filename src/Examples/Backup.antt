-- ===== src/Examples/Backup.antt =====
-- A small wire package, in which a number is one item of the data, and documents written with it,
-- for internal/tachibackup/decode.go.
use makidoku.Common.{
  ℕ, zero, suc, ◌≤◌, ◌<◌, ◌≡◌, ◌≢◌, refl, true, Option, none, some, List, [], ◌∷◌, ◌++◌, arith,
  length, take, take-append, All, ◌==◌, if◌then◌else◌,
}
use makidoku.Common.Int.{pos, negsuc}
use makidoku.Common.Result.{ok, err}
use makidoku.Tachibackup.Wire.{Wire, out_of_fuel, for_each_field}
use makidoku.Tachibackup.Model.{
  Chapter, empty_chapter, History, empty_history, Tracking, empty_tracking,
}
use makidoku.Tachibackup.Messages.{decode_chapter, decode_history, decode_tracking, visit_history}
use makidoku.Tachibackup.Library.{decode_manga}
use makidoku.Tachibackup.Document.{decode}
use makidoku.Tachibackup.Codec.{varint, bytes, Codec, encode, visit_all, for_each_field-encode}
use makidoku.Tachibackup.Entries.{chapter_entries, history_entries, tracking_entries}
use makidoku.Tachibackup.RoundTrip.{
  decode-encode_chapter, decode-encode_history, decode-encode_tracking,
}
use makidoku.Tachibackup.Unknown.{decode_manga-unknown, known_manga}
use makidoku.Tachibackup.Total.{decode-Ends}

abbrev read_tag : List ℕ → Option (ℕ × ℕ × ℕ)
read_tag (num ∷ typ ∷ rest) = some (num, typ, 2)
read_tag _ = none

abbrev read_number : List ℕ → Option (ℕ × ℕ)
read_number (v ∷ rest) = some (v, 1)
read_number [] = none

abbrev read_block : List ℕ → Option (List ℕ × ℕ)
read_block (n ∷ rest) = some (take n rest, suc (length (take n rest)))
read_block [] = none

abbrev skip : ℕ → List ℕ → Option ℕ
skip typ [] = none
skip typ (n ∷ rest) = if typ == 2 then some (suc (length (take n rest))) else some 1

read_tag-length :
    (xs : List ℕ) (num typ n : ℕ) → read_tag xs ≡ some (num, typ, n) → (0 < n) × (n ≤ length xs)
read_tag-length [] num typ n e = absurd cc
read_tag-length (x ∷ []) num typ n e = absurd cc
read_tag-length (x ∷ y ∷ xs) num typ n e = let two : 2 ≡ n = cc in (omega arith, omega arith)

length-take_le : (n : ℕ) (xs : List ℕ) → length (take n xs) ≤ length xs
length-take_le zero xs = omega arith
length-take_le (suc n) [] = omega arith
length-take_le (suc n) (x ∷ xs) = omega (arith, length-take_le n xs)

skip-length : (num typ : ℕ) (xs : List ℕ) (n : ℕ) → skip typ xs ≡ some n → n ≤ length xs
skip-length num typ [] n e = absurd cc
skip-length num typ (x ∷ xs) n e = ground (arith, length-take_le x xs)

abbrev wire : Wire
wire = record {
  consume_tag = read_tag;
  consume_field_value = λ num. skip;
  consume_varint = read_number;
  consume_fixed32 = read_number;
  consume_bytes = read_block;
  tag_length = read_tag-length;
  value_length = skip-length;
}

abbrev write_block : List ℕ → List ℕ
write_block b = length b ∷ b

read-write_block :
    (b rest : List ℕ) → read_block (write_block b ++ rest) ≡ some (b, length (write_block b))
read-write_block b rest = rw (take-append b rest) refl

skip-write_block :
    (num : ℕ) (b rest : List ℕ) → skip 2 (write_block b ++ rest) ≡ some (length (write_block b))
skip-write_block num b rest = rw (take-append b rest) refl

abbrev codec : Codec
codec = record {
  wire = wire;
  append_tag = λ num typ. num ∷ typ ∷ [];
  append_varint = λ v. v ∷ [];
  append_fixed32 = λ v. v ∷ [];
  append_bytes = write_block;
  tag_read = λ num typ rest h k. refl;
  varint_read = λ v rest h. refl;
  fixed32_read = λ v rest h. refl;
  bytes_read = read-write_block;
  varint_skipped = λ num v rest h. refl;
  fixed32_skipped = λ num v rest h. refl;
  bytes_skipped = skip-write_block;
}

abbrev some_chapter : Chapter
some_chapter = record empty_chapter {
  url = 47 ∷ 99 ∷ [];
  read = true;
  last_page_read = negsuc 0;
  chapter_number = 0x3f80_0000;
}

decode-encode_chapter_example :
    decode_chapter wire (encode codec (chapter_entries some_chapter)) ≡ ok some_chapter
decode-encode_chapter_example = decode-encode_chapter codec some_chapter (record {
  last_page_read = omega arith;
  date_fetch = omega arith;
  date_upload = omega arith;
  chapter_number = omega arith;
  source_order = omega arith;
  last_modified_at = omega arith;
  version = omega arith;
})

abbrev some_history : History
some_history = record empty_history { url = 47 ∷ []; last_read = pos 1700; read_duration = pos 90 }

decode-encode_history_example :
    decode_history wire (encode codec (history_entries some_history)) ≡ ok some_history
decode-encode_history_example =
    decode-encode_history codec some_history
      (record { last_read = omega arith; read_duration = omega arith })

abbrev some_tracking : Tracking
some_tracking = record empty_tracking { sync_id = pos 2; library_id = pos 77; score = 0x4100_0000 }

decode-encode_tracking_example :
    decode_tracking wire (encode codec (tracking_entries some_tracking)) ≡ ok some_tracking
decode-encode_tracking_example = decode-encode_tracking codec some_tracking (record {
  sync_id = omega arith;
  library_id = omega arith;
  media_id_int = omega arith;
  last_chapter_read = omega arith;
  total_chapters = omega arith;
  score = omega arith;
  status = omega arith;
  started_reading_date = omega arith;
  finished_reading_date = omega arith;
  media_id = omega arith;
})

for_each_field-encode_example :
    for_each_field wire 100
      (visit_history wire)
      (encode codec (history_entries some_history))
      empty_history
    ≡ visit_all codec (visit_history wire) (history_entries some_history) empty_history
unfolding encode
for_each_field-encode_example =
    for_each_field-encode codec (visit_history wire) 100 (history_entries some_history)
      empty_history
      (
        (omega arith, omega arith),
        ((omega arith, omega arith, omega arith), ((omega arith, omega arith, omega arith), tt)),
      )
      (omega arith)

unknown : All (λ n. 700 ≢ n) known_manga
unknown = (
  λ e. omega arith,
  (
    λ e. omega arith,
    (
      λ e. omega arith,
      (
        λ e. omega arith,
        (
          λ e. omega arith,
          (
            λ e. omega arith,
            (
              λ e. omega arith,
              (
                λ e. omega arith,
                (
                  λ e. omega arith,
                  (
                    λ e. omega arith,
                    (
                      λ e. omega arith,
                      (
                        λ e. omega arith,
                        (
                          λ e. omega arith,
                          (
                            λ e. omega arith,
                            (
                              λ e. omega arith,
                              (
                                λ e. omega arith,
                                (
                                  λ e. omega arith,
                                  (
                                    λ e. omega arith,
                                    (
                                      λ e. omega arith,
                                      (
                                        λ e. omega arith,
                                        (
                                          λ e. omega arith,
                                          (
                                            λ e. omega arith,
                                            (
                                              λ e. omega arith,
                                              (
                                                λ e. omega arith,
                                                (
                                                  λ e. omega arith,
                                                  (
                                                    λ e. omega arith,
                                                    (
                                                      λ e. omega arith,
                                                      (
                                                        λ e. omega arith,
                                                        (
                                                          λ e. omega arith,
                                                          (
                                                            λ e. omega arith,
                                                            (
                                                            λ e. omega arith,
                                                            (
                                                            λ e. omega arith,
                                                            (
                                                            λ e. omega arith,
                                                            (
                                                            λ e. omega arith,
                                                            (λ e. omega arith, tt),
                                                            ),
                                                            ),
                                                            ),
                                                            ),
                                                          ),
                                                        ),
                                                      ),
                                                    ),
                                                  ),
                                                ),
                                              ),
                                            ),
                                          ),
                                        ),
                                      ),
                                    ),
                                  ),
                                ),
                              ),
                            ),
                          ),
                        ),
                      ),
                    ),
                  ),
                ),
              ),
            ),
          ),
        ),
      ),
    ),
  ),
)

decode_manga-unknown_example :
    decode_manga wire (encode codec (bytes 3 (65 ∷ []) ∷ varint 700 9 ∷ varint 8 2 ∷ []))
    ≡ decode_manga wire (encode codec (bytes 3 (65 ∷ []) ∷ varint 8 2 ∷ []))
decode_manga-unknown_example =
    decode_manga-unknown codec (bytes 3 (65 ∷ []) ∷ []) (varint 700 9) (varint 8 2 ∷ [])
      ((omega arith, omega arith), tt) (omega arith, omega arith, omega arith)
      ((omega arith, omega arith, omega arith), tt) unknown

-- A decompressor that refuses everything.
decode-Ends_example : decode wire (λ limit input. none) (8 ∷ 0 ∷ []) ≢ err out_of_fuel
decode-Ends_example = decode-Ends wire (λ limit input. none) (8 ∷ 0 ∷ [])
