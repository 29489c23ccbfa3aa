-- ===== src/Tachibackup/Entries.antt =====
-- The fields of a record as a writer of the format puts them, under the numbers that
-- internal/tachibackup/decode.go reads.
use makidoku.Common.{ℕ, ◌<◌, Bool, true, false, List, [], ◌∷◌, arith}
use makidoku.Common.Int.{ℤ, pos, negsuc, FitsInt32, FitsInt64, of_int, of_int-lt}
use makidoku.Tachibackup.Model.{Chapter, History, Category, Tracking}
use makidoku.Tachibackup.Codec.{Entry, varint, fixed32, bytes, AllValid}

abbrev pub of_bool : Bool → ℕ
of_bool true = 1
of_bool false = 0

pub of_bool-lt : (b : Bool) → of_bool b < 0x1_0000_0000_0000_0000
of_bool-lt true = omega arith
of_bool-lt false = omega arith

pub FitsInt32-FitsInt64 : (z : ℤ) → FitsInt32 z → FitsInt64 z
FitsInt32-FitsInt64 (pos n) h = omega arith
FitsInt32-FitsInt64 (negsuc n) h = omega arith

pub record ChapterFits (x : Chapter) : Type 0 where
  pub last_page_read : FitsInt64 x.last_page_read
  pub date_fetch : FitsInt64 x.date_fetch
  pub date_upload : FitsInt64 x.date_upload
  pub chapter_number : x.chapter_number < 0x1_0000_0000
  pub source_order : FitsInt64 x.source_order
  pub last_modified_at : FitsInt64 x.last_modified_at
  pub version : FitsInt64 x.version

abbrev pub chapter_entries : Chapter → List Entry
chapter_entries x =
    bytes 1 x.url
    ∷ bytes 2 x.name
    ∷ bytes 3 x.scanlator
    ∷ varint 4 (of_bool x.read)
    ∷ varint 5 (of_bool x.bookmark)
    ∷ varint 6 (of_int x.last_page_read)
    ∷ varint 7 (of_int x.date_fetch)
    ∷ varint 8 (of_int x.date_upload)
    ∷ fixed32 9 x.chapter_number
    ∷ varint 10 (of_int x.source_order)
    ∷ varint 11 (of_int x.last_modified_at)
    ∷ varint 12 (of_int x.version)
    ∷ bytes 13 x.memo
    ∷ []

pub chapter-valid : (x : Chapter) → ChapterFits x → AllValid (chapter_entries x)
chapter-valid x h = (
  (omega arith, omega arith),
  (
    (omega arith, omega arith),
    (
      (omega arith, omega arith),
      (
        (omega arith, omega arith, of_bool-lt x.read),
        (
          (omega arith, omega arith, of_bool-lt x.bookmark),
          (
            (omega arith, omega arith, of_int-lt x.last_page_read h.last_page_read),
            (
              (omega arith, omega arith, of_int-lt x.date_fetch h.date_fetch),
              (
                (omega arith, omega arith, of_int-lt x.date_upload h.date_upload),
                (
                  (omega arith, omega arith, h.chapter_number),
                  (
                    (omega arith, omega arith, of_int-lt x.source_order h.source_order),
                    (
                      (omega arith, omega arith, of_int-lt x.last_modified_at h.last_modified_at),
                      (
                        (omega arith, omega arith, of_int-lt x.version h.version),
                        ((omega arith, omega arith), tt),
                      ),
                    ),
                  ),
                ),
              ),
            ),
          ),
        ),
      ),
    ),
  ),
)

pub record HistoryFits (x : History) : Type 0 where
  pub last_read : FitsInt64 x.last_read
  pub read_duration : FitsInt64 x.read_duration

abbrev pub history_entries : History → List Entry
history_entries x =
    bytes 1 x.url ∷ varint 2 (of_int x.last_read) ∷ varint 3 (of_int x.read_duration) ∷ []

pub history-valid : (x : History) → HistoryFits x → AllValid (history_entries x)
history-valid x h = (
  (omega arith, omega arith),
  (
    (omega arith, omega arith, of_int-lt x.last_read h.last_read),
    ((omega arith, omega arith, of_int-lt x.read_duration h.read_duration), tt),
  ),
)

pub record CategoryFits (x : Category) : Type 0 where
  pub order : FitsInt64 x.order
  pub id : FitsInt64 x.id
  pub flags : FitsInt64 x.flags

abbrev pub category_entries : Category → List Entry
category_entries x =
    bytes 1 x.name
    ∷ varint 2 (of_int x.order)
    ∷ varint 3 (of_int x.id)
    ∷ varint 100 (of_int x.flags)
    ∷ varint 900 (of_bool x.hidden)
    ∷ []

pub category-valid : (x : Category) → CategoryFits x → AllValid (category_entries x)
category-valid x h = (
  (omega arith, omega arith),
  (
    (omega arith, omega arith, of_int-lt x.order h.order),
    (
      (omega arith, omega arith, of_int-lt x.id h.id),
      (
        (omega arith, omega arith, of_int-lt x.flags h.flags),
        ((omega arith, omega arith, of_bool-lt x.hidden), tt),
      ),
    ),
  ),
)

pub record TrackingFits (x : Tracking) : Type 0 where
  pub sync_id : FitsInt32 x.sync_id
  pub library_id : FitsInt64 x.library_id
  pub media_id_int : FitsInt32 x.media_id_int
  pub last_chapter_read : x.last_chapter_read < 0x1_0000_0000
  pub total_chapters : FitsInt32 x.total_chapters
  pub score : x.score < 0x1_0000_0000
  pub status : FitsInt32 x.status
  pub started_reading_date : FitsInt64 x.started_reading_date
  pub finished_reading_date : FitsInt64 x.finished_reading_date
  pub media_id : FitsInt64 x.media_id

abbrev pub tracking_entries : Tracking → List Entry
tracking_entries x =
    varint 1 (of_int x.sync_id)
    ∷ varint 2 (of_int x.library_id)
    ∷ varint 3 (of_int x.media_id_int)
    ∷ bytes 4 x.tracking_url
    ∷ bytes 5 x.title
    ∷ fixed32 6 x.last_chapter_read
    ∷ varint 7 (of_int x.total_chapters)
    ∷ fixed32 8 x.score
    ∷ varint 9 (of_int x.status)
    ∷ varint 10 (of_int x.started_reading_date)
    ∷ varint 11 (of_int x.finished_reading_date)
    ∷ varint 12 (of_bool x.private)
    ∷ varint 100 (of_int x.media_id)
    ∷ []

pub tracking-valid : (x : Tracking) → TrackingFits x → AllValid (tracking_entries x)
tracking-valid x h = (
  (omega arith, omega arith, of_int-lt x.sync_id (FitsInt32-FitsInt64 x.sync_id h.sync_id)),
  (
    (omega arith, omega arith, of_int-lt x.library_id h.library_id),
    (
      (
        omega arith,
        omega arith,
        of_int-lt x.media_id_int (FitsInt32-FitsInt64 x.media_id_int h.media_id_int),
      ),
      (
        (omega arith, omega arith),
        (
          (omega arith, omega arith),
          (
            (omega arith, omega arith, h.last_chapter_read),
            (
              (
                omega arith,
                omega arith,
                of_int-lt x.total_chapters (FitsInt32-FitsInt64 x.total_chapters h.total_chapters),
              ),
              (
                (omega arith, omega arith, h.score),
                (
                  (
                    omega arith,
                    omega arith,
                    of_int-lt x.status (FitsInt32-FitsInt64 x.status h.status),
                  ),
                  (
                    (
                      omega arith,
                      omega arith,
                      of_int-lt x.started_reading_date h.started_reading_date,
                    ),
                    (
                      (
                        omega arith,
                        omega arith,
                        of_int-lt x.finished_reading_date h.finished_reading_date,
                      ),
                      (
                        (omega arith, omega arith, of_bool-lt x.private),
                        ((omega arith, omega arith, of_int-lt x.media_id h.media_id), tt),
                      ),
                    ),
                  ),
                ),
              ),
            ),
          ),
        ),
      ),
    ),
  ),
)
