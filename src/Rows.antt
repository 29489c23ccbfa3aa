-- ===== src/Rows.antt =====
-- The tables behind the download queue (internal/db/models.go, internal/db/migrations) and what the
-- repository's SQL does to their rows: a WHERE clause is a Boolean test, and ORDER BY a sort.
pub mod Sorted
pub mod Table
use makidoku.Common.{
  ℕ, ◌<◌, String, Bool, true, false, ◌&&◌, ◌||◌, not, Option, none, some, List, [], ◌∷◌, map, ltb,
  ◌==◌, if◌then◌else◌, str_eq, filter, find?, any, count_if,
}

-- The status strings. `completed` and `canceled` travel in events only.
pub data Status : Type 0 where
  pending downloading completed failed paused canceled : Status

abbrev pub same_status : Status → Status → Bool
same_status pending pending = true
same_status downloading downloading = true
same_status completed completed = true
same_status failed failed = true
same_status paused paused = true
same_status canceled canceled = true
same_status _ _ = false

-- A row of `download_queue`. `done_pages` is the list that the column holds as JSON.
pub record Row : Type 0 where
  pub id : ℕ
  pub chapter_id : String
  pub status : Status
  pub progress : ℕ
  pub total_pages : ℕ
  pub downloaded_pages : ℕ
  pub done_pages : List ℕ
  pub error_message : Option String
  pub queued_at : ℕ
  pub position : ℕ

-- The columns of `chapters` (with `chapter_sources`) that the downloader uses.
pub record Chapter : Type 0 where
  pub id : String
  pub source_id : String
  pub source_chapter_id : String
  pub downloaded : Bool
  pub download_path : Option String

-- `next_id` is the table's AUTOINCREMENT counter.
pub record Store : Type 0 where
  pub rows : List Row
  pub chapters : List Chapter
  pub next_id : ℕ

-- A queue row joined to its chapter, as `queueSelect` reads it.
pub record Item : Type 0 where
  pub row : Row
  pub open row use *
  pub chapter : Chapter

abbrev pub is : Status → Row → Bool
is s r = same_status r.status s

abbrev pub has_id : ℕ → Row → Bool
has_id i r = r.id == i

abbrev pub has_chapter : String → Row → Bool
has_chapter c r = str_eq r.chapter_id c

-- `status IN (PENDING, DOWNLOADING, PAUSED, FAILED)`
abbrev pub is_live : Row → Bool
is_live r = is pending r || is downloading r || is paused r || is failed r

-- UPDATE … SET f WHERE p
abbrev pub update_where : (Row → Bool) → (Row → Row) → List Row → List Row
update_where p f [] = []
update_where p f (r ∷ rs) = (if p r then f r else r) ∷ update_where p f rs

-- DELETE … WHERE p
abbrev pub delete_where : (Row → Bool) → List Row → List Row
delete_where p rs = filter (λ r. not (p r)) rs

-- ORDER BY position, queued_at, id
abbrev pub before : Row → Row → Bool
before a b =
    ltb a.position b.position
    || (a.position == b.position
        && (ltb a.queued_at b.queued_at || (a.queued_at == b.queued_at && ltb a.id b.id)))

insert : Row → List Row → List Row
insert r [] = r ∷ []
insert r (x ∷ xs) = if before x r then x ∷ insert r xs else r ∷ x ∷ xs

unfoldable pub ordered : List Row → List Row
unfolding insert
ordered [] = []
ordered (r ∷ rs) = insert r (ordered rs)

-- JOIN chapters c ON c.id = q.chapter_id
abbrev pub chapter_of : List Chapter → String → Option Chapter
chapter_of cs c = find? (λ x. str_eq x.id c) cs

unfoldable pub source_id_of : List Chapter → String → Option String
source_id_of cs c = elim (chapter_of cs c) [ none ↦ none | some x ↦ some x.source_id ]

abbrev pub source_of : List Chapter → Row → Option String
source_of cs r = source_id_of cs r.chapter_id

abbrev pub names : String → Option String → Bool
names s none = false
names s (some t) = str_eq t s

abbrev pub from_source : List Chapter → String → Row → Bool
from_source cs s r = names s (source_of cs r)
