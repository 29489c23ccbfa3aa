-- ===== src/MigrationJob.antt =====
-- Migration jobs (internal/api/migration_jobs.go): one run searches a replacement for each title of
-- a source. A chapter number, a float64 of the code, is its rank: the bits of its absolute value,
-- with its sign. NaN does not occur, since the numbers come from JSON and ParseFloat.
pub mod Search
pub mod Outcome
pub mod Terminal
pub mod Order
pub mod Prefer
pub mod Choice
pub mod Life
pub mod Handlers
use makidoku.Common.{
  ℕ, String, Bool, true, false, not, ◌&&◌, Option, none, some, List, [], ◌∷◌, ◌++◌, ltb, ◌==◌,
  is_empty, if◌then◌else◌, str_eq, any, filter, map,
}
use makidoku.Common.Int.{ℤ, pos, negsuc}
use makidoku.Common.Result.{Result, ok, err}
use makidoku.Runes.{Text}
use makidoku.Migration.Match.{Score}

pub data TitleStatus : Type 0 where
  searching success not_found failed canceled : TitleStatus

pub record InstalledSource : Type 0 where
  pub id : String
  pub name : String

-- The columns of a title that a job uses, also of the stub of a match.
pub record Manga : Type 0 where
  pub id : String
  pub source_id : String
  pub title : Text

pub record MangaItem : Type 0 where
  pub id : String
  pub title : Text
  pub url : String
  pub latest_chapter : String

pub record TitleEvent : Type 0 where
  pub manga_id : String
  pub title : Text
  pub status : TitleStatus
  pub source : Option InstalledSource
  pub manga : Option Manga
  pub score : Score
  pub chapter_count : ℕ
  pub latest_chapter : Option ℤ
  pub error : Option String

pub record Spec : Type 0 where
  pub query : Text
  pub additional_query : Text
  pub deep : Bool
  pub prioritize_by_chapters : Bool
  pub targets : List InstalledSource
  pub titles : List Manga

abbrev pub no_score : Score
no_score = record { num = 0; den = 1 }

-- An event with a status and no match.
abbrev pub unmatched : TitleStatus → Option String → Manga → TitleEvent
unmatched s e m = record {
  manga_id = m.id;
  title = m.title;
  status = s;
  source = none;
  manga = none;
  score = no_score;
  chapter_count = 0;
  latest_chapter = none;
  error = e;
}

abbrev pub canceled_title : Manga → TitleEvent
canceled_title = unmatched canceled none

abbrev trimmed_ids : (String → String) → List String → List String
trimmed_ids trim wanted = filter (λ id. not (str_eq id "")) (map trim wanted)

-- `trim` is strings.TrimSpace.
unfoldable pub select_targets :
    (String → String) → List InstalledSource → String → List String → List InstalledSource
select_targets trim sources own wanted =
    filter
      (λ s.
        not (str_eq s.id own)
        && (if is_empty (trimmed_ids trim wanted)
            then true
            else any (λ id. str_eq id s.id) (trimmed_ids trim wanted)))
      sources
