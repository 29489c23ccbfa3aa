-- ===== src/MigrationJob/Handlers.antt =====
-- The requests on migration jobs (createMigrationJob, cancelMigrationJob, cancelMigrationTitle of
-- internal/api/migration_jobs.go), on the jobs of the manager. The body of a request is decoded.
use makidoku.Common.{
  ℕ, String, Bool, not, ◌&&◌, Option, none, some, List, [], ◌∷◌, length, map, if◌then◌else◌, str_eq,
}
use makidoku.Common.Result.{Result, ok, err}
use makidoku.Runes.{Text}
use makidoku.MigrationJob.{InstalledSource, Manga, Spec, select_targets}
use makidoku.MigrationJob.Life.{Job, start, get, cancel_all, cancel_title}

pub record MigrationRequest : Type 0 where
  pub source_id : String
  pub manga_id : String
  pub query : Text
  pub target_source_ids : List String
  pub deep : Bool
  pub prioritize_by_chapters : Bool
  pub additional_query : Text

-- A status code with a text, an error of the engine as writeError tells it, or what the client gets.
pub data Reply : Type 0 where
  refused : ℕ → String → Reply
  engine_error : String → Reply
  created : String → ℕ → String → Reply
  no_content : Reply

-- GetManga and ListLibraryBySource of the repository, Installed of the engine, whether the server has
-- an engine, a new id, and strings.TrimSpace.
pub record Server : Type 0 where
  pub available : Bool
  pub get_manga : String → Result String Manga
  pub list_library_by_source : String → Result String (List Manga)
  pub installed : Result String (List InstalledSource)
  pub new_id : String
  pub trim : String → String

module _ (server : Server) (now : ℕ) where
  abbrev spec_of : MigrationRequest → String → List Manga → List InstalledSource → Spec
  spec_of r source_id titles sources = record {
    query = r.query;
    additional_query = r.additional_query;
    deep = r.deep;
    prioritize_by_chapters = r.prioritize_by_chapters;
    targets = select_targets server.trim sources source_id r.target_source_ids;
    titles = titles;
  }

  abbrev started_with : String → List Manga → Job × List Job → Reply × List Job
  started_with source_id titles (job, jobs) = (created job.id (length titles) source_id, jobs)

  abbrev with_sources :
      MigrationRequest
      → String
      → List Manga
      → Result String (List InstalledSource)
      → List Job
      → Reply × List Job
  with_sources r source_id titles (err e) jobs = (engine_error e, jobs)
  with_sources r source_id titles (ok sources) jobs =
      started_with source_id titles
        (start now server.new_id (spec_of r source_id titles sources) jobs)

  abbrev for_title : MigrationRequest → Result String Manga → List Job → Reply × List Job
  for_title r (err e) jobs = (refused 404 e, jobs)
  for_title r (ok manga) jobs = with_sources r manga.source_id (manga ∷ []) server.installed jobs

  abbrev for_source :
      MigrationRequest → String → Result String (List Manga) → List Job → Reply × List Job
  for_source r source_id (err e) jobs = (refused 500 e, jobs)
  for_source r source_id (ok titles) jobs = with_sources r source_id titles server.installed jobs

  unfoldable pub create_migration_job : MigrationRequest → List Job → Reply × List Job
  unfolding start select_targets
  create_migration_job r jobs =
      let source_id = server.trim r.source_id in
      let manga_id = server.trim r.manga_id in
      if not server.available
      then (refused 503 "sources are unavailable right now; try again later", jobs)
      else if str_eq source_id "" && str_eq manga_id ""
      then (refused 400 "sourceId or mangaId is required", jobs)
      else if not (str_eq manga_id "")
      then for_title r (server.get_manga manga_id) jobs
      else for_source r source_id (server.list_library_by_source source_id) jobs

-- The jobs with a new state of the one that has the id.
abbrev put : Job → List Job → List Job
put new = map (λ j. if str_eq j.id new.id then new else j)

abbrev canceled_job : ℕ → Option Job → List Job → Reply × List Job
canceled_job now none jobs = (refused 404 "migration job not found", jobs)
canceled_job now (some j) jobs = (no_content, put (cancel_all now j) jobs)

unfoldable pub cancel_migration_job : ℕ → String → List Job → Reply × List Job
unfolding get cancel_all
cancel_migration_job now id jobs = canceled_job now (get id jobs) jobs

abbrev told_of_title : Bool × Job → List Job → Reply × List Job
told_of_title (found, j) jobs =
    if found then (no_content, put j jobs) else (refused 404 "title is not part of this job", jobs)

abbrev canceled_title_of : String → Option Job → List Job → Reply × List Job
canceled_title_of manga_id none jobs = (refused 404 "migration job not found", jobs)
canceled_title_of manga_id (some j) jobs = told_of_title (cancel_title manga_id j) jobs

unfoldable pub cancel_migration_title : String → String → List Job → Reply × List Job
unfolding get cancel_title
cancel_migration_title id manga_id jobs = canceled_title_of manga_id (get id jobs) jobs
