-- ===== src/Tracker/Worker.antt =====
-- The worker of internal/tracker/sync.go. The providers and the credential store are the record
-- `Outside`; the database gives no errors of its own.
use makidoku.Common.{
  ℕ, zero, suc, ◌*◌, String, Bool, true, false, not, ◌&&◌, ◌||◌, Option, none, some, List, [], ◌∷◌,
  ltb, leb, ◌==◌, if◌then◌else◌, str_eq, filter, find?,
}
use makidoku.Common.Int.{ℤ, pos}
use makidoku.Common.Result.{Result, ok, err}
use makidoku.Tracker.{
  TrackerSyncJob, TrackerBinding, Store, StoreError, no_rows, found, enqueue_tracker_sync,
  claim_tracker_sync, complete_tracker_sync, fail_tracker_sync, prune_terminal_tracker_sync_jobs,
  update_tracker_synced_chapter, reset_interrupted_tracker_sync,
}

-- What errors.Is and errors.As find in an error: an HTTP status for HTTPError, else a net.Error.
pub data Cause : Type 0 where
  canceled deadline_exceeded net_error other : Cause
  http_status : ℕ → Cause

pub record Failure : Type 0 where
  pub missing_credential : Bool
  pub cause : Cause
  pub text : String

-- Registry.Get, Registry.Credential and UpdateTracking of a provider.
pub record Outside : Type 0 where
  pub known : String → Bool
  pub credential : String → Result Failure (Unit {0})
  pub update_tracking : TrackerBinding → ℤ → Result Failure (Unit {0})
  pub unknown_tracker : String → String
  pub store_error_text : StoreError → String
  pub type_before : String → String → Bool

unfoldable pub retryable_tracker_error : Cause → Bool
retryable_tracker_error canceled = true
retryable_tracker_error deadline_exceeded = true
retryable_tracker_error net_error = true
retryable_tracker_error other = false
retryable_tracker_error (http_status s) = s == 429 || leb 500 s

-- failJob: an error of the bookkeeping is only logged.
abbrev pub kept : Store → Result StoreError Store → Store
kept st (err e) = st
kept st (ok new) = new

unfoldable pub fail_job : ℕ → ℕ → Bool → String → Store → Store
unfolding fail_tracker_sync
fail_job now id retry message st = kept st (fail_tracker_sync now id retry message st)

unfoldable pub get_tracker_binding_by_id : ℕ → Store → Result StoreError TrackerBinding
get_tracker_binding_by_id id st = found (find? (λ b. b.id == id) st.bindings)

module _ (outside : Outside) (now : ℕ) where
  abbrev pub fail_with : TrackerSyncJob → Bool → Failure → Store → Store
  fail_with job retry e = fail_job now job.id retry e.text

  abbrev pub answered : TrackerSyncJob → TrackerBinding → Store → Result Failure (Unit {0}) → Store
  answered job b st (err e) = fail_with job (retryable_tracker_error e.cause) e st
  answered job b st (ok done) =
      complete_tracker_sync now job.id (update_tracker_synced_chapter b.id job.chapter_number st)

  abbrev pub authorized :
      TrackerSyncJob → TrackerBinding → Store → Result Failure (Unit {0}) → Store
  authorized job b st (err e) =
      fail_with job (not e.missing_credential && retryable_tracker_error e.cause) e st
  authorized job b st (ok done) = answered job b st (outside.update_tracking b job.chapter_number)

  abbrev pub bound : TrackerSyncJob → Store → Result StoreError TrackerBinding → Store
  bound job st (err e) = fail_job now job.id false (outside.store_error_text e) st
  bound job st (ok b) =
      if outside.known b.tracker_type
      then authorized job b st (outside.credential b.tracker_type)
      else fail_job now job.id false (outside.unknown_tracker b.tracker_type) st

  -- The rest of ProcessOne, with a job claimed.
  unfoldable pub work_on : TrackerSyncJob → Store → Store
  unfolding get_tracker_binding_by_id fail_job complete_tracker_sync update_tracker_synced_chapter
      retryable_tracker_error
  work_on job st = bound job st (get_tracker_binding_by_id job.binding_id st)

  abbrev pub claimed :
      Store → Result StoreError (Option TrackerSyncJob × Store) → Result StoreError Bool × Store
  claimed st (err e) = (err e, st)
  claimed st (ok (none, new)) = (ok false, new)
  claimed st (ok (some job, new)) = (ok true, work_on job new)

-- ProcessOne: `now` is when it claims and `later` when it writes the outcome.
unfoldable pub process_one : Outside → ℕ → ℕ → String → Store → Result StoreError Bool × Store
unfolding claim_tracker_sync work_on
process_one outside now later tracker st =
    claimed outside later st (claim_tracker_sync now tracker st)

abbrev pub sync_job_history_limit : ℕ
sync_job_history_limit = 200

-- The setting tracking.auto_sync: none if the worker has no settings.
unfoldable pub sync_enabled : Option (Result String Bool) → Bool
sync_enabled none = true
sync_enabled (some (err e)) = true
sync_enabled (some (ok enabled)) = enabled

-- One pass of the loop of Run.
unfoldable pub round : Outside → Bool → ℕ → ℕ → Store → Store
unfolding process_one prune_terminal_tracker_sync_jobs
round outside enabled now later st =
    (prune_terminal_tracker_sync_jobs sync_job_history_limit
      (if enabled then (process_one outside now later "" st).1 else st)).1

-- The first passes of the loop, by the settings and the clock at their claims and at their outcomes.
unfoldable pub rounds :
    Outside → (ℕ → Option (Result String Bool)) → (ℕ → ℕ) → (ℕ → ℕ) → ℕ → Store → Store
unfolding round sync_enabled
rounds outside settings now later zero st = st
rounds outside settings now later (suc k) st =
    round outside (sync_enabled (settings k)) (now k) (later k)
      (rounds outside settings now later k st)

-- Run: Prepare, then the loop.
unfoldable pub run :
    Outside → (ℕ → Option (Result String Bool)) → ℕ → (ℕ → ℕ) → (ℕ → ℕ) → ℕ → Store → Store
unfolding rounds reset_interrupted_tracker_sync
run outside settings start now later k st =
    rounds outside settings now later k (reset_interrupted_tracker_sync start st)

unfoldable pub insert_by_type : Outside → TrackerBinding → List TrackerBinding → List TrackerBinding
insert_by_type outside b [] = b ∷ []
insert_by_type outside b (c ∷ cs) =
    let rest = insert_by_type outside b cs in
    if outside.type_before b.tracker_type c.tracker_type then b ∷ c ∷ cs else c ∷ rest

abbrev by_type : Outside → List TrackerBinding → List TrackerBinding
by_type outside [] = []
by_type outside (b ∷ bs) = insert_by_type outside b (by_type outside bs)

unfoldable pub list_tracker_bindings : Outside → String → Store → List TrackerBinding
unfolding insert_by_type
list_tracker_bindings outside manga_id st =
    by_type outside (filter (λ b. str_eq b.manga_id manga_id) st.bindings)

pub data ProgressError : Type 0 where
  invalid_reading_progress : ProgressError
  store_error : StoreError → ProgressError

-- An enqueued binding stays enqueued when a later one fails.
unfoldable pub enqueue_all :
    ℕ → String → ℤ → List TrackerBinding → Store → Result ProgressError (Unit {0}) × Store
enqueue_all now manga_id chapter [] st = (ok tt, st)
enqueue_all now manga_id chapter (b ∷ bs) st =
    let go_on = λ (new : Store). enqueue_all now manga_id chapter bs new in
    elim (enqueue_tracker_sync now manga_id b.id chapter st) [
      | err e ↦ (err (store_error e), st)
      | ok (job, new) ↦ go_on new
    ]

abbrev pub numbered :
    Outside → ℕ → String → Option (Option ℤ) → Store → Result ProgressError (Unit {0}) × Store
numbered outside now manga_id none st = (err (store_error no_rows), st)
numbered outside now manga_id (some none) st = (ok tt, st)
numbered outside now manga_id (some (some chapter)) st =
    enqueue_all now manga_id chapter (list_tracker_bindings outside manga_id st) st

abbrev pub is_reading : ℤ → ℤ → Bool
is_reading (pos page) (pos total) = ltb 0 total && ltb 0 page && leb page total
is_reading _ _ = false

abbrev pub is_near_end : ℤ → ℤ → Bool
is_near_end (pos page) (pos total) = leb (total * 90) (page * 100)
is_near_end _ _ = false

unfoldable pub enqueue_for_progress :
    Outside → ℕ → String → String → Bool → ℤ → ℤ → Store → Result ProgressError (Unit {0}) × Store
unfolding list_tracker_bindings enqueue_all
enqueue_for_progress outside now manga_id chapter_id is_completed page total st =
    if not (is_reading page total)
    then (err invalid_reading_progress, st)
    else if is_completed || is_near_end page total
    then numbered outside now manga_id (st.chapters chapter_id) st
    else (ok tt, st)
