-- ===== src/Examples/Tracker.antt =====
-- A tracker that answers with an overload and one that answers, and the jobs of a title on both, for
-- internal/tracker.
use makidoku.Common.{
  ℕ, ◌+◌, ◌≡◌, refl, String, true, false, none, some, [], ◌∷◌, str_eq, arith, if◌then◌else◌, filter,
  count_if, any, ◌≤◌, not,
}
use makidoku.Common.Int.{pos}
use makidoku.Common.Result.{ok, err}
use makidoku.Tracker.{
  SyncStatus, pending, running, completed, TrackerSyncJob, TrackerBinding, Store, is, is_due,
  is_terminal, enqueue_tracker_sync, prune_terminal_tracker_sync_jobs, retry_delay,
}
use makidoku.Tracker.Worker.{
  Outside, Failure, http_status, process_one, sync_enabled, rounds, run, enqueue_for_progress,
}
use makidoku.Tracker.Drain.{IsRun, process_one-IsRun}
use makidoku.Tracker.Backlog.{rounds-drain}
use makidoku.Tracker.Running.{run-none_running}
use makidoku.Tracker.History.{prune-bounds}
use makidoku.Tracker.Keys.{IsWellFormed}
use makidoku.Tracker.Safety.{start, next, report, work, Trace-IsWellFormed}

abbrev overload : Failure
overload = record { missing_credential = false; cause = http_status 503; text = "overloaded" }

abbrev trackers : Outside
trackers = record {
  known = λ t. true;
  credential = λ t. ok tt;
  update_tracking = λ b c. if str_eq b.tracker_type "kitsu" then err overload else ok tt;
  unknown_tracker = λ t. "unknown tracker";
  store_error_text = λ e. "storage";
  type_before = λ a b. str_eq a "anilist";
}

abbrev binding : ℕ → String → TrackerBinding
binding id t = record { id = id; manga_id = "m1"; tracker_type = t; last_synced_chapter = pos 0 }

abbrev job : ℕ → ℕ → SyncStatus → TrackerSyncJob
job id b s = record {
  id = id;
  manga_id = "m1";
  binding_id = b;
  chapter_number = pos 7;
  status = s;
  attempts = 0;
  next_attempt_at = 100 + id;
  error_message = none;
  created_at = 90;
  completed_at = none;
}

abbrev tables : Store
tables = record {
  jobs = job 0 1 completed ∷ job 1 2 pending ∷ [];
  next_id = 2;
  bindings = binding 1 "anilist" ∷ binding 2 "kitsu" ∷ [];
  manga = "m1" ∷ [];
  chapters = λ c. some (some (pos 8));
}

tables-IsWellFormed : IsWellFormed tables
tables-IsWellFormed =
    (((((λ e. omega arith), refl), tt), (tt, tt)), (omega arith, (omega arith, tt)))

process_one-IsRun_example : IsRun 120 130 "" tables (process_one trackers 120 130 "" tables)
process_one-IsRun_example = process_one-IsRun trackers 120 130 "" tables

put_off_row :
    (process_one trackers 120 130 "" tables).1.jobs
    ≡ job 0 1 completed
      ∷ record (job 1 2 pending) {
        attempts = 1;
        next_attempt_at = 132;
        error_message = some "overloaded";
      }
      ∷ []
unfolding process_one retry_delay
put_off_row = refl

rounds-drain_example :
    any (is_due 120) (rounds trackers (λ k. none) (λ k. 120 + k) (λ k. 121 + k) 1 tables).jobs
    ≡ false
unfolding sync_enabled
rounds-drain_example =
    rounds-drain trackers (λ k. none) (λ k. refl) 120 (λ k. 120 + k) (λ k. 121 + k)
      (λ k. omega arith) (λ k. omega arith) tables

run-none_running_example :
    any
      (is running)
      (run trackers (λ k. some (ok true)) 99 (λ k. 120 + k) (λ k. 121 + k) 3 tables).jobs
    ≡ false
run-none_running_example =
    run-none_running trackers (λ k. some (ok true)) 99 (λ k. 120 + k) (λ k. 121 + k) 3 tables

prune-bounds_example :
    (count_if is_terminal (prune_terminal_tracker_sync_jobs 0 tables).1.jobs ≤ 0)
    × (filter (λ j. not (is_terminal j)) (prune_terminal_tracker_sync_jobs 0 tables).1.jobs
        ≡ filter (λ j. not (is_terminal j)) tables.jobs)
prune-bounds_example = prune-bounds 0 tables tables-IsWellFormed

-- A chapter read to its last page, then a run of the worker.
abbrev reported : Store
reported = (enqueue_for_progress trackers 110 "m1" "c8" false (pos 18) (pos 20) tables).1

three_jobs : count_if (is_due 110) reported.jobs ≡ 3
unfolding enqueue_for_progress enqueue_tracker_sync
three_jobs = refl

Trace-IsWellFormed_example : IsWellFormed (process_one trackers 120 130 "kitsu" reported).1
Trace-IsWellFormed_example =
    Trace-IsWellFormed trackers
      (next (next start (report 110 "m1" "c8" false (pos 18) (pos 20))) (work 120 130 "kitsu"))
      tables-IsWellFormed
