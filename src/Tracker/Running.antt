-- ===== src/Tracker/Running.antt =====
-- About jobs marked as running between the passes of the worker (internal/tracker/sync.go).
use makidoku.Common.{
  ℕ, zero, suc, ◌≡◌, refl, sym, subst, inl, inr, String, Option, Bool, true, false, List, [], ◌∷◌,
  any, All, All-filter, Bool-cases, arith, if◌then◌else◌,
}
use makidoku.Common.Tables.{update_rows, All-update_rows}
use makidoku.Common.Result.{Result, ok, err}
use makidoku.Tracker.{
  TrackerSyncJob, Store, StoreError, has_id, is, running, is_spared, reset_job,
  prune_terminal_tracker_sync_jobs, reset_interrupted_tracker_sync,
}
use makidoku.Tracker.Worker.{
  Outside, process_one, round, rounds, run, sync_enabled, sync_job_history_limit,
}
use makidoku.Tracker.Drain.{IsSettled, IsRun, process_one-IsRun}

abbrev pub NoneRunning : List TrackerSyncJob → Type 0
NoneRunning = All (λ j. is running j ≡ false)

settled_is_still : (later : ℕ) (j : TrackerSyncJob) → IsSettled later j → is running j ≡ false
settled_is_still later j (inl e) = ground arith
settled_is_still later j (inr (inl e)) = ground arith
settled_is_still later j (inr (inr (e, least, most))) = ground arith

any-NoneRunning :
    (p : TrackerSyncJob → Bool) (js : List TrackerSyncJob)
    → All (λ j. p j ≡ false) js
    → any p js ≡ false
any-NoneRunning p [] h = refl
any-NoneRunning p (j ∷ js) (hj, h) = let rest = any-NoneRunning p js h in ground arith

run-NoneRunning :
    (now later : ℕ) (tracker : String) (st : Store) (r : Result StoreError Bool × Store)
    → IsRun now later tracker st r
    → NoneRunning st.jobs
    → NoneRunning r.1.jobs
run-NoneRunning now later tracker st (err e, new) h still = absurd h
run-NoneRunning now later tracker st (ok false, new) (e, quiet) still =
    subst (λ s. NoneRunning s.jobs) (sym e) still
run-NoneRunning now later tracker st (ok true, new) (j, first, f, jobs, counter, settled) still =
    subst (λ js. NoneRunning js) (sym jobs)
      (All-update_rows (has_id j.id) f st.jobs (λ x h e. settled_is_still later (f x) (settled x).0)
        (λ x h e. h) still)

tried-NoneRunning :
    (outside : Outside) (enabled : Bool) (now later : ℕ) (st : Store)
    → NoneRunning st.jobs
    → NoneRunning (if enabled then (process_one outside now later "" st).1 else st).jobs
tried-NoneRunning outside true now later st still =
    run-NoneRunning now later "" st (process_one outside now later "" st)
      (process_one-IsRun outside now later "" st) still
tried-NoneRunning outside false now later st still = still

round-NoneRunning :
    (outside : Outside) (enabled : Bool) (now later : ℕ) (st : Store)
    → NoneRunning st.jobs
    → NoneRunning (round outside enabled now later st).jobs
unfolding round prune_terminal_tracker_sync_jobs
round-NoneRunning outside enabled now later st still =
    let tried = if enabled then (process_one outside now later "" st).1 else st in
    All-filter (λ j. is running j ≡ false) (is_spared sync_job_history_limit tried.jobs) tried.jobs
      (tried-NoneRunning outside enabled now later st still)

rounds-NoneRunning :
    (outside : Outside) (settings : ℕ → Option (Result String Bool)) (now later : ℕ → ℕ) (k : ℕ)
    (st : Store)
    → NoneRunning st.jobs
    → NoneRunning (rounds outside settings now later k st).jobs
unfolding rounds
rounds-NoneRunning outside settings now later zero st still = still
rounds-NoneRunning outside settings now later (suc k) st still =
    round-NoneRunning outside (sync_enabled (settings k)) (now k) (later k)
      (rounds outside settings now later k st)
      (rounds-NoneRunning outside settings now later k st still)

reset-NoneRunning :
    (start : ℕ) (js : List TrackerSyncJob)
    → NoneRunning (update_rows (is running) (reset_job start) js)
reset-NoneRunning start [] = tt
reset-NoneRunning start (j ∷ js) = elim (Bool-cases (is running j)) [
  | inl e ↦ rw e (refl, reset-NoneRunning start js)
  | inr e ↦ rw e (e, reset-NoneRunning start js)
]

-- Whatever the tables held when the worker started, and whatever the trackers answer, no job is marked
-- as running after any number of its passes, as long as nothing else writes the jobs.
pub run-none_running :
    (outside : Outside) (settings : ℕ → Option (Result String Bool)) (start : ℕ) (now later : ℕ → ℕ)
    (k : ℕ) (st : Store)
    → any (is running) (run outside settings start now later k st).jobs ≡ false
unfolding run reset_interrupted_tracker_sync
run-none_running outside settings start now later k st =
    any-NoneRunning (is running) (run outside settings start now later k st).jobs (
      rounds-NoneRunning outside settings now later k (reset_interrupted_tracker_sync start st)
        (reset-NoneRunning start st.jobs))
