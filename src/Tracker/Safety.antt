-- ===== src/Tracker/Safety.antt =====
-- About the tables over any sequence of calls of the tracker methods and runs of the worker.
use makidoku.Common.{
  ℕ, ◌≡◌, refl, sym, ap, ◌∙◌, subst, String, Bool, true, false, Option, none, some, List, [], ◌∷◌,
  map, ◌||◌, inl, inr, Bool-cases,
}
use makidoku.Common.Int.{ℤ}
use makidoku.Common.Pairs.{map-update_rows}
use makidoku.Common.Result.{Result, ok, err, Result-cases}
use makidoku.Tracker.{
  TrackerSyncJob, TrackerBinding, Store, StoreError, has_id, is, running, is_spared, reset_job,
  enqueue_tracker_sync, prune_terminal_tracker_sync_jobs, reset_interrupted_tracker_sync,
}
use makidoku.Tracker.Keys.{
  key, IsKeyed, IsWellFormed, IsKept, same_keys-IsKeyed, filter-IsKeyed, enqueue-IsKept,
}
use makidoku.Tracker.Worker.{
  Outside, process_one, enqueue_all, enqueue_for_progress, numbered, is_reading, is_near_end,
  list_tracker_bindings,
}
use makidoku.Tracker.Drain.{IsRun, process_one-IsRun}

-- One call of a method, a run of the worker, or a report of reading progress.
pub data Step (outside : Outside) : Store → Store → Type 0 where
  enqueue :
      (now : ℕ) (m : String) (b : ℕ) (c : ℤ) {st new : Store} {job : TrackerSyncJob}
      → enqueue_tracker_sync now m b c st ≡ ok (job, new)
      → Step outside st new
  report :
      (now : ℕ) (m c : String) (is_completed : Bool) (page total : ℤ) {st : Store}
      → Step outside st (enqueue_for_progress outside now m c is_completed page total st).1
  work :
      (now later : ℕ) (tracker : String) {st : Store}
      → Step outside st (process_one outside now later tracker st).1
  prune : (limit : ℕ) {st : Store} → Step outside st (prune_terminal_tracker_sync_jobs limit st).1
  reset : (now : ℕ) {st : Store} → Step outside st (reset_interrupted_tracker_sync now st)

pub data Trace (outside : Outside) (st : Store) : Store → Type 0 where
  start : Trace outside st st
  next : {mid new : Store} → Trace outside st mid → Step outside mid new → Trace outside st new

run-IsWellFormed :
    (now later : ℕ) (tracker : String) (st : Store) (r : Result StoreError Bool × Store)
    → IsRun now later tracker st r
    → IsWellFormed st
    → IsWellFormed r.1
run-IsWellFormed now later tracker st (err e, new) h formed = absurd h
run-IsWellFormed now later tracker st (ok false, new) (e, quiet) formed =
    subst (λ s. IsWellFormed s) (sym e) formed
run-IsWellFormed now later tracker st (ok true, new) (j, first, f, jobs, counter, settled) formed =
    let keys = map-update_rows key (has_id j.id) f st.jobs (λ x. (settled x).1) in
    subst (λ n. IsKeyed n (map key new.jobs)) (sym counter)
      (same_keys-IsKeyed st.next_id st.jobs new.jobs (ap (λ js. map key js) jobs ∙ keys) formed)

module _ (outside : Outside) where
  enqueue_all-IsWellFormed :
      (now : ℕ) (m : String) (c : ℤ) (bs : List TrackerBinding) (st : Store)
      → IsWellFormed st
      → IsWellFormed (enqueue_all now m c bs st).1
  unfolding enqueue_all
  enqueue_all-IsWellFormed now m c [] st formed = formed
  enqueue_all-IsWellFormed now m c (b ∷ bs) st formed =
      elim (Result-cases (enqueue_tracker_sync now m b.id c st)) [
        | inl (e, q) ↦
            let stopped : (enqueue_all now m c (b ∷ bs) st).1 ≡ st = rw (enqueue_all, q) refl in
            subst (λ s. IsWellFormed s) (sym stopped) formed
        | inr ((job, new), q) ↦
            let kept = subst (λ r. IsKept r) q (enqueue-IsKept now m b.id c st formed) in
            let went_on : (enqueue_all now m c (b ∷ bs) st).1 ≡ (enqueue_all now m c bs new).1 =
              rw (enqueue_all, q) refl in
            subst (λ s. IsWellFormed s) (sym went_on) (enqueue_all-IsWellFormed now m c bs new kept)
      ]

  numbered-IsWellFormed :
      (now : ℕ) (m : String) (o : Option (Option ℤ)) (st : Store)
      → IsWellFormed st
      → IsWellFormed (numbered outside now m o st).1
  numbered-IsWellFormed now m none st formed = formed
  numbered-IsWellFormed now m (some none) st formed = formed
  numbered-IsWellFormed now m (some (some c)) st formed =
      enqueue_all-IsWellFormed now m c (list_tracker_bindings outside m st) st formed

  report-IsWellFormed :
      (now : ℕ) (m c : String) (is_completed : Bool) (page total : ℤ) (st : Store)
      → IsWellFormed st
      → IsWellFormed (enqueue_for_progress outside now m c is_completed page total st).1
  unfolding enqueue_for_progress
  report-IsWellFormed now m c is_completed page total st formed =
      elim (Bool-cases (is_reading page total)) [
        | inl e ↦ elim (Bool-cases (is_completed || is_near_end page total)) [
          | inl d ↦ rw (e, d) (numbered-IsWellFormed now m (st.chapters c) st formed)
          | inr d ↦ rw (e, d) formed
        ]
        | inr e ↦ rw e formed
      ]

  step-IsWellFormed : {st new : Store} → Step outside st new → IsWellFormed st → IsWellFormed new
  unfolding prune_terminal_tracker_sync_jobs reset_interrupted_tracker_sync
  step-IsWellFormed {st} {new} (enqueue now m b c returned) formed =
      subst (λ r. IsKept r) returned (enqueue-IsKept now m b c st formed)
  step-IsWellFormed {st} (report now m c is_completed page total) formed =
      report-IsWellFormed now m c is_completed page total st formed
  step-IsWellFormed {st} (work now later tracker) formed =
      run-IsWellFormed now later tracker st (process_one outside now later tracker st)
        (process_one-IsRun outside now later tracker st) formed
  step-IsWellFormed {st} (prune limit) formed =
      filter-IsKeyed st.next_id (is_spared limit st.jobs) st.jobs formed
  step-IsWellFormed {st} (reset now) formed =
      let keys = map-update_rows key (is running) (reset_job now) st.jobs (λ x. refl) in
      same_keys-IsKeyed st.next_id st.jobs _ keys formed

-- Any sequence of calls, of runs of the worker and of reports of progress keeps the jobs with distinct
-- ids below the counter, and with one job for a title, a binding and a chapter.
pub Trace-IsWellFormed :
    (outside : Outside) {st new : Store} → Trace outside st new → IsWellFormed st → IsWellFormed new
Trace-IsWellFormed outside start formed = formed
Trace-IsWellFormed outside (next before last) formed =
    step-IsWellFormed outside last (Trace-IsWellFormed outside before formed)
