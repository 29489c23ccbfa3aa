-- ===== src/Tracker/Drain.antt =====
-- About what one run of the worker of internal/tracker/sync.go leaves, and many runs.
use makidoku.Common.{
  ℕ, zero, suc, ◌+◌, ◌≤◌, ◌≡◌, refl, sym, ap, ◌∙◌, ◌⊎◌, inl, inr, String, Bool, true, false, not,
  ◌&&◌, Option, none, some, if◌then◌else◌, find?, All, arith, min,
}
use makidoku.Common.Tables.{update_rows, update_rows-update_rows}
use makidoku.Common.Result.{Result, ok, err}
use makidoku.Tracker.{
  TrackerBinding, StoreError, TrackerSyncJob, Store, has_id, is, pending, completed, failed,
  started, update, retry_delay, fail_tracker_sync, claim_tracker_sync, complete_tracker_sync,
  update_tracker_synced_chapter, given_up, put_off, done,
}
use makidoku.Tracker.Keys.{key}
use makidoku.Tracker.Worker.{
  Failure, answered, authorized, bound, claimed, Outside, fail_job, work_on, process_one,
  retryable_tracker_error, get_tracker_binding_by_id,
}
use makidoku.Tracker.Due.{IsFirst, is_candidate, IsClaim, claim_tracker_sync-IsClaim}

-- A retry waits at least 2 and at most 32 seconds.
pub retry_delay-bounds : (n : ℕ) → (2 ≤ retry_delay (n + 1)) × (retry_delay (n + 1) ≤ 32)
unfolding retry_delay
retry_delay-bounds zero = (omega arith, omega arith)
retry_delay-bounds (suc zero) = (omega arith, omega arith)
retry_delay-bounds (suc (suc zero)) = (omega arith, omega arith)
retry_delay-bounds (suc (suc (suc zero))) = (omega arith, omega arith)
retry_delay-bounds (suc (suc (suc (suc n)))) =
    let capped : min (suc (suc (suc (suc n))) + 1) 5 ≡ 5 = omega arith in
    rw capped (omega arith, omega arith)

-- Done, given up, or put off to a time that the delay gives.
abbrev pub IsSettled : ℕ → TrackerSyncJob → Type 0
IsSettled later j =
    (is completed j ≡ true)
    ⊎ (is failed j ≡ true)
    ⊎ (is pending j ≡ true) × (later + 2 ≤ j.next_attempt_at) × (j.next_attempt_at ≤ later + 32)

module _ (outside : Outside) (later : ℕ) (job : TrackerSyncJob) (st : Store) where
  abbrev IsOutcome : Store → Type 0
  IsOutcome new =
      (f : TrackerSyncJob → TrackerSyncJob) × (new.jobs ≡ update_rows (has_id job.id) f st.jobs)
      × (new.next_id ≡ st.next_id)
      × ((x : TrackerSyncJob) → IsSettled later (f x) × (key (f x) ≡ key x))

  fail-IsOutcome :
      (retry : Bool) (message : String) (row : TrackerSyncJob)
      → find? (has_id job.id) st.jobs ≡ some row
      → IsOutcome (fail_job later job.id retry message st)
  unfolding fail_job
  fail-IsOutcome false message row held =
      (given_up message, refl, refl, λ x. (inr (inl refl), refl))
  fail-IsOutcome true message row held =
      let (least, most) = retry_delay-bounds row.attempts in
      let f = put_off (row.attempts + 1) (later + retry_delay (row.attempts + 1)) message in
      let run : fail_tracker_sync later job.id true message st ≡ ok (update job.id f st) =
        rw held refl in
      (f, rw run refl, rw run refl, λ x. (inr (inr (refl, omega arith, omega arith)), refl))

  module _ (row : TrackerSyncJob) (held : find? (has_id job.id) st.jobs ≡ some row) where
    answered-IsOutcome :
        (b : TrackerBinding) (r : Result Failure (Unit {0}))
        → IsOutcome (answered outside later job b st r)
    unfolding complete_tracker_sync update_tracker_synced_chapter
    answered-IsOutcome b (err e) = fail-IsOutcome (retryable_tracker_error e.cause) e.text row held
    answered-IsOutcome b (ok u) = (done later, refl, refl, λ x. (inl refl, refl))

    authorized-IsOutcome :
        (b : TrackerBinding) (r : Result Failure (Unit {0}))
        → IsOutcome (authorized outside later job b st r)
    authorized-IsOutcome b (err e) =
        fail-IsOutcome (not e.missing_credential && retryable_tracker_error e.cause) e.text row held
    authorized-IsOutcome b (ok u) =
        answered-IsOutcome b (outside.update_tracking b job.chapter_number)

    known-IsOutcome :
        (b : TrackerBinding) (known : Bool)
        → IsOutcome (
            if known
            then authorized outside later job b st (outside.credential b.tracker_type)
            else fail_job later job.id false (outside.unknown_tracker b.tracker_type) st)
    known-IsOutcome b true = authorized-IsOutcome b (outside.credential b.tracker_type)
    known-IsOutcome b false = fail-IsOutcome false (outside.unknown_tracker b.tracker_type) row held

    bound-IsOutcome :
        (r : Result StoreError TrackerBinding) → IsOutcome (bound outside later job st r)
    bound-IsOutcome (err e) = fail-IsOutcome false (outside.store_error_text e) row held
    bound-IsOutcome (ok b) = known-IsOutcome b (outside.known b.tracker_type)

    pub work_on-IsOutcome : IsOutcome (work_on outside later job st)
    unfolding work_on
    work_on-IsOutcome = bound-IsOutcome (get_tracker_binding_by_id job.binding_id st)

module _ (now later : ℕ) (tracker : String) (st : Store) where
  -- Either no job of the tracker is due and nothing changed, or the job that has been due longest
  -- is the only one that changed, and it is settled.
  abbrev pub IsRun : Result StoreError Bool × Store → Type 0
  IsRun (err e, new) = ⊥
  IsRun (ok false, new) = (new ≡ st) × All (λ x. is_candidate now tracker st x ≡ false) st.jobs
  IsRun (ok true, new) =
      (j : TrackerSyncJob) × IsFirst (is_candidate now tracker st) st.jobs (some j)
      × (f : TrackerSyncJob → TrackerSyncJob) × (new.jobs ≡ update_rows (has_id j.id) f st.jobs)
      × (new.next_id ≡ st.next_id)
      × ((x : TrackerSyncJob) → IsSettled later (f x) × (key (f x) ≡ key x))

  claimed-IsRun :
      (outside : Outside) (r : Result StoreError (Option TrackerSyncJob × Store))
      → IsClaim now tracker st r
      → IsRun (claimed outside later st r)
  claimed-IsRun outside (err e) h = absurd h
  claimed-IsRun outside (ok (none, new)) h = h
  claimed-IsRun outside (ok (some job, new)) (j, first, one_id, start, held) =
      let (f, jobs, counter, settled) = work_on-IsOutcome outside later job new job held in
      let fused = update_rows-update_rows (has_id job.id) f started st.jobs (λ x. refl) in
      let once : (work_on outside later job new).jobs
          ≡ update_rows (has_id job.id) (λ x. f (started x)) st.jobs =
        jobs ∙ ap (λ s. update_rows (has_id job.id) f s.jobs) start ∙ fused in
      (
        j,
        first,
        (λ x. f (started x)),
        once ∙ ap (λ i. update_rows (has_id i) (λ x. f (started x)) st.jobs) (sym one_id),
        counter ∙ ap (λ s. s.next_id) start,
        λ x. settled (started x),
      )

-- A run of the worker never fails. If no job of the tracker is due, it changes nothing; otherwise it
-- takes the job that has been due longest, changes no other, and leaves it, with its key, completed, failed, or
-- pending again for a time 2 to 32 seconds after the outcome.
pub process_one-IsRun :
    (outside : Outside) (now later : ℕ) (tracker : String) (st : Store)
    → IsRun now later tracker st (process_one outside now later tracker st)
unfolding process_one
process_one-IsRun outside now later tracker st =
    claimed-IsRun now later tracker st outside (claim_tracker_sync now tracker st)
      (claim_tracker_sync-IsClaim now tracker st)
