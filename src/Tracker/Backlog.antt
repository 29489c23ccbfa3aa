-- ===== src/Tracker/Backlog.antt =====
-- About the loop of the worker of internal/tracker/sync.go over a backlog of due jobs.
use makidoku.Common.{
  String, Option, ℕ, zero, suc, ◌-◌, ◌≤◌, ◌≡◌, refl, ap, inl, inr, Bool, true, false, ◌&&◌, some,
  any, count_if, All-imp, Bool-cases, arith, ==_refl,
}
use makidoku.Common.Tables.{
  update_rows, any-All, count-update_rows, count-update_rows-lt, count-filter, count_if-none,
  any-false, count_if-zero,
}
use makidoku.Common.Result.{Result, ok, err}
use makidoku.Tracker.{
  TrackerSyncJob, Store, StoreError, has_id, is_due, is_spared, prune_terminal_tracker_sync_jobs,
}
use makidoku.Tracker.Worker.{
  Outside, process_one, round, rounds, sync_enabled, sync_job_history_limit,
}
use makidoku.Tracker.Due.{is_candidate, IsFirst}
use makidoku.Tracker.Drain.{IsSettled, IsRun, process_one-IsRun}

abbrev pub due_count : ℕ → Store → ℕ
due_count t st = count_if (is_due t) st.jobs

module _ (t : ℕ) where
  settled_is_later :
      (later : ℕ) (j : TrackerSyncJob) → t ≤ later → IsSettled later j → is_due t j ≡ false
  settled_is_later later j h (inl e) = ground arith
  settled_is_later later j h (inr (inl e)) = ground arith
  settled_is_later later j h (inr (inr (e, least, most))) = ground arith

  module _ (now later : ℕ) (past : t ≤ now) (past' : t ≤ later) (st : Store) where
    due_is_candidate : (x : TrackerSyncJob) → is_due t x ≡ true → is_candidate now "" st x ≡ true
    due_is_candidate x h = ground arith

    -- A job that a claim takes is due at `t` if any is.
    first_is_due :
        (j : TrackerSyncJob)
        → IsFirst (is_candidate now "" st) st.jobs (some j)
        → any (is_due t) st.jobs ≡ true
        → is_due t j ≡ true
    first_is_due j (passes, least, holds) some_due =
        let (x, x_due, order) = any-All (is_due t) st.jobs some_due least in
        let earlier = order (due_is_candidate x x_due) in ground arith

    ran-due_count :
        (j : TrackerSyncJob)
        → IsFirst (is_candidate now "" st) st.jobs (some j)
        → (f : TrackerSyncJob → TrackerSyncJob) → ((x : TrackerSyncJob) → is_due t (f x) ≡ false)
        → count_if (is_due t) (update_rows (has_id j.id) f st.jobs) ≤ due_count t st - 1
    ran-due_count j (passes, least, holds) f over = elim (Bool-cases (any (is_due t) st.jobs)) [
      | inl some_due ↦
          let due = first_is_due j (passes, least, holds) some_due in
          let one_id = ==_refl j.id in
          let fewer =
            count-update_rows-lt (is_due t) (has_id j.id) f st.jobs over
              (holds (λ x. has_id j.id x && is_due t x) (rw (one_id, due) refl)) in
          omega arith
      | inr none_due ↦
          let quiet = count_if-none (is_due t) st.jobs (any-false (is_due t) st.jobs none_due) in
          let most = count-update_rows (is_due t) (has_id j.id) f st.jobs over in omega arith
    ]

    run-due_count :
        (r : Result StoreError Bool × Store)
        → IsRun now later "" st r
        → due_count t r.1 ≤ due_count t st - 1
    run-due_count (err e, new) h = absurd h
    run-due_count (ok false, new) (e, none_due) =
        let quiet =
          count_if-none (is_due t) st.jobs
            (All-imp st.jobs (λ x c. let d = due_is_candidate x in ground arith) none_due) in
        let least = ap (λ s. due_count t s) e in omega arith
    run-due_count (ok true, new) (j, first, f, jobs, counter, settled) =
        rw (due_count, jobs)
          (ran-due_count j first f (λ x. settled_is_later later (f x) past' (settled x).0))

    round-due_count :
        (outside : Outside) → due_count t (round outside true now later st) ≤ due_count t st - 1
    unfolding round prune_terminal_tracker_sync_jobs
    round-due_count outside =
        let run =
          run-due_count (process_one outside now later "" st)
            (process_one-IsRun outside now later "" st) in
        let pruned =
          count-filter (is_due t)
            (is_spared sync_job_history_limit (process_one outside now later "" st).1.jobs)
            (process_one outside now later "" st).1.jobs in
        omega arith

  rounds-due_count :
      (outside : Outside) (settings : ℕ → Option (Result String Bool))
      (on : (k : ℕ) → sync_enabled (settings k) ≡ true) (now later : ℕ → ℕ)
      (past : (k : ℕ) → t ≤ now k) (past' : (k : ℕ) → t ≤ later k) (k : ℕ) (st : Store)
      → due_count t (rounds outside settings now later k st) ≤ due_count t st - k
  unfolding rounds
  rounds-due_count outside settings on now later past past' zero st = omega arith
  rounds-due_count outside settings on now later past past' (suc k) st =
      let before = rounds-due_count outside settings on now later past past' k st in
      let last =
        round-due_count (now k) (later k) (past k) (past' k)
          (rounds outside settings now later k st) outside in
      rw (on k) (omega arith)

-- With the synchronisation on in every pass, and every claim and every outcome at or after a time, the loop has no
-- job left that is due at that time after as many passes as there were such jobs, whatever the
-- trackers answer and whatever becomes due meanwhile.
pub rounds-drain :
    (outside : Outside) (settings : ℕ → Option (Result String Bool))
    (on : (k : ℕ) → sync_enabled (settings k) ≡ true) (t : ℕ) (now later : ℕ → ℕ)
    (past : (k : ℕ) → t ≤ now k) (past' : (k : ℕ) → t ≤ later k) (st : Store)
    → any (is_due t) (rounds outside settings now later (due_count t st) st).jobs ≡ false
rounds-drain outside settings on t now later past past' st =
    count_if-zero (is_due t) (rounds outside settings now later (due_count t st) st).jobs (
      omega
        (arith, rounds-due_count t outside settings on now later past past' (due_count t st) st))
