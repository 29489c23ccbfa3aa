-- ===== src/MigrationJob/Life/Steps.antt =====
-- What may happen to a job, one event at a time (internal/api/migration_jobs.go), under its mutex.
use makidoku.Common.{ℕ, ◌<◌, ◌≡◌, String, Bool, true, false, some, count_if, get_elem?, All}
use makidoku.MigrationJob.{Spec, canceled_title}
use makidoku.MigrationJob.Search.{Host, search_title}
use makidoku.MigrationJob.Life.{
  Phase, idle, busy, over, Title, Job, new_job, migration_title_concurrency, subscribe, unsubscribe,
  receive, cancel_all, cancel_title, begin, finish, complete,
}

abbrev pub is_busy : Title → Bool
is_busy t = busy_phase t.phase
  where
    busy_phase : Phase → Bool
    busy_phase (busy early) = true
    busy_phase _ = false

abbrev pub is_over : Title → Bool
is_over t = over_phase t.phase
  where
    over_phase : Phase → Bool
    over_phase over = true
    over_phase _ = false

-- The worker at a place, in a phase.
abbrev pub IsAt : Job → ℕ → Title → Phase → Type 0
IsAt j i t p = (get_elem? j.titles i ≡ some t) × (t.phase ≡ p)

-- The steps of `run` and its workers.
pub data Work (j : Job) : Job → Type 0 where
  begins :
      (i : ℕ) {t : Title}
      → j.started ≡ true
      → IsAt j i t idle
      → count_if is_busy j.titles < migration_title_concurrency
      → Work j (begin i j)
  gives_up :
      (i : ℕ) {t : Title}
      → j.started ≡ true
      → IsAt j i t idle
      → j.canceled ≡ true
      → Work j (finish i t.manga (canceled_title t.manga) j)
  -- The sources answer as `host` says; a context that was cancelled before stays so.
  returns :
      (i : ℕ) {t : Title} (early : Bool) (host : Host)
      → j.started ≡ true
      → IsAt j i t (busy early)
      → (early ≡ true → (n : ℕ) → host.stopped n ≡ true)
      → Work j (finish i t.manga (search_title host j.spec t.manga) j)
  completes :
      (now : ℕ) → j.started ≡ true → All (λ t. is_over t ≡ true) j.titles → Work j (complete now j)

-- Those, and what listeners, clients and the end of the daemon do.
pub data Step (j : Job) : Job → Type 0 where
  works : {new : Job} → Work j new → Step j new
  subscribes : Step j (subscribe j).2
  unsubscribes : (id : ℕ) → Step j (unsubscribe id j)
  receives : (id : ℕ) → Step j (receive id j)
  cancels_all : (now : ℕ) → Step j (cancel_all now j)
  cancels_title : (id : String) → Step j (cancel_title id j).1
  shuts_down : Step j (record j { canceled = true })

-- What may become of a job that the manager made.
pub data Life (id : String) (spec : Spec) : Job → Type 0 where
  made : Life id spec (new_job id spec)
  next : {j new : Job} → Life id spec j → Step j new → Life id spec new
