-- ===== src/Tracker.antt =====
-- The queue of tracker updates: the tracker methods of internal/db/repository.go, as functions of the
-- tables, and the worker of internal/tracker/sync.go in Worker. A chapter number, a float64 of the
-- code, is its rank, as in MigrationJob. Times are Unix seconds.
pub mod Worker
pub mod Due
pub mod Drain
pub mod Backlog
pub mod Safety
pub mod Running
pub mod Keys
pub mod History
use makidoku.Common.{
  ℕ, zero, suc, ◌+◌, ◌^◌, String, Bool, true, false, not, ◌&&◌, ◌||◌, Option, none, some, List, [],
  ◌∷◌, ◌++◌, ltb, leb, ◌==◌, if◌then◌else◌, str_eq, any, filter, find?, count_if, take, min,
}
use makidoku.Common.Tables.{update_rows}
use makidoku.Common.Int.{ℤ, less, same}
use makidoku.Common.Result.{Result, ok, err, ◌>>=◌}

pub data SyncStatus : Type 0 where
  pending running failed completed : SyncStatus

pub record TrackerSyncJob : Type 0 where
  pub id : ℕ
  pub manga_id : String
  pub binding_id : ℕ
  pub chapter_number : ℤ
  pub status : SyncStatus
  pub attempts : ℕ
  pub next_attempt_at : ℕ
  pub error_message : Option String
  pub created_at : ℕ
  pub completed_at : Option ℕ

pub record TrackerBinding : Type 0 where
  pub id : ℕ
  pub manga_id : String
  pub tracker_type : String
  pub last_synced_chapter : ℤ

-- The tables; `manga` has the ids of the titles, `chapters` the number of a chapter by its id.
pub record Store : Type 0 where
  pub jobs : List TrackerSyncJob
  pub next_id : ℕ
  pub bindings : List TrackerBinding
  pub manga : List String
  pub chapters : String → Option (Option ℤ)

pub data StoreError : Type 0 where
  no_rows foreign_key : StoreError

abbrev pub is : SyncStatus → TrackerSyncJob → Bool
is s j = same_status s j.status
  where
    same_status : SyncStatus → SyncStatus → Bool
    same_status pending pending = true
    same_status running running = true
    same_status failed failed = true
    same_status completed completed = true
    same_status _ _ = false

abbrev pub has_id : ℕ → TrackerSyncJob → Bool
has_id id j = j.id == id

abbrev pub found {ℓ} : {A : Type ℓ} → Option A → Result StoreError A
found none = err no_rows
found (some a) = ok a

abbrev pub set_jobs : Store → List TrackerSyncJob → Store
set_jobs st jobs = record st { jobs = jobs }

abbrev pub update : ℕ → (TrackerSyncJob → TrackerSyncJob) → Store → Store
update id f st = set_jobs st (update_rows (has_id id) f st.jobs)

-- The key of ON CONFLICT.
abbrev pub has_key : String → ℕ → ℤ → TrackerSyncJob → Bool
has_key manga_id binding_id chapter j =
    str_eq j.manga_id manga_id && j.binding_id == binding_id && same j.chapter_number chapter

abbrev pub requeued : ℕ → TrackerSyncJob → TrackerSyncJob
requeued now j =
    if is completed j
    then j
    else record j { status = pending; next_attempt_at = now; error_message = none }

abbrev pub new_job : ℕ → String → ℕ → ℤ → ℕ → TrackerSyncJob
new_job id manga_id binding_id chapter now = record {
  id = id;
  manga_id = manga_id;
  binding_id = binding_id;
  chapter_number = chapter;
  status = pending;
  attempts = 0;
  next_attempt_at = now;
  error_message = none;
  created_at = now;
  completed_at = none;
}

abbrev pub upsert_job : ℕ → String → ℕ → ℤ → Store → Store
upsert_job now m b c st =
    if any (has_key m b c) st.jobs
    then record st {
      jobs = update_rows (has_key m b c) (requeued now) st.jobs;
      next_id = st.next_id + 1;
    }
    else record st { jobs = st.jobs ++ new_job st.next_id m b c now ∷ []; next_id = st.next_id + 1 }

abbrev pub with_store {ℓ} :
    {A : Type ℓ} → Store → Result StoreError A → Result StoreError (A × Store)
with_store st r = r >>= λ a. ok (a, st)

unfoldable pub enqueue_tracker_sync :
    ℕ → String → ℕ → ℤ → Store → Result StoreError (TrackerSyncJob × Store)
enqueue_tracker_sync now m b c st =
    if any (str_eq m) st.manga && any (λ x. x.id == b) st.bindings
    then with_store (upsert_job now m b c st)
        (found (find? (has_key m b c) (upsert_job now m b c st).jobs))
    else err foreign_key

abbrev pub binding_type : List TrackerBinding → ℕ → Option String
binding_type [] id = none
binding_type (b ∷ bs) id =
    let rest = binding_type bs id in if b.id == id then some b.tracker_type else rest

-- The join with tracker_bindings, only if a tracker is asked for.
abbrev pub for_tracker : String → Store → TrackerSyncJob → Bool
for_tracker tracker st j =
    if str_eq tracker ""
    then true
    else elim (binding_type st.bindings j.binding_id) [ none ↦ false | some t ↦ str_eq t tracker ]

abbrev pub is_due : ℕ → TrackerSyncJob → Bool
is_due now j = is pending j && leb j.next_attempt_at now

-- ORDER BY next_attempt_at, id
abbrev pub sooner : TrackerSyncJob → TrackerSyncJob → Bool
sooner a b =
    ltb a.next_attempt_at b.next_attempt_at
    || a.next_attempt_at == b.next_attempt_at && ltb a.id b.id

abbrev pub sooner_of : TrackerSyncJob → Option TrackerSyncJob → TrackerSyncJob
sooner_of j none = j
sooner_of j (some k) = if sooner k j then k else j

-- LIMIT 1
unfoldable pub first_due : (TrackerSyncJob → Bool) → List TrackerSyncJob → Option TrackerSyncJob
first_due p [] = none
first_due p (j ∷ js) = let rest = first_due p js in if p j then some (sooner_of j rest) else rest

abbrev pub started : TrackerSyncJob → TrackerSyncJob
started j = record j { status = running }

abbrev pub start_job :
    Store → Option TrackerSyncJob → Result StoreError (Option TrackerSyncJob × Store)
start_job st none = ok (none, st)
start_job st (some j) = do
  job ← found (find? (has_id j.id) (update j.id started st).jobs)
  ok (some job, update j.id started st)

unfoldable pub claim_tracker_sync :
    ℕ → String → Store → Result StoreError (Option TrackerSyncJob × Store)
unfolding first_due
claim_tracker_sync now tracker st =
    start_job st (first_due (λ j. is_due now j && for_tracker tracker st j) st.jobs)

abbrev pub done : ℕ → TrackerSyncJob → TrackerSyncJob
done now j = record j { status = completed; completed_at = some now; error_message = none }

unfoldable pub complete_tracker_sync : ℕ → ℕ → Store → Store
complete_tracker_sync now id = update id (done now)

abbrev pub given_up : String → TrackerSyncJob → TrackerSyncJob
given_up message j = record j {
  status = failed;
  attempts = j.attempts + 1;
  error_message = some message;
}

-- 1 << min(attempts, 5), in seconds.
unfoldable pub retry_delay : ℕ → ℕ
retry_delay attempts = 2 ^ min attempts 5

abbrev pub put_off : ℕ → ℕ → String → TrackerSyncJob → TrackerSyncJob
put_off attempts next message j = record j {
  status = pending;
  attempts = attempts;
  next_attempt_at = next;
  error_message = some message;
}

unfoldable pub fail_tracker_sync : ℕ → ℕ → Bool → String → Store → Result StoreError Store
unfolding retry_delay
fail_tracker_sync now id false message st = ok (update id (given_up message) st)
fail_tracker_sync now id true message st = do
  job ← found (find? (has_id id) st.jobs)
  ok (update id (put_off (job.attempts + 1) (now + retry_delay (job.attempts + 1)) message) st)

abbrev pub reset_job : ℕ → TrackerSyncJob → TrackerSyncJob
reset_job now j = record j { status = pending; next_attempt_at = now }

unfoldable pub reset_interrupted_tracker_sync : ℕ → Store → Store
reset_interrupted_tracker_sync now st =
    set_jobs st (update_rows (is running) (reset_job now) st.jobs)

abbrev pub is_terminal : TrackerSyncJob → Bool
is_terminal j = is completed j || is failed j

-- ORDER BY created_at DESC, id DESC
abbrev pub newer : TrackerSyncJob → TrackerSyncJob → Bool
newer a b = ltb b.created_at a.created_at || a.created_at == b.created_at && ltb b.id a.id

unfoldable pub insert : TrackerSyncJob → List TrackerSyncJob → List TrackerSyncJob
insert j [] = j ∷ []
insert j (k ∷ ks) = let rest = insert j ks in if newer k j then k ∷ rest else j ∷ k ∷ ks

unfoldable pub newest_first : List TrackerSyncJob → List TrackerSyncJob
unfolding insert
newest_first [] = []
newest_first (j ∷ js) = insert j (newest_first js)

-- The jobs that the DELETE spares.
abbrev pub recent : ℕ → List TrackerSyncJob → List TrackerSyncJob
recent limit jobs = take limit (newest_first (filter is_terminal jobs))

abbrev pub is_spared : ℕ → List TrackerSyncJob → TrackerSyncJob → Bool
is_spared limit jobs j = not (is_terminal j) || any (has_id j.id) (recent limit jobs)

-- The new tables and the number of removed rows.
unfoldable pub prune_terminal_tracker_sync_jobs : ℕ → Store → ℕ × Store
unfolding newest_first
prune_terminal_tracker_sync_jobs limit st = (
  count_if (λ j. not (is_spared limit st.jobs j)) st.jobs,
  set_jobs st (filter (is_spared limit st.jobs) st.jobs),
)

unfoldable pub list_tracker_sync_jobs : Store → List TrackerSyncJob
unfolding newest_first
list_tracker_sync_jobs st = newest_first st.jobs

abbrev pub raised : ℤ → TrackerBinding → TrackerBinding
raised chapter b = record b {
  last_synced_chapter =
      if less chapter b.last_synced_chapter then b.last_synced_chapter else chapter;
}

unfoldable pub update_tracker_synced_chapter : ℕ → ℤ → Store → Store
update_tracker_synced_chapter id chapter st = record st {
  bindings = update_rows (λ b. b.id == id) (raised chapter) st.bindings;
}
