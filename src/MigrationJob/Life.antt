-- ===== src/MigrationJob/Life.antt =====
-- The life of one job (internal/api/migration_jobs.go): its listeners, its workers, cancellation and
-- the end. The ids of the titles are distinct, a primary key, so the map and the order of the code are
-- one list here, and a worker is the place of its title.
pub mod Steps
pub mod Shape
pub mod Sound
pub mod Invariant
pub mod Delivery
pub mod Progress
use makidoku.Common.{
  ℕ, zero, suc, ◌+◌, ◌-◌, String, Bool, true, false, not, ◌&&◌, ◌||◌, Option, none, some, List, [],
  ◌∷◌, ◌++◌, length, ltb, ◌==◌, is_empty, if◌then◌else◌, str_eq, any, filter, find?, map, drop,
}
use makidoku.Common.Tables.{update_rows}
use makidoku.MigrationJob.{
  TitleStatus, searching, Manga, TitleEvent, Spec, unmatched, canceled_title,
}

-- A worker waits for its turn, searches, or is over. It is `busy true` if the context of its title
-- was cancelled before the search.
pub data Phase : Type 0 where
  idle over : Phase
  busy : Bool → Phase

pub record Title : Type 0 where
  pub manga : Manga
  pub state : TitleEvent
  pub cancel_requested : Bool
  pub phase : Phase

pub data Frame : Type 0 where
  snapshot : Bool → List TitleEvent → Frame
  title_frame : TitleEvent → Frame
  complete_frame : Frame

-- The frames in the buffer of a channel.
pub record Subscriber : Type 0 where
  pub id : ℕ
  pub channel : List Frame

-- `ended` has the channels that the end of the job closed.
pub record Job : Type 0 where
  pub id : String
  pub spec : Spec
  pub titles : List Title
  pub subscribers : List Subscriber
  pub ended : List Subscriber
  pub next_sub : ℕ
  pub started : Bool
  pub closed : Bool
  pub closed_at : ℕ
  pub canceled : Bool

abbrev pub migration_title_concurrency : ℕ
migration_title_concurrency = 4

abbrev pub new_title : Manga → Title
new_title m = record {
  manga = m;
  state = unmatched searching none m;
  cancel_requested = false;
  phase = idle;
}

-- The job that the manager makes.
abbrev pub new_job : String → Spec → Job
new_job id spec = record {
  id = id;
  spec = spec;
  titles = map new_title spec.titles;
  subscribers = [];
  ended = [];
  next_sub = 0;
  started = false;
  closed = false;
  closed_at = 0;
  canceled = false;
}

abbrev pub capacity : Job → ℕ
capacity j = length j.titles + 16

-- A send that does not block: a full channel drops the frame.
abbrev pub send : ℕ → Frame → Subscriber → Subscriber
send cap frame s = record s {
  channel = if ltb (length s.channel) cap then s.channel ++ frame ∷ [] else s.channel;
}

unfoldable pub publish : Frame → Job → Job
publish frame j = record j { subscribers = map (send (capacity j) frame) j.subscribers }

abbrev pub snapshot_of : Job → Frame
snapshot_of j = snapshot j.closed (map (λ t. t.state) j.titles)

abbrev pub added : Job → Job
added j = record j {
  started = true;
  subscribers = j.subscribers ++ record { id = j.next_sub; channel = [] } ∷ [];
  next_sub = j.next_sub + 1;
}

-- The snapshot, the id to unsubscribe with (a closed channel has none), and the job.
unfoldable pub subscribe : Job → Frame × Option ℕ × Job
subscribe j =
    if j.closed then (snapshot_of j, none, j) else (snapshot_of j, some j.next_sub, added j)

unfoldable pub unsubscribe : ℕ → Job → Job
unsubscribe id j =
    let rest = filter (λ s. not (s.id == id)) j.subscribers in
    record j {
      subscribers = rest;
      canceled = j.canceled || is_empty rest && j.started && not j.closed;
    }

-- A listener takes the first frame of its channel.
unfoldable pub receive : ℕ → Job → Job
receive id j = record j {
  subscribers =
      update_rows (λ s. s.id == id) (λ s. record s { channel = drop 1 s.channel }) j.subscribers;
}

unfoldable pub cancel_all : ℕ → Job → Job
cancel_all now j =
    if not j.started
    then record j { closed = true; closed_at = now }
    else record j { canceled = true }

abbrev pub is_title : String → Title → Bool
is_title id t = str_eq t.manga.id id

unfoldable pub cancel_title : String → Job → Bool × Job
cancel_title id j = (
  any (is_title id) j.titles,
  record j {
    titles = update_rows (is_title id) (λ t. record t { cancel_requested = true }) j.titles;
  },
)

abbrev pub modify : ℕ → (Title → Title) → List Title → List Title
modify i f [] = []
modify zero f (t ∷ ts) = f t ∷ ts
modify (suc i) f (t ∷ ts) = t ∷ modify i f ts

-- The worker has its place under the semaphore.
unfoldable pub begin : ℕ → Job → Job
begin i j = record j {
  titles = modify i (λ t. record t { phase = busy (t.cancel_requested || j.canceled) }) j.titles;
}

abbrev pub settle : TitleEvent → Title → Title
settle e t = record t { state = e; phase = over }

abbrev pub named : Manga → TitleEvent → TitleEvent
named m e = record e {
  manga_id = if str_eq e.manga_id "" then m.id else e.manga_id;
  title = if is_empty e.title then m.title else e.title;
}

unfoldable pub finish : ℕ → Manga → TitleEvent → Job → Job
unfolding publish
finish i m e j =
    publish (title_frame (named m e)) (record j { titles = modify i (settle (named m e)) j.titles })

unfoldable pub complete : ℕ → Job → Job
complete now j = if j.closed then j else record j {
  closed = true;
  closed_at = now;
  subscribers = [];
  ended = map (send (capacity j) complete_frame) j.subscribers;
}

abbrev pub migration_job_retention : ℕ
migration_job_retention = 600

unfoldable pub expired : ℕ → Job → Bool
expired now j = j.closed && ltb migration_job_retention (now - j.closed_at)

-- The manager: its jobs, by id. A new id is random.
unfoldable pub start : ℕ → String → Spec → List Job → Job × List Job
unfolding expired
start now id spec jobs = (new_job id spec, new_job id spec ∷ filter (λ j. not (expired now j)) jobs)

unfoldable pub get : String → List Job → Option Job
get id = find? (λ j. str_eq j.id id)
