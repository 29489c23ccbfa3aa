-- ===== src/MigrationJob/Life/Delivery.antt =====
-- About the frames that reach the listeners of a job (internal/api/migration_jobs.go).
use makidoku.Common.{
  ℕ, ◌+◌, ◌<◌, ◌≡◌, refl, ap, String, true, false, none, List, [], ◌∷◌, ◌++◌, length, map, count_if,
  if◌then◌else◌, All, All-map, arith, lt→ltb,
}
use makidoku.MigrationJob.{Manga, TitleEvent, Spec}
use makidoku.MigrationJob.Terminal.{is_searching}
use makidoku.MigrationJob.Life.{
  Title, Job, Frame, Subscriber, snapshot, title_frame, complete_frame, capacity, send, modify,
  settle, named, subscribe, finish, complete,
}
use makidoku.MigrationJob.Life.Steps.{is_over, Life}
use makidoku.MigrationJob.Life.Shape.{AtMost, count-length, length-modify}
use makidoku.MigrationJob.Life.Sound.{HasEnded, IsOver, IsSound}
use makidoku.MigrationJob.Life.Invariant.{Life-IsSound}

-- The specification: a channel without a bound, which gets every frame.
abbrev pub deliver : Frame → Subscriber → Subscriber
deliver frame s = record s { channel = s.channel ++ frame ∷ [] }

abbrev pub finish_unbounded : ℕ → Manga → TitleEvent → Job → Job
finish_unbounded i m e j = record j {
  titles = modify i (settle (named m e)) j.titles;
  subscribers = map (deliver (title_frame (named m e))) j.subscribers;
}

abbrev pub complete_unbounded : ℕ → Job → Job
complete_unbounded now j = if j.closed then j else record j {
  closed = true;
  closed_at = now;
  subscribers = [];
  ended = map (deliver complete_frame) j.subscribers;
}

send-deliver :
    (cap : ℕ) (frame : Frame) (n : ℕ) (ss : List Subscriber)
    → n < cap
    → AtMost n ss
    → map (send cap frame) ss ≡ map (deliver frame) ss
send-deliver cap frame n [] room h = refl
send-deliver cap frame n (s ∷ ss) room (hs, h) =
    let fits = lt→ltb (length s.channel) cap (omega arith) in
    rw (fits, send-deliver cap frame n ss room h) refl

module _ (j : Job) (sound : IsSound j) where
  sent :
      (cap : ℕ) (frame : Frame)
      → length j.titles < cap
      → map (send cap frame) j.subscribers ≡ map (deliver frame) j.subscribers
  sent cap frame room =
      send-deliver cap frame (count_if is_over j.titles) j.subscribers
        (omega (arith, count-length is_over j.titles)) sound.buffers

  finish-unbounded :
      (i : ℕ) (m : Manga) (e : TitleEvent) → finish i m e j ≡ finish_unbounded i m e j
  unfolding finish
  finish-unbounded i m e =
      let f = settle (named m e) in
      ap (λ ss. record j { titles = modify i f j.titles; subscribers = ss })
        (sent (length (modify i f j.titles) + 16) (title_frame (named m e))
          (omega (arith, length-modify f i j.titles)))

  complete-unbounded : (now : ℕ) → complete now j ≡ complete_unbounded now j
  unfolding complete
  complete-unbounded now =
      ap
        (λ ss.
          if j.closed
          then j
          else record j { closed = true; closed_at = now; subscribers = []; ended = ss })
        (sent (capacity j) complete_frame (omega arith))

-- In every state of a job its buffers have room: the results of a title and the end of the job reach
-- every listener, as over channels without a bound.
pub finish-complete-unbounded :
    (id : String) (spec : Spec) {j : Job}
    → Life id spec j
    → ((i : ℕ) (m : Manga) (e : TitleEvent) → finish i m e j ≡ finish_unbounded i m e j)
      × ((now : ℕ) → complete now j ≡ complete_unbounded now j)
finish-complete-unbounded id spec {j} life =
    let sound = Life-IsSound id spec life in (finish-unbounded j sound, complete-unbounded j sound)

both :
    (ts : List Title)
    → All HasEnded ts
    → All IsOver ts
    → All (λ t. is_searching t.state.status ≡ false) ts
both [] h k = tt
both (t ∷ ts) (ht, h) (kt, k) = (ht kt, both ts h k)

-- A listener that joins a job that ran to its end gets a snapshot marked as done, in which no title
-- is searching, and a closed channel.
pub subscribe-closed :
    (id : String) (spec : Spec) {j : Job}
    → Life id spec j
    → j.started ≡ true
    → j.closed ≡ true
    → (subscribe j ≡ (snapshot true (map (λ t. t.state) j.titles), none, j))
      × All (λ e. is_searching e.status ≡ false) (map (λ t. t.state) j.titles)
unfolding subscribe
subscribe-closed id spec {j} life ran closed =
    let sound = Life-IsSound id spec life in
    (
      (rw closed refl),
      All-map (λ e. is_searching e.status ≡ false) (λ t. t.state) j.titles
          (both j.titles sound.with_results (sound.all_over ran closed)),
    )
