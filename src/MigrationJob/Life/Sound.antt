-- ===== src/MigrationJob/Life/Sound.antt =====
-- About the invariant of a job under the steps of its workers (internal/api/migration_jobs.go).
use makidoku.Common.{
  ℕ, ◌+◌, ◌≤◌, ◌<◌, ◌≡◌, refl, ap, Bool, true, false, ◌||◌, some, [], length, map, count_if,
  get_elem?, if◌then◌else◌, All, arith,
}
use makidoku.MigrationJob.{Manga, TitleEvent}
use makidoku.MigrationJob.Terminal.{is_searching}
use makidoku.MigrationJob.Life.{
  idle, busy, Title, Job, title_frame, complete_frame, send, migration_title_concurrency, capacity,
  modify, settle, named, begin, finish, complete,
}
use makidoku.MigrationJob.Life.Steps.{is_busy, is_over}
use makidoku.MigrationJob.Life.Shape.{count-modify, All-modify, All-get_elem?, AtMost, AtMost-send}

abbrev pub HasEnded : Title → Type 0
HasEnded t = is_over t ≡ true → is_searching t.state.status ≡ false

abbrev pub IsOver : Title → Type 0
IsOver t = is_over t ≡ true

-- At most four workers search; a title whose worker is over has its result; a job that ran and is
-- closed has no other; no buffer holds more frames than there are results.
pub record IsSound (j : Job) : Type 0 where
  pub few_busy : count_if is_busy j.titles ≤ migration_title_concurrency
  pub with_results : All HasEnded j.titles
  pub all_over : j.started ≡ true → j.closed ≡ true → All IsOver j.titles
  pub buffers : AtMost (count_if is_over j.titles) j.subscribers

module _ (j : Job) (sound : IsSound j) where
  pub finish-IsSound :
      (i : ℕ) (t : Title) (m : Manga) (e : TitleEvent)
      → get_elem? j.titles i ≡ some t
      → is_over t ≡ false
      → is_searching e.status ≡ false
      → IsSound (finish i m e j)
  unfolding finish
  finish-IsSound i t m e at running ended =
      let f = settle (named m e) in
      let busy_count = count-modify is_busy f i j.titles at in
      let over_count = count-modify is_over f i j.titles at in
      let few = sound.few_busy in
      let one_more : count_if is_over (modify i f j.titles) ≡ count_if is_over j.titles + 1 =
        ground arith in
      record {
        few_busy = omega arith;
        with_results = All-modify HasEnded f i j.titles (λ x h o. ended) sound.with_results;
        all_over = λ s c. All-modify IsOver f i j.titles (λ x h. refl) (sound.all_over s c);
        buffers = rw one_more (
            AtMost-send (length (modify i f j.titles) + 16) (title_frame (named m e))
              (count_if is_over j.titles) j.subscribers sound.buffers);
      }

  pub begin-IsSound :
      (i : ℕ) (t : Title)
      → get_elem? j.titles i ≡ some t
      → t.phase ≡ idle
      → count_if is_busy j.titles < migration_title_concurrency
      → IsSound (begin i j)
  unfolding begin
  begin-IsSound i t at waits few =
      let f = λ (x : Title). record x { phase = busy (x.cancel_requested || j.canceled) } in
      let not_busy : is_busy t ≡ false = ap (λ p. is_busy (record t { phase = p })) waits in
      let not_over : is_over t ≡ false = ap (λ p. is_over (record t { phase = p })) waits in
      let busy_count = count-modify is_busy f i j.titles at in
      let over_count = count-modify is_over f i j.titles at in
      let same_over : count_if is_over (modify i f j.titles) ≡ count_if is_over j.titles =
        ground arith in
      record {
        few_busy = ground arith;
        with_results = All-modify HasEnded f i j.titles (λ x h o. absurd cc) sound.with_results;
        all_over =
            λ s c. let is_it = All-get_elem? IsOver i j.titles (sound.all_over s c) at in absurd cc;
        buffers = rw same_over sound.buffers;
      }

  pub complete-IsSound : (now : ℕ) → All IsOver j.titles → IsSound (complete now j)
  unfolding complete
  complete-IsSound now all_done = closing j.closed
    where
      closing :
          (b : Bool)
          → IsSound (
              if b then j else record j {
                closed = true;
                closed_at = now;
                subscribers = [];
                ended = map (send (capacity j) complete_frame) j.subscribers;
              })
      closing true = sound
      closing false = record {
        few_busy = sound.few_busy;
        with_results = sound.with_results;
        all_over = λ s c. all_done;
        buffers = tt;
      }
