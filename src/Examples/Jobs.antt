-- ===== src/Examples/Jobs.antt =====
-- A job of one title with one listener, for internal/api/migration_jobs.go.
use makidoku.Common.{ℕ, ◌<◌, ◌≡◌, refl, Bool, true, false, none, [], ◌∷◌, All, map, arith}
use makidoku.MigrationJob.{Manga, TitleEvent, Spec}
use makidoku.MigrationJob.Search.{Host, search_title}
use makidoku.MigrationJob.Terminal.{is_searching}
use makidoku.MigrationJob.Life.{Job, snapshot, new_job, subscribe, begin, finish, complete}
use makidoku.MigrationJob.Life.Steps.{
  Work, begins, returns, completes, works, subscribes, Life, made, next,
}
use makidoku.MigrationJob.Life.Sound.{IsSound}
use makidoku.MigrationJob.Life.Invariant.{Life-IsSound}
use makidoku.MigrationJob.Life.Delivery.{
  finish_unbounded, complete_unbounded, finish-complete-unbounded, subscribe-closed,
}
use makidoku.MigrationJob.Life.Progress.{remaining, Work-ends}
use makidoku.Examples.Migration.{title, sources, spec_for, up}

abbrev spec : Spec
spec = spec_for false (up ∷ [])

abbrev joined : Job
joined = (subscribe (new_job "j" spec)).2

joined-Life : Life "j" spec joined
joined-Life = next made subscribes

abbrev begun : Job
begun = begin 0 joined

begun-Life : Life "j" spec begun
unfolding subscribe
begun-Life = next joined-Life (works (begins 0 refl (refl, refl) (omega arith)))

abbrev searched : Job
searched = finish 0 title (search_title sources spec title) begun

searched-Life : Life "j" spec searched
unfolding subscribe begin
searched-Life = next begun-Life (works (returns 0 false sources refl (refl, refl) (λ e. absurd cc)))

abbrev closed_job : Job
closed_job = complete 7 searched

closed-Life : Life "j" spec closed_job
unfolding subscribe begin finish
closed-Life = next searched-Life (works (completes 7 refl (refl, tt)))

Life-IsSound_example : IsSound closed_job
Life-IsSound_example = Life-IsSound "j" spec closed-Life

finish-complete-unbounded_example :
    ((i : ℕ) (m : Manga) (e : TitleEvent) → finish i m e begun ≡ finish_unbounded i m e begun)
    × ((now : ℕ) → complete now begun ≡ complete_unbounded now begun)
finish-complete-unbounded_example = finish-complete-unbounded "j" spec begun-Life

ran : closed_job.started ≡ true
unfolding subscribe begin finish complete
ran = refl

has_closed : closed_job.closed ≡ true
unfolding subscribe begin finish complete
has_closed = refl

subscribe-closed_example :
    (subscribe closed_job
      ≡ (snapshot true (map (λ t. t.state) closed_job.titles), none, closed_job))
    × All (λ e. is_searching e.status ≡ false) (map (λ t. t.state) closed_job.titles)
subscribe-closed_example = subscribe-closed "j" spec closed-Life ran has_closed

abbrev at_rest : Bool → Host
at_rest early = record sources { stopped = λ n. early }

begun_started : begun.started ≡ true
unfolding subscribe begin
begun_started = refl

begun_open : begun.closed ≡ false
unfolding subscribe begin
begun_open = refl

Work-ends_example :
    ((new : Job) × Work begun new)
    × ((new : Job) → Work begun new → remaining new < remaining begun)
Work-ends_example = Work-ends begun begun_started begun_open at_rest (λ n. refl)
