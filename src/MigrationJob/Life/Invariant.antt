-- ===== src/MigrationJob/Life/Invariant.antt =====
-- About every state of a job (internal/api/migration_jobs.go).
use makidoku.Common.{
  ℕ, ◌≤◌, ◌≡◌, refl, ap, String, Bool, true, false, not, Option, none, some, List, [], ◌∷◌, length,
  ◌==◌, map, count_if, if◌then◌else◌, All, All-filter, All-append, arith,
}
use makidoku.Common.Tables.{All-update_rows, count-update_rows_same}
use makidoku.MigrationJob.{Manga, Spec, canceled_title}
use makidoku.MigrationJob.Search.{search_title}
use makidoku.MigrationJob.Terminal.{search_title-ends}
use makidoku.MigrationJob.Life.{
  Title, Job, Frame, snapshot_of, added, new_title, subscribe, unsubscribe, receive, cancel_all,
  cancel_title, is_title,
}
use makidoku.MigrationJob.Life.Steps.{
  is_busy, is_over, Work, begins, gives_up, returns, completes, Step, works, subscribes,
  unsubscribes, receives, cancels_all, cancels_title, shuts_down, Life, made, next,
}
use makidoku.MigrationJob.Life.Shape.{AtMost-drop}
use makidoku.MigrationJob.Life.Sound.{
  HasEnded, IsOver, IsSound, finish-IsSound, begin-IsSound, complete-IsSound,
}

module _ (j : Job) (sound : IsSound j) where
  subscribe-IsSound : IsSound (subscribe j).2
  unfolding subscribe
  subscribe-IsSound = joining j.closed refl
    where
      joining :
          (b : Bool)
          → j.closed ≡ b
          → IsSound
              (if◌then◌else◌ {A = Frame × Option ℕ × Job} b
                (snapshot_of j, none, j)
                (snapshot_of j, some j.next_sub, added j)).2
      joining true e = sound
      joining false e = record {
        few_busy = sound.few_busy;
        with_results = sound.with_results;
        all_over = λ s c. absurd cc;
        buffers =
            All-append (λ s. length s.channel ≤ count_if is_over j.titles) j.subscribers
              (record { id = j.next_sub; channel = [] } ∷ []) sound.buffers (omega arith, tt);
      }

  unsubscribe-IsSound : (id : ℕ) → IsSound (unsubscribe id j)
  unfolding unsubscribe
  unsubscribe-IsSound id = record {
    few_busy = sound.few_busy;
    with_results = sound.with_results;
    all_over = sound.all_over;
    buffers =
        All-filter (λ s. length s.channel ≤ count_if is_over j.titles) (λ s. not (s.id == id))
          j.subscribers sound.buffers;
  }

  receive-IsSound : (id : ℕ) → IsSound (receive id j)
  unfolding receive
  receive-IsSound id = record {
    few_busy = sound.few_busy;
    with_results = sound.with_results;
    all_over = sound.all_over;
    buffers = AtMost-drop (count_if is_over j.titles) (λ s. s.id == id) j.subscribers sound.buffers;
  }

  cancel_all-IsSound : (now : ℕ) → IsSound (cancel_all now j)
  unfolding cancel_all
  cancel_all-IsSound now = stopping j.started refl
    where
      stopping :
          (b : Bool)
          → j.started ≡ b
          → IsSound (
              if not b
              then record j { closed = true; closed_at = now }
              else record j { canceled = true })
      stopping true e = record {
        few_busy = sound.few_busy;
        with_results = sound.with_results;
        all_over = sound.all_over;
        buffers = sound.buffers;
      }
      stopping false e = record {
        few_busy = sound.few_busy;
        with_results = sound.with_results;
        all_over = λ s c. absurd cc;
        buffers = sound.buffers;
      }

  cancel_title-IsSound : (id : String) → IsSound (cancel_title id j).1
  unfolding cancel_title
  cancel_title-IsSound id =
      let f = λ (t : Title). record t { cancel_requested = true } in
      let same_busy = count-update_rows_same is_busy (is_title id) f j.titles (λ t. refl) in
      let same_over = count-update_rows_same is_over (is_title id) f j.titles (λ t. refl) in
      record {
        few_busy = rw same_busy sound.few_busy;
        with_results =
            All-update_rows {P = HasEnded} {Q = HasEnded} (is_title id) f j.titles (λ t h e. h)
              (λ t h e. h) sound.with_results;
        all_over = λ s c.
            All-update_rows {P = IsOver} {Q = IsOver} (is_title id) f j.titles (λ t h e. h)
              (λ t h e. h) (sound.all_over s c);
        buffers = rw same_over sound.buffers;
      }

  shut_down-IsSound : IsSound (record j { canceled = true })
  shut_down-IsSound = record {
    few_busy = sound.few_busy;
    with_results = sound.with_results;
    all_over = sound.all_over;
    buffers = sound.buffers;
  }

  Work-IsSound : {new : Job} → Work j new → IsSound new
  Work-IsSound (begins i {t} s (at, waits) few) = begin-IsSound j sound i t at waits few
  Work-IsSound (gives_up i {t} s (at, waits) c) =
      finish-IsSound j sound i t t.manga (canceled_title t.manga) at
        (ap (λ p. is_over (record t { phase = p })) waits) refl
  Work-IsSound (returns i {t} early host s (at, works_on) stops) =
      finish-IsSound j sound i t t.manga (search_title host j.spec t.manga) at
        (ap (λ p. is_over (record t { phase = p })) works_on)
        (search_title-ends host j.spec t.manga)
  Work-IsSound (completes now s all_done) = complete-IsSound j sound now all_done

  Step-IsSound : {new : Job} → Step j new → IsSound new
  Step-IsSound (works w) = Work-IsSound w
  Step-IsSound subscribes = subscribe-IsSound
  Step-IsSound (unsubscribes id) = unsubscribe-IsSound id
  Step-IsSound (receives id) = receive-IsSound id
  Step-IsSound (cancels_all now) = cancel_all-IsSound now
  Step-IsSound (cancels_title id) = cancel_title-IsSound id
  Step-IsSound shuts_down = shut_down-IsSound

none_busy : (ms : List Manga) → count_if is_busy (map new_title ms) ≡ 0
none_busy [] = refl
none_busy (m ∷ ms) = none_busy ms

none_over : (ms : List Manga) → All HasEnded (map new_title ms)
none_over [] = tt
none_over (m ∷ ms) = ((λ e. absurd cc), none_over ms)

-- Whatever happens to a job, at most four of its titles are searched at once, a title whose worker is
-- over has its result, once a job that ran is closed every worker is over, and no buffer holds more
-- frames than there are results.
pub Life-IsSound : (id : String) (spec : Spec) {j : Job} → Life id spec j → IsSound j
Life-IsSound id spec made = record {
  few_busy = omega (arith, none_busy spec.titles);
  with_results = none_over spec.titles;
  all_over = λ s c. absurd cc;
  buffers = tt;
}
Life-IsSound id spec (next {j = j} before step) = Step-IsSound j (Life-IsSound id spec before) step
