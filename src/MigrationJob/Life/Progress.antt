-- ===== src/MigrationJob/Life/Progress.antt =====
-- About the end of a job (internal/api/migration_jobs.go).
use makidoku.Common.{
  ℕ, suc, ◌+◌, ◌*◌, ◌<◌, ◌≡◌, refl, ap, ◌⊎◌, inl, inr, Bool, true, false, not, ◌||◌, some, List, [],
  ◌∷◌, any, count_if, get_elem?, All-imp, Bool-cases, arith,
}
use makidoku.Common.Tables.{any-false, count_if-none}
use makidoku.MigrationJob.{Manga, TitleEvent, canceled_title}
use makidoku.MigrationJob.Search.{Host, search_title}
use makidoku.MigrationJob.Life.{
  Phase, idle, busy, over, Title, Job, begin, finish, complete, settle, named,
}
use makidoku.MigrationJob.Life.Steps.{is_busy, is_over, Work, begins, gives_up, returns, completes}
use makidoku.MigrationJob.Life.Shape.{weight, count-modify}

abbrev pub is_idle : Title → Bool
is_idle t = idle_phase t.phase
  where
    idle_phase : Phase → Bool
    idle_phase idle = true
    idle_phase _ = false

-- The steps that are left: two for a worker that waits, one for one that searches, and the end.
abbrev pub remaining : Job → ℕ
remaining j = 2 * count_if is_idle j.titles + count_if is_busy j.titles + weight (not j.closed)

at_any :
    (p : Title → Bool) (ts : List Title)
    → any p ts ≡ true
    → (i : ℕ) × (t : Title) × (get_elem? ts i ≡ some t) × (p t ≡ true)
at_any p [] h = absurd cc
at_any p (t ∷ ts) h = elim (Bool-cases (p t)) [
  | inl e ↦ (0, t, refl, e)
  | inr e ↦ let (i, u, at, hu) = at_any p ts (ground arith) in (suc i, u, at, hu)
]

phase-cases : (p : Phase) → (p ≡ idle) ⊎ (p ≡ over) ⊎ ((early : Bool) × (p ≡ busy early))
phase-cases idle = inl refl
phase-cases over = inr (inl refl)
phase-cases (busy early) = inr (inr (early, refl))

busy_at : (t : Title) → is_busy t ≡ true → (early : Bool) × (t.phase ≡ busy early)
busy_at t h = elim (phase-cases t.phase) [
  | inl e ↦ let not_busy = ap (λ p. is_busy (record t { phase = p })) e in absurd cc
  | inr (inl e) ↦ let not_busy = ap (λ p. is_busy (record t { phase = p })) e in absurd cc
  | inr (inr found) ↦ found
]

module _ (j : Job) (ran : j.started ≡ true) (world : Bool → Host)
    (stops : (n : ℕ) → (world true).stopped n ≡ true) where
  keeps_stopped : (early : Bool) → early ≡ true → (n : ℕ) → (world early).stopped n ≡ true
  keeps_stopped true e = stops
  keeps_stopped false e = absurd cc

  begins_one :
      count_if is_busy j.titles ≡ 0
      → any (λ t. not (is_over t)) j.titles ≡ true
      → (new : Job) × Work j new
  begins_one none_busy some_left =
      let (i, t, at, left) = at_any (λ t. not (is_over t)) j.titles some_left in
      elim (phase-cases t.phase) [
        | inl e ↦ (begin i j, begins i ran (at, e) (omega arith))
        | inr (inl e) ↦
            let is_it = ap (λ p. is_over (record t { phase = p })) e in absurd (ground arith)
        | inr (inr (early, e)) ↦
            (_, returns i early (world early) ran (at, e) (keeps_stopped early))
      ]

  pub some-Work : (new : Job) × Work j new
  some-Work = elim (Bool-cases (any is_busy j.titles)) [
    | inl e ↦
        let (i, t, at, b) = at_any is_busy j.titles e in
        let (early, works_on) = busy_at t b in
        (_, returns i early (world early) ran (at, works_on) (keeps_stopped early))
    | inr e ↦
        let none_busy = count_if-none is_busy j.titles (any-false is_busy j.titles e) in
        elim (Bool-cases (any (λ t. not (is_over t)) j.titles)) [
          | inl left ↦ begins_one none_busy left
          | inr left ↦
              let finished =
                All-imp j.titles (λ t h. ground arith)
                  (any-false (λ t. not (is_over t)) j.titles left) in
              (complete 0 j, completes 0 ran finished)
        ]
  ]

module _ (j : Job) (running : j.closed ≡ false) where
  begin-remaining :
      (i : ℕ) (t : Title)
      → get_elem? j.titles i ≡ some t
      → t.phase ≡ idle
      → remaining (begin i j) < remaining j
  unfolding begin
  begin-remaining i t at e =
      let f = λ (x : Title). record x { phase = busy (x.cancel_requested || j.canceled) } in
      let was_idle : is_idle t ≡ true = ap (λ p. is_idle (record t { phase = p })) e in
      let was_busy : is_busy t ≡ false = ap (λ p. is_busy (record t { phase = p })) e in
      let idles = count-modify is_idle f i j.titles at in
      let busies = count-modify is_busy f i j.titles at in ground arith

  finish-remaining :
      (i : ℕ) (t : Title) (m : Manga) (e : TitleEvent)
      → get_elem? j.titles i ≡ some t
      → is_over t ≡ false
      → weight (is_idle t) + weight (is_busy t) ≡ 1
      → remaining (finish i m e j) < remaining j
  unfolding finish
  finish-remaining i t m e at not_over one =
      let f = settle (named m e) in
      let idles = count-modify is_idle f i j.titles at in
      let busies = count-modify is_busy f i j.titles at in ground arith

  Work-remaining : {new : Job} → Work j new → remaining new < remaining j
  unfolding complete
  Work-remaining (begins i {t} s (at, e) few) = begin-remaining i t at e
  Work-remaining (gives_up i {t} s (at, e) c) =
      finish-remaining i t t.manga (canceled_title t.manga) at
        (ap (λ p. is_over (record t { phase = p })) e)
        (ap
          (λ p.
            weight (is_idle (record t { phase = p })) + weight (is_busy (record t { phase = p })))
          e)
  Work-remaining (returns i {t} early host s (at, e) stops) =
      finish-remaining i t t.manga (search_title host j.spec t.manga) at
        (ap (λ p. is_over (record t { phase = p })) e)
        (ap
          (λ p.
            weight (is_idle (record t { phase = p })) + weight (is_busy (record t { phase = p })))
          e)
  Work-remaining (completes now s finished) = rw running (omega arith)

-- A job that has started and is not closed always has a step that `run` or a worker can make,
-- whatever the sources answer, and each such step brings it nearer to its end: the number of steps
-- that are left goes down.
pub Work-ends :
    (j : Job)
    → j.started ≡ true
    → j.closed ≡ false
    → (world : Bool → Host) → ((n : ℕ) → (world true).stopped n ≡ true)
    → ((new : Job) × Work j new) × ((new : Job) → Work j new → remaining new < remaining j)
Work-ends j ran running world stops =
    (some-Work j ran world stops, λ new w. Work-remaining j running w)
