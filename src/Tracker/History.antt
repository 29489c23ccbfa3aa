-- ===== src/Tracker/History.antt =====
-- About the history of finished tracker jobs (PruneTerminalTrackerSyncJobs of
-- internal/db/repository.go).
use makidoku.Common.{
  ℕ, zero, suc, ◌≤◌, ◌≡◌, ◌≢◌, refl, ap, inl, inr, not, List, [], ◌∷◌, map, any, count_if, filter,
  length, take, All, All-imp, Bool-cases, arith, ==_iff,
}
use makidoku.Common.Tables.{count-filter_imp}
use makidoku.Common.Pairs.{Pairwise, count-any}
use makidoku.Tracker.{
  TrackerSyncJob, Store, has_id, is_terminal, is_spared, recent, newest_first,
  prune_terminal_tracker_sync_jobs,
}
use makidoku.Tracker.Keys.{key, IsApart, IsWellFormed}

length-take : (n : ℕ) (xs : List TrackerSyncJob) → length (take n xs) ≤ n
length-take zero xs = omega arith
length-take (suc n) [] = omega arith
length-take (suc n) (x ∷ xs) = omega (arith, length-take n xs)

none_left :
    (k : TrackerSyncJob) (i : ℕ) (xs : List TrackerSyncJob)
    → k.id ≡ i
    → All (λ y. i ≢ y.id) (map key xs)
    → count_if (λ x. has_id x.id k) xs ≡ 0
none_left k i [] e h = refl
none_left k i (x ∷ xs) e (hx, h) = let rest = none_left k i xs e h in ground arith

-- At most one row has the id of a given one.
one_of_id :
    (k : TrackerSyncJob) (xs : List TrackerSyncJob)
    → Pairwise IsApart (map key xs)
    → count_if (λ x. has_id x.id k) xs ≤ 1
one_of_id k [] h = omega arith
one_of_id k (x ∷ xs) (hx, h) = elim (Bool-cases (has_id x.id k)) [
  | inl e ↦
      let others = All-imp (map key xs) (λ y apart. apart.0) hx in
      let rest = none_left k x.id xs ((==_iff k.id x.id).0 e) others in ground arith
  | inr e ↦ let rest = one_of_id k xs h in ground arith
]

unfinished_stay :
    (limit : ℕ) (all xs : List TrackerSyncJob)
    → filter (λ j. not (is_terminal j)) (filter (is_spared limit all) xs)
      ≡ filter (λ j. not (is_terminal j)) xs
unfinished_stay limit all [] = refl
unfinished_stay limit all (x ∷ xs) = elim (Bool-cases (is_terminal x)) [
  | inl t ↦ elim (Bool-cases (any (has_id x.id) (recent limit all))) [
    | inl s ↦ rw (t, s, t) (unfinished_stay limit all xs)
    | inr s ↦ rw (t, s) (unfinished_stay limit all xs)
  ]
  | inr t ↦ rw (t, t) (ap (λ js. x ∷ js) (unfinished_stay limit all xs))
]

-- On well-formed tables, at most as many finished jobs as the limit are left, and every unfinished
-- job stays.
pub prune-bounds :
    (limit : ℕ) (st : Store)
    → IsWellFormed st
    → (count_if is_terminal (prune_terminal_tracker_sync_jobs limit st).1.jobs ≤ limit)
      × (filter (λ j. not (is_terminal j)) (prune_terminal_tracker_sync_jobs limit st).1.jobs
          ≡ filter (λ j. not (is_terminal j)) st.jobs)
unfolding prune_terminal_tracker_sync_jobs
prune-bounds limit st (apart, below) =
    let spared =
      count-filter_imp is_terminal (is_spared limit st.jobs)
        (λ x. any (λ k. has_id x.id k) (recent limit st.jobs)) st.jobs (λ x t s. ground arith) in
    let matched =
      count-any (λ k x. has_id x.id k) (recent limit st.jobs) st.jobs
        (λ k. one_of_id k st.jobs apart) in
    let few = length-take limit (newest_first (filter is_terminal st.jobs)) in
    (omega arith, unfinished_stay limit st.jobs st.jobs)
