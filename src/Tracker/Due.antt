-- ===== src/Tracker/Due.antt =====
-- About which job a claim takes (claimTrackerSync of internal/db/repository.go).
use makidoku.Common.{
  ℕ, ◌≤◌, ◌≡◌, refl, sym, ap, ◌∙◌, subst, inl, inr, String, Bool, true, false, ◌&&◌, Option, none,
  some, List, [], ◌∷◌, if◌then◌else◌, any, find?, All, All-imp, Bool-cases, arith, ==_iff, ==_refl,
}
use makidoku.Common.Tables.{any-find?, any-update_rows}
use makidoku.Common.Result.{Result, ok, err}
use makidoku.Tracker.{
  TrackerSyncJob, Store, has_id, is_due, for_tracker, sooner, sooner_of, first_due, started, update,
  start_job, StoreError, claim_tracker_sync,
}

module _ (p : TrackerSyncJob → Bool) where
  -- What the query gives: no row that passes, or one of the rows that pass, no later than the others.
  abbrev pub IsFirst : List TrackerSyncJob → Option TrackerSyncJob → Type 0
  IsFirst js none = All (λ x. p x ≡ false) js
  IsFirst js (some j) =
      (p j ≡ true)
      × All (λ x. p x ≡ true → j.next_attempt_at ≤ x.next_attempt_at) js
      × ((q : TrackerSyncJob → Bool) → q j ≡ true → any q js ≡ true)

  any_later :
      (q : TrackerSyncJob → Bool) (x : TrackerSyncJob) (xs : List TrackerSyncJob)
      → any q xs ≡ true
      → any q (x ∷ xs) ≡ true
  any_later q x xs h = ground arith

  any_here :
      (q : TrackerSyncJob → Bool) (x : TrackerSyncJob) (xs : List TrackerSyncJob)
      → q x ≡ true
      → any q (x ∷ xs) ≡ true
  any_here q x xs h = ground arith

  IsFirst-keep :
      (x : TrackerSyncJob) (xs : List TrackerSyncJob) (k : TrackerSyncJob) (b : Bool)
      → sooner k x ≡ b
      → p x ≡ true
      → IsFirst xs (some k)
      → IsFirst (x ∷ xs) (some (if b then k else x))
  IsFirst-keep x xs k true s hp (hk, least, within) =
      (hk, ((λ t. ground arith), least), λ q hq. any_later q x xs (within q hq))
  IsFirst-keep x xs k false s hp (hk, least, within) =
      let order : x.next_attempt_at ≤ k.next_attempt_at = ground arith in
      let bound : (y : TrackerSyncJob)
          → k.next_attempt_at ≤ y.next_attempt_at
          → x.next_attempt_at ≤ y.next_attempt_at =
        λ y h. omega arith in
      (hp, ((λ t. omega arith), All-imp xs (λ y f t. bound y (f t)) least), λ q. any_here q x xs)

  IsFirst-take :
      (x : TrackerSyncJob) (xs : List TrackerSyncJob) (o : Option TrackerSyncJob)
      → p x ≡ true
      → IsFirst xs o
      → IsFirst (x ∷ xs) (some (sooner_of x o))
  IsFirst-take x xs none hp h =
      (hp, ((λ t. omega arith), All-imp xs (λ y n t. absurd cc) h), λ q. any_here q x xs)
  IsFirst-take x xs (some k) hp h = IsFirst-keep x xs k (sooner k x) refl hp h

  IsFirst-skip :
      (x : TrackerSyncJob) (xs : List TrackerSyncJob) (o : Option TrackerSyncJob)
      → p x ≡ false
      → IsFirst xs o
      → IsFirst (x ∷ xs) o
  IsFirst-skip x xs none hp h = (hp, h)
  IsFirst-skip x xs (some k) hp (hk, least, within) =
      (hk, ((λ t. absurd cc), least), λ q hq. any_later q x xs (within q hq))

  pub first_due-IsFirst : (js : List TrackerSyncJob) → IsFirst js (first_due p js)
  unfolding first_due
  first_due-IsFirst [] = tt
  first_due-IsFirst (x ∷ xs) = elim (Bool-cases (p x)) [
    | inl e ↦ rw e (IsFirst-take x xs (first_due p xs) e (first_due-IsFirst xs))
    | inr e ↦ rw e (IsFirst-skip x xs (first_due p xs) e (first_due-IsFirst xs))
  ]

module _ (now : ℕ) (tracker : String) (st : Store) where
  abbrev pub is_candidate : TrackerSyncJob → Bool
  is_candidate j = is_due now j && for_tracker tracker st j

  -- A claim starts the first due job and returns its row, or there is none and it changes nothing.
  abbrev pub IsClaim : Result StoreError (Option TrackerSyncJob × Store) → Type 0
  IsClaim (err e) = ⊥
  IsClaim (ok (none, new)) = (new ≡ st) × All (λ x. is_candidate x ≡ false) st.jobs
  IsClaim (ok (some job, new)) =
      (j : TrackerSyncJob) × IsFirst is_candidate st.jobs (some j)
      × (j.id ≡ job.id)
      × (new ≡ update job.id started st)
      × (find? (has_id job.id) new.jobs ≡ some job)

  start-IsClaim :
      (o : Option TrackerSyncJob) → IsFirst is_candidate st.jobs o → IsClaim (start_job st o)
  start-IsClaim none h = (refl, h)
  start-IsClaim (some j) h =
      let (passes, least, holds) = h in
      let within = holds (has_id j.id) (==_refl j.id) in
      let still = any-update_rows (has_id j.id) (has_id j.id) started st.jobs (λ x. refl) in
      let (job, taken, same_id) =
        any-find? (has_id j.id) (update j.id started st).jobs (still ∙ within) in
      let one_id : job.id ≡ j.id = (==_iff job.id j.id).0 same_id in
      let run : start_job st (some j) ≡ ok (some job, update j.id started st) = rw taken refl in
      subst (λ r. IsClaim r) (sym run)
        (
          j,
          h,
          sym one_id,
          ap (λ i. update i started st) (sym one_id),
          ap (λ i. find? (has_id i) (update j.id started st).jobs) one_id ∙ taken,
        )

  pub claim_tracker_sync-IsClaim : IsClaim (claim_tracker_sync now tracker st)
  unfolding claim_tracker_sync
  claim_tracker_sync-IsClaim = start-IsClaim _ (first_due-IsFirst is_candidate st.jobs)
