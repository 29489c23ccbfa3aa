-- ===== src/Tracker/Keys.antt =====
-- About the keys of the tracker jobs (the tables of internal/db/repository.go).
use makidoku.Common.{
  ℕ, ◌+◌, ◌<◌, ◌≡◌, ◌≢◌, refl, sym, subst, inl, inr, String, Bool, true, false, ◌&&◌, Option, none,
  some, List, [], ◌∷◌, ◌++◌, map, ◌==◌, any, find?, filter, str_eq, if◌then◌else◌, All, All-imp,
  All-append, Bool-cases, arith,
}
use makidoku.Common.Pairs.{
  Pairwise, Pairwise-append, map-update_rows, All-map-filter, Pairwise-map-filter,
}
use makidoku.Common.Int.{ℤ, same}
use makidoku.Common.Result.{Result, ok, err}
use makidoku.Tracker.{
  TrackerSyncJob, Store, StoreError, has_key, is, completed, requeued, new_job, upsert_job,
  enqueue_tracker_sync, found, with_store, foreign_key,
}

-- The columns that no statement writes again.
pub record Key : Type 0 where
  pub id : ℕ
  pub manga_id : String
  pub binding_id : ℕ
  pub chapter_number : ℤ

abbrev pub key : TrackerSyncJob → Key
key j = record {
  id = j.id;
  manga_id = j.manga_id;
  binding_id = j.binding_id;
  chapter_number = j.chapter_number;
}

abbrev pub IsApart : Key → Key → Type 0
IsApart a b =
    (a.id ≢ b.id)
    × ((str_eq a.manga_id b.manga_id
          && a.binding_id == b.binding_id
          && same a.chapter_number b.chapter_number)
        ≡ false)

-- Distinct ids below the counter, and one job for a title, a binding and a chapter.
abbrev pub IsKeyed : ℕ → List Key → Type 0
IsKeyed next ks = Pairwise IsApart ks × All (λ k. k.id < next) ks

abbrev pub IsWellFormed : Store → Type 0
IsWellFormed st = IsKeyed st.next_id (map key st.jobs)

-- A statement that leaves the keys keeps the tables well formed, and so does a DELETE.
pub same_keys-IsKeyed :
    (next : ℕ) (old new : List TrackerSyncJob)
    → map key new ≡ map key old
    → IsKeyed next (map key old)
    → IsKeyed next (map key new)
same_keys-IsKeyed next old new e h = subst (λ ks. IsKeyed next ks) (sym e) h

pub filter-IsKeyed :
    (next : ℕ) (p : TrackerSyncJob → Bool) (jobs : List TrackerSyncJob)
    → IsKeyed next (map key jobs)
    → IsKeyed next (map key (filter p jobs))
filter-IsKeyed next p jobs (apart, below) = (
  Pairwise-map-filter key IsApart p jobs apart,
  All-map-filter key (λ k. k.id < next) p jobs below,
)

requeued-key : (now : ℕ) (j : TrackerSyncJob) → key (requeued now j) ≡ key j
requeued-key now j = elim (Bool-cases (is completed j)) [ inl e ↦ rw e refl | inr e ↦ rw e refl ]

map-snoc :
    (xs : List TrackerSyncJob) (x : TrackerSyncJob)
    → map key (xs ++ x ∷ []) ≡ map key xs ++ key x ∷ []
map-snoc [] x = refl
map-snoc (y ∷ ys) x = rw (map-snoc ys x) refl

module _ (now : ℕ) (m : String) (b : ℕ) (c : ℤ) (st : Store) (formed : IsWellFormed st) where
  IsApart-new_job :
      (jobs : List TrackerSyncJob)
      → All (λ k. k.id < st.next_id) (map key jobs)
      → any (has_key m b c) jobs ≡ false
      → All (λ k. IsApart k (key (new_job st.next_id m b c now))) (map key jobs)
  IsApart-new_job [] below fresh = tt
  IsApart-new_job (j ∷ js) (hj, below) fresh =
      (((λ e. omega arith), ground arith), IsApart-new_job js below (ground arith))

  wider_ids : All (λ k. k.id < st.next_id + 1) (map key st.jobs)
  wider_ids = All-imp (map key st.jobs) (λ k h. omega arith) formed.1

  new_job-IsKeyed :
      any (has_key m b c) st.jobs ≡ false
      → IsKeyed (st.next_id + 1) (map key (st.jobs ++ new_job st.next_id m b c now ∷ []))
  new_job-IsKeyed fresh =
      let new = new_job st.next_id m b c now in
      let (apart, below) = formed in
      rw (map-snoc st.jobs new) (
        Pairwise-append IsApart (map key st.jobs) (key new) apart
            (IsApart-new_job st.jobs below fresh),
        All-append (λ k. k.id < st.next_id + 1) (map key st.jobs) (key new ∷ []) wider_ids
            (omega arith, tt),
      )

  pub upsert-IsWellFormed : IsWellFormed (upsert_job now m b c st)
  upsert-IsWellFormed = elim (Bool-cases (any (has_key m b c) st.jobs)) [
    | inl e ↦ rw e (
        same_keys-IsKeyed (st.next_id + 1) st.jobs _
          (map-update_rows key (has_key m b c) (requeued now) st.jobs (requeued-key now))
          (formed.0, wider_ids))
    | inr e ↦ rw e (new_job-IsKeyed e)
  ]

-- What a method leaves: its new tables if it returns.
abbrev pub IsKept {ℓ} : {A : Type ℓ} → Result StoreError (A × Store) → Type 0
IsKept (err e) = Unit
IsKept (ok (a, new)) = IsWellFormed new

found-IsKept :
    (o : Option TrackerSyncJob) (new : Store) → IsWellFormed new → IsKept (with_store new (found o))
found-IsKept none new h = tt
found-IsKept (some j) new h = h

guarded-IsKept :
    (b : Bool) (r : Result StoreError (TrackerSyncJob × Store))
    → IsKept r
    → IsKept (if b then r else err foreign_key)
guarded-IsKept true r h = h
guarded-IsKept false r h = tt

pub enqueue-IsKept :
    (now : ℕ) (m : String) (b : ℕ) (c : ℤ) (st : Store)
    → IsWellFormed st
    → IsKept (enqueue_tracker_sync now m b c st)
unfolding enqueue_tracker_sync
enqueue-IsKept now m b c st formed =
    let new = upsert_job now m b c st in
    guarded-IsKept (any (str_eq m) st.manga && any (λ x. x.id == b) st.bindings)
      (with_store new (found (find? (has_key m b c) new.jobs)))
      (found-IsKept (find? (has_key m b c) new.jobs) new (upsert-IsWellFormed now m b c st formed))
