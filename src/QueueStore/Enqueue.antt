-- ===== src/QueueStore/Enqueue.antt =====
-- EnqueueChapter (internal/db/repository.go) for a chapter that is new, queued or failed.
use makidoku.Common.{
  ℕ, ◌+◌, ◌≤◌, ◌<◌, ◌≡◌, ◌≢◌, refl, sym, ap, subst, inl, inr, String, Bool, true, false, none, some,
  List, [], ◌∷◌, ◌++◌, arith, All, All-imp, any, find?, Bool-cases, if◌then◌else◌, str_eq, eq_iff,
}
use makidoku.Common.Result.{ok}
use makidoku.Rows.{pending, failed, Row, Chapter, Store, is, has_chapter, update_where, chapter_of}
use makidoku.Rows.Table.{Unique, update_where_none}
use makidoku.QueueStore.{max_position, new_row, restart_failed, enqueue_chapter}

max_position-lt : (xs : List Row) (n : ℕ) → max_position xs ≤ n → All (λ x. x.position < n + 1) xs
max_position-lt [] n h = tt
max_position-lt (x ∷ xs) n h = (omega arith, max_position-lt xs n (omega arith))

any-find {ℓ} :
    {A : Type ℓ} (p : A → Bool) (xs : List A) {a : A} → find? p xs ≡ some a → any p xs ≡ true
any-find p [] e = cc
any-find p (x ∷ xs) {a} e = elim (Bool-cases (p x)) [
  | inl hit ↦ rw hit refl
  | inr miss ↦ rw miss (any-find p xs {a = a} (ground arith))
]

find-append_new :
    (p : Row → Bool) (xs : List Row) (r : Row)
    → any p xs ≡ false
    → p r ≡ true
    → find? p (xs ++ r ∷ []) ≡ some r
find-append_new p [] r n h = rw h refl
find-append_new p (x ∷ xs) r n h = ground (arith, find-append_new p xs r)

-- Enqueueing a chapter that is in the table but not in the queue appends a pending row with a fresh
-- id and no progress, behind every row by position, and returns it; no row changes.
pub enqueue-new :
    (now : ℕ) (c : String) (st : Store) (ch : Chapter)
    → chapter_of st.chapters c ≡ some ch
    → any (has_chapter c) st.rows ≡ false
    → (r : Row) × (enqueue_chapter now c st
        ≡ ok (
          record { row = r; chapter = ch },
          record st { rows = st.rows ++ r ∷ []; next_id = st.next_id + 1 },
        ))
      × (r.id ≡ st.next_id)
      × (r.chapter_id ≡ c)
      × (r.status ≡ pending)
      × (r.downloaded_pages ≡ 0)
      × (r.done_pages ≡ [])
      × All (λ x. x.position < r.position) st.rows
unfolding enqueue_chapter
enqueue-new now c st ch parent new =
    let r = new_row st.next_id c now (max_position st.rows + 1) in
    (
      r,
      rw
          (
            any-find (λ x. str_eq x.id c) st.chapters parent,
            new,
            find-append_new (has_chapter c) st.rows r new ((eq_iff c c).1 refl),
            parent,
          )
          refl,
      refl,
      refl,
      refl,
      refl,
      refl,
      max_position-lt st.rows (max_position st.rows) (omega arith),
    )

found-chapter :
    (c : String) (xs : List Row) {r : Row} → find? (has_chapter c) xs ≡ some r → r.chapter_id ≡ c
found-chapter c [] e = cc
found-chapter c (x ∷ xs) {r} e = elim (Bool-cases (has_chapter c x)) [
  | inl hit ↦
      let same : x ≡ r = ground arith in
      subst (λ y. y.chapter_id ≡ c) same ((eq_iff x.chapter_id c).0 hit)
  | inr miss ↦ found-chapter c xs {r = r} (ground arith)
]

others_keep :
    (c : String) (f : Row → Row) (xs : List Row)
    → All (λ y. y.chapter_id ≢ c) xs
    → update_where (has_chapter c) f xs ≡ xs
others_keep c f xs h =
    update_where_none (has_chapter c) f xs
      (All-imp xs (λ y ne. ground (arith, eq_iff y.chapter_id c)) h)

kept_rows :
    (now position : ℕ) (c : String) (xs : List Row) {r : Row}
    → Unique (λ x. x.chapter_id) xs
    → find? (has_chapter c) xs ≡ some r
    → is failed r ≡ false
    → update_where (has_chapter c) (restart_failed now position) xs ≡ xs
kept_rows now position c [] u e fine = cc
kept_rows now position c (x ∷ xs) {r} (ux, u) e fine = elim (Bool-cases (has_chapter c x)) [
  | inl hit ↦
      let same : x ≡ r = ground arith in
      let calm : is failed x ≡ false = subst (λ y. is failed y ≡ false) (sym same) fine in
      rw (hit, calm)
        (ap (λ t. x ∷ t)
          (others_keep c (restart_failed now position) xs
            (subst (λ k. All (λ y. y.chapter_id ≢ k) xs) ((eq_iff x.chapter_id c).0 hit) ux)))
  | inr miss ↦ rw miss (ap (λ t. x ∷ t) (kept_rows now position c xs {r = r} u (ground arith) fine))
]

find-restarted :
    (now position : ℕ) (c : String) (xs : List Row) {r : Row}
    → find? (has_chapter c) xs ≡ some r
    → find? (has_chapter c) (update_where (has_chapter c) (restart_failed now position) xs)
      ≡ some (restart_failed now position r)
find-restarted now position c [] e = cc
find-restarted now position c (x ∷ xs) {r} e = elim (Bool-cases (has_chapter c x)) [
  | inl hit ↦
      let same : x ≡ r = ground arith in
      subst
        (λ y.
          find? (has_chapter c)
            (update_where (has_chapter c) (restart_failed now position) (x ∷ xs))
          ≡ some (restart_failed now position y))
        same (rw hit (rw (still (is failed x) hit) refl))
  | inr miss ↦ rw miss (rw miss (find-restarted now position c xs {r = r} (ground arith)))
]
  where
    still :
        (b : Bool)
        → has_chapter c x ≡ true
        → has_chapter c (
            if b
            then record x {
              status = pending;
              progress = 0;
              total_pages = 0;
              downloaded_pages = 0;
              error_message = none;
              queued_at = now;
              position = position;
            }
            else x)
          ≡ true
    still true h = h
    still false h = h

-- Enqueueing a chapter whose row is in the queue and has not failed changes no row and no chapter,
-- and returns that row; only the counter of ids advances.
pub enqueue-existing :
    (now : ℕ) (c : String) (st : Store) (ch : Chapter) (r : Row)
    → Unique (λ x. x.chapter_id) st.rows
    → chapter_of st.chapters c ≡ some ch
    → find? (has_chapter c) st.rows ≡ some r
    → is failed r ≡ false
    → enqueue_chapter now c st
      ≡ ok (record { row = r; chapter = ch }, record st { next_id = st.next_id + 1 })
unfolding enqueue_chapter
enqueue-existing now c st ch r u parent here fine =
    let at : r.chapter_id ≡ c = found-chapter c st.rows {r = r} here in
    rw (any-find (λ x. str_eq x.id c) st.chapters parent, any-find (has_chapter c) st.rows here)
      (rw (kept_rows now (max_position st.rows + 1) c st.rows {r = r} u here fine)
        (rw here (rw at (rw parent refl))))

-- The rows with the one of the chapter changed.
updated-split :
    (f : Row → Row) (c : String) (xs : List Row) {r : Row}
    → Unique (λ x. x.chapter_id) xs
    → find? (has_chapter c) xs ≡ some r
    → (before : List Row) × (after : List Row) × (xs ≡ before ++ r ∷ after)
      × (update_where (has_chapter c) f xs ≡ before ++ f r ∷ after)
updated-split f c [] u e = cc
updated-split f c (x ∷ xs) {r} (ux, u) e = elim (Bool-cases (has_chapter c x)) [
  | inl hit ↦
      let same : x ≡ r = ground arith in
      (
        [],
        xs,
        ap (λ y. y ∷ xs) same,
        rw
            (
              hit,
              others_keep c f xs
                  (subst (λ k. All (λ y. y.chapter_id ≢ k) xs) ((eq_iff x.chapter_id c).0 hit) ux),
              same,
            )
            refl,
      )
  | inr miss ↦
      let (before, after, old, new) = updated-split f c xs {r = r} u (ground arith) in
      (x ∷ before, after, ap (λ t. x ∷ t) old, rw miss (ap (λ t. x ∷ t) new))
]

-- Enqueueing a chapter whose row has failed puts that row back as pending in its place of the
-- table, with no progress, no error, the present time and a position behind every row; its list of
-- fetched pages stays. It returns that row, changes no other row and no chapter, and the counter of
-- ids advances.
pub enqueue-failed :
    (now : ℕ) (c : String) (st : Store) (ch : Chapter) (r : Row)
    → Unique (λ x. x.chapter_id) st.rows
    → chapter_of st.chapters c ≡ some ch
    → find? (has_chapter c) st.rows ≡ some r
    → is failed r ≡ true
    → (position : ℕ) × (before : List Row) × (after : List Row) × (st.rows ≡ before ++ r ∷ after)
      × All (λ x. x.position < position) st.rows
      × (let r' : Row = record {
        id = r.id;
        chapter_id = r.chapter_id;
        status = pending;
        progress = 0;
        total_pages = 0;
        downloaded_pages = 0;
        done_pages = r.done_pages;
        error_message = none;
        queued_at = now;
        position = position;
      } in
          enqueue_chapter now c st
          ≡ ok (
            record { row = r'; chapter = ch },
            record st { rows = before ++ r' ∷ after; next_id = st.next_id + 1 },
          ))
unfolding enqueue_chapter
enqueue-failed now c st ch r u parent here bad =
    let position = max_position st.rows + 1 in
    let at : r.chapter_id ≡ c = found-chapter c st.rows {r = r} here in
    let (before, after, old, new) =
      updated-split (restart_failed now position) c st.rows {r = r} u here in
    let found = find-restarted now position c st.rows {r = r} here in
    let its_chapter : chapter_of st.chapters r.chapter_id ≡ some ch = rw at parent in
    let restarted : restart_failed now position r ≡ record r {
      status = pending;
      progress = 0;
      total_pages = 0;
      downloaded_pages = 0;
      error_message = none;
      queued_at = now;
      position = position;
    } =
      rw bad refl in
    (
      position,
      before,
      after,
      old,
      max_position-lt st.rows (max_position st.rows) (omega arith),
      rw (any-find (λ x. str_eq x.id c) st.chapters parent, any-find (has_chapter c) st.rows here)
          (rw found (rw new (rw restarted (rw its_chapter refl)))),
    )
