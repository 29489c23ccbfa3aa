-- ===== src/QueueStore/Calls.antt =====
-- The effect of the methods of internal/db/repository.go that touch several rows or tables.
use makidoku.Common.{
  ℕ, ◌+◌, ◌≡◌, refl, ap, subst, ◌∙◌, inl, inr, String, Bool, true, false, ◌&&◌, Option, none, some,
  List, [], ◌∷◌, arith, All, any, filter, head?, is_empty, Bool-cases, str_eq,
}
use makidoku.Common.Result.{Result, ok, err, ◌>>=◌, guard}
use makidoku.Rows.{
  pending, downloading, Row, Chapter, Store, Item, is, has_chapter, is_live, delete_where, ordered,
}
use makidoku.Rows.Table.{update_where_none}
use makidoku.QueueStore.{
  StoreError, not_allowed_state, set_status, upsert, restart_failed, with_store, max_position,
  get_queue_item, get_queue_item_by_chapter, enqueue_chapter,
}
use makidoku.QueueStore.Control.{
  mark_downloaded, has_key, is_in_flight, is_superseded, min_pending, ids, id_in, is_failed_of,
  mark_chapter_downloaded, complete_queue_download, cancel_all_queue_items, join,
  yield_superseded_downloads, retry_failed_queue_items_by_source,
}
use makidoku.QueueStore.Claim.{
  ClaimOptions, claimable, start, is_waiting, start_row, claim_row, claim_next_queue_item,
}
use makidoku.QueueStore.Invariant.{
  can_become, IsHarmless, SameChapters, Effect, updated, deleted, inserted,
}
use makidoku.QueueStore.Effects.{row_update, row_delete, set_status-IsHarmless}

nothing-IsHarmless : IsHarmless (λ _. false) (λ r. r)
nothing-IsHarmless = record { id = λ r. refl; chapter = λ r. refl; moves = λ r h. cc }

All-missed : (xs : List Row) → All (λ x. false ≡ false) xs
All-missed [] = tt
All-missed (x ∷ xs) = (refl, All-missed xs)

pub same-Effect : (st : Store) → Effect st st
same-Effect st =
    row_update st (λ _. false) (λ r. r) nothing-IsHarmless
      (ap (λ rows. record st { rows = rows })
        (update_where_none (λ _. false) (λ r. r) st.rows (All-missed st.rows)))

pub cancel_all-Effect : (st : Store) → Effect st (cancel_all_queue_items st).1
unfolding cancel_all_queue_items
cancel_all-Effect st =
    elim (Bool-cases (is_empty (join st.chapters (ordered (filter is_live st.rows))))) [
      | inl e ↦ rw e (same-Effect st)
      | inr e ↦ rw e (row_delete st is_live refl)
    ]

pub yield-Effect : (st : Store) → Effect st (yield_superseded_downloads st).1
unfolding yield_superseded_downloads
yield-Effect st =
    let yielded = ids (ordered (filter (is_superseded (min_pending st.rows)) st.rows)) in
    elim (Bool-cases (is_empty yielded)) [
      | inl e ↦ rw e (same-Effect st)
      | inr e ↦ rw e (
          row_update st (λ r. id_in yielded r && is downloading r) (set_status pending)
            (set_status-IsHarmless (λ r. id_in yielded r && is downloading r) pending
              (λ r h. still (id_in yielded r) r h))
            refl)
    ]
  where
    still :
        (b : Bool) (r : Row) → (b && is downloading r) ≡ true → can_become r.status pending ≡ true
    still b r h = ground arith

pub retry_source-Effect :
    (s : String) (st : Store) → Effect st (retry_failed_queue_items_by_source s st).1
unfolding retry_failed_queue_items_by_source
retry_source-Effect s st =
    elim (Bool-cases (is_empty (ids (ordered (filter (is_failed_of st.chapters s) st.rows))))) [
      | inl e ↦ rw e (same-Effect st)
      | inr e ↦ rw e (
          row_update st (is_failed_of st.chapters s) (set_status pending)
            (set_status-IsHarmless (is_failed_of st.chapters s) pending (λ r h. ground arith)) refl)
    ]

mark_downloaded-SameChapters :
    (id path : String) (cs : List Chapter) → SameChapters cs (mark_downloaded id path cs)
mark_downloaded-SameChapters id path [] c = refl
mark_downloaded-SameChapters id path (x ∷ cs) c =
    ground (arith, mark_downloaded-SameChapters id path cs c)

pub mark-Effect :
    (c path : String) (st : Store) {st' : Store}
    → mark_chapter_downloaded c path st ≡ ok st'
    → Effect st st'
unfolding mark_chapter_downloaded
mark-Effect c path st {st'} e = elim (Bool-cases (any (has_key c) st.chapters)) [
  | inl here ↦
      let cs = mark_downloaded c path st.chapters in
      let to : record st { chapters = cs } ≡ st' = ground arith in
      subst (Effect st)
        (ap (λ rows. record st { rows = rows; chapters = cs })
            (update_where_none (λ _. false) (λ r. r) st.rows (All-missed st.rows))
          ∙ to)
        (updated cs (λ _. false) (λ r. r) st.next_id
          (mark_downloaded-SameChapters c path st.chapters) nothing-IsHarmless (omega arith))
  | inr gone ↦ absurd (ground arith)
]

pub complete-Effect :
    (c path : String) (st : Store) {st' : Store}
    → complete_queue_download c path st ≡ ok st'
    → Effect st st'
unfolding complete_queue_download
complete-Effect c path st {st'} e = elim (Bool-cases (any (has_key c) st.chapters)) [
  | inl here ↦ elim (Bool-cases (any (is_in_flight c) st.rows)) [
    | inl busy ↦
        let cs = mark_downloaded c path st.chapters in
        let to : record st { rows = delete_where (is_in_flight c) st.rows; chapters = cs } ≡ st' =
          ground arith in
        subst (Effect st) to
          (deleted cs (is_in_flight c) (mark_downloaded-SameChapters c path st.chapters))
    | inr stale ↦ absurd (ground arith)
  ]
  | inr gone ↦ absurd (ground arith)
]

restart_failed-IsHarmless :
    (p : Row → Bool) (now position : ℕ) → IsHarmless p (restart_failed now position)
restart_failed-IsHarmless p now position = record {
  id = λ r. ground arith;
  chapter = λ r. ground arith;
  moves = λ r _. ground arith;
}

upsert-Effect :
    (now : ℕ) (c : String) (st : Store)
    → any (λ x. str_eq x.id c) st.chapters ≡ true
    → Effect st (upsert now c st)
upsert-Effect now c st parent = elim (Bool-cases (any (has_chapter c) st.rows)) [
  | inl old ↦ rw old (
      updated st.chapters (has_chapter c) (restart_failed now (max_position st.rows + 1))
        (st.next_id + 1) (λ _. refl)
        (restart_failed-IsHarmless (has_chapter c) now (max_position st.rows + 1)) (omega arith))
  | inr new ↦ rw new (inserted c now (max_position st.rows + 1) parent new)
]

pub enqueue-Effect :
    (now : ℕ) (c : String) (st : Store) {i : Item} {st' : Store}
    → enqueue_chapter now c st ≡ ok (i, st')
    → Effect st st'
unfolding enqueue_chapter
enqueue-Effect now c st {i} {st'} e = elim (Bool-cases (any (λ x. str_eq x.id c) st.chapters)) [
  | inl parent ↦
      subst (Effect st) (stored (get_queue_item_by_chapter c (upsert now c st)) (rw parent at e))
        (upsert-Effect now c st parent)
  | inr gone ↦ absurd (ground arith)
]
  where
    stored :
        (m : Result StoreError Item)
        → with_store (upsert now c st) m ≡ ok (i, st')
        → upsert now c st ≡ st'
    stored (ok j) h = ground arith
    stored (err j) h = cc

start-IsHarmless : (id : ℕ) → IsHarmless (is_waiting id) start
start-IsHarmless id = record { id = λ r. refl; chapter = λ r. refl; moves = λ r h. ground arith }

pub claim-Effect :
    (options : ClaimOptions) (st : Store) {o : Option Item} {st' : Store}
    → claim_next_queue_item options st ≡ ok (o, st')
    → Effect st st'
unfolding claim_next_queue_item
claim-Effect options st {o} {st'} = go (head? (ordered (filter (claimable options st) st.rows)))
  where
    go : (h : Option Row) → claim_row st h ≡ ok (o, st') → Effect st st'
    go none e = let to : st ≡ st' = ground arith in subst (Effect st) to (same-Effect st)
    go (some r) e =
        let to : start_row r.id st ≡ st' =
          ended (any (is_waiting r.id) st.rows) (get_queue_item r.id (start_row r.id st)) e in
        row_update st (is_waiting r.id) start (start-IsHarmless r.id) to
      where
        ended :
            (b : Bool) (m : Result StoreError Item)
            → (guard b not_allowed_state >>= λ _.
                ◌>>=◌ {B = Option Item × Store} m (λ i. ok (some i, start_row r.id st)))
              ≡ ok (o, st')
            → start_row r.id st ≡ st'
        ended true (ok i) h = ground arith
        ended true (err x) h = cc
        ended false m h = cc
