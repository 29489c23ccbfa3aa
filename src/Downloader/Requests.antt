-- ===== src/Downloader/Requests.antt =====
-- About the request Reorder (internal/downloader/queue.go).
use makidoku.Common.{
  ℕ, ◌≡◌, ◌≢◌, refl, sym, ap, subst, ◌∙◌, Bool, true, false, some, List, [], ◌∷◌, arith, All,
  All-imp, get_elem?, is_empty, Bool-cases, inl, inr,
}
use makidoku.Common.Int.{ℤ, pos}
use makidoku.Common.Result.{Result, ok, err}
use makidoku.Rows.{Row, Store, Item, pending, downloading, is, before, update_where}
use makidoku.Rows.Table.{In, All-In, All-self, All-update_where, Unique, Unique-update_where}
use makidoku.QueueStore.{StoreError, get_queue_item, set_status}
use makidoku.QueueStore.Control.{yield_superseded_downloads, set_queue_order, ids}
use makidoku.QueueStore.Invariant.{IsWellFormed}
use makidoku.QueueStore.Steps.{Step, here, next}
use makidoku.QueueStore.Safety.{Reach-IsWellFormed}
use makidoku.QueueStore.Placed.{IsNamed, IsPlaced, ids-set_queue_order, set_queue_order-IsPlaced}
use makidoku.QueueStore.Yield.{Ahead, is_passed, taken_back, yield_superseded-Ahead}
use makidoku.Downloader.{
  EventType, World, publish_found, publish_row, publish_rows, pended, reorder, reorder_yielded,
  changed,
}

publish_found-store :
    (kind : EventType) (r : Result StoreError Item) (w : World)
    → (publish_found kind r w).store ≡ w.store
publish_found-store kind (ok i) w = refl
publish_found-store kind (err e) w = refl

publish_rows-store :
    (kind : EventType) (ids : List ℕ) (w : World) → (publish_rows kind ids w).store ≡ w.store
unfolding get_queue_item
publish_rows-store kind [] w = refl
publish_rows-store kind (id ∷ ids) w =
    publish_rows-store kind ids (publish_row kind id w)
    ∙ publish_found-store kind (get_queue_item id w.store) w

reorder_yielded-store :
    (ids : List ℕ) (st : Store) (w : World) → (reorder_yielded (ids, st) w).store ≡ st
reorder_yielded-store ids st w = elim (Bool-cases (is_empty ids)) [
  | inl e ↦ rw e (publish_rows-store pended ids (record w { store = st }))
  | inr e ↦ rw e (publish_rows-store pended ids (record w { store = st }))
]

-- Every row is at its index in the order, and no pending row stands before one in flight in queue
-- order.
abbrev pub IsOrdered : List ℤ → List Row → Type 0
IsOrdered order rows =
    All (IsPlaced order) rows
    × All (λ d. All (λ p. is downloading d ≡ true → is pending p ≡ true → before p d ≡ false) rows)
        rows

ids-set_status :
    (q : Row → Bool) (rows : List Row) → ids (update_where q (set_status pending) rows) ≡ ids rows
ids-set_status q [] = refl
ids-set_status q (r ∷ rows) = elim (Bool-cases (q r)) [
  | inl e ↦ rw e (ap (λ t. r.id ∷ t) (ids-set_status q rows))
  | inr e ↦ rw e (ap (λ t. r.id ∷ t) (ids-set_status q rows))
]

same-id :
    (xs : List Row) {a b : Row} → Unique (λ r. r.id) xs → In a xs → In b xs → a.id ≡ b.id → a ≡ b
same-id [] u m n e = absurd m
same-id (x ∷ xs) (ux, u) (inl p) (inl q) e = sym p ∙ q
same-id (x ∷ xs) {a} {b} (ux, u) (inl p) (inr n) e =
    absurd (All-In (λ y. y.id ≢ x.id) xs ux n (sym e ∙ ap (λ r. r.id) (sym p)))
same-id (x ∷ xs) {a} {b} (ux, u) (inr m) (inl q) e =
    absurd (All-In (λ y. y.id ≢ x.id) xs ux m (e ∙ ap (λ r. r.id) (sym q)))
same-id (x ∷ xs) (ux, u) (inr m) (inr n) e = same-id xs u m n e

same-some : {a b : ℤ} → some a ≡ some b → a ≡ b
same-some e = cc

same-pos : {m n : ℕ} → pos m ≡ pos n → m ≡ n
same-pos e = cc

-- With one place for each id, rows that share a position are the same row.
placed-IsOrdered :
    (order : List ℤ) (rows : List Row)
    → Unique (λ r. r.id) rows
    → All (IsPlaced order) rows
    → Ahead rows
    → IsOrdered order rows
placed-IsOrdered order rows u placed ahead = (
  placed,
  All-imp rows (λ d m. All-imp rows (λ p n w v. apart d p m n w v) (All-self rows)) (All-self rows),
)
  where
    place : (r : Row) → In r rows → IsPlaced order r
    place r m = All-In (IsPlaced order) rows placed m

    level :
        (d p : Row)
        → In d rows
        → In p rows
        → is downloading d ≡ true
        → is pending p ≡ true
        → before p d ≡ true
        → p.position ≡ d.position
    level d p m n w v b = All-In _ rows (All-In _ rows ahead m) n w v b

    apart :
        (d p : Row)
        → In d rows
        → In p rows
        → is downloading d ≡ true
        → is pending p ≡ true
        → before p d ≡ false
    apart d p m n w v = elim (Bool-cases (before p d)) [
      | inl b ↦
          let ids : p.id ≡ d.id = same-pos (
            same-some (sym (place p n) ∙ ap (get_elem? order) (level d p m n w v b) ∙ place d m)) in
          let one : p ≡ d = same-id rows u n m ids in
          let both : is pending d ≡ true = subst (λ r. is pending r ≡ true) one v in
          absurd (ground (arith, both, w))
      | inr f ↦ f
    ]

reordered-IsOrdered :
    (order : List ℤ) (w : World) (st : Store)
    → IsWellFormed w.store
    → All (IsNamed order) w.store.rows
    → set_queue_order order w.store ≡ ok st
    → let rows = (yield_superseded_downloads st).1.rows in
      (ids rows ≡ ids w.store.rows) × IsOrdered order rows
reordered-IsOrdered order w st h named e =
    let u = (Reach-IsWellFormed h (next here (Step.reorder order e))).ids in
    let (exact, ahead) = yield_superseded-Ahead st u in
    let rows : (yield_superseded_downloads st).1.rows ≡ (taken_back st).1.rows =
      ap (λ r. r.1.rows) exact in
    let placed : All (IsPlaced order) st.rows = set_queue_order-IsPlaced order w.store named e in
    let moved =
      All-update_where {P = IsPlaced order} {Q = IsPlaced order} (is_passed st.rows)
        (set_status pending) st.rows (λ r k _. k) (λ r k _. k) placed in
    let distinct =
      Unique-update_where (λ r. r.id) (is_passed st.rows) (set_status pending) st.rows (λ r. refl)
        u in
    (
      ap ids rows
          ∙ ids-set_status (is_passed st.rows) st.rows
          ∙ ids-set_queue_order order w.store e,
      subst (IsOrdered order) (sym rows)
          (placed-IsOrdered order (taken_back st).1.rows distinct moved (subst Ahead rows ahead)),
    )

reorder_result-IsOrdered :
    (order : List ℤ) (w : World) (r : Result StoreError Store) {v : World}
    → IsWellFormed w.store
    → All (IsNamed order) w.store.rows
    → set_queue_order order w.store ≡ r
    → changed (λ u. reorder_yielded (yield_superseded_downloads u.store) u) r w ≡ ok v
    → (ids v.store.rows ≡ ids w.store.rows) × IsOrdered order v.store.rows
reorder_result-IsOrdered order w (err x) h named e p = absurd cc
reorder_result-IsOrdered order w (ok st) {v} h named e p =
    let end : reorder_yielded (yield_superseded_downloads st) (record w { store = st }) ≡ v = cc in
    let same : v.store ≡ (yield_superseded_downloads st).1 =
      sym (ap (λ u. u.store) end)
      ∙ reorder_yielded-store (yield_superseded_downloads st).0 (yield_superseded_downloads st).1
          (record w { store = st }) in
    subst (λ (st' : Store). (ids st'.rows ≡ ids w.store.rows) × IsOrdered order st'.rows) (sym same)
      (reordered-IsOrdered order w st h named e)

-- After a request to reorder that succeeds, on a well-formed store and with an order that names
-- every row, the rows are those from before by their ids, each one's position is an index at which
-- the order has its id, and no pending row stands before one in flight in queue order.
pub reorder-IsOrdered :
    (order : List ℤ) (w : World) {v : World}
    → IsWellFormed w.store
    → All (IsNamed order) w.store.rows
    → reorder order w ≡ ok v
    → (ids v.store.rows ≡ ids w.store.rows) × IsOrdered order v.store.rows
unfolding reorder
reorder-IsOrdered order w h named e = reorder_result-IsOrdered order w _ h named refl e
