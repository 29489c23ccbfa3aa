-- ===== src/Downloader/Cancellation.antt =====
-- About the request Cancel (internal/downloader/queue.go).
use makidoku.Common.{
  ℕ, ◌≡◌, refl, sym, ap, subst, ◌∙◌, Bool, true, false, not, ◌||◌, Option, none, some, List, [],
  ◌∷◌, ◌++◌, arith, All, All-imp, All-find?, any, find?, filter, Bool-cases, Option-cases,
  filter-passes, inl, inr, str_eq,
}
use makidoku.Common.Result.{Result, ok, err}
use makidoku.Rows.{Row, Chapter, Store, Item, has_id, is_live, chapter_of, canceled}
use makidoku.QueueStore.{StoreError, not_allowed_state, found_item, get_queue_item}
use makidoku.QueueStore.Control.{cancel_queue_item, is_cancelable}
use makidoku.QueueStore.Invariant.{IsWellFormed, has_parent}
use makidoku.Downloader.{
  World, StagedPage, of_item, cancel, cancel_found, changed, publish, canceled_event, with_status,
  remove_staged,
}

-- What a request to cancel gives: an error only where no row has the id; else the item as the queue
-- had it is told as canceled, its row is gone and nothing else of the store changed, the staged
-- pages of other items stay, and of its own only those that the disk refused to remove are left.
abbrev pub IsCanceled : ℕ → World → Result StoreError World → Type 0
IsCanceled id w (err e) = any (has_id id) w.store.rows ≡ false
IsCanceled id w (ok v) =
    (any (has_id id) w.store.rows ≡ true)
    × (v.store ≡ record w.store { rows = filter (λ r. not (has_id id r)) w.store.rows })
    × (filter (λ p. not (of_item id p)) v.staged ≡ filter (λ p. not (of_item id p)) w.staged)
    × All (λ p. of_item id p ≡ true → w.refuses w.removals p ≡ true) v.staged
    × ((item : Item) × (get_queue_item id w.store ≡ ok item)
        × (v.events
            ≡ w.events
              ++ record { kind = canceled_event; item = some (with_status canceled item) } ∷ []))

live-cancelable :
    (id : ℕ) (xs : List Row)
    → All (λ r. is_live r ≡ true) xs
    → (any (is_cancelable id) xs ≡ any (has_id id) xs)
      × (filter (λ r. not (is_cancelable id r)) xs ≡ filter (λ r. not (has_id id r)) xs)
live-cancelable id [] h = (refl, refl)
live-cancelable id (x ∷ xs) (hx, h) =
    let (same_any, same_rest) = live-cancelable id xs h in
    elim (Bool-cases (has_id id x)) [
      | inl e ↦ (rw (e, hx) refl, rw (e, hx) same_rest)
      | inr e ↦ (rw (e, same_any) refl, rw (e, same_rest) refl)
    ]

any-none : (p : Row → Bool) (xs : List Row) → find? p xs ≡ none → any p xs ≡ false
any-none p [] e = refl
any-none p (x ∷ xs) e = ground (arith, any-none p xs)

parent-found :
    (cs : List Chapter) (c : _) → any (λ x. str_eq x.id c) cs ≡ true → chapter_of cs c ≡ none → ⊥
parent-found [] c h e = cc
parent-found (x ∷ cs) c h e = ground (arith, parent-found cs c)

no_item :
    (id : ℕ) (st : Store) {e : StoreError}
    → IsWellFormed st
    → get_queue_item id st ≡ err e
    → any (has_id id) st.rows ≡ false
unfolding get_queue_item
no_item id st {e} h = go (find? (has_id id) st.rows) refl
  where
    go :
        (o : Option Row)
        → find? (has_id id) st.rows ≡ o
        → found_item st.chapters o ≡ err e
        → any (has_id id) st.rows ≡ false
    go none f k = any-none (has_id id) st.rows f
    go (some r) f k =
        let parent : has_parent st.chapters r ≡ true =
          All-find? (λ x. has_parent st.chapters x ≡ true) (has_id id) st.rows h.parents f in
        elim (Option-cases (chapter_of st.chapters r.chapter_id)) [
          | inl gone ↦ absurd (parent-found st.chapters r.chapter_id parent gone)
          | inr (c, there) ↦ absurd (ground (arith, there, k))
        ]

others-staged :
    (id : ℕ) (refuses : StagedPage → Bool) (xs : List StagedPage)
    → filter (λ p. not (of_item id p)) (filter (λ p. not (of_item id p) || refuses p) xs)
      ≡ filter (λ p. not (of_item id p)) xs
others-staged id refuses [] = refl
others-staged id refuses (x ∷ xs) = elim (Bool-cases (of_item id x)) [
  | inl own ↦ elim (Bool-cases (refuses x)) [
    | inl r ↦ rw (own, r, own) (others-staged id refuses xs)
    | inr r ↦ rw (own, r) (others-staged id refuses xs)
  ]
  | inr e ↦ rw (e, e) (ap (λ t. x ∷ t) (others-staged id refuses xs))
]

left-refused :
    (id : ℕ) (refuses : StagedPage → Bool) (xs : List StagedPage)
    → All
        (λ p. of_item id p ≡ true → refuses p ≡ true)
        (filter (λ p. not (of_item id p) || refuses p) xs)
left-refused id refuses xs = All-imp _ (λ p k own. ground (arith, k, own)) (filter-passes _ xs)

-- The store without the row.
abbrev removed : ℕ → Store → Store
removed id st = record st { rows = filter (λ r. not (has_id id r)) st.rows }

cancel_queue-exact :
    (id : ℕ) (st : Store) (b : Bool)
    → IsWellFormed st
    → any (has_id id) st.rows ≡ b
    → cancel_queue_item id st ≡ elim b [ true ↦ ok (removed id st) | false ↦ err not_allowed_state ]
unfolding cancel_queue_item
cancel_queue-exact id st b h e =
    let (same_any, same_rest) = live-cancelable id st.rows h.live in go b (same_any ∙ e) same_rest
  where
    go :
        (b : Bool)
        → any (is_cancelable id) st.rows ≡ b
        → filter (λ r. not (is_cancelable id r)) st.rows ≡ (removed id st).rows
        → cancel_queue_item id st
          ≡ elim b [ true ↦ ok (removed id st) | false ↦ err not_allowed_state ]
    go true hit rest = rw (hit, rest) refl
    go false miss rest = rw miss refl

-- On a well-formed store a request to cancel fails only where no row has the id. Otherwise the item
-- is told as canceled, as the queue had it; its row is gone and the rest of the store is as it was;
-- the staged pages of other items stay, and of its own only those are left that the disk refused to
-- remove.
pub cancel-IsCanceled : (id : ℕ) (w : World) → IsWellFormed w.store → IsCanceled id w (cancel id w)
unfolding cancel
cancel-IsCanceled id w h = go (get_queue_item id w.store) refl
  where
    told : Item → World → World
    told item v = publish canceled_event (some (with_status canceled item)) (remove_staged id v)

    go :
        (found : Result StoreError Item)
        → get_queue_item id w.store ≡ found
        → IsCanceled id w (cancel_found id found w)
    go (err e) q = no_item id w.store h q
    go (ok item) q = elim (Bool-cases (any (has_id id) w.store.rows)) [
      | inl there ↦
          subst (λ r. IsCanceled id w (changed (told item) r w))
            (sym (cancel_queue-exact id w.store true h there))
            (
              there,
              refl,
              others-staged id (w.refuses w.removals) w.staged,
              left-refused id (w.refuses w.removals) w.staged,
              (item, q, refl),
            )
      | inr gone ↦
          subst (λ r. IsCanceled id w (changed (told item) r w))
            (sym (cancel_queue-exact id w.store false h gone)) gone
    ]
