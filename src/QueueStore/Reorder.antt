-- ===== src/QueueStore/Reorder.antt =====
-- The effect of SetQueueOrder (internal/db/repository.go).
use makidoku.Common.{
  ℕ, zero, suc, ◌≡◌, refl, sym, ap, ◌∙◌, Bool, true, false, List, [], ◌∷◌, arith, if◌then◌else◌,
}
use makidoku.Common.Int.{ℤ, pos, negsuc}
use makidoku.Common.Result.{Result, ok, >>=-eq-ok}
use makidoku.Rows.{Status, Row, Store, has_id, update_where}
use makidoku.QueueStore.{StoreError}
use makidoku.QueueStore.Control.{set_positions, set_position, set_queue_order}
use makidoku.QueueStore.Invariant.{can_become, Effect}
use makidoku.QueueStore.Effects.{row_update}

abbrev compose : (Row → Bool) → (Row → Row) → (Row → Row) → Row → Row
compose p f g r = g (if p r then f r else r)

abbrev always : Row → Bool
always r = true

update_where-update_where :
    (p : Row → Bool) (f g : Row → Row) (xs : List Row)
    → update_where always g (update_where p f xs) ≡ update_where always (compose p f g) xs
update_where-update_where p f g [] = refl
update_where-update_where p f g (x ∷ xs) =
    ap (λ t. g (if p x then f x else x) ∷ t) (update_where-update_where p f g xs)

update_where-id : (xs : List Row) → update_where always (λ r. r) xs ≡ xs
update_where-id [] = refl
update_where-id (x ∷ xs) = ap (λ t. x ∷ t) (update_where-id xs)

-- A function of rows that changes the position alone.
record IsPlacing (g : Row → Row) : Type 0 where
  id : (r : Row) → (g r).id ≡ r.id
  chapter : (r : Row) → (g r).chapter_id ≡ r.chapter_id
  status : (r : Row) → (g r).status ≡ r.status

set_positions-placed :
    (n : ℕ) (order : List ℤ) (rows : List Row) {rows' : List Row}
    → set_positions n order rows ≡ ok rows'
    → (g : Row → Row) × IsPlacing g × (update_where always g rows ≡ rows')
set_positions-placed n [] rows {rows'} e =
    let same : rows ≡ rows' = ground arith in
    (
      λ r. r,
      record { id = λ r. refl; chapter = λ r. refl; status = λ r. refl },
      update_where-id rows ∙ same,
    )
set_positions-placed n (negsuc _ ∷ order) rows e = cc
set_positions-placed n (pos zero ∷ order) rows e = cc
set_positions-placed n (pos (suc i) ∷ order) rows e =
    let (g, k, t) = set_positions-placed (suc n) order (set_position n (suc i) rows) e in
    let place = λ (r : Row). record r { position = n } in
    (
      compose (has_id (suc i)) place g,
      record {
        id = λ r. k.id _ ∙ (kept_id n (has_id (suc i) r) r);
        chapter = λ r. k.chapter _ ∙ (kept_chapter n (has_id (suc i) r) r);
        status = λ r. k.status _ ∙ (kept_status n (has_id (suc i) r) r);
      },
      sym (update_where-update_where (has_id (suc i)) place g rows) ∙ t,
    )
  where
    kept_id : (n : ℕ) (b : Bool) (r : Row) → (if b then record r { position = n } else r).id ≡ r.id
    kept_id n true r = refl
    kept_id n false r = refl

    kept_chapter :
        (n : ℕ) (b : Bool) (r : Row)
        → (if b then record r { position = n } else r).chapter_id ≡ r.chapter_id
    kept_chapter n true r = refl
    kept_chapter n false r = refl

    kept_status :
        (n : ℕ) (b : Bool) (r : Row)
        → (if b then record r { position = n } else r).status ≡ r.status
    kept_status n true r = refl
    kept_status n false r = refl

same-can_become : (s t : Status) → s ≡ t → can_become t s ≡ true
same-can_become s t e = ground arith

pub reorder-Effect :
    (order : List ℤ) (st : Store) {st' : Store} → set_queue_order order st ≡ ok st' → Effect st st'
unfolding set_queue_order
reorder-Effect order st {st'} e =
    let (rows, k, t) =
      >>=-eq-ok (set_positions 0 order st.rows) (λ rows. ok (record st { rows = rows })) e in
    let (g, p, u) = set_positions-placed 0 order st.rows k in
    row_update st always g
      (record {
        id = p.id;
        chapter = p.chapter;
        moves = λ r _. same-can_become (g r).status r.status (p.status r);
      })
      (ap (λ rows. record st { rows = rows }) u ∙ done t)
  where
    done :
        {rows : List Row}
        → ◌≡◌ {A = Result StoreError Store} (ok (record st { rows = rows })) (ok st')
        → record st { rows = rows } ≡ st'
    done t = ground arith
