-- ===== src/QueueStore/Placed.antt =====
-- About the positions that SetQueueOrder (internal/db/repository.go) writes.
use makidoku.Common.{
  ℕ, zero, suc, ◌+◌, ◌≡◌, refl, ap, subst, ◌∙◌, ◌⊎◌, inl, inr, true, some, List, [], ◌∷◌, arith,
  All, All-imp, any, get_elem?, Bool-cases,
}
use makidoku.Common.Int.{ℤ, pos, negsuc, same}
use makidoku.Common.Result.{ok, >>=-eq-ok}
use makidoku.Rows.{Row, Store, has_id}
use makidoku.Rows.Table.{All-update_where}
use makidoku.QueueStore.Control.{ids, set_positions, set_position, set_queue_order}

-- The order names the row.
abbrev pub IsNamed : List ℤ → Row → Type 0
IsNamed order r = any (λ i. same i (pos r.id)) order ≡ true

-- The row stands at an index of the order where its id is.
abbrev pub IsPlaced : List ℤ → Row → Type 0
IsPlaced order r = get_elem? order r.position ≡ some (pos r.id)

IsPlaced-set_positions :
    (order : List ℤ) (n : ℕ) (rest : List ℤ) (rows : List Row) {rows' : List Row}
    → ((k : ℕ) → get_elem? order (n + k) ≡ get_elem? rest k)
    → set_positions n rest rows ≡ ok rows'
    → All (λ r. IsNamed rest r ⊎ IsPlaced order r) rows
    → All (IsPlaced order) rows'
IsPlaced-set_positions order n [] rows {rows'} at e h =
    subst (All (IsPlaced order)) (ground arith)
      (All-imp rows (λ r c. elim c [ inl named ↦ absurd cc | inr placed ↦ placed ]) h)
IsPlaced-set_positions order n (negsuc _ ∷ rest) rows at e h = cc
IsPlaced-set_positions order n (pos zero ∷ rest) rows at e h = cc
IsPlaced-set_positions order n (pos (suc i) ∷ rest) rows at e h =
    let later : (k : ℕ) → get_elem? order (suc n + k) ≡ get_elem? rest k = λ k.
      let moved : n + suc k ≡ suc n + k = omega arith in
      subst (λ j. get_elem? order j ≡ get_elem? rest k) moved (at (suc k)) in
    let first : get_elem? order n ≡ some (pos (suc i)) =
      let here : n + 0 ≡ n = omega arith in
      subst (λ j. get_elem? order j ≡ some (pos (suc i))) here (at 0) in
    IsPlaced-set_positions order (suc n) rest (set_position n (suc i) rows) later e (
      All-update_where (has_id (suc i)) (λ r. record r { position = n }) rows
        (λ r _ hit.
          let its : suc i ≡ r.id = ground (arith, hit) in inr (first ∙ ap (λ j. some (pos j)) its))
        (λ r c miss. elim c [
          | inl named ↦ inl (ground (arith, miss, named))
          | inr placed ↦ inr placed
        ])
        h)

-- A successful SetQueueOrder of an order that names every row puts each row at an index of its id.
pub set_queue_order-IsPlaced :
    (order : List ℤ) (st : Store) {st' : Store}
    → All (IsNamed order) st.rows
    → set_queue_order order st ≡ ok st'
    → All (IsPlaced order) st'.rows
unfolding set_queue_order
set_queue_order-IsPlaced order st {st'} named e =
    let (rows, k, t) =
      >>=-eq-ok (set_positions 0 order st.rows) (λ rows. ok (record st { rows = rows })) e in
    let placed =
      IsPlaced-set_positions order 0 order st.rows (λ k. ap (get_elem? order) (omega arith)) k
        (All-imp st.rows (λ r h. inl h) named) in
    subst (All (IsPlaced order)) (ground (arith, t)) placed

ids-set_position : (n i : ℕ) (rows : List Row) → ids (set_position n i rows) ≡ ids rows
ids-set_position n i [] = refl
ids-set_position n i (r ∷ rows) = elim (Bool-cases (has_id i r)) [
  | inl e ↦ rw e (ap (λ t. r.id ∷ t) (ids-set_position n i rows))
  | inr e ↦ rw e (ap (λ t. r.id ∷ t) (ids-set_position n i rows))
]

ids-set_positions :
    (n : ℕ) (order : List ℤ) (rows : List Row) {rows' : List Row}
    → set_positions n order rows ≡ ok rows'
    → ids rows' ≡ ids rows
ids-set_positions n [] rows {rows'} e = let same : rows' ≡ rows = ground arith in ap ids same
ids-set_positions n (negsuc _ ∷ order) rows e = cc
ids-set_positions n (pos zero ∷ order) rows e = cc
ids-set_positions n (pos (suc i) ∷ order) rows e =
    ids-set_positions (suc n) order (set_position n (suc i) rows) e
    ∙ ids-set_position n (suc i) rows

-- It keeps every row.
pub ids-set_queue_order :
    (order : List ℤ) (st : Store) {st' : Store}
    → set_queue_order order st ≡ ok st'
    → ids st'.rows ≡ ids st.rows
unfolding set_queue_order
ids-set_queue_order order st {st'} e =
    let (rows, k, t) =
      >>=-eq-ok (set_positions 0 order st.rows) (λ rows. ok (record st { rows = rows })) e in
    subst (λ xs. ids xs ≡ ids st.rows) (ground (arith, t)) (ids-set_positions 0 order st.rows k)
