-- ===== src/QueueStore/Outcomes.antt =====
-- A change of status on each branch (transitionQueueItem of internal/db/repository.go).
use makidoku.Common.{
  ℕ, ◌∙◌, ◌≡◌, ◌≢◌, refl, sym, ap, subst, inl, inr, Bool, true, false, ◌||◌, some, List, [], ◌∷◌,
  arith, All, any, find?, ◌==◌, Bool-cases, if◌then◌else◌,
}
use makidoku.Common.Result.{ok, err}
use makidoku.Rows.{Status, pending, downloading, Row, Store, is, has_id, update_where}
use makidoku.Rows.Table.{Unique}
use makidoku.QueueStore.{not_allowed_state, set_status, is_downloading}
use makidoku.QueueStore.Control.{can_move, status_in, transition_queue_item, release_queue_item}

-- With distinct ids a condition that starts with `id = …` is about one row.
can_move-found :
    (id : ℕ) (allowed : List Status) (rows : List Row) {r : Row}
    → Unique (λ x. x.id) rows
    → find? (has_id id) rows ≡ some r
    → any (can_move id allowed) rows ≡ status_in allowed r
can_move-found id allowed [] u e = cc
can_move-found id allowed (x ∷ rows) {r} (ux, u) e = elim (Bool-cases (x.id == id)) [
  | inl hit ↦
      let same : x ≡ r = ground arith in
      let rest : any (can_move id allowed) rows ≡ false =
        nowhere rows (subst (λ i. All (λ y. y.id ≢ i) rows) (ground arith) ux) in
      subst (λ y. (can_move id allowed x || any (can_move id allowed) rows) ≡ status_in allowed y)
        same (rw (rest, hit) (or_false (status_in allowed x)))
  | inr miss ↦ rw miss (can_move-found id allowed rows {r = r} u (ground arith))
]
  where
    or_false : (b : Bool) → (b || false) ≡ b
    or_false true = refl
    or_false false = refl

    nowhere : (ys : List Row) → All (λ y. y.id ≢ id) ys → any (can_move id allowed) ys ≡ false
    nowhere [] h = refl
    nowhere (y ∷ ys) (hy, h) =
        let off : (y.id == id) ≡ false = ground arith in rw (off, nowhere ys h) refl

-- The row of an id replaced by another, every other row as it is.
abbrev pub replace : ℕ → Row → List Row → List Row
replace id r [] = []
replace id r (x ∷ xs) = (if x.id == id then r else x) ∷ replace id r xs

replace-absent : (id : ℕ) (r : Row) (xs : List Row) → All (λ y. y.id ≢ id) xs → replace id r xs ≡ xs
replace-absent id r [] h = refl
replace-absent id r (x ∷ xs) (hx, h) =
    let off : (x.id == id) ≡ false = ground arith in
    rw off (ap (λ t. x ∷ t) (replace-absent id r xs h))

update_where-absent :
    (id : ℕ) (allowed : List Status) (f : Row → Row) (xs : List Row)
    → All (λ y. y.id ≢ id) xs
    → update_where (can_move id allowed) f xs ≡ xs
update_where-absent id allowed f [] h = refl
update_where-absent id allowed f (x ∷ xs) (hx, h) =
    let off : (x.id == id) ≡ false = ground arith in
    rw off (ap (λ t. x ∷ t) (update_where-absent id allowed f xs h))

update_where-replace :
    (id : ℕ) (allowed : List Status) (f : Row → Row) (xs : List Row) {r : Row}
    → Unique (λ y. y.id) xs
    → find? (has_id id) xs ≡ some r
    → status_in allowed r ≡ true
    → update_where (can_move id allowed) f xs ≡ replace id (f r) xs
update_where-replace id allowed f [] u e h = cc
update_where-replace id allowed f (x ∷ xs) {r} (ux, u) e h = elim (Bool-cases (x.id == id)) [
  | inl hit ↦
      let same : x ≡ r = ground arith in
      let here : All (λ y. y.id ≢ id) xs = subst (λ i. All (λ y. y.id ≢ i) xs) (ground arith) ux in
      let go : status_in allowed x ≡ true = subst (λ y. status_in allowed y ≡ true) (sym same) h in
      subst (λ y. update_where (can_move id allowed) f (x ∷ xs) ≡ replace id (f y) (x ∷ xs)) same
        (rw (hit, go, update_where-absent id allowed f xs here)
          (ap (λ t. f x ∷ t) (sym (replace-absent id (f x) xs here))))
  | inr miss ↦
      rw miss (ap (λ t. x ∷ t) (update_where-replace id allowed f xs {r = r} u (ground arith) h))
]

-- The row of the id in the table so changed.
pub find-replace :
    (id : ℕ) (r' : Row) (xs : List Row) {r : Row}
    → r'.id ≡ id
    → find? (has_id id) xs ≡ some r
    → find? (has_id id) (replace id r' xs) ≡ some r'
find-replace id r' [] e k = cc
find-replace id r' (x ∷ xs) {r} e k = elim (Bool-cases (x.id == id)) [
  | inl hit ↦ let own : (r'.id == id) ≡ true = ground (arith, e) in rw (hit, own) refl
  | inr miss ↦ rw (miss, miss) (find-replace id r' xs {r = r} e (ground arith))
]

-- ReleaseQueueItem on a row in flight.
pub release-replace :
    (id : ℕ) (st : Store) (r : Row)
    → Unique (λ x. x.id) st.rows
    → find? (has_id id) st.rows ≡ some r
    → is downloading r ≡ true
    → release_queue_item id st ≡ record st { rows = replace id (set_status pending r) st.rows }
unfolding release_queue_item
release-replace id st r u e d =
    ap (λ rows. record st { rows = rows })
      (same_test st.rows
        ∙ update_where-replace id (downloading ∷ []) (set_status pending) st.rows {r = r} u e
            (ground (arith, d)))
  where
    or_false : (b : Bool) → (b || false) ≡ b
    or_false true = refl
    or_false false = refl

    same_test :
        (xs : List Row)
        → update_where (is_downloading id) (set_status pending) xs
          ≡ update_where (can_move id (downloading ∷ [])) (set_status pending) xs
    same_test [] = refl
    same_test (x ∷ xs) = rw (or_false (is downloading x), same_test xs) refl

-- A change of status, as pause, resume and retry make it, on the row of the given id in a table with
-- distinct ids: if its status is among the allowed ones, that row gets the new status and keeps its
-- other columns, and every other row stays; if not, the call fails and reports the state.
pub transition-outcome :
    (id : ℕ) (target : Status) (allowed : List Status) (st : Store) (r : Row)
    → Unique (λ x. x.id) st.rows
    → find? (has_id id) st.rows ≡ some r
    → transition_queue_item id target allowed st ≡ (
        if status_in allowed r
        then ok (record st { rows = replace id (set_status target r) st.rows })
        else err not_allowed_state)
unfolding transition_queue_item
transition-outcome id target allowed st r u e =
    rw (can_move-found id allowed st.rows {r = r} u e) (elim (Bool-cases (status_in allowed r)) [
      | inl in_set ↦ rw in_set (
          ap (λ rows. ok (record st { rows = rows }))
            (update_where-replace id allowed (set_status target) st.rows {r = r} u e in_set))
      | inr off ↦ rw off refl
    ])
