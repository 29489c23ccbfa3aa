-- ===== src/QueueStore/Moves.antt =====
-- About the status of a row before and after an effect on the tables of internal/db/models.go.
use makidoku.Common.{
  ℕ, ◌≡◌, ◌≢◌, refl, subst, inl, inr, Bool, true, not, none, some, List, [], ◌∷◌, ◌++◌, arith, All,
  All-filter, find?, ◌==◌, Bool-cases, if◌then◌else◌,
}
use makidoku.Rows.{Status, Row, Store, has_id, update_where, delete_where}
use makidoku.Rows.Table.{Unique}
use makidoku.QueueStore.{new_row}
use makidoku.QueueStore.Invariant.{IsWellFormed, can_become, Effect, updated, deleted, inserted}

same-can_become : (s : Status) → can_become s s ≡ true
same-can_become s = ground arith

-- An update that keeps the ids finds the updated row.
pub find-update_where :
    (i : ℕ) (p : Row → Bool) (f : Row → Row) (xs : List Row)
    → ((r : Row) → (f r).id ≡ r.id)
    → {r : Row} → find? (has_id i) xs ≡ some r
    → find? (has_id i) (update_where p f xs) ≡ some (if p r then f r else r)
find-update_where i p f [] keeps e = cc
find-update_where i p f (x ∷ xs) keeps {r} e = elim (Bool-cases (x.id == i)) [
  | inl hit ↦
      let same : x ≡ r = ground arith in
      subst (λ y. find? (has_id i) (update_where p f (x ∷ xs)) ≡ some (if p y then f y else y)) same
        (ground (arith, keeps x))
  | inr miss ↦
      let ih = find-update_where i p f xs keeps {r = r} (ground arith) in
      ground (arith, ih, keeps x)
]

absent-find : (i : ℕ) (xs : List Row) → All (λ y. y.id ≢ i) xs → find? (has_id i) xs ≡ none
absent-find i [] h = refl
absent-find i (x ∷ xs) (hx, h) = ground (arith, absent-find i xs h)

-- In a table with distinct ids a row that is left is the row that was there.
find-delete_where :
    (i : ℕ) (p : Row → Bool) (xs : List Row)
    → Unique (λ r. r.id) xs
    → {r r' : Row} → find? (has_id i) xs ≡ some r
    → find? (has_id i) (delete_where p xs) ≡ some r'
    → r ≡ r'
find-delete_where i p [] u e k = cc
find-delete_where i p (x ∷ xs) (ux, u) {r} {r'} e k = elim (Bool-cases (x.id == i)) [
  | inl hit ↦
      let at : x.id ≡ i = ground arith in
      let gone : find? (has_id i) (delete_where p xs) ≡ none = absent-find i (delete_where p xs) (
        All-filter (λ y. y.id ≢ i) (λ y. not (p y)) xs
          (subst (λ j. All (λ y. y.id ≢ j) xs) at ux)) in
      ground (arith, gone)
  | inr miss ↦ elim (Bool-cases (p x)) [
    | inl d ↦ find-delete_where i p xs u {r = r} {r' = r'} (ground arith) (ground arith)
    | inr d ↦ find-delete_where i p xs u {r = r} {r' = r'} (ground arith) (ground arith)
  ]
]

find-append :
    (i : ℕ) (xs ys : List Row) {r : Row}
    → find? (has_id i) xs ≡ some r
    → find? (has_id i) (xs ++ ys) ≡ some r
find-append i [] ys e = cc
find-append i (x ∷ xs) ys {r} e = elim (Bool-cases (x.id == i)) [
  | inl hit ↦ ground arith
  | inr miss ↦ let ih = find-append i xs ys {r = r} (ground arith) in ground (arith, ih)
]

pub Effect-can_become :
    {st st' : Store}
    → Effect st st'
    → IsWellFormed st
    → (i : ℕ) {r r' : Row} → find? (has_id i) st.rows ≡ some r
    → find? (has_id i) st'.rows ≡ some r'
    → can_become r.status r'.status ≡ true
Effect-can_become {st} (updated cs p f next_id same h more) w i {r} {r'} e k =
    elim (Bool-cases (p r)) [
      | inl hit ↦
          let to : f r ≡ r' = ground (arith, find-update_where i p f st.rows h.id e) in
          subst (λ x. can_become r.status x.status ≡ true) to (h.moves r hit)
      | inr miss ↦
          let to : r ≡ r' = ground (arith, find-update_where i p f st.rows h.id e) in
          subst (λ x. can_become r.status x.status ≡ true) to (same-can_become r.status)
    ]
Effect-can_become {st} (deleted cs p same) w i {r} {r'} e k =
    subst (λ x. can_become r.status x.status ≡ true) (find-delete_where i p st.rows w.ids e k)
      (same-can_become r.status)
Effect-can_become {st} (inserted c now position parent new) w i {r} {r'} e k =
    let kept = find-append i st.rows (new_row st.next_id c now position ∷ []) {r = r} e in
    let to : r ≡ r' = cc (kept, k) in
    subst (λ x. can_become r.status x.status ≡ true) to (same-can_become r.status)
