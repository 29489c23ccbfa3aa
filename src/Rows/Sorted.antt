-- ===== src/Rows/Sorted.antt =====
-- About ORDER BY and LIMIT 1 on the rows of internal/db/models.go.
use makidoku.Common.{
  ℕ, ap, ◌∙◌, any, map, ◌||◌, ◌≡◌, refl, subst, Bool, true, false, some, List, [], ◌∷◌, inl, inr,
  arith, head?, All, All-imp, Bool-cases,
}
use makidoku.Rows.{Row, before, insert, ordered}

before_trans : (a b c : Row) → before a b ≡ false → before b c ≡ false → before a c ≡ false
before_trans a b c h k = ground arith

before_asymm : (a b : Row) → before a b ≡ true → before b a ≡ false
before_asymm a b h = ground arith

before_irrefl : (a : Row) → before a a ≡ false
before_irrefl a = ground arith

-- No row of the list comes before `r`.
abbrev pub IsLeast : Row → List Row → Type 0
IsLeast r = All (λ x. before x r ≡ false)

abbrev pub IsSorted : List Row → Type 0
IsSorted [] = Unit
IsSorted (r ∷ rs) = IsLeast r rs × IsSorted rs

module _ {ℓ} (P : Row → Type ℓ) where
  All-insert : (r : Row) (xs : List Row) → P r → All P xs → All P (insert r xs)
  unfolding insert
  All-insert r [] hr h = (hr, tt)
  All-insert r (x ∷ xs) hr (hx, h) = elim (Bool-cases (before x r)) [
    | inl e ↦ rw e (hx, All-insert r xs hr h)
    | inr e ↦ rw e (hr, (hx, h))
  ]

  insert-All : (r : Row) (xs : List Row) → All P (insert r xs) → P r × All P xs
  unfolding insert
  insert-All r [] h = h
  insert-All r (x ∷ xs) h = elim (Bool-cases (before x r)) [
    | inl e ↦
        let k : P x × All P (insert r xs) = rw e at h in
        let (hr, hs) = insert-All r xs k.1 in (hr, hs_with k.0 hs)
    | inr e ↦ let k : P r × (P x × All P xs) = rw e at h in k
  ]
    where
      hs_with : P x → All P xs → P x × All P xs
      hs_with a b = (a, b)

  pub All-ordered : (xs : List Row) → All P xs → All P (ordered xs)
  unfolding ordered
  All-ordered [] h = tt
  All-ordered (x ∷ xs) (hx, h) = All-insert x (ordered xs) hx (All-ordered xs h)

  pub ordered-All : (xs : List Row) → All P (ordered xs) → All P xs
  unfolding ordered
  ordered-All [] h = tt
  ordered-All (x ∷ xs) h = let (hx, hs) = insert-All x (ordered xs) h in (hx, ordered-All xs hs)

insert-IsSorted : (r : Row) (xs : List Row) → IsSorted xs → IsSorted (insert r xs)
unfolding insert
insert-IsSorted r [] h = (tt, tt)
insert-IsSorted r (x ∷ xs) (hx, h) = elim (Bool-cases (before x r)) [
  | inl e ↦
      rw e
        (All-insert (λ y. before y x ≡ false) r xs (before_asymm x r e) hx, insert-IsSorted r xs h)
  | inr e ↦ rw e ((e, All-imp xs (λ y k. before_trans y x r k e) hx), (hx, h))
]

pub ordered-IsSorted : (xs : List Row) → IsSorted (ordered xs)
unfolding ordered
ordered-IsSorted [] = tt
ordered-IsSorted (x ∷ xs) = insert-IsSorted x (ordered xs) (ordered-IsSorted xs)

head-IsLeast : (xs : List Row) {r : Row} → IsSorted xs → head? xs ≡ some r → IsLeast r xs
head-IsLeast [] s e = cc
head-IsLeast (x ∷ xs) {r} (hx, s) e =
    let same : x ≡ r = cc in subst (λ y. IsLeast y (x ∷ xs)) same (before_irrefl x, hx)

-- ORDER BY … LIMIT 1 takes a row that no other one comes before.
pub first-IsLeast : (xs : List Row) {r : Row} → head? (ordered xs) ≡ some r → IsLeast r xs
first-IsLeast xs {r} e =
    ordered-All (λ x. before x r ≡ false) xs (head-IsLeast (ordered xs) (ordered-IsSorted xs) e)

-- It is one of the rows: what holds of all of them holds of it.
pub first-All {ℓ} :
    (P : Row → Type ℓ) (xs : List Row) {r : Row} → head? (ordered xs) ≡ some r → All P xs → P r
first-All P xs {r} e h = go (ordered xs) e (All-ordered P xs h)
  where
    go : (ys : List Row) → head? ys ≡ some r → All P ys → P r
    go [] k hs = absurd (cc)
    go (y ∷ ys) k (hy, hs) = let same : y ≡ r = cc in rw (← same) hy

-- With no row in front there is no row.
pub ordered-nil : (xs : List Row) → ordered xs ≡ [] → xs ≡ []
unfolding ordered insert
ordered-nil [] e = refl
ordered-nil (x ∷ xs) e = absurd (go (ordered xs) e)
  where
    go : (ys : List Row) → insert x ys ≡ [] → ⊥
    go [] k = cc
    go (y ∷ ys) k = elim (Bool-cases (before y x)) [ inl t ↦ ground arith | inr f ↦ ground arith ]

any_id-insert :
    (q : ℕ → Bool) (r : Row) (xs : List Row)
    → any q (map (λ y. y.id) (insert r xs)) ≡ (q r.id || any q (map (λ y. y.id) xs))
unfolding insert
any_id-insert q r [] = refl
any_id-insert q r (y ∷ xs) = ground (arith, any_id-insert q r xs)

-- A test on ids sees the same ids in any order.
pub any_id-ordered :
    (q : ℕ → Bool) (xs : List Row)
    → any q (map (λ y. y.id) (ordered xs)) ≡ any q (map (λ y. y.id) xs)
unfolding ordered
any_id-ordered q [] = refl
any_id-ordered q (y ∷ xs) =
    any_id-insert q y (ordered xs) ∙ ap (λ b. q y.id || b) (any_id-ordered q xs)
