-- ===== src/Common/Tables.antt =====
-- A table of a database as the list of its rows, and UPDATE on the rows that meet a condition.
use Prim.Native.Nat.{◌≤◌, ◌<◌}
use mathlib.Core.Path.{◌≡◌, refl, ap}
use mathlib.Core.Logic.{inl, inr}
use mathlib.Core.Bool.{Bool, true, false, ◌&&◌}
use mathlib.Core.List.{List, [], ◌∷◌}
use native.Mathlib.Omega.{arith}
use makidoku.Common.Tests.{if◌then◌else◌, Bool-cases}
use mathlib.Core.Option.{some}
use makidoku.Common.Lists.{All, any, count_if, filter, find?}

module _ {ℓ} {A : Type ℓ} where
  abbrev pub update_rows : (A → Bool) → (A → A) → List A → List A
  update_rows p f [] = []
  update_rows p f (x ∷ xs) = (if p x then f x else x) ∷ update_rows p f xs

  pub All-update_rows {κ μ} :
      {P : A → Type κ} {Q : A → Type μ} (p : A → Bool) (f : A → A) (xs : List A)
      → ((x : A) → P x → p x ≡ true → Q (f x))
      → ((x : A) → P x → p x ≡ false → Q x)
      → All P xs
      → All Q (update_rows p f xs)
  All-update_rows p f [] hit miss h = tt
  All-update_rows p f (x ∷ xs) hit miss (hx, h) = elim (Bool-cases (p x)) [
    | inl e ↦ rw e (hit x hx e, All-update_rows p f xs hit miss h)
    | inr e ↦ rw e (miss x hx e, All-update_rows p f xs hit miss h)
  ]

  -- An update whose rows fail a test afterwards does not raise the number of rows that pass it,
  pub count-update_rows :
      (q p : A → Bool) (f : A → A) (xs : List A)
      → ((x : A) → q (f x) ≡ false)
      → count_if q (update_rows p f xs) ≤ count_if q xs
  count-update_rows q p f [] h = omega arith
  count-update_rows q p f (x ∷ xs) h =
      let rest = count-update_rows q p f xs h in let hx = h x in ground arith

  -- and lowers it where an updated row passed it.
  pub count-update_rows-lt :
      (q p : A → Bool) (f : A → A) (xs : List A)
      → ((x : A) → q (f x) ≡ false)
      → any (λ x. p x && q x) xs ≡ true
      → count_if q (update_rows p f xs) < count_if q xs
  count-update_rows-lt q p f [] h hit = absurd cc
  count-update_rows-lt q p f (x ∷ xs) h hit =
      let most = count-update_rows q p f xs h in
      let hx = h x in
      elim (Bool-cases (p x && q x)) [
        | inl e ↦ ground arith
        | inr e ↦ let rest = count-update_rows-lt q p f xs h (ground arith) in ground arith
      ]

  -- A row that passes a test, of which all rows have a property.
  pub any-All {κ} :
      {P : A → Type κ} (q : A → Bool) (xs : List A)
      → any q xs ≡ true
      → All P xs
      → (x : A) × (q x ≡ true) × P x
  any-All q [] hit h = absurd cc
  any-All q (x ∷ xs) hit (hx, h) = elim (Bool-cases (q x)) [
    | inl e ↦ (x, e, hx)
    | inr e ↦ any-All q xs (ground arith) h
  ]

  pub count_if-zero : (q : A → Bool) (xs : List A) → count_if q xs ≡ 0 → any q xs ≡ false
  count_if-zero q [] h = refl
  count_if-zero q (x ∷ xs) h = elim (Bool-cases (q x)) [
    | inl e ↦ ground arith
    | inr e ↦ let rest = count_if-zero q xs (ground arith) in ground arith
  ]

  pub any-find? :
      (q : A → Bool) (xs : List A)
      → any q xs ≡ true
      → (x : A) × (find? q xs ≡ some x) × (q x ≡ true)
  any-find? q [] hit = absurd cc
  any-find? q (x ∷ xs) hit = elim (Bool-cases (q x)) [
    | inl e ↦ (x, (rw e refl), e)
    | inr e ↦ rw e (any-find? q xs (ground arith))
  ]

  -- An update that leaves the answer of a test leaves the answer of the search for a row.
  pub any-update_rows :
      (q p : A → Bool) (f : A → A) (xs : List A)
      → ((x : A) → q (f x) ≡ q x)
      → any q (update_rows p f xs) ≡ any q xs
  any-update_rows q p f [] h = refl
  any-update_rows q p f (x ∷ xs) h =
      let rest = any-update_rows q p f xs h in let hx = h x in ground arith

  pub update_rows-update_rows :
      (p : A → Bool) (f g : A → A) (xs : List A)
      → ((x : A) → p (g x) ≡ p x)
      → update_rows p f (update_rows p g xs) ≡ update_rows p (λ x. f (g x)) xs
  update_rows-update_rows p f g [] h = refl
  update_rows-update_rows p f g (x ∷ xs) h = elim (Bool-cases (p x)) [
    | inl e ↦ rw (e, h x, e) (ap (λ t. f (g x) ∷ t) (update_rows-update_rows p f g xs h))
    | inr e ↦ rw (e, e) (ap (λ t. x ∷ t) (update_rows-update_rows p f g xs h))
  ]

  pub count-filter : (q p : A → Bool) (xs : List A) → count_if q (filter p xs) ≤ count_if q xs
  count-filter q p [] = omega arith
  count-filter q p (x ∷ xs) = let rest = count-filter q p xs in ground arith

  pub count_if-none : (q : A → Bool) (xs : List A) → All (λ x. q x ≡ false) xs → count_if q xs ≡ 0
  count_if-none q [] h = refl
  count_if-none q (x ∷ xs) (hx, h) = let rest = count_if-none q xs h in ground arith

  pub any-false : (q : A → Bool) (xs : List A) → any q xs ≡ false → All (λ x. q x ≡ false) xs
  any-false q [] h = tt
  any-false q (x ∷ xs) h = (ground arith, any-false q xs (ground arith))

  pub count-filter_imp :
      (q p r : A → Bool) (xs : List A)
      → ((x : A) → q x ≡ true → p x ≡ true → r x ≡ true)
      → count_if q (filter p xs) ≤ count_if r xs
  count-filter_imp q p r [] h = omega arith
  count-filter_imp q p r (x ∷ xs) h =
      let rest = count-filter_imp q p r xs h in let hx = h x in ground arith

  pub count-update_rows_same :
      (q p : A → Bool) (f : A → A) (xs : List A)
      → ((x : A) → q (f x) ≡ q x)
      → count_if q (update_rows p f xs) ≡ count_if q xs
  count-update_rows_same q p f [] h = refl
  count-update_rows_same q p f (x ∷ xs) h =
      let rest = count-update_rows_same q p f xs h in let hx = h x in ground arith
