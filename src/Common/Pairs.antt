-- ===== src/Common/Pairs.antt =====
-- Lists of which any two elements are in a relation, as the keys of a table are.
use Prim.Native.Nat.{◌+◌, ◌≤◌}
use mathlib.Core.Path.{◌≡◌, refl, ap, ap₂}
use mathlib.Core.Logic.{inl, inr}
use mathlib.Core.Bool.{Bool, false, ◌||◌}
use mathlib.Core.List.{List, [], ◌∷◌, ◌++◌, map}
use native.Mathlib.Omega.{arith}
use makidoku.Common.Tests.{Bool-cases}
use makidoku.Common.Lists.{All, All-append, any, count_if, filter, length}
use makidoku.Common.Tables.{update_rows}

module _ {ℓ κ} {A : Type ℓ} (R : A → A → Type κ) where
  abbrev pub Pairwise : List A → Type κ
  Pairwise [] = Unit
  Pairwise (x ∷ xs) = All (R x) xs × Pairwise xs

  pub Pairwise-append :
      (xs : List A) (y : A) → Pairwise xs → All (λ x. R x y) xs → Pairwise (xs ++ y ∷ [])
  Pairwise-append [] y h k = (tt, tt)
  Pairwise-append (x ∷ xs) y (hx, h) (kx, k) =
      (All-append (R x) xs (y ∷ []) hx (kx, tt), Pairwise-append xs y h k)

module _ {ℓ κ} {A : Type ℓ} {K : Type κ} (key : A → K) where
  pub map-update_rows :
      (p : A → Bool) (f : A → A) (xs : List A)
      → ((x : A) → key (f x) ≡ key x)
      → map key (update_rows p f xs) ≡ map key xs
  map-update_rows p f [] h = refl
  map-update_rows p f (x ∷ xs) h = elim (Bool-cases (p x)) [
    | inl e ↦ rw e (ap₂ (λ k ks. k ∷ ks) (h x) (map-update_rows p f xs h))
    | inr e ↦ rw e (ap (λ ks. key x ∷ ks) (map-update_rows p f xs h))
  ]

module _ {ℓ κ μ} {A : Type ℓ} {K : Type κ} (key : A → K) where
  pub All-map-filter :
      (P : K → Type μ) (p : A → Bool) (xs : List A)
      → All P (map key xs)
      → All P (map key (filter p xs))
  All-map-filter P p [] h = tt
  All-map-filter P p (x ∷ xs) (hx, h) = elim (Bool-cases (p x)) [
    | inl e ↦ rw e (hx, All-map-filter P p xs h)
    | inr e ↦ rw e (All-map-filter P p xs h)
  ]

  pub Pairwise-map-filter :
      (R : K → K → Type μ) (p : A → Bool) (xs : List A)
      → Pairwise R (map key xs)
      → Pairwise R (map key (filter p xs))
  Pairwise-map-filter R p [] h = tt
  Pairwise-map-filter R p (x ∷ xs) (hx, h) = elim (Bool-cases (p x)) [
    | inl e ↦ rw e (All-map-filter (R (key x)) p xs hx, Pairwise-map-filter R p xs h)
    | inr e ↦ rw e (Pairwise-map-filter R p xs h)
  ]

-- Among rows of which no two pass `same x`, as many pass a search by key as it has keys at most.
module _ {ℓ κ} {A : Type ℓ} {K : Type κ} (has : K → A → Bool) where
  count_either :
      (p q : A → Bool) (xs : List A) → count_if (λ x. p x || q x) xs ≤ count_if p xs + count_if q xs
  count_either p q [] = omega arith
  count_either p q (x ∷ xs) = let rest = count_either p q xs in ground arith

  count_if-false : (xs : List A) → count_if (λ x. false) xs ≡ 0
  count_if-false [] = refl
  count_if-false (x ∷ xs) = count_if-false xs

  pub count-any :
      (ks : List K) (xs : List A)
      → ((k : K) → count_if (has k) xs ≤ 1)
      → count_if (λ x. any (λ k. has k x) ks) xs ≤ length ks
  count-any [] xs once = omega (arith, count_if-false xs)
  count-any (k ∷ ks) xs once =
      let rest = count-any ks xs once in
      let both = count_either (has k) (λ x. any (λ l. has l x) ks) xs in
      let one = once k in omega arith
