-- ===== src/Common/Sorting.antt =====
-- Stable insertion sort by a Boolean order, as sort.SliceStable.
use Prim.Native.Nat.{suc}
use mathlib.Core.Path.{◌≡◌, refl, ap, ◌∙◌}
use mathlib.Core.Logic.{inl, inr}
use mathlib.Core.Bool.{Bool, true, false}
use mathlib.Core.List.{List, [], ◌∷◌}
use native.Mathlib.Omega.{arith}
use makidoku.Common.Tests.{if◌then◌else◌, Bool-cases}
use makidoku.Common.Lists.{All, All-imp, count_if, length}
use makidoku.Common.Pairs.{Pairwise}

module _ {ℓ} {A : Type ℓ} (before : A → A → Bool) where
  unfoldable pub insert_sorted : A → List A → List A
  insert_sorted x [] = x ∷ []
  insert_sorted x (y ∷ ys) =
      let rest = insert_sorted x ys in if before y x then y ∷ rest else x ∷ y ∷ ys

  unfoldable pub sort_stable : List A → List A
  unfolding insert_sorted
  sort_stable [] = []
  sort_stable (x ∷ xs) = insert_sorted x (sort_stable xs)

  count-insert_sorted :
      (p : A → Bool) (x : A) (ys : List A) → count_if p (insert_sorted x ys) ≡ count_if p (x ∷ ys)
  unfolding insert_sorted
  count-insert_sorted p x [] = refl
  count-insert_sorted p x (y ∷ ys) = let rest = count-insert_sorted p x ys in ground arith

  -- A sorted list has the elements of the list, each as often.
  pub count-sort_stable : (p : A → Bool) (xs : List A) → count_if p (sort_stable xs) ≡ count_if p xs
  unfolding sort_stable
  count-sort_stable p [] = refl
  count-sort_stable p (x ∷ xs) =
      let rest = count-sort_stable p xs in
      let put = count-insert_sorted p x (sort_stable xs) in ground arith

  length-insert_sorted : (x : A) (ys : List A) → length (insert_sorted x ys) ≡ suc (length ys)
  unfolding insert_sorted
  length-insert_sorted x [] = refl
  length-insert_sorted x (y ∷ ys) = let rest = length-insert_sorted x ys in ground arith

  pub length-sort_stable : (xs : List A) → length (sort_stable xs) ≡ length xs
  unfolding sort_stable
  length-sort_stable [] = refl
  length-sort_stable (x ∷ xs) =
      length-insert_sorted x (sort_stable xs) ∙ ap suc (length-sort_stable xs)

  module _ (asymm : (a b : A) → before a b ≡ true → before b a ≡ false)
      (trans : (a b c : A) → before b a ≡ false → before c b ≡ false → before c a ≡ false) where
    -- Nothing that comes later goes before `x`.
    abbrev pub Precedes : A → A → Type 0
    Precedes x y = before y x ≡ false

    All-insert_sorted :
        (z x : A) (ys : List A)
        → Precedes z x
        → All (Precedes z) ys
        → All (Precedes z) (insert_sorted x ys)
    unfolding insert_sorted
    All-insert_sorted z x [] hx h = (hx, tt)
    All-insert_sorted z x (y ∷ ys) hx (hy, h) = elim (Bool-cases (before y x)) [
      | inl e ↦ rw e (hy, All-insert_sorted z x ys hx h)
      | inr e ↦ rw e (hx, (hy, h))
    ]

    Pairwise-insert_sorted :
        (x : A) (ys : List A) → Pairwise Precedes ys → Pairwise Precedes (insert_sorted x ys)
    unfolding insert_sorted
    Pairwise-insert_sorted x [] h = (tt, tt)
    Pairwise-insert_sorted x (y ∷ ys) (hy, h) = elim (Bool-cases (before y x)) [
      | inl e ↦ rw e (All-insert_sorted y x ys (asymm y x e) hy, Pairwise-insert_sorted x ys h)
      | inr e ↦ rw e ((e, All-imp ys (λ z k. trans x y z e k) hy), (hy, h))
    ]

    pub Pairwise-sort_stable : (xs : List A) → Pairwise Precedes (sort_stable xs)
    unfolding sort_stable
    Pairwise-sort_stable [] = tt
    Pairwise-sort_stable (x ∷ xs) =
        Pairwise-insert_sorted x (sort_stable xs) (Pairwise-sort_stable xs)
