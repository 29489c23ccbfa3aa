-- ===== src/Rows/Table.antt =====
-- About UPDATE and DELETE on the rows of internal/db/models.go, and keys of tables.
use makidoku.Common.{
  ◌≡◌, ◌≢◌, refl, sym, subst, ◌∙◌, ◌⊎◌, inl, inr, Bool, true, false, List, [], ◌∷◌, ◌++◌, All,
  All-imp, All-append, All-filter, filter, if◌then◌else◌, Bool-cases,
}
use makidoku.Rows.{Row, update_where}

abbrev pub In : Row → List Row → Type 0
In r [] = ⊥
In r (x ∷ xs) = (x ≡ r) ⊎ In r xs

pub All-self : (xs : List Row) → All (λ x. In x xs) xs
All-self [] = tt
All-self (x ∷ xs) = (inl refl, All-imp xs (λ y h. inr h) (All-self xs))

pub All-In {ℓ} : (P : Row → Type ℓ) (xs : List Row) {r : Row} → All P xs → In r xs → P r
All-In P [] h m = absurd m
All-In P (x ∷ xs) (hx, h) (inl e) = subst P e hx
All-In P (x ∷ xs) (hx, h) (inr m) = All-In P xs h m

pub update_where_none :
    (p : Row → Bool) (f : Row → Row) (xs : List Row)
    → All (λ x. p x ≡ false) xs
    → update_where p f xs ≡ xs
update_where_none p f [] h = refl
update_where_none p f (x ∷ xs) (hx, h) = rw (hx, update_where_none p f xs h)

-- Where every row that the condition meets goes over from `P` to `Q`, and every other one too.
pub All-update_where {ℓ κ} :
    {P : Row → Type ℓ} {Q : Row → Type κ} (p : Row → Bool) (f : Row → Row) (xs : List Row)
    → ((x : Row) → P x → p x ≡ true → Q (f x))
    → ((x : Row) → P x → p x ≡ false → Q x)
    → All P xs
    → All Q (update_where p f xs)
All-update_where p f [] hit miss h = tt
All-update_where p f (x ∷ xs) hit miss (hx, h) = elim (Bool-cases (p x)) [
  | inl e ↦ rw e (hit x hx e, All-update_where p f xs hit miss h)
  | inr e ↦ rw e (miss x hx e, All-update_where p f xs hit miss h)
]

module _ {K : Type 0} (key : Row → K) where
  abbrev pub Unique : List Row → Type 0
  Unique [] = Unit
  Unique (x ∷ xs) = All (λ y. key y ≢ key x) xs × Unique xs

  pub Unique-filter : (p : Row → Bool) (xs : List Row) → Unique xs → Unique (filter p xs)
  Unique-filter p [] h = tt
  Unique-filter p (x ∷ xs) (hx, h) = elim (Bool-cases (p x)) [
    | inl e ↦ rw e (All-filter (λ y. key y ≢ key x) p xs hx, Unique-filter p xs h)
    | inr e ↦ rw e (Unique-filter p xs h)
  ]

  keep_key :
      (p : Row → Bool) (f : Row → Row) (x : Row)
      → ((y : Row) → key (f y) ≡ key y)
      → key (if p x then f x else x) ≡ key x
  keep_key p f x keeps = elim (Bool-cases (p x)) [ inl e ↦ rw e (keeps x) | inr e ↦ rw e refl ]

  -- An UPDATE that leaves the key column alone keeps the keys distinct.
  pub Unique-update_where :
      (p : Row → Bool) (f : Row → Row) (xs : List Row)
      → ((y : Row) → key (f y) ≡ key y)
      → Unique xs
      → Unique (update_where p f xs)
  Unique-update_where p f [] keeps h = tt
  Unique-update_where p f (x ∷ xs) keeps (hx, h) = (
    subst (λ (k : K). All (λ y. key y ≢ k) (update_where p f xs)) (sym (keep_key p f x keeps))
        (All-update_where p f xs (λ y ne _ e. ne (sym (keeps y) ∙ e)) (λ y ne _ e. ne e) hx),
    Unique-update_where p f xs keeps h,
  )

  pub Unique-append_one :
      (xs : List Row) (r : Row) → Unique xs → All (λ y. key r ≢ key y) xs → Unique (xs ++ r ∷ [])
  Unique-append_one [] r h new = (tt, tt)
  Unique-append_one (x ∷ xs) r (hx, h) (nx, new) =
      (All-append (λ y. key y ≢ key x) xs (r ∷ []) hx (nx, tt), Unique-append_one xs r h new)
