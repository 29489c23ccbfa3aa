-- ===== src/Migration/Brackets.antt =====
-- About removeTextInBrackets (internal/migration/deepsearch.go).
use makidoku.Common.{
  ℕ, ◌+◌, ◌-◌, ◌<◌, ◌≡◌, refl, ap, ◌∙◌, Bool, true, false, not, ◌||◌, [], ◌∷◌, ◌++◌, arith,
  Bool-cases, inl, inr, ltb, ◌==◌, if◌then◌else◌,
}
use mathlib.Core.List.{reverse, reverse-reverse}
use makidoku.Runes.{Text}
use makidoku.Migration.Clean.{opening, closing, outside, remove_text_in_brackets}

-- A text read as nested groups: a rune, a closed group with what stands in it, or a group that is
-- open to the end of the text.
pub data Bracketed : Type 0 where
  done : Bracketed
  rune : ℕ → Bracketed → Bracketed
  group : ℕ → Bracketed → ℕ → Bracketed → Bracketed
  unclosed : ℕ → Bracketed → Bracketed

abbrev pub print : Bracketed → Text
print done = []
print (rune r rest) = r ∷ print rest
print (group o inner c rest) = o ∷ (print inner ++ c ∷ print rest)
print (unclosed o inner) = o ∷ print inner

-- The runes in no group.
abbrev pub outer : Bracketed → Text
outer done = []
outer (rune r rest) = r ∷ outer rest
outer (group o inner c rest) = outer rest
outer (unclosed o inner) = []

-- Delimiters, of any kind, open and close the groups. A closing one with nothing to close is a rune
-- like others at the top, and a group stays open only at the end.
abbrev pub IsBracketed : Bool → Bool → Bool → Bracketed → Type 0
IsBracketed forward top ends done = Unit
IsBracketed forward top ends (rune r rest) =
    (opening forward r ≡ false)
    × ((top || not (closing forward r)) ≡ true)
    × IsBracketed forward top ends rest
IsBracketed forward top ends (group o inner c rest) =
    (opening forward o ≡ true)
    × IsBracketed forward false false inner
    × (closing forward c ≡ true)
    × IsBracketed forward top ends rest
IsBracketed forward top ends (unclosed o inner) =
    (ends ≡ true) × (opening forward o ≡ true) × IsBracketed forward false true inner

pub closing-opening :
    (forward : Bool) (r : ℕ) → closing forward r ≡ true → opening forward r ≡ false
closing-opening true r h = ground arith
closing-opening false r h = ground arith

pub append_assoc : (a b c : Text) → (a ++ b) ++ c ≡ a ++ (b ++ c)
append_assoc [] b c = refl
append_assoc (x ∷ a) b c = ap (λ t. x ∷ t) (append_assoc a b c)

module _ (f : Bool) where
  outside-open :
      (d r : ℕ) (t : Text) → opening f r ≡ true → outside f d (r ∷ t) ≡ outside f (d + 1) t
  unfolding outside
  outside-open d r t o = rw o refl

  outside-close :
      (d r : ℕ) (t : Text) → closing f r ≡ true → outside f (d + 1) (r ∷ t) ≡ outside f d t
  unfolding outside
  outside-close d r t c =
      let deep : ltb 0 (d + 1) ≡ true = ground arith in
      let back : d + 1 - 1 ≡ d = omega arith in rw (closing-opening f r c, c, deep, back) refl

  outside-inner :
      (d r : ℕ) (t : Text)
      → 0 < d
      → opening f r ≡ false
      → closing f r ≡ false
      → outside f d (r ∷ t) ≡ outside f d t
  unfolding outside
  outside-inner d r t h o c = let deep : (d == 0) ≡ false = ground arith in rw (o, c, deep) refl

  outside-top : (r : ℕ) (t : Text) → opening f r ≡ false → outside f 0 (r ∷ t) ≡ r ∷ outside f 0 t
  unfolding outside
  outside-top r t o = elim (Bool-cases (closing f r)) [
    | inl c ↦ rw (o, c) refl
    | inr c ↦ rw (o, c) refl
  ]

  -- What stands in a closed group is left out, and the depth is as before.
  outside-balanced :
      (b : Bracketed) (d : ℕ) (t : Text)
      → 0 < d
      → IsBracketed f false false b
      → outside f d (print b ++ t) ≡ outside f d t
  outside-balanced done d t h k = refl
  outside-balanced (rune r rest) d t h (o, c, k) =
      outside-inner d r (print rest ++ t) h o (ground (arith, c)) ∙ outside-balanced rest d t h k
  outside-balanced (group o inner c rest) d t h (p, i, q, k) =
      outside-open d o ((print inner ++ c ∷ print rest) ++ t) p
      ∙ ap (outside f (d + 1)) (append_assoc (print inner) (c ∷ print rest) t)
      ∙ outside-balanced inner (d + 1) (c ∷ (print rest ++ t)) (omega arith) i
      ∙ outside-close d c (print rest ++ t) q
      ∙ outside-balanced rest d t h k
  outside-balanced (unclosed o inner) d t h (e, p, k) = absurd cc

  -- Nothing of a group that is never closed is kept.
  outside-unclosed :
      (b : Bracketed) (d : ℕ) → 0 < d → IsBracketed f false true b → outside f d (print b) ≡ []
  unfolding outside
  outside-unclosed done d h k = refl
  outside-unclosed (rune r rest) d h (o, c, k) =
      outside-inner d r (print rest) h o (ground (arith, c)) ∙ outside-unclosed rest d h k
  outside-unclosed (group o inner c rest) d h (p, i, q, k) =
      outside-open d o (print inner ++ c ∷ print rest) p
      ∙ outside-balanced inner (d + 1) (c ∷ print rest) (omega arith) i
      ∙ outside-close d c (print rest) q
      ∙ outside-unclosed rest d h k
  outside-unclosed (unclosed o inner) d h (e, p, k) =
      outside-open d o (print inner) p ∙ outside-unclosed inner (d + 1) (omega arith) k

  outside-print : (b : Bracketed) → IsBracketed f true true b → outside f 0 (print b) ≡ outer b
  unfolding outside
  outside-print done k = refl
  outside-print (rune r rest) (o, c, k) =
      outside-top r (print rest) o ∙ ap (λ t. r ∷ t) (outside-print rest k)
  outside-print (group o inner c rest) (p, i, q, k) =
      outside-open 0 o (print inner ++ c ∷ print rest) p
      ∙ outside-balanced inner 1 (c ∷ print rest) (omega arith) i
      ∙ outside-close 0 c (print rest) q
      ∙ outside-print rest k
  outside-print (unclosed o inner) (e, p, k) =
      outside-open 0 o (print inner) p ∙ outside-unclosed inner 1 (omega arith) k

-- The text in the order of reading: from its end when the groups are searched backwards.
abbrev pub read : Bool → Text → Text
read forward t = if forward then t else reverse t

-- From a text that is a sequence of runes and nested bracket groups, the last of which may be open
-- to the end, what is removed is the groups with all that stands in them, and what stays is the
-- runes in no group, in either direction of reading.
pub remove-print :
    (b : Bracketed) (forward : Bool)
    → IsBracketed forward true true b
    → remove_text_in_brackets (read forward (print b)) forward ≡ read forward (outer b)
unfolding remove_text_in_brackets
remove-print b true k = outside-print true b k
remove-print b false k =
    ap reverse (ap (outside false 0) (reverse-reverse (print b)) ∙ outside-print false b k)
