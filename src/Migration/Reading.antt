-- ===== src/Migration/Reading.antt =====
-- That every text is runes and bracket groups, as removeTextInBrackets
-- (internal/migration/deepsearch.go) takes them.
use makidoku.Common.{
  ℕ, ◌≡◌, refl, sym, ap, ◌∙◌, Bool, true, false, List, [], ◌∷◌, ◌++◌, All, Bool-cases, inl, inr,
}
use mathlib.Core.List.{reverse-reverse}
use makidoku.Runes.{Text}
use makidoku.Migration.Clean.{opening, closing}
use makidoku.Migration.Brackets.{
  Bracketed, done, rune, group, unclosed, print, IsBracketed, closing-opening, append_assoc, read,
}

-- Parts that end at a closing delimiter with no group of theirs to close, and what follows.
abbrev Parts : Type 0
Parts = List (Bracketed × ℕ)

abbrev print_parts : Parts → Bracketed → Text
print_parts [] last = print last
print_parts ((b, c) ∷ parts) last = print b ++ c ∷ print_parts parts last

abbrev join : Bracketed → Bracketed → Bracketed
join done k = k
join (rune r rest) k = rune r (join rest k)
join (group o inner c rest) k = group o inner c (join rest k)
join (unclosed o inner) k = k

abbrev at_top : Parts → Bracketed → Bracketed
at_top [] last = last
at_top ((b, c) ∷ parts) last = join b (rune c (at_top parts last))

module _ (f : Bool) where
  abbrev IsPart : Bracketed × ℕ → Type 0
  IsPart (b, c) = IsBracketed f false false b × (closing f c ≡ true)

  abbrev Reads : Text → Type 0
  Reads t =
      (parts : Parts) × (last : Bracketed) × All IsPart parts
      × IsBracketed f false true last
      × (print_parts parts last ≡ t)

  opened : (r : ℕ) (t : Text) → opening f r ≡ true → Reads t → Reads (r ∷ t)
  opened r t o ([], last, h, k, e) = ([], unclosed r last, tt, (refl, o, k), ap (λ s. r ∷ s) e)
  opened r t o ((b, c) ∷ [], last, ((hb, hc), h), k, e) =
      ([], group r b c last, tt, (o, hb, hc, k), ap (λ s. r ∷ s) e)
  opened r t o ((b, c) ∷ (b', c') ∷ parts, last, ((hb, hc), ((hb', hc'), h)), k, e) = (
    (group r b c b', c') ∷ parts,
    last,
    (((o, hb, hc, hb'), hc'), h),
    k,
    ap (λ s. r ∷ s) (append_assoc (print b) (c ∷ print b') (c' ∷ print_parts parts last) ∙ e),
  )

  plain : (r : ℕ) (t : Text) → opening f r ≡ false → closing f r ≡ false → Reads t → Reads (r ∷ t)
  plain r t o c ([], last, h, k, e) = ([], rune r last, tt, (o, rw c refl, k), ap (λ s. r ∷ s) e)
  plain r t o c ((b, d) ∷ parts, last, ((hb, hd), h), k, e) =
      ((rune r b, d) ∷ parts, last, (((o, rw c refl, hb), hd), h), k, ap (λ s. r ∷ s) e)

  reads : (t : Text) → Reads t
  reads [] = ([], done, tt, tt, refl)
  reads (r ∷ t) = elim (Bool-cases (opening f r)) [
    | inl o ↦ opened r t o (reads t)
    | inr o ↦ elim (Bool-cases (closing f r)) [
      | inl c ↦
          let (parts, last, h, k, e) = reads t in
          ((done, r) ∷ parts, last, ((tt, c), h), k, ap (λ s. r ∷ s) e)
      | inr c ↦ plain r t o c (reads t)
    ]
  ]

  top-IsBracketed : (b : Bracketed) → IsBracketed f false true b → IsBracketed f true true b
  top-IsBracketed done h = tt
  top-IsBracketed (rune r rest) (o, c, h) = (o, refl, top-IsBracketed rest h)
  top-IsBracketed (group o inner c rest) (p, i, q, h) = (p, i, q, top-IsBracketed rest h)
  top-IsBracketed (unclosed o inner) h = h

  join-IsBracketed :
      (b k : Bracketed)
      → IsBracketed f false false b
      → IsBracketed f true true k
      → IsBracketed f true true (join b k)
  join-IsBracketed done k h m = m
  join-IsBracketed (rune r rest) k (o, c, h) m = (o, refl, join-IsBracketed rest k h m)
  join-IsBracketed (group o inner c rest) k (p, i, q, h) m = (p, i, q, join-IsBracketed rest k h m)
  join-IsBracketed (unclosed o inner) k (e, p, h) m = absurd cc

  print-join :
      (b k : Bracketed) → IsBracketed f false false b → print (join b k) ≡ print b ++ print k
  print-join done k h = refl
  print-join (rune r rest) k (o, c, h) = ap (λ s. r ∷ s) (print-join rest k h)
  print-join (group o inner c rest) k (p, i, q, h) =
      ap (λ s. o ∷ (print inner ++ c ∷ s)) (print-join rest k h)
      ∙ ap (λ s. o ∷ s) (sym (append_assoc (print inner) (c ∷ print rest) (print k)))
  print-join (unclosed o inner) k (e, p, h) = absurd cc

  at_top-IsBracketed :
      (parts : Parts) (last : Bracketed)
      → All IsPart parts
      → IsBracketed f false true last
      → IsBracketed f true true (at_top parts last)
  at_top-IsBracketed [] last h k = top-IsBracketed last k
  at_top-IsBracketed ((b, c) ∷ parts) last ((hb, hc), h) k =
      join-IsBracketed b (rune c (at_top parts last)) hb
        (closing-opening f c hc, refl, at_top-IsBracketed parts last h k)

  print-at_top :
      (parts : Parts) (last : Bracketed)
      → All IsPart parts
      → print (at_top parts last) ≡ print_parts parts last
  print-at_top [] last h = refl
  print-at_top ((b, c) ∷ parts) last ((hb, hc), h) =
      print-join b (rune c (at_top parts last)) hb
      ∙ ap (λ s. print b ++ c ∷ s) (print-at_top parts last h)

-- Every text is such a sequence, in either direction of reading.
reads-IsBracketed :
    (forward : Bool) (t : Text)
    → (b : Bracketed) × IsBracketed forward true true b × (read forward (print b) ≡ t)
reads-IsBracketed forward t =
    let (parts, last, h, k, e) = reads forward (read forward t) in
    (
      at_top parts last,
      at_top-IsBracketed forward parts last h k,
      ap (read forward) (print-at_top forward parts last h ∙ e) ∙ twice forward,
    )
  where
    twice : (b : Bool) → read b (read b t) ≡ t
    twice true = refl
    twice false = reverse-reverse t
