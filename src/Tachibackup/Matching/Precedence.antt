-- ===== src/Tachibackup/Matching/Precedence.antt =====
-- About which source a match finds (matchSource of internal/tachibackup/match.go).
use makidoku.Common.{
  ℕ, ◌≡◌, refl, inl, inr, Bool, true, false, Option, none, some, List, [], ◌∷◌, any, find?,
  Bool-cases, arith,
}
use makidoku.Runes.{Text}
use makidoku.Tachibackup.Matching.{
  SourceRef, Kind, by_name, by_alias, by_host, is_named, is_aliased, is_hosted, or_else,
  match_source,
}

-- The first element that passes: it passes and it is in the list; or none does.
abbrev IsFound : (SourceRef → Bool) → List SourceRef → Option SourceRef → Type 0
IsFound p cs none = any p cs ≡ false
IsFound p cs (some c) = (p c ≡ true) × ((q : SourceRef → Bool) → q c ≡ true → any q cs ≡ true)

IsFound-later :
    (p : SourceRef → Bool) (x : SourceRef) (xs : List SourceRef) (o : Option SourceRef)
    → p x ≡ false
    → IsFound p xs o
    → IsFound p (x ∷ xs) o
IsFound-later p x xs none f h = ground arith
IsFound-later p x xs (some c) f (passes, holds) =
    (passes, λ q hq. let rest = holds q hq in ground arith)

find?-IsFound : (p : SourceRef → Bool) (cs : List SourceRef) → IsFound p cs (find? p cs)
find?-IsFound p [] = refl
find?-IsFound p (x ∷ xs) = elim (Bool-cases (p x)) [
  | inl e ↦ rw e (e, λ q hq. ground arith)
  | inr e ↦ rw e (IsFound-later p x xs (find? p xs) e (find?-IsFound p xs))
]

module _ (to_lower : ℕ → ℕ) (url_host : Text → Option Text) (name : Text) (urls : List Text)
    (installed : List SourceRef) where
  abbrev named : SourceRef → Bool
  named = is_named to_lower url_host name urls

  abbrev aliased : SourceRef → Bool
  aliased = is_aliased to_lower url_host name urls

  abbrev hosted : SourceRef → Bool
  hosted = is_hosted to_lower url_host name urls

  abbrev Installed : SourceRef → Type 0
  Installed c = (q : SourceRef → Bool) → q c ≡ true → any q installed ≡ true

  abbrev pub IsMatch : Option (SourceRef × Kind) → Type 0
  IsMatch none =
      (any named installed ≡ false)
      × (any aliased installed ≡ false)
      × (any hosted installed ≡ false)
  IsMatch (some (c, by_name)) = (named c ≡ true) × Installed c
  IsMatch (some (c, by_alias)) = (aliased c ≡ true) × Installed c × (any named installed ≡ false)
  IsMatch (some (c, by_host)) =
      (hosted c ≡ true)
      × Installed c
      × (any named installed ≡ false)
      × (any aliased installed ≡ false)

  in_order :
      (a b c : Option SourceRef)
      → IsFound named installed a
      → IsFound aliased installed b
      → IsFound hosted installed c
      → IsMatch (
          or_else to_lower url_host name urls by_name a (
            or_else to_lower url_host name urls by_alias b
              (or_else to_lower url_host name urls by_host c none)))
  in_order (some a) b c h k l = h
  in_order none (some b) c h (passes, holds) l = (passes, holds, h)
  in_order none none (some c) h k (passes, holds) = (passes, holds, h, k)
  in_order none none none h k l = (h, k, l)

-- The match is an installed source: one with the name, else one with another name of the same site,
-- else one with the host of a title; and there is no match only if no installed source is any of
-- these.
pub match_source-IsMatch :
    (to_lower : ℕ → ℕ) (url_host : Text → Option Text) (name : Text) (urls : List Text)
    (installed : List SourceRef)
    → IsMatch to_lower url_host name urls installed
        (match_source to_lower url_host name urls installed)
unfolding match_source
match_source-IsMatch to_lower url_host name urls installed =
    in_order to_lower url_host name urls installed
      (find? (is_named to_lower url_host name urls) installed)
      (find? (is_aliased to_lower url_host name urls) installed)
      (find? (is_hosted to_lower url_host name urls) installed)
      (find?-IsFound (is_named to_lower url_host name urls) installed)
      (find?-IsFound (is_aliased to_lower url_host name urls) installed)
      (find?-IsFound (is_hosted to_lower url_host name urls) installed)
