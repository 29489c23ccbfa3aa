-- ===== src/Migration/Best.antt =====
-- About the candidate that Match (internal/migration/match.go) picks.
use makidoku.Common.{
  ℕ, suc, ◌+◌, ◌<◌, ◌≡◌, refl, subst, inl, inr, Bool, true, false, ◌||◌, Option, none, some, List,
  [], ◌∷◌, arith, length, get_elem?, ltb, Bool-cases, All,
}
use makidoku.Migration.Match.{
  Text, Score, lower, Candidate, min_eligible_threshold, candidate_score, cleaned, better_of,
  match_from, match,
}
use makidoku.Migration.Ranking.{
  IsPositive, AtMost, Below, AtMost-refl, AtMost-Below, AtMost-trans, Below-trans,
  AtMost-Below-trans, similarity-IsPositive,
}

abbrev pub IsEligible : Score → Type 0
IsEligible s = lower s min_eligible_threshold ≡ false

-- Every candidate at its index, which starts at `i`.
abbrev pub AllFrom : ℕ → (ℕ → Candidate → Type 0) → List Candidate → Type 0
AllFrom i P [] = Unit {0}
AllFrom i P (c ∷ cs) = P i c × AllFrom (suc i) P cs

module _ (score : Candidate → Score) where
  -- The score is at least that of the eligible candidate, and higher if it comes first.
  abbrev pub Yields : ℕ → Score → ℕ → Candidate → Type 0
  Yields k s i c = IsEligible (score c) → AtMost (score c) s × (i < k → Below (score c) s)

  abbrev Fine : ℕ → Option (ℕ × Score) → Type 0
  Fine i none = Unit {0}
  Fine i (some (b, t)) = (b < i) × IsPositive t

  abbrev Start : Option (ℕ × Score) → ℕ → Score → Type 0
  Start none k s = Unit {0}
  Start (some (b, t)) k s = AtMost t s × (b < k → Below t s)

  -- Where the result comes from: from before, or from the list.
  data Origin (i : ℕ) (cs : List Candidate) : Option (ℕ × Score) → ℕ → Score → Type 0 where
    old :
        {best : Option (ℕ × Score)} {k : ℕ} {s : Score} → best ≡ some (k, s) → Origin i cs best k s
    new :
        {best : Option (ℕ × Score)} {k : ℕ} {s : Score} (j : ℕ) (c : Candidate)
        → k ≡ i + j
        → get_elem? cs j ≡ some c
        → score c ≡ s
        → IsEligible s
        → Origin i cs best k s

  abbrev Result : ℕ → List Candidate → Option (ℕ × Score) → Option (ℕ × Score) → Type 0
  Result i cs best none = (best ≡ none) × All (λ c. Below (score c) min_eligible_threshold) cs
  Result i cs best (some (k, s)) =
      IsPositive s × Start best k s × AllFrom i (Yields k s) cs × Origin i cs best k s

  nothing_yet : (i : ℕ) (best : Option (ℕ × Score)) → Fine i best → Result i [] best best
  nothing_yet i none f = (refl, tt)
  nothing_yet i (some (b, t)) (lt, p) =
      (p, (AtMost-refl t, λ h. absurd (omega arith)), tt, old refl)

  shift :
      {i : ℕ} {c : Candidate} {cs : List Candidate} {best : Option (ℕ × Score)} {k : ℕ} {s : Score}
      → Origin (suc i) cs best k s
      → Origin i (c ∷ cs) best k s
  shift (old e) = old e
  shift (new j d e g h l) = new (suc j) d (omega arith) g h l

  -- The candidate in front is too low.
  skipped :
      (i : ℕ) (c : Candidate) (cs : List Candidate) (best r : Option (ℕ × Score))
      → Below (score c) min_eligible_threshold
      → Result (suc i) cs best r
      → Result i (c ∷ cs) best r
  skipped i c cs best none low (e, h) = (e, (low, h))
  skipped i c cs best (some (k, s)) low (p, st, h, o) = (p, st, (λ el. absurd cc, h), shift o)

  front :
      {i : ℕ} {c : Candidate} {cs : List Candidate} {best : Option (ℕ × Score)} {k : ℕ} {s : Score}
      → Origin (suc i) cs (some (i, score c)) k s
      → IsEligible (score c)
      → Origin i (c ∷ cs) best k s
  front {i} {c} {cs} {best} {k} {s} (old e) el =
      let here : i ≡ k = cc in
      let same : score c ≡ s = cc in new 0 c (omega arith) refl same (subst IsEligible same el)
  front (new j d e g h l) el = new (suc j) d (omega arith) g h l

  -- The candidate in front becomes the best.
  taken :
      (i : ℕ) (c : Candidate) (cs : List Candidate) (best r : Option (ℕ × Score))
      → IsEligible (score c)
      → Fine i best
      → ((b : ℕ) (t : Score) → best ≡ some (b, t) → Below t (score c))
      → Result (suc i) cs (some (i, score c)) r
      → Result i (c ∷ cs) best r
  taken i c cs best none el f up (e, h) = absurd cc
  taken i c cs best (some (k, s)) el f up (p, (le, lt), h, o) =
      (p, start best up, (λ _. (le, lt), h), front o el)
    where
      start :
          (best : Option (ℕ × Score))
          → ((b : ℕ) (t : Score) → best ≡ some (b, t) → Below t (score c))
          → Start best k s
      start none up = tt
      start (some (b, t)) up =
          let below = Below-trans t (score c) s p (up b t refl) le in
          (AtMost-Below t s below, λ _. below)

  -- The candidate in front does not beat the best.
  beaten :
      (i : ℕ) (c : Candidate) (cs : List Candidate) (b : ℕ) (t : Score) (r : Option (ℕ × Score))
      → IsPositive (score c)
      → Fine i (some (b, t))
      → AtMost (score c) t
      → Result (suc i) cs (some (b, t)) r
      → Result i (c ∷ cs) (some (b, t)) r
  beaten i c cs b t none q f le (e, h) = absurd cc
  beaten i c cs b t (some (k, s)) q (bi, pt) le (p, (ts, lt), h, o) = (
    p,
    (ts, lt),
    (
      λ _. (
        AtMost-trans (score c) t s pt le ts,
        λ ik. AtMost-Below-trans (score c) t s q le (lt (omega arith)),
      ),
      h,
    ),
    shift o,
  )

  module _ (positive : (c : Candidate) → IsPositive (score c)) where
    weighed :
        (i : ℕ) (c : Candidate) (cs : List Candidate) (best : Option (ℕ × Score))
        → Fine i best
        → IsEligible (score c)
        → ((next : Option (ℕ × Score))
            → Fine (suc i) next
            → Result (suc i) cs next (match_from score (suc i) cs next))
        → Result i (c ∷ cs) best (match_from score (suc i) cs (better_of i (score c) best))
    weighed i c cs none f el ih =
        taken i c cs none _ el f (λ b t e. absurd cc)
          (ih (some (i, score c)) (omega arith, positive c))
    weighed i c cs (some (b, t)) (bi, pt) el ih = elim (Bool-cases (lower t (score c))) [
      | inl up ↦ rw up (
          taken i c cs (some (b, t)) _ el (bi, pt)
            (λ b' t' e. let same : t ≡ t' = cc in subst (λ x. Below x (score c)) same up)
            (ih (some (i, score c)) (omega arith, positive c)))
      | inr le ↦
          rw le (beaten i c cs b t _ (positive c) (bi, pt) le (ih (some (b, t)) (omega arith, pt)))
    ]

    later : (i : ℕ) (best : Option (ℕ × Score)) → Fine i best → Fine (suc i) best
    later i none f = tt
    later i (some (b, t)) (lt, p) = (omega arith, p)

    match_from-Result :
        (i : ℕ) (cs : List Candidate) (best : Option (ℕ × Score))
        → Fine i best
        → Result i cs best (match_from score i cs best)
    unfolding match_from
    match_from-Result i [] best f = nothing_yet i best f
    match_from-Result i (c ∷ cs) best f =
        elim (Bool-cases (lower (score c) min_eligible_threshold)) [
          | inl low ↦
              rw low
                (skipped i c cs best _ low (match_from-Result (suc i) cs best (later i best f)))
          | inr el ↦ rw el (weighed i c cs best f el (match_from-Result (suc i) cs))
        ]

  -- No candidate reaches the threshold; or the one at `k` does, with score `s`, and no other that
  -- does has a higher score, nor one before it an equal one.
  abbrev pub IsBest : List Candidate → Option (ℕ × Score) → Type 0
  IsBest cs none = All (λ c. Below (score c) min_eligible_threshold) cs
  IsBest cs (some (k, s)) =
      ((c : Candidate) × (get_elem? cs k ≡ some c) × (score c ≡ s))
      × IsEligible s
      × AllFrom 0 (Yields k s) cs

  Origin-IsBest :
      (cs : List Candidate) {k : ℕ} {s : Score}
      → Origin 0 cs none k s
      → ((c : Candidate) × (get_elem? cs k ≡ some c) × (score c ≡ s)) × IsEligible s
  Origin-IsBest cs (old e) = absurd cc
  Origin-IsBest cs {k} (new j c d e g el) =
      let same : k ≡ j = omega arith in ((c, rw same e, g), el)

  Result-IsBest : (cs : List Candidate) (r : Option (ℕ × Score)) → Result 0 cs none r → IsBest cs r
  Result-IsBest cs none (e, h) = h
  Result-IsBest cs (some (k, s)) (p, st, h, o) = let (c, el) = Origin-IsBest cs o in (c, el, h)

pub candidate_score-IsPositive :
    (distance : Text → Text → ℕ) (clean : Text → Text) (target : Text) (compared deep : Bool)
    (c : Candidate)
    → IsPositive (candidate_score distance clean target compared deep c)
unfolding candidate_score
candidate_score-IsPositive distance clean target true deep c =
    similarity-IsPositive distance clean target _
candidate_score-IsPositive distance clean target false deep c = omega arith

-- Match returns the first of the candidates with the highest score among those that reach the
-- threshold, with its index and score, and none only where no candidate reaches it. The scores are
-- those of the comparison with the title, cleaned on both sides by a deep search, and all 1 where a
-- single query gave a single candidate.
pub match-IsBest :
    (distance : Text → Text → ℕ) (clean : Text → Text) (candidates : List Candidate) (want : Text)
    (query_count : ℕ) (deep : Bool)
    → IsBest
        (candidate_score distance clean
          (cleaned distance clean deep want)
          (ltb 1 query_count || ltb 1 (length candidates))
          deep)
        candidates
        (match distance clean candidates want query_count deep)
unfolding match
match-IsBest distance clean candidates want query_count deep =
    let score =
      candidate_score distance clean (cleaned distance clean deep want)
        (ltb 1 query_count || ltb 1 (length candidates)) deep in
    Result-IsBest score candidates _ (
      match_from-Result score
        (candidate_score-IsPositive distance clean (cleaned distance clean deep want)
          (ltb 1 query_count || ltb 1 (length candidates)) deep)
        0 candidates none tt)
