-- ===== src/Migration/Match.antt =====
-- Similarity and Match of internal/migration/match.go. The package levenshtein is the parameter
-- `distance`. A score is the fraction of which the code takes the float64: at titles shorter than
-- 2 ^ 20 runes the float64 values stand in the same order, also to the threshold.
use makidoku.Common.{
  ℕ, suc, String, ◌-◌, ◌*◌, Bool, ◌||◌, Option, none, some, List, [], ◌∷◌, length, ltb, ◌==◌,
  if◌then◌else◌, max,
}

abbrev pub Text : Type 0
Text = List ℕ

pub record Score : Type 0 where
  pub num : ℕ
  pub den : ℕ

abbrev pub one : Score
one = record { num = 1; den = 1 }

abbrev pub lower : Score → Score → Bool
lower a b = ltb (a.num * b.den) (b.num * a.den)

-- MinEligibleThreshold, 0.4.
abbrev pub min_eligible_threshold : Score
min_eligible_threshold = record { num = 2; den = 5 }

pub record Candidate : Type 0 where
  pub id : String
  pub title : Text

abbrev pub better_of : ℕ → Score → Option (ℕ × Score) → Option (ℕ × Score)
better_of i s none = some (i, s)
better_of i s (some (b, t)) = if lower t s then some (i, s) else some (b, t)

abbrev pub consider : ℕ → Score → Option (ℕ × Score) → Option (ℕ × Score)
consider i s best = if lower s min_eligible_threshold then best else better_of i s best

-- The loop over the candidates from index `i`.
unfoldable pub match_from :
    (Candidate → Score) → ℕ → List Candidate → Option (ℕ × Score) → Option (ℕ × Score)
match_from score i [] best = best
match_from score i (c ∷ cs) best = match_from score (suc i) cs (consider i (score c) best)

-- `clean` is CleanTitle.
module _ (distance : Text → Text → ℕ) (clean : Text → Text) where
  -- A difference below 0 is a score of 0, as the subtraction gives.
  unfoldable pub similarity : Text → Text → Score
  similarity a b =
      let longest = max (length a) (length b) in
      if longest == 0 then one else record { num = longest - distance a b; den = longest }

  abbrev pub cleaned : Bool → Text → Text
  cleaned deep t = if deep then clean t else t

  -- A single candidate of a single query is not compared.
  unfoldable pub candidate_score : Text → Bool → Bool → Candidate → Score
  unfolding similarity
  candidate_score target compared deep c =
      if compared then similarity target (cleaned deep c.title) else one

  -- Match: the index and the score, or none for `found == false`.
  unfoldable pub match : List Candidate → Text → ℕ → Bool → Option (ℕ × Score)
  unfolding match_from
  match candidates want query_count deep =
      match_from
        (candidate_score (cleaned deep want) (ltb 1 query_count || ltb 1 (length candidates)) deep)
        0 candidates none
