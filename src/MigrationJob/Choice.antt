-- ===== src/MigrationJob/Choice.antt =====
-- About the match that a search by chapter count returns (searchPrioritized of
-- internal/api/migration_jobs.go).
use makidoku.Common.{
  ℕ, ◌+◌, ◌≡◌, refl, sym, subst, inl, inr, true, false, not, ◌&&◌, ◌||◌, Option, none, some, List,
  length, ltb, any, get_elem?, All, Bool-cases, Option-cases,
}
use makidoku.Common.Result.{Result-cases}
use makidoku.Runes.{Text}
use makidoku.Migration.Match.{Score, Candidate, cleaned, candidate_score}
use makidoku.Migration.Best.{IsBest, match-IsBest, candidate_score-IsPositive}
use makidoku.Migration.Ranking.{IsPositive}
use makidoku.MigrationJob.{InstalledSource, Manga, MangaItem, TitleEvent, Spec}
use makidoku.MigrationJob.Search.{
  Host, is_ok, search_source, match_in, match_of, materialize, chapters_of, item_at, picked, clean,
  candidate_titles, answers, decided, search_prioritized,
}
use makidoku.MigrationJob.Order.{IsNatural}
use makidoku.MigrationJob.Prefer.{
  IsNoBetter, IsRankedOption, offer, materialized, best, choose-best, IsOffered, best_origin,
  best_no_worse,
}

abbrev HasScore {ℓ} : {A : Type ℓ} → Option (A × Score) → Type 0
HasScore none = Unit
HasScore (some (a, s)) = IsPositive s

module _ (host : Host) (spec : Spec) (m : Manga) (base : Text) (qs : List Text) where
  picked-HasScore : (items : List MangaItem) → HasScore (picked host spec base qs items)
  picked-HasScore items =
      from_best (picked host spec base qs items) (
        match-IsBest host.distance (clean host) (candidate_titles items) base (length qs) spec.deep)
    where
      score : Candidate → Score
      score =
          candidate_score host.distance (clean host)
            (cleaned host.distance (clean host) spec.deep base)
            (ltb 1 (length qs) || ltb 1 (length (candidate_titles items))) spec.deep

      from_best : (r : Option (ℕ × Score)) → IsBest score (candidate_titles items) r → HasScore r
      from_best none h = tt
      from_best (some (k, s)) ((c, at, e), eligible, rest) =
          subst (λ t. IsPositive t) e
            (candidate_score-IsPositive host.distance (clean host)
              (cleaned host.distance (clean host) spec.deep base)
              (ltb 1 (length qs) || ltb 1 (length (candidate_titles items))) spec.deep c)

  item_at-HasScore :
      (items : List MangaItem) (r : Option (ℕ × Score))
      → HasScore r
      → HasScore (item_at host items r)
  item_at-HasScore items none h = tt
  item_at-HasScore items (some (i, s)) h = elim (Option-cases (get_elem? items i)) [
    | inl e ↦ rw (HasScore, e) tt
    | inr (x, e) ↦ rw (HasScore, e) h
  ]

  match_of-HasScore : (s : InstalledSource) → HasScore (match_of host spec m base qs s)
  unfolding match_of match_in
  match_of-HasScore s = elim (Result-cases (search_source host s qs)) [
    | inl (e, q) ↦ rw (HasScore, q) tt
    | inr (items, q) ↦
        let has = item_at-HasScore items (picked host spec base qs items) (picked-HasScore items) in
        rw (HasScore, q) has
  ]

  -- What the chapters of a match give is a number of a chapter or nothing, and it is not negative.
  abbrev pub HasNaturals : Type 0
  HasNaturals =
      (s : InstalledSource) (item : MangaItem)
      → IsNatural (chapters_of host item (host.details s.id item.id)).1

  materialize-IsRanked :
      (n : ℕ) (s : InstalledSource) (item : MangaItem) (score : Score)
      → HasNaturals
      → IsPositive score
      → IsRankedOption (materialize host n m s item score)
  unfolding materialize
  materialize-IsRanked n s item score natural p = elim (Result-cases (host.upsert_stub s item)) [
    | inl (e, q) ↦ rw (IsRankedOption, q) tt
    | inr (stub, q) ↦
        elim (Bool-cases (not (is_ok (host.details s.id item.id)) && host.stopped n)) [
          | inl e ↦ rw (IsRankedOption, q, e) tt
          | inr e ↦ rw (IsRankedOption, q, e) (natural s item, p)
        ]
  ]

  materialized-IsRanked :
      (runs : (n : ℕ) → host.stopped n ≡ false) (s : InstalledSource)
      (o : Option (MangaItem × Score))
      → HasNaturals
      → HasScore o
      → IsRankedOption (materialized host runs spec m base qs s o)
  materialized-IsRanked runs s none natural h = tt
  materialized-IsRanked runs s (some (item, score)) natural h =
      materialize-IsRanked 0 s item score natural h

-- The search by chapter count, while no one stops the job and a target source answers, returns a match
-- that a target source offers, or reports that there is none where none offers one; and no target
-- source offers a better one, by the number of the latest chapter, the count and the score. The
-- numbers of chapters are not negative.
pub search_prioritized-best :
    (host : Host) (runs : (n : ℕ) → host.stopped n ≡ false) (spec : Spec) (m : Manga) (base : Text)
    (qs : List Text)
    → HasNaturals host spec m base qs
    → (n : ℕ) (ss : List InstalledSource) → any (answers host spec m base qs) ss ≡ true
    → (r : Option TitleEvent) × (search_prioritized host spec m base qs n ss
        ≡ decided host spec m base qs r)
      × IsOffered host runs spec m base qs ss r
      × All (λ s. IsNoBetter (offer host runs spec m base qs s) r) ss
unfolding search_prioritized
search_prioritized-best host runs spec m base qs natural n ss some_answers =
    let ranked = λ (s : InstalledSource).
      materialized-IsRanked host spec m base qs runs s (match_of host spec m base qs s) natural
        (match_of-HasScore host spec m base qs s) in
    let found = best host runs spec m base qs ss none in
    (
      found,
      rw (runs n, some_answers) (choose-best host runs spec m base qs (n + 1) ss none),
      elim (best_origin host runs spec m base qs ss none found refl) [
        | inl offered ↦ offered
        | inr e ↦ subst (λ r. IsOffered host runs spec m base qs ss r) (sym e) tt
      ],
      (best_no_worse host runs spec m base qs ranked ss none tt).0,
    )
