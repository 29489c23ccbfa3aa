-- ===== src/MigrationJob/Outcome.antt =====
-- About the status of a searched title (searchTitle of internal/api/migration_jobs.go).
use makidoku.Common.{
  ℕ, ◌+◌, ◌≡◌, refl, sym, ap, subst, String, Bool, true, false, not, ◌&&◌, ◌||◌, Option, none, some,
  List, [], ◌∷◌, any, is_empty, if◌then◌else◌, Bool-cases, Option-cases, inl, inr,
}
use makidoku.Common.Result.{Result-cases}
use makidoku.Runes.{Text}
use makidoku.Migration.Match.{Score}
use makidoku.MigrationJob.{
  TitleStatus, success, failed, InstalledSource, Manga, MangaItem, TitleEvent, Spec,
}
use makidoku.MigrationJob.Search.{
  Host, is_ok, search_source, better_chapter, match_in, match_of, materialize, answers, unanswered,
  prefer, search_in_order, choose, search_prioritized, queries, search_with, search_title,
}

abbrev pub is_failed : TitleStatus → Bool
is_failed failed = true
is_failed _ = false

-- The status of a materialised match, if there is one.
abbrev pub IsMatched : Option TitleEvent → Type 0
IsMatched none = Unit
IsMatched (some event) = event.status ≡ success

any_true : (answered more : Bool) → (answered || (true || more)) ≡ (true || more)
any_true true more = refl
any_true false more = refl

module _ (host : Host) where
  pub materialize-IsMatched :
      (n : ℕ) (m : Manga) (s : InstalledSource) (item : MangaItem) (score : Score)
      → IsMatched (materialize host n m s item score)
  unfolding materialize
  materialize-IsMatched n m s item score = elim (Result-cases (host.upsert_stub s item)) [
    | inl (e, q) ↦ rw (IsMatched, q) tt
    | inr (stub, q) ↦
        elim (Bool-cases (not (is_ok (host.details s.id item.id)) && host.stopped n)) [
          | inl e ↦ rw (IsMatched, q, e) tt
          | inr e ↦ rw (IsMatched, q, e) refl
        ]
  ]

  pub prefer-IsMatched :
      (spec : Spec) (m : Manga) (base : Text) (qs : List Text) (event : TitleEvent)
      (chosen : Option TitleEvent)
      → event.status ≡ success
      → IsMatched chosen
      → IsMatched (prefer host spec m base qs event chosen)
  prefer-IsMatched spec m base qs event none won h = won
  prefer-IsMatched spec m base qs event (some c) won h =
      elim (Bool-cases (better_chapter event c)) [
        | inl e ↦ rw (IsMatched, e) won
        | inr e ↦ rw (IsMatched, e) h
      ]

  module _ (runs : (n : ℕ) → host.stopped n ≡ false) (spec : Spec) (m : Manga) (base : Text)
      (qs : List Text) where
    unanswered-is_failed :
        (answered : Bool) (e : Option String)
        → is_failed (unanswered host spec m base qs answered e).status ≡ not (answered || false)
    unanswered-is_failed true e = refl
    unanswered-is_failed false e = refl

    search_in_order-is_failed :
        (n : ℕ) (ss : List InstalledSource) (answered : Bool) (e : Option String)
        → is_failed (search_in_order host spec m base qs n ss answered e).status
          ≡ not (answered || any (answers host spec m base qs) ss)
    unfolding search_in_order
    search_in_order-is_failed n [] answered e = rw (runs n) (unanswered-is_failed answered e)
    search_in_order-is_failed n (s ∷ ss) answered e =
        elim (Result-cases (search_source host s qs)) [
          | inl (x, q) ↦
              rw (runs n, q, runs (n + 1)) (search_in_order-is_failed (n + 3) ss answered _)
          | inr (items, q) ↦ elim (Option-cases (match_in host spec base qs items)) [
            | inl none_in ↦
                rw (runs n, q, none_in) rw
                  (any_true answered (any (answers host spec m base qs) ss))
                  (search_in_order-is_failed (n + 3) ss true e)
            | inr ((item, score), picked) ↦
                elim (Option-cases (materialize host (n + 1) m s item score)) [
                  | inl lost ↦
                      rw (runs n, q, picked, lost, runs (n + 2)) rw
                        (any_true answered (any (answers host spec m base qs) ss))
                        (search_in_order-is_failed (n + 3) ss true e)
                  | inr (event, made) ↦
                      rw (runs n, q, picked, made)
                        let won =
                            subst (λ o. IsMatched o) made
                              (materialize-IsMatched (n + 1) m s item score) in
                          rw won (
                            sym (ap not (any_true answered (any (answers host spec m base qs) ss))))
                ]
          ]
        ]

    choose-is_failed :
        (n : ℕ) (ss : List InstalledSource) (chosen : Option TitleEvent)
        → IsMatched chosen
        → is_failed (choose host spec m base qs n ss chosen).status ≡ false
    unfolding choose
    choose-is_failed n [] none h = refl
    choose-is_failed n [] (some event) h = rw h refl
    choose-is_failed n (s ∷ ss) chosen h = elim (Option-cases (match_of host spec m base qs s)) [
      | inl lost ↦ rw (is_failed, lost) (choose-is_failed (n + 2) ss chosen h)
      | inr ((item, score), picked) ↦ elim (Option-cases (materialize host n m s item score)) [
        | inl lost ↦
            rw (is_failed, picked, lost, runs (n + 1)) (choose-is_failed (n + 2) ss chosen h)
        | inr (event, made) ↦
            let won = subst (λ o. IsMatched o) made (materialize-IsMatched n m s item score) in
            rw (is_failed, picked, made)
              (choose-is_failed (n + 2) ss (prefer host spec m base qs event chosen)
                (prefer-IsMatched spec m base qs event chosen won h))
      ]
    ]

    search_prioritized-is_failed :
        (n : ℕ) (ss : List InstalledSource)
        → is_failed (search_prioritized host spec m base qs n ss).status
          ≡ not (any (answers host spec m base qs) ss)
    unfolding search_prioritized
    search_prioritized-is_failed n ss = elim (Bool-cases (any (answers host spec m base qs) ss)) [
      | inl e ↦ rw (runs n, e) (choose-is_failed (n + 1) ss none tt)
      | inr e ↦ rw (runs n, e) refl
    ]

  -- The title has a query, and no target source answers one.
  abbrev pub nothing_answers : Spec → Manga → Text × List Text → Bool
  nothing_answers spec m (base, qs) =
      not (is_empty qs) && not (any (answers host spec m base qs) spec.targets)

  either_order :
      (runs : (n : ℕ) → host.stopped n ≡ false) (spec : Spec) (m : Manga) (base : Text)
      (qs : List Text) (prioritized : Bool)
      → is_failed
          (if prioritized
            then search_prioritized host spec m base qs 1 spec.targets
            else search_in_order host spec m base qs 1 spec.targets false none).status
        ≡ not (any (answers host spec m base qs) spec.targets)
  either_order runs spec m base qs true =
      search_prioritized-is_failed runs spec m base qs 1 spec.targets
  either_order runs spec m base qs false =
      search_in_order-is_failed runs spec m base qs 1 spec.targets false none

  search_with-is_failed :
      (runs : (n : ℕ) → host.stopped n ≡ false) (spec : Spec) (m : Manga) (qs : Text × List Text)
      → is_failed (search_with host spec m qs).status ≡ nothing_answers spec m qs
  search_with-is_failed runs spec m (base, []) = refl
  search_with-is_failed runs spec m (base, q ∷ qs) =
      either_order runs spec m base (q ∷ qs) spec.prioritize_by_chapters

-- While no one stops the job, the search for a title ends as failed exactly when the title has a
-- query and no target source answers any, in the order of the sources as by chapter count.
pub search_title-is_failed :
    (host : Host) (runs : (n : ℕ) → host.stopped n ≡ false) (spec : Spec) (m : Manga)
    → is_failed (search_title host spec m).status
      ≡ nothing_answers host spec m (queries host spec m)
unfolding search_title
search_title-is_failed host runs spec m =
    rw (runs 0) (search_with-is_failed host runs spec m (queries host spec m))
