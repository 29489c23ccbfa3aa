-- ===== src/MigrationJob/Terminal.antt =====
-- About the end of a search (searchTitle of internal/api/migration_jobs.go).
use makidoku.Common.{
  ℕ, ◌+◌, ◌≡◌, refl, subst, String, Bool, true, false, Option, none, some, List, [], ◌∷◌, any,
  if◌then◌else◌, Bool-cases, Option-cases, inl, inr,
}
use makidoku.Common.Result.{Result-cases}
use makidoku.Runes.{Text}
use makidoku.MigrationJob.{
  TitleStatus, searching, success, InstalledSource, Manga, TitleEvent, Spec, canceled_title,
}
use makidoku.MigrationJob.Search.{
  Host, search_source, match_in, match_of, materialize, answers, unanswered, prefer,
  search_in_order, choose, search_prioritized, queries, search_with, search_title,
}
use makidoku.MigrationJob.Outcome.{IsMatched, materialize-IsMatched, prefer-IsMatched}

abbrev pub is_searching : TitleStatus → Bool
is_searching searching = true
is_searching _ = false

module _ (host : Host) (spec : Spec) (m : Manga) where
  unanswered-ends :
      (base : Text) (qs : List Text) (answered : Bool) (e : Option String)
      → is_searching (unanswered host spec m base qs answered e).status ≡ false
  unanswered-ends base qs true e = refl
  unanswered-ends base qs false e = refl

  -- A look at the context that stops the search, or goes on with an event.
  stop_or :
      (b : Bool) (e : TitleEvent)
      → is_searching e.status ≡ false
      → is_searching (if b then canceled_title m else e).status ≡ false
  stop_or true e h = refl
  stop_or false e h = h

  module _ (base : Text) (qs : List Text) where
    search_in_order-ends :
        (n : ℕ) (ss : List InstalledSource) (answered : Bool) (e : Option String)
        → is_searching (search_in_order host spec m base qs n ss answered e).status ≡ false
    unfolding search_in_order
    search_in_order-ends n [] answered e =
        stop_or (host.stopped n) (unanswered host spec m base qs answered e)
          (unanswered-ends base qs answered e)
    search_in_order-ends n (s ∷ ss) answered e = elim (Result-cases (search_source host s qs)) [
      | inl (x, q) ↦ rw q (
          stop_or (host.stopped n) _
            (stop_or (host.stopped (n + 1)) _ (search_in_order-ends (n + 3) ss answered _)))
      | inr (items, q) ↦ elim (Option-cases (match_in host spec base qs items)) [
        | inl none_in ↦
            rw (q, none_in) (stop_or (host.stopped n) _ (search_in_order-ends (n + 3) ss true e))
        | inr ((item, score), picked) ↦
            elim (Option-cases (materialize host (n + 1) m s item score)) [
              | inl lost ↦
                  rw (q, picked, lost)
                    (stop_or (host.stopped n) _
                      (stop_or (host.stopped (n + 2)) _ (search_in_order-ends (n + 3) ss true e)))
              | inr (event, made) ↦
                  let won : event.status ≡ success =
                    subst (λ o. IsMatched o) made
                      (materialize-IsMatched host (n + 1) m s item score) in
                  rw (q, picked, made) (stop_or (host.stopped n) event (rw won refl))
            ]
      ]
    ]

    matched-ends : (event : TitleEvent) → event.status ≡ success → is_searching event.status ≡ false
    matched-ends event won = rw won refl

    choose-ends :
        (n : ℕ) (ss : List InstalledSource) (chosen : Option TitleEvent)
        → IsMatched chosen
        → is_searching (choose host spec m base qs n ss chosen).status ≡ false
    unfolding choose
    choose-ends n [] none h = refl
    choose-ends n [] (some event) h = matched-ends event h
    choose-ends n (s ∷ ss) chosen h = elim (Option-cases (match_of host spec m base qs s)) [
      | inl lost ↦ rw (is_searching, lost) (choose-ends (n + 2) ss chosen h)
      | inr ((item, score), picked) ↦ elim (Option-cases (materialize host n m s item score)) [
        | inl lost ↦
            rw (is_searching, picked, lost)
              (stop_or (host.stopped (n + 1)) _ (choose-ends (n + 2) ss chosen h))
        | inr (event, made) ↦
            let won = subst (λ o. IsMatched o) made (materialize-IsMatched host n m s item score) in
            let better = prefer-IsMatched host spec m base qs event chosen won h in
            rw (is_searching, picked, made)
              (choose-ends (n + 2) ss (prefer host spec m base qs event chosen) better)
      ]
    ]

    search_prioritized-ends :
        (n : ℕ) (ss : List InstalledSource)
        → is_searching (search_prioritized host spec m base qs n ss).status ≡ false
    unfolding search_prioritized
    search_prioritized-ends n ss = elim (Bool-cases (any (answers host spec m base qs) ss)) [
      | inl e ↦ rw e (stop_or (host.stopped n) _ (choose-ends (n + 1) ss none tt))
      | inr e ↦ rw e (stop_or (host.stopped n) _ refl)
    ]

  either_order :
      (base : Text) (qs : List Text) (prioritized : Bool)
      → is_searching
          (if prioritized
            then search_prioritized host spec m base qs 1 spec.targets
            else search_in_order host spec m base qs 1 spec.targets false none).status
        ≡ false
  either_order base qs true = search_prioritized-ends base qs 1 spec.targets
  either_order base qs false = search_in_order-ends base qs 1 spec.targets false none

  search_with-ends :
      (qs : Text × List Text) → is_searching (search_with host spec m qs).status ≡ false
  search_with-ends (base, []) = refl
  search_with-ends (base, q ∷ qs) = either_order base (q ∷ qs) spec.prioritize_by_chapters

  pub search_title-ends : is_searching (search_title host spec m).status ≡ false
  unfolding search_title
  search_title-ends =
      stop_or (host.stopped 0) (search_with host spec m (queries host spec m))
        (search_with-ends (queries host spec m))
