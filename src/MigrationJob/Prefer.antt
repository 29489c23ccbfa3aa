-- ===== src/MigrationJob/Prefer.antt =====
-- About the choice by chapter count (searchPrioritized of internal/api/migration_jobs.go).
use makidoku.Common.{
  ℕ, ◌+◌, ◌≡◌, refl, sym, ◌∙◌, subst, ◌⊎◌, inl, inr, false, Option, none, some, List, [], ◌∷◌, All,
  Bool-cases, Option-cases,
}
use makidoku.Common.Result.{Result-cases}
use makidoku.Runes.{Text}
use makidoku.Migration.Match.{Score}
use makidoku.MigrationJob.{InstalledSource, Manga, MangaItem, TitleEvent, Spec}
use makidoku.MigrationJob.Search.{
  Host, match_of, materialize, prefer, decided, choose, better_chapter,
}
use makidoku.MigrationJob.Order.{
  IsRanked, better_chapter_trans, better_chapter_asymm, better_chapter_irrefl,
}

-- No better than the match that is chosen.
abbrev pub IsNoBetter : Option TitleEvent → Option TitleEvent → Type 0
IsNoBetter none r = Unit
IsNoBetter (some e) none = ⊥
IsNoBetter (some e) (some r) = better_chapter e r ≡ false

abbrev pub IsRankedOption : Option TitleEvent → Type 0
IsRankedOption none = Unit
IsRankedOption (some e) = IsRanked e

IsNoBetter-refl : (a : Option TitleEvent) → IsNoBetter a a
IsNoBetter-refl none = tt
IsNoBetter-refl (some e) = better_chapter_irrefl e

IsNoBetter-trans :
    (a b c : Option TitleEvent)
    → IsRankedOption a
    → IsRankedOption b
    → IsRankedOption c
    → IsNoBetter a b
    → IsNoBetter b c
    → IsNoBetter a c
IsNoBetter-trans none b c ha hb hc h k = tt
IsNoBetter-trans (some a) none c ha hb hc h k = absurd h
IsNoBetter-trans (some a) (some b) none ha hb hc h k = k
IsNoBetter-trans (some a) (some b) (some c) ha hb hc h k = better_chapter_trans a b c ha hb hc h k

module _ (host : Host) (runs : (n : ℕ) → host.stopped n ≡ false) (spec : Spec) (m : Manga)
    (base : Text) (qs : List Text) where
  abbrev pub materialized : InstalledSource → Option (MangaItem × Score) → Option TitleEvent
  materialized s none = none
  materialized s (some (item, score)) = materialize host 0 m s item score

  -- What one source offers for the title.
  abbrev pub offer : InstalledSource → Option TitleEvent
  offer s = materialized s (match_of host spec m base qs s)

  abbrev joined : Option TitleEvent → Option TitleEvent → Option TitleEvent
  joined none chosen = chosen
  joined (some e) chosen = prefer host spec m base qs e chosen

  abbrev pub best : List InstalledSource → Option TitleEvent → Option TitleEvent
  best [] chosen = chosen
  best (s ∷ ss) chosen = best ss (joined (offer s) chosen)

  any_time :
      (n : ℕ) (s : InstalledSource) (item : MangaItem) (score : Score)
      → materialize host n m s item score ≡ materialize host 0 m s item score
  unfolding materialize
  any_time n s item score = elim (Result-cases (host.upsert_stub s item)) [
    | inl (e, q) ↦ rw (materialize, q) refl
    | inr (stub, q) ↦ rw (materialize, q, runs n, runs 0) refl
  ]

  pub choose-best :
      (n : ℕ) (ss : List InstalledSource) (chosen : Option TitleEvent)
      → choose host spec m base qs n ss chosen ≡ decided host spec m base qs (best ss chosen)
  unfolding choose
  choose-best n [] chosen = refl
  choose-best n (s ∷ ss) chosen = elim (Option-cases (match_of host spec m base qs s)) [
    | inl lost ↦ rw (choose, best, lost) (choose-best (n + 2) ss chosen)
    | inr ((item, score), picks) ↦ elim (Option-cases (materialize host n m s item score)) [
      | inl none_made ↦
          let first : materialize host 0 m s item score ≡ none =
            sym (any_time n s item score) ∙ none_made in
          rw (choose, picks, none_made, runs (n + 1), best, first) (choose-best (n + 2) ss chosen)
      | inr (event, made) ↦
          let first : materialize host 0 m s item score ≡ some event =
            sym (any_time n s item score) ∙ made in
          rw (choose, picks, made, best, first)
            (choose-best (n + 2) ss (prefer host spec m base qs event chosen))
    ]
  ]

  -- What is chosen is nothing, or what some source offers.
  abbrev pub IsOffered : List InstalledSource → Option TitleEvent → Type 0
  IsOffered ss none = Unit
  IsOffered [] (some e) = ⊥
  IsOffered (s ∷ ss) (some e) = (offer s ≡ some e) ⊎ IsOffered ss (some e)

  prefer_either :
      (e c : TitleEvent)
      → (prefer host spec m base qs e (some c) ≡ some e)
        ⊎ (prefer host spec m base qs e (some c) ≡ some c)
  prefer_either e c = elim (Bool-cases (better_chapter e c)) [
    | inl h ↦ inl (rw h refl)
    | inr h ↦ inr (rw h refl)
  ]

  joined_either :
      (o chosen : Option TitleEvent) → (joined o chosen ≡ o) ⊎ (joined o chosen ≡ chosen)
  joined_either none chosen = inr refl
  joined_either (some e) none = inl refl
  joined_either (some e) (some c) = prefer_either e c

  pub best_origin :
      (ss : List InstalledSource) (chosen r : Option TitleEvent)
      → best ss chosen ≡ r
      → IsOffered ss r ⊎ (r ≡ chosen)
  best_origin [] chosen r h = inr (sym h)
  best_origin (s ∷ ss) chosen none h = inl tt
  best_origin (s ∷ ss) chosen (some e) h =
      elim (best_origin ss (joined (offer s) chosen) (some e) h) [
        | inl later ↦ inl (inr later)
        | inr here_now ↦ elim (joined_either (offer s) chosen) [
          | inl j ↦ inl (inl (sym (here_now ∙ j)))
          | inr j ↦ inr (here_now ∙ j)
        ]
      ]

  module _ (ranked : (s : InstalledSource) → IsRankedOption (offer s)) where
    joined_ranked :
        (o chosen : Option TitleEvent)
        → IsRankedOption o
        → IsRankedOption chosen
        → IsRankedOption (joined o chosen)
    joined_ranked o chosen ho hc = elim (joined_either o chosen) [
      | inl j ↦ subst (λ r. IsRankedOption r) (sym j) ho
      | inr j ↦ subst (λ r. IsRankedOption r) (sym j) hc
    ]

    prefer_no_worse :
        (e c : TitleEvent)
        → IsRanked e
        → IsRanked c
        → IsNoBetter (some e) (prefer host spec m base qs e (some c))
          × IsNoBetter (some c) (prefer host spec m base qs e (some c))
    prefer_no_worse e c he hc = elim (Bool-cases (better_chapter e c)) [
      | inl h ↦
          let kept : prefer host spec m base qs e (some c) ≡ some e = rw h refl in
          (
            subst (λ r. IsNoBetter (some e) r) (sym kept) (better_chapter_irrefl e),
            subst (λ r. IsNoBetter (some c) r) (sym kept) (better_chapter_asymm e c he hc h),
          )
      | inr h ↦
          let kept : prefer host spec m base qs e (some c) ≡ some c = rw h refl in
          (
            subst (λ r. IsNoBetter (some e) r) (sym kept) h,
            subst (λ r. IsNoBetter (some c) r) (sym kept) (better_chapter_irrefl c),
          )
    ]

    joined_no_worse :
        (o chosen : Option TitleEvent)
        → IsRankedOption o
        → IsRankedOption chosen
        → IsNoBetter o (joined o chosen) × IsNoBetter chosen (joined o chosen)
    joined_no_worse none chosen ho hc = (tt, IsNoBetter-refl chosen)
    joined_no_worse (some e) none ho hc = (IsNoBetter-refl (some e), tt)
    joined_no_worse (some e) (some c) ho hc = prefer_no_worse e c ho hc

    best_ranked :
        (ss : List InstalledSource) (chosen : Option TitleEvent)
        → IsRankedOption chosen
        → IsRankedOption (best ss chosen)
    best_ranked [] chosen h = h
    best_ranked (s ∷ ss) chosen h =
        best_ranked ss (joined (offer s) chosen) (joined_ranked (offer s) chosen (ranked s) h)

    pub best_no_worse :
        (ss : List InstalledSource) (chosen : Option TitleEvent)
        → IsRankedOption chosen
        → All (λ s. IsNoBetter (offer s) (best ss chosen)) ss × IsNoBetter chosen (best ss chosen)
    best_no_worse [] chosen h = (tt, IsNoBetter-refl chosen)
    best_no_worse (s ∷ ss) chosen h =
        let now = joined (offer s) chosen in
        let now_ranked = joined_ranked (offer s) chosen (ranked s) h in
        let (rest, kept) = best_no_worse ss now now_ranked in
        let end_ranked = best_ranked ss now now_ranked in
        let (by_offer, by_chosen) = joined_no_worse (offer s) chosen (ranked s) h in
        (
          (
            IsNoBetter-trans (offer s) now (best ss now) (ranked s) now_ranked end_ranked by_offer
                kept,
            rest,
          ),
          IsNoBetter-trans chosen now (best ss now) h now_ranked end_ranked by_chosen kept,
        )
