-- ===== src/MigrationJob/Search.antt =====
-- The search for one title (searchTitle and what it calls, of internal/api/migration_jobs.go).
use makidoku.Common.{
  ℕ, ◌+◌, String, Bool, true, false, not, ◌&&◌, Option, none, some, List, [], ◌∷◌, ◌++◌, length,
  ltb, ◌==◌, get_elem?, is_empty, if◌then◌else◌, str_eq, any, map,
}
use makidoku.Common.Int.{ℤ, negsuc, less, same}
use makidoku.Common.Result.{Result, ok, err}
use makidoku.Runes.{Text, space, trim_space}
use makidoku.Migration.Match.{Score, Candidate, lower, match}
use makidoku.Migration.Clean.{clean_title, deep_queries, distinct_queries}
use makidoku.MigrationJob.{
  success, not_found, failed, InstalledSource, Manga, MangaItem, TitleEvent, Spec, unmatched,
  canceled_title,
}

-- `search` and `details` are the engine, `upsert_stub` is UpsertMangaStub of the repository;
-- `stopped n` is the n-th look at the context, and `label_number` the last number in a label.
pub record Host : Type 0 where
  pub search : String → Text → Result String (List MangaItem)
  pub details : String → String → Result String (List (Option ℤ))
  pub upsert_stub : InstalledSource → MangaItem → Result String Manga
  pub stopped : ℕ → Bool
  pub label_number : String → Option ℤ
  pub distance : Text → Text → ℕ
  pub to_lower : ℕ → ℕ
  pub is_letter : ℕ → Bool

abbrev first_of : Option String → String → Option String
first_of none e = some e
first_of (some old) e = some old

-- The rank of -1.
abbrev pub chapter_number : Option ℤ → ℤ
chapter_number none = negsuc 0x3fef_ffff_ffff_ffff
chapter_number (some n) = n

abbrev pub same_chapter_number : Option ℤ → Option ℤ → Bool
same_chapter_number none none = true
same_chapter_number (some a) (some b) = same a b
same_chapter_number _ _ = false

unfoldable pub better_chapter : TitleEvent → TitleEvent → Bool
better_chapter a b =
    if not (same_chapter_number a.latest_chapter b.latest_chapter)
    then less (chapter_number b.latest_chapter) (chapter_number a.latest_chapter)
    else if not (a.chapter_count == b.chapter_count)
    then ltb b.chapter_count a.chapter_count
    else lower b.score a.score

-- The highest of the numbers, from the one so far.
abbrev latest_of : Option ℤ → List (Option ℤ) → Option ℤ
latest_of best [] = best
latest_of best (none ∷ ns) = latest_of best ns
latest_of none (some n ∷ ns) = latest_of (some n) ns
latest_of (some b) (some n ∷ ns) = latest_of (some (if less b n then n else b)) ns

abbrev or_else : Option ℤ → Option ℤ → Option ℤ
or_else none b = b
or_else (some a) b = some a

abbrev pub candidate_titles : List MangaItem → List Candidate
candidate_titles = map (λ i. record { id = i.id; title = i.title })

abbrev has_item : String → List String → Bool
has_item id = any (str_eq id)

unfoldable pub distinct_items : List String → List MangaItem → List MangaItem
distinct_items seen [] = []
distinct_items seen (i ∷ is) =
    let rest = distinct_items seen is in
    let more = i ∷ distinct_items (i.id ∷ seen) is in if has_item i.id seen then rest else more

abbrev all_items : List (Result String (List MangaItem)) → List MangaItem
all_items [] = []
all_items (ok is ∷ rs) = is ++ all_items rs
all_items (err e ∷ rs) = all_items rs

abbrev pub is_ok {ℓ} : {A : Type ℓ} → Result String A → Bool
is_ok (ok a) = true
is_ok (err e) = false

abbrev first_error : List (Result String (List MangaItem)) → String
first_error [] = "search returned no result"
first_error (ok is ∷ rs) = first_error rs
first_error (err e ∷ rs) = e

module _ (host : Host) where
  abbrev results : InstalledSource → List Text → List (Result String (List MangaItem))
  results s queries = map (host.search s.id) queries

  unfoldable pub search_source : InstalledSource → List Text → Result String (List MangaItem)
  unfolding distinct_items
  search_source s queries =
      if any is_ok (results s queries)
      then ok (distinct_items [] (all_items (results s queries)))
      else err (first_error (results s queries))

  -- A chapter fetch that failed keeps the match.
  abbrev pub chapters_of : MangaItem → Result String (List (Option ℤ)) → ℕ × Option ℤ
  chapters_of item (err e) = (0, host.label_number item.latest_chapter)
  chapters_of item (ok ns) =
      (length ns, or_else (latest_of none ns) (host.label_number item.latest_chapter))

  abbrev pub matched : Manga → InstalledSource → Score → Manga → ℕ × Option ℤ → TitleEvent
  matched m s score stub (count, latest) = record {
    manga_id = m.id;
    title = m.title;
    status = success;
    source = some s;
    manga = some stub;
    score = score;
    chapter_count = count;
    latest_chapter = latest;
    error = none;
  }

  unfoldable pub materialize : ℕ → Manga → InstalledSource → MangaItem → Score → Option TitleEvent
  materialize n m s item score = elim (host.upsert_stub s item) [
    | err e ↦ none
    | ok stub ↦
        if not (is_ok (host.details s.id item.id)) && host.stopped n
        then none
        else some (matched m s score stub (chapters_of item (host.details s.id item.id)))
  ]

  abbrev pub clean : Text → Text
  clean = clean_title host.to_lower host.is_letter

  abbrev pub picked : Spec → Text → List Text → List MangaItem → Option (ℕ × Score)
  picked spec base queries items =
      match host.distance clean (candidate_titles items) base (length queries) spec.deep

  -- The item at the index that Match returned; its index is in range.
  abbrev pub item_at : List MangaItem → Option (ℕ × Score) → Option (MangaItem × Score)
  item_at items none = none
  item_at items (some (i, score)) = elim (get_elem? items i) [
    | none ↦ none
    | some x ↦ some (x, score)
  ]

  unfoldable pub match_in : Spec → Text → List Text → List MangaItem → Option (MangaItem × Score)
  match_in spec base queries items = item_at items (picked spec base queries items)

  module _ (spec : Spec) (m : Manga) (base : Text) (queries : List Text) where
    abbrev search_of : InstalledSource → Result String (List MangaItem)
    search_of s = search_source s queries

    abbrev pub unanswered : Bool → Option String → TitleEvent
    unanswered answered e =
        if answered
        then unmatched not_found none m
        else unmatched failed
            (elim e [ none ↦ some "every source search failed" | some x ↦ some x ]) m

    unfoldable pub search_in_order : ℕ → List InstalledSource → Bool → Option String → TitleEvent
    unfolding match_in materialize
    search_in_order n [] answered e =
        if host.stopped n then canceled_title m else unanswered answered e
    search_in_order n (s ∷ ss) answered e =
        let after_error = λ (x : String). search_in_order (n + 3) ss answered (first_of e x) in
        let go_on = search_in_order (n + 3) ss true e in
        if host.stopped n then canceled_title m else elim (search_of s) [
          | err x ↦ if host.stopped (n + 1) then canceled_title m else after_error x
          | ok items ↦ elim (match_in spec base queries items) [
            | none ↦ go_on
            | some (item, score) ↦ elim (materialize (n + 1) m s item score) [
              | some event ↦ event
              | none ↦ if host.stopped (n + 2) then canceled_title m else go_on
            ]
          ]
        ]

    -- The candidate of one source, as its goroutine leaves it.
    unfoldable pub match_of : InstalledSource → Option (MangaItem × Score)
    unfolding match_in search_source
    match_of s = elim (search_of s) [ err x ↦ none | ok items ↦ match_in spec base queries items ]

    abbrev first_failure : List InstalledSource → Option String → Option String
    first_failure [] e = e
    first_failure (s ∷ ss) e =
        first_failure ss (elim (search_of s) [ err x ↦ first_of e x | ok items ↦ e ])

    abbrev pub answers : InstalledSource → Bool
    answers s = is_ok (search_of s)

    abbrev pub prefer : TitleEvent → Option TitleEvent → Option TitleEvent
    prefer event none = some event
    prefer event (some chosen) = if better_chapter event chosen then some event else some chosen

    abbrev pub decided : Option TitleEvent → TitleEvent
    decided none = unmatched not_found none m
    decided (some event) = event

    unfoldable pub choose : ℕ → List InstalledSource → Option TitleEvent → TitleEvent
    unfolding materialize better_chapter
    choose n [] chosen = decided chosen
    choose n (s ∷ ss) chosen =
        let go_on = choose (n + 2) ss chosen in
        let with_event = λ (event : TitleEvent). choose (n + 2) ss (prefer event chosen) in
        elim (match_of s) [
          | none ↦ go_on
          | some (item, score) ↦ elim (materialize n m s item score) [
            | some event ↦ with_event event
            | none ↦ if host.stopped (n + 1) then canceled_title m else go_on
          ]
        ]

    unfoldable pub search_prioritized : ℕ → List InstalledSource → TitleEvent
    unfolding choose
    search_prioritized n targets =
        if host.stopped n
        then canceled_title m
        else if any answers targets
        then choose (n + 1) targets none
        else unanswered false (first_failure targets none)

  abbrev base_of : Spec → Manga → Text
  base_of spec m =
      if is_empty (trim_space spec.query) then trim_space m.title else trim_space spec.query

  abbrev or_base : List Text → Text → List Text
  or_base [] base = base ∷ []
  or_base (q ∷ qs) base = q ∷ qs

  abbrev expanded : Bool → Text → List Text
  expanded deep base = if deep then or_base (deep_queries (clean base)) base else base ∷ []

  abbrev with_extra : Text → List Text → List Text
  with_extra extra qs = if is_empty extra then qs else map (λ q. trim_space (q ++ space ∷ extra)) qs

  -- dedupeStrings is the loop of DeepQueries.
  unfoldable pub queries : Spec → Manga → Text × List Text
  unfolding trim_space deep_queries clean_title distinct_queries
  queries spec m = if is_empty (base_of spec m) then ([], []) else (
    base_of spec m,
    distinct_queries []
        (with_extra (trim_space spec.additional_query) (expanded spec.deep (base_of spec m))),
  )

  abbrev pub search_with : Spec → Manga → Text × List Text → TitleEvent
  search_with spec m (base, qs) =
      if is_empty qs
      then unmatched not_found none m
      else if spec.prioritize_by_chapters
      then search_prioritized spec m base qs 1 spec.targets
      else search_in_order spec m base qs 1 spec.targets false none

  unfoldable pub search_title : Spec → Manga → TitleEvent
  unfolding queries search_prioritized search_in_order
  search_title spec m =
      if host.stopped 0 then canceled_title m else search_with spec m (queries spec m)
