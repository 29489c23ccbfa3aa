-- ===== src/Examples/Migration.antt =====
-- Titles and sources for the matching of internal/migration and the jobs of
-- internal/api/migration_jobs.go. A text is the list of its code points.
use makidoku.Common.{
  Option, any, ℕ, ◌≡◌, refl, Bool, true, false, none, some, List, [], ◌∷◌, length, str_eq,
  if◌then◌else◌, All, ltb, ◌||◌,
}
use makidoku.Common.Int.{pos}
use makidoku.Common.Result.{ok, err}
use makidoku.Runes.{Text}
use makidoku.Migration.Match.{Candidate, cleaned, candidate_score, match}
use makidoku.Migration.Best.{IsBest, match-IsBest}
use makidoku.Migration.Clean.{remove_text_in_brackets}
use makidoku.Migration.Brackets.{
  Bracketed, done, rune, group, unclosed, print, outer, read, remove-print,
}
use makidoku.MigrationJob.{TitleEvent, InstalledSource, Manga, MangaItem, Spec, failed, success}
use makidoku.MigrationJob.Search.{
  answers, decided, search_prioritized, Host, queries, search_title, search_source, match_in,
  match_of, materialize,
}
use makidoku.MigrationJob.Prefer.{IsNoBetter, IsOffered, offer}
use makidoku.MigrationJob.Choice.{search_prioritized-best}
use makidoku.MigrationJob.Outcome.{is_failed, nothing_answers, search_title-is_failed}

abbrev abcde : Text
abcde = 97 ∷ 98 ∷ 99 ∷ 100 ∷ 101 ∷ []

abbrev xyz : Text
xyz = 120 ∷ 121 ∷ 122 ∷ []

abbrev by_length : Text → Text → ℕ
by_length a b = if ltb (length a) (length b) then 3 else 0

abbrev candidates : List Candidate
candidates = record { id = "1"; title = abcde } ∷ record { id = "2"; title = xyz } ∷ []

match-IsBest_example :
    IsBest
      (candidate_score by_length
        (λ t. t)
        (cleaned by_length (λ t. t) false xyz)
        (ltb 1 1 || ltb 1 (length candidates))
        false)
      candidates
      (match by_length (λ t. t) candidates xyz 1 false)
match-IsBest_example = match-IsBest by_length (λ t. t) candidates xyz 1 false

-- "a)[b(c]d]e(f", read backwards: "f(e]d]c(b[)a" closes with ( and [, and opens with ] and ).
abbrev bracketed : Bracketed
bracketed = rune 102 (
    rune 40 (
      rune 101 (
        group 93 (rune 100 (group 93 (rune 99 done) 40 (rune 98 done))) 91
          (unclosed 41 (rune 97 done)))))

remove-print_example :
    remove_text_in_brackets (read false (print bracketed)) false ≡ read false (outer bracketed)
remove-print_example = remove-print bracketed false (
  refl,
  refl,
  (
    refl,
    refl,
    (
      refl,
      refl,
      (
        refl,
        (refl, refl, (refl, (refl, refl, tt), refl, (refl, refl, tt))),
        refl,
        (refl, refl, (refl, refl, tt)),
      ),
    ),
  ),
)

abbrev item : MangaItem
item = record { id = "1"; title = xyz; url = "u"; latest_chapter = "" }

abbrev pub title : Manga
title = record { id = "m"; source_id = "old"; title = xyz }

-- The source "down" is out; "up" has the title with one chapter.
abbrev pub sources : Host
sources = record {
  search = λ s q. if str_eq s "down" then err "connection refused" else ok (item ∷ []);
  details = λ s m. ok (some (pos 4) ∷ []);
  upsert_stub = λ s i. ok title;
  stopped = λ n. false;
  label_number = λ l. none;
  distance = by_length;
  to_lower = λ r. r;
  is_letter = λ r. true;
}

abbrev pub spec_for : Bool → List InstalledSource → Spec
spec_for prioritized targets = record {
  query = [];
  additional_query = [];
  deep = false;
  prioritize_by_chapters = prioritized;
  targets = targets;
  titles = title ∷ [];
}

abbrev down : InstalledSource
down = record { id = "down"; name = "Down" }

abbrev pub up : InstalledSource
up = record { id = "up"; name = "Up" }

search_title-is_failed_example :
    is_failed (search_title sources (spec_for false (down ∷ [])) title).status
    ≡ nothing_answers sources
        (spec_for false (down ∷ []))
        title
        (queries sources (spec_for false (down ∷ [])) title)
search_title-is_failed_example =
    search_title-is_failed sources (λ n. refl) (spec_for false (down ∷ [])) title

out_of_order : (search_title sources (spec_for false (down ∷ [])) title).status ≡ failed
unfolding search_title search_source
out_of_order = refl

found_behind : (search_title sources (spec_for true (down ∷ up ∷ [])) title).status ≡ success
unfolding search_title search_source match_of match_in match materialize candidate_score
found_behind = refl

abbrev both_sources : List InstalledSource
both_sources = down ∷ up ∷ []

abbrev prioritized : Spec
prioritized = spec_for true both_sources

one_answers : any (answers sources prioritized title xyz (xyz ∷ [])) both_sources ≡ true
unfolding search_source
one_answers = refl

search_prioritized-best_example :
    (r : Option TitleEvent) × (search_prioritized sources prioritized title xyz
        (xyz ∷ [])
        1
        both_sources
      ≡ decided sources prioritized title xyz (xyz ∷ []) r)
    × IsOffered sources (λ n. refl) prioritized title xyz (xyz ∷ []) both_sources r
    × All
        (λ s. IsNoBetter (offer sources (λ n. refl) prioritized title xyz (xyz ∷ []) s) r)
        both_sources
search_prioritized-best_example =
    search_prioritized-best sources (λ n. refl) prioritized title xyz (xyz ∷ []) (λ s i. tt) 1
      both_sources one_answers
