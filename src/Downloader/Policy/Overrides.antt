-- ===== src/Downloader/Policy/Overrides.antt =====
-- A change of the user's override (SetSourceDownloadPrefs of internal/db/repository.go) with the drop
-- of the cached policy (InvalidateSourcePolicy of internal/downloader/queue.go).
use makidoku.Common.{
  ◌≡◌, refl, sym, ap, ◌∙◌, String, false, not, Option, List, [], ◌∷◌, filter, find?, str_eq, eq_iff,
  Bool-cases, inl, inr,
}
use makidoku.Downloader.Policy.{
  Options, Hints, SourceDownloadPrefs, Cached, is_of, upsert_prefs, is_unset,
  get_source_download_prefs, set_source_download_prefs, caches, invalidate_source_policy,
  fresh_policy, apply_hints, apply_prefs, default_policy,
}
use makidoku.Downloader.Policy.Coherence.{IsCoherent}

str_eq-flip : (s t : String) → str_eq s t ≡ false → str_eq t s ≡ false
str_eq-flip s t e = elim (Bool-cases (str_eq t s)) [
  | inl h ↦ let back = (eq_iff s t).1 (sym ((eq_iff t s).0 h)) in absurd cc
  | inr m ↦ m
]

-- The override of another source.
find?-filtered :
    (s t : String) (table : List SourceDownloadPrefs)
    → str_eq s t ≡ false
    → find? (is_of t) (filter (λ q. not (is_of s q)) table) ≡ find? (is_of t) table
find?-filtered s t [] e = refl
find?-filtered s t (q ∷ qs) e = elim (Bool-cases (is_of s q)) [
  | inl hit ↦
      let miss : is_of t q ≡ false = rw ((eq_iff q.source_id s).0 hit) e in
      rw (hit, miss) (find?-filtered s t qs e)
  | inr other ↦ rw other (elim (Bool-cases (is_of t q)) [
    | inl found ↦ rw found refl
    | inr miss ↦ rw miss (find?-filtered s t qs e)
  ])
]

find?-upserted :
    (p : SourceDownloadPrefs) (t : String) (table : List SourceDownloadPrefs)
    → str_eq p.source_id t ≡ false
    → find? (is_of t) (upsert_prefs p table) ≡ find? (is_of t) table
find?-upserted p t [] e = rw e refl
find?-upserted p t (q ∷ qs) e = elim (Bool-cases (is_of p.source_id q)) [
  | inl hit ↦
      let miss : is_of t q ≡ false = rw ((eq_iff q.source_id p.source_id).0 hit) e in
      rw (hit, e, miss) refl
  | inr other ↦ rw other (elim (Bool-cases (is_of t q)) [
    | inl found ↦ rw found refl
    | inr miss ↦ rw miss (find?-upserted p t qs e)
  ])
]

get-set_other :
    (p : SourceDownloadPrefs) (t : String) (table : List SourceDownloadPrefs)
    → str_eq p.source_id t ≡ false
    → get_source_download_prefs t (set_source_download_prefs p table)
      ≡ get_source_download_prefs t table
unfolding get_source_download_prefs set_source_download_prefs
get-set_other p t table e = elim (Bool-cases (is_unset p)) [
  | inl gone ↦ rw gone (find?-filtered p.source_id t table e)
  | inr kept ↦ rw kept (find?-upserted p t table e)
]

module _ (o : Options) (hints_of : String → Option Hints) (table : List SourceDownloadPrefs) where
  -- After a change of the user's override for a source and the drop of its cached policy, the cache
  -- agrees with the new overrides, if it agreed with the old ones.
  pub set-invalidate-IsCoherent :
      (p : SourceDownloadPrefs) (cache : List Cached)
      → IsCoherent o hints_of table cache
      → IsCoherent o hints_of
          (set_source_download_prefs p table)
          (invalidate_source_policy p.source_id cache)
  unfolding invalidate_source_policy fresh_policy
  set-invalidate-IsCoherent p [] k = tt
  set-invalidate-IsCoherent p (c ∷ cache) (h, k) = elim (Bool-cases (caches p.source_id c)) [
    | inl hit ↦ rw hit (set-invalidate-IsCoherent p cache k)
    | inr other ↦ rw other (
      h
          ∙ ap (λ found. apply_prefs found (apply_hints (hints_of c.source_id) (default_policy o)))
              (sym (get-set_other p c.source_id table (str_eq-flip c.source_id p.source_id other))),
      set-invalidate-IsCoherent p cache k,
    )
  ]
