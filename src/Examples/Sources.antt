-- ===== src/Examples/Sources.antt =====
-- An installed source found by the host of a title, for internal/tachibackup/match.go.
use makidoku.Common.{◌≡◌, refl, some, [], ◌∷◌}
use makidoku.Runes.{Text}
use makidoku.Tachibackup.Matching.{SourceRef, by_host, match_source}
use makidoku.Tachibackup.Matching.Precedence.{IsMatch, match_source-IsMatch}

-- "www.b.co" and "a.b.co"
abbrev with_www : Text
with_www = 119 ∷ 119 ∷ 119 ∷ 46 ∷ 98 ∷ 46 ∷ 99 ∷ 111 ∷ []

abbrev below : Text
below = 97 ∷ 46 ∷ 98 ∷ 46 ∷ 99 ∷ 111 ∷ []

abbrev installed_source : SourceRef
installed_source = record {
  id = "b";
  plugin_key = 98 ∷ [];
  name = 98 ∷ 98 ∷ [];
  base_url = with_www;
}

found_by_host :
    match_source (λ r. r) (λ t. some t) (120 ∷ []) (below ∷ []) (installed_source ∷ [])
    ≡ some (installed_source, by_host)
unfolding match_source
found_by_host = refl

match_source-IsMatch_example :
    IsMatch
      (λ r. r)
      (λ t. some t)
      (120 ∷ [])
      (below ∷ [])
      (installed_source ∷ [])
      (match_source (λ r. r) (λ t. some t) (120 ∷ []) (below ∷ []) (installed_source ∷ []))
match_source-IsMatch_example =
    match_source-IsMatch (λ r. r) (λ t. some t) (120 ∷ []) (below ∷ []) (installed_source ∷ [])
