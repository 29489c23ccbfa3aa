-- ===== src/Tachibackup/Matching.antt =====
-- The match of a source of a backup with an installed one (matchSource of
-- internal/tachibackup/match.go).
pub mod Precedence
use makidoku.Common.{
  ℕ, zero, suc, String, Bool, true, false, not, ◌&&◌, ◌||◌, Option, none, some, List, [], ◌∷◌, ◌++◌,
  leb, ◌==◌, is_empty, any, filter, find?, map, if◌then◌else◌,
}
use makidoku.Runes.{Text, text_eq, trim_space}

pub record SourceRef : Type 0 where
  pub id : String
  pub plugin_key : Text
  pub name : Text
  pub base_url : Text

pub data Kind : Type 0 where
  by_name by_alias by_host : Kind

abbrev is_plain : ℕ → Bool
is_plain r = leb 97 r && leb r 122 || leb 48 r && leb r 57

-- "asurascans", "asura", "asuracomic" and "mangadex"
abbrev asura_scans : Text
asura_scans = 97 ∷ 115 ∷ 117 ∷ 114 ∷ 97 ∷ 115 ∷ 99 ∷ 97 ∷ 110 ∷ 115 ∷ []

abbrev asura : Text
asura = 97 ∷ 115 ∷ 117 ∷ 114 ∷ 97 ∷ []

abbrev asura_comic : Text
asura_comic = 97 ∷ 115 ∷ 117 ∷ 114 ∷ 97 ∷ 99 ∷ 111 ∷ 109 ∷ 105 ∷ 99 ∷ []

abbrev manga_dex : Text
manga_dex = 109 ∷ 97 ∷ 110 ∷ 103 ∷ 97 ∷ 100 ∷ 101 ∷ 120 ∷ []

unfoldable pub source_aliases : Text → List Text
source_aliases needle =
    if text_eq needle asura_scans
    then asura_scans ∷ asura ∷ asura_comic ∷ []
    else if text_eq needle manga_dex
    then manga_dex ∷ []
    else []

abbrev pub contains_name : List Text → Text → Bool
contains_name values needle = any (λ v. text_eq v needle) values

-- strings.Split at the dots.
abbrev add_rune : ℕ → List Text → List Text
add_rune r [] = (r ∷ []) ∷ []
add_rune r (p ∷ ps) = (r ∷ p) ∷ ps

unfoldable pub split_dots : Text → List Text
split_dots [] = [] ∷ []
split_dots (r ∷ rs) = let rest = split_dots rs in if r == 46 then [] ∷ rest else add_rune r rest

-- The last two labels, or the whole host.
unfoldable pub last_two : List Text → Text
last_two [] = []
last_two (p ∷ []) = p
last_two (p ∷ q ∷ []) = p ++ 46 ∷ q
last_two (p ∷ q ∷ r ∷ rs) = last_two (q ∷ r ∷ rs)

abbrev tail_if : Bool → Text → Text → Text
tail_if b rest t = if b then rest else t

-- strings.TrimPrefix(host, "www.")
unfoldable pub trim_www : Text → Text
trim_www (a ∷ b ∷ c ∷ d ∷ rest) =
    tail_if (a == 119 && b == 119 && c == 119 && d == 46) rest (a ∷ b ∷ c ∷ d ∷ rest)
trim_www t = t

-- `to_lower` is unicode.ToLower, and `url_host` gives the host name of what url.Parse reads.
module _ (to_lower : ℕ → ℕ) (url_host : Text → Option Text) where
  unfoldable pub normalize_name : Text → Text
  normalize_name t = filter is_plain (map to_lower t)

  abbrev host_of : Option Text → Text
  host_of none = []
  host_of (some h) =
      if is_empty (trim_www (map to_lower h))
      then []
      else last_two (split_dots (trim_www (map to_lower h)))

  unfoldable pub registered_host : Text → Text
  unfolding trim_space trim_www last_two split_dots
  registered_host raw =
      if is_empty (trim_space raw) then [] else host_of (url_host (trim_space raw))

  module _ (name : Text) (series_urls : List Text) where
    abbrev named_as : Text → SourceRef → Bool
    named_as needle c =
        text_eq (normalize_name c.name) needle || text_eq (normalize_name c.plugin_key) needle

    abbrev pub is_named : SourceRef → Bool
    is_named c = not (is_empty (normalize_name name)) && named_as (normalize_name name) c

    abbrev pub is_aliased : SourceRef → Bool
    is_aliased c =
        not (is_empty (normalize_name name))
        && (contains_name (source_aliases (normalize_name name)) (normalize_name c.name)
            || contains_name (source_aliases (normalize_name name)) (normalize_name c.plugin_key))

    abbrev hosts : List Text
    hosts = filter (λ h. not (is_empty h)) (map registered_host series_urls)

    abbrev pub is_hosted : SourceRef → Bool
    is_hosted c =
        not (is_empty (registered_host c.base_url))
        && contains_name hosts (registered_host c.base_url)

    abbrev pub or_else :
        Kind → Option SourceRef → Option (SourceRef × Kind) → Option (SourceRef × Kind)
    or_else k none next = next
    or_else k (some c) next = some (c, k)

    unfoldable pub match_source : List SourceRef → Option (SourceRef × Kind)
    unfolding normalize_name registered_host source_aliases
    match_source installed = or_else by_name (find? is_named installed) (
        or_else by_alias (find? is_aliased installed)
          (or_else by_host (find? is_hosted installed) none))
