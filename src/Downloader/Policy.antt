-- ===== src/Downloader/Policy.antt =====
-- The policy of a source (policyFor, claimOptions, NewQueue and InvalidateSourcePolicy of
-- internal/downloader/queue.go) and the table of the user's overrides (GetSourceDownloadPrefs and
-- SetSourceDownloadPrefs of internal/db/repository.go).
pub mod Coherence
pub mod Overrides
use makidoku.Common.{
  ℕ, zero, suc, ◌*◌, ◌%◌, String, Bool, true, false, not, ◌&&◌, Option, none, some, List, [], ◌∷◌,
  ltb, ◌==◌, if◌then◌else◌, str_eq, filter, find?,
}
use makidoku.Common.Int.{ℤ, pos, negsuc, to_int64, of_int}
use makidoku.QueueStore.Claim.{SourceConcurrency, ClaimOptions}

-- The durations are in nanoseconds.
pub record Options : Type 0 where
  pub workers : ℤ
  pub page_interval : ℤ
  pub max_retries : ℤ
  pub max_active_sources : ℤ
  pub chapters_per_source : ℤ

pub record SourcePolicy : Type 0 where
  pub interval : ℤ
  pub retries : ℤ
  pub backoff : ℤ
  pub concurrent : ℤ

-- RateLimitHints and RetryHints of the engine, in one record.
pub record Hints : Type 0 where
  pub interval_ms : Option ℤ
  pub burst : Option ℤ
  pub max_attempts : Option ℤ
  pub backoff_ms : Option ℤ

pub record SourceDownloadPrefs : Type 0 where
  pub source_id : String
  pub interval_ms : Option ℤ
  pub max_attempts : Option ℤ
  pub backoff_ms : Option ℤ
  pub burst : Option ℤ

-- An entry of the cache `policies`.
pub record Cached : Type 0 where
  pub source_id : String
  pub policy : SourcePolicy

abbrev pub default_retry_backoff : ℤ
default_retry_backoff = pos 1_000_000_000

abbrev at_least_one : ℤ → ℤ → ℤ
at_least_one (pos (suc n)) default = pos (suc n)
at_least_one _ default = default

abbrev not_negative : ℤ → ℤ → ℤ
not_negative (pos n) default = pos n
not_negative (negsuc n) default = default

-- NewQueue: what is out of range gets its default.
unfoldable pub new_options : Options → Options
new_options o = record {
  workers = at_least_one o.workers (pos 3);
  page_interval = not_negative o.page_interval (pos 0);
  max_retries = not_negative o.max_retries (pos 3);
  max_active_sources = at_least_one o.max_active_sources (pos 2);
  chapters_per_source = at_least_one o.chapters_per_source (pos 2);
}

-- A product of two durations wraps at 64 bits.
abbrev pub milliseconds : ℤ → ℤ
milliseconds z = to_int64 (of_int z * 1_000_000 % 0x1_0000_0000_0000_0000)

-- `if v != nil && *v > 0`
abbrev if_positive : Option ℤ → ℤ → ℤ
if_positive (some (pos (suc n))) old = pos (suc n)
if_positive _ old = old

abbrev positive_ms : Option ℤ → ℤ → ℤ
positive_ms (some (pos (suc n))) old = milliseconds (pos (suc n))
positive_ms _ old = old

-- `if v != nil`
abbrev if_set : Option ℤ → ℤ → ℤ
if_set (some z) old = z
if_set none old = old

abbrev set_ms : Option ℤ → ℤ → ℤ
set_ms (some z) old = milliseconds z
set_ms none old = old

abbrev pub default_policy : Options → SourcePolicy
default_policy o = record {
  interval = o.page_interval;
  retries = o.max_retries;
  backoff = default_retry_backoff;
  concurrent = o.chapters_per_source;
}

abbrev pub apply_hints : Option Hints → SourcePolicy → SourcePolicy
apply_hints none p = p
apply_hints (some h) p = record {
  interval = positive_ms h.interval_ms p.interval;
  retries = if_positive h.max_attempts p.retries;
  backoff = positive_ms h.backoff_ms p.backoff;
  concurrent = if_positive h.burst p.concurrent;
}

abbrev pub apply_prefs : Option SourceDownloadPrefs → SourcePolicy → SourcePolicy
apply_prefs none p = p
apply_prefs (some h) p = record {
  interval = set_ms h.interval_ms p.interval;
  retries = if_set h.max_attempts p.retries;
  backoff = set_ms h.backoff_ms p.backoff;
  concurrent = if_positive h.burst p.concurrent;
}

abbrev pub is_of : String → SourceDownloadPrefs → Bool
is_of s p = str_eq p.source_id s

unfoldable pub get_source_download_prefs :
    String → List SourceDownloadPrefs → Option SourceDownloadPrefs
get_source_download_prefs s table = find? (is_of s) table

abbrev is_none : Option ℤ → Bool
is_none none = true
is_none (some z) = false

abbrev pub is_unset : SourceDownloadPrefs → Bool
is_unset p =
    is_none p.interval_ms && is_none p.max_attempts && is_none p.backoff_ms && is_none p.burst

abbrev pub upsert_prefs : SourceDownloadPrefs → List SourceDownloadPrefs → List SourceDownloadPrefs
upsert_prefs p [] = p ∷ []
upsert_prefs p (q ∷ qs) =
    let rest = upsert_prefs p qs in if is_of p.source_id q then p ∷ qs else q ∷ rest

-- An override with no field set is deleted.
unfoldable pub set_source_download_prefs :
    SourceDownloadPrefs → List SourceDownloadPrefs → List SourceDownloadPrefs
set_source_download_prefs p table =
    if is_unset p then filter (λ q. not (is_of p.source_id q)) table else upsert_prefs p table

abbrev pub caches : String → Cached → Bool
caches s c = str_eq c.source_id s

-- InvalidateSourcePolicy
unfoldable pub invalidate_source_policy : String → List Cached → List Cached
invalidate_source_policy s cache = filter (λ c. not (caches s c)) cache

-- A policy is kept only if the source's hints could be read.
abbrev pub remember : Option Hints → Cached → List Cached → List Cached
remember none c cache = cache
remember (some h) c cache = c ∷ cache

abbrev pub bound : ℤ → ℕ
bound (pos n) = n
bound (negsuc n) = 0

-- `hints_of` is what the engine says of a source, none when it fails.
module _ (o : Options) (hints_of : String → Option Hints) (table : List SourceDownloadPrefs) where
  -- The policy without the cache: the override over the hints over the defaults.
  unfoldable pub fresh_policy : String → SourcePolicy
  unfolding get_source_download_prefs
  fresh_policy s =
      apply_prefs (get_source_download_prefs s table) (apply_hints (hints_of s) (default_policy o))

  -- The cached entry, or a fresh policy.
  abbrev pub answer : Option Cached → String → List Cached → SourcePolicy × List Cached
  answer (some c) s cache = (c.policy, cache)
  answer none s cache = (
    fresh_policy s,
    remember (hints_of s) (record { source_id = s; policy = fresh_policy s }) cache,
  )

  unfoldable pub policy_for : String → List Cached → SourcePolicy × List Cached
  unfolding fresh_policy
  policy_for s cache = answer (find? (caches s) cache) s cache

  abbrev pub cap_entry : String → SourcePolicy → List SourceConcurrency → List SourceConcurrency
  cap_entry s p rest =
      if bound p.concurrent == bound o.chapters_per_source
      then rest
      else record { source_id = s; max = bound p.concurrent } ∷ rest

  unfoldable pub caps_of : List String → List Cached → List SourceConcurrency × List Cached
  unfolding policy_for
  caps_of [] cache = ([], cache)
  caps_of (s ∷ ss) cache =
      let (p, cache₁) = policy_for s cache in
      let (rest, cache₂) = caps_of ss cache₁ in (cap_entry s p rest, cache₂)

  -- `live` is the result of QueueSourceIDs, or nothing when it fails.
  unfoldable pub claim_options :
      List String → Option (List String) → List Cached → ClaimOptions × List Cached
  unfolding caps_of
  claim_options paused none cache = (
    record {
      paused_sources = paused;
      caps = [];
      default_cap = bound o.chapters_per_source;
      max_active_sources = bound o.max_active_sources;
    },
    cache,
  )
  claim_options paused (some live) cache =
      let (caps, cache') = caps_of live cache in
      (
        record {
          paused_sources = paused;
          caps = caps;
          default_cap = bound o.chapters_per_source;
          max_active_sources = bound o.max_active_sources;
        },
        cache',
      )
