-- ===== src/QueueStore/Claim.antt =====
-- ClaimNextQueueItem of internal/db/repository.go, with its gates, and ListQueue.
pub mod Counts
pub mod Shape
pub mod Gates
use makidoku.Common.{
  ℕ, zero, suc, ◌+◌, String, Bool, true, false, ◌&&◌, ◌||◌, not, Option, none, some, List, [], ◌∷◌,
  ltb, if◌then◌else◌, str_eq, filter, find?, any, count_if, head?,
}
use makidoku.Common.Result.{Result, ok, err, ◌>>=◌, ◌>>◌}
use makidoku.Rows.{
  pending, downloading, Row, Chapter, Store, Item, is, has_id, is_live, update_where, ordered,
  source_of, from_source,
}
use makidoku.QueueStore.{StoreError, require_change, get_queue_item}
use makidoku.QueueStore.Control.{join}

pub record SourceConcurrency : Type 0 where
  pub source_id : String
  pub max : ℕ

-- A gate is off when its value is 0, which also stands for a negative one.
pub record ClaimOptions : Type 0 where
  pub paused_sources : List String
  pub caps : List SourceConcurrency
  pub default_cap : ℕ
  pub max_active_sources : ℕ

abbrev pub contains : String → List String → Bool
contains s = any (λ t. str_eq t s)

-- The chapters of a source that are downloading.
abbrev pub in_flight : List Chapter → String → List Row → ℕ
in_flight cs s = count_if (λ r. is downloading r && from_source cs s r)

-- COALESCE((SELECT cap FROM caps WHERE …), default)
abbrev pub cap_for : ClaimOptions → String → ℕ
cap_for options s = elim (find? (λ c. str_eq c.source_id s) options.caps) [
  | none ↦ options.default_cap
  | some c ↦ c.max
]

abbrev pub cons_source : Option String → List String → List String
cons_source none ss = ss
cons_source (some s) ss = s ∷ ss

-- The sources of the rows that are downloading, one entry for each row.
abbrev pub busy_sources : List Chapter → List Row → List String
busy_sources cs [] = []
busy_sources cs (r ∷ rs) =
    let rest = busy_sources cs rs in
    if is downloading r then cons_source (source_of cs r) rest else rest

-- COUNT(DISTINCT …)
abbrev pub count_distinct : List String → ℕ
count_distinct [] = 0
count_distinct (s ∷ ss) = let rest = count_distinct ss in if contains s ss then rest else suc rest

abbrev pub source_claimable : ClaimOptions → Store → String → Bool
source_claimable options st s =
    not (contains s options.paused_sources)
    && (if ltb 0 options.default_cap
        then ltb (in_flight st.chapters s st.rows) (cap_for options s)
        else true)
    && (if ltb 0 options.max_active_sources
        then contains s (busy_sources st.chapters st.rows)
          || ltb (count_distinct (busy_sources st.chapters st.rows)) options.max_active_sources
        else true)

abbrev pub joined_claimable : ClaimOptions → Store → Option String → Bool
joined_claimable options st none = false
joined_claimable options st (some s) = source_claimable options st s

abbrev pub claimable : ClaimOptions → Store → Row → Bool
claimable options st r = is pending r && joined_claimable options st (source_of st.chapters r)

abbrev pub start : Row → Row
start r = record r { status = downloading; error_message = none }

abbrev pub is_waiting : ℕ → Row → Bool
is_waiting id r = has_id id r && is pending r

abbrev pub start_row : ℕ → Store → Store
start_row id st = record st { rows = update_where (is_waiting id) start st.rows }

-- The rest of the claim, once the query has returned an id or no row.
abbrev pub claim_row : Store → Option Row → Result StoreError (Option Item × Store)
claim_row st none = ok (none, st)
claim_row st (some r) = do
  require_change (is_waiting r.id) st.rows
  item ← get_queue_item r.id (start_row r.id st)
  ok (some item, start_row r.id st)

unfoldable pub claim_next_queue_item :
    ClaimOptions → Store → Result StoreError (Option Item × Store)
claim_next_queue_item options st =
    claim_row st (head? (ordered (filter (claimable options st) st.rows)))

unfoldable pub list_queue : Store → List Item
list_queue st = join st.chapters (ordered st.rows)
