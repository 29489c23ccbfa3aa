-- ===== src/QueueStore/Control.antt =====
-- The methods of internal/db/repository.go that a client's request or the end of a download calls:
-- completion, pause, resume, cancel, retry, release, reorder and the reset at start-up.
use makidoku.Common.{
  ℕ, zero, suc, String, Bool, true, false, ◌&&◌, Option, none, some, List, [], ◌∷◌, map, ltb, ◌==◌,
  if◌then◌else◌, str_eq, filter, any, is_empty, min,
}
use makidoku.Common.Int.{ℤ, pos, negsuc}
use makidoku.Common.Result.{Result, ok, err, ◌>>=◌, ◌>>◌}
use makidoku.Rows.{
  Status, pending, downloading, failed, paused, same_status, Row, Chapter, Store, Item, is, has_id,
  has_chapter, is_live, update_where, delete_where, ordered, chapter_of, from_source,
}
use makidoku.QueueStore.{
  StoreError, not_allowed_state, invalid_item_id, canceled_before_completion, require_change,
  set_status, is_downloading,
}

abbrev pub mark_downloaded : String → String → List Chapter → List Chapter
mark_downloaded id path [] = []
mark_downloaded id path (c ∷ cs) =
    (if str_eq c.id id then record c { downloaded = true; download_path = some path } else c)
    ∷ mark_downloaded id path cs

abbrev pub has_key : String → Chapter → Bool
has_key id c = str_eq c.id id

-- `queue_step` runs in the same transaction: if it fails the chapter is as it was.
abbrev pub write_downloaded_chapter :
    String → String → (Store → Result StoreError Store) → Store → Result StoreError Store
write_downloaded_chapter id path queue_step st =
    if any (has_key id) st.chapters
    then queue_step (record st { chapters = mark_downloaded id path st.chapters })
    else err not_allowed_state

unfoldable pub mark_chapter_downloaded : String → String → Store → Result StoreError Store
mark_chapter_downloaded id path = write_downloaded_chapter id path ok

abbrev pub is_in_flight : String → Row → Bool
is_in_flight c r = has_chapter c r && is downloading r

abbrev pub drop_in_flight : String → Store → Result StoreError Store
drop_in_flight c st =
    if any (is_in_flight c) st.rows
    then ok (record st { rows = delete_where (is_in_flight c) st.rows })
    else err canceled_before_completion

unfoldable pub complete_queue_download : String → String → Store → Result StoreError Store
complete_queue_download id path = write_downloaded_chapter id path (drop_in_flight id)

abbrev pub status_in : List Status → Row → Bool
status_in allowed r = any (same_status r.status) allowed

abbrev pub can_move : ℕ → List Status → Row → Bool
can_move id allowed r = has_id id r && status_in allowed r

unfoldable pub transition_queue_item : ℕ → Status → List Status → Store → Result StoreError Store
transition_queue_item id target allowed st = do
  require_change (can_move id allowed) st.rows
  ok (record st { rows = update_where (can_move id allowed) (set_status target) st.rows })

unfoldable pub pause_queue_item : ℕ → Store → Result StoreError Store
unfolding transition_queue_item
pause_queue_item id = transition_queue_item id paused (pending ∷ downloading ∷ [])

unfoldable pub resume_queue_item : ℕ → Store → Result StoreError Store
unfolding transition_queue_item
resume_queue_item id = transition_queue_item id pending (paused ∷ [])

unfoldable pub retry_queue_item : ℕ → Store → Result StoreError Store
unfolding transition_queue_item
retry_queue_item id = transition_queue_item id pending (failed ∷ [])

abbrev pub is_cancelable : ℕ → Row → Bool
is_cancelable id r = has_id id r && is_live r

unfoldable pub cancel_queue_item : ℕ → Store → Result StoreError Store
cancel_queue_item id st = do
  require_change (is_cancelable id) st.rows
  ok (record st { rows = delete_where (is_cancelable id) st.rows })

unfoldable pub release_queue_item : ℕ → Store → Store
release_queue_item id st = record st {
  rows = update_where (is_downloading id) (set_status pending) st.rows;
}

abbrev pub join : List Chapter → List Row → List Item
join cs [] = []
join cs (r ∷ rs) =
    let rest = join cs rs in
    elim (chapter_of cs r.chapter_id) [
      | none ↦ rest
      | some c ↦ record { row = r; chapter = c } ∷ rest
    ]

-- The removed items, in queue order.
unfoldable pub cancel_all_queue_items : Store → List Item × Store
cancel_all_queue_items st =
    let items = join st.chapters (ordered (filter is_live st.rows)) in
    if is_empty items then ([], st) else (items, record st { rows = delete_where is_live st.rows })

abbrev pub min_with : ℕ → Option ℕ → Option ℕ
min_with n none = some n
min_with n (some p) = some (min n p)

-- SELECT MIN(position) … WHERE status = PENDING, with NULL for no row.
abbrev pub min_pending : List Row → Option ℕ
min_pending [] = none
min_pending (r ∷ rs) =
    let rest = min_pending rs in if is pending r then min_with r.position rest else rest

abbrev pub is_superseded : Option ℕ → Row → Bool
is_superseded least r = elim least [ none ↦ false | some p ↦ is downloading r && ltb p r.position ]

abbrev pub ids : List Row → List ℕ
ids = map (λ r. r.id)

abbrev pub id_in : List ℕ → Row → Bool
id_in is r = any (λ i. r.id == i) is

-- The ids of the rows that went back to the queue, in queue order.
unfoldable pub yield_superseded_downloads : Store → List ℕ × Store
yield_superseded_downloads st =
    let yielded = ids (ordered (filter (is_superseded (min_pending st.rows)) st.rows)) in
    if is_empty yielded then ([], st) else (
      yielded,
      record st {
        rows = update_where (λ r. id_in yielded r && is downloading r) (set_status pending) st.rows;
      },
    )

abbrev pub set_position : ℕ → ℕ → List Row → List Row
set_position position id = update_where (has_id id) (λ r. record r { position = position })

-- An id below 1 fails the whole reorder; an id of no row changes nothing.
abbrev pub set_positions : ℕ → List ℤ → List Row → Result StoreError (List Row)
set_positions position [] rows = ok rows
set_positions position (negsuc _ ∷ rest) rows = err invalid_item_id
set_positions position (pos zero ∷ rest) rows = err invalid_item_id
set_positions position (pos (suc id) ∷ rest) rows =
    set_positions (suc position) rest (set_position position (suc id) rows)

unfoldable pub set_queue_order : List ℤ → Store → Result StoreError Store
set_queue_order order st = do rows ← set_positions 0 order st.rows; ok (record st { rows = rows })

unfoldable pub reset_interrupted_queue : Store → Store
reset_interrupted_queue st = record st {
  rows = update_where (is downloading) (set_status pending) st.rows;
}

abbrev pub is_failed_of : List Chapter → String → Row → Bool
is_failed_of cs source r = is failed r && from_source cs source r

unfoldable pub retry_failed_queue_items_by_source : String → Store → List ℕ × Store
retry_failed_queue_items_by_source source st =
    let retried = ids (ordered (filter (is_failed_of st.chapters source) st.rows)) in
    if is_empty retried then ([], st) else (
      retried,
      record st {
        rows = update_where (is_failed_of st.chapters source) (set_status pending) st.rows;
      },
    )
