-- ===== src/QueueStore.antt =====
-- The download queue of the repository (internal/db/repository.go): each method is a function from
-- the tables to its result and the new tables. A method that fails has changed nothing, since a
-- transaction is rolled back and a lone statement that matched no row wrote none.
pub mod Control
pub mod Claim
pub mod Invariant
pub mod Steps
pub mod Moves
pub mod Effects
pub mod Calls
pub mod Reorder
pub mod Placed
pub mod Safety
pub mod Yield
pub mod Outcomes
pub mod Enqueue
use makidoku.Common.{
  ℕ, zero, suc, ◌+◌, ◌*◌, ◌/◌, ◌<◌, String, Bool, true, false, ◌&&◌, ◌||◌, not, Option, none, some,
  List, [], ◌∷◌, ◌++◌, map, ltb, leb, ◌==◌, if◌then◌else◌, str_eq, filter, find?, any, count_if,
  length, head?, is_empty, max,
}
use makidoku.Common.Int.{ℤ, pos, negsuc}
use makidoku.Common.Result.{Result, ok, err, ◌>>=◌, ◌>>◌, guard}
use makidoku.Rows.{
  Status, pending, downloading, failed, paused, Row, Chapter, Store, Item, is, has_id, has_chapter,
  is_live, update_where, delete_where, ordered, chapter_of, source_of, from_source,
}

pub data StoreError : Type 0 where
  no_rows : StoreError
  not_allowed_state : StoreError
  invalid_progress : StoreError
  invalid_item_id : StoreError
  canceled_before_completion : StoreError
  foreign_key : StoreError

-- The statement must have matched a row.
abbrev pub require_change : (Row → Bool) → List Row → Result StoreError (Unit {0})
require_change p rows = guard (any p rows) not_allowed_state

abbrev pub set_status : Status → Row → Row
set_status s r = record r { status = s }

abbrev pub joined : Row → Option Chapter → Result StoreError Item
joined r none = err no_rows
joined r (some c) = ok (record { row = r; chapter = c })

abbrev pub found_item : List Chapter → Option Row → Result StoreError Item
found_item cs none = err no_rows
found_item cs (some r) = joined r (chapter_of cs r.chapter_id)

-- The row joined to its chapter, by the condition on the row.
abbrev pub select_item : (Row → Bool) → Store → Result StoreError Item
select_item p st = found_item st.chapters (find? p st.rows)

unfoldable pub get_queue_item : ℕ → Store → Result StoreError Item
get_queue_item id = select_item (has_id id)

unfoldable pub get_queue_item_by_chapter : String → Store → Result StoreError Item
get_queue_item_by_chapter c = select_item (has_chapter c)

abbrev pub max_position : List Row → ℕ
max_position [] = 0
max_position (r ∷ rs) = max r.position (max_position rs)

-- The DO UPDATE branch of the upsert: a failed row starts again, any other keeps what it has.
abbrev pub restart_failed : ℕ → ℕ → Row → Row
restart_failed now position r =
    if is failed r
    then record r {
      status = pending;
      progress = 0;
      total_pages = 0;
      downloaded_pages = 0;
      error_message = none;
      queued_at = now;
      position = position;
    }
    else r

abbrev pub new_row : ℕ → String → ℕ → ℕ → Row
new_row id chapter_id now position = record {
  id = id;
  chapter_id = chapter_id;
  status = pending;
  progress = 0;
  total_pages = 0;
  downloaded_pages = 0;
  done_pages = [];
  error_message = none;
  queued_at = now;
  position = position;
}

-- INSERT … ON CONFLICT(chapter_id) DO UPDATE, where the chapter must exist. The counter of
-- AUTOINCREMENT advances on a conflict too.
abbrev pub upsert : ℕ → String → Store → Store
upsert now c st =
    let position = max_position st.rows + 1 in
    if any (has_chapter c) st.rows
    then record st {
      rows = update_where (has_chapter c) (restart_failed now position) st.rows;
      next_id = st.next_id + 1;
    }
    else record st {
      rows = st.rows ++ new_row st.next_id c now position ∷ [];
      next_id = st.next_id + 1;
    }

abbrev pub with_store : Store → Result StoreError Item → Result StoreError (Item × Store)
with_store st r = r >>= λ item. ok (item, st)

unfoldable pub enqueue_chapter : ℕ → String → Store → Result StoreError (Item × Store)
unfolding get_queue_item_by_chapter
enqueue_chapter now c st =
    if any (λ x. str_eq x.id c) st.chapters
    then with_store (upsert now c st) (get_queue_item_by_chapter c (upsert now c st))
    else err foreign_key

abbrev pub percent : ℕ → ℕ → ℕ
percent part total = if ltb 0 total then part * 100 / total else 0

abbrev pub started : Row → Status
started r = if is pending r then downloading else r.status

abbrev pub can_progress : ℕ → Row → Bool
can_progress id r = has_id id r && (is pending r || is downloading r)

abbrev pub progressed : ℕ → ℕ → Option String → Row → Row
progressed total part message r = record r {
  status = started r;
  progress = percent part total;
  total_pages = total;
  downloaded_pages = part;
  error_message = message;
}

abbrev pub write_progress : ℕ → ℕ → ℕ → Option String → Store → Result StoreError Store
write_progress id total part message st = do
  require_change (can_progress id) st.rows
  ok (record st { rows = update_where (can_progress id) (progressed total part message) st.rows })

unfoldable pub update_queue_progress : ℕ → ℤ → ℤ → Option String → Store → Result StoreError Store
update_queue_progress id (pos total) (pos part) message st =
    if ltb total part then err invalid_progress else write_progress id total part message st
update_queue_progress id _ _ message st = err invalid_progress

abbrev pub saved : ℕ → List ℕ → Row → Row
saved total done r = record r {
  downloaded_pages = length done;
  progress = percent (length done) total;
  done_pages = done;
}

unfoldable pub save_queue_page_progress : ℕ → ℤ → List ℕ → Store → Result StoreError Store
save_queue_page_progress id (negsuc _) done st = err invalid_progress
save_queue_page_progress id (pos total) done st =
    if ltb total (length done) then err invalid_progress else do
      require_change (can_progress id) st.rows
      ok (record st { rows = update_where (can_progress id) (saved total done) st.rows })

abbrev pub is_downloading : ℕ → Row → Bool
is_downloading id r = has_id id r && is downloading r

abbrev pub failed_with : Option String → Row → Row
failed_with message r = record r {
  status = failed;
  error_message = elim message [ none ↦ some "download failed" | some m ↦ some m ];
}

unfoldable pub mark_queue_failed : ℕ → Option String → Store → Result StoreError Store
mark_queue_failed id message st = do
  require_change (is_downloading id) st.rows
  ok (record st { rows = update_where (is_downloading id) (failed_with message) st.rows })
