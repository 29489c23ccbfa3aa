-- ===== src/Downloader.antt =====
-- The state of the downloader (the struct Queue of internal/downloader/queue.go), the events that it
-- publishes, and the requests of clients. A request is one step: between its reads and writes no
-- other request or worker acts.
pub mod Policy
pub mod Process
pub mod Requests
pub mod Cancellation
pub mod Selection
use makidoku.Common.{
  ℕ, zero, suc, ◌+◌, String, Bool, true, false, not, ◌&&◌, ◌||◌, Option, none, some, List, [], ◌∷◌,
  ◌++◌, ltb, leb, ◌==◌, if◌then◌else◌, str_eq, filter, any, is_empty, length,
}
use makidoku.Common.Int.{ℤ}
use makidoku.Common.Result.{Result, ok, err}
use makidoku.Fetching.{Fault, canceled, deadline_exceeded, plain}
use makidoku.Rows.{Status, pending, downloading, paused, same_status, Row, Chapter, Store, Item}
use makidoku.Rows
use makidoku.PageRows.{PageRow}
use makidoku.QueueStore.{StoreError, get_queue_item, mark_queue_failed, set_status}
use makidoku.QueueStore.Control.{
  pause_queue_item, resume_queue_item, retry_queue_item, cancel_queue_item, release_queue_item,
  cancel_all_queue_items, yield_superseded_downloads, set_queue_order,
  retry_failed_queue_items_by_source,
}
use makidoku.QueueStore.Claim.{contains}

pub data EventType : Type 0 where
  state queued progressed finished pended failed_event paused_event resumed canceled_event :
      EventType
  reordered : EventType

pub record Event : Type 0 where
  pub kind : EventType
  pub item : Option Item

-- One fetched page on disk: the row that it belongs to, its index, its bytes and its extension.
pub record StagedPage : Type 0 where
  pub item_id : ℕ
  pub index : ℕ
  pub content : List ℕ
  pub extension : String

-- `accesses` counts the reads and writes of the shared state, for the rest of the daemon, and
-- `removals` the removals of a directory: `refuses n p` tells whether the n-th one leaves the page.
pub record World : Type 0 where
  pub store : Store
  pub paused_all : Bool
  pub paused_sources : List String
  pub staged : List StagedPage
  pub archives : List String
  pub events : List Event
  pub downloaded_pages : ℕ
  pub retried_requests : ℕ
  pub pages : List PageRow
  pub wake : Bool
  pub accesses : ℕ
  pub removals : ℕ
  pub refuses : ℕ → StagedPage → Bool

abbrev pub publish : EventType → Option Item → World → World
publish kind item w = record w { events = w.events ++ record { kind = kind; item = item } ∷ [] }

-- publishState: a change of the downloader as a whole.
abbrev pub publish_state : World → World
publish_state = publish state none

-- The channel holds one signal.
abbrev pub notify : World → World
notify w = record w { wake = true }

abbrev pub of_item : ℕ → StagedPage → Bool
of_item id p = p.item_id == id

-- removeStaged: the directory of the row goes, with its pages. A failure, which may leave some of
-- them, is only logged.
abbrev pub remove_staged : ℕ → World → World
remove_staged id w = record w {
  staged = filter (λ p. not (of_item id p) || w.refuses w.removals p) w.staged;
  removals = w.removals + 1;
}

unfoldable pub pause_source : String → World → World
pause_source s w =
    if str_eq s ""
    then w
    else publish_state (record w {
      paused_sources =
          if contains s w.paused_sources then w.paused_sources else s ∷ w.paused_sources;
    })

unfoldable pub resume_source : String → World → World
resume_source s w =
    publish_state
      (notify (record w { paused_sources = filter (λ t. not (str_eq t s)) w.paused_sources }))

unfoldable pub pause_all : World → World
pause_all w = publish_state (record w { paused_all = true })

unfoldable pub resume_all : World → World
resume_all w = publish_state (notify (record w { paused_all = false; paused_sources = [] }))

abbrev pub with_status : Status → Item → Item
with_status s i = record i { row = set_status s i.row }

abbrev pub publish_found : EventType → Result StoreError Item → World → World
publish_found kind (ok i) w = publish kind (some i) w
publish_found kind (err e) w = w

-- publishCurrent, on the store as it is then.
abbrev pub publish_row : EventType → ℕ → World → World
publish_row kind id w = publish_found kind (get_queue_item id w.store) w

abbrev pub publish_rows : EventType → List ℕ → World → World
publish_rows kind [] w = w
publish_rows kind (id ∷ ids) w = publish_rows kind ids (publish_row kind id w)

-- A request that changes the store by a method that may fail.
abbrev pub changed : (World → World) → Result StoreError Store → World → Result StoreError World
changed after (err e) w = err e
changed after (ok st) w = ok (after (record w { store = st }))

unfoldable pub pause : ℕ → World → Result StoreError World
unfolding get_queue_item
pause id w = changed (publish_row paused_event id) (pause_queue_item id w.store) w

unfoldable pub resume : ℕ → World → Result StoreError World
unfolding get_queue_item
resume id w = changed (λ v. notify (publish_row resumed id v)) (resume_queue_item id w.store) w

unfoldable pub retry : ℕ → World → Result StoreError World
unfolding get_queue_item
retry id w = changed (λ v. notify (publish_row pended id v)) (retry_queue_item id w.store) w

abbrev pub cancel_found : ℕ → Result StoreError Item → World → Result StoreError World
cancel_found id (err e) w = err e
cancel_found id (ok item) w =
    changed
      (λ v. publish canceled_event (some (with_status Rows.canceled item)) (remove_staged id v))
      (cancel_queue_item id w.store) w

unfoldable pub cancel : ℕ → World → Result StoreError World
unfolding get_queue_item
cancel id w = cancel_found id (get_queue_item id w.store) w

unfoldable pub retry_failed_items : String → World → ℕ × World
unfolding get_queue_item
retry_failed_items s w =
    let (ids, st) = retry_failed_queue_items_by_source s w.store in
    let told = publish_rows pended ids (record w { store = st }) in
    (length ids, if is_empty ids then told else notify told)

abbrev pub announce_removed : List Item → World → World
announce_removed [] w = w
announce_removed (i ∷ is) w =
    announce_removed is
      (publish canceled_event (some (with_status Rows.canceled i)) (remove_staged i.id w))

unfoldable pub cancel_all : World → ℕ × World
cancel_all w =
    let (items, st) = cancel_all_queue_items w.store in
    (length items, announce_removed items (record w { store = st }))

abbrev pub reorder_yielded : List ℕ × Store → World → World
reorder_yielded (ids, st) w =
    let told = publish_rows pended ids (record w { store = st }) in
    publish reordered none (if is_empty ids then told else notify told)

unfoldable pub reorder : List ℤ → World → Result StoreError World
unfolding get_queue_item
reorder order w =
    changed (λ v. reorder_yielded (yield_superseded_downloads v.store) v)
      (set_queue_order order w.store) w
