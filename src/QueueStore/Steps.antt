-- ===== src/QueueStore/Steps.antt =====
-- Any sequence of calls of the repository's queue methods, by any number of workers and requests:
-- the pool holds one connection, so each call is one step.
use makidoku.Common.{ℕ, ◌≡◌, String, Option, List}
use makidoku.Common.Int.{ℤ}
use makidoku.Common.Result.{ok}
use makidoku.Rows.{Store, Item}
use makidoku.QueueStore.{
  enqueue_chapter, update_queue_progress, save_queue_page_progress, mark_queue_failed,
}
use makidoku.QueueStore.Control.{
  mark_chapter_downloaded, complete_queue_download, pause_queue_item, resume_queue_item,
  retry_queue_item, cancel_queue_item, release_queue_item, cancel_all_queue_items,
  yield_superseded_downloads, set_queue_order, reset_interrupted_queue,
  retry_failed_queue_items_by_source,
}
use makidoku.QueueStore.Claim.{ClaimOptions, claim_next_queue_item}

pub data Step (st : Store) (st' : Store) : Type 0 where
  enqueue : (now : ℕ) (c : String) (i : Item) → enqueue_chapter now c st ≡ ok (i, st') → Step st st'
  progress :
      (id : ℕ) (total part : ℤ) (m : Option String)
      → update_queue_progress id total part m st ≡ ok st'
      → Step st st'
  save_pages :
      (id : ℕ) (total : ℤ) (done : List ℕ)
      → save_queue_page_progress id total done st ≡ ok st'
      → Step st st'
  fail : (id : ℕ) (m : Option String) → mark_queue_failed id m st ≡ ok st' → Step st st'
  mark : (c path : String) → mark_chapter_downloaded c path st ≡ ok st' → Step st st'
  complete : (c path : String) → complete_queue_download c path st ≡ ok st' → Step st st'
  pause : (id : ℕ) → pause_queue_item id st ≡ ok st' → Step st st'
  resume : (id : ℕ) → resume_queue_item id st ≡ ok st' → Step st st'
  retry : (id : ℕ) → retry_queue_item id st ≡ ok st' → Step st st'
  cancel : (id : ℕ) → cancel_queue_item id st ≡ ok st' → Step st st'
  release : (id : ℕ) → release_queue_item id st ≡ st' → Step st st'
  cancel_all : (cancel_all_queue_items st).1 ≡ st' → Step st st'
  yield_superseded : (yield_superseded_downloads st).1 ≡ st' → Step st st'
  reorder : (order : List ℤ) → set_queue_order order st ≡ ok st' → Step st st'
  reset : reset_interrupted_queue st ≡ st' → Step st st'
  retry_source : (s : String) → (retry_failed_queue_items_by_source s st).1 ≡ st' → Step st st'
  claim :
      (options : ClaimOptions) (o : Option Item)
      → claim_next_queue_item options st ≡ ok (o, st')
      → Step st st'

pub data Reach (st : Store) : Store → Type 0 where
  here : Reach st st
  next : {u v : Store} → Reach st u → Step u v → Reach st v
