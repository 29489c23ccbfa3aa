-- ===== src/Downloader/Process/Run.antt =====
-- The body of process (internal/downloader/queue.go): the page loop, the archive and the finish.
use makidoku.Common.{
  Bool, ◌&&◌, ◌==◌, ℕ, suc, ◌+◌, String, true, false, not, Option, none, some, List, [], ◌∷◌, ◌++◌,
  if◌then◌else◌, str_eq, filter, is_empty, length,
}
use makidoku.Common.Int.{pos}
use makidoku.Common.Result.{Result, ok, err}
use makidoku.Fetching.{Fault, plain, retry_fetch_with}
use makidoku.Rows.{completed, Store, Item}
use makidoku.PageRows.{PageItem, sorted_pages, page_rows, upsert_pages}
use makidoku.QueueStore.{StoreError, set_status, update_queue_progress, save_queue_page_progress}
use makidoku.QueueStore.Control.{complete_queue_download}
use makidoku.Downloader.{
  progressed, finished, StagedPage, World, publish, publish_row, remove_staged,
}
use makidoku.Downloader.Process.{
  PageData, Host, go_on, returned, Proc, ◌>>=◌, ◌>>◌, give, find_staged, observe, image_extension,
  interrupted, fail,
}

-- What the loop has gathered: `downloaded` for the archive, `done` for the row.
pub record Gathered : Type 0 where
  pub downloaded : List PageData
  pub done : List ℕ

abbrev pub data_of : StagedPage → PageData
data_of p = record { bytes = p.content; extension = p.extension }

abbrev same_file : StagedPage → StagedPage → Bool
same_file a b = a.item_id == b.item_id && a.index == b.index && str_eq a.extension b.extension

abbrev staged_file : ℕ → ℕ → PageData → StagedPage
staged_file id index d = record {
  item_id = id;
  index = index;
  content = d.bytes;
  extension = d.extension;
}

abbrev write_over : StagedPage → List StagedPage → List StagedPage
write_over f staged = filter (λ p. not (same_file f p)) staged ++ f ∷ []

abbrev pub keep_staged : StagedPage → Gathered → Gathered
keep_staged p g = record g { downloaded = g.downloaded ++ data_of p ∷ [] }

abbrev pub keep_fetched : ℕ → PageData → Gathered → Gathered
keep_fetched index d g = record { downloaded = g.downloaded ++ d ∷ []; done = g.done ++ index ∷ [] }

abbrev page_data : Host → String → List ℕ → PageData
page_data host url d = record { bytes = d; extension = image_extension host url d }

abbrev pub without_archive : String → World → World
without_archive path w = record w { archives = filter (λ a. not (str_eq a path)) w.archives }

abbrev pub completed_item : Item → Item
completed_item item = record item {
  row = record (set_status completed item.row) { progress = 100 };
}

module _ (host : Host) (item : Item) where
  abbrev pub try : {A : Type 0} → Result Fault A → Proc A
  try (ok a) = give a
  try (err e) = fail host item e

  abbrev pub unless_failed : Option Fault → Proc (Unit {0})
  unless_failed none = give tt
  unless_failed (some e) = fail host item e

  unfoldable pub check_interrupted : Proc (Unit {0})
  check_interrupted w =
      let (stop, v) = interrupted host item w in if stop then returned false none v else go_on tt v

  -- A method of the store that the loop calls: a failure may mean that the work was interrupted.
  unfoldable pub store_progress : (Store → Result StoreError Store) → Proc (Unit {0})
  unfolding check_interrupted
  store_progress f w =
      let v = observe host w in
      elim (f v.store) [
        | ok st ↦ go_on tt (record v { store = st })
        | err _ ↦ (check_interrupted >> fail host item plain) v
      ]

  -- The fetch, the retries of which are counted.
  unfoldable pub fetch : PageItem → Proc (List ℕ)
  unfolding retry_fetch_with
  fetch page w =
      let run =
        retry_fetch_with (host.fetch_image item.chapter.source_id page) (host.sleep page)
          host.backoff host.retries in
      try run.result (record w { retried_requests = w.retried_requests + length run.delays })

  unfoldable pub unscrambled : PageItem → List ℕ → Proc (List ℕ)
  unscrambled page d =
      if page.is_scrambled then try (host.unscramble item.chapter.source_id d) else give d

  -- A file of the same name is written over.
  unfoldable pub stage_page : ℕ → PageData → Proc (Unit {0})
  stage_page index d = do
    unless_failed (host.write_file item.id index)
    λ w. go_on tt (record w {
      staged = write_over (staged_file item.id index d) w.staged;
      downloaded_pages = w.downloaded_pages + 1;
    })

  unfoldable pub report_page : ℕ → List ℕ → Proc (Unit {0})
  unfolding store_progress
  report_page total done = do
    store_progress (update_queue_progress item.id (pos total) (pos (length done)) none)
    store_progress (save_queue_page_progress item.id (pos total) done)
    λ w. go_on tt (publish_row progressed item.id (observe host w))

  unfoldable pub fetch_page : ℕ → ℕ → PageItem → Gathered → Proc Gathered
  unfolding fetch
  fetch_page total index page g = do
    check_interrupted
    raw ← fetch page
    bytes ← unscrambled page raw
    let d = page_data host page.url bytes
    stage_page index d
    report_page total ((keep_fetched index d g).done)
    check_interrupted
    give (keep_fetched index d g)

  unfoldable pub one_page : ℕ → ℕ → PageItem → Gathered → Proc Gathered
  unfolding fetch_page
  one_page total index page g w = elim (find_staged item.id index w) [
    | some p ↦ go_on (keep_staged p g) w
    | none ↦ fetch_page total index page g w
  ]

  unfoldable pub page_loop : ℕ → ℕ → List PageItem → Gathered → Proc Gathered
  unfolding one_page
  page_loop total index [] g = give g
  page_loop total index (p ∷ ps) g = do
    next ← one_page total index p g
    page_loop total (suc index) ps next

  -- The registration of the archive, which is removed when that fails.
  unfoldable pub register : String → Proc (Unit {0})
  register path w =
      let v = observe host w in
      elim (complete_queue_download item.chapter_id path v.store) [
        | err _ ↦ fail host item plain (without_archive path v)
        | ok st ↦ go_on tt (record v { store = st })
      ]

  -- The end of the work: the staged pages are removed after the registration and before the event,
  -- each at a time of its own, and the event is told whether that worked or not.
  unfoldable pub finish : String → Proc (Unit {0})
  unfolding register
  finish path = do
    register path
    λ w. go_on tt (remove_staged item.id (observe host w))
    λ w. returned true none (publish finished (some (completed_item item)) (observe host w))

  unfoldable pub write_archive : List PageData → Proc String
  write_archive downloaded = do
    path ← try (host.write_archive item downloaded)
    λ w. go_on path (record w { archives = w.archives ++ path ∷ [] })

  -- The page rows are written before the chapter is marked; no error of that write is modelled.
  unfoldable pub save_pages : List PageItem → Proc (Unit {0})
  save_pages pages w =
      let v = observe host w in
      go_on tt (record v {
        pages = upsert_pages item.chapter_id (page_rows item.chapter_id pages) v.pages;
      })

  unfoldable pub listed_pages : Proc (List PageItem)
  listed_pages = do
    pages ← try (host.pages_of item.chapter.source_id item.chapter.source_chapter_id)
    if is_empty pages then fail host item plain else give (sorted_pages pages)

  unfoldable pub process : Proc (Unit {0})
  unfolding page_loop
  process = do
    pages ← listed_pages
    unless_failed (host.make_dir item.id)
    store_progress
        (update_queue_progress item.id (pos (length pages)) (pos (length item.done_pages)) none)
    g ← page_loop (length pages) 0 pages (record { downloaded = []; done = item.done_pages })
    check_interrupted
    path ← write_archive g.downloaded
    save_pages pages
    finish path
