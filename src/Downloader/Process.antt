-- ===== src/Downloader/Process.antt =====
-- The work on one claimed item: process, interrupted, fail and what they call, of
-- internal/downloader/queue.go. A step that ends the work returns out of the function. The source's
-- engine, the disk, the archive writer and the rest of the daemon are the fields of a Host.
pub mod Run
pub mod Unfinished
pub mod Gives
pub mod Completion
pub mod Pausing
use makidoku.Common.{
  ℕ, zero, suc, ◌+◌, String, Bool, true, false, not, ◌&&◌, ◌||◌, Option, none, some, List, [], ◌∷◌,
  ◌++◌, ltb, ◌==◌, if◌then◌else◌, str_eq, filter, find?, any, is_empty, length,
}
use makidoku.Common.Int.{ℤ, pos}
use makidoku.Common.Result.{Result, ok, err}
use makidoku.Fetching.{Fault, canceled, deadline_exceeded, plain, Attempts, retry_fetch_with}
use makidoku.Rows.{Status, downloading, completed, paused, is, Row, Store, Item}
use makidoku.PageRows.{PageItem, sorted_pages, page_rows, upsert_pages}
use makidoku.QueueStore.{
  StoreError, get_queue_item, mark_queue_failed, update_queue_progress, save_queue_page_progress,
}
use makidoku.QueueStore.Control.{release_queue_item, complete_queue_download}
use makidoku.QueueStore.Claim.{contains}
use makidoku.Downloader.{
  EventType, progressed, finished, pended, failed_event, StagedPage, World, publish, publish_row,
  of_item, remove_staged,
}

pub record PageData : Type 0 where
  pub bytes : List ℕ
  pub extension : String

-- `fetch_image s p n` is the n-th request for the page, the wait for the limiter included; `sleep`
-- is the wait after it. `path_extension` is the lower-case extension of a URL's path (empty when
-- the URL is malformed), `content_type` is http.DetectContentType, `make_dir` and `write_file` tell
-- how the disk fails. `others n` is what the rest of the daemon does before the n-th access.
pub record Host : Type 0 where
  pub pages_of : String → String → Result Fault (List PageItem)
  pub fetch_image : String → PageItem → ℕ → Result Fault (List ℕ)
  pub sleep : PageItem → ℕ → Option Fault
  pub unscramble : String → List ℕ → Result Fault (List ℕ)
  pub path_extension : String → String
  pub content_type : List ℕ → String
  pub make_dir : ℕ → Option Fault
  pub write_file : ℕ → ℕ → Option Fault
  pub write_archive : Item → List PageData → Result Fault String
  pub message_of : Fault → String
  pub retries : ℤ
  pub backoff : ℤ
  pub others : ℕ → World → World

-- The function goes on with a value, or has returned: whether the chapter finished, and its error.
pub data Flow {ℓ} (A : Type ℓ) : Type ℓ where
  go_on : A → World → Flow A
  returned : Bool → Option Fault → World → Flow A

abbrev pub Proc : Type 0 → Type 0
Proc A = World → Flow A

infixl 5 ◌>>=◌ ◌>>◌
abbrev pub ◌>>=◌ : {A B : Type 0} → Proc A → (A → Proc B) → Proc B
◌>>=◌ m f w = elim (m w) [ go_on a v ↦ f a v | returned b e v ↦ returned b e v ]

abbrev pub ◌>>◌ : {A B : Type 0} → Proc A → Proc B → Proc B
m >> k = m >>= λ _. k

abbrev pub give : {A : Type 0} → A → Proc A
give a w = go_on a w

abbrev pub leave : {A : Type 0} → Bool → Option Fault → Proc A
leave b e w = returned b e w

abbrev known_extensions : List String
known_extensions = ".jpg" ∷ ".jpeg" ∷ ".png" ∷ ".webp" ∷ ".gif" ∷ ".avif" ∷ []

abbrev extension_of : String → String
extension_of t =
    if str_eq t "image/png"
    then ".png"
    else if str_eq t "image/webp"
    then ".webp"
    else if str_eq t "image/gif"
    then ".gif"
    else if str_eq t "image/avif"
    then ".avif"
    else ".jpg"

abbrev pub find_staged : ℕ → ℕ → World → Option StagedPage
find_staged id index w = find? (λ p. of_item id p && p.index == index) w.staged

module _ (host : Host) where
  abbrev pub observe : World → World
  observe w = host.others w.accesses (record w { accesses = w.accesses + 1 })

  abbrev pub image_extension : String → List ℕ → String
  image_extension url data_ =
      if contains (host.path_extension url) known_extensions
      then host.path_extension url
      else extension_of (host.content_type data_)

  abbrev pub release_for_pause : ℕ → World → World
  release_for_pause id w =
      let v = observe w in
      publish_row pended id (observe (record v { store = release_queue_item id v.store }))

  -- The pause of the source is read first, then that of the downloader.
  abbrev pub interrupted_by_pause : Item → World → Bool × World
  interrupted_by_pause item w =
      let v = observe w in
      if contains item.chapter.source_id v.paused_sources
      then (true, release_for_pause item.id v)
      else let u = observe v in
        if u.paused_all then (true, release_for_pause item.id u) else (false, u)

  abbrev pub interrupted : Item → World → Bool × World
  interrupted item w =
      let v = observe w in
      elim (get_queue_item item.id v.store) [
        | err _ ↦ (true, remove_staged item.id v)
        | ok found ↦
            if is paused found.row
            then (true, remove_staged item.id v)
            else if not (is downloading found.row)
            then (true, v)
            else interrupted_by_pause item v
      ]

  abbrev pub stopped : ℕ → World → Bool
  stopped id w = elim (get_queue_item id w.store) [
    | err _ ↦ true
    | ok found ↦ not (is downloading found.row)
  ]

  abbrev pub record_failure : {A : Type 0} → ℕ → Fault → Proc A
  record_failure id cause w = elim (mark_queue_failed id (some (host.message_of cause)) w.store) [
    | err _ ↦ returned false (some plain) w
    | ok st ↦
        returned false (some cause)
          (publish_row failed_event id (observe (record w { store = st })))
  ]

  unfoldable pub fail : {A : Type 0} → Item → Fault → Proc A
  unfolding get_queue_item
  fail item canceled w = returned false (some canceled) w
  fail item deadline_exceeded w = returned false (some deadline_exceeded) w
  fail item cause w =
      let v = observe w in
      if stopped item.id v then returned false none v else record_failure item.id cause (observe v)
