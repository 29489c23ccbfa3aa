-- ===== src/Examples/Downloads.antt =====
-- An engine whose first request for a page times out, and the download of one chapter with it, for
-- internal/downloader.
use makidoku.Common.{
  Option, none, str_eq, All, if◌then◌else◌, String, some, ℕ, zero, ◌+◌, ◌≤◌, ◌≡◌, refl, true, false,
  none, List, [], ◌∷◌, arith, inr, ◌==◌,
}
use makidoku.Common.Int.{ℤ, pos}
use makidoku.Common.Result.{Result, ok, err}
use makidoku.Fetching.{
  Fault, retryable, attempt_from, code_of, coded, network_timeout, retry_delay_for,
  retry_fetch_with, none_taken, reserve,
}
use makidoku.Fetching.Retries.{retry_delay_for-doubles, retry_fetch_with-settles, reserve-spaced}
use makidoku.Rows.{ordered, Item, downloading}
use makidoku.PageRows.{PageItem, sorted_pages, upsert_pages}
use makidoku.QueueStore.{
  StoreError, get_queue_item, update_queue_progress, save_queue_page_progress, mark_queue_failed,
}
use makidoku.QueueStore.Control.{
  complete_queue_download, release_queue_item, set_queue_order, yield_superseded_downloads, ids,
}
use makidoku.Examples.Queue.{chapter, row, different, queue, queue-IsWellFormed}
use makidoku.Downloader.{World, reorder, cancel}
use makidoku.Downloader.Policy.{
  Options, Hints, SourceDownloadPrefs, Cached, fresh_policy, policy_for, claim_options, bound,
  set_source_download_prefs, invalidate_source_policy,
}
use makidoku.Downloader.Policy.Coherence.{IsCoherent, policy_for-IsCoherent, claim_options-caps}
use makidoku.Downloader.Policy.Overrides.{set-invalidate-IsCoherent}
use makidoku.QueueStore.Claim.{cap_for}
use makidoku.Downloader.Requests.{IsOrdered, reorder-IsOrdered}
use makidoku.Downloader.Cancellation.{IsCanceled, cancel-IsCanceled}
use makidoku.Downloader.Process.{Host, Flow, go_on, returned, fail}
use makidoku.Downloader.Process.Run.{
  process, listed_pages, store_progress, unscrambled, stage_page, report_page, write_archive,
  save_pages, finish, register, check_interrupted, fetch, fetch_page, one_page, page_loop,
}
use makidoku.Downloader.Process.{interrupted}
use makidoku.Downloader.Process.Pausing.{IsReleased, calm, interrupted-IsReleased}
use makidoku.Downloader.Process.Completion.{IsFinished, process-IsFinished}

retry_delay_for-doubles_example : retry_delay_for (pos 500) 5 ≡ pos 4000
retry_delay_for-doubles_example = retry_delay_for-doubles 500 5 (omega arith)

abbrev first_times_out : ℕ → Result Fault (List ℕ)
first_times_out zero = err (coded network_timeout)
first_times_out _ = ok (137 ∷ 80 ∷ [])

retried : retryable (coded network_timeout) ≡ true
unfolding retryable
retried = refl

retry_fetch_with-settles_example :
    retry_fetch_with first_times_out (λ n. none) (pos 500) (pos 3)
    ≡ record { result = ok (137 ∷ 80 ∷ []); delays = pos 500 ∷ [] }
unfolding retry_delay_for
retry_fetch_with-settles_example =
    retry_fetch_with-settles first_times_out (λ n. none) (pos 500) 1 3
      ((coded network_timeout, refl, retried, refl), tt) (omega arith) (inr refl)

reserve-spaced_example :
    let (first, s₁) = reserve "a" 10 (pos 100) none_taken in
    let (between, s₂) = reserve "b" 11 (pos 100) s₁ in
    let (second, s₃) = reserve "a" 12 (pos 100) s₂ in
    (first + 100 ≤ second) × (10 ≤ first) × (12 ≤ second)
reserve-spaced_example =
    reserve-spaced "a" "b" 10 12 11 100 (pos 100) (pos 100) none_taken (different refl)

abbrev page : ℤ → PageItem
page i = record { index = i; url = "https://x/p.png"; headers_json = ""; is_scrambled = false }

abbrev host : Host
host = record {
  pages_of = λ source remote. ok (page (pos 2) ∷ []);
  fetch_image = λ source p. first_times_out;
  sleep = λ p n. none;
  unscramble = λ source bytes. ok bytes;
  path_extension = λ url. ".png";
  content_type = λ bytes. "image/png";
  make_dir = λ id. none;
  write_file = λ id index. none;
  write_archive = λ item pages. ok "/library/a.cbz";
  message_of = λ cause. "failed";
  retries = pos 3;
  backoff = pos 500;
  others = λ n w. w;
}

abbrev item : Item
item = record {
  row = record (row 1 "a" downloading 3) { done_pages = [] };
  chapter = chapter "a" "x";
}

-- The item as the store has it.
abbrev item_found : Item
item_found = record { row = row 1 "a" downloading 3; chapter = chapter "a" "x" }

abbrev world : World
world = record {
  store = queue;
  paused_all = false;
  paused_sources = [];
  staged = [];
  archives = [];
  events = [];
  downloaded_pages = 0;
  retried_requests = 0;
  pages = [];
  wake = false;
  accesses = 0;
  removals = 0;
  refuses = λ n p. false;
}

abbrev end_of : Flow (Unit {0}) → World
end_of (go_on a w) = w
end_of (returned b e w) = w

done : process host item world ≡ returned true none (end_of (process host item world))
unfolding process listed_pages store_progress update_queue_progress sorted_pages get_queue_item
    retryable unscrambled stage_page report_page save_queue_page_progress write_archive save_pages
    finish register complete_queue_download check_interrupted fetch fetch_page one_page page_loop
    fail attempt_from code_of retry_delay_for retry_fetch_with upsert_pages release_queue_item
    mark_queue_failed
done = refl

process-IsFinished_example : IsFinished host item none (end_of (process host item world))
process-IsFinished_example = process-IsFinished host item world done

abbrev world_of : Result StoreError World → World
world_of (ok w) = w
world_of (err e) = world

-- The pending chapter first.
abbrev wanted : List ℤ
wanted = pos 2 ∷ pos 1 ∷ pos 3 ∷ []

reordered_world : reorder wanted world ≡ ok (world_of (reorder wanted world))
unfolding reorder set_queue_order yield_superseded_downloads get_queue_item ordered
reordered_world = refl

reorder-IsOrdered_example :
    let rows = (world_of (reorder wanted world)).store.rows in
    (ids rows ≡ ids queue.rows) × IsOrdered wanted rows
reorder-IsOrdered_example =
    reorder-IsOrdered wanted world queue-IsWellFormed (refl, (refl, (refl, tt))) reordered_world

-- A disk that refuses to remove the page 1 of an item.
abbrev stubborn : World
stubborn = record world {
  staged =
      record { item_id = 2; index = 0; content = []; extension = ".png" }
      ∷ record { item_id = 2; index = 1; content = []; extension = ".png" }
      ∷ record { item_id = 1; index = 0; content = []; extension = ".png" }
      ∷ [];
  refuses = λ n p. p.index == 1;
}

cancel-IsCanceled_example : IsCanceled 2 stubborn (cancel 2 stubborn)
cancel-IsCanceled_example = cancel-IsCanceled 2 stubborn queue-IsWellFormed

abbrev settings : Options
settings = record {
  workers = pos 3;
  page_interval = pos 0;
  max_retries = pos 3;
  max_active_sources = pos 2;
  chapters_per_source = pos 2;
}

-- One source suggests a burst, another fails.
abbrev hints : String → Option Hints
hints s =
    if str_eq s "x"
    then some (record {
      interval_ms = none;
      burst = some (pos 4);
      max_attempts = none;
      backoff_ms = none;
    })
    else none

abbrev override : SourceDownloadPrefs
override = record {
  source_id = "y";
  interval_ms = some (pos 750);
  max_attempts = none;
  backoff_ms = none;
  burst = some (pos 1);
}

policy_for-IsCoherent_example :
    ((policy_for settings hints (override ∷ []) "x" []).0
      ≡ fresh_policy settings hints (override ∷ []) "x")
    × IsCoherent settings hints
        (override ∷ [])
        ((policy_for settings hints (override ∷ []) "x" []).1)
policy_for-IsCoherent_example = policy_for-IsCoherent settings hints (override ∷ []) "x" [] tt

claim_options-caps_example :
    All
      (λ s.
        cap_for ((claim_options settings hints (override ∷ []) [] (some ("x" ∷ "y" ∷ [])) []).0) s
        ≡ bound (fresh_policy settings hints (override ∷ []) s).concurrent)
      ("x" ∷ "y" ∷ [])
claim_options-caps_example =
    claim_options-caps settings hints (override ∷ []) [] ("x" ∷ "y" ∷ []) [] tt

-- The policy of the source before the override.
abbrev cached : List Cached
cached = record { source_id = "y"; policy = fresh_policy settings hints [] "y" } ∷ []

set-invalidate-IsCoherent_example :
    IsCoherent settings hints
      (set_source_download_prefs override [])
      (invalidate_source_policy "y" cached)
set-invalidate-IsCoherent_example =
    set-invalidate-IsCoherent settings hints [] override cached (refl, tt)

abbrev paused_world : World
paused_world = record world { paused_all = true }

found : get_queue_item 1 queue ≡ ok item_found
unfolding get_queue_item
found = refl

interrupted-IsReleased_example :
    IsReleased 1 item_found paused_world (interrupted (calm host) item paused_world)
interrupted-IsReleased_example =
    interrupted-IsReleased host item paused_world item_found queue-IsWellFormed.ids found refl refl
