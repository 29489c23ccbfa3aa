-- ===== src/Downloader/Process/Gives.antt =====
-- What the steps of process (internal/downloader/queue.go) leave when the function goes on.
use makidoku.Common.{
  ℕ, suc, ◌+◌, String, Bool, true, false, Option, none, some, List, [], ◌∷◌, ◌++◌, ◌≡◌, refl,
  is_empty, length, length-append, if◌then◌else◌, arith,
}
use makidoku.Common.Result.{Result, ok, err}
use makidoku.Fetching.{Fault, canceled, deadline_exceeded, coded, plain}
use makidoku.Rows.{Store, Item}
use makidoku.PageRows.{PageItem, sorted_pages, length-sorted_pages}
use makidoku.QueueStore.{StoreError, mark_queue_failed}
use makidoku.QueueStore.Control.{complete_queue_download}
use makidoku.Downloader.{World, StagedPage}
use makidoku.Downloader.Process.{
  PageData, Host, Flow, go_on, returned, Proc, ◌>>=◌, give, observe, fail, stopped, record_failure,
  find_staged,
}
use makidoku.Downloader.Process.Run.{
  Gathered, keep_staged, keep_fetched, data_of, register, without_archive, listed_pages,
  write_archive, fetch_page, one_page, page_loop, try,
}

-- What holds of the value and the world of a flow that goes on.
abbrev pub OnGo : {A : Type 0} → (A → World → Type 0) → Flow A → Type 0
OnGo P (go_on a v) = P a v
OnGo P (returned b e v) = Unit

abbrev pub Gives : {A : Type 0} → (A → World → Type 0) → Proc A → Type 0
Gives P m = (w : World) → OnGo P (m w)

module _ {A B : Type 0} (P : A → World → Type 0) (Q : B → World → Type 0) where
  bound-OnGo :
      (x : Flow A) (f : A → Proc B) (w : World)
      → OnGo P x
      → ((a : A) (v : World) → P a v → OnGo Q (f a v))
      → OnGo Q (◌>>=◌ (λ _. x) f w)
  bound-OnGo (go_on a v) f w h hf = hf a v h
  bound-OnGo (returned b e v) f w h hf = tt

  then-Gives :
      (m : Proc A) (f : A → Proc B)
      → Gives P m
      → ((a : A) (v : World) → P a v → OnGo Q (f a v))
      → Gives Q (m >>= f)
  then-Gives m f hm hf w = bound-OnGo (m w) f w (hm w) hf

module _ {A B : Type 0} (Q : B → World → Type 0) (m : Proc A) (f : A → Proc B) where
  any-OnGo : (x : Flow A) → OnGo (λ _ _. Unit {0}) x
  any-OnGo (go_on a v) = tt
  any-OnGo (returned b e v) = tt

  -- Whatever the first step gives.
  >>=-Gives : ((a : A) → Gives Q (f a)) → Gives Q (m >>= f)
  >>=-Gives hf w = bound-OnGo (λ _ _. Unit {0}) Q (m w) f w (any-OnGo (m w)) (λ a v _. hf a v)

module _ (host : Host) (item : Item) where
  module _ {A : Type 0} (P : A → World → Type 0) where
    failed-OnGo :
        (r : Result StoreError Store) (f : Store → World) (w : World) (cause : Fault)
        → OnGo P (elim r [
          | err _ ↦ returned false (some plain) w
          | ok st ↦ returned false (some cause) (f st)
        ])
    failed-OnGo (ok st) f w cause = tt
    failed-OnGo (err e) f w cause = tt

    recorded-OnGo :
        (cause : Fault) (b : Bool) (v w : World)
        → OnGo P (if b then returned false none v else record_failure host {A = A} item.id cause w)
    recorded-OnGo cause true v w = tt
    recorded-OnGo cause false v w =
        failed-OnGo (mark_queue_failed item.id (some (host.message_of cause)) w.store) _ w cause

    fail-Gives : (cause : Fault) → Gives P (fail host {A = A} item cause)
    unfolding fail
    fail-Gives canceled w = tt
    fail-Gives deadline_exceeded w = tt
    fail-Gives (coded c) w = recorded-OnGo (coded c) (stopped host item.id (observe host w)) _ _
    fail-Gives plain w = recorded-OnGo plain (stopped host item.id (observe host w)) _ _

  try-Gives : {A : Type 0} (r : Result Fault A) → Gives (λ a _. r ≡ ok a) (try host item r)
  try-Gives (ok a) w = refl
  try-Gives (err e) w = fail-Gives (λ a _. err e ≡ ok a) e w

  -- The loop has gathered so many more pages.
  abbrev pub Grown : ℕ → Gathered → Gathered → World → Type 0
  Grown n g g' v = length g'.downloaded ≡ length g.downloaded + n

  kept-Gives :
      (index : ℕ) (g : Gathered) (d : PageData) → Gives (Grown 1 g) (give (keep_fetched index d g))
  kept-Gives index g d w = length-append g.downloaded (d ∷ [])

  fetch_page-Gives :
      (total index : ℕ) (page : PageItem) (g : Gathered)
      → Gives (Grown 1 g) (fetch_page host item total index page g)
  unfolding fetch_page
  fetch_page-Gives total index page g = search (>>=-Gives, kept-Gives index g) depth 12

  one_page-Gives :
      (total index : ℕ) (page : PageItem) (g : Gathered)
      → Gives (Grown 1 g) (one_page host item total index page g)
  unfolding one_page
  one_page-Gives total index page g w = go (find_staged item.id index w)
    where
      go :
          (o : Option StagedPage)
          → OnGo (Grown 1 g) (elim o [
            | some p ↦ go_on (keep_staged p g) w
            | none ↦ fetch_page host item total index page g w
          ])
      go (some p) = length-append g.downloaded (data_of p ∷ [])
      go none = fetch_page-Gives total index page g w

  pub page_loop-Gives :
      (total index : ℕ) (pages : List PageItem) (g : Gathered)
      → Gives (Grown (length pages) g) (page_loop host item total index pages g)
  unfolding page_loop
  page_loop-Gives total index [] g w = omega arith
  page_loop-Gives total index (p ∷ ps) g w =
      bound-OnGo (Grown 1 g) (Grown (suc (length ps)) g) (one_page host item total index p g w)
        (page_loop host item total (suc index) ps) w (one_page-Gives total index p g w)
        (λ next v more. longer next _ more (page_loop-Gives total (suc index) ps next v))
    where
      longer :
          (next : Gathered) (x : Flow Gathered)
          → length next.downloaded ≡ length g.downloaded + 1
          → OnGo (Grown (length ps) next) x
          → OnGo (Grown (suc (length ps)) g) x
      longer next (go_on g' v) more h = omega (arith, more, h)
      longer next (returned b e v) more h = tt

  -- The pages of the engine, by index; there is at least one.
  abbrev pub Listed : List PageItem → World → Type 0
  Listed pages v =
      (raw : List PageItem) × (host.pages_of item.chapter.source_id item.chapter.source_chapter_id
        ≡ ok raw)
      × (is_empty raw ≡ false)
      × (length pages ≡ length raw)

  pub Listed-Gives : Gives Listed (listed_pages host item)
  unfolding listed_pages
  Listed-Gives =
      let pages = host.pages_of item.chapter.source_id item.chapter.source_chapter_id in
      then-Gives (λ raw _. pages ≡ ok raw) Listed (try host item pages)
        (λ raw. if is_empty raw then fail host item plain else give (sorted_pages raw))
        (try-Gives pages) sorted
    where
      sorted :
          (raw : List PageItem) (v : World)
          → host.pages_of item.chapter.source_id item.chapter.source_chapter_id ≡ ok raw
          → OnGo Listed ((if is_empty raw then fail host item plain else give (sorted_pages raw)) v)
      sorted [] v e = fail-Gives Listed plain v
      sorted (p ∷ ps) v e = (p ∷ ps, e, refl, length-sorted_pages (p ∷ ps))

  pub write-Gives :
      (ds : List PageData)
      → Gives (λ path _. host.write_archive item ds ≡ ok path) (write_archive host item ds)
  unfolding write_archive
  write-Gives ds =
      let Written = λ (path : String) (v : World). host.write_archive item ds ≡ ok path in
      then-Gives Written Written (try host item (host.write_archive item ds))
        (λ path w. go_on path (record w { archives = w.archives ++ path ∷ [] }))
        (try-Gives (host.write_archive item ds)) (λ path v e. e)

  abbrev pub Registered : String → Unit {0} → World → Type 0
  Registered path u v =
      (st : Store) × (complete_queue_download item.chapter_id path st ≡ ok v.store)

  pub register-Gives : (path : String) → Gives (Registered path) (register host item path)
  unfolding register
  register-Gives path w = go (observe host w) _ refl
    where
      go :
          (v : World) (r : Result StoreError Store)
          → complete_queue_download item.chapter_id path v.store ≡ r
          → OnGo (Registered path) (elim r [
            | err _ ↦ fail host item plain (without_archive path v)
            | ok st ↦ go_on tt (record v { store = st })
          ])
      go v (ok st) e = (v.store, e)
      go v (err x) e = fail-Gives (Registered path) plain (without_archive path v)
