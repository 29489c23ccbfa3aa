-- ===== src/Downloader/Process/Unfinished.antt =====
-- The steps of process (internal/downloader/queue.go) that never report the chapter as finished.
use makidoku.Common.{
  ℕ, suc, Bool, true, false, Option, none, some, List, [], ◌∷◌, ◌≡◌, refl, inl, inr, if◌then◌else◌,
  Bool-cases,
}
use makidoku.Common.Result.{Result, ok, err}
use makidoku.Fetching.{Fault, canceled, deadline_exceeded, coded, plain}
use makidoku.Rows.{Store, Item}
use makidoku.PageRows.{PageItem}
use makidoku.QueueStore.{StoreError, mark_queue_failed}
use makidoku.Downloader.{StagedPage, World}
use makidoku.Downloader.Process.{
  PageData, Host, Flow, go_on, returned, Proc, ◌>>=◌, give, observe, interrupted, fail, find_staged,
  stopped, record_failure,
}
use makidoku.Downloader.Process.Run.{
  Gathered, try, unless_failed, check_interrupted, store_progress, fetch, unscrambled, stage_page,
  report_page, fetch_page, one_page, page_loop, write_archive, listed_pages,
}

abbrev pub reports_finished : {A : Type 0} → Flow A → Bool
reports_finished (go_on a w) = false
reports_finished (returned b e w) = b

-- A step that does not report the chapter as finished.
abbrev pub Unfinished : {A : Type 0} → Proc A → Type 0
Unfinished m = (w : World) → reports_finished (m w) ≡ false

module _ {A B : Type 0} (f : A → Proc B) where
  bind-false :
      (x : Flow A) (w : World)
      → reports_finished x ≡ false
      → ((a : A) → Unfinished (f a))
      → reports_finished (◌>>=◌ (λ _. x) f w) ≡ false
  bind-false (go_on a u) w h hf = hf a u
  bind-false (returned b e u) w h hf = h

module _ {A : Type 0} where
  if-false :
      (b : Bool) (x y : Flow A)
      → reports_finished x ≡ false
      → reports_finished y ≡ false
      → reports_finished (if b then x else y) ≡ false
  if-false true x y hx hy = hx
  if-false false x y hx hy = hy

  pub result-false :
      (r : Result StoreError Store) (f : Store → Flow A) (g : Flow A)
      → ((st : Store) → reports_finished (f st) ≡ false)
      → reports_finished g ≡ false
      → reports_finished (elim r [ err _ ↦ g | ok st ↦ f st ]) ≡ false
  result-false (ok st) f g hf hg = hf st
  result-false (err e) f g hf hg = hg

option-false :
    {A : Type 0} (o : Option StagedPage) (f : StagedPage → Flow A) (g : Flow A)
    → ((p : StagedPage) → reports_finished (f p) ≡ false)
    → reports_finished g ≡ false
    → reports_finished (elim o [ some p ↦ f p | none ↦ g ]) ≡ false
option-false (some p) f g hf hg = hf p
option-false none f g hf hg = hg

module _ {A B : Type 0} (m : Proc A) (f : A → Proc B) where
  >>=-Unfinished : Unfinished m → ((a : A) → Unfinished (f a)) → Unfinished (m >>= f)
  >>=-Unfinished hm hf w = bind-false f (m w) w (hm w) hf

give-Unfinished : {A : Type 0} (a : A) → Unfinished (give a)
give-Unfinished a w = refl

told-Unfinished : (f : World → World) → Unfinished (λ w. go_on tt (f w))
told-Unfinished f w = refl

registered-Unfinished : {A : Type 0} (a : A) (f : World → World) → Unfinished (λ w. go_on a (f w))
registered-Unfinished a f w = refl

if-Unfinished :
    {A : Type 0} (b : Bool) (m n : Proc A)
    → Unfinished m
    → Unfinished n
    → Unfinished (if b then m else n)
if-Unfinished true m n hm hn = hm
if-Unfinished false m n hm hn = hn

module _ (host : Host) (item : Item) where
  failure-Unfinished :
      (A : Type 0) (cause : Fault) → Unfinished (record_failure host {A = A} item.id cause)
  failure-Unfinished A cause w =
      result-false (mark_queue_failed item.id (some (host.message_of cause)) w.store) _ _
        (λ _. refl) refl

  recorded-Unfinished :
      (A : Type 0) (cause : Fault) (w : World)
      → reports_finished {A = A} (
          if stopped host item.id (observe host w)
          then returned false none (observe host w)
          else record_failure host item.id cause (observe host (observe host w)))
        ≡ false
  recorded-Unfinished A cause w =
      if-false (stopped host item.id (observe host w)) _ _ refl (failure-Unfinished A cause _)

  pub fail-Unfinished : (A : Type 0) (cause : Fault) → Unfinished (fail host {A = A} item cause)
  unfolding fail
  fail-Unfinished A canceled w = refl
  fail-Unfinished A deadline_exceeded w = refl
  fail-Unfinished A (coded c) w = recorded-Unfinished A (coded c) w
  fail-Unfinished A plain w = recorded-Unfinished A plain w

  try-Unfinished : {A : Type 0} (r : Result Fault A) → Unfinished (try host item r)
  try-Unfinished (ok a) w = refl
  try-Unfinished (err e) w = fail-Unfinished _ e w

  pub unless-Unfinished : (e : Option Fault) → Unfinished (unless_failed host item e)
  unless-Unfinished none w = refl
  unless-Unfinished (some e) w = fail-Unfinished _ e w

  pub check-Unfinished : Unfinished (check_interrupted host item)
  unfolding check_interrupted
  check-Unfinished w = if-false ((interrupted host item w).0) _ _ refl refl

  pub store-Unfinished :
      (f : Store → Result StoreError Store) → Unfinished (store_progress host item f)
  unfolding store_progress
  store-Unfinished f w =
      result-false (f ((observe host w).store)) _ _ (λ _. refl)
        (bind-false (λ _. fail host item plain) (check_interrupted host item (observe host w)) w
          (check-Unfinished (observe host w)) (λ _. fail-Unfinished _ plain))

  fetch-Unfinished : (page : PageItem) → Unfinished (fetch host item page)
  unfolding fetch
  fetch-Unfinished page w = try-Unfinished _ _

  unscrambled-Unfinished :
      (page : PageItem) (d : List ℕ) → Unfinished (unscrambled host item page d)
  unfolding unscrambled
  unscrambled-Unfinished page d w = elim (Bool-cases page.is_scrambled) [
    | inl t ↦ rw t (try-Unfinished (host.unscramble item.chapter.source_id d) w)
    | inr f ↦ rw f refl
  ]

  stage-Unfinished : (index : ℕ) (d : PageData) → Unfinished (stage_page host item index d)
  unfolding stage_page
  stage-Unfinished index d =
      >>=-Unfinished (unless_failed host item (host.write_file item.id index)) _
        (unless-Unfinished _) (λ _ u. refl)

  report-Unfinished : (total : ℕ) (done : List ℕ) → Unfinished (report_page host item total done)
  unfolding report_page
  report-Unfinished total done = search (>>=-Unfinished, store-Unfinished, told-Unfinished)

  fetch_page-Unfinished :
      (total index : ℕ) (page : PageItem) (g : Gathered)
      → Unfinished (fetch_page host item total index page g)
  unfolding fetch_page
  fetch_page-Unfinished total index page g =
      search
        (
          >>=-Unfinished, check-Unfinished, fetch-Unfinished, unscrambled-Unfinished,
          stage-Unfinished, report-Unfinished, give-Unfinished,
        )
        depth 12

  one_page-Unfinished :
      (total index : ℕ) (page : PageItem) (g : Gathered)
      → Unfinished (one_page host item total index page g)
  unfolding one_page
  one_page-Unfinished total index page g w =
      option-false (find_staged item.id index w) _ _ (λ _. refl)
        (fetch_page-Unfinished total index page g w)

  pub page_loop-Unfinished :
      (total index : ℕ) (pages : List PageItem) (g : Gathered)
      → Unfinished (page_loop host item total index pages g)
  unfolding page_loop
  page_loop-Unfinished total index [] g = give-Unfinished g
  page_loop-Unfinished total index (p ∷ ps) g =
      search (>>=-Unfinished, one_page-Unfinished, page_loop-Unfinished total (suc index) ps)

  pub write-Unfinished : (ds : List PageData) → Unfinished (write_archive host item ds)
  unfolding write_archive
  write-Unfinished ds = search (>>=-Unfinished, try-Unfinished, registered-Unfinished)

  pub listed-Unfinished : Unfinished (listed_pages host item)
  unfolding listed_pages
  listed-Unfinished =
      search (>>=-Unfinished, try-Unfinished, if-Unfinished, fail-Unfinished, give-Unfinished)
