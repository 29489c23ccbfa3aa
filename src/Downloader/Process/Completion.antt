-- ===== src/Downloader/Process/Completion.antt =====
-- About a chapter that process (internal/downloader/queue.go) reports as finished.
use makidoku.Common.{
  String, true, false, Option, none, some, List, [], ◌∷◌, ◌++◌, ◌≡◌, ◌∙◌, subst, refl, inl, inr,
  any, is_empty, length, arith, Bool-cases, any-filter,
}
use makidoku.Common.Result.{ok}
use makidoku.Fetching.{Fault, plain}
use makidoku.Rows.{Store, Item, delete_where}
use makidoku.PageRows.{PageItem}
use makidoku.QueueStore.Control.{complete_queue_download, is_in_flight, has_key}
use makidoku.Downloader.{finished, Event, World, remove_staged}
use makidoku.Downloader.Process.{PageData, Host, Flow, go_on, returned, Proc, ◌>>=◌, ◌>>◌, observe}
use makidoku.Downloader.Process.Run.{
  Gathered, completed_item, register, finish, without_archive, save_pages, listed_pages,
  write_archive, page_loop, process, check_interrupted, unless_failed, store_progress,
}
use makidoku.Downloader.Process.Gives.{
  OnGo, Gives, Grown, page_loop-Gives, Listed, Listed-Gives, write-Gives, Registered,
  register-Gives,
}
use makidoku.Downloader.Process.Unfinished.{
  reports_finished, Unfinished, result-false, fail-Unfinished, check-Unfinished, unless-Unfinished,
  store-Unfinished, page_loop-Unfinished, write-Unfinished, listed-Unfinished,
}

-- The result of a finished chapter: no error; an archive of as many pages as the engine lists, at
-- least one; a store in which the chapter became the one of that archive and left the flight, and
-- which the end still has but for the two turns of the rest of the daemon around the removal of the
-- staged pages; and the event with the finished item as the last one.
abbrev pub IsFinished : Host → Item → Option Fault → World → Type 0
IsFinished host item e v =
    (e ≡ none)
    × ((pages : List PageItem) × (ds : List PageData) × (path : String) × (host.pages_of
            item.chapter.source_id item.chapter.source_chapter_id
          ≡ ok pages)
        × (is_empty pages ≡ false)
        × (length ds ≡ length pages)
        × (host.write_archive item ds ≡ ok path)
        × ((st : Store) × (u : World) × (complete_queue_download item.chapter_id path st
              ≡ ok u.store)
            × (any (is_in_flight item.chapter_id) u.store.rows ≡ false)
            × (v.store ≡ (observe host (remove_staged item.id (observe host u))).store)))
    × ((before : List Event) × (v.events
          ≡ before ++ record { kind = finished; item = some (completed_item item) } ∷ []))

complete-dropped :
    (c path : String) (st : Store) {st' : Store}
    → complete_queue_download c path st ≡ ok st'
    → any (is_in_flight c) st'.rows ≡ false
unfolding complete_queue_download
complete-dropped c path st {st'} h = elim (Bool-cases (any (has_key c) st.chapters)) [
  | inl here ↦ elim (Bool-cases (any (is_in_flight c) st.rows)) [
    | inl busy ↦
        let to : delete_where (is_in_flight c) st.rows ≡ st'.rows = ground arith in
        rw (← to) (any-filter (is_in_flight c) st.rows)
    | inr stale ↦ absurd (ground arith)
  ]
  | inr gone ↦ absurd (ground arith)
]

module _ (host : Host) (item : Item) where
  -- What holds of a flow that reports the chapter as finished.
  abbrev Ends : {A : Type 0} → Flow A → Type 0
  Ends (go_on a v) = Unit {0}
  Ends (returned true e v) = IsFinished host item e v
  Ends (returned false e v) = Unit {0}

  bound-Ends :
      {A B : Type 0} (P : A → World → Type 0) (x : Flow A) (f : A → Proc B) (w : World)
      → reports_finished x ≡ false
      → OnGo P x
      → ((a : A) (v : World) → P a v → Ends (f a v))
      → Ends (◌>>=◌ (λ _. x) f w)
  bound-Ends P (go_on a v) f w h k hf = hf a v k
  bound-Ends P (returned true e v) f w h k hf = absurd cc
  bound-Ends P (returned false e v) f w h k hf = tt

  any-OnGo : {A : Type 0} (x : Flow A) → OnGo (λ _ _. Unit {0}) x
  any-OnGo (go_on a v) = tt
  any-OnGo (returned b e v) = tt

  module _ {A B : Type 0} (m : Proc A) (f : A → Proc B) where
    then-Ends :
        (P : A → World → Type 0)
        → Unfinished m
        → Gives P m
        → ((a : A) (v : World) → P a v → Ends (f a v))
        → (w : World) → Ends ((m >>= f) w)
    then-Ends P hm k hf w = bound-Ends P (m w) f w (hm w) (k w) hf

    skip-Ends :
        Unfinished m → ((a : A) (v : World) → Ends (f a v)) → (w : World) → Ends ((m >>= f) w)
    skip-Ends hm hf = then-Ends (λ _ _. Unit {0}) hm (λ w. any-OnGo (m w)) (λ a v _. hf a v)

  save-Unfinished : (pages : List PageItem) → Unfinished (save_pages host item pages)
  unfolding save_pages
  save-Unfinished pages w = refl

  register-Unfinished : (path : String) → Unfinished (register host item path)
  unfolding register
  register-Unfinished path w =
      result-false (complete_queue_download item.chapter_id path (observe host w).store) _ _
        (λ _. refl) (fail-Unfinished host item _ plain (without_archive path (observe host w)))

  finish-Ends :
      (pages : List PageItem) (v : World) (ds : List PageData) (path : String)
      → Listed host item pages v
      → length ds ≡ length pages
      → host.write_archive item ds ≡ ok path
      → (w : World) → Ends (finish host item path w)
  unfolding finish
  finish-Ends pages v ds path (raw, listed, some_page, same) gathered written =
      then-Ends (register host item path) _ (Registered host item path) (register-Unfinished path)
        (register-Gives host item path)
        (λ _ u (st, stored). (
          refl,
          (
            raw,
            ds,
            path,
            listed,
            some_page,
            gathered ∙ same,
            written,
            (st, u, stored, complete-dropped item.chapter_id path st stored, refl),
          ),
          (_, refl),
        ))

  -- The end of the body of process.
  closed : List PageItem → List PageData → Proc (Unit {0})
  closed pages ds = do
    path ← write_archive host item ds
    save_pages host item pages
    finish host item path

  closed-Ends :
      (pages : List PageItem) (v : World) (ds : List PageData)
      → Listed host item pages v
      → length ds ≡ length pages
      → (w : World) → Ends (closed pages ds w)
  unfolding closed
  closed-Ends pages v ds listed same =
      then-Ends (write_archive host item ds)
        (λ path. save_pages host item pages >> finish host item path)
        (λ path _. host.write_archive item ds ≡ ok path) (write-Unfinished host item ds)
        (write-Gives host item ds)
        (λ path u written.
          skip-Ends (save_pages host item pages) (λ _. finish host item path)
            (save-Unfinished pages) (λ _. finish-Ends pages v ds path listed same written) u)

  body : List PageItem → Proc (Unit {0})
  body pages = do
    g ←
        page_loop host item (length pages) 0 pages
          (record { downloaded = []; done = item.done_pages })
    check_interrupted host item
    closed pages g.downloaded

  body-Ends :
      (pages : List PageItem) (v : World)
      → Listed host item pages v
      → (w : World) → Ends (body pages w)
  unfolding body
  body-Ends pages v listed =
      let start : Gathered = record { downloaded = []; done = item.done_pages } in
      then-Ends (page_loop host item (length pages) 0 pages start)
        (λ g. check_interrupted host item >> closed pages g.downloaded)
        (Grown host item (length pages) start)
        (page_loop-Unfinished host item (length pages) 0 pages start)
        (page_loop-Gives host item (length pages) 0 pages start)
        (λ g u grown.
          let all : length g.downloaded ≡ length pages = omega (arith, grown) in
          skip-Ends (check_interrupted host item) (λ _. closed pages g.downloaded)
            (check-Unfinished host item) (λ _. closed-Ends pages v g.downloaded listed all) u)

  process-Ends : (w : World) → Ends (process host item w)
  unfolding process body closed
  process-Ends =
      then-Ends (listed_pages host item) _ (Listed host item) (listed-Unfinished host item)
        (Listed-Gives host item)
        (λ pages v listed.
          skip-Ends (unless_failed host item (host.make_dir item.id)) _
            (unless-Unfinished host item (host.make_dir item.id))
            (λ _.
              skip-Ends (store_progress host item _) (λ _. body pages)
                (store-Unfinished host item _) (λ _. body-Ends pages v listed))
            v)

  -- When the work on an item reports the chapter as finished, whatever the engine, the disk and the
  -- rest of the daemon do meanwhile: it gives no error; the engine listed pages, at least one, and
  -- the archive was written of as many; a completion of the chapter with that archive went through
  -- and left no row in flight for the chapter, and the store at the end is the one it left, but for
  -- the two turns of the rest of the daemon around the removal of the staged pages; and the last
  -- event is the item as completed.
  pub process-IsFinished :
      (w : World) {e : Option Fault} {v : World}
      → process host item w ≡ returned true e v
      → IsFinished host item e v
  process-IsFinished w h = subst (Ends {A = Unit {0}}) h (process-Ends w)
