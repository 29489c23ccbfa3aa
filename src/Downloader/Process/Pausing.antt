-- ===== src/Downloader/Process/Pausing.antt =====
-- About the interruption of the work on an item by a pause of its source or of the downloader
-- (interrupted and releaseForPause of internal/downloader/queue.go).
use makidoku.Common.{
  ℕ, ◌≡◌, refl, sym, ap, subst, ◌∙◌, Bool, true, false, ◌||◌, Option, none, some, List, [], ◌∷◌,
  ◌++◌, ◌==◌, find?, arith, Bool-cases, inl, inr, if◌then◌else◌,
}
use makidoku.Common.Result.{ok}
use makidoku.Rows.{Row, Chapter, Store, Item, pending, downloading, paused, is, has_id, chapter_of}
use makidoku.Rows.Table.{Unique}
use makidoku.QueueStore.{set_status, found_item, joined, get_queue_item}
use makidoku.QueueStore.Control.{release_queue_item}
use makidoku.QueueStore.Claim.{contains}
use makidoku.QueueStore.Outcomes.{replace, find-replace, release-replace}
use makidoku.Downloader.{World, pended, publish_found, with_status}
use makidoku.Downloader.Process.{
  Host, observe, interrupted, interrupted_by_pause, release_for_pause,
}

-- No other worker or request acts.
abbrev pub calm : Host → Host
calm host = record host { others = λ n w. w }

-- The work stops, the row is pending and keeps its other columns, every other row and the staged
-- pages stay, and the item is told with its new status.
abbrev pub IsReleased : ℕ → Item → World → Bool × World → Type 0
IsReleased id found w (stop, v) =
    (stop ≡ true)
    × (v.staged ≡ w.staged)
    × (v.store ≡ record w.store { rows = replace id (set_status pending found.row) w.store.rows })
    × (v.events
        ≡ w.events ++ record { kind = pended; item = some (with_status pending found) } ∷ [])

row-id : (id : ℕ) (xs : List Row) {r : Row} → find? (has_id id) xs ≡ some r → r.id ≡ id
row-id id [] e = cc
row-id id (x ∷ xs) {r} e = elim (Bool-cases (x.id == id)) [
  | inl hit ↦ let same : x ≡ r = ground arith in subst (λ y. y.id ≡ id) same (ground arith)
  | inr miss ↦ row-id id xs {r = r} (ground arith)
]

-- An item that was read is a row of the table with its chapter.
read-parts :
    (id : ℕ) (st : Store) {found : Item}
    → get_queue_item id st ≡ ok found
    → (find? (has_id id) st.rows ≡ some found.row)
      × (chapter_of st.chapters found.row.chapter_id ≡ some found.chapter)
unfolding get_queue_item
read-parts id st {found} = go (find? (has_id id) st.rows)
  where
    with_chapter :
        (r : Row) (c : Option Chapter)
        → chapter_of st.chapters r.chapter_id ≡ c
        → joined r c ≡ ok found
        → (some r ≡ some found.row)
          × (chapter_of st.chapters found.row.chapter_id ≡ some found.chapter)
    with_chapter r none k e = cc
    with_chapter r (some c) k e =
        let same : record { row = r; chapter = c } ≡ found = cc in
        (
          ap (λ (i : Item). some i.row) same,
          subst (λ (i : Item). chapter_of st.chapters i.row.chapter_id ≡ some i.chapter) same k,
        )

    go :
        (o : Option Row)
        → found_item st.chapters o ≡ ok found
        → (o ≡ some found.row) × (chapter_of st.chapters found.row.chapter_id ≡ some found.chapter)
    go none e = cc
    go (some r) e = with_chapter r (chapter_of st.chapters r.chapter_id) refl e

if-IsReleased :
    (id : ℕ) (found : Item) (w : World) (b : Bool) (x y : Bool × World)
    → b ≡ true
    → IsReleased id found w x
    → IsReleased id found w (if b then x else y)
if-IsReleased id found w true x y e h = h
if-IsReleased id found w false x y e h = absurd cc

module _ (host : Host) (item : Item) (found : Item) (w : World)
    (u : Unique (λ r. r.id) w.store.rows) (read : get_queue_item item.id w.store ≡ ok found)
    (busy : is downloading found.row ≡ true) where
  -- The store with the row pending.
  released : Store
  released = record w.store { rows = replace item.id (set_status pending found.row) w.store.rows }

  released-read : get_queue_item item.id released ≡ ok (with_status pending found)
  unfolding get_queue_item released
  released-read =
      let (there, its) = read-parts item.id w.store read in
      let again =
        find-replace item.id (set_status pending found.row) w.store.rows {r = found.row}
          (row-id item.id w.store.rows there) there in
      rw (again, its) refl

  release-released : release_queue_item item.id w.store ≡ released
  unfolding released
  release-released =
      release-replace item.id w.store found.row u (read-parts item.id w.store read).0 busy

  told-IsReleased :
      (v : World)
      → v.staged ≡ w.staged
      → v.events ≡ w.events
      → v.store ≡ released
      → IsReleased item.id found w (true, publish_found pended (get_queue_item item.id v.store) v)
  unfolding released
  told-IsReleased v p r q =
      let now : get_queue_item item.id v.store ≡ ok (with_status pending found) =
        ap (get_queue_item item.id) q ∙ released-read in
      subst (λ g. IsReleased item.id found w (true, publish_found pended g v)) (sym now)
        (
          refl,
          p,
          q,
          ap (λ es. es ++ record { kind = pended; item = some (with_status pending found) } ∷ []) r,
        )

  release-IsReleased :
      (v : World)
      → v.staged ≡ w.staged
      → v.events ≡ w.events
      → v.store ≡ w.store
      → IsReleased item.id found w (true, release_for_pause (calm host) item.id v)
  release-IsReleased v p r q =
      told-IsReleased _ p r (ap (release_queue_item item.id) q ∙ release-released)

  pause-IsReleased :
      (v : World)
      → v.staged ≡ w.staged
      → v.events ≡ w.events
      → v.store ≡ w.store
      → (contains item.chapter.source_id v.paused_sources || v.paused_all) ≡ true
      → IsReleased item.id found w (interrupted_by_pause (calm host) item v)
  pause-IsReleased v p r q h =
      elim (Bool-cases (contains item.chapter.source_id v.paused_sources)) [
        | inl t ↦ rw t (release-IsReleased (observe (calm host) v) p r q)
        | inr f ↦
            let all : v.paused_all ≡ true = ground arith in
            rw f (
              if-IsReleased item.id found w v.paused_all _ _ all
                (release-IsReleased (observe (calm host) (observe (calm host) v)) p r q))
      ]

downloading-not_paused : (r : Row) → is downloading r ≡ true → is paused r ≡ false
downloading-not_paused r h = ground arith

-- With no other worker or request acting meanwhile, on a table with distinct ids, when the row of
-- the item is downloading and its source or the downloader is paused, the interruption stops the
-- work: the row becomes pending and keeps its other columns, all else in the store and the staged
-- pages stay as they are, and one event tells the item with its new status.
pub interrupted-IsReleased :
    (host : Host) (item : Item) (w : World) (found : Item)
    → Unique (λ r. r.id) w.store.rows
    → get_queue_item item.id w.store ≡ ok found
    → is downloading found.row ≡ true
    → (contains item.chapter.source_id w.paused_sources || w.paused_all) ≡ true
    → IsReleased item.id found w (interrupted (calm host) item w)
unfolding get_queue_item release_queue_item
interrupted-IsReleased host item w found u e d h =
    rw (e, downloading-not_paused found.row d, d)
      (pause-IsReleased host item found w u e d (observe (calm host) w) refl refl refl h)
