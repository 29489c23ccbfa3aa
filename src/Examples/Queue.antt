-- ===== src/Examples/Queue.antt =====
-- A queue of three chapters of two sources, for the methods of internal/db/repository.go.
use makidoku.Common.{
  ℕ, ◌≤◌, ◌<◌, ◌≡◌, ◌≢◌, refl, String, true, false, Option, none, some, List, [], ◌∷◌, ◌++◌, arith,
  All, str_eq, eq_iff,
}
use makidoku.Common.Result.{ok}
use makidoku.Rows.{
  ordered, source_id_of, Status, pending, downloading, paused, failed, Row, Chapter, Store, Item,
}
use makidoku.Rows.Table.{Unique}
use makidoku.QueueStore.{get_queue_item, enqueue_chapter, mark_queue_failed}
use makidoku.QueueStore.Control.{transition_queue_item, yield_superseded_downloads}
use makidoku.QueueStore.Claim.{
  in_flight, busy_sources, count_distinct, ClaimOptions, claim_next_queue_item,
}
use makidoku.QueueStore.Claim.Gates.{Claimed, IsGated, claim-next, claim-IsGated}
use makidoku.QueueStore.Invariant.{IsWellFormed, can_become}
use makidoku.QueueStore.Steps.{here, next, Step}
use makidoku.QueueStore.Safety.{Reach-IsWellFormed, Step-can_become}
use makidoku.QueueStore.Yield.{Ahead, taken_back, yield_superseded-Ahead}
use makidoku.QueueStore.Outcomes.{replace, transition-outcome}
use makidoku.QueueStore.Enqueue.{enqueue-new, enqueue-existing, enqueue-failed}

abbrev pub chapter : String → String → Chapter
chapter id source = record {
  id = id;
  source_id = source;
  source_chapter_id = "remote";
  downloaded = false;
  download_path = none;
}

abbrev pub row : ℕ → String → Status → ℕ → Row
row id c s at = record {
  id = id;
  chapter_id = c;
  status = s;
  progress = 0;
  total_pages = 0;
  downloaded_pages = 0;
  done_pages = 0 ∷ [];
  error_message = none;
  queued_at = 7;
  position = at;
}

pub different : {s t : String} → str_eq s t ≡ false → s ≢ t
different {s} {t} n e = let same = (eq_iff s t).1 e in absurd cc

-- The chapter in flight stands behind the pending one.
abbrev pub queue : Store
queue = record {
  rows = row 1 "a" downloading 3 ∷ row 2 "b" pending 2 ∷ row 3 "c" failed 5 ∷ [];
  chapters = chapter "a" "x" ∷ chapter "b" "y" ∷ chapter "c" "x" ∷ chapter "d" "y" ∷ [];
  next_id = 4;
}

abbrev queue_ids : Unique (λ r. r.id) queue.rows
queue_ids = ((λ e. omega arith, (λ e. omega arith, tt)), ((λ e. omega arith, tt), (tt, tt)))

abbrev pub queue-IsWellFormed : IsWellFormed queue
queue-IsWellFormed = record {
  ids = queue_ids;
  chapter_ids = ((different refl, (different refl, tt)), ((different refl, tt), (tt, tt)));
  issued = (omega arith, (omega arith, (omega arith, tt)));
  parents = (refl, (refl, (refl, tt)));
  live = (refl, (refl, (refl, tt)));
}

-- The second failure of the first chapter.
abbrev failed_queue : Store
failed_queue = record queue {
  rows =
      record (row 1 "a" failed 3) { error_message = some "timeout" }
      ∷ row 2 "b" pending 2
      ∷ row 3 "c" failed 5
      ∷ [];
}

failure : mark_queue_failed 1 (some "timeout") queue ≡ ok failed_queue
unfolding mark_queue_failed
failure = refl

Reach-IsWellFormed_example : IsWellFormed failed_queue
Reach-IsWellFormed_example =
    Reach-IsWellFormed queue-IsWellFormed (next here (Step.fail 1 (some "timeout") failure))

Step-can_become_example : can_become downloading failed ≡ true
Step-can_become_example =
    Step-can_become queue-IsWellFormed (Step.fail 1 (some "timeout") failure) 1 refl refl

abbrev options : ClaimOptions
options = record { paused_sources = []; caps = []; default_cap = 1; max_active_sources = 2 }

claim-next_example :
    (o : Option Item) × (st' : Store) × (claim_next_queue_item options queue ≡ ok (o, st'))
    × Claimed options queue o st'
claim-next_example = claim-next options queue queue_ids

abbrev claimed_row : Row
claimed_row = row 2 "b" downloading 2

abbrev claimed_queue : Store
claimed_queue = record queue {
  rows = row 1 "a" downloading 3 ∷ claimed_row ∷ row 3 "c" failed 5 ∷ [];
}

claimed :
    claim_next_queue_item options queue
    ≡ ok (some (record { row = claimed_row; chapter = chapter "b" "y" }), claimed_queue)
unfolding claim_next_queue_item ordered source_id_of get_queue_item
claimed = refl

in_flight_bound : (s : String) → in_flight queue.chapters s queue.rows ≤ 1
unfolding source_id_of
in_flight_bound s = ground arith

busy_bound : count_distinct (busy_sources queue.chapters queue.rows) ≤ 2
unfolding source_id_of
busy_bound = omega arith

queue-IsGated : IsGated options queue
queue-IsGated = record { caps = λ h s. in_flight_bound s; sources = λ h. busy_bound }

claim-IsGated_example : IsGated options claimed_queue
claim-IsGated_example = claim-IsGated options queue queue_ids queue-IsGated claimed

yield_superseded-Ahead_example :
    (yield_superseded_downloads queue ≡ taken_back queue)
    × Ahead (yield_superseded_downloads queue).1.rows
yield_superseded-Ahead_example = yield_superseded-Ahead queue queue_ids

transition-outcome_example :
    transition_queue_item 1 paused (pending ∷ downloading ∷ []) queue
    ≡ ok (record queue { rows = replace 1 (row 1 "a" paused 3) queue.rows })
transition-outcome_example =
    transition-outcome 1 paused (pending ∷ downloading ∷ []) queue (row 1 "a" downloading 3)
      queue_ids refl

enqueue-new_example :
    (r : Row) × (enqueue_chapter 9 "d" queue
      ≡ ok (
        record { row = r; chapter = chapter "d" "y" },
        record queue { rows = queue.rows ++ r ∷ []; next_id = 5 },
      ))
    × (r.id ≡ 4)
    × (r.chapter_id ≡ "d")
    × (r.status ≡ pending)
    × (r.downloaded_pages ≡ 0)
    × (r.done_pages ≡ [])
    × All (λ x. x.position < r.position) queue.rows
enqueue-new_example = enqueue-new 9 "d" queue (chapter "d" "y") refl refl

enqueue-existing_example :
    enqueue_chapter 9 "b" queue
    ≡ ok (
      record { row = row 2 "b" pending 2; chapter = chapter "b" "y" },
      record queue { next_id = 5 },
    )
enqueue-existing_example =
    enqueue-existing 9 "b" queue (chapter "b" "y") (row 2 "b" pending 2)
      queue-IsWellFormed.chapter_ids refl refl refl

enqueue-failed_example :
    (position : ℕ) × (before : List Row) × (after : List Row) × (queue.rows
      ≡ before ++ row 3 "c" failed 5 ∷ after)
    × All (λ x. x.position < position) queue.rows
    × (let r' : Row = record (row 3 "c" pending position) { queued_at = 9 } in
        enqueue_chapter 9 "c" queue
        ≡ ok (
          record { row = r'; chapter = chapter "c" "x" },
          record queue { rows = before ++ r' ∷ after; next_id = 5 },
        ))
enqueue-failed_example =
    enqueue-failed 9 "c" queue (chapter "c" "x") (row 3 "c" failed 5) queue-IsWellFormed.chapter_ids
      refl refl refl
