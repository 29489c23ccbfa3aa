-- ===== src/QueueStore/Effects.antt =====
-- The effect of the methods of internal/db/repository.go that update rows by one condition.
use makidoku.Common.{
  ℕ, ◌≡◌, refl, subst, inl, inr, String, Bool, true, false, Option, List, [], ◌∷◌, arith, any, ltb,
  length, Bool-cases,
}
use makidoku.Common.Int.{ℤ, pos, negsuc}
use makidoku.Common.Result.{ok, ◌>>=◌, guard}
use makidoku.Rows.{
  Status, pending, downloading, paused, failed, Row, Store, is, update_where, delete_where,
}
use makidoku.QueueStore.{
  StoreError, not_allowed_state, set_status, can_progress, progressed, saved, failed_with,
  update_queue_progress, save_queue_page_progress, is_downloading, mark_queue_failed,
}
use makidoku.QueueStore.Control.{
  can_move, is_cancelable, transition_queue_item, pause_queue_item, resume_queue_item,
  retry_queue_item, cancel_queue_item, release_queue_item, reset_interrupted_queue,
}
use makidoku.QueueStore.Invariant.{can_become, IsHarmless, Effect, updated, deleted}

-- An update of the rows alone.
pub row_update :
    (st : Store) {st' : Store} (p : Row → Bool) (f : Row → Row)
    → IsHarmless p f
    → record st { rows = update_where p f st.rows } ≡ st'
    → Effect st st'
row_update st p f h e =
    subst (Effect st) e (updated st.chapters p f st.next_id (λ c. refl) h (omega arith))

pub row_delete :
    (st : Store) {st' : Store} (p : Row → Bool)
    → record st { rows = delete_where p st.rows } ≡ st'
    → Effect st st'
row_delete st p e = subst (Effect st) e (deleted st.chapters p (λ c. refl))

-- A statement under `require_change` that returned has written.
pub written :
    (b : Bool) (e : StoreError) {st st' : Store} → (guard b e >>= λ _. ok st) ≡ ok st' → st ≡ st'
written true e h = ground arith
written false e h = cc

pub set_status-IsHarmless :
    (p : Row → Bool) (s : Status)
    → ((r : Row) → p r ≡ true → can_become r.status s ≡ true)
    → IsHarmless p (set_status s)
set_status-IsHarmless p s h = record { id = λ r. refl; chapter = λ r. refl; moves = h }

transition-Effect :
    (id : ℕ) (s : Status) (allowed : List Status) (st : Store) {st' : Store}
    → ((r : Row) → can_move id allowed r ≡ true → can_become r.status s ≡ true)
    → transition_queue_item id s allowed st ≡ ok st'
    → Effect st st'
unfolding transition_queue_item
transition-Effect id s allowed st h e =
    row_update st (can_move id allowed) (set_status s)
      (set_status-IsHarmless (can_move id allowed) s h)
      (written (any (can_move id allowed) st.rows) not_allowed_state e)

pub pause-Effect :
    (id : ℕ) (st : Store) {st' : Store} → pause_queue_item id st ≡ ok st' → Effect st st'
unfolding pause_queue_item
pause-Effect id st e =
    transition-Effect id paused (pending ∷ downloading ∷ []) st (λ r h. ground arith) e

pub resume-Effect :
    (id : ℕ) (st : Store) {st' : Store} → resume_queue_item id st ≡ ok st' → Effect st st'
unfolding resume_queue_item
resume-Effect id st e = transition-Effect id pending (paused ∷ []) st (λ r h. ground arith) e

pub retry-Effect :
    (id : ℕ) (st : Store) {st' : Store} → retry_queue_item id st ≡ ok st' → Effect st st'
unfolding retry_queue_item
retry-Effect id st e = transition-Effect id pending (failed ∷ []) st (λ r h. ground arith) e

pub progress-Effect :
    (id : ℕ) (total part : ℤ) (m : Option String) (st : Store) {st' : Store}
    → update_queue_progress id total part m st ≡ ok st'
    → Effect st st'
unfolding update_queue_progress
progress-Effect id (pos total) (pos part) m st e = elim (Bool-cases (ltb total part)) [
  | inl bad ↦ absurd (ground arith)
  | inr fine ↦
      row_update st (can_progress id) (progressed total part m)
        (record { id = λ r. refl; chapter = λ r. refl; moves = λ r h. ground arith })
        (written (any (can_progress id) st.rows) not_allowed_state (rw fine at e))
]
progress-Effect id (pos total) (negsuc part) m st e = cc
progress-Effect id (negsuc total) part m st e = cc

pub save-Effect :
    (id : ℕ) (total : ℤ) (done : List ℕ) (st : Store) {st' : Store}
    → save_queue_page_progress id total done st ≡ ok st'
    → Effect st st'
unfolding save_queue_page_progress
save-Effect id (pos total) done st e = elim (Bool-cases (ltb total (length done))) [
  | inl bad ↦ absurd (ground arith)
  | inr fine ↦
      row_update st (can_progress id) (saved total done)
        (record { id = λ r. refl; chapter = λ r. refl; moves = λ r h. ground arith })
        (written (any (can_progress id) st.rows) not_allowed_state (rw fine at e))
]
save-Effect id (negsuc total) done st e = cc

pub fail-Effect :
    (id : ℕ) (m : Option String) (st : Store) {st' : Store}
    → mark_queue_failed id m st ≡ ok st'
    → Effect st st'
unfolding mark_queue_failed
fail-Effect id m st e =
    row_update st (is_downloading id) (failed_with m)
      (record { id = λ r. refl; chapter = λ r. refl; moves = λ r h. ground arith })
      (written (any (is_downloading id) st.rows) not_allowed_state e)

pub cancel-Effect :
    (id : ℕ) (st : Store) {st' : Store} → cancel_queue_item id st ≡ ok st' → Effect st st'
unfolding cancel_queue_item
cancel-Effect id st e =
    row_delete st (is_cancelable id) (written (any (is_cancelable id) st.rows) not_allowed_state e)

pub release-Effect : (id : ℕ) (st : Store) → Effect st (release_queue_item id st)
unfolding release_queue_item
release-Effect id st =
    row_update st (is_downloading id) (set_status pending)
      (set_status-IsHarmless (is_downloading id) pending (λ r h. ground arith)) refl

pub reset-Effect : (st : Store) → Effect st (reset_interrupted_queue st)
unfolding reset_interrupted_queue
reset-Effect st =
    row_update st (is downloading) (set_status pending)
      (set_status-IsHarmless (is downloading) pending (λ r h. ground arith)) refl
