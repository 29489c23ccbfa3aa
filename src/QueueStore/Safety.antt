-- ===== src/QueueStore/Safety.antt =====
-- About any sequence of calls of the queue's methods (internal/db/repository.go).
use makidoku.Common.{ℕ, ◌≡◌, true, some, find?}
use makidoku.Rows.{Row, Store, has_id}
use makidoku.QueueStore.Invariant.{IsWellFormed, can_become, Effect, Effect-IsWellFormed}
use makidoku.QueueStore.Moves.{Effect-can_become}
use makidoku.QueueStore.Effects.{
  progress-Effect, save-Effect, fail-Effect, pause-Effect, resume-Effect, retry-Effect,
  cancel-Effect, release-Effect, reset-Effect,
}
use makidoku.QueueStore.Calls.{
  cancel_all-Effect, yield-Effect, retry_source-Effect, mark-Effect, complete-Effect,
  enqueue-Effect, claim-Effect,
}
use makidoku.QueueStore.Reorder.{reorder-Effect}
use makidoku.QueueStore.Steps.{Step, Reach, here, next}
use makidoku.Common.{subst}

Step-Effect : {st st' : Store} → Step st st' → Effect st st'
Step-Effect {st} (Step.enqueue now c i e) = enqueue-Effect now c st e
Step-Effect {st} (Step.progress id total part m e) = progress-Effect id total part m st e
Step-Effect {st} (Step.save_pages id total done e) = save-Effect id total done st e
Step-Effect {st} (Step.fail id m e) = fail-Effect id m st e
Step-Effect {st} (Step.mark c path e) = mark-Effect c path st e
Step-Effect {st} (Step.complete c path e) = complete-Effect c path st e
Step-Effect {st} (Step.pause id e) = pause-Effect id st e
Step-Effect {st} (Step.resume id e) = resume-Effect id st e
Step-Effect {st} (Step.retry id e) = retry-Effect id st e
Step-Effect {st} (Step.cancel id e) = cancel-Effect id st e
Step-Effect {st} (Step.release id e) = subst (Effect st) e (release-Effect id st)
Step-Effect {st} (Step.cancel_all e) = subst (Effect st) e (cancel_all-Effect st)
Step-Effect {st} (Step.yield_superseded e) = subst (Effect st) e (yield-Effect st)
Step-Effect {st} (Step.reorder order e) = reorder-Effect order st e
Step-Effect {st} (Step.reset e) = subst (Effect st) e (reset-Effect st)
Step-Effect {st} (Step.retry_source s e) = subst (Effect st) e (retry_source-Effect s st)
Step-Effect {st} (Step.claim options o e) = claim-Effect options st e

-- After any sequence of calls of the queue's methods, from a well-formed store, the store is well
-- formed: ids and chapter ids are distinct, every id is below the counter, every row's chapter is
-- there, and every stored status is pending, downloading, paused or failed.
pub Reach-IsWellFormed : {st st' : Store} → IsWellFormed st → Reach st st' → IsWellFormed st'
Reach-IsWellFormed w here = w
Reach-IsWellFormed w (next r s) = Effect-IsWellFormed (Step-Effect s) (Reach-IsWellFormed w r)

-- One call of any method, on a well-formed store, moves the status of a row that is there before
-- and after along the diagram: pending to downloading or paused, downloading to pending, paused or
-- failed, paused to pending, failed to pending, or not at all.
pub Step-can_become :
    {st st' : Store}
    → IsWellFormed st
    → Step st st'
    → (i : ℕ) {r r' : Row} → find? (has_id i) st.rows ≡ some r
    → find? (has_id i) st'.rows ≡ some r'
    → can_become r.status r'.status ≡ true
Step-can_become w s i e k = Effect-can_become (Step-Effect s) w i e k
