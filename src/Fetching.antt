-- ===== src/Fetching.antt =====
-- Retries and pacing of page requests (internal/downloader/worker.go). Durations are in nanoseconds,
-- 64-bit and signed; the clock of the limiter is a number.
pub mod Retries
use makidoku.Common.{
  ℕ, zero, suc, ◌+◌, ◌*◌, ◌%◌, ◌^◌, String, Bool, true, false, not, ◌&&◌, ◌||◌, Option, none, some,
  List, [], ◌∷◌, ltb, leb, if◌then◌else◌, str_eq, min,
}
use makidoku.Common.Int.{ℤ, pos, negsuc, to_int64}
use makidoku.Common.Result.{Result, ok, err}

-- The codes of internal/engine/errors.go.
pub data ErrorCode : Type 0 where
  cloudflare_blocked rate_limited network_timeout session_required auth_expired not_found :
      ErrorCode
  source_offline parsing_error unsupported_media memory_limit_exceeded unscramble_failed : ErrorCode

-- What `errors.Is` and `errors.As` tell of an error: an end of the context, a coded error of the
-- engine, or any other.
pub data Fault : Type 0 where
  canceled : Fault
  deadline_exceeded : Fault
  coded : ErrorCode → Fault
  plain : Fault

-- CodeOf: a plain error counts as a parsing error.
unfoldable pub code_of : Fault → ErrorCode
code_of (coded c) = c
code_of _ = parsing_error

abbrev pub is_final : ErrorCode → Bool
is_final not_found = true
is_final unsupported_media = true
is_final memory_limit_exceeded = true
is_final unscramble_failed = true
is_final parsing_error = true
is_final _ = false

abbrev pub is_coded : Fault → Bool
is_coded (coded c) = true
is_coded _ = false

unfoldable pub retryable : Fault → Bool
unfolding code_of
retryable canceled = false
retryable deadline_exceeded = false
retryable e = if is_final (code_of e) then not (is_coded e) else true

-- The shift wraps at 64 bits. An attempt below 0 counts as 0.
unfoldable pub retry_delay_for : ℤ → ℕ → ℤ
retry_delay_for (negsuc _) attempt = pos 0
retry_delay_for (pos base) attempt =
    to_int64 (base * 2 ^ (if ltb 3 attempt then 3 else attempt) % 0x1_0000_0000_0000_0000)

-- What a run of the loop did: its result, and the delays that it slept.
pub record Attempts (A : Type 0) : Type 0 where
  pub result : Result Fault A
  pub delays : List ℤ

abbrev pub finish : {A : Type 0} → Result Fault A → Attempts A
finish r = record { result = r; delays = [] }

abbrev pub slept : {A : Type 0} → ℤ → Attempts A → Attempts A
slept d a = record a { delays = d ∷ a.delays }

-- `fetch` and `sleep` give what the call of an attempt returns.
module _ {A : Type 0} (fetch : ℕ → Result Fault A) (sleep : ℕ → Option Fault) (backoff : ℤ) where
  -- `left` is `retries - attempt`: the test `attempt >= retries` is that it is 0.
  unfoldable pub attempt_from : ℕ → ℕ → Attempts A
  attempt_from zero attempt = finish (fetch attempt)
  attempt_from (suc left) attempt =
      let again = slept (retry_delay_for backoff attempt) (attempt_from left (suc attempt)) in
      elim (fetch attempt) [
        | ok a ↦ finish (ok a)
        | err e ↦ if not (retryable e) then finish (err e) else elim (sleep attempt) [
          | some interrupted ↦ slept (retry_delay_for backoff attempt) (finish (err interrupted))
          | none ↦ again
        ]
      ]

  -- A negative count of retries is 0.
  unfoldable pub retry_fetch_with : ℤ → Attempts A
  unfolding attempt_from
  retry_fetch_with (negsuc _) = attempt_from 0 0
  retry_fetch_with (pos retries) = attempt_from retries 0

-- The slots of the hosts: the time from which the next request may go out.
pub data Slots : Type 0 where
  none_taken : Slots
  taken : String → ℕ → Slots → Slots

-- A host with no entry has the zero time.
unfoldable pub next_slot : String → Slots → ℕ
next_slot host none_taken = 0
next_slot host (taken h t rest) = if str_eq h host then t else next_slot host rest

-- The reservation of WaitWithInterval, under the lock: the slot that the request gets, and the
-- slots after it. A negative interval is 0.
unfoldable pub reserve : String → ℕ → ℤ → Slots → ℕ × Slots
unfolding next_slot
reserve host now interval slots =
    let ready = if ltb (next_slot host slots) now then now else next_slot host slots in
    (ready, taken host (ready + (elim interval [ pos i ↦ i | negsuc _ ↦ 0 ])) slots)
