-- ===== src/Fetching/Retries.antt =====
-- About the loop of attempts and the pacing of hosts (internal/downloader/worker.go).
use makidoku.Common.{
  ℕ, zero, suc, ◌+◌, ◌*◌, ◌^◌, ◌≤◌, ◌≡◌, ◌≢◌, refl, sym, subst, ◌⊎◌, inl, inr, String, Bool, true,
  false, Option, none, List, [], ◌∷◌, arith, lt→ltb, eq_iff, min,
}
use makidoku.Common.Int.{ℤ, pos}
use makidoku.Common.Result.{Result, ok, err}
use makidoku.Fetching.{
  Fault, retryable, retry_delay_for, attempt_from, retry_fetch_with, Slots, reserve,
}

-- The wait after an attempt, for a base of at most a minute: the base doubled once for each earlier
-- attempt, but at most three times.
pub retry_delay_for-doubles :
    (base attempt : ℕ)
    → base ≤ 60_000_000_000
    → retry_delay_for (pos base) attempt ≡ pos (base * 2 ^ min attempt 3)
unfolding retry_delay_for
retry_delay_for-doubles base zero h = ground arith
retry_delay_for-doubles base (suc zero) h = ground arith
retry_delay_for-doubles base (suc (suc zero)) h = ground arith
retry_delay_for-doubles base (suc (suc (suc zero))) h = ground arith
retry_delay_for-doubles base (suc (suc (suc (suc n)))) h =
    let attempt = suc (suc (suc (suc n))) in
    let capped : min attempt 3 ≡ 3 = omega arith in
    rw (capped, lt→ltb 3 attempt (omega arith)) (ground arith)

module _ {A : Type 0} (fetch : ℕ → Result Fault A) (sleep : ℕ → Option Fault) (backoff : ℤ) where
  -- The next `k` attempts, from the given one, fail in a way that is tried again, and the waits
  -- after them are not interrupted.
  abbrev pub FailsFor : ℕ → ℕ → Type 0
  FailsFor zero n = Unit
  FailsFor (suc k) n =
      ((e : Fault) × (fetch n ≡ err e) × (retryable e ≡ true) × (sleep n ≡ none))
      × FailsFor k (suc n)

  abbrev pub wants_retry : Result Fault A → Bool
  wants_retry (ok a) = false
  wants_retry (err e) = retryable e

  abbrev pub waits : ℕ → ℕ → List ℤ
  waits zero n = []
  waits (suc k) n = retry_delay_for backoff n ∷ waits k (suc n)

  settle_now :
      (left n : ℕ)
      → (0 ≡ left) ⊎ (wants_retry (fetch n) ≡ false)
      → attempt_from fetch sleep backoff left n ≡ record { result = fetch n; delays = [] }
  unfolding attempt_from
  settle_now zero n h = refl
  settle_now (suc left) n (inl e) = absurd (omega arith)
  settle_now (suc left) n (inr e) = go (fetch n) refl e
    where
      go :
          (r : Result Fault A)
          → fetch n ≡ r
          → wants_retry r ≡ false
          → attempt_from fetch sleep backoff (suc left) n ≡ record { result = fetch n; delays = [] }
      go (ok a) k w = rw (k, attempt_from) refl
      go (err x) k w = rw (k, attempt_from, w) refl

  retry_once :
      (left n : ℕ) (e : Fault)
      → fetch n ≡ err e
      → retryable e ≡ true
      → sleep n ≡ none
      → attempt_from fetch sleep backoff (suc left) n
        ≡ record (attempt_from fetch sleep backoff left (suc n)) {
          delays =
              retry_delay_for backoff n ∷ (attempt_from fetch sleep backoff left (suc n)).delays;
        }
  unfolding attempt_from
  retry_once left n e k w z = rw (k, attempt_from, w, z) refl

  attempt_from-settles :
      (k left n : ℕ)
      → FailsFor k n
      → k ≤ left
      → (k ≡ left) ⊎ (wants_retry (fetch (n + k)) ≡ false)
      → attempt_from fetch sleep backoff left n
        ≡ record { result = fetch (n + k); delays = waits k n }
  attempt_from-settles zero left n f h s =
      let here : n + 0 ≡ n = omega arith in
      rw here (settle_now left n (subst (λ m. (0 ≡ left) ⊎ (wants_retry (fetch m) ≡ false)) here s))
  attempt_from-settles (suc k) zero n f h s = absurd (omega arith)
  attempt_from-settles (suc k) (suc left) n ((e, fails, again, awake), f) h s =
      let next : n + suc k ≡ suc n + k = omega arith in
      rw (retry_once left n e fails again awake) (
        rw
          (
            next,
            attempt_from-settles k left (suc n) f (omega arith) (
                settled (subst (λ m. (suc k ≡ suc left) ⊎ (wants_retry (fetch m) ≡ false)) next s)),
          )
          refl)
    where
      settled :
          (suc k ≡ suc left) ⊎ (wants_retry (fetch (suc n + k)) ≡ false)
          → (k ≡ left) ⊎ (wants_retry (fetch (suc n + k)) ≡ false)
      settled (inl x) = inl (omega arith)
      settled (inr x) = inr x

  -- If the first `k` attempts fail in a way that is tried again, with no wait interrupted, and `k` is
  -- the limit of retries or attempt `k` succeeds or fails for good, then the fetch returns what
  -- attempt `k` returns, after the waits that belong to attempts 0 to `k - 1`.
  pub retry_fetch_with-settles :
      (k retries : ℕ)
      → FailsFor k 0
      → k ≤ retries
      → (k ≡ retries) ⊎ (wants_retry (fetch k) ≡ false)
      → retry_fetch_with fetch sleep backoff (pos retries)
        ≡ record { result = fetch k; delays = waits k 0 }
  unfolding retry_fetch_with
  retry_fetch_with-settles k retries f h s =
      let here : 0 + k ≡ k = omega arith in
      subst
        (λ m.
          attempt_from fetch sleep backoff retries 0
          ≡ record { result = fetch m; delays = waits k 0 })
        here
        (attempt_from-settles k retries 0 f h
          (subst (λ m. (k ≡ retries) ⊎ (wants_retry (fetch m) ≡ false)) (sym here) s))

-- Two requests to one host, with one to another host between them: the second gets a slot at
-- least the interval of the first behind the first one's, and each slot is not in the past.
pub reserve-spaced :
    (host other : String) (now later now' i : ℕ) (j k : ℤ) (slots : Slots)
    → other ≢ host
    → let (first, s₁) = reserve host now (pos i) slots in
      let (between, s₂) = reserve other now' k s₁ in
      let (second, s₃) = reserve host later j s₂ in
      (first + i ≤ second) × (now ≤ first) × (later ≤ second)
unfolding reserve
reserve-spaced host other now later now' i j k slots ne =
    ground (arith, eq_iff other host, eq_iff host host)
