-- ===== src/Utils/Retry.antt =====
-- Retry of utils/utils.go. The sleep between two attempts and the log line are left out; `f` is the
-- call that is retried, with the state that it changes and its `error`.
use ocs_osd_deployer.Base.{ℕ, zero, suc, ◌<◌, ◌≡◌, refl, Option, none, some, arith}

-- `nil`, or "Failed after %d retries. Last error: %v" with its two values; the last error is nil if
-- there was no attempt.
pub data Outcome (E : Type 0) : Type 0 where
  succeeded : Outcome E
  failed_after : ℕ → Option E → Outcome E

module _ {S E : Type 0} (f : S → Option E × S) where
  -- The `for` loop with `left` rounds to go; `err` is the variable of that name.
  retry_loop : (attempts left : ℕ) → Option E → S → Outcome E × S
  retry_loop attempts zero err s = (failed_after attempts err, s)
  retry_loop attempts (suc left) err s =
      let (r, s') = f s in
      elim r [ none ↦ (succeeded, s') | some e ↦ retry_loop attempts left (some e) s' ]

  unfoldable pub retry : ℕ → S → Outcome E × S
  unfolding retry_loop
  retry attempts s = retry_loop attempts attempts none s

  -- The state after `k` calls of `f`.
  abbrev pub after : ℕ → S → S
  after zero s = s
  after (suc k) s = after k (f s).1

  -- The first `k` calls fail.
  abbrev pub Fail : ℕ → S → Type 0
  Fail zero s = Unit
  Fail (suc k) s = ((e : E) × ((f s).0 ≡ some e)) × Fail k (f s).1

  -- The error of the last of `k` calls, or `err` if there is none.
  abbrev pub last_error : ℕ → Option E → S → Option E
  last_error zero err s = err
  last_error (suc k) err s = last_error k (f s).0 (f s).1

  retry_loop_succeeds :
      (attempts left k : ℕ) (err : Option E) (s : S)
      → k < left
      → Fail k s
      → (f (after k s)).0 ≡ none
      → retry_loop attempts left err s ≡ (succeeded, after (suc k) s)
  unfolding retry_loop
  retry_loop_succeeds attempts zero k err s lt h e = absurd (omega arith)
  retry_loop_succeeds attempts (suc left) zero err s lt h e = ground arith
  retry_loop_succeeds attempts (suc left) (suc k) err s lt ((x, fx), h) e =
      rw (fx, retry_loop) (retry_loop_succeeds attempts left k (some x) (f s).1 (omega arith) h e)

  retry_loop_fails :
      (attempts left : ℕ) (err : Option E) (s : S)
      → Fail left s
      → retry_loop attempts left err s
        ≡ (failed_after attempts (last_error left err s), after left s)
  unfolding retry_loop
  retry_loop_fails attempts zero err s h = refl
  retry_loop_fails attempts (suc left) err s ((x, fx), h) =
      rw (fx, retry_loop) (retry_loop_fails attempts left (some x) (f s).1 h)

  -- If the calls fail `k` times and the next one, within the allowed attempts, succeeds, then the
  -- result is nil and exactly `k + 1` calls were made.
  pub retry_succeeds :
      (attempts k : ℕ) (s : S)
      → k < attempts
      → Fail k s
      → (f (after k s)).0 ≡ none
      → retry attempts s ≡ (succeeded, after (suc k) s)
  unfolding retry
  retry_succeeds attempts k s = retry_loop_succeeds attempts attempts k none s

  -- If all the allowed attempts fail, then each was made once, and the result is an error that
  -- carries their number and the error of the last one.
  pub retry_fails :
      (attempts : ℕ) (s : S)
      → Fail attempts s
      → retry attempts s ≡ (failed_after attempts (last_error attempts none s), after attempts s)
  unfolding retry
  retry_fails attempts s = retry_loop_fails attempts attempts none s
