-- ===== src/Faults.antt =====
-- agent/internal/uffd/faultretry.go: how the page-fault handler retries a fault. Times are
-- nanoseconds; the context, the clock, the timer and `math/rand` are parameters.
use pandastack_ai.Common.{
  ℕ, zero, suc, ◌+◌, ◌-◌, ◌*◌, ◌%◌, ◌^◌, Bool, true, false, not, ◌||◌, Option, none, some, ltb, leb,
  if◌then◌else◌,
}
use pandastack_ai.Common.Int.{ℤ, pos, negsuc, pos_part, ltb_ℤ}
use pandastack_ai.Scheduler.Data.{positive}
pub mod Retry
pub mod Backoff
pub mod Examples

abbrev pub fault_retry_base : ℕ
fault_retry_base = 200 * 10 ^ 6

abbrev pub fault_retry_max : ℕ
fault_retry_max = 5 * 10 ^ 9

-- The int64 with the low 64 bits of a number.
unfoldable pub int64 : ℕ → ℤ
int64 x = let low = x % 2 ^ 64 in if ltb low (2 ^ 63) then pos low else negsuc (2 ^ 64 - low - 1)

-- `strconv.Atoi` of the variable is the argument, none where it is empty or fails.
unfoldable pub env_duration : Option ℤ → ℤ → ℤ
unfolding int64
env_duration none default = default
env_duration (some secs) default =
    if ltb_ℤ secs (pos 0) then default else int64 (pos_part secs * 10 ^ 9)

-- The delay that `faultBackoff` draws below: `faultRetryBase << n` in an int64, or the maximum.
unfoldable pub max_delay : ℕ → ℕ
unfolding int64
max_delay n =
    let d = int64 (fault_retry_base * 2 ^ n) in
    if ltb_ℤ (pos fault_retry_max) d || not (positive d) then fault_retry_max else pos_part d

-- `rand n` is `rand.Int63n(n)`.
unfoldable pub fault_backoff : (ℕ → ℕ) → ℕ → ℕ
unfolding max_delay
fault_backoff rand n = rand (max_delay n + 1)

-- What happens at each attempt: the errors of `resolve` (none for success) and of the context when
-- it is asked, the clock, the numbers drawn, and whether the wait of a length is cut short.
pub record Attempts (Fault Stop : Type 0) : Type 0 where
  pub resolve : ℕ → Option Fault
  pub stop : ℕ → Option Stop
  pub now : ℕ → ℕ
  pub stamp : ℕ → ℕ
  pub rand : ℕ → ℕ → ℕ
  pub cut : ℕ → ℕ → Option Stop

pub data Retried (Fault Stop : Type 0) : Type 0 where
  resolved : Retried Fault Stop
  stopped : Stop → Retried Fault Stop
  gave_up : Fault → Retried Fault Stop

-- The counter of `onRetry` and the progress clock.
pub record Stats : Type 0 where
  pub retries : ℕ
  pub clk : Option ℕ

module _ {Fault Stop : Type 0} where
  abbrev pub count : Attempts Fault Stop → ℕ → Stats → Stats
  count a n st = record { retries = st.retries + 1; clk = some (a.stamp n) }

  -- The loop from attempt `n` on; none where the fuel runs out.
  unfoldable pub retry_loop :
      Attempts Fault Stop → ℤ → ℕ → ℕ → Fault → Stats → Option (Retried Fault Stop × Stats)
  unfolding fault_backoff
  retry_loop a deadline zero n err st = none
  retry_loop a deadline (suc fuel) n err st = elim (a.stop n) [
    | some e ↦ some (stopped e, st)
    | none ↦ elim (ltb_ℤ deadline (pos (a.now n))) [
      | true ↦ some (gave_up err, st)
      | false ↦ elim (a.cut n (fault_backoff (a.rand n) n)) [
        | some e ↦ some (stopped e, count a n st)
        | none ↦ elim (a.resolve (suc n)) [
          | none ↦ some (resolved, count a n st)
          | some err' ↦ retry_loop a deadline fuel (suc n) err' (count a n st)
        ]
      ]
    ]
  ]

  -- `deadline` is `time.Now().Add(budget)` after the first failure.
  unfoldable pub resolve_with_retry :
      Attempts Fault Stop → ℤ → ℕ → Stats → Option (Retried Fault Stop × Stats)
  unfolding retry_loop
  resolve_with_retry a deadline fuel st = elim (a.resolve 0) [
    | none ↦ some (resolved, st)
    | some err ↦ retry_loop a deadline fuel 0 err st
  ]
