-- ===== src/Faults/Examples.antt =====
-- Runs of faultretry.go, where the hypotheses of its theorems hold.
use pandastack_ai.Common.{ℕ, ◌+◌, ◌*◌, ◌^◌, ◌≡◌, min, none, some, leb, if◌then◌else◌, arith}
use pandastack_ai.Common.Int.{pos}
use pandastack_ai.Faults.{
  Attempts, Retried, Stats, resolve_with_retry, max_delay, fault_retry_base, fault_retry_max,
}
use pandastack_ai.Faults.Backoff.{max_delay_lem}
use pandastack_ai.Faults.Retry.{Explained, resolve_with_retry-Explained}

-- The second attempt succeeds; every round takes 7 ns.
abbrev second_works : Attempts ℕ ℕ
second_works = record {
  resolve = λ n. if leb 1 n then none else some 5;
  stop = λ n. none;
  now = λ n. n * 7 + 1;
  stamp = λ n. n * 7 + 2;
  rand = λ n m. 0;
  cut = λ n d. none;
}

resolve_with_retry-Explained_example :
    (r : Retried ℕ ℕ) × (st' : Stats) × (resolve_with_retry second_works
        (pos (0 + 100))
        (100 + 2)
        (record { retries = 0; clk = none })
      ≡ some (r, st'))
    × Explained second_works (pos (0 + 100)) 0 r
resolve_with_retry-Explained_example =
    resolve_with_retry-Explained second_works 0 100 (record { retries = 0; clk = none })
      (omega arith) (λ n. omega arith)

max_delay_lem_example : max_delay 40 ≡ min (fault_retry_base * 2 ^ 40) fault_retry_max
max_delay_lem_example = max_delay_lem 40
