-- ===== src/Faults/Backoff.antt =====
-- The delays of faultretry.go, with the overflow of the shift.
use pandastack_ai.Common.{
  ℕ, zero, suc, ◌+◌, ◌-◌, ◌*◌, ◌%◌, ◌^◌, ◌<◌, ◌≤◌, ◌≡◌, refl, subst, inl, inr, min, Bool, true,
  ◌&&◌, ◌==◌, Bool-cases, ltb, arith,
}
use native.Mathlib.Nat.{mul-mod_left}
use native.Mathlib.Omega.{pow_step}
use pandastack_ai.Faults.{fault_retry_base, fault_retry_max, int64, max_delay, fault_backoff}

abbrev right_below : ℕ → Bool
right_below zero = true
right_below (suc n) =
    (max_delay n == min (fault_retry_base * 2 ^ n) fault_retry_max) && right_below n

right_small : right_below 64 ≡ true
unfolding max_delay int64
right_small = refl

right_below_at :
    (k n : ℕ)
    → right_below k ≡ true
    → n < k
    → max_delay n ≡ min (fault_retry_base * 2 ^ n) fault_retry_max
right_below_at zero n h l = absurd (omega arith)
right_below_at (suc k) n h l = ground (arith, right_below_at k n)

-- From 64 on, every bit that the shift keeps is zero.
shifted_out : (k : ℕ) → (q : ℕ) × (1 ≤ q) × (fault_retry_base * 2 ^ (k + 64) ≡ q * 2 ^ 64)
shifted_out zero = (fault_retry_base, omega arith, refl)
shifted_out (suc k) =
    let (q, some_bit, e) = shifted_out k in
    let at : suc (k + 64) ≡ suc k + 64 = omega arith in
    let doubled : fault_retry_base * 2 ^ suc (k + 64) ≡ 2 * q * 2 ^ 64 =
      omega (arith, e, pow_step 2 (k + 64)) in
    (
      2 * q,
      omega (arith, some_bit),
      subst (λ m. fault_retry_base * 2 ^ m ≡ 2 * q * 2 ^ 64) at doubled,
    )

right_large : (n : ℕ) → 64 ≤ n → max_delay n ≡ min (fault_retry_base * 2 ^ n) fault_retry_max
unfolding max_delay int64
right_large n h =
    let (q, some_bit, e) = shifted_out (n - 64) in
    let at : n - 64 + 64 ≡ n = omega (arith, h) in
    let whole : fault_retry_base * 2 ^ n ≡ q * 2 ^ 64 =
      subst (λ m. fault_retry_base * 2 ^ m ≡ q * 2 ^ 64) at e in
    let low : fault_retry_base * 2 ^ n % 2 ^ 64 ≡ 0 = rw whole (mul-mod_left q (2 ^ 64)) in
    rw low (omega (arith, whole, some_bit))

-- The delay of every attempt is the base doubled each time, cut at the maximum: the shift of an
-- int64 overflows, but its sign or its size shows that before a delay comes out too short.
pub max_delay_lem : (n : ℕ) → max_delay n ≡ min (fault_retry_base * 2 ^ n) fault_retry_max
max_delay_lem n = elim (Bool-cases (ltb n 64)) [
  | inl small ↦ right_below_at 64 n right_small (ground (arith, small))
  | inr large ↦ right_large n (ground (arith, large))
]

-- Where `rand.Int63n(n)` is below n, a wait is never longer than the maximum, nor than the base
-- doubled once for each attempt before it.
pub fault_backoff-bounds :
    (rand : ℕ → ℕ) (n : ℕ)
    → ((m : ℕ) → 0 < m → rand m < m)
    → (fault_backoff rand n ≤ fault_retry_max) × (fault_backoff rand n ≤ fault_retry_base * 2 ^ n)
unfolding fault_backoff
fault_backoff-bounds rand n h =
    let d = max_delay n in
    let drawn = h (d + 1) (omega arith) in
    let is : d ≡ min (fault_retry_base * 2 ^ n) fault_retry_max = max_delay_lem n in
    (omega (arith, drawn, is), omega (arith, drawn, is))
