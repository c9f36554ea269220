-- ===== src/Stream/Slices.antt =====
-- Ranges of the cache file of diskstream/resolver.go, and the ranges of chunks.
use native.Mathlib.Nat.{le-div_iff_mul-le, div-lt_iff_lt-mul, suc-mul}
use pandastack_ai.Common.{
  ℕ, zero, suc, ◌+◌, ◌-◌, ◌*◌, ◌/◌, ◌<◌, ◌≤◌, ◌≡◌, refl, ap, ◌∙◌, List, length, get_or, arith,
}
use pandastack_ai.Stream.Disk.{Header, chunk_range, chunk_for_offset}
use pandastack_ai.Stream.Geometry.{Sized}
use pandastack_ai.Stream.Resolver.{write_at, slice}

pub length-slice : (c : ℕ → ℕ) (off n : ℕ) → length (slice c off n) ≡ n
unfolding slice
length-slice c off zero = refl
length-slice c off (suc n) = ap suc (length-slice c (off + 1) n)

pub get_or-slice : (c : ℕ → ℕ) (off n k : ℕ) → k < n → get_or (slice c off n) k 0 ≡ c (off + k)
unfolding slice
get_or-slice c off zero k h = absurd (omega arith)
get_or-slice c off (suc n) zero h = ap c (omega arith)
get_or-slice c off (suc n) (suc k) h =
    get_or-slice c (off + 1) n k (omega arith) ∙ ap c (omega arith)

pub slice_ext :
    (c d : ℕ → ℕ) (off n : ℕ)
    → ((j : ℕ) → off ≤ j → j < off + n → c j ≡ d j)
    → slice c off n ≡ slice d off n
unfolding slice
slice_ext c d off zero h = refl
slice_ext c d off (suc n) h = cc (
  h off (omega arith) (omega arith),
  slice_ext c d (off + 1) n (λ j a b. h j (omega arith) (omega arith)),
)

pub div_of_range : (i c off : ℕ) → 0 < c → i * c ≤ off → off < i * c + c → off / c ≡ i
div_of_range i c off pos lo hi =
    let below : i ≤ off / c = (le-div_iff_mul-le {k = c} {x = i} {y = off} pos).1 lo in
    let above : off / c < suc i =
      (div-lt_iff_lt-mul {k = c} {x = off} {y = suc i} pos).1 (omega (arith, suc-mul i c)) in
    omega arith

-- The bytes of a chunk's range are those that are mapped to it.
pub in_range :
    (h : Header) (i off : ℕ)
    → Sized h
    → (chunk_range h i).0 ≤ off
    → off < (chunk_range h i).0 + (chunk_range h i).1
    → chunk_for_offset h off ≡ i
unfolding chunk_range chunk_for_offset
in_range h i off s lo hi = ground (arith, div_of_range i h.chunk_size off)

pub write_at-in :
    (cache image : ℕ → ℕ) (off n j : ℕ)
    → off ≤ j
    → j < off + n
    → write_at cache off (slice image off n) j ≡ image j
unfolding write_at
write_at-in cache image off n j lo hi =
    let at : off + (j - off) ≡ j = omega arith in
    ground (arith, length-slice image off n, get_or-slice image off n (j - off), ap image at)

pub write_at-out :
    (cache : ℕ → ℕ) (off : ℕ) (bytes : List ℕ) (j : ℕ)
    → (off ≤ j → j < off + length bytes → ⊥)
    → write_at cache off bytes j ≡ cache j
unfolding write_at
write_at-out cache off bytes j out = ground arith
