-- ===== src/Stream/Bitmap.antt =====
-- The presence bitmap of a header: one bit a chunk, lowest first within each byte. The loops are the
-- same in diskstream/header.go and memstream/header.go.
use Prim.Native.Nat.{bit_and, bit_or}
use pandastack_ai.Common.{
  ℕ, zero, suc, ◌+◌, ◌*◌, ◌/◌, ◌%◌, ◌^◌, ◌<◌, ◌≤◌, ◌≡◌, refl, ap, Bool, true, false, not, ◌&&◌,
  ◌||◌, List, [], ◌∷◌, length, All, get_or, replicate, ltb, ◌==◌, arith, ltb→lt, ◌∙◌, inl, inr,
  Bool-cases, length-replicate, if◌then◌else◌,
}
use pandastack_ai.Stream.Words.{IsByte}

-- `make([]byte, n)`
abbrev pub zeros : ℕ → List ℕ
zeros n = replicate n 0

-- `bitmap[k] |= bits`
pub or_at : List ℕ → ℕ → ℕ → List ℕ
or_at [] k bits = []
or_at (b ∷ bs) zero bits = bit_or b bits ∷ bs
or_at (b ∷ bs) (suc k) bits = b ∷ or_at bs k bits

-- The loop of `Encode` from chunk `i` on, over the presence flags that are left.
pub set_bits : List Bool → ℕ → List ℕ → List ℕ
unfolding or_at
set_bits [] i bitmap = bitmap
set_bits (p ∷ ps) i bitmap =
    set_bits ps (i + 1) (if p then or_at bitmap (i / 8) (2 ^ (i % 8)) else bitmap)

-- `bitmap[i/8]&(1<<uint(i%8)) != 0`
pub test_bit : List ℕ → ℕ → Bool
test_bit bitmap i = not (bit_and (get_or bitmap (i / 8) 0) (2 ^ (i % 8)) == 0)

-- The loop of `DecodeHeader`: the flags of `k` chunks from chunk `i` on.
pub get_bits : List ℕ → ℕ → ℕ → List Bool
unfolding test_bit
get_bits bitmap zero i = []
get_bits bitmap (suc k) i = test_bit bitmap i ∷ get_bits bitmap k (i + 1)

-- A test passes for every number under the bound.
every : (ℕ → Bool) → ℕ → Bool
every test zero = true
every test (suc bound) = let rest = every test bound in if test bound then rest else false

every_lem : (test : ℕ → Bool) (bound i : ℕ) → every test bound ≡ true → i < bound → test i ≡ true
unfolding every
every_lem test zero i e lt = absurd (omega (arith, lt))
every_lem test (suc bound) i e lt = ground (arith, every_lem test bound i)

same_bool : Bool → Bool → Bool
same_bool true b = b
same_bool false b = not b

same_bool_sound : (a b : Bool) → same_bool a b ≡ true → a ≡ b
unfolding same_bool
same_bool_sound true b h = ground arith
same_bool_sound false b h = ground arith

-- Setting bit `k` of a byte and reading bit `j`.
or_bit : ℕ → ℕ → ℕ → Bool
unfolding same_bool
or_bit b k j =
    ltb (bit_or b (2 ^ k)) 256
    && same_bool (not (bit_and (bit_or b (2 ^ k)) (2 ^ j) == 0))
        (k == j || not (bit_and b (2 ^ j) == 0))

or_bit_table : every (λ b. every (λ k. every (λ j. or_bit b k j) 8) 8) 256 ≡ true
unfolding every or_bit
or_bit_table = refl

both_true : (a b : Bool) → (a && b) ≡ true → (a ≡ true) × (b ≡ true)
both_true a b h = ground arith

or_bit_lem :
    (b k j : ℕ)
    → b < 256
    → k < 8
    → j < 8
    → (bit_or b (2 ^ k) < 256)
      × (not (bit_and (bit_or b (2 ^ k)) (2 ^ j) == 0) ≡ (k == j || not (bit_and b (2 ^ j) == 0)))
unfolding or_bit
or_bit_lem b k j hb hk hj =
    let e =
      every_lem (λ j. or_bit b k j) 8 j
        (every_lem (λ k. every (λ j. or_bit b k j) 8) 8 k (every_lem _ 256 b or_bit_table hb) hk)
        hj in
    let (small, same) = both_true _ _ e in (ltb→lt _ _ small, same_bool_sound _ _ same)

or_at-IsByte : (bs : List ℕ) (m k : ℕ) → k < 8 → All IsByte bs → All IsByte (or_at bs m (2 ^ k))
unfolding or_at
or_at-IsByte [] m k hk h = tt
or_at-IsByte (b ∷ bs) zero k hk h = ((or_bit_lem b k 0 h.0 hk (omega arith)).0, h.1)
or_at-IsByte (b ∷ bs) (suc m) k hk h = (h.0, or_at-IsByte bs m k hk h.1)

length-or_at : (bs : List ℕ) (m bits : ℕ) → length (or_at bs m bits) ≡ length bs
unfolding or_at
length-or_at [] m bits = refl
length-or_at (b ∷ bs) zero bits = refl
length-or_at (b ∷ bs) (suc m) bits = ap suc (length-or_at bs m bits)

get_or-or_at :
    (bs : List ℕ) (k m bits : ℕ)
    → k < length bs
    → get_or (or_at bs k bits) m 0 ≡ (if k == m then bit_or (get_or bs m 0) bits else get_or bs m 0)
unfolding or_at
get_or-or_at [] k m bits h = absurd (omega arith)
get_or-or_at (b ∷ bs) zero zero bits h = refl
get_or-or_at (b ∷ bs) zero (suc m) bits h = ground arith
get_or-or_at (b ∷ bs) (suc k) zero bits h = ground arith
get_or-or_at (b ∷ bs) (suc k) (suc m) bits h = ground (arith, get_or-or_at bs k m bits)

get_or-IsByte : (bs : List ℕ) (m : ℕ) → All IsByte bs → IsByte (get_or bs m 0)
get_or-IsByte [] m h = omega arith
get_or-IsByte (b ∷ bs) zero h = h.0
get_or-IsByte (b ∷ bs) (suc m) h = get_or-IsByte bs m h.1

-- Setting bit `i` and reading bit `j`.
test_bit-or_at :
    (bs : List ℕ) (i j : ℕ)
    → All IsByte bs
    → i / 8 < length bs
    → test_bit (or_at bs (i / 8) (2 ^ (i % 8))) j ≡ (i == j || test_bit bs j)
unfolding test_bit
test_bit-or_at bs i j h lt =
    rw (get_or-or_at bs (i / 8) (j / 8) (2 ^ (i % 8)) lt) (elim (Bool-cases (i / 8 == j / 8)) [
      | inl e ↦ rw e (
          ground (
            arith,
            (or_bit_lem (get_or bs (j / 8) 0) (i % 8) (j % 8) (get_or-IsByte bs (j / 8) h)
                (omega arith) (omega arith)).1,
          ))
      | inr e ↦ rw e (ground arith)
    ])

-- The bits of a bitmap from `i` on are all clear.
abbrev ClearFrom : ℕ → List ℕ → Type 0
ClearFrom i bs = (j : ℕ) → i ≤ j → test_bit bs j ≡ false

set_bits_before :
    (ps : List Bool) (i j : ℕ) (bs : List ℕ)
    → All IsByte bs
    → i + length ps ≤ length bs * 8
    → j < i
    → test_bit (set_bits ps i bs) j ≡ test_bit bs j
unfolding set_bits
set_bits_before [] i j bs h fits lt = refl
set_bits_before (true ∷ ps) i j bs h fits lt =
    let bs' = or_at bs (i / 8) (2 ^ (i % 8)) in
    set_bits_before ps (i + 1) j bs' (or_at-IsByte bs (i / 8) (i % 8) (omega arith) h)
      (rw (length-or_at bs (i / 8) (2 ^ (i % 8))) (omega arith)) (omega arith)
    ∙ ground (arith, test_bit-or_at bs i j h (omega arith))
set_bits_before (false ∷ ps) i j bs h fits lt =
    set_bits_before ps (i + 1) j bs h (omega arith) (omega arith)

-- What `Encode` writes, `DecodeHeader` reads.
pub get_bits-set_bits :
    (ps : List Bool) (i : ℕ) (bs : List ℕ)
    → All IsByte bs
    → i + length ps ≤ length bs * 8
    → ClearFrom i bs
    → get_bits (set_bits ps i bs) (length ps) i ≡ ps
unfolding get_bits set_bits
get_bits-set_bits [] i bs h fits clear = refl
get_bits-set_bits (true ∷ ps) i bs h fits clear =
    let bs' = or_at bs (i / 8) (2 ^ (i % 8)) in
    let h' = or_at-IsByte bs (i / 8) (i % 8) (omega arith) h in
    let fits' : i + 1 + length ps ≤ length bs' * 8 =
      rw (length-or_at bs (i / 8) (2 ^ (i % 8))) (omega arith) in
    let set = test_bit-or_at bs i in
    ground (
      arith,
      set_bits_before ps (i + 1) i bs' h' fits' (omega arith),
      set i h (omega arith),
      get_bits-set_bits ps (i + 1) bs' h' fits'
          (λ j le. ground (arith, set j h (omega arith), clear j (omega arith))),
    )
get_bits-set_bits (false ∷ ps) i bs h fits clear = ground (
  arith,
  set_bits_before ps (i + 1) i bs h (omega arith) (omega arith),
  clear i (omega arith),
  get_bits-set_bits ps (i + 1) bs h (omega arith) (λ j le. clear j (omega arith)),
)

pub length-get_bits : (bs : List ℕ) (k i : ℕ) → length (get_bits bs k i) ≡ k
unfolding get_bits
length-get_bits bs zero i = refl
length-get_bits bs (suc k) i = ap suc (length-get_bits bs k (i + 1))

pub length-set_bits : (ps : List Bool) (i : ℕ) (bs : List ℕ) → length (set_bits ps i bs) ≡ length bs
unfolding set_bits
length-set_bits [] i bs = refl
length-set_bits (true ∷ ps) i bs =
    length-set_bits ps (i + 1) _ ∙ length-or_at bs (i / 8) (2 ^ (i % 8))
length-set_bits (false ∷ ps) i bs = length-set_bits ps (i + 1) bs

zeros-get_or : (n m : ℕ) → get_or (zeros n) m 0 ≡ zero
zeros-get_or zero m = refl
zeros-get_or (suc n) zero = refl
zeros-get_or (suc n) (suc m) = zeros-get_or n m

zeros-IsByte : (n : ℕ) → All IsByte (zeros n)
zeros-IsByte zero = tt
zeros-IsByte (suc n) = (omega arith, zeros-IsByte n)

small_bit : (k : ℕ) → k < 8 → not (bit_and 0 (2 ^ k) == 0) ≡ false
small_bit k h = same_bool_sound _ _ (
    every_lem (λ k. same_bool (not (bit_and 0 (2 ^ k) == 0)) false) 8 k
      (unfold every same_bool in refl) h)

zeros-ClearFrom : (n j : ℕ) → test_bit (zeros n) j ≡ false
unfolding test_bit
zeros-ClearFrom n j = rw (zeros-get_or n (j / 8)) (small_bit (j % 8) (omega arith))

-- The bitmap of `Encode`, in a buffer of zeros with room for every flag.
pub get_bits-encode :
    (ps : List Bool) (n : ℕ)
    → length ps ≤ n * 8
    → get_bits (set_bits ps 0 (zeros n)) (length ps) 0 ≡ ps
get_bits-encode ps n h =
    get_bits-set_bits ps 0 (zeros n) (zeros-IsByte n)
      (rw (length-replicate {A = ℕ} n 0) (omega arith)) (λ j _. zeros-ClearFrom n j)
