-- ===== src/Stream/Words.antt =====
-- Little-endian words of encoding/binary, as the headers use them.
use native.Mathlib.Nat.{pow-suc}
use pandastack_ai.Common.{
  ℕ, zero, suc, ◌+◌, ◌*◌, ◌/◌, ◌%◌, ◌^◌, ◌<◌, ◌≤◌, ◌≡◌, refl, ap, List, [], ◌∷◌, ◌++◌, length, All,
  take, drop, arith,
}

-- AppendUint32 and AppendUint64 write `le 4` and `le 8`.
unfoldable pub le : ℕ → ℕ → List ℕ
le zero n = []
le (suc k) n = n % 256 ∷ le k (n / 256)

-- Uint32 and Uint64 read the first 4 and 8 bytes.
unfoldable pub read_le : ℕ → List ℕ → ℕ
read_le zero b = 0
read_le (suc k) [] = 0
read_le (suc k) (x ∷ b) = x + 256 * read_le k b

pub length-le : (k n : ℕ) → length (le k n) ≡ k
unfolding le
length-le zero n = refl
length-le (suc k) n = ap suc (length-le k (n / 256))

pub read_le-le : (k n : ℕ) (rest : List ℕ) → n < 256 ^ k → read_le k (le k n ++ rest) ≡ n
unfolding le read_le
read_le-le zero n rest h = omega arith
read_le-le (suc k) n rest h =
    omega (arith, read_le-le k (n / 256) rest (omega (arith, pow-suc 256 k)))

abbrev pub IsByte : ℕ → Type 0
IsByte b = b < 256

pub read_le-lt : (k : ℕ) (b : List ℕ) → All IsByte b → read_le k b < 256 ^ k
unfolding read_le
read_le-lt zero b h = omega arith
read_le-lt (suc k) [] h = omega (arith, read_le-lt k [] tt, pow-suc 256 k)
read_le-lt (suc k) (x ∷ b) h = omega (arith, read_le-lt k b h.1, pow-suc 256 k, h.0)

-- The fixed part of a header: a magic of four bytes, and four words.
abbrev pub fixed_part : List ℕ → ℕ → ℕ → ℕ → ℕ → List ℕ → List ℕ
fixed_part magic version size total n body =
    magic ++ (le 4 version ++ (le 4 size ++ (le 8 total ++ (le 4 n ++ body))))

pub record Fields (magic : List ℕ) (version size total n : ℕ) (body b : List ℕ) : Type 0 where
  pub long : 24 ≤ length b
  pub magic_field : take 4 b ≡ magic
  pub version_field : read_le 4 (drop 4 b) ≡ version
  pub size_field : read_le 4 (drop 8 b) ≡ size
  pub total_field : read_le 8 (drop 12 b) ≡ total
  pub count_field : read_le 4 (drop 20 b) ≡ n
  pub body_field : drop 24 b ≡ body

pub fixed_part-Fields :
    (m₀ m₁ m₂ m₃ version size total n : ℕ) (body : List ℕ)
    → version < 2 ^ 32
    → size < 2 ^ 32
    → total < 2 ^ 64
    → n < 2 ^ 32
    → let magic = m₀ ∷ m₁ ∷ m₂ ∷ m₃ ∷ [] in
      Fields magic version size total n body (fixed_part magic version size total n body)
unfolding le
fixed_part-Fields m₀ m₁ m₂ m₃ version size total n body hv hs ht hn = record {
  long = omega arith;
  magic_field = refl;
  version_field = read_le-le 4 version _ hv;
  size_field = read_le-le 4 size _ hs;
  total_field = read_le-le 8 total _ ht;
  count_field = read_le-le 4 n _ hn;
  body_field = refl;
}
