-- ===== src/Stream/Disk.antt =====
-- agent/internal/diskstream/header.go: the header of a chunked rootfs image. Sizes are uint32 and
-- uint64 with their wrap-around; `int` is taken as unbounded, which `NumChunks` and `ChunkRange`
-- bear out below 2^62 (Stream/Geometry). Digests are 32 bytes.
use pandastack_ai.Common.{
  ℕ, suc, ◌+◌, ◌-◌, ◌*◌, ◌/◌, ◌%◌, ◌^◌, min, Bool, true, false, not, Option, none, some, List, [],
  ◌∷◌, ◌++◌, length, take, drop, get_or, Text, text_eq, codes, ltb, leb, ◌==◌, if◌then◌else◌,
}
use pandastack_ai.Stream.Words.{le, read_le}
use pandastack_ai.Stream.Bitmap.{zeros, set_bits, get_bits}

abbrev pub Digest : Type 0
Digest = List ℕ

abbrev pub no_digest : Digest
no_digest = zeros 32

pub record Header : Type 0 where
  pub version : ℕ  -- uint32
  pub chunk_size : ℕ  -- uint32
  pub total_size : ℕ  -- uint64
  pub present : List Bool
  pub block_sha : List Digest

pub data Error : Type 0 where
  too_short bad_magic bad_version zero_chunk_size count_mismatch : Error
  truncated_bitmap truncated_digests : Error

pub data Result {ℓ} (A : Type ℓ) : Type ℓ where
  ok : A → Result A
  err : Error → Result A

abbrev pub magic : Text
magic = codes "PSD1"

abbrev pub header_version : ℕ
header_version = 1

abbrev pub default_chunk_size : ℕ
default_chunk_size = 2 ^ 20

abbrev pub sha256_len : ℕ
sha256_len = 32

-- `(TotalSize + uint64(ChunkSize) - 1) / uint64(ChunkSize)`, in uint64.
unfoldable pub count_chunks : ℕ → ℕ → ℕ
count_chunks total size = if size == 0 then 0 else (total + size + (2 ^ 64 - 1)) % 2 ^ 64 / size

unfoldable pub num_chunks : Header → ℕ
unfolding count_chunks
num_chunks h = count_chunks h.total_size h.chunk_size

-- The offset and the length of a chunk.
unfoldable pub chunk_range : Header → ℕ → ℕ × ℕ
chunk_range h i =
    let offset = i * h.chunk_size in
    let end = min (offset + h.chunk_size) h.total_size in
    (min offset h.total_size, end - min offset h.total_size)

unfoldable pub chunk_for_offset : Header → ℕ → ℕ
chunk_for_offset h off = if h.chunk_size == 0 then 0 else off / h.chunk_size

unfoldable pub is_present : Header → ℕ → Bool
is_present h i = get_or h.present i false

unfoldable pub chunk_sha : Header → ℕ → Option Digest
unfolding is_present
chunk_sha h i =
    if leb (length h.block_sha) i
    then none
    else if is_present h i
    then some (get_or h.block_sha i no_digest)
    else none

unfoldable pub count_present : List Bool → ℕ
count_present [] = 0
count_present (p ∷ ps) = let n = count_present ps in if p then suc n else n

unfoldable pub bitmap_len : ℕ → ℕ
bitmap_len n = (n + 7) / 8

-- The digests of the present chunks, in the order of their chunks.
unfoldable pub put_digests : List Bool → List Digest → List ℕ
put_digests [] ds = []
put_digests (p ∷ ps) [] = []
put_digests (p ∷ ps) (d ∷ ds) = let rest = put_digests ps ds in if p then d ++ rest else rest

-- Chunks from `n` on have no bit and no digest, which `take` says of the two loops `i < n`.
unfoldable pub encode : Header → List ℕ
encode h =
    let n = num_chunks h in
    let flags = take n h.present in
    magic
    ++ (le 4 h.version
        ++ (le 4 h.chunk_size
            ++ (le 8 h.total_size
                ++ (le 4 n
                    ++ (set_bits flags 0 (zeros (bitmap_len n))
                        ++ put_digests flags h.block_sha)))))

-- The loop that copies a digest for each present chunk.
unfoldable pub get_digests : List Bool → List ℕ → List Digest
get_digests [] b = []
get_digests (true ∷ ps) b = take sha256_len b ∷ get_digests ps (drop sha256_len b)
get_digests (false ∷ ps) b = no_digest ∷ get_digests ps b

-- What follows the fixed part, for `n` chunks.
unfoldable pub decode_body : ℕ → ℕ → ℕ → ℕ → List ℕ → Result Header
decode_body version size total n b =
    if ltb (length b) (bitmap_len n)
    then err truncated_bitmap
    else let flags = get_bits (take (bitmap_len n) b) n 0 in
      let rest = drop (bitmap_len n) b in
      if ltb (length rest) (count_present flags * sha256_len)
      then err truncated_digests
      else ok (record {
        version = version;
        chunk_size = size;
        total_size = total;
        present = flags;
        block_sha = get_digests flags rest;
      })

unfoldable pub decode : List ℕ → Result Header
decode b =
    let version = read_le 4 (drop 4 b) in
    let size = read_le 4 (drop 8 b) in
    let total = read_le 8 (drop 12 b) in
    let n = read_le 4 (drop 20 b) in
    if ltb (length b) 24
    then err too_short
    else if not (text_eq (take 4 b) magic)
    then err bad_magic
    else if not (version == header_version)
    then err bad_version
    else if size == 0
    then err zero_chunk_size
    else if not (count_chunks total size == n)
    then err count_mismatch
    else decode_body version size total n (drop 24 b)
