-- ===== src/Stream/Mem.antt =====
-- agent/internal/memstream/header.go: the header of a chunked memory snapshot. It is the disk
-- header without digests, under another magic.
use pandastack_ai.Common.{
  ℕ, ◌+◌, ◌-◌, ◌*◌, ◌/◌, ◌%◌, ◌^◌, min, Bool, false, not, List, ◌++◌, length, take, drop, get_or,
  Text, text_eq, codes, ltb, ◌==◌, if◌then◌else◌,
}
use pandastack_ai.Stream.Words.{le, read_le}
use pandastack_ai.Stream.Bitmap.{zeros, set_bits, get_bits}

pub record MemHeader : Type 0 where
  pub version : ℕ  -- uint32
  pub chunk_size : ℕ  -- uint32
  pub total_size : ℕ  -- uint64
  pub present : List Bool

pub data MemError : Type 0 where
  too_short bad_magic bad_version zero_chunk_size count_mismatch truncated_bitmap : MemError

pub data MemResult : Type 0 where
  ok : MemHeader → MemResult
  err : MemError → MemResult

abbrev pub mem_magic : Text
mem_magic = codes "PSM1"

abbrev pub mem_header_version : ℕ
mem_header_version = 1

unfoldable pub mem_count_chunks : ℕ → ℕ → ℕ
mem_count_chunks total size = if size == 0 then 0 else (total + size + (2 ^ 64 - 1)) % 2 ^ 64 / size

unfoldable pub mem_num_chunks : MemHeader → ℕ
mem_num_chunks h = mem_count_chunks h.total_size h.chunk_size

unfoldable pub mem_chunk_range : MemHeader → ℕ → ℕ × ℕ
mem_chunk_range h i =
    let offset = i * h.chunk_size in
    let end = min (offset + h.chunk_size) h.total_size in
    (min offset h.total_size, end - min offset h.total_size)

unfoldable pub mem_chunk_for_offset : MemHeader → ℕ → ℕ
mem_chunk_for_offset h off = if h.chunk_size == 0 then 0 else off / h.chunk_size

unfoldable pub mem_is_present : MemHeader → ℕ → Bool
mem_is_present h i = get_or h.present i false

unfoldable pub mem_bitmap_len : ℕ → ℕ
mem_bitmap_len n = (n + 7) / 8

unfoldable pub mem_encode : MemHeader → List ℕ
mem_encode h =
    let n = mem_num_chunks h in
    mem_magic
    ++ (le 4 h.version
        ++ (le 4 h.chunk_size
            ++ (le 8 h.total_size
                ++ (le 4 n ++ set_bits (take n h.present) 0 (zeros (mem_bitmap_len n))))))

unfoldable pub mem_decode_body : ℕ → ℕ → ℕ → ℕ → List ℕ → MemResult
mem_decode_body version size total n b =
    if ltb (length b) (mem_bitmap_len n)
    then err truncated_bitmap
    else ok (record {
      version = version;
      chunk_size = size;
      total_size = total;
      present = get_bits (take (mem_bitmap_len n) b) n 0;
    })

unfoldable pub mem_decode : List ℕ → MemResult
mem_decode b =
    let version = read_le 4 (drop 4 b) in
    let size = read_le 4 (drop 8 b) in
    let total = read_le 8 (drop 12 b) in
    let n = read_le 4 (drop 20 b) in
    if ltb (length b) 24
    then err too_short
    else if not (text_eq (take 4 b) mem_magic)
    then err bad_magic
    else if not (version == mem_header_version)
    then err bad_version
    else if size == 0
    then err zero_chunk_size
    else if not (mem_count_chunks total size == n)
    then err count_mismatch
    else mem_decode_body version size total n (drop 24 b)
