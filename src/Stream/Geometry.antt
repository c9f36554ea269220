-- ===== src/Stream/Geometry.antt =====
-- How a header cuts an image into chunks: NumChunks, ChunkRange and ChunkForOffset of
-- diskstream/header.go. Below 2^62 bytes no 64-bit number of theirs overflows.
use native.Mathlib.Nat.{div-eq_of_lt}
use mathlib.Core.List.{append-nil}
use pandastack_ai.Common.{ℕ, suc, ◌+◌, ◌-◌, ◌*◌, ◌/◌, ◌^◌, ◌<◌, ◌≤◌, ◌≡◌, refl, [], arith}
use pandastack_ai.Stream.Disk.{
  Header, ok, count_chunks, num_chunks, chunk_range, chunk_for_offset, encode, decode,
}
use pandastack_ai.Stream.DiskCodec.{decode-encode}

pub record Sized (h : Header) : Type 0 where
  pub chunked : 0 < h.chunk_size
  pub moderate : h.total_size + h.chunk_size ≤ 2 ^ 62

pub num_chunks_lem :
    (h : Header) → Sized h → num_chunks h ≡ (h.total_size + h.chunk_size - 1) / h.chunk_size
unfolding num_chunks count_chunks
num_chunks_lem h s = ground arith

-- Below 2^62, the number of chunks is the least that covers the image.
pub num_chunks_covers :
    (h : Header)
    → Sized h
    → (h.total_size ≤ num_chunks h * h.chunk_size)
      × (num_chunks h * h.chunk_size < h.total_size + h.chunk_size)
num_chunks_covers h s = rw (num_chunks_lem h s) (omega arith, omega arith)

lt-of-mul : (i n c : ℕ) → i * c < n * c → i < n
lt-of-mul i n c h = grind arith

-- Below 2^62, every byte of the image lies in the chunk that its offset is mapped to, and that
-- chunk exists.
pub chunk_for_offset_lem :
    (h : Header) (off : ℕ)
    → Sized h
    → off < h.total_size
    → let i = chunk_for_offset h off in
      (i < num_chunks h)
      × ((chunk_range h i).0 ≤ off)
      × (off < (chunk_range h i).0 + (chunk_range h i).1)
unfolding chunk_for_offset chunk_range
chunk_for_offset_lem h off s lt =
    let cover = num_chunks_covers h s in
    ground (arith, lt-of-mul (off / h.chunk_size) (num_chunks h) h.chunk_size, cover.0)

-- Below 2^62, the chunks follow one another with no gap and no overlap, none is empty, and the
-- last one ends where the image ends.
pub chunk_range_tiles :
    (h : Header) (i : ℕ)
    → Sized h
    → i < num_chunks h
    → ((chunk_range h i).0 + (chunk_range h i).1 ≡ (chunk_range h (suc i)).0)
      × (0 < (chunk_range h i).1)
      × ((chunk_range h i).1 ≤ h.chunk_size)
      × ((chunk_range h (num_chunks h)).0 ≡ h.total_size)
unfolding chunk_range
chunk_range_tiles h i s lt =
    let cover = num_chunks_covers h s in
    let below : suc i * h.chunk_size ≤ num_chunks h * h.chunk_size = grind arith in
    omega (arith, cover.0, cover.1, below, s.chunked)

-- Below 2^62, no intermediate number of ChunkRange leaves the range of int64, and no chunk passes
-- the end of the image.
pub chunk_range_bounds :
    (h : Header) (i : ℕ)
    → Sized h
    → i ≤ num_chunks h
    → (i * h.chunk_size + h.chunk_size < 2 ^ 63)
      × ((chunk_range h i).0 + (chunk_range h i).1 ≤ h.total_size)
unfolding chunk_range
chunk_range_bounds h i s le =
    let cover = num_chunks_covers h s in
    let below : i * h.chunk_size ≤ num_chunks h * h.chunk_size = grind arith in
    let room = s.moderate in
    (omega (arith, cover.0, cover.1, below, room), omega (arith, cover.0, cover.1, below, room))

-- A header for an image of nearly 2^64 bytes and no chunk at all.
abbrev pub hollow : ℕ → ℕ → Header
hollow size total = record {
  version = 1;
  chunk_size = size;
  total_size = total;
  present = [];
  block_sha = [];
}

hollow_count :
    (size total : ℕ)
    → total < 2 ^ 64
    → size < 2 ^ 32
    → 2 ^ 64 < total + size
    → num_chunks (hollow size total) ≡ 0
unfolding num_chunks count_chunks
hollow_count size total ht hs wrap =
    ground (arith, div-eq_of_lt {n = total + size - 1 - 2 ^ 64} {m = size})

-- Where the sum of the image and the chunk size passes 2^64, NumChunks wraps round to zero, and
-- DecodeHeader accepts a header that has no chunk for an image that is not empty.
pub decode-hollow :
    (size total : ℕ)
    → total < 2 ^ 64
    → size < 2 ^ 32
    → 2 ^ 64 < total + size
    → (decode (encode (hollow size total)) ≡ ok (hollow size total))
      × (num_chunks (hollow size total) ≡ 0)
      × (0 < total)
decode-hollow size total ht hs wrap =
    let none_left = hollow_count size total ht hs wrap in
    let whole = decode-encode (hollow size total) [] (record {
      current = refl;
      chunked = omega arith;
      size_fits = hs;
      total_fits = ht;
      count_fits = omega (arith, none_left);
      flags = omega (arith, none_left);
      digests = tt;
    }) in
    (rw append-nil at whole, none_left, omega arith)
