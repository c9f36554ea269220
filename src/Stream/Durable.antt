-- ===== src/Stream/Durable.antt =====
-- sharedcache.go: the bitmap on disk, and its round trip.
use pandastack_ai.Common.{
  ℕ, ◌^◌, ◌<◌, ◌≤◌, ◌≡◌, refl, ◌∙◌, Bool, some, List, ◌++◌, length, take, arith, length-append,
  length-replicate, take-append_length,
}
use pandastack_ai.Stream.Words.{le, Fields, fixed_part-Fields}
use pandastack_ai.Stream.Bitmap.{zeros, set_bits, get_bits, get_bits-encode, length-set_bits}
use pandastack_ai.Stream.Disk.{Header, num_chunks}
use pandastack_ai.Stream.MemCodec.{take-length}
use pandastack_ai.Stream.Shared.{
  shared_bitmap_magic, shared_bitmap_len, encode_shared_bitmap, read_shared_bitmap,
}

-- A header whose numbers fit their fields.
pub record Fitting (h : Header) : Type 0 where
  pub size_fits : h.chunk_size < 2 ^ 32
  pub total_fits : h.total_size < 2 ^ 64
  pub count_fits : num_chunks h < 2 ^ 32

read_fixed :
    (h : Header) (body b : List ℕ)
    → Fields shared_bitmap_magic 1 h.chunk_size h.total_size (num_chunks h) body b
    → shared_bitmap_len (num_chunks h) ≤ length body
    → read_shared_bitmap h b
      ≡ some (get_bits (take (shared_bitmap_len (num_chunks h)) body) (num_chunks h) 0)
unfolding read_shared_bitmap
read_fixed h body b f room = ground arith

-- The flags that were written are the flags that are read, whatever follows in the file.
pub read-encode_shared_bitmap :
    (h : Header) (present : List Bool) (rest : List ℕ)
    → Fitting h
    → length present ≡ num_chunks h
    → read_shared_bitmap h (encode_shared_bitmap h present ++ rest) ≡ some present
unfolding encode_shared_bitmap le
read-encode_shared_bitmap h present rest w flags =
    let n = num_chunks h in
    let bitmap = set_bits present 0 (zeros (shared_bitmap_len n)) in
    let room : length bitmap ≡ shared_bitmap_len n =
      length-set_bits present 0 (zeros (shared_bitmap_len n))
      ∙ length-replicate {A = ℕ} (shared_bitmap_len n) 0 in
    let bits : get_bits bitmap n 0 ≡ present =
      rw (← flags) (get_bits-encode present (shared_bitmap_len (length present)) (omega arith)) in
    rw (take-length present n flags) (
      read_fixed h (bitmap ++ rest) _
        (fixed_part-Fields 80 83 67 68 1 h.chunk_size h.total_size n (bitmap ++ rest) (omega arith)
          w.size_fits w.total_fits w.count_fits)
        (omega (arith, room, length-append bitmap rest))
      ∙ rw (take-append_length bitmap rest (shared_bitmap_len n) room, bits) refl)
