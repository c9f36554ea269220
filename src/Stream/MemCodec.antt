-- ===== src/Stream/MemCodec.antt =====
-- The codec of memstream/header.go, and that a memory header is never taken for a disk header.
use pandastack_ai.Common.{
  ℕ, zero, suc, ◌^◌, ◌<◌, ◌≡◌, refl, ap, ◌∙◌, List, [], ◌∷◌, ◌++◌, length, take, arith,
  length-append, take-append_length, length-replicate,
}
use pandastack_ai.Stream.Words.{le, fixed_part, Fields, fixed_part-Fields}
use pandastack_ai.Stream.Bitmap.{zeros, set_bits, get_bits, get_bits-encode, length-set_bits}
use pandastack_ai.Stream.Disk
use pandastack_ai.Stream.Mem.{
  MemHeader, ok, mem_magic, mem_count_chunks, mem_num_chunks, mem_bitmap_len, mem_encode,
  mem_decode_body, mem_decode,
}

pub record MemWellFormed (h : MemHeader) : Type 0 where
  pub current : h.version ≡ 1
  pub chunked : 0 < h.chunk_size
  pub size_fits : h.chunk_size < 2 ^ 32
  pub total_fits : h.total_size < 2 ^ 64
  pub count_fits : mem_num_chunks h < 2 ^ 32
  pub flags : length h.present ≡ mem_num_chunks h

pub take-length {ℓ} : {A : Type ℓ} (xs : List A) (n : ℕ) → length xs ≡ n → take n xs ≡ xs
take-length [] zero h = refl
take-length [] (suc n) h = refl
take-length (x ∷ xs) zero h = absurd (omega arith)
take-length (x ∷ xs) (suc n) h = ap (◌∷◌ x) (take-length xs n (omega arith))

mem_decode_body-encode :
    (h : MemHeader) (rest : List ℕ)
    → MemWellFormed h
    → let n = mem_num_chunks h in
      mem_decode_body h.version h.chunk_size h.total_size n
        (set_bits h.present 0 (zeros (mem_bitmap_len n)) ++ rest)
      ≡ ok h
unfolding mem_decode_body mem_bitmap_len
mem_decode_body-encode h rest w =
    let n = mem_num_chunks h in
    let bitmap = set_bits h.present 0 (zeros (mem_bitmap_len n)) in
    let room : length bitmap ≡ mem_bitmap_len n =
      length-set_bits h.present 0 (zeros (mem_bitmap_len n))
      ∙ length-replicate {A = ℕ} (mem_bitmap_len n) 0 in
    let flags : get_bits bitmap n 0 ≡ h.present =
      rw (← w.flags)
        (get_bits-encode h.present (mem_bitmap_len (length h.present)) (omega arith)) in
    rw (take-append_length bitmap rest (mem_bitmap_len n) room, flags)
      (ground (arith, length-append bitmap rest))

mem_decode_fixed :
    (version size total n : ℕ) (body b : List ℕ)
    → Fields mem_magic version size total n body b
    → version ≡ 1
    → 0 < size
    → mem_count_chunks total size ≡ n
    → mem_decode b ≡ mem_decode_body version size total n body
unfolding mem_decode
mem_decode_fixed version size total n body b f current pos count = ground arith

mem_encode_fixed :
    (h : MemHeader) (rest : List ℕ)
    → MemWellFormed h
    → let n = mem_num_chunks h in
      mem_encode h ++ rest
      ≡ fixed_part mem_magic h.version h.chunk_size h.total_size n
          (set_bits h.present 0 (zeros (mem_bitmap_len n)) ++ rest)
unfolding mem_encode le
mem_encode_fixed h rest w = rw (take-length h.present (mem_num_chunks h) w.flags)

mem_Fields :
    (h : MemHeader) (body : List ℕ)
    → MemWellFormed h
    → Fields mem_magic h.version h.chunk_size h.total_size
        (mem_num_chunks h)
        body
        (fixed_part mem_magic h.version h.chunk_size h.total_size (mem_num_chunks h) body)
mem_Fields h body w =
    fixed_part-Fields 80 83 77 49 h.version h.chunk_size h.total_size (mem_num_chunks h) body
      (omega (arith, w.current)) w.size_fits w.total_fits w.count_fits

-- Decoding an encoded well-formed memory header, with any bytes after it, gives back that header.
pub mem_decode-mem_encode :
    (h : MemHeader) (rest : List ℕ) → MemWellFormed h → mem_decode (mem_encode h ++ rest) ≡ ok h
mem_decode-mem_encode h rest w =
    let n = mem_num_chunks h in
    let body = set_bits h.present 0 (zeros (mem_bitmap_len n)) ++ rest in
    rw (mem_encode_fixed h rest w) (
      mem_decode_fixed h.version h.chunk_size h.total_size n body _ (mem_Fields h body w) w.current
        w.chunked (unfold mem_num_chunks in refl)
      ∙ mem_decode_body-encode h rest w)

disk_rejects :
    (version size total n : ℕ) (body b : List ℕ)
    → Fields mem_magic version size total n body b
    → Disk.decode b ≡ Disk.err Disk.bad_magic
unfolding Disk.decode
disk_rejects version size total n body b f = ground arith

-- The two formats cannot be confused: the disk decoder refuses every encoded well-formed memory
-- header by its magic.
pub decode-mem_encode :
    (h : MemHeader) (rest : List ℕ)
    → MemWellFormed h
    → Disk.decode (mem_encode h ++ rest) ≡ Disk.err Disk.bad_magic
decode-mem_encode h rest w =
    let n = mem_num_chunks h in
    let body = set_bits h.present 0 (zeros (mem_bitmap_len n)) ++ rest in
    rw (mem_encode_fixed h rest w)
      (disk_rejects h.version h.chunk_size h.total_size n body _ (mem_Fields h body w))
