-- ===== src/Stream/DiskCodec.antt =====
-- The codec of diskstream/header.go: decoding gives back the header that was encoded.
use mathlib.Core.List.{append_assoc}
use pandastack_ai.Common.{
  ℕ, zero, suc, ◌*◌, ◌^◌, ◌<◌, ◌≡◌, refl, ap, ◌∙◌, Bool, true, false, List, [], ◌∷◌, ◌++◌, length,
  take, drop, arith, length-append, take-append_length, drop-append_length, length-replicate,
}
use pandastack_ai.Stream.Words.{le, read_le, fixed_part, Fields, fixed_part-Fields}
use pandastack_ai.Stream.Bitmap.{
  zeros, set_bits, get_bits, get_bits-encode, length-get_bits, length-set_bits,
}
use pandastack_ai.Stream.Disk.{
  Digest, no_digest, Header, ok, magic, count_chunks, num_chunks, count_present, bitmap_len,
  put_digests, encode, get_digests, decode_body, decode,
}

-- A chunk has a digest of 32 bytes, and an absent chunk has the zero digest.
abbrev pub Digests : List Bool → List Digest → Type 0
Digests [] [] = Unit
Digests [] (d ∷ ds) = ⊥
Digests (p ∷ ps) [] = ⊥
Digests (true ∷ ps) (d ∷ ds) = (length d ≡ 32) × Digests ps ds
Digests (false ∷ ps) (d ∷ ds) = (d ≡ no_digest) × Digests ps ds

pub record WellFormed (h : Header) : Type 0 where
  pub current : h.version ≡ 1
  pub chunked : 0 < h.chunk_size
  pub size_fits : h.chunk_size < 2 ^ 32
  pub total_fits : h.total_size < 2 ^ 64
  pub count_fits : num_chunks h < 2 ^ 32
  pub flags : length h.present ≡ num_chunks h
  pub digests : Digests h.present h.block_sha

length-put_digests :
    (ps : List Bool) (ds : List Digest)
    → Digests ps ds
    → length (put_digests ps ds) ≡ count_present ps * 32
unfolding put_digests count_present
length-put_digests [] [] h = refl
length-put_digests [] (d ∷ ds) h = absurd h
length-put_digests (p ∷ ps) [] h = absurd h
length-put_digests (true ∷ ps) (d ∷ ds) h =
    omega (arith, length-append d (put_digests ps ds), length-put_digests ps ds h.1, h.0)
length-put_digests (false ∷ ps) (d ∷ ds) h = length-put_digests ps ds h.1

get_digests-put_digests :
    (ps : List Bool) (ds : List Digest) (rest : List ℕ)
    → Digests ps ds
    → get_digests ps (put_digests ps ds ++ rest) ≡ ds
unfolding put_digests get_digests
get_digests-put_digests [] [] rest h = refl
get_digests-put_digests [] (d ∷ ds) rest h = absurd h
get_digests-put_digests (p ∷ ps) [] rest h = absurd h
get_digests-put_digests (true ∷ ps) (d ∷ ds) rest h = rw (
  append_assoc d (put_digests ps ds) rest,
  take-append_length d (put_digests ps ds ++ rest) 32 h.0,
  drop-append_length d (put_digests ps ds ++ rest) 32 h.0,
  get_digests-put_digests ps ds rest h.1,
)
get_digests-put_digests (false ∷ ps) (d ∷ ds) rest h =
    cc (h.0, get_digests-put_digests ps ds rest h.1)

take-length {ℓ} : {A : Type ℓ} (xs : List A) (n : ℕ) → length xs ≡ n → take n xs ≡ xs
take-length [] zero h = refl
take-length [] (suc n) h = refl
take-length (x ∷ xs) zero h = absurd (omega arith)
take-length (x ∷ xs) (suc n) h = ap (◌∷◌ x) (take-length xs n (omega arith))

decode_body-encode :
    (h : Header) (rest : List ℕ)
    → WellFormed h
    → let n = num_chunks h in
      decode_body h.version h.chunk_size h.total_size n
        ((set_bits h.present 0 (zeros (bitmap_len n)) ++ put_digests h.present h.block_sha) ++ rest)
      ≡ ok h
unfolding decode_body bitmap_len
decode_body-encode h rest w =
    let n = num_chunks h in
    let bitmap = set_bits h.present 0 (zeros (bitmap_len n)) in
    let digests = put_digests h.present h.block_sha in
    let room : length bitmap ≡ bitmap_len n =
      length-set_bits h.present 0 (zeros (bitmap_len n))
      ∙ length-replicate {A = ℕ} (bitmap_len n) 0 in
    let flags : get_bits bitmap n 0 ≡ h.present =
      rw (← w.flags) (get_bits-encode h.present (bitmap_len (length h.present)) (omega arith)) in
    rw
      (
        append_assoc bitmap digests rest,
        take-append_length bitmap (digests ++ rest) (bitmap_len n) room,
        drop-append_length bitmap (digests ++ rest) (bitmap_len n) room,
        flags,
        get_digests-put_digests h.present h.block_sha rest w.digests,
      )
      (ground (
        arith,
        length-append bitmap (digests ++ rest),
        length-append digests rest,
        length-put_digests h.present h.block_sha w.digests,
      ))

decode_fixed :
    (version size total n : ℕ) (body b : List ℕ)
    → Fields magic version size total n body b
    → version ≡ 1
    → 0 < size
    → count_chunks total size ≡ n
    → decode b ≡ decode_body version size total n body
unfolding decode
decode_fixed version size total n body b f current pos count = ground arith

encode_fixed :
    (h : Header) (rest : List ℕ)
    → WellFormed h
    → let n = num_chunks h in
      encode h ++ rest
      ≡ fixed_part magic h.version h.chunk_size h.total_size n (
          (set_bits h.present 0 (zeros (bitmap_len n)) ++ put_digests h.present h.block_sha)
          ++ rest)
unfolding encode le
encode_fixed h rest w = rw (take-length h.present (num_chunks h) w.flags)

-- Decoding an encoded well-formed header, with any bytes after it, gives back that header.
pub decode-encode : (h : Header) (rest : List ℕ) → WellFormed h → decode (encode h ++ rest) ≡ ok h
decode-encode h rest w =
    let n = num_chunks h in
    let body =
      (set_bits h.present 0 (zeros (bitmap_len n)) ++ put_digests h.present h.block_sha) ++ rest in
    let fields =
      fixed_part-Fields 80 83 68 49 h.version h.chunk_size h.total_size n body
        (omega (arith, w.current)) w.size_fits w.total_fits w.count_fits in
    rw (encode_fixed h rest w) (
      decode_fixed h.version h.chunk_size h.total_size n body _ fields w.current w.chunked
        (unfold num_chunks in refl)
      ∙ decode_body-encode h rest w)

-- What DecodeHeader checks of a header.
pub record Accepted (h : Header) : Type 0 where
  pub current : h.version ≡ 1
  pub chunked : 0 < h.chunk_size
  pub flags : length h.present ≡ num_chunks h
  pub digests : length h.block_sha ≡ num_chunks h

length-get_digests : (ps : List Bool) (b : List ℕ) → length (get_digests ps b) ≡ length ps
unfolding get_digests
length-get_digests [] b = refl
length-get_digests (true ∷ ps) b = ap suc (length-get_digests ps (drop 32 b))
length-get_digests (false ∷ ps) b = ap suc (length-get_digests ps b)

decode_body-Accepted :
    (version size total n : ℕ) (b : List ℕ) (h : Header)
    → version ≡ 1
    → 0 < size
    → count_chunks total size ≡ n
    → decode_body version size total n b ≡ ok h
    → Accepted h
unfolding decode_body num_chunks
decode_body-Accepted version size total n b h v pos count e =
    let flags = get_bits (take (bitmap_len n) b) n 0 in
    let rest = drop (bitmap_len n) b in
    ground (arith, length-get_bits (take (bitmap_len n) b) n 0, length-get_digests flags rest)

-- A header that is accepted is of the current version, has a chunk size, and has one flag and one
-- digest for each chunk; whether it was encoded by this program or not.
pub decode-Accepted : (b : List ℕ) (h : Header) → decode b ≡ ok h → Accepted h
unfolding decode
decode-Accepted b h e =
    let version = read_le 4 (drop 4 b) in
    let size = read_le 4 (drop 8 b) in
    let total = read_le 8 (drop 12 b) in
    let n = read_le 4 (drop 20 b) in
    ground (arith, decode_body-Accepted version size total n (drop 24 b) h)
