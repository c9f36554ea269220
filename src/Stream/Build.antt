-- ===== src/Stream/Build.antt =====
-- `BuildHeader` of diskstream/header.go over the bytes of an image, with SHA-256 as a parameter.
-- Failures to open, stat or read the file, which return no header, are not modelled.
use pandastack_ai.Common.{
  ℕ, zero, suc, ◌*◌, ◌%◌, ◌^◌, ◌<◌, ◌≤◌, ◌≡◌, refl, ap, inl, inr, Bool, false, ◌||◌, not, List, [],
  ◌∷◌, ◌++◌, length, take, drop, ◌==◌, arith, sym, length-drop, take-append-drop, Bool-cases,
  if◌then◌else◌,
}
use pandastack_ai.Stream.Bitmap.{zeros}
use pandastack_ai.Stream.Disk.{
  Digest, no_digest, Header, header_version, default_chunk_size, count_chunks, num_chunks,
}
use pandastack_ai.Stream.DiskCodec.{WellFormed, Digests}

unfoldable pub any_nonzero : List ℕ → Bool
any_nonzero [] = false
any_nonzero (c ∷ cs) = not (c == 0) || any_nonzero cs

-- The loop over `n` chunks; each round reads a chunk, the last one perhaps a short one.
unfoldable pub scan_flags : ℕ → ℕ → List ℕ → List Bool
scan_flags zero size rest = []
scan_flags (suc n) size rest = any_nonzero (take size rest) ∷ scan_flags n size (drop size rest)

unfoldable pub scan_digests : (List ℕ → Digest) → ℕ → ℕ → List ℕ → List Digest
scan_digests sha zero size rest = []
scan_digests sha (suc n) size rest =
    (if any_nonzero (take size rest) then sha (take size rest) else no_digest)
    ∷ scan_digests sha n size (drop size rest)

-- A chunk size of zero stands for every one that is not positive.
unfoldable pub effective_size : ℕ → ℕ
effective_size size = if size == 0 then default_chunk_size else size

unfoldable pub build : (List ℕ → Digest) → List ℕ → ℕ → Header
build sha image size =
    let step = effective_size size in
    let n = count_chunks (length image % 2 ^ 64) (step % 2 ^ 32) in
    record {
      version = header_version;
      chunk_size = step % 2 ^ 32;
      total_size = length image % 2 ^ 64;
      present = scan_flags n step image;
      block_sha = scan_digests sha n step image;
    }

length-scan_flags : (n size : ℕ) (rest : List ℕ) → length (scan_flags n size rest) ≡ n
unfolding scan_flags
length-scan_flags zero size rest = refl
length-scan_flags (suc n) size rest = ap suc (length-scan_flags n size (drop size rest))

scan-Digests :
    (sha : List ℕ → Digest) (n size : ℕ) (rest : List ℕ)
    → ((b : List ℕ) → length (sha b) ≡ 32)
    → Digests (scan_flags n size rest) (scan_digests sha n size rest)
unfolding scan_flags scan_digests
scan-Digests sha zero size rest h = tt
scan-Digests sha (suc n) size rest h = elim (Bool-cases (any_nonzero (take size rest))) [
  | inl e ↦ rw e (h (take size rest), scan-Digests sha n size (drop size rest) h)
  | inr e ↦ rw e (refl, scan-Digests sha n size (drop size rest) h)
]

-- With digests of 32 bytes, the header that is built can be written and read: its sizes fit their
-- words if the image and the chunk size are below 2^62 and 2^32 and there are less than 2^32
-- chunks.
pub build-WellFormed :
    (sha : List ℕ → Digest) (image : List ℕ) (size : ℕ)
    → ((b : List ℕ) → length (sha b) ≡ 32)
    → length image < 2 ^ 62
    → size < 2 ^ 32
    → num_chunks (build sha image size) < 2 ^ 32
    → WellFormed (build sha image size)
unfolding build num_chunks effective_size
build-WellFormed sha image size h small fits count = record {
  current = refl;
  chunked = ground arith;
  size_fits = omega arith;
  total_fits = omega arith;
  count_fits = count;
  flags = length-scan_flags _ _ image;
  digests = scan-Digests sha _ _ image h;
}

-- What a restore makes of the image: chunks with a flag as they are, the others as zeros.
unfoldable pub elide : List Bool → ℕ → List ℕ → List ℕ
elide [] size image = []
elide (p ∷ ps) size image =
    (if p then take size image else zeros (length (take size image)))
    ++ elide ps size (drop size image)

zeros_of_none : (b : List ℕ) → any_nonzero b ≡ false → zeros (length b) ≡ b
unfolding any_nonzero
zeros_of_none [] h = refl
zeros_of_none (c ∷ cs) h = ground (arith, zeros_of_none cs)

take-nil {ℓ} : {A : Type ℓ} (n : ℕ) (xs : List A) → length xs ≡ 0 → xs ≡ []
take-nil n [] h = refl
take-nil n (x ∷ xs) h = absurd (omega arith)

elide-scan_flags :
    (n size : ℕ) (image : List ℕ)
    → length image ≤ n * size
    → elide (scan_flags n size image) size image ≡ image
unfolding elide scan_flags
elide-scan_flags zero size image h = sym (take-nil 0 image (omega arith))
elide-scan_flags (suc n) size image h =
    let rest =
      elide-scan_flags n size (drop size image) (rw (length-drop size image) (omega arith)) in
    elim (Bool-cases (any_nonzero (take size image))) [
      | inl e ↦ rw (e, rest) (take-append-drop size image)
      | inr e ↦ rw (e, rest, zeros_of_none (take size image) e) (take-append-drop size image)
    ]

effective_bounds :
    (size : ℕ) → size < 2 ^ 32 → (0 < effective_size size) × (effective_size size < 2 ^ 32)
unfolding effective_size
effective_bounds size h = ground arith

count_covers :
    (total size : ℕ)
    → 0 < size
    → total < 2 ^ 62
    → size < 2 ^ 32
    → total ≤ count_chunks total size * size
unfolding count_chunks
count_covers total size pos small fits = ground arith

-- For an image below 2^62 bytes and a chunk size below 2^32, leaving out the chunks that the
-- header calls absent loses nothing: filling them with zeros gives back the image.
pub elide-build :
    (sha : List ℕ → Digest) (image : List ℕ) (size : ℕ)
    → length image < 2 ^ 62
    → size < 2 ^ 32
    → elide (build sha image size).present (build sha image size).chunk_size image ≡ image
unfolding build
elide-build sha image size small fits =
    let step = effective_size size in
    let (pos, lt) = effective_bounds size fits in
    let same_total : length image % 2 ^ 64 ≡ length image = omega arith in
    let same_step : step % 2 ^ 32 ≡ step = omega arith in
    rw (same_total, same_step)
      (elide-scan_flags (count_chunks (length image) step) step image
        (count_covers (length image) step pos small lt))
