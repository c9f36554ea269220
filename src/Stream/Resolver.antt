-- ===== src/Stream/Resolver.antt =====
-- agent/internal/diskstream/resolver.go: reads of an image through a local cache. The cache file is
-- a function from offsets to bytes, zero where nothing was written. The chunk source, SHA-256 and
-- whether the cache file can be read and written are parameters. Single-flight waiting on another goroutine's fetch is not
-- modelled: calls are taken one after the other.
use pandastack_ai.Common.{
  ℕ, zero, suc, ◌+◌, ◌-◌, Bool, true, false, not, ◌&&◌, Option, none, some, List, [], ◌∷◌, ◌++◌,
  min, length, take, get_or, text_eq, ltb, leb, ◌==◌, if◌then◌else◌,
}
use pandastack_ai.Common.Int.{ℤ, pos, negsuc}
use pandastack_ai.Stream.Bitmap.{zeros}
use pandastack_ai.Stream.Disk.{
  Digest, Header, num_chunks, chunk_range, chunk_for_offset, is_present, chunk_sha,
}

pub record Env : Type 0 where
  -- The bytes that a read of the source at an offset, of a length, fills in; `none` is an error.
  pub fetch : ℕ → ℕ → Option (List ℕ)
  pub sha : List ℕ → Digest
  -- Whether a write of the cache file at an offset goes through.
  pub writable : ℕ → Bool
  -- How many bytes one that does not go through has written.
  pub written : ℕ → ℕ
  -- Whether a read of the cache file at an offset, of a length, goes through.
  pub readable : ℕ → ℕ → Bool

pub record Resolver : Type 0 where
  pub cache : ℕ → ℕ
  pub cached : ℕ → Bool
  pub reads : ℕ
  pub fetches : ℕ
  pub zero_fill : ℕ
  pub verify_err : ℕ

pub data Error : Type 0 where
  out_of_range chunk_range_error fetch_failed short_fetch integrity write_failed read_failed : Error

pub data Result {ℓ} (A : Type ℓ) : Type ℓ where
  ok : A → Result A
  err : Error → Result A

-- NewResolver: a file that is there is cut or extended to the size of the image, and keeps its
-- bytes; `file` has them, and zeros past its end and where there is no file.
unfoldable pub new : Header → (ℕ → ℕ) → Resolver
new h file = record {
  cache = λ j. if ltb j h.total_size then file j else 0;
  cached = λ _. false;
  reads = 0;
  fetches = 0;
  zero_fill = 0;
  verify_err = 0;
}

-- WriteAt of the cache file.
unfoldable pub write_at : (ℕ → ℕ) → ℕ → List ℕ → ℕ → ℕ
write_at cache off bytes j =
    if leb off j && ltb j (off + length bytes) then get_or bytes (j - off) 0 else cache j

-- The bytes of the cache file from an offset on.
unfoldable pub slice : (ℕ → ℕ) → ℕ → ℕ → List ℕ
slice cache off zero = []
slice cache off (suc n) = cache off ∷ slice cache (off + 1) n

abbrev pub verified : Env → Header → ℕ → List ℕ → Bool
verified env h idx bytes = elim (chunk_sha h idx) [
  | none ↦ true
  | some want ↦ text_eq (env.sha bytes) want
]

-- A chunk that was read from the source is checked, then written.
unfoldable pub store_chunk :
    Env → Header → ℕ → ℕ → ℕ → List ℕ → Resolver → Result (Unit {0}) × Resolver
store_chunk env h idx off len bytes r =
    if ltb (length bytes) len
    then (err short_fetch, r)
    else if not (verified env h idx bytes)
    then (err integrity, record r { verify_err = r.verify_err + 1 })
    else if not (env.writable off)
    then (
      err write_failed,
      record r { cache = write_at r.cache off (take (env.written off) bytes) },
    )
    else (ok tt, record r { cache = write_at r.cache off bytes; fetches = r.fetches + 1 })

unfoldable pub fetch_chunk : Env → Header → ℕ → Resolver → Result (Unit {0}) × Resolver
fetch_chunk env h idx r =
    let off = (chunk_range h idx).0 in
    let len = (chunk_range h idx).1 in
    if len == 0 then (ok tt, r) else elim (env.fetch off len) [
      | none ↦ (err fetch_failed, r)
      | some bytes ↦ store_chunk env h idx off len (take len bytes) r
    ]

abbrev pub mark : ℕ → Result (Unit {0}) × Resolver → Result (Unit {0}) × Resolver
mark idx (ok u, r) = (ok u, record r { cached = λ j. if j == idx then true else r.cached j })
mark idx (err e, r) = (err e, r)

unfoldable pub ensure_chunk : Env → Header → ℕ → Resolver → Result (Unit {0}) × Resolver
ensure_chunk env h idx r =
    if leb (num_chunks h) idx
    then (err chunk_range_error, r)
    else if r.cached idx
    then (ok tt, r)
    else mark idx (fetch_chunk env h idx r)

-- EnsureChunk, for the prefetcher.
unfoldable pub prefetch_chunk : Env → Header → ℕ → Resolver → Result (Unit {0}) × Resolver
prefetch_chunk env h idx r = if is_present h idx then ensure_chunk env h idx r else (ok tt, r)

-- One round of the loop of ReadAt.
unfoldable pub visit : Env → Header → ℕ → Resolver → Result (Unit {0}) × Resolver
visit env h c r =
    if is_present h c
    then ensure_chunk env h c r
    else (ok tt, record r { zero_fill = r.zero_fill + 1 })

-- The loop from chunk `c` on, for `k` chunks.
unfoldable pub visit_all : Env → Header → ℕ → ℕ → Resolver → Result (Unit {0}) × Resolver
visit_all env h zero c r = (ok tt, r)
visit_all env h (suc k) c r =
    let (res, r') = visit env h c r in
    elim res [ ok _ ↦ visit_all env h k (c + 1) r' | err e ↦ (err e, r') ]

-- One past the chunk of the last byte; Go's division takes -1 / size to 0 unless the size is 1.
abbrev pub chunk_end : Header → ℕ → ℕ
chunk_end h zero = if h.chunk_size == 1 then 0 else 1
chunk_end h (suc last) = suc (chunk_for_offset h last)

-- The read of the cache file, and zeros past the end of the image.
abbrev pub answer : Env → ℕ → ℕ → ℕ → Result (Unit {0}) × Resolver → Result (List ℕ) × Resolver
answer env off end len (ok _, r) =
    if env.readable off (end - off)
    then (ok (slice r.cache off (end - off) ++ zeros (len - (end - off))), r)
    else (err read_failed, r)
answer env off end len (err e, r) = (err e, r)

-- The bytes with which ReadAt fills a buffer of length `len`.
unfoldable pub read_at : Env → Header → ℤ → ℕ → Resolver → Result (List ℕ) × Resolver
read_at env h (negsuc n) len r = (err out_of_range, record r { reads = r.reads + 1 })
read_at env h (pos off) len r =
    let r' = record r { reads = r.reads + 1 } in
    let end = min (off + len) h.total_size in
    let first = chunk_for_offset h off in
    if leb h.total_size off
    then (err out_of_range, r')
    else answer env off end len (visit_all env h (chunk_end h end - first) first r')

-- The chunks in the cache, in ascending order.
cached_from : (ℕ → Bool) → ℕ → ℕ → List ℕ
cached_from cached zero i = []
cached_from cached (suc k) i =
    let rest = cached_from cached k (i + 1) in if cached i then i ∷ rest else rest

unfoldable pub fetched_chunks : Header → Resolver → List ℕ
unfolding cached_from
fetched_chunks h r = cached_from r.cached (num_chunks h) 0
