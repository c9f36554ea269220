-- ===== src/Stream/Examples.antt =====
-- Runs of the stream components on a small image, where the hypotheses of their theorems hold.
use pandastack_ai.Common.{
  ℕ, zero, suc, ◌+◌, ◌-◌, ◌^◌, ◌<◌, ◌≡◌, refl, true, false, none, some, List, [], ◌∷◌, ◌++◌, min,
  length, take, Text-discrete, ltb, length-take, length-append, length-replicate, if◌then◌else◌,
  arith,
}
use pandastack_ai.Common.Int.{pos}
use pandastack_ai.Stream.Bitmap.{zeros}
use pandastack_ai.Stream.Disk.{
  Digest, no_digest, Header, ok, num_chunks, count_chunks, chunk_range, chunk_for_offset,
  is_present, chunk_sha, encode, decode,
}
use pandastack_ai.Stream.DiskCodec.{WellFormed, decode-encode}
use pandastack_ai.Stream.Geometry.{Sized, hollow, decode-hollow}
use pandastack_ai.Stream.Build.{build, effective_size, build-WellFormed, elide, elide-build}
use pandastack_ai.Stream.Resolver
use pandastack_ai.Stream.Resolver.{
  Env, Resolver, new, read_at, slice, write_at, visit, visit_all, ensure_chunk, fetch_chunk,
  store_chunk,
}
use pandastack_ai.Stream.Integrity.{Describes, NoCollision, Holds}
use pandastack_ai.Stream.Reads.{read_at-ok}
use pandastack_ai.Stream.Calls
use pandastack_ai.Stream.Calls.{Outside, env_of, reads, CallReach-bytes}
use pandastack_ai.Stream.Honest.{Honest, read_at_honest}
use pandastack_ai.Stream.Mem.{MemHeader, mem_num_chunks, mem_count_chunks}
use pandastack_ai.Scheduler.Examples.{numbers}
use pandastack_ai.Stream.Shared.{
  Shared, Upstream, idle, opened, ensure_shared, begin_flush, sync_data, replace_bitmap,
  open_shared_cache,
}
use pandastack_ai.Stream.Durable.{Fitting}
use pandastack_ai.Stream.Fills.{Sound}
use pandastack_ai.Stream.Crashes.{
  SharedReach-Sound, here, there, ensures, begins_flush, syncs, replaces, reopens,
}
use pandastack_ai.Stream.Egress.{
  Gov, Flight, GovConfig, new_gov_source, begin_read, reserve_locked, waits, here, there, begins,
}
use pandastack_ai.Stream.Budget.{Bounded, started, GovReach-Bounded}
use pandastack_ai.Stream.MemCodec.{MemWellFormed}

-- Five bytes in chunks of four: the second chunk is zero, and absent.
abbrev image : ℕ → ℕ
image off = if ltb off 4 then off + 1 else 0

abbrev header : Header
header = record {
  version = 1;
  chunk_size = 4;
  total_size = 5;
  present = true ∷ false ∷ [];
  block_sha = (1 ∷ 2 ∷ 3 ∷ 4 ∷ []) ∷ no_digest ∷ [];
}

header-Sized : Sized header
header-Sized = record { chunked = omega arith; moderate = omega arith }

-- A digest that is the bytes themselves.
abbrev honest_env : Env
honest_env = record {
  fetch = λ off n. some (slice image off n);
  sha = λ b. b;
  writable = λ _. true;
  written = λ _. 0;
  readable = λ _ _. true;
}

-- A source whose bytes are not the image's.
abbrev lying_env : Env
lying_env = record {
  fetch = λ off n. some (9 ∷ 9 ∷ 9 ∷ 9 ∷ []);
  sha = λ b. b;
  writable = λ _. true;
  written = λ _. 0;
  readable = λ _ _. true;
}

-- No cache file yet.
abbrev no_file : ℕ → ℕ
no_file j = 0

absent_zero :
    (off : ℕ) → off < 5 → is_present header (chunk_for_offset header off) ≡ false → image off ≡ 0
unfolding is_present chunk_for_offset
absent_zero zero lt e = absurd cc
absent_zero (suc zero) lt e = absurd cc
absent_zero (suc (suc zero)) lt e = absurd cc
absent_zero (suc (suc (suc zero))) lt e = absurd cc
absent_zero (suc (suc (suc (suc n)))) lt e = ground arith

digest_of :
    (i : ℕ)
    → is_present header i ≡ true
    → chunk_sha header i ≡ some (slice image (chunk_range header i).0 (chunk_range header i).1)
unfolding is_present chunk_sha chunk_range slice
digest_of zero e = refl
digest_of (suc zero) e = absurd cc
digest_of (suc (suc i)) e = absurd cc

header-Describes : Describes header (λ b. b) image
header-Describes = record { absent = absent_zero; digests = digest_of }

honest-NoCollision : NoCollision honest_env header image
honest-NoCollision i bytes got same = same

empty-Holds :
    Holds honest_env header image header-Sized header-Describes honest-NoCollision
      (new header no_file)
unfolding new
empty-Holds = record { filled = λ off lt m. absurd cc; blank = λ off lt p. ground arith }

all-Honest : Honest honest_env image
all-Honest = record { answers = λ off n. refl; writes = λ off. refl; reads = λ off n. refl }

read_run :
    read_at honest_env header (pos 1) 3 (new header no_file)
    ≡ (Resolver.ok (2 ∷ 3 ∷ 4 ∷ []), (read_at honest_env header (pos 1) 3 (new header no_file)).1)
unfolding read_at new visit_all chunk_for_offset visit ensure_chunk is_present fetch_chunk
    store_chunk chunk_range chunk_sha slice write_at num_chunks count_chunks Text-discrete
read_run = refl

read_at-ok_example :
    (◌<◌ 1 5)
    × (◌≡◌ {A = List ℕ}
        (2 ∷ 3 ∷ 4 ∷ [])
        (slice image 1 (min (1 + 3) 5 - 1) ++ zeros (3 - (min (1 + 3) 5 - 1))))
    × Holds honest_env header image header-Sized header-Describes honest-NoCollision
        (read_at honest_env header (pos 1) 3 (new header no_file)).1
read_at-ok_example =
    read_at-ok honest_env header image header-Sized header-Describes honest-NoCollision 1 3
      (new header no_file) (read_at honest_env header (pos 1) 3 (new header no_file)).1
      (2 ∷ 3 ∷ 4 ∷ []) empty-Holds read_run

-- A read whose write to the cache file breaks off after two bytes, and then one that goes through.
abbrev breaks_off : Outside (λ b. b) header image header-Sized header-Describes
breaks_off = record {
  fetch = λ off n. some (slice image off n);
  writable = λ _. false;
  written = λ _. 2;
  readable = λ _ _. true;
}

abbrev goes_through : Outside (λ b. b) header image header-Sized header-Describes
goes_through = record {
  fetch = λ off n. some (slice image off n);
  writable = λ _. true;
  written = λ _. 0;
  readable = λ _ _. true;
}

abbrev broken_off : Resolver
broken_off =
    (read_at (env_of (λ b. b) header image header-Sized header-Describes breaks_off) header (pos 1)
      3 (new header no_file)).1

second_read :
    read_at
      (env_of (λ b. b) header image header-Sized header-Describes goes_through)
      header
      (pos 1)
      3
      broken_off
    ≡ (
      Resolver.ok (2 ∷ 3 ∷ 4 ∷ []),
      (read_at
          (env_of (λ b. b) header image header-Sized header-Describes goes_through)
          header
          (pos 1)
          3
          broken_off).1,
    )
unfolding read_at new visit_all chunk_for_offset visit ensure_chunk is_present fetch_chunk
    store_chunk chunk_range chunk_sha slice write_at num_chunks count_chunks Text-discrete
second_read = refl

CallReach-bytes_example :
    (◌<◌ 1 5)
    × (◌≡◌ {A = List ℕ}
        (2 ∷ 3 ∷ 4 ∷ [])
        (slice image 1 (min (1 + 3) 5 - 1) ++ zeros (3 - (min (1 + 3) 5 - 1))))
CallReach-bytes_example =
    CallReach-bytes (λ b. b) header image header-Sized header-Describes no_file goes_through 1 3
      (2 ∷ 3 ∷ 4 ∷ []) (λ i lt. refl)
      (Calls.there (Calls.here (new header no_file))
        (reads breaks_off (pos 1) 3 (new header no_file) (λ i bytes got same. same)))
      (λ i bytes got same. same) second_read

read_at_honest_example :
    (bytes : List ℕ) × ((read_at honest_env header (pos 1) 3 (new header no_file)).0
      ≡ Resolver.ok bytes)
read_at_honest_example =
    read_at_honest honest_env header image header-Sized header-Describes all-Honest 1 3
      (new header no_file) (omega arith)

one_below : 1 < num_chunks header
unfolding num_chunks count_chunks
one_below = omega arith

decode-hollow_example :
    (decode (encode (hollow 4096 (2 ^ 64 - 1))) ≡ ok (hollow 4096 (2 ^ 64 - 1)))
    × (num_chunks (hollow 4096 (2 ^ 64 - 1)) ≡ 0)
    × (0 < 2 ^ 64 - 1)
decode-hollow_example = decode-hollow 4096 (2 ^ 64 - 1) (omega arith) (omega arith) (omega arith)

-- A digest of 32 bytes.
abbrev padded : List ℕ → Digest
padded b = take 32 (b ++ zeros 32)

length-padded : (b : List ℕ) → length (padded b) ≡ 32
length-padded b = omega (
  arith,
  length-take 32 (b ++ zeros 32),
  length-append b (zeros 32),
  length-replicate {A = ℕ} 32 0,
)

abbrev bytes : List ℕ
bytes = 1 ∷ 2 ∷ 3 ∷ 4 ∷ 0 ∷ []

built_count : num_chunks (build padded bytes 4) < 2 ^ 32
unfolding num_chunks count_chunks build effective_size
built_count = omega arith

build-WellFormed_example : WellFormed (build padded bytes 4)
build-WellFormed_example =
    build-WellFormed padded bytes 4 length-padded (omega arith) (omega arith) built_count

built-WellFormed : WellFormed (build padded bytes 4)
built-WellFormed =
    build-WellFormed padded bytes 4 length-padded (omega arith) (omega arith) built_count

elide-build_example :
    elide (build padded bytes 4).present (build padded bytes 4).chunk_size bytes ≡ bytes
elide-build_example = elide-build padded bytes 4 (omega arith) (omega arith)

decode-encode_example :
    decode (encode (build padded bytes 4) ++ (7 ∷ [])) ≡ ok (build padded bytes 4)
decode-encode_example = decode-encode (build padded bytes 4) (7 ∷ []) built-WellFormed

abbrev mem : MemHeader
mem = record { version = 1; chunk_size = 4; total_size = 5; present = true ∷ false ∷ [] }

mem-MemWellFormed : MemWellFormed mem
unfolding mem_num_chunks mem_count_chunks
mem-MemWellFormed = record {
  current = refl;
  chunked = omega arith;
  size_fits = omega arith;
  total_fits = omega arith;
  count_fits = omega arith;
  flags = refl;
}

-- Bytes that are not the image's are not written, and the read fails.
lies_fail :
    (read_at lying_env header (pos 1) 3 (new header no_file)).0 ≡ Resolver.err Resolver.integrity
unfolding read_at new visit_all chunk_for_offset visit ensure_chunk is_present fetch_chunk
    store_chunk chunk_range chunk_sha num_chunks count_chunks Text-discrete
lies_fail = refl

-- Two reads of 5 bytes overlap, under a cap of 8.
abbrev gov_config : GovConfig numbers
gov_config = record {
  rate_bytes_per_sec = pos 0;
  burst_bytes = pos 0;
  hard_cap_bytes = pos 8;
  soft_cap_bytes = pos 0;
}

abbrev governed : Gov numbers
governed = new_gov_source numbers gov_config 0

abbrev in_flight : Flight numbers
in_flight = record { gov = (begin_read numbers (pos 0) 0 5 governed).1; pending = 5 ∷ [] }

abbrev both_in_flight : Flight numbers
both_in_flight = record {
  gov = (begin_read numbers (pos 0) 0 5 in_flight.gov).1;
  pending = 5 ∷ 5 ∷ [];
}

let_through : (begin_read numbers (pos 0) 0 5 governed).0 ≡ waits none
unfolding begin_read reserve_locked new_gov_source
let_through = refl

let_through_too : (begin_read numbers (pos 0) 0 5 in_flight.gov).0 ≡ waits none
unfolding begin_read reserve_locked new_gov_source
let_through_too = refl

GovReach-Bounded_example : Bounded numbers 2 5 (pos 8) both_in_flight
GovReach-Bounded_example = GovReach-Bounded numbers 2 5 0 gov_config refl (
    there
      (there (here (started numbers gov_config 0)) (
        begins (started numbers gov_config 0) (pos 0) 0 5 none (omega arith) (omega arith)
          let_through))
      (begins in_flight (pos 0) 0 5 none (omega arith) (omega arith) let_through_too))

-- A fetch of the chunk of one byte of a one-chunk image, a whole flush, and a crash.
abbrev small_header : Header
small_header = record {
  version = 1;
  chunk_size = 4;
  total_size = 1;
  present = true ∷ [];
  block_sha = (7 ∷ []) ∷ [];
}

abbrev one_byte : Upstream
one_byte = record { fetch = λ off n. some (7 ∷ []); torn = λ i. none }

abbrev blank : Shared
blank = record {
  present = [];
  dirty = 0;
  data_file = λ i. [];
  disk = λ i. [];
  bitmap = none;
  flushing = idle;
  hits = 0;
  fills = 0;
  verify_err = 0;
}

abbrev filled : Shared
filled =
    (ensure_shared (λ b. b) one_byte small_header 0 (opened small_header true false none blank)).1

abbrev crashed : Shared
crashed =
    open_shared_cache small_header true true
      (replace_bitmap small_header (sync_data (begin_flush filled)))

small_header-Fitting : Fitting small_header
unfolding num_chunks count_chunks
small_header-Fitting = record {
  size_fits = omega arith;
  total_fits = omega arith;
  count_fits = omega arith;
}

SharedReach-Sound_example : Sound (λ b. b) small_header crashed
SharedReach-Sound_example =
    SharedReach-Sound (λ b. b) small_header blank small_header-Fitting
      (there
        (there
          (there
            (there
              (there (here (opened small_header true false none blank))
                (ensures one_byte 0 (opened small_header true false none blank)))
              (begins_flush filled))
            (syncs (begin_flush filled)))
          (replaces (sync_data (begin_flush filled))))
        (reopens true true (replace_bitmap small_header (sync_data (begin_flush filled)))
          (λ e. refl)))
