-- ===== src/Stream/Shared.antt =====
-- agent/internal/diskstream/sharedcache.go: the chunk cache that the sandboxes of a host share. The
-- bytes of the data file are kept by chunk, since chunks do not overlap. `disk` is what survives a
-- crash: the kernel may write a chunk back at any time, and `Sync` writes all of them.
use pandastack_ai.Common.{
  ℕ, zero, suc, ◌+◌, ◌-◌, ◌/◌, Bool, true, false, not, ◌||◌, Option, none, some, List, [], ◌∷◌,
  ◌++◌, length, take, drop, get_or, replicate, Text, text_eq, codes, ltb, ◌==◌, if◌then◌else◌,
}
use pandastack_ai.Stream.Words.{le, read_le}
use pandastack_ai.Stream.Bitmap.{zeros, set_bits, get_bits}
use pandastack_ai.Stream.Disk.{Header, Digest, num_chunks, chunk_range, chunk_sha}

abbrev pub shared_bitmap_magic : Text
shared_bitmap_magic = codes "PSCD"

abbrev pub shared_bitmap_version : ℕ
shared_bitmap_version = 1

abbrev pub shared_bitmap_len : ℕ → ℕ
shared_bitmap_len n = (n + 7) / 8

unfoldable pub encode_shared_bitmap : Header → List Bool → List ℕ
encode_shared_bitmap h present =
    let n = num_chunks h in
    shared_bitmap_magic
    ++ (le 4 shared_bitmap_version
        ++ (le 4 h.chunk_size
            ++ (le 8 h.total_size
                ++ (le 4 n ++ set_bits (take n present) 0 (zeros (shared_bitmap_len n))))))

-- The flags of a file that was read; none for every error.
unfoldable pub read_shared_bitmap : Header → List ℕ → Option (List Bool)
read_shared_bitmap h b =
    let version = read_le 4 (drop 4 b) in
    let size = read_le 4 (drop 8 b) in
    let total = read_le 8 (drop 12 b) in
    let n = read_le 4 (drop 20 b) in
    let body = drop 24 b in
    if ltb (length b) 24
    then none
    else (if not (text_eq (take 4 b) shared_bitmap_magic)
        then none
        else (if not (version == shared_bitmap_version)
            then none
            else (if not (size == h.chunk_size)
                  || (not (total == h.total_size) || not (n == num_chunks h))
                then none
                else (if ltb (length body) (shared_bitmap_len n)
                    then none
                    else some (get_bits (take (shared_bitmap_len n) body) n 0)))))

-- A flush that is under way: the snapshot of the flags, and how many fetches it covers.
pub data Flushing : Type 0 where
  idle : Flushing
  snapped synced : List Bool → ℕ → Flushing

pub record Shared : Type 0 where
  pub present : List Bool
  pub dirty : ℕ
  pub data_file : ℕ → List ℕ
  pub disk : ℕ → List ℕ
  pub bitmap : Option (List ℕ)
  pub flushing : Flushing
  pub hits : ℕ
  pub fills : ℕ
  pub verify_err : ℕ

pub data SharedError : Type 0 where
  out_of_range fetch_failed short_fetch integrity write_failed : SharedError

-- The upstream's answer, and what a write that fails leaves of the chunk.
pub record Upstream : Type 0 where
  pub fetch : ℕ → ℕ → Option (List ℕ)
  pub torn : ℕ → Option (List ℕ)

abbrev pub put_chunk : ℕ → List ℕ → (ℕ → List ℕ) → ℕ → List ℕ
put_chunk i bytes f j = if j == i then bytes else f j

abbrev pub Sha : Type 0
Sha = List ℕ → Digest

abbrev pub digest_ok : Sha → Header → ℕ → List ℕ → Bool
digest_ok sha h idx bytes = elim (chunk_sha h idx) [
  | none ↦ true
  | some want ↦ text_eq (sha bytes) want
]

abbrev pub store_shared :
    Sha → Upstream → Header → ℕ → ℕ → Option (List ℕ) → Shared → Option SharedError × Shared
store_shared sha up h idx len none c = (some fetch_failed, c)
store_shared sha up h idx len (some bytes) c =
    if ltb (length bytes) len
    then (some short_fetch, c)
    else (if not (digest_ok sha h idx bytes)
        then (some integrity, record c { verify_err = c.verify_err + 1 })
        else elim (up.torn idx) [
          | some rest ↦ (some write_failed, record c { data_file = put_chunk idx rest c.data_file })
          | none ↦
              (none, record c { data_file = put_chunk idx bytes c.data_file; fills = c.fills + 1 })
        ])

unfoldable pub fetch_shared : Sha → Upstream → Header → ℕ → Shared → Option SharedError × Shared
fetch_shared sha up h idx c =
    let (off, len) = chunk_range h idx in
    if len == 0 then (none, c) else store_shared sha up h idx len (up.fetch off len) c

abbrev pub mark_present : List Bool → ℕ → List Bool
mark_present [] i = []
mark_present (p ∷ ps) zero = true ∷ ps
mark_present (p ∷ ps) (suc i) = p ∷ mark_present ps i

abbrev pub settle_fetch : ℕ → Option SharedError × Shared → Option SharedError × Shared
settle_fetch idx (some e, c) = (some e, c)
settle_fetch idx (none, c) =
    (none, record c { present = mark_present c.present idx; dirty = c.dirty + 1 })

-- One caller at a time for each chunk: the wait for another's fetch is left out.
unfoldable pub ensure_shared : Sha → Upstream → Header → ℕ → Shared → Option SharedError × Shared
unfolding fetch_shared
ensure_shared sha up h idx c =
    if not (ltb idx (length c.present))
    then (some out_of_range, c)
    else (if get_or c.present idx false
        then (none, record c { hits = c.hits + 1 })
        else settle_fetch idx (fetch_shared sha up h idx c))

-- `Flush`, in its three parts: the snapshot, `Sync`, and the rename of the new bitmap.
unfoldable pub begin_flush : Shared → Shared
begin_flush c = if c.dirty == 0 then c else record c { flushing = snapped c.present c.dirty }

unfoldable pub sync_data : Shared → Shared
sync_data c = elim c.flushing [
  | snapped bits n ↦ record c { disk = c.data_file; flushing = synced bits n }
  | idle ↦ c
  | synced bits n ↦ c
]

unfoldable pub replace_bitmap : Header → Shared → Shared
replace_bitmap h c = elim c.flushing [
  | synced bits n ↦ record c {
    bitmap = some (encode_shared_bitmap h bits);
    dirty = c.dirty - n;
    flushing = idle;
  }
  | idle ↦ c
  | snapped bits n ↦ c
]

-- What `OpenSharedCache` makes of the files; `removed` says that the removal of the bitmap works,
-- whose error is not read, and `sized` that the data file has the image's size.
abbrev pub opened : Header → Bool → Bool → Option (List Bool) → Shared → Shared
opened h removed true (some bits) c = record {
  present = bits;
  dirty = 0;
  data_file = c.disk;
  disk = c.disk;
  bitmap = c.bitmap;
  flushing = idle;
  hits = 0;
  fills = 0;
  verify_err = 0;
}
opened h removed sized bits c = record {
  present = replicate (num_chunks h) false;
  dirty = 0;
  data_file = λ i. zeros (chunk_range h i).1;
  disk = λ i. zeros (chunk_range h i).1;
  bitmap = if removed then none else c.bitmap;
  flushing = idle;
  hits = 0;
  fills = 0;
  verify_err = 0;
}

abbrev pub read_file : Header → Option (List ℕ) → Option (List Bool)
read_file h none = none
read_file h (some b) = read_shared_bitmap h b

unfoldable pub open_shared_cache : Header → Bool → Bool → Shared → Shared
open_shared_cache h removed sized c = opened h removed sized (read_file h c.bitmap) c
