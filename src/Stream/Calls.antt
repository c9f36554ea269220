-- ===== src/Stream/Calls.antt =====
-- Calls of diskstream/resolver.go one after the other, from `NewResolver` on: reads and prefetches,
-- each with its own answers of the chunk source and the cache file.
use pandastack_ai.Common.{
  ℕ, ◌+◌, ◌-◌, ◌<◌, ◌≡◌, inl, inr, Bool, true, false, Option, List, ◌++◌, min, arith, Bool-cases,
}
use pandastack_ai.Common.Int.{ℤ, pos, negsuc}
use pandastack_ai.Stream.Bitmap.{zeros}
use pandastack_ai.Stream.Disk.{Header, Digest, chunk_for_offset, is_present}
use pandastack_ai.Stream.Geometry.{Sized}
use pandastack_ai.Stream.Resolver.{Env, Resolver, new, ok, slice, read_at, prefetch_chunk}
use pandastack_ai.Stream.Integrity.{Describes, NoCollision, Holds, ensure_chunk-Ensured}
use pandastack_ai.Stream.Reads.{read_at-ok, read_at-Holds}

-- The cache holds the image in the chunks that it has, and zeros in the absent ones.
record Kept (h : Header) (image : ℕ → ℕ) (r : Resolver) : Type 0 where
  pub filled :
      (off : ℕ)
      → off < h.total_size
      → r.cached (chunk_for_offset h off) ≡ true
      → r.cache off ≡ image off
  pub blank :
      (off : ℕ)
      → off < h.total_size
      → is_present h (chunk_for_offset h off) ≡ false
      → r.cache off ≡ 0

module _ (sha : List ℕ → Digest) (h : Header) (image : ℕ → ℕ) (s : Sized h)
    (d : Describes h sha image) where
  -- The answers of a call; they may be any, but for a collision of digests.
  pub record Outside : Type 0 where
    pub fetch : ℕ → ℕ → Option (List ℕ)
    pub writable : ℕ → Bool
    pub written : ℕ → ℕ
    pub readable : ℕ → ℕ → Bool

  abbrev pub env_of : Outside → Env
  env_of o = record {
    fetch = o.fetch;
    sha = sha;
    writable = o.writable;
    written = o.written;
    readable = o.readable;
  }

  pub data CallStep : Resolver → Resolver → Type 0 where
    reads :
        (o : Outside) (off : ℤ) (len : ℕ) (r : Resolver)
        → NoCollision (env_of o) h image
        → CallStep r (read_at (env_of o) h off len r).1
    prefetches :
        (o : Outside) (idx : ℕ) (r : Resolver)
        → NoCollision (env_of o) h image
        → CallStep r (prefetch_chunk (env_of o) h idx r).1

  pub data CallReach : Resolver → Resolver → Type 0 where
    here : (r : Resolver) → CallReach r r
    there : {p q r : Resolver} → CallReach p q → CallStep q r → CallReach p r

  holds :
      (o : Outside) (free : NoCollision (env_of o) h image) (r : Resolver)
      → Kept h image r
      → Holds (env_of o) h image s d free r
  holds o free r k = record { filled = k.filled; blank = k.blank }

  kept :
      (o : Outside) (free : NoCollision (env_of o) h image) (r : Resolver)
      → Holds (env_of o) h image s d free r
      → Kept h image r
  kept o free r v = record { filled = v.filled; blank = v.blank }

  CallStep-Kept : {q r : Resolver} → CallStep q r → Kept h image q → Kept h image r
  unfolding read_at prefetch_chunk
  CallStep-Kept (reads o (pos off) len r free) k =
      kept o free _ (read_at-Holds (env_of o) h image s d free off len r (holds o free r k))
  CallStep-Kept (reads o (negsuc n) len r free) k = record { filled = k.filled; blank = k.blank }
  CallStep-Kept (prefetches o idx r free) k = elim (Bool-cases (is_present h idx)) [
    | inr absent ↦ rw (prefetch_chunk, absent) k
    | inl present ↦
        rw (prefetch_chunk, present)
          (kept o free _
            (ensure_chunk-Ensured (env_of o) h image s d free idx r present
              (holds o free r k)).holds)
  ]

  new-Kept :
      (file : ℕ → ℕ) → ((off : ℕ) → off < h.total_size → file off ≡ 0) → Kept h image (new h file)
  unfolding new
  new-Kept file fresh = record {
    filled = λ off lt m. absurd cc;
    blank = λ off lt m. ground (arith, fresh off lt);
  }

  CallReach-Kept : {q r : Resolver} → CallReach q r → Kept h image q → Kept h image r
  CallReach-Kept (here r) k = k
  CallReach-Kept (there reach step) k = CallStep-Kept step (CallReach-Kept reach k)

  -- Let the header describe the image, with sizes below 2^62 together, and let the resolver be new,
  -- over a cache file that is empty or zero. After any reads and prefetches, which may fail anywhere,
  -- also in the middle of a write to the cache file, a read that succeeds starts in the image, and
  -- its bytes are the image's, followed by zeros past its end. The chunk source may answer anything,
  -- other at every call, but for a collision of digests.
  pub CallReach-bytes :
      (file : ℕ → ℕ) (o : Outside) (off len : ℕ) {r r' : Resolver} (bytes : List ℕ)
      → ((i : ℕ) → i < h.total_size → file i ≡ 0)
      → CallReach (new h file) r
      → NoCollision (env_of o) h image
      → read_at (env_of o) h (pos off) len r ≡ (ok bytes, r')
      → let n = min (off + len) h.total_size - off in
        (off < h.total_size) × (bytes ≡ slice image off n ++ zeros (len - n))
  CallReach-bytes file o off len {r} {r'} bytes fresh reach free e =
      let k = CallReach-Kept reach (new-Kept file fresh) in
      let a = read_at-ok (env_of o) h image s d free off len r r' bytes (holds o free r k) e in
      (a.0, a.1)
