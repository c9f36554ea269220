-- ===== src/Stream/Fetches.antt =====
-- The fetch of a chunk in diskstream/resolver.go: what it writes to the cache file.
use pandastack_ai.Common.{
  length-take, not, length, if_elim, ltb, ℕ, ◌+◌, ◌<◌, ◌≤◌, ◌≡◌, refl, subst, inl, inr, ◌≢◌, true,
  false, some, List, take, ◌==◌, arith, Bool-cases, Option-cases, ==_iff,
}
use pandastack_ai.Stream.Disk.{Header, chunk_range, chunk_for_offset, is_present, chunk_sha}
use pandastack_ai.Stream.Geometry.{Sized, chunk_for_offset_lem}
use pandastack_ai.Stream.Slices.{length-slice, in_range, write_at-in, write_at-out}
use pandastack_ai.Stream.Resolver.{
  Env, Resolver, Result, ok, write_at, slice, verified, store_chunk, fetch_chunk,
}

-- What ties a header to the image that it was built from.
pub record Describes (h : Header) (sha : List ℕ → List ℕ) (image : ℕ → ℕ) : Type 0 where
  pub absent :
      (off : ℕ) → off < h.total_size → is_present h (chunk_for_offset h off) ≡ false → image off ≡ 0
  pub digests :
      (i : ℕ)
      → is_present h i ≡ true
      → chunk_sha h i ≡ some (sha (slice image (chunk_range h i).0 (chunk_range h i).1))

-- No answer of the chunk source has the digest of the chunk that it stands for and other bytes.
abbrev pub NoCollision : Env → Header → (ℕ → ℕ) → Type 0
NoCollision env h image =
    (i : ℕ) (bytes : List ℕ)
    → let off = (chunk_range h i).0 in
      let len = (chunk_range h i).1 in
      env.fetch off len ≡ some bytes
      → env.sha (take len bytes) ≡ env.sha (slice image off len)
      → take len bytes ≡ slice image off len

-- What one fetch does to the cache.
module _ (env : Env) (h : Header) (image : ℕ → ℕ) (s : Sized h) (d : Describes h env.sha image)
    (free : NoCollision env h image) where
  -- A fetch that succeeds writes the chunk's bytes of the image and nothing else.
  pub record Fetched (idx : ℕ) (r r' : Resolver) : Type 0 where
    pub written :
        (off : ℕ) → off < h.total_size → chunk_for_offset h off ≡ idx → r'.cache off ≡ image off
    pub others : (off : ℕ) → chunk_for_offset h off ≢ idx → r'.cache off ≡ r.cache off
    pub marks : r'.cached ≡ r.cached

  verified_bytes :
      (idx : ℕ) (bytes : List ℕ)
      → is_present h idx ≡ true
      → let off = (chunk_range h idx).0 in
        let len = (chunk_range h idx).1 in
        env.fetch off len ≡ some bytes
        → verified env h idx (take len bytes) ≡ true
        → take len bytes ≡ slice image off len
  verified_bytes idx bytes p got v = free idx bytes got (ground (arith, d.digests idx p))

  written_chunk :
      (idx : ℕ) (r : Resolver)
      → let off = (chunk_range h idx).0 in
        let bytes = slice image off (chunk_range h idx).1 in
        Fetched idx r (record r { cache = write_at r.cache off bytes; fetches = r.fetches + 1 })
  written_chunk idx r =
      let off = (chunk_range h idx).0 in
      let len = (chunk_range h idx).1 in
      record {
        written = λ j lt e.
            let at = chunk_for_offset_lem h j s lt in
            write_at-in r.cache image off len j (subst (λ i. (chunk_range h i).0 ≤ j) e at.1)
              (subst (λ i. j < (chunk_range h i).0 + (chunk_range h i).1) e at.2);
        others = λ j ne. write_at-out r.cache off (slice image off len) j (λ lo hi.
            ne (in_range h idx j s lo (subst (λ n. j < off + n) (length-slice image off len) hi)));
        marks = refl;
      }

  store_chunk-Fetched :
      (idx : ℕ) (bytes : List ℕ) (r r' : Resolver)
      → is_present h idx ≡ true
      → let off = (chunk_range h idx).0 in
        let len = (chunk_range h idx).1 in
        env.fetch off len ≡ some bytes
        → store_chunk env h idx off len (take len bytes) r ≡ (ok tt, r')
        → Fetched idx r r'
  unfolding store_chunk
  store_chunk-Fetched idx bytes r r' p got e =
      let off = (chunk_range h idx).0 in
      let kept = take (chunk_range h idx).1 bytes in
      let v : verified env h idx kept ≡ true = ground arith in
      let same = verified_bytes idx bytes p got v in
      let out : record r { cache = write_at r.cache off kept; fetches = r.fetches + 1 } ≡ r' =
        ground arith in
      subst (Fetched idx r) out (rw same (written_chunk idx r))

  pub fetch_chunk-Fetched :
      (idx : ℕ) (r r' : Resolver)
      → is_present h idx ≡ true
      → fetch_chunk env h idx r ≡ (ok tt, r')
      → Fetched idx r r'
  unfolding fetch_chunk
  fetch_chunk-Fetched idx r r' p e =
      let off = (chunk_range h idx).0 in
      let len = (chunk_range h idx).1 in
      elim (Bool-cases (len == 0)) [
        | inl empty ↦
            let same : r ≡ r' = ground arith in
            subst (Fetched idx r) same (record {
              written = λ j lt at.
                  let inside = chunk_for_offset_lem h j s lt in
                  absurd (
                    omega (
                      arith,
                      (==_iff len 0).0 empty,
                      subst (λ i. (chunk_range h i).0 ≤ j) at inside.1,
                      subst (λ i. j < (chunk_range h i).0 + (chunk_range h i).1) at inside.2,
                    ));
              others = λ j ne. refl;
              marks = refl;
            })
        | inr some_bytes ↦ elim (Option-cases (env.fetch off len)) [
          | inl failed ↦ ground arith
          | inr (bytes, got) ↦ store_chunk-Fetched idx bytes r r' p got (rw (some_bytes, got) at e)
        ]
      ]

  -- A fetch, also one that fails, writes in the range of its chunk only, and marks nothing.
  pub record Confined (idx : ℕ) (r r' : Resolver) : Type 0 where
    pub others : (off : ℕ) → chunk_for_offset h off ≢ idx → r'.cache off ≡ r.cache off
    pub marks : r'.cached ≡ r.cached

  Confined-refl : (idx : ℕ) (r : Resolver) → Confined idx r r
  Confined-refl idx r = record { others = λ off ne. refl; marks = refl }

  write_at-others :
      (idx : ℕ) (cache : ℕ → ℕ) (bytes : List ℕ)
      → length bytes ≤ (chunk_range h idx).1
      → (off : ℕ) → chunk_for_offset h off ≢ idx
      → write_at cache (chunk_range h idx).0 bytes off ≡ cache off
  write_at-others idx cache bytes short off ne =
      write_at-out cache (chunk_range h idx).0 bytes off
        (λ lo hi. ne (in_range h idx off s lo (omega (arith, hi, short))))

  store_chunk-Confined :
      (idx : ℕ) (bytes : List ℕ) (r : Resolver)
      → length bytes ≤ (chunk_range h idx).1
      → Confined idx r (store_chunk env h idx (chunk_range h idx).0 (chunk_range h idx).1 bytes r).1
  unfolding store_chunk
  store_chunk-Confined idx bytes r short =
      let off = (chunk_range h idx).0 in
      if_elim (λ (o : Result (Unit {0}) × Resolver). Confined idx r o.1)
        (ltb (length bytes) (chunk_range h idx).1) _ _ (λ _. Confined-refl idx r)
        (λ _.
          if_elim (λ (o : Result (Unit {0}) × Resolver). Confined idx r o.1)
            (not (verified env h idx bytes)) _ _
            (λ _. record { others = λ j ne. refl; marks = refl })
            (λ _.
              if_elim (λ (o : Result (Unit {0}) × Resolver). Confined idx r o.1)
                (not (env.writable off)) _ _
                (λ _. record {
                  others =
                      write_at-others idx r.cache (take (env.written off) bytes)
                        (omega (arith, short, length-take (env.written off) bytes));
                  marks = refl;
                })
                (λ _. record { others = write_at-others idx r.cache bytes short; marks = refl })))

  pub fetch_chunk-Confined : (idx : ℕ) (r : Resolver) → Confined idx r (fetch_chunk env h idx r).1
  unfolding fetch_chunk
  fetch_chunk-Confined idx r =
      let off = (chunk_range h idx).0 in
      let len = (chunk_range h idx).1 in
      elim (Bool-cases (len == 0)) [
        | inl empty ↦ rw (fetch_chunk, empty) (Confined-refl idx r)
        | inr some_bytes ↦ elim (Option-cases (env.fetch off len)) [
          | inl failed ↦ rw (fetch_chunk, some_bytes, failed) (Confined-refl idx r)
          | inr (bytes, got) ↦
              rw (fetch_chunk, some_bytes, got)
                (store_chunk-Confined idx (take len bytes) r (omega (arith, length-take len bytes)))
        ]
      ]
