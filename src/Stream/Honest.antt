-- ===== src/Stream/Honest.antt =====
-- With a chunk source that returns the image and a cache file that can be read and written, every read
-- inside the image succeeds.
use pandastack_ai.Common.{
  ℕ, zero, suc, ◌+◌, ◌-◌, ◌<◌, ◌≤◌, ◌≡◌, refl, ap, inl, inr, true, false, some, List, [], ◌∷◌, min,
  length, take, text_eq_refl, leb, ◌==◌, arith, Bool-cases,
}
use pandastack_ai.Common.Int.{pos}
use pandastack_ai.Stream.Disk.{Header, num_chunks, chunk_range, chunk_for_offset, is_present}
use pandastack_ai.Stream.Geometry.{Sized, chunk_for_offset_lem}
use pandastack_ai.Stream.Resolver.{
  Env, Resolver, Result, ok, err, slice, store_chunk, fetch_chunk, mark, ensure_chunk, visit,
  visit_all, chunk_end, answer, read_at,
}
use pandastack_ai.Stream.Slices.{length-slice}
use pandastack_ai.Stream.Integrity.{Describes}

pub record Honest (env : Env) (image : ℕ → ℕ) : Type 0 where
  pub answers : (off n : ℕ) → env.fetch off n ≡ some (slice image off n)
  pub writes : (off : ℕ) → env.writable off ≡ true
  pub reads : (off n : ℕ) → env.readable off n ≡ true

take-all {ℓ} : {A : Type ℓ} (xs : List A) (n : ℕ) → length xs ≡ n → take n xs ≡ xs
take-all [] zero h = refl
take-all [] (suc n) h = refl
take-all (x ∷ xs) zero h = absurd (omega arith)
take-all (x ∷ xs) (suc n) h = ap (◌∷◌ x) (take-all xs n (omega arith))

module _ (env : Env) (h : Header) (image : ℕ → ℕ) (s : Sized h) (d : Describes h env.sha image)
    (honest : Honest env image) where
  store_honest :
      (idx : ℕ) (r : Resolver)
      → is_present h idx ≡ true
      → let off = (chunk_range h idx).0 in
        let len = (chunk_range h idx).1 in
        (store_chunk env h idx off len (slice image off len) r).0 ≡ ok tt
  unfolding store_chunk
  store_honest idx r p =
      let off = (chunk_range h idx).0 in
      let len = (chunk_range h idx).1 in
      ground (
        arith,
        d.digests idx p,
        length-slice image off len,
        honest.writes off,
        text_eq_refl (env.sha (slice image off len)),
      )

  fetch_honest :
      (idx : ℕ) (r : Resolver) → is_present h idx ≡ true → (fetch_chunk env h idx r).0 ≡ ok tt
  unfolding fetch_chunk
  fetch_honest idx r p =
      let off = (chunk_range h idx).0 in
      let len = (chunk_range h idx).1 in
      elim (Bool-cases (len == 0)) [
        | inl e ↦ rw e
        | inr e ↦
            rw
              (
                e,
                honest.answers off len,
                take-all (slice image off len) len (length-slice image off len),
              )
              (store_honest idx r p)
      ]

  mark_ok :
      (idx : ℕ) (out : Result (Unit {0}) × Resolver) → out.0 ≡ ok tt → (mark idx out).0 ≡ ok tt
  mark_ok idx (ok u, r) e = refl
  mark_ok idx (err x, r) e = cc

  visit_honest : (c : ℕ) (r : Resolver) → c < num_chunks h → (visit env h c r).0 ≡ ok tt
  unfolding visit ensure_chunk
  visit_honest c r lt = elim (Bool-cases (is_present h c)) [
    | inl p ↦ ground (arith, mark_ok c (fetch_chunk env h c r) (fetch_honest c r p))
    | inr p ↦ rw p
  ]

  visit_all_honest :
      (k c : ℕ) (r : Resolver)
      → ((i : ℕ) → i < k → c + i < num_chunks h)
      → (visit_all env h k c r).0 ≡ ok tt
  unfolding visit_all
  visit_all_honest zero c r room = refl
  visit_all_honest (suc k) c r room =
      rw (visit_honest c r (omega (arith, room 0 (omega arith))), visit_all)
        (visit_all_honest k (c + 1) _ (λ i lt. omega (arith, room (i + 1) (omega arith))))

  chunk_end_bound :
      (end : ℕ) → end ≤ h.total_size → 0 < h.total_size → chunk_end h end ≤ num_chunks h
  chunk_end_bound zero le some_byte = ground (arith, (chunk_for_offset_lem h 0 s some_byte).0)
  chunk_end_bound (suc last) le some_byte = (chunk_for_offset_lem h last s le).0

  answer_ok :
      (off end len : ℕ) (out : Result (Unit {0}) × Resolver)
      → out.0 ≡ ok tt
      → (bytes : List ℕ) × ((answer env off end len out).0 ≡ ok bytes)
  answer_ok off end len (ok u, r) e = rw (honest.reads off (end - off)) (_, refl)
  answer_ok off end len (err x, r) e = absurd (cc)

  -- With a header that describes the image, with sizes below 2^62 together, a chunk source that
  -- answers with the image and a cache file that takes every write and read, each read that starts inside
  -- the image returns bytes, whatever the cache holds.
  pub read_at_honest :
      (off len : ℕ) (r : Resolver)
      → off < h.total_size
      → (bytes : List ℕ) × ((read_at env h (pos off) len r).0 ≡ ok bytes)
  unfolding read_at
  read_at_honest off len r lt =
      let r₁ = record r { reads = r.reads + 1 } in
      let end = min (off + len) h.total_size in
      let first = chunk_for_offset h off in
      let bound = chunk_end_bound end (omega arith) (omega arith) in
      let inside : leb h.total_size off ≡ false = ground arith in
      rw inside (
        answer_ok off end len (visit_all env h (chunk_end h end - first) first r₁)
          (visit_all_honest (chunk_end h end - first) first r₁ (λ i le. omega arith)))
