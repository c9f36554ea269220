-- ===== src/Stream/Reads.antt =====
-- ReadAt of diskstream/resolver.go: the bytes that it returns, and that it returns them.
use pandastack_ai.Common.{
  if_elim, ℕ, zero, suc, ◌+◌, ◌-◌, ◌/◌, ◌<◌, ◌≤◌, ◌≡◌, refl, sym, ap, ◌∙◌, subst, inl, inr, true,
  List, ◌++◌, min, leb, ◌==◌, arith, Bool-cases,
}
use pandastack_ai.Common.Int.{pos}
use native.Mathlib.Nat.{le-div_iff_mul-le, div-mul-le_self}
use pandastack_ai.Stream.Bitmap.{zeros}
use pandastack_ai.Stream.Disk.{Header, chunk_for_offset, is_present}
use pandastack_ai.Stream.Geometry.{Sized}
use pandastack_ai.Stream.Resolver.{
  Env, Resolver, Result, ok, err, slice, visit, visit_all, chunk_end, answer, read_at,
}
use pandastack_ai.Stream.Slices.{slice_ext}
use pandastack_ai.Stream.Integrity.{Describes, NoCollision, Holds, Ensured, visit-Ensured}

div_mono : (a b c : ℕ) → 0 < c → a ≤ b → a / c ≤ b / c
div_mono a b c p h =
    (le-div_iff_mul-le {k = c} {x = a / c} {y = b} p).1 (omega (arith, div-mul-le_self a c))

chunk_for_offset_mono :
    (h : Header) (a b : ℕ) → Sized h → a ≤ b → chunk_for_offset h a ≤ chunk_for_offset h b
unfolding chunk_for_offset
chunk_for_offset_mono h a b s le = ground (arith, div_mono a b h.chunk_size)

chunk_end_above :
    (h : Header) (j end : ℕ) → Sized h → j < end → chunk_for_offset h j < chunk_end h end
chunk_end_above h j zero s lt = elim lt [ ]
chunk_end_above h j (suc last) s lt = omega (arith, chunk_for_offset_mono h j last s (omega arith))

module _ (env : Env) (h : Header) (image : ℕ → ℕ) (s : Sized h) (d : Describes h env.sha image)
    (free : NoCollision env h image) where
  -- What a run over the chunks `c`, …, `c + k - 1` leaves behind.
  pub record Visited (c k : ℕ) (r : Resolver) (out : Result (Unit {0}) × Resolver) : Type 0 where
    pub holds : Holds env h image s d free out.1
    pub done :
        out.0 ≡ ok tt → (i : ℕ) → c ≤ i → i < c + k → is_present h i ≡ true → out.1.cached i ≡ true
    pub kept : (i : ℕ) → r.cached i ≡ true → out.1.cached i ≡ true

  visit_all-Visited :
      (k c : ℕ) (r : Resolver)
      → Holds env h image s d free r
      → Visited c k r (visit_all env h k c r)
  unfolding visit_all
  visit_all-Visited zero c r v = record {
    holds = v;
    done = λ _ i lo hi. absurd (omega arith);
    kept = λ i m. m;
  }
  visit_all-Visited (suc k) c r v =
      go (visit env h c r) (visit-Ensured env h image s d free c r v)
        (λ r' v'. visit_all-Visited k (c + 1) r' v')
    where
      go :
          (out : Result (Unit {0}) × Resolver)
          → Ensured env h image s d free c r out
          → ((r' : Resolver)
              → Holds env h image s d free r'
              → Visited (c + 1) k r' (visit_all env h k (c + 1) r'))
          → Visited c
              (suc k)
              r
              (elim out.0 [ ok _ ↦ visit_all env h k (c + 1) out.1 | err e ↦ (err e, out.1) ])
      go (ok tt, r') e next =
          let rest = next r' e.holds in
          record {
            holds = rest.holds;
            done = λ fin i lo hi p. elim (Bool-cases (i == c)) [
              | inl here ↦
                  let at : c ≡ i = ground arith in
                  rest.kept i (subst (λ j. r'.cached j ≡ true) at (e.done refl (rw at p)))
              | inr later ↦ rest.done fin i (ground arith) (omega arith) p
            ];
            kept = λ i m. rest.kept i (e.kept i m);
          }
      go (err x, r') e next = record { holds = e.holds; done = λ fin. cc; kept = e.kept }

  -- Where the chunks under a range are visited, the cache holds the image in that range.
  covered :
      (off end : ℕ) (r : Resolver) (out : Result (Unit {0}) × Resolver)
      → end ≤ h.total_size
      → Visited (chunk_for_offset h off) (chunk_end h end - chunk_for_offset h off) r out
      → out.0 ≡ ok tt
      → (j : ℕ) → off ≤ j
      → j < end
      → out.1.cache j ≡ image j
  covered off end r out fits w fin j lo hi =
      let c = chunk_for_offset h j in
      let below : c < chunk_for_offset h off + (chunk_end h end - chunk_for_offset h off) =
        omega (arith, chunk_end_above h j end s hi, chunk_for_offset_mono h off j s lo) in
      elim (Bool-cases (is_present h c)) [
        | inl p ↦
            w.holds.filled j (omega arith)
              (w.done fin c (chunk_for_offset_mono h off j s lo) below p)
        | inr p ↦ w.holds.blank j (omega arith) p ∙ sym (d.absent j (omega arith) p)
      ]

  answer-ok :
      (off end len : ℕ) (r r' : Resolver) (out : Result (Unit {0}) × Resolver) (bytes : List ℕ)
      → off ≤ end
      → end ≤ h.total_size
      → Visited (chunk_for_offset h off) (chunk_end h end - chunk_for_offset h off) r out
      → answer env off end len out ≡ (ok bytes, r')
      → (bytes ≡ slice image off (end - off) ++ zeros (len - (end - off)))
        × Holds env h image s d free r'
  answer-ok off end len r r' (ok tt, q) bytes le fits w e =
      let same =
        slice_ext q.cache image off (end - off)
          (λ j lo hi. covered off end r (ok tt, q) fits w refl j lo (omega arith)) in
      elim (Bool-cases (env.readable off (end - off))) [
        | inr broken ↦ absurd (ground (arith, broken, e))
        | inl reads ↦
            let at : ◌≡◌ {A = Result (List ℕ) × Resolver}
                (ok (slice q.cache off (end - off) ++ zeros (len - (end - off))), q)
                (ok bytes, r') =
              rw reads at e in
            (
              ground (arith, same, at),
              subst (Holds env h image s d free) (ap (λ o. o.1) at) w.holds,
            )
      ]
  answer-ok off end len r r' (err x, q) bytes le fits w e = ground arith

  counted :
      (r : Resolver)
      → Holds env h image s d free r
      → Holds env h image s d free (record r { reads = r.reads + 1 })
  counted r v = record { filled = v.filled; blank = v.blank }

  -- Let the header describe the image, with sizes below 2^62 together, and let no answer of the
  -- chunk source collide with the chunk it stands for. If the cache holds the image and a read
  -- succeeds, the read starts in the image, its bytes are the image's, followed by zeros past the
  -- end of the image, and the cache still holds the image. Otherwise the chunk source may answer
  -- anything.
  pub read_at-ok :
      (off len : ℕ) (r r' : Resolver) (bytes : List ℕ)
      → Holds env h image s d free r
      → read_at env h (pos off) len r ≡ (ok bytes, r')
      → let n = min (off + len) h.total_size - off in
        (off < h.total_size)
        × (bytes ≡ slice image off n ++ zeros (len - n))
        × Holds env h image s d free r'
  unfolding read_at
  read_at-ok off len r r' bytes v e = elim (Bool-cases (leb h.total_size off)) [
    | inl out ↦ ground arith
    | inr inside ↦
        let r₁ = record r { reads = r.reads + 1 } in
        let end = min (off + len) h.total_size in
        let first = chunk_for_offset h off in
        let lt : off < h.total_size = ground arith in
        let w = visit_all-Visited (chunk_end h end - first) first r₁ (counted r v) in
        let a =
          answer-ok off end len r₁ r' _ bytes (omega arith) (omega arith) w (rw inside at e) in
        (lt, a.0, a.1)
  ]

  -- Under the same conditions on the header and the chunk source, a read leaves a cache that holds
  -- the image holding it, also when the read fails.
  pub read_at-Holds :
      (off len : ℕ) (r : Resolver)
      → Holds env h image s d free r
      → Holds env h image s d free (read_at env h (pos off) len r).1
  unfolding read_at
  read_at-Holds off len r v = elim (Bool-cases (leb h.total_size off)) [
    | inl out ↦ rw out (counted r v)
    | inr inside ↦
        let r₁ = record r { reads = r.reads + 1 } in
        let end = min (off + len) h.total_size in
        let first = chunk_for_offset h off in
        rw inside (
          answered off end len _
            (visit_all-Visited (chunk_end h end - first) first r₁ (counted r v)).holds)
  ]
    where
      answered :
          (a b n : ℕ) (out : Result (Unit {0}) × Resolver)
          → Holds env h image s d free out.1
          → Holds env h image s d free (answer env a b n out).1
      answered a b n (ok _, q) k =
          if_elim (λ (o : Result (List ℕ) × Resolver). Holds env h image s d free o.1)
            (env.readable a (b - a)) _ _ (λ _. k) (λ _. k)
      answered a b n (err _, q) k = k
