-- ===== src/Stream/Integrity.antt =====
-- Reads through the resolver return the bytes of the image that the header was built from, whatever
-- the chunk source answers.
use pandastack_ai.Common.{
  ℕ, ◌<◌, ◌≡◌, refl, sym, ap, ◌∙◌, subst, inl, inr, true, false, leb, ◌==◌, arith, Bool-cases,
  ==_iff,
}
use pandastack_ai.Stream.Disk.{Header, num_chunks, chunk_for_offset, is_present}
use pandastack_ai.Stream.Geometry.{Sized}
use pandastack_ai.Stream.Resolver.{
  Env, Resolver, Result, ok, err, fetch_chunk, mark, ensure_chunk, visit,
}
pub use pandastack_ai.Stream.Fetches.{Describes, NoCollision}
use pandastack_ai.Stream.Fetches.{Confined, fetch_chunk-Fetched, fetch_chunk-Confined}

-- What holds of the cache between two calls.
module _ (env : Env) (h : Header) (image : ℕ → ℕ) (s : Sized h) (d : Describes h env.sha image)
    (free : NoCollision env h image) where
  -- The cache holds the image in the chunks that it has, and zeros in the absent ones.
  pub record Holds (r : Resolver) : Type 0 where
    pub filled :
        (off : ℕ)
        → off < h.total_size
        → r.cached (chunk_for_offset h off) ≡ true
        → r.cache off ≡ image off
    pub blank :
        (off : ℕ)
        → off < h.total_size
        → is_present h (chunk_for_offset h off) ≡ false
        → r.cache off ≡ 0

  -- What a step that makes chunk `idx` available leaves behind.
  pub record Ensured (idx : ℕ) (r : Resolver) (out : Result (Unit {0}) × Resolver) : Type 0 where
    pub holds : Holds out.1
    pub done : out.0 ≡ ok tt → is_present h idx ≡ true → out.1.cached idx ≡ true
    pub kept : (c : ℕ) → r.cached c ≡ true → out.1.cached c ≡ true

  Holds-same : (r r' : Resolver) → r'.cache ≡ r.cache → r'.cached ≡ r.cached → Holds r → Holds r'
  Holds-same r r' e f v = record {
    filled = λ off lt m.
        ap (λ c. c off) e ∙ v.filled off lt (sym (ap (λ c. c (chunk_for_offset h off)) f) ∙ m);
    blank = λ off lt m. ap (λ c. c off) e ∙ v.blank off lt m;
  }

  mark-Ensured :
      (idx : ℕ) (r : Resolver) (res : Result (Unit {0})) (r' : Resolver)
      → is_present h idx ≡ true
      → r.cached idx ≡ false
      → fetch_chunk env h idx r ≡ (res, r')
      → Holds r
      → Ensured idx r (mark idx (res, r'))
  mark-Ensured idx r (ok tt) r' p new e v =
      let f = fetch_chunk-Fetched env h image s d free idx r r' p e in
      record {
        holds = record {
          filled = λ off lt m. elim (Bool-cases (chunk_for_offset h off == idx)) [
            | inl here ↦ f.written off lt ((==_iff _ _).0 here)
            | inr there ↦
                f.others off (ground arith)
                ∙ v.filled off lt (ground (arith, ap (λ c. c (chunk_for_offset h off)) f.marks))
          ];
          blank = λ off lt m.
              f.others off (λ c. ground (arith, ap (is_present h) c)) ∙ v.blank off lt m;
        };
        done = λ _ _. ground arith;
        kept = λ c m. ground (arith, ap (λ q. q c) f.marks);
      }
  mark-Ensured idx r (err x) r' p new e v =
      let c : Confined env h image s d free idx r r' =
        subst (Confined env h image s d free idx r) (ap (λ o. o.1) e)
          (fetch_chunk-Confined env h image s d free idx r) in
      let unmarked : r'.cached idx ≡ false = ap (λ q. q idx) c.marks ∙ new in
      record {
        holds = record {
          filled = λ off lt m. elim (Bool-cases (chunk_for_offset h off == idx)) [
            | inl here ↦
                let at : chunk_for_offset h off ≡ idx = (==_iff _ _).0 here in
                let marked : r'.cached idx ≡ true = ap r'.cached (sym at) ∙ m in
                absurd (ground (arith, marked, unmarked))
            | inr there ↦
                c.others off (ground arith)
                ∙ v.filled off lt (sym (ap (λ q. q (chunk_for_offset h off)) c.marks) ∙ m)
          ];
          blank = λ off lt m.
              c.others off (λ q. ground (arith, ap (is_present h) q)) ∙ v.blank off lt m;
        };
        done = λ q _. cc;
        kept = λ i m. ap (λ q. q i) c.marks ∙ m;
      }

  unchanged-Ensured :
      (idx : ℕ) (r r' : Resolver) (res : Result (Unit {0}))
      → r'.cache ≡ r.cache
      → r'.cached ≡ r.cached
      → (res ≡ ok tt → is_present h idx ≡ true → r.cached idx ≡ true)
      → Holds r
      → Ensured idx r (res, r')
  unchanged-Ensured idx r r' res e f done v = record {
    holds = Holds-same r r' e f v;
    done = λ c p. ap (λ q. q idx) f ∙ done c p;
    kept = λ c m. ap (λ q. q c) f ∙ m;
  }

  pub ensure_chunk-Ensured :
      (idx : ℕ) (r : Resolver)
      → is_present h idx ≡ true
      → Holds r
      → Ensured idx r (ensure_chunk env h idx r)
  unfolding ensure_chunk
  ensure_chunk-Ensured idx r p v = elim (Bool-cases (leb (num_chunks h) idx)) [
    | inl e ↦ rw e (unchanged-Ensured idx r r _ refl refl (λ c _. cc) v)
    | inr e ↦ rw e (elim (Bool-cases (r.cached idx)) [
      | inl c ↦ rw c (unchanged-Ensured idx r r _ refl refl (λ _ _. c) v)
      | inr c ↦ rw c (mark-Ensured idx r _ _ p c refl v)
    ])
  ]

  pub visit-Ensured : (c : ℕ) (r : Resolver) → Holds r → Ensured c r (visit env h c r)
  unfolding visit
  visit-Ensured c r v = elim (Bool-cases (is_present h c)) [
    | inl p ↦ rw p (ensure_chunk-Ensured c r p v)
    | inr p ↦ rw p (unchanged-Ensured c r _ _ refl refl (λ _ q. cc) v)
  ]
