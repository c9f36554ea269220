-- ===== src/Stream/Fills.antt =====
-- sharedcache.go: what one fetch does to the cache.
use pandastack_ai.Common.{
  ℕ, zero, suc, ◌+◌, ◌≤◌, ◌≡◌, ◌⊎◌, refl, sym, ap, subst, ◌∙◌, inl, inr, Bool, true, false, not,
  Option, none, some, List, [], ◌∷◌, length, get_or, ltb, ◌==◌, if◌then◌else◌, if_elim,
  of_not-false, Bool-cases, arith,
}
use pandastack_ai.Stream.Disk.{Header, num_chunks, chunk_range}
use pandastack_ai.Stream.Shared.{
  Flushing, idle, snapped, synced, Shared, Upstream, Sha, put_chunk, digest_ok, store_shared,
  fetch_shared, mark_present, settle_fetch, ensure_shared, read_file, SharedError, write_failed,
}

-- A chunk of bytes that passed the check, or that has no bytes.
abbrev pub Good : Sha → Header → ℕ → List ℕ → Type 0
Good sha h i bytes =
    ((chunk_range h i).1 ≡ 0)
    ⊎ (((chunk_range h i).1 ≤ length bytes) × (digest_ok sha h i bytes ≡ true))

-- The flags of a flush that is under way.
abbrev pub Flying : Sha → Header → Shared → Flushing → Type 0
Flying sha h c idle = Unit
Flying sha h c (snapped bits n) =
    (length bits ≡ num_chunks h)
    × ((i : ℕ) → get_or bits i false ≡ true → get_or c.present i false ≡ true)
Flying sha h c (synced bits n) =
    (length bits ≡ num_chunks h)
    × ((i : ℕ)
        → get_or bits i false ≡ true
        → (get_or c.present i false ≡ true) × Good sha h i (c.disk i))

-- A chunk that is marked present has passed the check, and one that the bitmap marks also on disk.
pub record Sound (sha : Sha) (h : Header) (c : Shared) : Type 0 where
  pub long : length c.present ≡ num_chunks h
  pub good : (i : ℕ) → get_or c.present i false ≡ true → Good sha h i (c.data_file i)
  pub kept :
      (bits : List Bool)
      → read_file h c.bitmap ≡ some bits
      → (length bits ≡ num_chunks h)
        × ((i : ℕ)
            → get_or bits i false ≡ true
            → (get_or c.present i false ≡ true) × Good sha h i (c.disk i))
  pub flying : Flying sha h c c.flushing

length-mark_present : (ps : List Bool) (i : ℕ) → length (mark_present ps i) ≡ length ps
length-mark_present [] i = refl
length-mark_present (p ∷ ps) zero = refl
length-mark_present (p ∷ ps) (suc i) = ap suc (length-mark_present ps i)

marked :
    (ps : List Bool) (i j : ℕ)
    → get_or (mark_present ps i) j false ≡ true
    → (j ≡ i) ⊎ (get_or ps j false ≡ true)
marked [] i j e = inr e
marked (p ∷ ps) zero zero e = inl refl
marked (p ∷ ps) zero (suc j) e = inr e
marked (p ∷ ps) (suc i) zero e = inr e
marked (p ∷ ps) (suc i) (suc j) e = elim (marked ps i j e) [
  | inl s ↦ inl (ap suc s)
  | inr m ↦ inr m
]

mark_keeps :
    (ps : List Bool) (i j : ℕ)
    → get_or ps j false ≡ true
    → get_or (mark_present ps i) j false ≡ true
mark_keeps [] i j e = e
mark_keeps (p ∷ ps) zero zero e = refl
mark_keeps (p ∷ ps) zero (suc j) e = e
mark_keeps (p ∷ ps) (suc i) zero e = e
mark_keeps (p ∷ ps) (suc i) (suc j) e = mark_keeps ps i j e

-- What one call does: nothing to the disk, and no chunk that was present changes.
record Fetched (sha : Sha) (h : Header) (idx : ℕ) (c : Shared) (r : Option SharedError × Shared)
    : Type 0 where
  pub present : r.1.present ≡ c.present
  pub disk : r.1.disk ≡ c.disk
  pub bitmap : r.1.bitmap ≡ c.bitmap
  pub flushing : r.1.flushing ≡ c.flushing
  pub others : (j : ℕ) → (j == idx) ≡ false → r.1.data_file j ≡ c.data_file j
  pub filled : r.0 ≡ none → Good sha h idx (r.1.data_file idx)

put_other :
    (i j : ℕ) (bytes : List ℕ) (f : ℕ → List ℕ) → (j == i) ≡ false → put_chunk i bytes f j ≡ f j
put_other i j bytes f e = ap (λ b. if b then bytes else f j) e

put_same : (i : ℕ) (bytes : List ℕ) (f : ℕ → List ℕ) → put_chunk i bytes f i ≡ bytes
put_same i bytes f = ground arith

fetch-Fetched :
    (sha : Sha) (up : Upstream) (h : Header) (idx : ℕ) (c : Shared)
    → Fetched sha h idx c (fetch_shared sha up h idx c)
unfolding fetch_shared
fetch-Fetched sha up h idx c =
    let (off, len) = chunk_range h idx in
    if_elim (Fetched sha h idx c) (len == 0) _ _
      (λ empty. record {
        present = refl;
        disk = refl;
        bitmap = refl;
        flushing = refl;
        others = λ j e. refl;
        filled = λ _. inl (ground (arith, empty));
      })
      (λ _. stored (up.fetch off len))
  where
    stored :
        (answer : Option (List ℕ))
        → Fetched sha h idx c (store_shared sha up h idx (chunk_range h idx).1 answer c)
    stored none = record {
      present = refl;
      disk = refl;
      bitmap = refl;
      flushing = refl;
      others = λ j e. refl;
      filled = λ e. absurd cc;
    }
    stored (some bytes) =
        if_elim (Fetched sha h idx c) (ltb (length bytes) (chunk_range h idx).1) _ _
          (λ _. record {
            present = refl;
            disk = refl;
            bitmap = refl;
            flushing = refl;
            others = λ j e. refl;
            filled = λ e. absurd cc;
          })
          (λ long.
            if_elim (Fetched sha h idx c) (not (digest_ok sha h idx bytes)) _ _
              (λ _. record {
                present = refl;
                disk = refl;
                bitmap = refl;
                flushing = refl;
                others = λ j e. refl;
                filled = λ e. absurd cc;
              })
              (λ right.
                written (up.torn idx) bytes
                  (inr (ground (arith, long), of_not-false (digest_ok sha h idx bytes) right))))
      where
        written :
            (o : Option (List ℕ)) (bytes : List ℕ)
            → Good sha h idx bytes
            → Fetched sha h idx c (elim o as (λ _. Option SharedError × Shared) [
              | some rest ↦
                  (some write_failed, record c { data_file = put_chunk idx rest c.data_file })
              | none ↦ (
                none,
                record c { data_file = put_chunk idx bytes c.data_file; fills = c.fills + 1 },
              )
            ])
        written none bytes g = record {
          present = refl;
          disk = refl;
          bitmap = refl;
          flushing = refl;
          others = λ j e. put_other idx j bytes c.data_file e;
          filled = λ _. subst (Good sha h idx) (sym (put_same idx bytes c.data_file)) g;
        }
        written (some rest) bytes g = record {
          present = refl;
          disk = refl;
          bitmap = refl;
          flushing = refl;
          others = λ j e. put_other idx j rest c.data_file e;
          filled = λ e. absurd cc;
        }

apart :
    (ps : List Bool) (i j : ℕ)
    → get_or ps i false ≡ true
    → get_or ps j false ≡ false
    → (i == j) ≡ false
apart ps i j p q = elim (Bool-cases (i == j)) [
  | inr other ↦ other
  | inl same ↦
      let at : i ≡ j = ground (arith, same) in
      let both : get_or ps j false ≡ true = subst (λ k. get_or ps k false ≡ true) at p in
      absurd (ground (arith, both, q))
]

-- What a whole call does to a sound cache.
pub record Ensured (sha : Sha) (h : Header) (c c' : Shared) : Type 0 where
  pub long : length c'.present ≡ length c.present
  pub kept : (i : ℕ) → get_or c.present i false ≡ true → get_or c'.present i false ≡ true
  pub disk : c'.disk ≡ c.disk
  pub bitmap : c'.bitmap ≡ c.bitmap
  pub flushing : c'.flushing ≡ c.flushing
  pub good : (i : ℕ) → get_or c'.present i false ≡ true → Good sha h i (c'.data_file i)

pub ensure-Ensured :
    (sha : Sha) (up : Upstream) (h : Header) (idx : ℕ) (c : Shared)
    → Sound sha h c
    → Ensured sha h c (ensure_shared sha up h idx c).1
unfolding ensure_shared
ensure-Ensured sha up h idx c s =
    if_elim (λ (r : Option SharedError × Shared). Ensured sha h c r.1)
      (not (ltb idx (length c.present))) _ _ (λ _. same)
      (λ _.
        if_elim (λ (r : Option SharedError × Shared). Ensured sha h c r.1)
          (get_or c.present idx false) _ _ (λ _. hit)
          (λ absent. settled (fetch_shared sha up h idx c) absent (fetch-Fetched sha up h idx c)))
  where
    same : Ensured sha h c c
    same = record {
      long = refl;
      kept = λ i e. e;
      disk = refl;
      bitmap = refl;
      flushing = refl;
      good = s.good;
    }

    hit : Ensured sha h c (record c { hits = c.hits + 1 })
    hit = record {
      long = refl;
      kept = λ i e. e;
      disk = refl;
      bitmap = refl;
      flushing = refl;
      good = s.good;
    }

    settled :
        (r : Option SharedError × Shared)
        → get_or c.present idx false ≡ false
        → Fetched sha h idx c r
        → Ensured sha h c (settle_fetch idx r).1
    settled (some e, c') absent f = record {
      long = ap length f.present;
      kept = λ i p. subst (λ ps. get_or ps i false ≡ true) (sym f.present) p;
      disk = f.disk;
      bitmap = f.bitmap;
      flushing = f.flushing;
      good = λ i p.
          let before : get_or c.present i false ≡ true =
            subst (λ ps. get_or ps i false ≡ true) f.present p in
          let other : (i == idx) ≡ false = apart c.present i idx before absent in
          subst (Good sha h i) (sym (f.others i other)) (s.good i before);
    }
    settled (none, c') absent f = record {
      long = length-mark_present c'.present idx ∙ ap length f.present;
      kept = λ i p.
          mark_keeps c'.present idx i (subst (λ ps. get_or ps i false ≡ true) (sym f.present) p);
      disk = f.disk;
      bitmap = f.bitmap;
      flushing = f.flushing;
      good = λ i p. elim (marked c'.present idx i p) [
        | inl at ↦ subst (λ j. Good sha h j (c'.data_file j)) (sym at) (f.filled refl)
        | inr q ↦
            let before : get_or c.present i false ≡ true =
              subst (λ ps. get_or ps i false ≡ true) f.present q in
            let other : (i == idx) ≡ false = apart c.present i idx before absent in
            subst (Good sha h i) (sym (f.others i other)) (s.good i before)
      ];
    }
