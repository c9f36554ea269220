-- ===== src/Stream/Crashes.antt =====
-- sharedcache.go: what the cache says of its data, through any sequence of fetches, flushes and crashes.
use pandastack_ai.Common.{
  ℕ, zero, suc, ◌≡◌, refl, sym, ap, subst, ◌∙◌, inl, inr, Bool, true, false, none, some, List, [],
  ◌∷◌, ◌++◌, length, get_or, replicate, ◌==◌, if_elim, if◌then◌else◌, Option-cases, arith,
  length-replicate,
}
use pandastack_ai.Stream.Disk.{Header, num_chunks}
use pandastack_ai.Stream.Shared.{
  encode_shared_bitmap, read_shared_bitmap, Flushing, idle, snapped, synced, Shared, Upstream, Sha,
  put_chunk, ensure_shared, begin_flush, sync_data, replace_bitmap, opened, read_file,
  open_shared_cache,
}
use pandastack_ai.Stream.Durable.{Fitting, read-encode_shared_bitmap}
use pandastack_ai.Stream.Fills.{Good, Flying, Sound, ensure-Ensured}

-- What goes on in the cache, and a crash: the files are opened again. Where the data file has lost
-- its size, the removal of the bitmap works.
pub data SharedStep (sha : Sha) (h : Header) : Shared → Shared → Type 0 where
  ensures :
      (up : Upstream) (idx : ℕ) (c : Shared) → SharedStep sha h c (ensure_shared sha up h idx c).1
  writes_back :
      (idx : ℕ) (c : Shared)
      → SharedStep sha h c (record c { disk = put_chunk idx (c.data_file idx) c.disk })
  begins_flush : (c : Shared) → SharedStep sha h c (begin_flush c)
  syncs : (c : Shared) → SharedStep sha h c (sync_data c)
  replaces : (c : Shared) → SharedStep sha h c (replace_bitmap h c)
  reopens :
      (removed sized : Bool) (c : Shared)
      → (sized ≡ false → removed ≡ true)
      → SharedStep sha h c (open_shared_cache h removed sized c)

pub data SharedReach (sha : Sha) (h : Header) : Shared → Shared → Type 0 where
  here : (c : Shared) → SharedReach sha h c c
  there : {c d e : Shared} → SharedReach sha h c d → SharedStep sha h d e → SharedReach sha h c e

-- A flush that is under way keeps its facts where no flag is lost and the disk keeps what was good.
Flying-carry :
    (sha : Sha) (h : Header) (c c' : Shared) (f : Flushing)
    → ((i : ℕ) → get_or c.present i false ≡ true → get_or c'.present i false ≡ true)
    → ((i : ℕ)
        → get_or c.present i false ≡ true
        → Good sha h i (c.disk i)
        → Good sha h i (c'.disk i))
    → Flying sha h c f
    → Flying sha h c' f
Flying-carry sha h c c' idle keep disk w = tt
Flying-carry sha h c c' (snapped bits n) keep disk w = (w.0, λ i e. keep i (w.1 i e))
Flying-carry sha h c c' (synced bits n) keep disk w =
    (w.0, λ i e. let (p, g) = w.1 i e in (keep i p, disk i p g))

ensure-Sound :
    (sha : Sha) (up : Upstream) (h : Header) (idx : ℕ) (c : Shared)
    → Sound sha h c
    → Sound sha h (ensure_shared sha up h idx c).1
ensure-Sound sha up h idx c s =
    let e = ensure-Ensured sha up h idx c s in
    let c' = (ensure_shared sha up h idx c).1 in
    let disk = λ (i : ℕ) (p : get_or c.present i false ≡ true) (g : Good sha h i (c.disk i)).
      subst (λ d. Good sha h i (d i)) (sym e.disk) g in
    record {
      long = e.long ∙ s.long;
      good = e.good;
      kept = λ bits r.
          let (l, k) = s.kept bits (ap (read_file h) (sym e.bitmap) ∙ r) in
          (l, λ i b. let (p, g) = k i b in (e.kept i p, disk i p g));
      flying =
          subst (Flying sha h c') (sym e.flushing)
            (Flying-carry sha h c c' c.flushing e.kept disk s.flying);
    }

back-Sound :
    (sha : Sha) (h : Header) (idx : ℕ) (c : Shared)
    → Sound sha h c
    → Sound sha h (record c { disk = put_chunk idx (c.data_file idx) c.disk })
back-Sound sha h idx c s = record {
  long = s.long;
  good = s.good;
  kept =
      λ bits r. let (l, k) = s.kept bits r in (l, λ i b. let (p, g) = k i b in (p, written i p g));
  flying =
      Flying-carry sha h c (record c { disk = put_chunk idx (c.data_file idx) c.disk }) c.flushing
        (λ i p. p) written s.flying;
}
  where
    written :
        (i : ℕ)
        → get_or c.present i false ≡ true
        → Good sha h i (c.disk i)
        → Good sha h i (put_chunk idx (c.data_file idx) c.disk i)
    written i p g =
        if_elim (Good sha h i) (i == idx) (c.data_file idx) (c.disk i)
          (λ same. subst (λ j. Good sha h i (c.data_file j)) (ground (arith, same)) (s.good i p))
          (λ _. g)

append_nil : (xs : List ℕ) → xs ++ [] ≡ xs
append_nil [] = refl
append_nil (x ∷ xs) = ap (◌∷◌ x) (append_nil xs)

replaced-Sound :
    (sha : Sha) (h : Header) (c : Shared) (f : Flushing)
    → Fitting h
    → c.flushing ≡ f
    → Sound sha h c
    → Sound sha h (replace_bitmap h c)
unfolding replace_bitmap
replaced-Sound sha h c idle w e s = rw (replace_bitmap, e) s
replaced-Sound sha h c (snapped bits n) w e s = rw (replace_bitmap, e) s
replaced-Sound sha h c (synced bits n) w e s =
    let (l, k) = subst (Flying sha h c) e s.flying in
    rw (replace_bitmap, e)
      (record {
        long = s.long;
        good = s.good;
        kept = λ others r.
            let is : some bits ≡ some others =
              sym (
                subst (λ b. read_shared_bitmap h b ≡ some bits)
                  (append_nil (encode_shared_bitmap h bits))
                  (read-encode_shared_bitmap h bits [] w l))
              ∙ r in
            let same : bits ≡ others = cc in
            subst
              (λ b.
                (length b ≡ num_chunks h)
                × ((i : ℕ)
                    → get_or b i false ≡ true
                    → (get_or c.present i false ≡ true) × Good sha h i (c.disk i)))
              same (l, k);
        flying = tt;
      })

synced-Sound :
    (sha : Sha) (h : Header) (c : Shared) (f : Flushing)
    → c.flushing ≡ f
    → Sound sha h c
    → Sound sha h (sync_data c)
unfolding sync_data
synced-Sound sha h c idle e s = rw (sync_data, e) s
synced-Sound sha h c (synced bits n) e s = rw (sync_data, e) s
synced-Sound sha h c (snapped bits n) e s =
    let (l, k) = subst (Flying sha h c) e s.flying in
    rw (sync_data, e)
      (record {
        long = s.long;
        good = s.good;
        kept =
            λ others r. let (m, q) = s.kept others r in (m, λ i b. ((q i b).0, s.good i (q i b).0));
        flying = (l, λ i b. (k i b, s.good i (k i b)));
      })

begun-Sound : (sha : Sha) (h : Header) (c : Shared) → Sound sha h c → Sound sha h (begin_flush c)
unfolding begin_flush
begun-Sound sha h c s =
    if_elim (Sound sha h) (c.dirty == 0) _ _ (λ _. s)
      (λ _. record { long = s.long; good = s.good; kept = s.kept; flying = (s.long, λ i e. e) })

none_marked : (n i : ℕ) → get_or (replicate n false) i false ≡ false
none_marked zero i = refl
none_marked (suc n) zero = refl
none_marked (suc n) (suc i) = none_marked n i

fresh-Sound :
    (sha : Sha) (h : Header) (c : Shared) (removed sized : Bool)
    → read_file h (if removed then none else c.bitmap) ≡ none
    → Sound sha h (opened h removed sized none c)
fresh-Sound sha h c removed true unread = record {
  long = length-replicate (num_chunks h) false;
  good = λ i e. absurd (ground (arith, none_marked (num_chunks h) i, e));
  kept = λ bits r. absurd (ground (arith, unread, r));
  flying = tt;
}
fresh-Sound sha h c removed false unread = record {
  long = length-replicate (num_chunks h) false;
  good = λ i e. absurd (ground (arith, none_marked (num_chunks h) i, e));
  kept = λ bits r. absurd (ground (arith, unread, r));
  flying = tt;
}

open-Sound :
    (sha : Sha) (h : Header) (removed sized : Bool) (c : Shared)
    → (sized ≡ false → removed ≡ true)
    → Sound sha h c
    → Sound sha h (open_shared_cache h removed sized c)
unfolding open_shared_cache
open-Sound sha h removed sized c works s = elim (Option-cases (read_file h c.bitmap)) [
  | inl unread ↦
      rw (open_shared_cache, unread)
        (fresh-Sound sha h c removed sized
          (if_elim (λ b. read_file h b ≡ none) removed none c.bitmap (λ _. refl) (λ _. unread)))
  | inr (bits, reads) ↦ rw (open_shared_cache, reads) (reopened sized works bits reads)
]
  where
    reopened :
        (b : Bool)
        → (b ≡ false → removed ≡ true)
        → (bits : List Bool) → read_file h c.bitmap ≡ some bits
        → Sound sha h (opened h removed b (some bits) c)
    reopened false works bits reads = fresh-Sound sha h c removed false (
        if_elim (λ b. read_file h b ≡ none) removed none c.bitmap (λ _. refl)
          (λ kept. absurd (ground (arith, works refl, kept))))
    reopened true works bits reads =
        let (l, k) = s.kept bits reads in
        record {
          long = l;
          good = λ i e. (k i e).1;
          kept = λ others r.
              let same : bits ≡ others = (let is : some bits ≡ some others = sym reads ∙ r in cc) in
              subst
                (λ b.
                  (length b ≡ num_chunks h)
                  × ((i : ℕ)
                      → get_or b i false ≡ true
                      → (get_or bits i false ≡ true) × Good sha h i (c.disk i)))
                same (l, λ i e. (e, (k i e).1));
          flying = tt;
        }

SharedStep-Sound :
    (sha : Sha) (h : Header) {c d : Shared}
    → Fitting h
    → Sound sha h c
    → SharedStep sha h c d
    → Sound sha h d
SharedStep-Sound sha h w s (ensures up idx c) = ensure-Sound sha up h idx c s
SharedStep-Sound sha h w s (writes_back idx c) = back-Sound sha h idx c s
SharedStep-Sound sha h w s (begins_flush c) = begun-Sound sha h c s
SharedStep-Sound sha h w s (syncs c) = synced-Sound sha h c c.flushing refl s
SharedStep-Sound sha h w s (replaces c) = replaced-Sound sha h c c.flushing w refl s
SharedStep-Sound sha h w s (reopens removed sized c works) =
    open-Sound sha h removed sized c works s

-- From a cache that is opened fresh on, through any sequence of fetches, write-backs of the kernel,
-- flushes that stop anywhere and crashes, a chunk that is marked present holds bytes that passed the
-- check of their digest, and a chunk that the bitmap on disk marks holds such bytes on disk too. The
-- removal of a bitmap works where the cache is opened over a data file of another size.
pub SharedReach-Sound :
    (sha : Sha) (h : Header) (c : Shared) {d : Shared}
    → Fitting h
    → SharedReach sha h (opened h true false none c) d
    → Sound sha h d
SharedReach-Sound sha h c w r = go r (fresh-Sound sha h c true false refl)
  where
    go : {x y : Shared} → SharedReach sha h x y → Sound sha h x → Sound sha h y
    go (here e) s = s
    go (there q step) s = SharedStep-Sound sha h w (go q s) step
