-- ===== src/Stream/Budget.antt =====
-- govsource.go: the bytes that the governor lets leave, with reads that overlap.
use pandastack_ai.Common.{
  ℕ, ◌+◌, ◌-◌, ◌*◌, ◌≤◌, ◌≡◌, ◌∙◌, refl, sym, ap, true, false, not, ◌&&◌, Option, List, [], ◌∷◌,
  ◌++◌, length, All, if_elim, arith,
}
use native.Mathlib.Nat.{mul-le-mul_right}
use pandastack_ai.Common.Int.{ℤ, pos, pos_part, ltb_ℤ}
use pandastack_ai.Scheduler.Data.{Floats, positive}
use pandastack_ai.Stream.Egress.{
  Gov, Began, over_cap, waits, reserve_locked, take_tokens, begin_read, finish_read, Flight, total,
  GovStep, begins, is_refused, finishes, fails, GovReach, here, there, GovConfig, new_gov_source,
}

total-append : (f : Floats) (xs ys : List ℕ) → total f (xs ++ ys) ≡ total f xs + total f ys
total-append f [] ys = omega arith
total-append f (x ∷ xs) ys = omega (arith, total-append f xs ys)

total_le : (f : Floats) (m : ℕ) (xs : List ℕ) → All (λ n. n ≤ m) xs → total f xs ≤ length xs * m
total_le f m [] h = omega arith
total_le f m (x ∷ xs) h = grind (arith, total_le f m xs h.1)

All-without :
    (m n : ℕ) (xs ys : List ℕ) → All (λ i. i ≤ m) (xs ++ (n ∷ ys)) → All (λ i. i ≤ m) (xs ++ ys)
All-without m n [] ys h = h.1
All-without m n (x ∷ xs) ys h = (h.0, All-without m n xs ys h.1)

module _ (f : Floats) where
  open f use {of_int, less}

  -- A token bucket keeps the counters as they are.
  record Counted (g g' : Gov f) : Type 0 where
    pub lifetime : g'.lifetime ≡ g.lifetime
    pub hard_cap : g'.hard_cap ≡ g.hard_cap
    pub fetched : g'.fetched ≡ g.fetched

  Counted-refl : (g : Gov f) → Counted g g
  Counted-refl g = record { lifetime = refl; hard_cap = refl; fetched = refl }

  reserve-Counted :
      (seconds : f.Float) (now n : ℕ) (g : Gov f) → Counted g (reserve_locked f seconds now n g).1
  unfolding reserve_locked
  reserve-Counted seconds now n g =
      if_elim (λ (r : Option ℤ × Gov f). Counted g r.1) (less (of_int (pos 0)) g.rate_bps) _ _
        (λ _.
          if_elim (λ g'. Counted g (take_tokens f (of_int (pos n)) g').1)
            (less (of_int (pos 0)) seconds) _ _
            (λ _. record { lifetime = refl; hard_cap = refl; fetched = refl })
            (λ _. record { lifetime = refl; hard_cap = refl; fetched = refl }))
        (λ _. Counted-refl g)

  -- The bytes fetched and those on the way, against the cap and what overlapping reads may add.
  pub record Bounded (k m : ℕ) (cap : ℤ) (s : Flight f) : Type 0 where
    pub capped : s.gov.hard_cap ≡ cap
    pub spent : s.gov.lifetime + total f s.pending ≤ pos_part cap + (k - 1) * m
    pub each : All (λ n. n ≤ m) s.pending
    pub agree : s.gov.fetched ≡ s.gov.lifetime

  -- A read that is let through fits under the cap by itself, and begins no count.
  record Fits (n : ℕ) (g : Gov f) (out : Began × Gov f) : Type 0 where
    pub lifetime : out.1.lifetime ≡ g.lifetime
    pub hard_cap : out.1.hard_cap ≡ g.hard_cap
    pub fetched : out.1.fetched ≡ g.fetched
    pub under :
        (w : Option ℤ)
        → out.0 ≡ waits w
        → positive g.hard_cap ≡ true
        → g.lifetime + n ≤ pos_part g.hard_cap

  over_cap_is : (w : Option ℤ) → over_cap ≡ waits w → ⊥
  over_cap_is w e = cc

  begin_read-Fits :
      (seconds : f.Float) (now n : ℕ) (g : Gov f) → Fits n g (begin_read f seconds now n g)
  unfolding begin_read
  begin_read-Fits seconds now n g =
      if_elim (Fits n g) (positive g.hard_cap && ltb_ℤ g.hard_cap (pos (g.lifetime + n))) _ _
        (λ _. record {
          lifetime = refl;
          hard_cap = refl;
          fetched = refl;
          under = λ w e. absurd (over_cap_is w e);
        })
        (λ in_cap.
          if_elim
            (λ g'.
              Fits n g (
                waits (reserve_locked f seconds now n g').0,
                (reserve_locked f seconds now n g').1,
              ))
            (positive g.soft_cap && (not g.throttled && ltb_ℤ g.soft_cap (pos (g.lifetime + n)))) _
            _ (λ _. of_reserve (record g { throttled = true }) in_cap refl refl refl)
            (λ _. of_reserve g in_cap refl refl refl))
    where
      of_reserve :
          (g' : Gov f)
          → (positive g.hard_cap && ltb_ℤ g.hard_cap (pos (g.lifetime + n))) ≡ false
          → g'.lifetime ≡ g.lifetime
          → g'.hard_cap ≡ g.hard_cap
          → g'.fetched ≡ g.fetched
          → Fits n g
              (waits (reserve_locked f seconds now n g').0, (reserve_locked f seconds now n g').1)
      of_reserve g' in_cap e h i =
          let c = reserve-Counted seconds now n g' in
          record {
            lifetime = c.lifetime ∙ e;
            hard_cap = c.hard_cap ∙ h;
            fetched = c.fetched ∙ i;
            under = λ w _ on. ground (arith, in_cap, on);
          }

  GovStep-Bounded :
      (k m : ℕ) (cap : ℤ) {s t : Flight f}
      → positive cap ≡ true
      → Bounded k m cap s
      → GovStep f k m s t
      → Bounded k m cap t
  unfolding finish_read
  GovStep-Bounded k m cap on b (begins s seconds now n wait room small went) =
      let fit = begin_read-Fits seconds now n s.gov in
      let enabled : positive s.gov.hard_cap ≡ true = ap positive b.capped ∙ on in
      let here_cap : pos_part s.gov.hard_cap ≡ pos_part cap = ap pos_part b.capped in
      let under = fit.under wait went enabled in
      let others = total_le f m s.pending b.each in
      let widen : length s.pending * m ≤ (k - 1) * m = mul-le-mul_right m (omega (arith, room)) in
      record {
        capped = fit.hard_cap ∙ b.capped;
        spent = omega (arith, fit.lifetime, under, others, widen, here_cap);
        each = (small, b.each);
        agree = fit.fetched ∙ b.agree ∙ sym fit.lifetime;
      }
  GovStep-Bounded k m cap on b (is_refused s seconds now n went) =
      let fit = begin_read-Fits seconds now n s.gov in
      record {
        capped = fit.hard_cap ∙ b.capped;
        spent = omega (arith, fit.lifetime, b.spent);
        each = b.each;
        agree = fit.fetched ∙ b.agree ∙ sym fit.lifetime;
      }
  GovStep-Bounded k m cap on b (finishes g before after n read le) =
      let old = total-append f before (n ∷ after) in
      let new = total-append f before after in
      record {
        capped = b.capped;
        spent = omega (arith, b.spent, old, new, le);
        each = All-without m n before after b.each;
        agree = ap (λ x. x + read) b.agree;
      }
  GovStep-Bounded k m cap on b (fails g before after n) =
      let old = total-append f before (n ∷ after) in
      let new = total-append f before after in
      record {
        capped = b.capped;
        spent = omega (arith, b.spent, old, new);
        each = All-without m n before after b.each;
        agree = b.agree;
      }

  -- The governor that `NewGovSource` makes, with no read under way.
  abbrev pub started : GovConfig f → ℕ → Flight f
  started cfg now = record { gov = new_gov_source f cfg now; pending = [] }

  -- From a new governor with a hard cap that is on, and with at most `k` reads at once of `m` bytes
  -- at most, in any order of their steps, from a source that gives no more than was asked for, what
  -- was fetched and what is on the way never exceed the
  -- cap by more than the reads beside one: (k - 1) * m. For one read at a time they never exceed it.
  pub GovReach-Bounded :
      (k m now : ℕ) (cfg : GovConfig f) {t : Flight f}
      → positive cfg.hard_cap_bytes ≡ true
      → GovReach f k m (started cfg now) t
      → Bounded k m cfg.hard_cap_bytes t
  unfolding new_gov_source
  GovReach-Bounded k m now cfg on r =
      go r (record { capped = refl; spent = omega arith; each = tt; agree = refl })
    where
      go :
          {s t : Flight f}
          → GovReach f k m s t
          → Bounded k m cfg.hard_cap_bytes s
          → Bounded k m cfg.hard_cap_bytes t
      go (here s) b = b
      go (there q step) b = GovStep-Bounded k m cfg.hard_cap_bytes on (go q b) step
