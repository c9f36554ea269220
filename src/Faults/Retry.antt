-- ===== src/Faults/Retry.antt =====
-- The loop of faultretry.go: its rounds, and what its results say of the fault.
use pandastack_ai.Common.{
  ℕ, zero, suc, ◌+◌, ◌<◌, ◌≤◌, ◌≡◌, ◌⊎◌, refl, subst, ◌==◌, inl, inr, true, false, Option, none,
  some, Bool-cases, Option-cases, arith,
}
use pandastack_ai.Common.Int.{ℤ, pos, ltb_ℤ}
use pandastack_ai.Faults.{
  Attempts, Retried, resolved, stopped, gave_up, Stats, count, retry_loop, resolve_with_retry,
  fault_backoff,
}

abbrev pub Present {ℓ} : {A : Type ℓ} → Option A → Type ℓ
Present {A = A} o = (a : A) × (o ≡ some a)

module _ {Fault Stop : Type 0} (a : Attempts Fault Stop) where
  -- The attempt `n` is made and fails, and the loop goes on.
  record GoesOn (deadline : ℤ) (n : ℕ) : Type 0 where
    pub running : a.stop n ≡ none
    pub early : ltb_ℤ deadline (pos (a.now n)) ≡ false
    pub waited : a.cut n (fault_backoff (a.rand n) n) ≡ none

  loop-GoesOn :
      (deadline : ℤ) (fuel n : ℕ) (err : Fault) (st : Stats)
      → GoesOn deadline n
      → retry_loop a deadline (suc fuel) n err st ≡ elim (a.resolve (suc n)) [
        | none ↦ some (resolved, count a n st)
        | some err' ↦ retry_loop a deadline fuel (suc n) err' (count a n st)
      ]
  unfolding retry_loop
  loop-GoesOn deadline fuel n err st g = rw (retry_loop, g.running, g.early, g.waited) refl

  -- Either the loop ends at `n`, with no more of the fuel, or the attempt is made.
  loop_cases :
      (deadline : ℤ) (fuel n : ℕ) (err : Fault) (st : Stats)
      → Present (retry_loop a deadline (suc fuel) n err st) ⊎ GoesOn deadline n
  unfolding retry_loop
  loop_cases deadline fuel n err st = elim (Option-cases (a.stop n)) [
    | inr (e, stops) ↦ inl ((stopped e, st), rw (retry_loop, stops) refl)
    | inl runs ↦ elim (Bool-cases (ltb_ℤ deadline (pos (a.now n)))) [
      | inl late ↦ inl ((gave_up err, st), rw (retry_loop, runs, late) refl)
      | inr early ↦ elim (Option-cases (a.cut n (fault_backoff (a.rand n) n))) [
        | inr (e, cuts) ↦ inl ((stopped e, count a n st), rw (retry_loop, runs, early, cuts) refl)
        | inl waits ↦ inr (record { running = runs; early = early; waited = waits })
      ]
    ]
  ]

  loop-Present :
      (deadline fuel n : ℕ) (err : Fault) (st : Stats)
      → ((k : ℕ) → a.now k < a.now (suc k))
      → deadline + 2 ≤ a.now n + fuel
      → 1 ≤ fuel
      → Present (retry_loop a (pos deadline) fuel n err st)
  loop-Present deadline zero n err st tick h l = absurd (omega (arith, l))
  loop-Present deadline (suc fuel) n err st tick h l =
      elim (loop_cases (pos deadline) fuel n err st) [
        | inl done ↦ done
        | inr g ↦ elim (Option-cases (a.resolve (suc n))) [
          | inl ok ↦
              ((resolved, count a n st), rw (loop-GoesOn (pos deadline) fuel n err st g, ok) refl)
          | inr (err', fails) ↦
              let early : a.now n ≤ deadline = ground (arith, g.early) in
              let later = tick n in
              rw (loop-GoesOn (pos deadline) fuel n err st g, fails)
                (loop-Present deadline fuel (suc n) err' (count a n st) tick
                  (omega (arith, later, h)) (omega (arith, early, h)))
        ]
      ]

  -- What a result says of the attempts that were made: how the last one, `n`, ended.
  abbrev pub Ends : ℤ → ℕ → Retried Fault Stop → Type 0
  Ends deadline n resolved = a.resolve n ≡ none
  Ends deadline n (stopped e) = (a.stop n ≡ some e) ⊎ ((d : ℕ) × (a.cut n d ≡ some e))
  Ends deadline n (gave_up e) = (a.resolve n ≡ some e) × (ltb_ℤ deadline (pos (a.now n)) ≡ true)

  -- `n` rounds went on before it: each attempt failed, in time.
  pub record Trail (deadline : ℤ) (from to : ℕ) : Type 0 where
    pub ordered : from ≤ to
    pub failed :
        (j : ℕ)
        → from ≤ j
        → j < to
        → (Present (a.resolve j)) × (ltb_ℤ deadline (pos (a.now j)) ≡ false)

  pub record Explained (deadline : ℤ) (from : ℕ) (r : Retried Fault Stop) : Type 0 where
    pub last : ℕ
    pub ends : Ends deadline last r
    pub trail : Trail deadline from last

  abbrev IfAny : ℤ → ℕ → Option (Retried Fault Stop × Stats) → Type 0
  IfAny deadline n none = Unit
  IfAny deadline n (some (r, st)) = Explained deadline n r

  Trail-empty : (deadline : ℤ) (n : ℕ) → Trail deadline n n
  Trail-empty deadline n = record {
    ordered = omega arith;
    failed = λ j l u. absurd (omega (arith, l, u));
  }

  Trail-more :
      (deadline : ℤ) (n m : ℕ)
      → Present (a.resolve n)
      → ltb_ℤ deadline (pos (a.now n)) ≡ false
      → Trail deadline (suc n) m
      → Trail deadline n m
  Trail-more deadline n m p early t = record {
    ordered = omega (arith, t.ordered);
    failed = λ j l u. elim (Bool-cases (j == n)) [
      | inl here ↦
          let at : n ≡ j = ground (arith, here) in
          subst (λ i. Present (a.resolve i) × (ltb_ℤ deadline (pos (a.now i)) ≡ false)) at
            (p, early)
      | inr there ↦ t.failed j (ground (arith, l, there)) u
    ];
  }

  loop-Explained :
      (deadline : ℤ) (fuel n : ℕ) (err : Fault) (st : Stats)
      → a.resolve n ≡ some err
      → IfAny deadline n (retry_loop a deadline fuel n err st)
  unfolding retry_loop
  loop-Explained deadline zero n err st at = tt
  loop-Explained deadline (suc fuel) n err st at = elim (Option-cases (a.stop n)) [
    | inr (x, stops) ↦
        rw (retry_loop, stops)
          (record { last = n; ends = inl stops; trail = Trail-empty deadline n })
    | inl runs ↦ elim (Bool-cases (ltb_ℤ deadline (pos (a.now n)))) [
      | inl late ↦
          rw (retry_loop, runs, late)
            (record { last = n; ends = (at, late); trail = Trail-empty deadline n })
      | inr early ↦ elim (Option-cases (a.cut n (fault_backoff (a.rand n) n))) [
        | inr (x, cuts) ↦
            rw (retry_loop, runs, early, cuts)
              (record { last = n; ends = inr (_, cuts); trail = Trail-empty deadline n })
        | inl waits ↦
            let g : GoesOn deadline n = record { running = runs; early = early; waited = waits } in
            elim (Option-cases (a.resolve (suc n))) [
              | inl ok ↦
                  rw (loop-GoesOn deadline fuel n err st g, ok)
                    (record {
                      last = suc n;
                      ends = ok;
                      trail =
                          Trail-more deadline n (suc n) (err, at) early
                            (Trail-empty deadline (suc n));
                    })
              | inr (err', fails) ↦
                  rw (loop-GoesOn deadline fuel n err st g, fails)
                    (further deadline n _ (err, at) early
                      (loop-Explained deadline fuel (suc n) err' (count a n st) fails))
            ]
      ]
    ]
  ]
    where
      further :
          (deadline : ℤ) (n : ℕ) (o : Option (Retried Fault Stop × Stats))
          → Present (a.resolve n)
          → ltb_ℤ deadline (pos (a.now n)) ≡ false
          → IfAny deadline (suc n) o
          → IfAny deadline n o
      further deadline n none p early h = tt
      further deadline n (some (r, st)) p early h = record {
        last = h.last;
        ends = h.ends;
        trail = Trail-more deadline n h.last p early h.trail;
      }

  -- Where the clock moves on between two attempts, retrying a fault ends: as many rounds as the budget
  -- has nanoseconds, and two more, are enough for a result. The result is what the last attempt made
  -- gives: its success, its error once the deadline has passed, or the error of the context; every
  -- attempt before it failed before the deadline.
  pub resolve_with_retry-Explained :
      (start budget : ℕ) (st : Stats)
      → start ≤ a.now 0
      → ((n : ℕ) → a.now n < a.now (suc n))
      → (r : Retried Fault Stop) × (st' : Stats) × (resolve_with_retry a
            (pos (start + budget))
            (budget + 2)
            st
          ≡ some (r, st'))
        × Explained (pos (start + budget)) 0 r
  unfolding resolve_with_retry
  resolve_with_retry-Explained start budget st began tick = elim (Option-cases (a.resolve 0)) [
    | inl ok ↦ (
      resolved,
      st,
      rw (resolve_with_retry, ok) refl,
      record { last = 0; ends = ok; trail = Trail-empty (pos (start + budget)) 0 },
    )
    | inr (err, fails) ↦
        let deadline = start + budget in
        let ((r, st'), is) =
          loop-Present deadline (budget + 2) 0 err st tick (omega (arith, began)) (omega arith) in
        (
          r,
          st',
          rw (resolve_with_retry, fails) is,
          subst (IfAny (pos deadline) 0) is
              (loop-Explained (pos deadline) (budget + 2) 0 err st fails),
        )
  ]
