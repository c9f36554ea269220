-- ===== src/Pressure/Safety.antt =====
-- What a tick of the ladder in pressure.go never does to a VM.
use pandastack_ai.Common.{
  ℕ, ◌+◌, ◌-◌, ◌*◌, ◌<◌, ◌≤◌, ◌≡◌, refl, Bool, true, false, not, ◌&&◌, ◌||◌, List, [], ◌∷◌, ◌++◌,
  text_eq, codes, All, leb, if◌then◌else◌, arith,
}
use pandastack_ai.Common.Int.{ltb_ℤ}
use pandastack_ai.Scheduler.Data.{Floats}
use pandastack_ai.Pressure

module _ (f : Floats) where
  -- What the ladder checks of a VM before it acts on it.
  pub Allowed : ℕ → Pressure.Action f → Type 0
  Allowed now (Pressure.unsqueeze vm) = vm.squeezed ≡ true
  Allowed now (Pressure.squeeze vm target) =
      (text_eq vm.class (codes "db") ≡ false)
      × (vm.squeezed ≡ false)
      × (Pressure.squeeze_floor ≤ target)
      × (f.less (f.decimal 5 1) vm.cpu_rate ≡ false)
      × (Pressure.younger f now vm.last_act (60 * Pressure.second) ≡ false)
  Allowed now (Pressure.reclaim vm amount) =
      (text_eq vm.class (codes "db") ≡ false)
      × (vm.squeezed ≡ false)
      × (0 < amount)
      × (amount + Pressure.squeeze_floor ≤ vm.current)
  Allowed now (Pressure.freeze vm) =
      (text_eq vm.class (codes "sandbox") ≡ true)
      × (Pressure.younger f now vm.last_act (60 * Pressure.second) ≡ false)
      × (Pressure.younger f now vm.created (120 * Pressure.second) ≡ false)

  if_All :
      (P : Pressure.Action f → Type 0) (b : Bool) (x y : Pressure.Run f)
      → (b ≡ true → All P x.0)
      → (b ≡ false → All P y.0)
      → All P (if b then x else y).0
  if_All P true x y h k = h refl
  if_All P false x y h k = k refl

  capped_vm : (b c : Bool) → (not b || c) ≡ false → b ≡ true
  capped_vm true c h = refl
  capped_vm false c h = absurd cc

  unsqueeze_all-Allowed :
      (host : Pressure.Host f) (now k : ℕ) (vms : List (Pressure.Vm f)) (st : Pressure.State f)
      → All (Allowed now) (Pressure.unsqueeze_all f host now k vms st).0
  unfolding Pressure.unsqueeze_all Allowed
  unsqueeze_all-Allowed host now k [] st = tt
  unsqueeze_all-Allowed host now k (vm ∷ vms) st =
      let skip = unsqueeze_all-Allowed host now k vms st in
      if_All (Allowed now) (not vm.squeezed || leb k 0) _ _ (λ _. skip)
        (λ e.
          if_All (Allowed now)
            (Pressure.younger f now (st.squeezed_at vm.id) (90 * Pressure.second)) _ _ (λ _. skip)
            (λ _.
              if_All (Allowed now) (host.write_high vm.id) _ _
                (λ _.
                  (capped_vm vm.squeezed (leb k 0) e, unsqueeze_all-Allowed host now (k - 1) vms _))
                (λ _. skip)))

  squeezable_checks :
      (now : ℕ) (vm : Pressure.Vm f)
      → Pressure.squeezable f now vm ≡ true
      → (text_eq vm.class (codes "db") ≡ false)
        × (vm.squeezed ≡ false)
        × (f.less (f.decimal 5 1) vm.cpu_rate ≡ false)
        × (Pressure.younger f now vm.last_act (60 * Pressure.second) ≡ false)
  unfolding Pressure.squeezable
  squeezable_checks now vm h = ground arith

  floor_below : (n : ℕ) → Pressure.squeeze_floor ≤ Pressure.squeeze_target n
  unfolding Pressure.squeeze_target
  floor_below n = omega arith

  negated_false : (b : Bool) → not b ≡ false → b ≡ true
  negated_false true h = refl
  negated_false false h = absurd cc

  squeeze_all-Allowed :
      (host : Pressure.Host f) (now k : ℕ) (vms : List (Pressure.Vm f)) (st : Pressure.State f)
      → All (Allowed now) (Pressure.squeeze_all f host now k vms st).0
  unfolding Pressure.squeeze_all Allowed
  squeeze_all-Allowed host now k [] st = tt
  squeeze_all-Allowed host now k (vm ∷ vms) st =
      if_All (Allowed now) (leb k 0) _ _ (λ _. tt)
        (λ _.
          if_All (Allowed now) (not (Pressure.squeezable f now vm)) _ _
            (λ _. squeeze_all-Allowed host now k vms st)
            (λ e.
              if_All (Allowed now) (host.write_high vm.id) _ _
                (λ _.
                  let c =
                    squeezable_checks now vm (negated_false (Pressure.squeezable f now vm) e) in
                  ((c.0, c.1, floor_below _, c.2, c.3), squeeze_all-Allowed host now (k - 1) vms _))
                (λ _. squeeze_all-Allowed host now k vms _)))

  reclaimable_checks :
      (now : ℕ) (st : Pressure.State f) (vm : Pressure.Vm f)
      → Pressure.reclaimable f now st vm ≡ true
      → Allowed now (Pressure.reclaim vm (vm.current - Pressure.squeeze_target vm.current))
  unfolding Pressure.reclaimable Allowed
  reclaimable_checks now st vm h = ground (arith, floor_below vm.current)

  reclaim_one-Allowed :
      (now : ℕ) (vms : List (Pressure.Vm f)) (st : Pressure.State f)
      → All (Allowed now) (Pressure.reclaim_one f now vms st).0
  unfolding Pressure.reclaim_one
  reclaim_one-Allowed now [] st = tt
  reclaim_one-Allowed now (vm ∷ vms) st =
      if_All (Allowed now) (Pressure.reclaimable f now st vm) _ _
        (λ e. (reclaimable_checks now st vm e, tt)) (λ _. reclaim_one-Allowed now vms st)

  freezable_checks :
      (host : Pressure.Host f) (now : ℕ) (st : Pressure.State f) (vm : Pressure.Vm f)
      → Pressure.freezable f host now st vm ≡ true
      → Allowed now (Pressure.freeze vm)
  unfolding Pressure.freezable Pressure.freeze_eligible Allowed
  freezable_checks host now st vm h = ground arith

  freeze_one-Allowed :
      (host : Pressure.Host f) (now : ℕ) (vms : List (Pressure.Vm f)) (st : Pressure.State f)
      → All (Allowed now) (Pressure.freeze_one f host now vms st).0
  unfolding Pressure.freeze_one
  freeze_one-Allowed host now [] st = tt
  freeze_one-Allowed host now (vm ∷ vms) st =
      if_All (Allowed now) (Pressure.freezable f host now st vm) _ _
        (λ e. (freezable_checks host now st vm e, tt)) (λ _. freeze_one-Allowed host now vms st)

  All-append :
      (P : Pressure.Action f → Type 0) (xs ys : List (Pressure.Action f))
      → All P xs
      → All P ys
      → All P (xs ++ ys)
  All-append P [] ys h k = k
  All-append P (x ∷ xs) ys h k = (h.0, All-append P xs ys h.1 k)

  act_on-Allowed :
      (host : Pressure.Host f) (backed scarce : Bool) (now : ℕ)
      (sort : List (Pressure.Vm f) → List (Pressure.Vm f)) (vms : List (Pressure.Vm f))
      (level : Pressure.Level) (st : Pressure.State f)
      → All (Allowed now) (Pressure.act_on f host backed scarce now sort vms level st).0
  unfolding Pressure.act_on
  act_on-Allowed host backed scarce now sort vms Pressure.calm st =
      All-append (Allowed now) _ _ (unsqueeze_all-Allowed host now 2 vms st)
        (if_All (Allowed now) backed _ _ (λ _. reclaim_one-Allowed now vms _) (λ _. tt))
  act_on-Allowed host backed scarce now sort vms Pressure.elevated st =
      if_All (Allowed now) backed _ _ (λ _. squeeze_all-Allowed host now 2 (sort vms) st) (λ _. tt)
  act_on-Allowed host backed scarce now sort vms Pressure.critical st =
      All-append (Allowed now) _ _
        (if_All (Allowed now) backed _ _ (λ _. squeeze_all-Allowed host now 2 (sort vms) st)
          (λ _. tt))
        (if_All (Allowed now) (scarce && _) _ _ (λ _. freeze_one-Allowed host now (sort vms) _)
          (λ _. tt))

  -- Whatever the readings, a tick caps, reclaims from and freezes only VMs that it may: databases and
  -- capped VMs are never capped or reclaimed from, a cap is at least the floor, a reclaim leaves it, a
  -- VM in use is never capped, and only plain, warmed-up, idle sandboxes are frozen.
  pub tick-Allowed :
      (t : Pressure.Thresholds f) (host : Pressure.Host f) (r : Pressure.Reading f) (now : ℕ)
      (sort : List (Pressure.Vm f) → List (Pressure.Vm f)) (vms : List (Pressure.Vm f))
      (st : Pressure.State f)
      → All (Allowed now) (Pressure.tick f t host r now sort vms st).0
  unfolding Pressure.tick
  tick-Allowed t host r now sort vms st =
      let raw = Pressure.classify_pressure f t r.avail_mb r.total_mb r.psi_some r.psi_full in
      let next = Pressure.apply_hysteresis st.level raw st.fall_streak in
      if_All (Allowed now) r.tiers_ready _ _
        (λ _.
          act_on-Allowed host (Pressure.backed_at f next.0 r)
            (ltb_ℤ r.avail_mb (Pressure.crit_water_mb f t r.total_mb)) now sort vms next.0
            (record st { level = next.0; fall_streak = next.1 }))
        (λ _. tt)
