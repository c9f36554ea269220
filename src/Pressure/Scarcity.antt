-- ===== src/Pressure/Scarcity.antt =====
-- When a tick of the ladder in pressure.go freezes, and how much it does.
use pandastack_ai.Common.{
  ℕ, ◌+◌, ◌-◌, ◌≤◌, ◌≡◌, refl, ◌∙◌, Bool, true, false, ◌&&◌, none, some, max, List, [], ◌∷◌, ◌++◌,
  length, length-append, if◌then◌else◌, arith,
}
use pandastack_ai.Common.Int.{ltb_ℤ}
use pandastack_ai.Scheduler.Data.{Floats}
use pandastack_ai.Pressure

module _ (f : Floats) where
  abbrev pub freezes : List (Pressure.Action f) → ℕ
  freezes [] = 0
  freezes (Pressure.freeze vm ∷ done) = freezes done + 1
  freezes (Pressure.squeeze vm n ∷ done) = freezes done
  freezes (Pressure.reclaim vm n ∷ done) = freezes done
  freezes (Pressure.unsqueeze vm ∷ done) = freezes done

  freezes-append : (xs ys : List (Pressure.Action f)) → freezes (xs ++ ys) ≡ freezes xs + freezes ys
  freezes-append [] ys = omega arith
  freezes-append (Pressure.freeze vm ∷ xs) ys = omega (arith, freezes-append xs ys)
  freezes-append (Pressure.squeeze vm n ∷ xs) ys = freezes-append xs ys
  freezes-append (Pressure.reclaim vm n ∷ xs) ys = freezes-append xs ys
  freezes-append (Pressure.unsqueeze vm ∷ xs) ys = freezes-append xs ys

  -- At most `k` actions, and none of them a freeze.
  pub Mild : ℕ → List (Pressure.Action f) → Type 0
  Mild k done = (length done ≤ k) × (freezes done ≡ 0)

  unsqueeze_all-Mild :
      (host : Pressure.Host f) (now k : ℕ) (vms : List (Pressure.Vm f)) (st : Pressure.State f)
      → Mild k (Pressure.unsqueeze_all f host now k vms st).0
  unfolding Pressure.unsqueeze_all Mild
  unsqueeze_all-Mild host now k [] st = (omega arith, refl)
  unsqueeze_all-Mild host now k (vm ∷ vms) st = ground (
    arith,
    unsqueeze_all-Mild host now k vms st,
    unsqueeze_all-Mild host now (k - 1) vms
        (record st { squeezed_at = Pressure.set f vm.id none st.squeezed_at }),
  )

  squeeze_all-Mild :
      (host : Pressure.Host f) (now k : ℕ) (vms : List (Pressure.Vm f)) (st : Pressure.State f)
      → Mild k (Pressure.squeeze_all f host now k vms st).0
  unfolding Pressure.squeeze_all Mild
  squeeze_all-Mild host now k [] st = (omega arith, refl)
  squeeze_all-Mild host now k (vm ∷ vms) st =
      let basis = max vm.current (st.squeeze_basis vm.id) in
      let based = record st { squeeze_basis = Pressure.set f vm.id basis st.squeeze_basis } in
      ground (
        arith,
        squeeze_all-Mild host now k vms st,
        squeeze_all-Mild host now k vms based,
        squeeze_all-Mild host now (k - 1) vms
            (record based { squeezed_at = Pressure.set f vm.id (some now) st.squeezed_at }),
      )

  reclaim_one-Mild :
      (now : ℕ) (vms : List (Pressure.Vm f)) (st : Pressure.State f)
      → Mild 1 (Pressure.reclaim_one f now vms st).0
  unfolding Pressure.reclaim_one Mild
  reclaim_one-Mild now [] st = (omega arith, refl)
  reclaim_one-Mild now (vm ∷ vms) st = ground (arith, reclaim_one-Mild now vms st)

  freeze_one_bound :
      (host : Pressure.Host f) (now : ℕ) (vms : List (Pressure.Vm f)) (st : Pressure.State f)
      → (length (Pressure.freeze_one f host now vms st).0 ≤ 1)
        × (freezes (Pressure.freeze_one f host now vms st).0 ≤ 1)
  unfolding Pressure.freeze_one
  freeze_one_bound host now [] st = (omega arith, omega arith)
  freeze_one_bound host now (vm ∷ vms) st = ground (arith, freeze_one_bound host now vms st)

  if_any :
      (P : List (Pressure.Action f) → Type 0) (b : Bool) (x : Pressure.Run f)
      (st : Pressure.State f)
      → P x.0
      → P []
      → P (if b then x else ([], st)).0
  if_any P true x st h k = h
  if_any P false x st h k = k

  if_Mild :
      (k : ℕ) (b : Bool) (x : Pressure.Run f) (st : Pressure.State f)
      → Mild k x.0
      → Mild k (if b then x else ([], st)).0
  unfolding Mild
  if_Mild k true x st h = h
  if_Mild k false x st h = (omega arith, refl)

  Mild-append :
      (xs ys : List (Pressure.Action f)) (j k : ℕ) → Mild j xs → Mild k ys → Mild (j + k) (xs ++ ys)
  unfolding Mild
  Mild-append xs ys j k h g =
      (omega (arith, length-append xs ys, h.0, g.0), omega (arith, freezes-append xs ys, h.1, g.1))

  -- With or without a freeze: what a tick adds to two squeezes.
  frozen_bound :
      (xs ys : List (Pressure.Action f))
      → Mild 2 xs
      → length ys ≤ 1
      → freezes ys ≤ 1
      → (length (xs ++ ys) ≤ 3) × (freezes (xs ++ ys) ≤ 1)
  unfolding Mild
  frozen_bound xs ys h l g =
      (omega (arith, length-append xs ys, h.0, l), omega (arith, freezes-append xs ys, h.1, g))

  if_frozen :
      (b : Bool) (x : Pressure.Run f) (st : Pressure.State f)
      → (length x.0 ≤ 1) × (freezes x.0 ≤ 1)
      → (length (if b then x else ([], st)).0 ≤ 1) × (freezes (if b then x else ([], st)).0 ≤ 1)
  if_frozen true x st h = h
  if_frozen false x st h = (omega arith, omega arith)

  Mild-bound :
      (k : ℕ) (xs : List (Pressure.Action f))
      → Mild k xs
      → k ≤ 3
      → (length xs ≤ 3) × (freezes xs ≤ 1)
  unfolding Mild
  Mild-bound k xs h le = (omega (arith, h.0, le), omega (arith, h.1))

  module _ (host : Pressure.Host f) (backed : Bool) (now : ℕ)
      (sort : List (Pressure.Vm f) → List (Pressure.Vm f)) (vms : List (Pressure.Vm f)) where
    calm-Mild :
        (scarce : Bool) (st : Pressure.State f)
        → Mild 3 (Pressure.act_on f host backed scarce now sort vms Pressure.calm st).0
    unfolding Pressure.act_on
    calm-Mild scarce st =
        Mild-append _ _ 2 1 (unsqueeze_all-Mild host now 2 vms st)
          (if_Mild 1 backed _ _ (reclaim_one-Mild now vms _))

    squeezes-Mild :
        (st : Pressure.State f)
        → Mild 2 (if backed then Pressure.squeeze_all f host now 2 (sort vms) st else ([], st)).0
    squeezes-Mild st = if_Mild 2 backed _ st (squeeze_all-Mild host now 2 (sort vms) st)

    act_on_bound :
        (scarce : Bool) (level : Pressure.Level) (st : Pressure.State f)
        → (length (Pressure.act_on f host backed scarce now sort vms level st).0 ≤ 3)
          × (freezes (Pressure.act_on f host backed scarce now sort vms level st).0 ≤ 1)
    unfolding Pressure.act_on
    act_on_bound scarce Pressure.calm st = Mild-bound 3 _ (calm-Mild scarce st) (omega arith)
    act_on_bound scarce Pressure.elevated st = Mild-bound 2 _ (squeezes-Mild st) (omega arith)
    act_on_bound scarce Pressure.critical st =
        let frozen = if_frozen (scarce && _) _ _ (freeze_one_bound host now (sort vms) _) in
        frozen_bound _ _ (squeezes-Mild st) frozen.0 frozen.1

    act_on_no_freeze :
        (scarce : Bool) (level : Pressure.Level) (st : Pressure.State f)
        → scarce ≡ false
        → freezes (Pressure.act_on f host backed scarce now sort vms level st).0 ≡ 0
    unfolding Pressure.act_on Mild
    act_on_no_freeze scarce Pressure.calm st e = (calm-Mild scarce st).1
    act_on_no_freeze scarce Pressure.elevated st e = (squeezes-Mild st).1
    act_on_no_freeze true Pressure.critical st e = absurd cc
    act_on_no_freeze false Pressure.critical st e =
        let squeezes =
          if backed then Pressure.squeeze_all f host now 2 (sort vms) st else ([], st) in
        freezes-append squeezes.0 [] ∙ omega (arith, (squeezes-Mild st).1)

  module _ (t : Pressure.Thresholds f) (host : Pressure.Host f) (r : Pressure.Reading f) (now : ℕ)
      (sort : List (Pressure.Vm f) → List (Pressure.Vm f)) (vms : List (Pressure.Vm f))
      (st : Pressure.State f) where
    -- Whatever the readings, a tick takes at most three actions, and at most one of them is a freeze.
    pub tick_bound :
        (length (Pressure.tick f t host r now sort vms st).0 ≤ 3)
        × (freezes (Pressure.tick f t host r now sort vms st).0 ≤ 1)
    unfolding Pressure.tick
    tick_bound =
        let raw = Pressure.classify_pressure f t r.avail_mb r.total_mb r.psi_some r.psi_full in
        let next = Pressure.apply_hysteresis st.level raw st.fall_streak in
        if_any (λ done. (length done ≤ 3) × (freezes done ≤ 1)) r.tiers_ready _ _
          (act_on_bound host (Pressure.backed_at f next.0 r) now sort vms
            (ltb_ℤ r.avail_mb (Pressure.crit_water_mb f t r.total_mb)) next.0
            (record st { level = next.0; fall_streak = next.1 }))
          (omega arith, omega arith)

    -- A tick freezes nothing while the available memory is at or above the critical water line,
    -- whatever the pressure level says.
    pub tick_freeze_scarce :
        ltb_ℤ r.avail_mb (Pressure.crit_water_mb f t r.total_mb) ≡ false
        → freezes (Pressure.tick f t host r now sort vms st).0 ≡ 0
    unfolding Pressure.tick
    tick_freeze_scarce plenty =
        let raw = Pressure.classify_pressure f t r.avail_mb r.total_mb r.psi_some r.psi_full in
        let next = Pressure.apply_hysteresis st.level raw st.fall_streak in
        if_any (λ done. freezes done ≡ 0) r.tiers_ready _ _
          (act_on_no_freeze host (Pressure.backed_at f next.0 r) now sort vms
            (ltb_ℤ r.avail_mb (Pressure.crit_water_mb f t r.total_mb)) next.0
            (record st { level = next.0; fall_streak = next.1 }) plenty)
          refl
