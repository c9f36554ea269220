-- ===== src/Pressure.antt =====
-- agent/internal/sandbox/pressure.go: the ladder that squeezes and freezes cold VMs while the host
-- is short of memory. Floats, `sort.Slice`, the VMs found and the writes to their cgroups are
-- parameters; times are nanoseconds, a zero `time.Time` is none. The work of the goroutines that a
-- tick starts is not modelled, but for what they write into the state when they end.
pub mod Levels
pub mod Safety
pub mod Scarcity
pub mod Examples
use pandastack_ai.Common.{
  ℕ, suc, ◌+◌, ◌-◌, ◌*◌, ◌/◌, ◌^◌, Bool, true, false, not, ◌&&◌, ◌||◌, Option, none, some, List, [],
  ◌∷◌, ◌++◌, Text, text_eq, codes, ltb, leb, max, if◌then◌else◌,
}
use pandastack_ai.Common.Int.{ℤ, pos, ltb_ℤ}
use pandastack_ai.Scheduler.Data.{Floats, positive}

abbrev pub second : ℕ
second = 10 ^ 9

-- `levelOK`, `levelElevated`, `levelCritical`.
pub data Level : Type 0 where
  calm elevated critical : Level

abbrev pub rank : Level → ℕ
rank calm = 0
rank elevated = 1
rank critical = 2

-- `raw` is the level that the signals give; the second component is the new `fallStreak`.
unfoldable pub apply_hysteresis : Level → Level → ℕ → Level × ℕ
apply_hysteresis prev raw streak =
    if leb (rank prev) (rank raw)
    then (raw, 0)
    else (if leb 2 (streak + 1) then (raw, 0) else (prev, streak + 1))

abbrev pub squeeze_floor : ℕ
squeeze_floor = 256 * 2 ^ 20

abbrev pub squeeze_skip_below : ℕ
squeeze_skip_below = 32 * 2 ^ 20

abbrev pub max_squeezes : ℕ
max_squeezes = 2

-- `memory.current` is far below 2^56, where the product would overflow.
unfoldable pub squeeze_target : ℕ → ℕ
squeeze_target current = max (current * 70 / 100) squeeze_floor

module _ (f : Floats) where
  open f use {Float, of_int, truncate, decimal, mul, div, less}

  pub record Thresholds : Type 0 where
    pub low_pct : Float
    pub crit_pct : Float
    pub psi_some : Float
    pub psi_full : Float

  -- `int64(float64(totalMB) * pct / 100)`, at most `limit`.
  unfoldable pub water_line : ℤ → Float → ℤ → ℤ
  water_line total pct limit =
      let line = truncate (div (mul (of_int total) pct) (decimal 100 0)) in
      if ltb_ℤ limit line then limit else line

  unfoldable pub crit_water_mb : Thresholds → ℤ → ℤ
  unfolding water_line
  crit_water_mb t total = water_line total t.crit_pct (pos 2048)

  unfoldable pub classify_pressure : Thresholds → ℤ → ℤ → Float → Float → Level
  unfolding crit_water_mb
  classify_pressure t avail total psi_some psi_full =
      if ltb_ℤ avail (crit_water_mb t total) || less t.psi_full psi_full
      then critical
      else (if ltb_ℤ avail (water_line total t.low_pct (pos 4096)) || less t.psi_some psi_some
          then elevated
          else calm)

  pub record Vm : Type 0 where
    pub id : Text
    pub class : Text
    pub cpu_rate : Float
    pub last_act : Option ℕ
    pub current : ℕ
    pub squeezed : Bool
    pub created : Option ℕ

  -- `now.Sub(t) < d`, for a time that may be the zero time, which is long ago.
  abbrev pub younger : ℕ → Option ℕ → ℕ → Bool
  younger now none d = false
  younger now (some t) d = ltb (now - t) d

  abbrev pub before : Option ℕ → Option ℕ → Bool
  before none none = false
  before none (some t) = true
  before (some s) none = false
  before (some s) (some t) = ltb s t

  unfoldable pub coldness_less : Vm → Vm → Bool
  coldness_less a b =
      if less a.cpu_rate b.cpu_rate || less b.cpu_rate a.cpu_rate
      then less a.cpu_rate b.cpu_rate
      else before a.last_act b.last_act

  -- Plain sandboxes, warmed up, idle and quiet.
  unfoldable pub freeze_eligible : ℕ → Vm → Bool
  freeze_eligible now vm =
      text_eq vm.class (codes "sandbox")
      && (not (younger now vm.created (120 * second))
          && (not (younger now vm.last_act (60 * second)) && not (less (decimal 5 2) vm.cpu_rate)))

  -- `pressureState`; a missing key is the zero value.
  pub record State : Type 0 where
    pub level : Level
    pub fall_streak : ℕ
    pub last_freeze : Option ℕ
    pub squeeze_basis : Text → ℕ
    pub cooldown : Text → ℕ
    pub squeezed_at : Text → Option ℕ
    pub last_reclaim : Text → Option ℕ
    pub freezing : Text → Bool

  abbrev pub set {ℓ} : {A : Type ℓ} → Text → A → (Text → A) → Text → A
  set id a m k = if text_eq k id then a else m k

  pub data Action : Type 0 where
    unsqueeze : Vm → Action
    squeeze reclaim : Vm → ℕ → Action
    freeze : Vm → Action

  -- The host's answers: a write of memory.high, and whether a VM has a driver.
  pub record Host : Type 0 where
    pub write_high : Text → Bool
    pub has_driver : Text → Bool

  abbrev pub Run : Type 0
  Run = List Action × State

  abbrev pub act : Action → Run → Run
  act a (done, st) = (a ∷ done, st)

  -- The loop that lifts caps, with `k` lifts left.
  unfoldable pub unsqueeze_all : Host → ℕ → ℕ → List Vm → State → Run
  unsqueeze_all host now k [] st = ([], st)
  unsqueeze_all host now k (vm ∷ vms) st =
      let lifted = record st { squeezed_at = set vm.id none st.squeezed_at } in
      let skip = unsqueeze_all host now k vms st in
      let go = unsqueeze_all host now (k - 1) vms lifted in
      if not vm.squeezed || leb k 0
      then skip
      else (if younger now (st.squeezed_at vm.id) (90 * second)
          then skip
          else (if host.write_high vm.id then act (unsqueeze vm) go else skip))

  unfoldable pub reclaimable : ℕ → State → Vm → Bool
  reclaimable now st vm =
      not (vm.squeezed || (text_eq vm.class (codes "db") || ltb vm.current squeeze_skip_below))
      && (not (
            less (decimal 5 1) vm.cpu_rate
            || (younger now vm.last_act (300 * second) || younger now vm.created (300 * second)))
          && (not (younger now (st.last_reclaim vm.id) (600 * second))
              && (not (st.freezing vm.id) && ltb (squeeze_target vm.current) vm.current)))

  -- The loop that starts at most one reclaim (`reclaimPerTick`).
  unfoldable pub reclaim_one : ℕ → List Vm → State → Run
  unfolding reclaimable
  reclaim_one now [] st = ([], st)
  reclaim_one now (vm ∷ vms) st =
      let rest = reclaim_one now vms st in
      if reclaimable now st vm
      then (
        reclaim vm (vm.current - squeeze_target vm.current) ∷ [],
        record st {
          last_reclaim = set vm.id (some now) st.last_reclaim;
          freezing = set vm.id true st.freezing;
        },
      )
      else rest

  unfoldable pub squeezable : ℕ → Vm → Bool
  squeezable now vm =
      not (vm.squeezed || (text_eq vm.class (codes "db") || ltb vm.current squeeze_skip_below))
      && (not (less (decimal 5 1) vm.cpu_rate || younger now vm.last_act (60 * second))
          && not (text_eq vm.class (codes "app") && younger now vm.created (900 * second)))

  -- The loop that squeezes, with `k` squeezes left. The basis is kept also if the write fails.
  unfoldable pub squeeze_all : Host → ℕ → ℕ → List Vm → State → Run
  unfolding squeezable
  squeeze_all host now k [] st = ([], st)
  squeeze_all host now k (vm ∷ vms) st =
      let basis = max vm.current (st.squeeze_basis vm.id) in
      let based = record st { squeeze_basis = set vm.id basis st.squeeze_basis } in
      let capped = record based { squeezed_at = set vm.id (some now) st.squeezed_at } in
      let skip = squeeze_all host now k vms st in
      let failed = squeeze_all host now k vms based in
      let go = squeeze_all host now (k - 1) vms capped in
      if leb k 0
      then ([], st)
      else (if not (squeezable now vm)
          then skip
          else (if host.write_high vm.id
              then act (squeeze vm (squeeze_target basis)) go
              else failed))

  unfoldable pub freezable : Host → ℕ → State → Vm → Bool
  freezable host now st vm =
      not (st.freezing vm.id || ltb now (st.cooldown vm.id))
      && (freeze_eligible now vm && host.has_driver vm.id)

  unfoldable pub freeze_one : Host → ℕ → List Vm → State → Run
  unfolding freezable
  freeze_one host now [] st = ([], st)
  freeze_one host now (vm ∷ vms) st =
      let rest = freeze_one host now vms st in
      if freezable host now st vm
      then (
        freeze vm ∷ [],
        record st { last_freeze = some now; freezing = set vm.id true st.freezing },
      )
      else rest

  abbrev pub both : Run → (State → Run) → Run
  both (done, st) next = (done ++ (next st).0, (next st).1)

  -- What a tick does at a level; `backed` is swap and delegated memory, `scarce` the water line.
  unfoldable pub act_on :
      Host → Bool → Bool → ℕ → (List Vm → List Vm) → List Vm → Level → State → Run
  act_on host backed scarce now sort vms calm st =
      both (unsqueeze_all host now max_squeezes vms st)
        (λ st'. if backed then reclaim_one now vms st' else ([], st'))
  act_on host backed scarce now sort vms elevated st =
      if backed then squeeze_all host now max_squeezes (sort vms) st else ([], st)
  act_on host backed scarce now sort vms critical st =
      both (if backed then squeeze_all host now max_squeezes (sort vms) st else ([], st)) (λ st'.
        if scarce && not (younger now st'.last_freeze (60 * second))
        then freeze_one host now (sort vms) st'
        else ([], st'))

  -- The readings of one tick, after /proc was read; `reclaims` is the switch PANDASTACK_RECLAIM.
  pub record Reading : Type 0 where
    pub avail_mb : ℤ
    pub total_mb : ℤ
    pub swap_mb : ℤ
    pub psi_some : Float
    pub psi_full : Float
    pub tiers_ready : Bool
    pub delegated : Bool
    pub reclaims : Bool

  abbrev pub backed_at : Level → Reading → Bool
  backed_at calm r = r.reclaims && (positive r.swap_mb && r.delegated)
  backed_at elevated r = positive r.swap_mb && r.delegated
  backed_at critical r = positive r.swap_mb && r.delegated

  unfoldable pub tick :
      Thresholds → Host → Reading → ℕ → (List Vm → List Vm) → List Vm → State → Run
  unfolding classify_pressure apply_hysteresis crit_water_mb act_on
  tick t host r now sort vms st =
      let raw = classify_pressure t r.avail_mb r.total_mb r.psi_some r.psi_full in
      let (level, streak) = apply_hysteresis st.level raw st.fall_streak in
      let st' = record st { level = level; fall_streak = streak } in
      let scarce = ltb_ℤ r.avail_mb (crit_water_mb t r.total_mb) in
      if r.tiers_ready
      then act_on host (backed_at level r) scarce now sort vms level st'
      else ([], st')

  -- The end of a freeze or a reclaim: the victim of a failed freeze is parked for 15 minutes.
  unfoldable pub action_done : Text → Bool → ℕ → State → State
  action_done id failed now st = record st {
    freezing = set id false st.freezing;
    cooldown = if failed then set id (now + 900 * second) st.cooldown else st.cooldown;
  }
