-- ===== src/Pressure/Examples.antt =====
-- A tick of the pressure ladder on two VMs.
use pandastack_ai.Common.{
  ◌*◌, ◌/◌, ◌^◌, ◌<◌, ◌≡◌, refl, true, false, none, List, [], ◌∷◌, Text, codes, All, Text-discrete,
  arith,
}
use pandastack_ai.Common.Int.{ℤ, pos, ltb_ℤ, ◌+ℤ◌}
use pandastack_ai.Scheduler.Data.{Floats}
use pandastack_ai.Pressure.{
  calm, critical, rank, Thresholds, Vm, State, Host, Reading, Action, tick, act_on, squeeze_all,
  freeze_one, squeezable, freezable, freeze_eligible, squeeze_target, classify_pressure,
  crit_water_mb, water_line, apply_hysteresis,
}
use pandastack_ai.Pressure.Levels.{settled}
use pandastack_ai.Pressure.Scarcity.{freezes, tick_freeze_scarce}
use pandastack_ai.Pressure.Safety.{Allowed, tick-Allowed}

-- Numbers in place of floats.
abbrev numbers : Floats
numbers = record {
  Float = ℤ;
  of_int = λ x. x;
  truncate = λ x. x;
  decimal = λ m k. pos m;
  add = λ x y. x +ℤ y;
  mul = λ x y. y;
  div = λ x y. x;
  less = ltb_ℤ;
}

abbrev thresholds : Thresholds numbers
thresholds = record { low_pct = pos 900; crit_pct = pos 500; psi_some = pos 10; psi_full = pos 5 }

abbrev host : Host numbers
host = record { write_high = λ _. true; has_driver = λ _. true }

abbrev reading : Reading numbers
reading = record {
  avail_mb = pos 100;
  total_mb = pos 10000;
  swap_mb = pos 1;
  psi_some = pos 0;
  psi_full = pos 0;
  tiers_ready = true;
  delegated = true;
  reclaims = true;
}

abbrev vm : Text → Vm numbers
vm class = record {
  id = class;
  class = class;
  cpu_rate = pos 0;
  last_act = none;
  current = 2 ^ 30;
  squeezed = false;
  created = none;
}

abbrev vms : List (Vm numbers)
vms = vm (codes "db") ∷ vm (codes "sandbox") ∷ []

abbrev start : State numbers
start = record {
  level = calm;
  fall_streak = 0;
  last_freeze = none;
  squeeze_basis = λ _. 0;
  cooldown = λ _. 0;
  squeezed_at = λ _. none;
  last_reclaim = λ _. none;
  freezing = λ _. false;
}

tick-Allowed_example :
    All (Allowed numbers 7) (tick numbers thresholds host reading 7 (λ xs. xs) vms start).0
tick-Allowed_example = tick-Allowed numbers thresholds host reading 7 (λ xs. xs) vms start

-- The database is left alone; the sandbox is capped at 70 % and frozen.
critical_tick :
    (tick numbers thresholds host reading 7 (λ xs. xs) vms start).0
    ≡ Action.squeeze (vm (codes "sandbox")) (2 ^ 30 * 70 / 100)
      ∷ Action.freeze (vm (codes "sandbox"))
      ∷ []
unfolding tick act_on squeeze_all freeze_one squeezable freezable freeze_eligible squeeze_target
    classify_pressure crit_water_mb water_line apply_hysteresis Text-discrete
critical_tick = refl

-- Stalls without scarcity.
abbrev stalled : Reading numbers
stalled = record reading { avail_mb = pos 9000; psi_full = pos 50 }

plenty : ltb_ℤ stalled.avail_mb (crit_water_mb numbers thresholds stalled.total_mb) ≡ false
unfolding crit_water_mb water_line
plenty = refl

tick_freeze_scarce_example :
    freezes numbers (tick numbers thresholds host stalled 7 (λ xs. xs) vms start).0 ≡ 0
tick_freeze_scarce_example =
    tick_freeze_scarce numbers thresholds host stalled 7 (λ xs. xs) vms start plenty

fallen : rank (settled (calm ∷ calm ∷ critical ∷ [])).0 < rank (settled (calm ∷ critical ∷ [])).0
unfolding settled apply_hysteresis
fallen = omega arith
