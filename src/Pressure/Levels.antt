-- ===== src/Pressure/Levels.antt =====
-- The hysteresis of the pressure level in pressure.go, over a run of readings.
use pandastack_ai.Common.{ℕ, ◌<◌, ◌≤◌, List, [], ◌∷◌, arith}
use pandastack_ai.Pressure.{Level, calm, rank, apply_hysteresis}

-- The level and the streak after some readings, the latest first.
unfoldable pub settled : List Level → Level × ℕ
settled [] = (calm, 0)
settled (raw ∷ raws) = apply_hysteresis (settled raws).0 raw (settled raws).1

hysteresis_step :
    (prev raw : Level) (streak : ℕ)
    → streak ≤ 1
    → ((apply_hysteresis prev raw streak).1 ≤ 1)
      × (rank raw ≤ rank (apply_hysteresis prev raw streak).0)
unfolding apply_hysteresis
hysteresis_step prev raw streak h = ground arith

settled_streak : (raws : List Level) → (settled raws).1 ≤ 1
unfolding settled
settled_streak [] = omega arith
settled_streak (raw ∷ raws) =
    (hysteresis_step (settled raws).0 raw (settled raws).1 (settled_streak raws)).0

-- The level is never below the latest reading: a rise takes effect at once.
pub settled_above : (raw : Level) (raws : List Level) → rank raw ≤ rank (settled (raw ∷ raws)).0
unfolding settled
settled_above raw raws =
    (hysteresis_step (settled raws).0 raw (settled raws).1 (settled_streak raws)).1

fall_step :
    (p r q : Level) (s : ℕ)
    → s ≤ 1
    → let (level, streak) = apply_hysteresis p r s in
      rank (apply_hysteresis level q streak).0 < rank level
      → (rank q < rank level) × (rank r < rank level)
unfolding apply_hysteresis
fall_step p r q s h = ground arith

-- The level falls only after two consecutive readings below it.
pub settled_fall :
    (q r : Level) (raws : List Level)
    → rank (settled (q ∷ r ∷ raws)).0 < rank (settled (r ∷ raws)).0
    → (rank q < rank (settled (r ∷ raws)).0) × (rank r < rank (settled (r ∷ raws)).0)
unfolding settled
settled_fall q r raws h = fall_step (settled raws).0 r q (settled raws).1 (settled_streak raws) h
