-- ===== src/Fencing/Breaker.antt =====
-- db_fencing.go: `loopBreaker`, the circuit breaker of a background loop. Times are nanoseconds, and
-- none is the zero time; the lock makes each operation one step.
use pandastack_ai.Common.{
  ℕ, suc, ◌+◌, ◌≤◌, ◌≡◌, refl, Bool, true, false, not, ◌&&◌, Option, none, some, List, [], ◌∷◌,
  length, ltb, leb, if◌then◌else◌, arith,
}

pub record LoopBreaker : Type 0 where
  pub trip : ℕ
  pub park : ℕ
  pub fails : ℕ
  pub parked_until : Option ℕ
  pub tripped : Bool

unfoldable pub new_loop_breaker : ℕ → ℕ → LoopBreaker
new_loop_breaker trip park = record {
  trip = trip;
  park = park;
  fails = 0;
  parked_until = none;
  tripped = false;
}

-- `time.Now().After(b.parkedUntil)`
unfoldable pub allow : ℕ → LoopBreaker → Bool
allow now b = elim b.parked_until [ none ↦ true | some t ↦ ltb t now ]

unfoldable pub success : LoopBreaker → LoopBreaker
success b = record b { fails = 0; tripped = false; parked_until = none }

unfoldable pub fail : ℕ → LoopBreaker → Bool × LoopBreaker
fail now b =
    let n = b.fails + 1 in
    let parked = some (now + b.park) in
    if leb b.trip n && not b.tripped
    then (true, record b { fails = n; tripped = true; parked_until = parked })
    else (if b.tripped
        then (false, record b { fails = n; parked_until = parked })
        else (false, record b { fails = n }))

-- What a loop reports: a success, or a failure at a time.
pub data Report : Type 0 where
  went_well : Report
  went_wrong : ℕ → Report

abbrev pub report : Report → LoopBreaker → LoopBreaker
report went_well b = success b
report (went_wrong now) b = (fail now b).1

abbrev pub reports : List Report → LoopBreaker → LoopBreaker
reports [] b = b
reports (r ∷ rs) b = reports rs (report r b)

-- The alerts of a run: how often `Fail` returned true.
abbrev pub alerts : List ℕ → LoopBreaker → ℕ
alerts [] b = 0
alerts (now ∷ times) b = (if (fail now b).0 then 1 else 0) + alerts times (fail now b).1

-- The failures since the last success, with the time of the last one.
abbrev pub streak : List Report → ℕ × ℕ → ℕ × ℕ
streak [] s = s
streak (went_well ∷ rs) (n, t) = streak rs (0, 0)
streak (went_wrong now ∷ rs) (n, t) = streak rs (suc n, now)

-- A breaker that has seen `n` failures in a row, the last one at `t`.
pub record Counts (trip park : ℕ) (s : ℕ × ℕ) (b : LoopBreaker) : Type 0 where
  pub trips_at : b.trip ≡ trip
  pub parks_for : b.park ≡ park
  pub counted : b.fails ≡ s.0
  pub open_at : b.tripped ≡ leb trip s.0
  pub parked : b.parked_until ≡ (if leb trip s.0 then some (s.1 + park) else none)

fail-Counts :
    (trip park n t now : ℕ) (b : LoopBreaker)
    → Counts trip park (n, t) b
    → Counts trip park (suc n, now) (fail now b).1
unfolding fail
fail-Counts trip park n t now b c = ground arith

report-Counts :
    (trip park : ℕ) (s : ℕ × ℕ) (rs : List Report) (b : LoopBreaker)
    → 1 ≤ trip
    → Counts trip park s b
    → Counts trip park (streak rs s) (reports rs b)
unfolding success
report-Counts trip park s [] b h c = c
report-Counts trip park (n, t) (went_well ∷ rs) b h c =
    report-Counts trip park (0, 0) rs (success b) h
      (record {
        trips_at = c.trips_at;
        parks_for = c.parks_for;
        counted = refl;
        open_at = ground arith;
        parked = ground arith;
      })
report-Counts trip park (n, t) (went_wrong now ∷ rs) b h c =
    report-Counts trip park (suc n, now) rs (fail now b).1 h (fail-Counts trip park n t now b c)

-- A loop may run at `now` exactly where fewer than `trip` failures were reported since the last
-- success, or the last failure lies more than `park` back; whatever was reported before.
pub allow_lem :
    (trip park now : ℕ) (rs : List Report)
    → 1 ≤ trip
    → allow now (reports rs (new_loop_breaker trip park))
      ≡ (let (n, t) = streak rs (0, 0) in if leb trip n then ltb (t + park) now else true)
unfolding allow new_loop_breaker
allow_lem trip park now rs h =
    let c =
      report-Counts trip park (0, 0) rs (new_loop_breaker trip park) h
        (record {
          trips_at = refl;
          parks_for = refl;
          counted = refl;
          open_at = ground arith;
          parked = ground arith;
        }) in
    ground (arith, c.parked)

fail_alerts :
    (trip park n t now : ℕ) (b : LoopBreaker)
    → Counts trip park (n, t) b
    → (fail now b).0 ≡ (leb trip (suc n) && not (leb trip n))
unfolding fail
fail_alerts trip park n t now b c = ground (arith, c.counted, c.open_at, c.trips_at)

alerts-Counts :
    (trip park : ℕ) (s : ℕ × ℕ) (times : List ℕ) (b : LoopBreaker)
    → Counts trip park s b
    → alerts times b + (if leb trip s.0 then 1 else 0)
      ≡ (if leb trip (s.0 + length times) then 1 else 0)
alerts-Counts trip park (n, t) [] b c = ground arith
alerts-Counts trip park (n, t) (now ∷ times) b c =
    let later =
      alerts-Counts trip park (suc n, now) times (fail now b).1
        (fail-Counts trip park n t now b c) in
    let here_alert = fail_alerts trip park n t now b c in ground (arith, later, here_alert)

-- Failures in a row, however many, raise one alert, and none where there are fewer than `trip`.
pub alerts_once :
    (trip park : ℕ) (times : List ℕ)
    → 1 ≤ trip
    → alerts times (new_loop_breaker trip park) ≡ (if leb trip (length times) then 1 else 0)
unfolding new_loop_breaker
alerts_once trip park times h =
    let c =
      alerts-Counts trip park (0, 0) times (new_loop_breaker trip park)
        (record {
          trips_at = refl;
          parks_for = refl;
          counted = refl;
          open_at = ground arith;
          parked = ground arith;
        }) in
    ground (arith, c)
