-- ===== src/Scheduler/Choose.antt =====
-- `Pick` of scheduler.go: filters, scores and the choice.
use pandastack_ai.Common.{
  ℕ, ◌^◌, Bool, true, not, ◌&&◌, Option, none, some, List, [], ◌∷◌, Text, text_eq, codes,
  if◌then◌else◌,
}
use pandastack_ai.Common.Int.{ℤ, pos, ◌-ℤ◌, ltb_ℤ}
use pandastack_ai.Scheduler.Data.{
  Floats, Agent, Request, pool_stateful, positive, volume_headroom_bytes,
}
use pandastack_ai.Scheduler.Reserve.{Totals, Reservations, prune, reserved, reserve}

pub record Config : Type 1 where
  pub floats : Floats
  -- `strings.TrimSpace`
  pub trim : Text → Text
  -- `cpuOvercommit`, if CPU admission is enabled.
  pub cpu_overcommit : Option (floats.Float)

pub data PickError : Type 0 where
  no_agents list_failed : PickError

pub data Picked : Type 0 where
  ok : Agent → Picked
  err : PickError → Picked

module _ (cfg : Config) where
  open cfg.floats use {Float, of_int, truncate, decimal, add, mul, div, less}

  unfoldable pub agent_pool : Agent → Text
  agent_pool a = let p = cfg.trim a.capacity.pool in if text_eq p [] then pool_stateful else p

  unfoldable pub want_pool : Request → Text
  want_pool req = if positive req.disk_bytes then pool_stateful else req.require_pool

  unfoldable pub free_cpu : Agent → Totals → ℤ
  free_cpu a t = a.capacity.cpu_total -ℤ a.capacity.cpu_used -ℤ t.cpu

  unfoldable pub free_mem : Agent → Totals → ℤ
  free_mem a t = a.capacity.memory_mb -ℤ a.capacity.memory_used -ℤ t.mem_mb

  -- `schedulableCPU`, against the request.
  unfoldable pub cpu_admits : Request → Agent → Totals → Bool
  cpu_admits req a t = elim cfg.cpu_overcommit [
    | none ↦ true
    | some factor ↦ not (
        positive req.cpu
        && ltb_ℤ
            (truncate (mul (of_int a.capacity.cpu_total) factor) -ℤ a.capacity.cpu_used -ℤ t.cpu)
            req.cpu)
  ]

  -- The tests before the score: status, region, pool, CPU and memory.
  unfoldable pub passes : Request → Agent → Totals → Bool
  passes req a t =
      text_eq a.status (codes "active")
      && (not (
            not (text_eq req.region [])
            && (not (text_eq a.region []) && not (text_eq req.region a.region)))
          && (not (not (text_eq (want_pool req) []) && not (text_eq (agent_pool a) (want_pool req)))
              && (cpu_admits req a t
                  && not (positive req.memory_mb && ltb_ℤ (free_mem a t) req.memory_mb))))

  -- The score of a volume placement; `none` where the known headroom is too small.
  unfoldable pub volume_score : Request → Agent → Totals → Option Float
  volume_score req a t =
      let tie = mul (of_int (free_cpu a t)) (decimal 1 2) in
      elim (volume_headroom_bytes cfg.floats a.capacity) [
        | none ↦ some (add (decimal 0 0) tie)
        | some hr ↦
            let room = hr -ℤ t.disk in
            if ltb_ℤ room req.disk_bytes
            then none
            else some (add (div (of_int room) (of_int (pos (2 ^ 30)))) tie)
      ]

  unfoldable pub sandbox_score : Agent → Totals → Float
  sandbox_score a t =
      let fit =
        add (mul (of_int (free_cpu a t)) (decimal 6 1))
          (mul (div (of_int (free_mem a t)) (decimal 10240 1)) (decimal 3 1)) in
      if a.capacity.stream_restore_enabled then add fit (decimal 50 1) else fit

  -- One round of the loop: the score of an agent that is not skipped.
  unfoldable pub score : Request → Agent → Totals → Option Float
  score req a t =
      if passes req a t
      then (if positive req.disk_bytes then volume_score req a t else some (sandbox_score a t))
      else none

  abbrev pub Scored : Type 0
  Scored = Agent × Float

  abbrev pub consider : Agent → Option Float → List Scored → List Scored
  consider a none rest = rest
  consider a (some s) rest = (a, s) ∷ rest

  unfoldable pub candidates : Request → Reservations → List Agent → List Scored
  candidates req m [] = []
  candidates req m (a ∷ agents) =
      consider a (score req a (reserved a.id m)) (candidates req m agents)

  -- `candidates[i].score > candidates[j].score`
  abbrev pub better : Scored → Scored → Bool
  better x y = less y.1 x.1

  module _ (sort_slice : (Scored → Scored → Bool) → List Scored → List Scored) where
    abbrev pub settle : Request → ℕ → Reservations → List Scored → Picked × Reservations
    settle req now m [] = (err no_agents, m)
    settle req now m (x ∷ xs) = (ok x.0, reserve x.0.id req now m)

    -- `agents` is the answer of `List`, none if it failed.
    unfoldable pub pick : Request → ℕ → Reservations → Option (List Agent) → Picked × Reservations
    pick req now m none = (err list_failed, m)
    pick req now m (some agents) =
        let live = prune now m in
        settle req now live (sort_slice better (candidates req live agents))
