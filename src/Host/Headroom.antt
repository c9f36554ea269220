-- ===== src/Host/Headroom.antt =====
-- volumes_headroom.go: the decision on a new volume, beside the view that the scheduler has.
use pandastack_ai.Common.{
  ◌≡◌, ◌↔◌, ◌⊎◌, refl, sym, subst, inl, inr, Bool, true, false, not, none, some, Bool-cases,
  if◌then◌else◌, arith,
}
use pandastack_ai.Common.Int.{ℤ, pos, ◌+ℤ◌, ◌-ℤ◌, ◌≤ℤ◌, ltb_ℤ, int_laws}
use pandastack_ai.Scheduler.Data.{
  Floats, Capacity, positive, volume_headroom_bytes, volume_free_reserve_bytes,
}

-- The reason of a refusal; `admitted` is the empty one.
pub data Decision : Type 0 where
  admitted over_budget low_free_space : Decision

module _ (f : Floats) where
  open f use {Float, of_int, truncate, decimal, mul}

  -- `headroomState`. Sums of bytes stay below 2^63 and are taken as unbounded.
  pub record HeadroomState : Type 0 where
    pub provisioned_bytes : ℤ
    pub request_bytes : ℤ
    pub fs_size_bytes : ℤ
    pub fs_free_bytes : ℤ
    pub oversub_factor : Float
    pub free_reserve_bytes : ℤ

  unfoldable pub headroom_decision : HeadroomState → Decision
  headroom_decision st =
      let budget = truncate (mul st.oversub_factor (of_int st.fs_size_bytes)) in
      if not (positive st.fs_size_bytes)
      then admitted
      else (if ltb_ℤ budget (st.provisioned_bytes +ℤ st.request_bytes)
          then over_budget
          else (if ltb_ℤ st.fs_free_bytes st.free_reserve_bytes then low_free_space else admitted))

  -- The state that `checkVolumeHeadroom` gathers, with the default limits, from the numbers that the
  -- agent reports to the scheduler.
  abbrev pub reported : Capacity → ℤ → HeadroomState
  reported c request = record {
    provisioned_bytes = c.volume_provisioned_bytes;
    request_bytes = request;
    fs_size_bytes = c.volumes_fs_size_bytes;
    fs_free_bytes = c.volumes_fs_free_bytes;
    oversub_factor = decimal 30 1;
    free_reserve_bytes = volume_free_reserve_bytes;
  }

smaller : (a b : ℤ) → ((if ltb_ℤ a b then a else b) ≤ℤ a) × ((if ltb_ℤ a b then a else b) ≤ℤ b)
smaller a b = elim (Bool-cases (ltb_ℤ a b)) [
  | inl e ↦ rw e (omega arith, ground arith)
  | inr e ↦ rw e (ground arith, omega arith)
]

fits :
    (budget provisioned request : ℤ)
    → request ≤ℤ (budget -ℤ provisioned)
    → ltb_ℤ budget (provisioned +ℤ request) ≡ false
fits budget provisioned request h =
    let le : (provisioned +ℤ request) ≤ℤ budget = omega (int_laws, h) in ground arith

enough_free :
    (free reserve request : ℤ)
    → pos 0 ≤ℤ request
    → request ≤ℤ (free -ℤ reserve)
    → ltb_ℤ free reserve ≡ false
enough_free free reserve request n h =
    let le : reserve ≤ℤ free = omega (int_laws, n, h) in ground arith

le_trans : (a b c : ℤ) → a ≤ℤ b → b ≤ℤ c → a ≤ℤ c
le_trans a b c h k = omega arith

chosen :
    (p b : Bool) (x y room : ℤ)
    → (if p then (if b then some x else some y) else none) ≡ some room
    → p ≡ true
    → (if b then x else y) ≡ room
chosen true true x y room e h = cc
chosen true false x y room e h = cc
chosen false b x y room e h = absurd cc

-- The scheduler's view and the agent's agree: where an agent reports a volume telemetry and the
-- headroom that the scheduler computes from it admits a request, the agent's own decision, on the
-- same numbers and with the default limits, admits it too.
pub headroom-headroom :
    (f : Floats) (c : Capacity) (request room : ℤ)
    → volume_headroom_bytes f c ≡ some room
    → pos 0 ≤ℤ request
    → request ≤ℤ room
    → headroom_decision f (reported f c request) ≡ admitted
unfolding headroom_decision volume_headroom_bytes
headroom-headroom f c request room e n h = elim (Bool-cases (positive c.volumes_fs_size_bytes)) [
  | inl known ↦
      let budget = f.truncate (f.mul (f.decimal 30 1) (f.of_int c.volumes_fs_size_bytes)) in
      let left = budget -ℤ c.volume_provisioned_bytes in
      let free = c.volumes_fs_free_bytes -ℤ volume_free_reserve_bytes in
      let least = smaller free left in
      let is : (if ltb_ℤ free left then free else left) ≡ room =
        chosen (positive c.volumes_fs_size_bytes) (ltb_ℤ free left) free left room e known in
      let in_room : request ≤ℤ (if ltb_ℤ free left then free else left) =
        subst (λ r. request ≤ℤ r) (sym is) h in
      rw
        (
          known,
          fits budget c.volume_provisioned_bytes request (le_trans request _ left in_room least.1),
          enough_free c.volumes_fs_free_bytes volume_free_reserve_bytes request n
              (le_trans request _ free in_room least.0),
        )
        refl
  | inr unknown ↦ rw unknown refl
]

-- A volume is admitted exactly where the size of the file system is unknown, or all the volumes with
-- the new one stay in the budget and the free space is not below the reserve.
pub headroom_decision_lem :
    (f : Floats) (st : HeadroomState f)
    → let budget = f.truncate (f.mul st.oversub_factor (f.of_int st.fs_size_bytes)) in
      (headroom_decision f st ≡ admitted) ↔ (
        (positive st.fs_size_bytes ≡ false)
        ⊎ (((st.provisioned_bytes +ℤ st.request_bytes) ≤ℤ budget)
            × (st.free_reserve_bytes ≤ℤ st.fs_free_bytes)))
unfolding headroom_decision
headroom_decision_lem f st = ground arith
