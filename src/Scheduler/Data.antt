-- ===== src/Scheduler/Data.antt =====
-- The records of scheduler.go, and the float operations that it uses.
use pandastack_ai.Common.{ℕ, ◌*◌, ◌^◌, Bool, Option, none, some, Text, codes, if◌then◌else◌}
use pandastack_ai.Common.Int.{ℤ, pos, ◌-ℤ◌, ltb_ℤ}

-- float64: the arithmetic that the scores and budgets use. `decimal m k` is the constant m / 10^k.
pub record Floats : Type 1 where
  pub Float : Type 0
  pub of_int : ℤ → Float
  pub truncate : Float → ℤ
  pub decimal : ℕ → ℕ → Float
  pub add : Float → Float → Float
  pub mul : Float → Float → Float
  pub div : Float → Float → Float
  pub less : Float → Float → Bool

pub record Capacity : Type 0 where
  pub cpu_total : ℤ
  pub cpu_used : ℤ
  pub memory_mb : ℤ
  pub memory_used : ℤ
  pub sandboxes : ℤ
  pub stream_restore_enabled : Bool
  pub volume_provisioned_bytes : ℤ
  pub volumes_fs_size_bytes : ℤ
  pub volumes_fs_free_bytes : ℤ
  pub pool : Text

pub record Agent : Type 0 where
  pub id : Text
  pub endpoint : Text
  pub region : Text
  pub zone : Text
  pub version : Text
  pub status : Text
  pub capacity : Capacity
  pub last_heartbeat : ℕ

pub record Request : Type 0 where
  pub cpu : ℤ
  pub memory_mb : ℤ
  pub region : Text
  pub disk_bytes : ℤ
  pub require_pool : Text

pub record Reservation : Type 0 where
  pub cpu : ℤ
  pub mem_mb : ℤ
  pub disk : ℤ
  pub at : ℕ

abbrev pub pool_stateful : Text
pool_stateful = codes "stateful"

abbrev pub pool_ephemeral : Text
pool_ephemeral = codes "ephemeral"

-- `reservationTTL`, 15 s in nanoseconds.
abbrev pub reservation_ttl : ℕ
reservation_ttl = 15 * 10 ^ 9

abbrev pub default_reserved_cpu : ℤ
default_reserved_cpu = pos 8

-- 20 GiB.
abbrev pub volume_free_reserve_bytes : ℤ
volume_free_reserve_bytes = pos (20 * 2 ^ 30)

-- `x > 0`
abbrev pub positive : ℤ → Bool
positive x = ltb_ℤ (pos 0) x

module _ (f : Floats) where
  open f use {of_int, truncate, decimal, mul}

  -- The bytes of volumes that an agent can still admit; `none` if it reports no volume telemetry.
  unfoldable pub volume_headroom_bytes : Capacity → Option ℤ
  volume_headroom_bytes c =
      let budget =
        truncate (mul (decimal 30 1) (of_int c.volumes_fs_size_bytes))
        -ℤ c.volume_provisioned_bytes in
      let reserve = c.volumes_fs_free_bytes -ℤ volume_free_reserve_bytes in
      if positive c.volumes_fs_size_bytes
      then (if ltb_ℤ reserve budget then some reserve else some budget)
      else none
