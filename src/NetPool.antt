-- ===== src/NetPool.antt =====
-- agent/internal/network/pool.go and natid.go: the network of each sandbox, over the ledger of
-- slots. The kernel (internal/netns and the commands `ip` and `iptables`) and the printing of
-- addresses are parameters; the main store is a function from ids to payloads, kept as JSON there.
pub mod Carve
pub mod Pool
pub mod Allocate
pub mod Release
pub mod Recovery
pub mod Grants
pub mod Legacy
pub mod Orphans
pub mod Examples
use pandastack_ai.Common.{
  ℕ, ◌+◌, ◌-◌, ◌*◌, ◌/◌, ◌%◌, ◌^◌, Bool, true, false, not, ◌&&◌, Option, none, some, List, [], ◌∷◌,
  ◌++◌, map, take, length, Text, text_eq, codes, ltb, leb, if◌then◌else◌,
}
use pandastack_ai.SlotStore.{u32}

-- `net.IPNet`: the address as a number, and the length of the prefix.
pub record Net : Type 0 where
  pub ip : ℕ
  pub ones : ℕ

pub record Carved : Type 0 where
  pub subnet : Net
  pub host : ℕ
  pub guest : ℕ

-- `uint32(1) << (32 - ones)`
abbrev pub addresses : Net → ℕ
addresses base = u32 (2 ^ (32 - base.ones))

unfoldable pub pool_capacity : Net → ℕ
pool_capacity base = addresses base / 4

unfoldable pub carve : Net → ℕ → Option Carved
carve base idx =
    let start = u32 (base.ip + u32 (idx * 4)) in
    if ltb (addresses base) (u32 (u32 (idx * 4) + 4))
    then none
    else some (record {
      subnet = record { ip = start; ones = 30 };
      host = u32 (start + 1);
      guest = u32 (start + 2);
    })

-- `natidPoolBase`, 10.200.0.0/16.
abbrev pub natid_base : ℕ
natid_base = 10 * 2 ^ 24 + 200 * 2 ^ 16

-- The host side and the guest side of the veth pair of a slot.
unfoldable pub carve_natid : ℕ → Option (ℕ × ℕ)
carve_natid idx =
    let start = u32 (natid_base + u32 (idx * 4)) in
    if ltb (natid_base + 2 ^ 16) (u32 (start + 4))
    then none
    else some (u32 (start + 1), u32 (start + 2))
