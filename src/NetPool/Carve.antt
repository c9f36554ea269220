-- ===== src/NetPool/Carve.antt =====
-- pool.go and natid.go: the subnets that the slots stand for.
use pandastack_ai.Common.{
  ℕ, ◌+◌, ◌*◌, ◌^◌, ◌<◌, ◌≤◌, ◌≡◌, ◌≢◌, ap, false, none, some, ltb, if◌then◌else◌, arith,
}
use pandastack_ai.SlotStore.{u32}
use pandastack_ai.NetPool.{Net, Carved, addresses, pool_capacity, carve, natid_base, carve_natid}

-- A network as it is parsed: at least one bit of prefix, and a block that ends in the address space.
pub record Block (base : Net) : Type 0 where
  pub prefixed : 1 ≤ base.ones
  pub inside : base.ip + addresses base ≤ 2 ^ 32

abbrev carved_of : ℕ → ℕ → ℕ → Carved
carved_of a h g = record { subnet = record { ip = a; ones = 30 }; host = h; guest = g }

same_carved : (a b h k g l : ℕ) → a ≡ b → h ≡ k → g ≡ l → carved_of a h g ≡ carved_of b k l
same_carved a b h k g l e f m = cc

-- An index below the capacity is carved, without a wrap-around.
carved_at :
    (base : Net) (idx : ℕ)
    → Block base
    → idx < pool_capacity base
    → carve base idx
      ≡ some (carved_of (base.ip + idx * 4) (base.ip + idx * 4 + 1) (base.ip + idx * 4 + 2))
unfolding carve pool_capacity
carved_at base idx b h =
    let inside = b.inside in
    let small : u32 (idx * 4) ≡ idx * 4 = omega (arith, h, inside) in
    let step : u32 (u32 (idx * 4) + 4) ≤ idx * 4 + 4 = omega arith in
    let fits : ltb (addresses base) (u32 (u32 (idx * 4) + 4)) ≡ false = ground (arith, h, step) in
    let start : u32 (base.ip + u32 (idx * 4)) ≡ base.ip + idx * 4 = omega (arith, h, inside) in
    let host : u32 (u32 (base.ip + u32 (idx * 4)) + 1) ≡ base.ip + idx * 4 + 1 =
      omega (arith, h, inside) in
    let guest : u32 (u32 (base.ip + u32 (idx * 4)) + 2) ≡ base.ip + idx * 4 + 2 =
      omega (arith, h, inside) in
    rw fits (ap some (same_carved _ _ _ _ _ _ start host guest))

-- Below 2^29, where no sum wraps around, a slot has a veth pair exactly where it is
-- one of the 16384 of the pool, and the pair is then the second and third address of its /30.
pub carve_natid_lem :
    (idx : ℕ)
    → idx < 2 ^ 29
    → carve_natid idx ≡ (
        if ltb idx (2 ^ 14)
        then some (natid_base + idx * 4 + 1, natid_base + idx * 4 + 2)
        else none)
unfolding carve_natid
carve_natid_lem idx h = ground arith

-- The four addresses of a subnet.
abbrev pub Holds : Carved → ℕ → Type 0
Holds c a = (c.subnet.ip ≤ a) × (a < c.subnet.ip + 4)

-- What is promised of two slots of one network.
pub record Apart (base : Net) (c d : Carved) : Type 0 where
  pub disjoint : (a : ℕ) → Holds c a → Holds d a → ⊥
  pub in_block : (a : ℕ) → Holds c a → (base.ip ≤ a) × (a < base.ip + addresses base)
  pub host_held : Holds c c.host
  pub guest_held : Holds c c.guest
  pub two : c.host ≢ c.guest

-- Two indices below the capacity of a network get subnets with no address in common, inside the
-- block of the network, each with its own host and guest address.
pub carve-Apart :
    (base : Net) (i j : ℕ)
    → Block base
    → i < pool_capacity base
    → j < pool_capacity base
    → i ≢ j
    → (c : Carved) × (d : Carved) × (carve base i ≡ some c)
      × (carve base j ≡ some d)
      × Apart base c d
unfolding pool_capacity
carve-Apart base i j b hi hj ne = (
  _,
  _,
  carved_at base i b hi,
  carved_at base j b hj,
  record {
    disjoint = λ a x y. ne (omega (arith, x, y));
    in_block = λ a x. (omega (arith, x), omega (arith, x, hi));
    host_held = (omega arith, omega arith);
    guest_held = (omega arith, omega arith);
    two = λ e. omega (arith, e);
  },
)
