-- ===== src/NetPool/Pool.antt =====
-- pool.go and natid.go: the operations of the pool. Every effect is a function on the world; a
-- failure is an answer that the argument `Answers` gives.
use pandastack_ai.Common.{
  ℕ, Bool, Option, none, some, List, [], ◌∷◌, ◌++◌, take, Text, text_eq, codes, ◌==◌, if◌then◌else◌,
}
use pandastack_ai.SlotStore.{Faults, Error, ok, err, release}
use pandastack_ai.SlotStore.Rows.{Table}
use pandastack_ai.NetPool.{Net}
use pandastack_ai.Host.Growth.{has_prefix}

pub record Allocation : Type 0 where
  pub sandbox_id : Text
  pub tap : Text
  pub host_ip : Text
  pub guest_ip : Text
  pub mac : Text
  pub vsock_cid : ℕ
  pub subnet : Text
  pub idx : ℕ

pub record NatidAlloc : Type 0 where
  pub sandbox_id : Text
  pub netns : Text
  pub veth_host : Text
  pub veth_guest : Text
  pub proxy_host_ip : Text
  pub proxy_guest_ip : Text
  pub tap_name : Text
  pub tap_host_ip : Text
  pub guest_ip : Text
  pub mac : Text
  pub idx : ℕ

abbrev pub Ports : Type 0
Ports = List (ℕ × ℕ)

-- `netns.Spec`, without its constant fields.
pub record Spec : Type 0 where
  pub name : Text
  pub veth_host : Text
  pub veth_guest : Text
  pub veth_host_ip : Text
  pub veth_guest_ip : Text
  pub tap_host_ip : Text
  pub guest_ip : Text
  pub port_map : Ports

-- The kernel, as the pool drives it; a first component false is an error.
pub record Kernel : Type 1 where
  pub State : Type 0
  pub create : Spec → State → Bool × State
  pub destroy : Text → Text → State → State
  pub clear_stale : Text → Text → State → State
  pub setup_tap : Allocation → State → Bool × State
  pub teardown_tap : Text → State → State

-- `net.IP.String`, `net.IPNet.String`, the formats `p%08x`, `%d` and of `macFromIP`.
pub record Printing : Type 0 where
  pub ip_string : ℕ → Text
  pub net_string : Net → Text
  pub natid_short : ℕ → Text
  pub decimal : ℕ → Text
  pub mac_from_ip : ℕ → Text

-- The free list of an identity has the slot that was parked last in front.
pub record World (k : Kernel) : Type 0 where
  pub slots : Table
  pub payload : Text → Option Allocation
  pub kernel : k.State
  pub next_cid : ℕ
  pub natid_free : Text → List NatidAlloc

-- What the calls of one operation meet with: the statements of each call of the ledger, the time,
-- and whether the calls of the main store fail.
pub record Answers : Type 0 where
  pub claim_db : Faults
  pub reassign_db : Faults
  pub release_db : Faults
  pub now : ℕ
  pub save_fails : Bool
  pub get_fails : Bool
  pub delete_fails : Bool

pub data NetError : Type 0 where
  slot_error : Error → NetError
  pool_exhausted tap_failed create_failed save_failed delete_failed : NetError

pub data NetResult {ℓ} (A : Type ℓ) : Type ℓ where
  done : A → NetResult A
  refused : NetError → NetResult A

abbrev pub put {ℓ} : {A : Type ℓ} → Text → A → (Text → A) → Text → A
put id a m j = if text_eq j id then a else m j

-- `strings.ReplaceAll(sandboxID, "-", "")`
unfoldable pub strip_dashes : Text → Text
strip_dashes [] = []
strip_dashes (c ∷ cs) = let rest = strip_dashes cs in if c == 45 then rest else c ∷ rest

unfoldable pub tap_name : Text → Text
unfolding strip_dashes
tap_name id = codes "fc" ++ take 12 (strip_dashes id)

unfoldable pub short_hex : Text → Text
unfolding strip_dashes
short_hex id = take 10 (strip_dashes id)

-- `strings.Join(parts, "|")`; `ports` is in the order in which the map is ranged over.
unfoldable pub natid_identity_key : Printing → Text → Text → Text → Ports → Text
natid_identity_key pr host guest mac ports =
    host ++ codes "|" ++ guest ++ codes "|" ++ mac ++ tail ports
  where
    tail : Ports → Text
    tail [] = []
    tail ((a, b) ∷ rest) = codes "|" ++ pr.decimal a ++ codes ":" ++ pr.decimal b ++ tail rest

-- `if ports == nil { ports = map[int]int{22: 22} }`
abbrev pub ports_or_ssh : Option Ports → Ports
ports_or_ssh none = (22, 22) ∷ []
ports_or_ssh (some ps) = ps

module _ {k : Kernel} where
  -- The calls whose results are not read.
  abbrev pub free_slot : Answers → Text → World k → World k
  free_slot a id w = record w { slots = (release a.release_db id w.slots).1 }

  abbrev pub destroy_netns : Text → Text → World k → World k
  destroy_netns name veth w = record w { kernel = k.destroy name veth w.kernel }

  abbrev pub save : Text → Allocation → World k → World k
  save id al w = record w { payload = put id (some al) w.payload }

  -- `DeleteAllocation`
  abbrev pub delete_payload : Answers → Text → World k → World k
  delete_payload a id w = if a.delete_fails then w else record w { payload = put id none w.payload }

  -- The kernel objects that a payload names; a missing payload, or one that cannot be read, names none.
  abbrev pub tear_down : Option Allocation → World k → World k
  tear_down none w = w
  tear_down (some al) w =
      if text_eq al.tap []
      then w
      else (if has_prefix al.tap (codes "ns-")
          then destroy_netns al.tap al.subnet w
          else record w { kernel = k.teardown_tap al.tap w.kernel })

  abbrev pub read_payload : Answers → Text → World k → Option Allocation
  read_payload a id w = if a.get_fails then none else w.payload id

  -- The writes of `Release` and of `ReleaseNATID`, in their order.
  unfoldable pub release_steps : Answers → Text → World k → List (World k → World k)
  release_steps a id w = tear_down (read_payload a id w) ∷ delete_payload a id ∷ free_slot a id ∷ []

  abbrev pub run : List (World k → World k) → World k → World k
  run [] w = w
  run (f ∷ fs) w = run fs (f w)

  -- The error of the release of the slot goes before that of the payload.
  unfoldable pub release_natid : Answers → Text → World k → Option NetError × World k
  unfolding release_steps
  release_natid a id w =
      let failed = (if a.delete_fails then some delete_failed else none) in
      (
        elim (release a.release_db id w.slots).0 [ ok _ ↦ failed | err e ↦ some (slot_error e) ],
        run (release_steps a id w) w,
      )
