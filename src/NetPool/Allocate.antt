-- ===== src/NetPool/Allocate.antt =====
-- pool.go `Allocate` and natid.go `PrebuildNATID` and `AllocateNATID`.
use pandastack_ai.Common.{
  ℕ, ◌+◌, true, not, Option, none, some, [], ◌∷◌, ◌++◌, length, Text, codes, if◌then◌else◌,
}
use pandastack_ai.SlotStore.{ok, err, u32, claim, claim_prebuilt, reassign}
use pandastack_ai.SlotStore.Hex.{prebuilt_owner}
use pandastack_ai.NetPool.{Net, Carved, carve, carve_natid}
use pandastack_ai.NetPool.Pool.{
  Allocation, NatidAlloc, Ports, Spec, Kernel, Printing, World, Answers, slot_error, pool_exhausted,
  tap_failed, create_failed, save_failed, NetResult, done, refused, put, tap_name, short_hex,
  natid_identity_key, ports_or_ssh, free_slot, destroy_netns, save,
}

-- The baked identity of a template, as the caller gives it.
pub record Baked : Type 0 where
  pub tap_host_ip : Text
  pub guest_ip : Text
  pub mac : Text
  pub ports : Option Ports

module _ (pr : Printing) where
  abbrev pub legacy_payload : Text → ℕ → ℕ → Carved → Allocation
  legacy_payload id cid idx c = record {
    sandbox_id = id;
    tap = tap_name id;
    host_ip = pr.ip_string c.host;
    guest_ip = pr.ip_string c.guest;
    mac = pr.mac_from_ip c.guest;
    vsock_cid = cid;
    subnet = pr.net_string c.subnet;
    idx = idx;
  }

  abbrev pub spec_of : Text → ℕ × ℕ → Baked → Spec
  spec_of short (host, guest) b = record {
    name = codes "ns-" ++ short;
    veth_host = codes "vh-" ++ short;
    veth_guest = codes "vg-" ++ short;
    veth_host_ip = pr.ip_string host;
    veth_guest_ip = pr.ip_string guest;
    tap_host_ip = b.tap_host_ip;
    guest_ip = b.guest_ip;
    port_map = ports_or_ssh b.ports;
  }

abbrev pub slot_of : Text → Spec → Baked → ℕ → NatidAlloc
slot_of id s b idx = record {
  sandbox_id = id;
  netns = s.name;
  veth_host = s.veth_host;
  veth_guest = s.veth_guest;
  proxy_host_ip = s.veth_host_ip;
  proxy_guest_ip = s.veth_guest_ip;
  tap_name = codes "tap0";
  tap_host_ip = b.tap_host_ip;
  guest_ip = b.guest_ip;
  mac = b.mac;
  idx = idx;
}

-- The payload of a slot: the TAP is the namespace, the subnet the veth.
abbrev pub natid_payload : Text → NatidAlloc → Allocation
natid_payload id s = record {
  sandbox_id = id;
  tap = s.netns;
  host_ip = s.proxy_host_ip;
  guest_ip = s.guest_ip;
  mac = s.mac;
  vsock_cid = 0;
  subnet = s.veth_host;
  idx = s.idx;
}

module _ {k : Kernel} (pr : Printing) where
  -- From the TAP on. The number of the next vsock CID is written too, and its error not read.
  unfoldable pub wire_tap : Answers → Text → Allocation → World k → NetResult Allocation × World k
  wire_tap a id al w =
      let (fine, s) = k.setup_tap al w.kernel in
      let wired = record w { kernel = s } in
      if not fine
      then (refused tap_failed, free_slot a id wired)
      else (if a.save_fails
          then (refused save_failed, free_slot a id (record w { kernel = k.teardown_tap al.tap s }))
          else (done al, save id al wired))

  unfoldable pub allocate : Answers → Net → Text → World k → NetResult Allocation × World k
  unfolding wire_tap
  allocate a base id w =
      let (r, t) = claim a.claim_db a.now id (codes "legacy") w.slots in
      let cid = w.next_cid in
      let claimed = record w { slots = t; next_cid = u32 (cid + 1) } in
      elim r [
        | err e ↦ (refused (slot_error e), record w { slots = t })
        | ok idx ↦ elim (carve base idx) [
          | none ↦ (refused pool_exhausted, free_slot a id claimed)
          | some c ↦ wire_tap a id (legacy_payload pr id cid idx c) claimed
        ]
      ]

  abbrev pub park : Text → NatidAlloc → World k → World k
  park key s w = record w { natid_free = put key (s ∷ w.natid_free key) w.natid_free }

  abbrev pub build_parked : Answers → Baked → ℕ → Spec → World k → NetResult ℕ × World k
  build_parked a b idx spec w =
      let key = natid_identity_key pr b.tap_host_ip b.guest_ip b.mac (ports_or_ssh b.ports) in
      let (fine, s) = k.create spec w.kernel in
      let built = record w { kernel = s } in
      if not fine
      then (refused create_failed, free_slot a (prebuilt_owner idx) built)
      else (done (length (w.natid_free key) + 1), park key (slot_of [] spec b idx) built)

  unfoldable pub prebuild_natid : Answers → Baked → World k → NetResult ℕ × World k
  prebuild_natid a b w =
      let (r, t) = claim_prebuilt a.claim_db a.now (codes "prebuilt") w.slots in
      let claimed = record w { slots = t } in
      elim r [
        | err e ↦ (refused (slot_error e), claimed)
        | ok idx ↦ elim (carve_natid idx) [
          | none ↦ (refused pool_exhausted, free_slot a (prebuilt_owner idx) claimed)
          | some ips ↦ build_parked a b idx (spec_of pr (pr.natid_short idx) ips b) claimed
        ]
      ]

  -- The slow path after the claim.
  abbrev pub build_natid :
      Answers → Text → Baked → ℕ → Spec → World k → NetResult NatidAlloc × World k
  build_natid a id b idx spec w =
      let slot = slot_of id spec b idx in
      let (fine, s) = k.create spec w.kernel in
      let built = record w { kernel = s } in
      if not fine
      then (refused create_failed, free_slot a id built)
      else (if a.save_fails
          then (refused save_failed, free_slot a id (destroy_netns spec.name spec.veth_host built))
          else (done slot, save id (natid_payload id slot) built))

  unfoldable pub slow_path : Answers → Text → Baked → World k → NetResult NatidAlloc × World k
  slow_path a id b w =
      let (r, t) = claim a.claim_db a.now id (codes "natid") w.slots in
      let claimed = record w { slots = t } in
      elim r [
        | err e ↦ (refused (slot_error e), claimed)
        | ok idx ↦ elim (carve_natid idx) [
          | none ↦ (refused pool_exhausted, free_slot a id claimed)
          | some ips ↦ build_natid a id b idx (spec_of pr (short_hex id) ips b) claimed
        ]
      ]

  -- The slot is adopted: the payload, and then the stale holders of its address.
  unfoldable pub adopted : Answers → Text → NatidAlloc → World k → NetResult NatidAlloc × World k
  adopted a id slot w =
      let own = record slot { sandbox_id = id } in
      let kept = save id (natid_payload id own) w in
      if a.save_fails
      then (refused save_failed, destroy_netns slot.netns slot.veth_host (free_slot a id w))
      else (
        done own,
        record kept {
          kernel =
              k.clear_stale slot.proxy_host_ip (codes "vh-" ++ pr.natid_short slot.idx) w.kernel;
        },
      )

  unfoldable pub adopt :
      Answers → Text → Baked → NatidAlloc → World k → NetResult NatidAlloc × World k
  unfolding adopted slow_path
  adopt a id b slot w =
      let (r, t) =
        reassign a.reassign_db a.now (prebuilt_owner slot.idx) id (codes "natid") slot.idx
          w.slots in
      let moved = record w { slots = t } in
      elim r [
        | ok true ↦ adopted a id slot moved
        | _ ↦ slow_path a id b (destroy_netns slot.netns slot.veth_host moved)
      ]

  -- A parked slot of the identity, or one that is built. The refill callback is not run here.
  unfoldable pub allocate_natid : Answers → Text → Baked → World k → NetResult NatidAlloc × World k
  unfolding adopt slow_path
  allocate_natid a id b w =
      let key = natid_identity_key pr b.tap_host_ip b.guest_ip b.mac (ports_or_ssh b.ports) in
      elim (w.natid_free key) [
        | [] ↦ slow_path a id b w
        | slot ∷ rest ↦ adopt a id b slot (record w { natid_free = put key rest w.natid_free })
      ]
