-- ===== src/NetPool/Examples.antt =====
-- Runs of the pool over a kernel that only remembers names, where the hypotheses of its theorems hold.
use pandastack_ai.Common.{
  ℕ, ◌+◌, ◌*◌, ◌^◌, ◌<◌, ◌≡◌, refl, ap, inl, inr, Bool, true, false, Option, none, some, [], ◌∷◌,
  ◌++◌, Text, codes, Text-discrete, text_eq, text_eq_refl, take, if◌then◌else◌, if_elim, arith,
}
use pandastack_ai.SlotStore.{Faults}
use pandastack_ai.SlotStore.Rows.{Slot, Table}
use pandastack_ai.SlotStore.Hex.{prebuilt_owner, prebuilt_owner_inj}
use pandastack_ai.SlotStore.Ledger.{Ledger, IsReal}
use pandastack_ai.SlotStore.Ownership.{Unowned}
use pandastack_ai.Host.Growth.{has_prefix}
use pandastack_ai.Host.Admission.{has}
use pandastack_ai.NetPool.{Net, Carved, carve, pool_capacity}
use pandastack_ai.NetPool.Carve.{Apart, carve-Apart}
use pandastack_ai.NetPool.Pool.{
  Allocation, NatidAlloc, Kernel, Printing, World, Answers, read_payload, release_steps, run,
  release_natid,
}
use pandastack_ai.NetPool.Allocate.{Baked, allocate, allocate_natid}
use pandastack_ai.NetPool.Release.{KernelLaws, Safe, release_steps-Safe}
use pandastack_ai.NetPool.Recovery.{Gone, releases, release_natid_again}
use pandastack_ai.NetPool.Grants.{Answering, NatidEnd, allocate_natid-NatidEnd}
use pandastack_ai.NetPool.Legacy.{LegacyEnd, allocate-LegacyEnd}
use pandastack_ai.NetPool.Orphans.{
  Read, found, sweep_orphan_netns, sweep_orphan_netns_safe, sweep_orphan_netns_all,
  live_netns_names,
}

abbrev mark : Bool → Text → (Text → Bool) → Text → Bool
mark b n s m = if text_eq m n then b else s m

-- A state says which names are in use.
abbrev names : Kernel
names = record {
  State = Text → Bool;
  create = λ sp s. (true, mark true sp.name s);
  destroy = λ n v s. mark false n s;
  clear_stale = λ ip keep s. s;
  setup_tap = λ al s. (true, mark true al.tap s);
  teardown_tap = λ n s. mark false n s;
}

mark_at : (b : Bool) (n : Text) (s : Text → Bool) → mark b n s n ≡ b
mark_at b n s = ap (λ e. if e then b else s n) (text_eq_refl n)

mark_off : (n m : Text) (s : Text → Bool) → s m ≡ false → mark false n s m ≡ false
mark_off n m s h = if_elim (λ b. b ≡ false) (text_eq m n) _ _ (λ _. refl) (λ _. h)

mark_other : (n m : Text) (s : Text → Bool) → text_eq m n ≡ false → mark false n s m ≡ s m
mark_other n m s h = ap (λ e. if e then false else s m) h

abbrev names_laws : KernelLaws names
names_laws = record {
  alive = λ n s. s n;
  create_alive = λ sp s _. mark_at true sp.name s;
  works = λ n s. true;
  destroy_gone = λ n v s _. mark_at false n s;
  destroy_rest = λ n m v s h. mark_off n m s h;
  destroy_other = λ n m v s h. mark_other n m s h;
  clear_alive = λ ip keep n s. refl;
  setup_alive = λ al s _. mark_at true al.tap s;
  teardown_gone = λ n s _. mark_at false n s;
  teardown_rest = λ n m s h. mark_off n m s h;
}

abbrev printing : Printing
printing = record {
  ip_string = λ n. n ∷ [];
  net_string = λ n. n.ip ∷ [];
  natid_short = λ n. codes "p" ++ (n ∷ []);
  decimal = λ n. n ∷ [];
  mac_from_ip = λ n. n ∷ [];
}

abbrev quiet : Faults
quiet s = false

-- No failure.
abbrev calm : Answers
calm = record {
  claim_db = quiet;
  reassign_db = quiet;
  release_db = quiet;
  now = 1;
  save_fails = false;
  get_fails = false;
  delete_fails = false;
}

calm-Answering : Answering calm
calm-Answering = record { claims = λ s. refl; releases = λ s. refl }

abbrev alice : Text
alice = codes "alice"

abbrev bob : Text
bob = codes "bob"

abbrev row : ℕ → Option Text → Slot
row i o = record { idx = i; sandbox_id = o; kind = []; claimed_at = none }

-- Alice has slot 0, slot 1 is parked, slot 2 is free.
abbrev table : Table
table = row 0 (some alice) ∷ row 1 (some (prebuilt_owner 1)) ∷ row 2 none ∷ []

parked_at_1 :
    (k : ℕ) → k < 2 ^ 32 → some (prebuilt_owner 1) ≡ some (prebuilt_owner k) → ◌≡◌ {A = ℕ} 1 k
parked_at_1 k h e = prebuilt_owner_inj 1 k (omega arith) h cc

table-Ledger : Ledger table
unfolding prebuilt_owner
table-Ledger = record {
  ascending = ((omega arith, (omega arith, tt)), ((omega arith, tt), (tt, tt)));
  single = ((λ id e. (λ f. cc, (λ f. cc, tt))), ((λ id e. (λ f. cc, tt)), ((λ id e. tt), tt)));
  sentinels = ((λ k h e. absurd cc), (parked_at_1, ((λ k h e. absurd cc), tt)));
  small = (omega arith, (omega arith, (omega arith, tt)));
}

bob-IsReal : IsReal bob
unfolding prebuilt_owner
bob-IsReal k e = absurd cc

abbrev parked : NatidAlloc
parked = record {
  sandbox_id = [];
  netns = codes "ns-p1";
  veth_host = codes "vh-p1";
  veth_guest = codes "vg-p1";
  proxy_host_ip = [];
  proxy_guest_ip = [];
  tap_name = codes "tap0";
  tap_host_ip = [];
  guest_ip = [];
  mac = [];
  idx = 1;
}

abbrev alices : Allocation
alices = record {
  sandbox_id = alice;
  tap = codes "ns-x";
  host_ip = [];
  guest_ip = [];
  mac = [];
  vsock_cid = 0;
  subnet = codes "vh-x";
  idx = 0;
}

abbrev world : World names
world = record {
  slots = table;
  payload = λ id. if text_eq id alice then some alices else none;
  kernel = λ n. true;
  next_cid = 3;
  natid_free = λ key. parked ∷ [];
}

abbrev baked : Baked
baked = record { tap_host_ip = []; guest_ip = []; mac = []; ports = none }

bob-Unowned : Unowned bob table
unfolding prebuilt_owner
bob-Unowned = ((λ e. cc), ((λ e. cc), ((λ e. cc), tt)))

allocate_natid-NatidEnd_example :
    NatidEnd names_laws bob world (allocate_natid printing calm bob baked world)
allocate_natid-NatidEnd_example =
    allocate_natid-NatidEnd names_laws printing calm bob baked world calm-Answering table-Ledger
      bob-IsReal (λ e. absurd cc) bob-Unowned

abbrev legacy : Net
legacy = record { ip = 172 * 2 ^ 24 + 20 * 2 ^ 16; ones = 16 }

allocate-LegacyEnd_example :
    LegacyEnd names_laws printing legacy bob world (allocate printing calm legacy bob world)
allocate-LegacyEnd_example =
    allocate-LegacyEnd names_laws printing calm legacy bob world calm-Answering table-Ledger
      bob-IsReal (λ e. absurd cc)

alices_read : read_payload calm alice world ≡ some alices
unfolding Text-discrete
alices_read = refl

release_steps-Safe_example :
    Safe names_laws alices alice world (run (take 2 (release_steps calm alice world)) world)
release_steps-Safe_example =
    release_steps-Safe names_laws 2 calm alice world alices alices_read (λ e. absurd cc) refl

release_natid_again_example :
    let w' = run (take 1 (release_steps calm alice world)) world in
    Gone names_laws alices alice (release_natid calm alice w').0 (release_natid calm alice w').1
release_natid_again_example =
    release_natid_again names_laws 1 calm calm alice world alices alices_read (λ e. absurd cc) refl
      (λ e. absurd cc) table-Ledger refl refl (λ s. refl)

below_0 : 0 < pool_capacity legacy
unfolding pool_capacity
below_0 = omega arith

below_last : 16383 < pool_capacity legacy
unfolding pool_capacity
below_last = omega arith

carve-Apart_example :
    (c : Carved) × (d : Carved) × (carve legacy 0 ≡ some c)
    × (carve legacy 16383 ≡ some d)
    × Apart legacy c d
carve-Apart_example =
    carve-Apart legacy 0 16383 (record { prefixed = omega arith; inside = omega arith }) below_0
      below_last (omega arith)

abbrev reads : Text → Read
reads id = found alices

sweep_orphan_netns_safe_example :
    names_laws.alive
      (codes "ns-x")
      (sweep_orphan_netns names reads
        (some (codes "ns-x" ∷ codes "ns-y" ∷ []))
        (alice ∷ [])
        (λ n. true)).1
    ≡ names_laws.alive (codes "ns-x") (λ n. true)
sweep_orphan_netns_safe_example =
    sweep_orphan_netns_safe names_laws reads (some (codes "ns-x" ∷ codes "ns-y" ∷ [])) (alice ∷ [])
      (λ n. true) (codes "ns-x") (inl (alice, alices, inl refl, refl, refl))

kept_names : live_netns_names reads (alice ∷ []) ≡ some (codes "ns-x" ∷ [])
unfolding live_netns_names Text-discrete
kept_names = refl

y_ours : has_prefix (codes "ns-y") (codes "ns-") ≡ true
unfolding Text-discrete
y_ours = refl

y_unkept : has (codes "ns-x" ∷ []) (codes "ns-y") ≡ false
unfolding Text-discrete
y_unkept = refl

sweep_orphan_netns_all_example :
    names_laws.alive
      (codes "ns-y")
      (sweep_orphan_netns names reads
        (some (codes "ns-x" ∷ codes "ns-y" ∷ []))
        (alice ∷ [])
        (λ n. true)).1
    ≡ false
sweep_orphan_netns_all_example =
    sweep_orphan_netns_all names_laws reads (codes "ns-x" ∷ codes "ns-y" ∷ []) (codes "ns-x" ∷ [])
      (alice ∷ []) (λ n. true) (codes "ns-y") kept_names (inr (inl refl)) y_ours y_unkept
      (λ s. refl)

abbrev unreadable : Answers
unreadable = record calm { get_fails = true }
