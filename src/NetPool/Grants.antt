-- ===== src/NetPool/Grants.antt =====
-- `AllocateNATID`: what a sandbox has after a success, and what an error leaves.
use pandastack_ai.Common.{
  ℕ, ◌≡◌, ◌≢◌, refl, sym, ap, ◌∙◌, subst, inl, inr, Bool, true, false, not, Option, some, List, [],
  ◌∷◌, Text, text_eq_refl, codes, ◌++◌, Option-cases, of_not-false, if_elim, if◌then◌else◌, arith,
}
use pandastack_ai.SlotStore.{Stmt, Error, ok, err, claim, reassign, release}
use pandastack_ai.SlotStore
use pandastack_ai.SlotStore.Rows.{Table}
use pandastack_ai.SlotStore.Hex.{prebuilt_owner}
use pandastack_ai.SlotStore.View.{view}
use pandastack_ai.SlotStore.Claims.{Quiet, again, fresh, full, claim-Claimed}
use pandastack_ai.SlotStore.Ownership.{SingleOwner, Unowned}
use pandastack_ai.SlotStore.Ledger.{Ledger, Ledger-Inv, IsReal}
use pandastack_ai.SlotStore.Steps.{claim-Ledger, reassign-Ledger}
use pandastack_ai.SlotStore.Handover.{reassign-true}
use pandastack_ai.NetPool.{carve_natid}
use pandastack_ai.NetPool.Pool.{
  Allocation, NatidAlloc, Kernel, Spec, Printing, World, Answers, NetResult, done, refused, put,
  destroy_netns, natid_identity_key, ports_or_ssh, short_hex,
}
use pandastack_ai.NetPool.Allocate.{
  Baked, spec_of, natid_payload, build_natid, slow_path, adopted, adopt, allocate_natid,
}
use pandastack_ai.NetPool.Release.{KernelLaws, release_frees}

-- The ledger meets no failure in the calls that must not fail.
pub record Answering (a : Answers) : Type 0 where
  pub claims : Quiet a.claim_db
  pub releases : Quiet a.release_db

-- A claim gives the sandbox a slot, or leaves it with none.
pub data ClaimEnd (id : Text) (r : SlotStore.Result ℕ) (t : Table) : Type 0 where
  given : (i : ℕ) → r ≡ ok i → view t i ≡ some (some id) → ClaimEnd id r t
  denied : (e : Error) → r ≡ err e → ((j : ℕ) → view t j ≢ some (some id)) → ClaimEnd id r t

pub claim-ClaimEnd :
    (a : Answers) (id kind : Text) (t : Table)
    → Quiet a.claim_db
    → Ledger t
    → id ≢ []
    → ClaimEnd id (claim a.claim_db a.now id kind t).0 (claim a.claim_db a.now id kind t).1
claim-ClaimEnd a id kind t q l ne =
    elim (claim-Claimed a.claim_db a.now id kind t q (Ledger-Inv l) l.small ne) [
      | again i v r same ↦ given i r (ap (λ s. view s i) same ∙ v)
      | fresh i unowned free least r views ↦ given i r (views i ∙ ground arith)
      | full unowned none_free r same ↦
          denied SlotStore.pool_exhausted r
            (λ j. subst (λ s. view s j ≢ some (some id)) (sym same) (unowned j))
    ]

module _ {k : Kernel} (l : KernelLaws k) where
  -- The namespace was created and exists, or the slot was parked in the ledger `t`, and the
  -- namespace is as it was in the kernel `s`.
  pub data Lives (t : Table) (s : k.State) (slot : NatidAlloc) (s' : k.State) : Type 0 where
    created : l.alive slot.netns s' ≡ true → Lives t s slot s'
    parked :
        view t slot.idx ≡ some (some (prebuilt_owner slot.idx))
        → l.alive slot.netns s' ≡ l.alive slot.netns s
        → Lives t s slot s'

  -- The sandbox owns the slot, its payload is on record, and its namespace is there.
  pub record Granted (id : Text) (w₀ : World k) (slot : NatidAlloc) (w : World k) : Type 0 where
    pub named : slot.sandbox_id ≡ id
    pub owned : view w.slots slot.idx ≡ some (some id)
    pub recorded : w.payload id ≡ some (natid_payload id slot)
    pub lives : Lives w₀.slots w₀.kernel slot w.kernel

  -- The sandbox owns no slot, and no payload was written.
  pub record Clean (id : Text) (p : Text → Option Allocation) (w : World k) : Type 0 where
    pub unowned : (j : ℕ) → view w.slots j ≢ some (some id)
    pub unwritten : w.payload ≡ p

  abbrev pub NatidEnd : Text → World k → NetResult NatidAlloc × World k → Type 0
  NatidEnd id w₀ (done s, w) = Granted id w₀ s w
  NatidEnd id w₀ (refused e, w) = Clean id w₀.payload w

  pub put_at :
      (id : Text) (o : Option Allocation) (p : Text → Option Allocation) → put id o p id ≡ o
  put_at id o p = ap (λ b. if b then o else p id) (text_eq_refl id)

  build_natid-End :
      (pr : Printing) (a : Answers) (id : Text) (b : Baked) (idx : ℕ) (spec : Spec) (w₀ w : World k)
      → Quiet a.release_db
      → SingleOwner w.slots
      → id ≢ []
      → view w.slots idx ≡ some (some id)
      → w.payload ≡ w₀.payload
      → NatidEnd id w₀ (build_natid pr a id b idx spec w)
  build_natid-End pr a id b idx spec w₀ w q single ne at same =
      let clean = release_frees a id w.slots q single ne in
      if_elim (NatidEnd id w₀) (not (k.create spec w.kernel).0) _ _
        (λ _. record { unowned = clean; unwritten = same })
        (λ made.
          if_elim (NatidEnd id w₀) a.save_fails _ _
            (λ _. record { unowned = clean; unwritten = same })
            (λ _. record {
              named = refl;
              owned = at;
              recorded = put_at id _ w.payload;
              lives =
                  created
                    (l.create_alive spec w.kernel (of_not-false (k.create spec w.kernel).0 made));
            }))

  slow_path-End :
      (pr : Printing) (a : Answers) (id : Text) (b : Baked) (w₀ w : World k)
      → Answering a
      → Ledger w.slots
      → IsReal id
      → id ≢ []
      → w.payload ≡ w₀.payload
      → NatidEnd id w₀ (slow_path pr a id b w)
  unfolding slow_path
  slow_path-End pr a id b w₀ w q ledger real ne same =
      let t = (claim a.claim_db a.now id (codes "natid") w.slots).1 in
      let claimed = record w { slots = t } in
      let single = (claim-Ledger a.claim_db a.now id (codes "natid") w.slots real ledger).single in
      elim (claim-ClaimEnd a id (codes "natid") w.slots q.claims ledger ne) [
        | denied e r none_left ↦
            rw (slow_path, r) (record { unowned = none_left; unwritten = same })
        | given i r at ↦ elim (Option-cases (carve_natid i)) [
          | inl beyond ↦
              rw (slow_path, r, beyond)
                (record { unowned = release_frees a id t q.releases single ne; unwritten = same })
          | inr (ips, carved) ↦
              rw (slow_path, r, carved)
                (build_natid-End pr a id b i (spec_of pr (short_hex id) ips b) w₀ claimed q.releases
                  single ne at same)
        ]
      ]

  adopted-End :
      (pr : Printing) (a : Answers) (id : Text) (slot : NatidAlloc) (w₀ w : World k)
      → Quiet a.release_db
      → SingleOwner w.slots
      → id ≢ []
      → view w.slots slot.idx ≡ some (some id)
      → view w₀.slots slot.idx ≡ some (some (prebuilt_owner slot.idx))
      → w.payload ≡ w₀.payload
      → w.kernel ≡ w₀.kernel
      → NatidEnd id w₀ (adopted pr a id slot w)
  unfolding adopted
  adopted-End pr a id slot w₀ w q single ne at before same kernel =
      if_elim (NatidEnd id w₀) a.save_fails _ _
        (λ _. record { unowned = release_frees a id w.slots q single ne; unwritten = same })
        (λ _. record {
          named = refl;
          owned = at;
          recorded = put_at id _ w.payload;
          lives = parked before (
              l.clear_alive slot.proxy_host_ip (codes "vh-" ++ pr.natid_short slot.idx) slot.netns
                w.kernel
              ∙ ap (l.alive slot.netns) kernel);
        })

  adopt-End :
      (pr : Printing) (a : Answers) (id : Text) (b : Baked) (slot : NatidAlloc) (w₀ w : World k)
      → Answering a
      → Ledger w.slots
      → IsReal id
      → id ≢ []
      → Unowned id w.slots
      → w.slots ≡ w₀.slots
      → w.payload ≡ w₀.payload
      → w.kernel ≡ w₀.kernel
      → NatidEnd id w₀ (adopt pr a id b slot w)
  unfolding adopt
  adopt-End pr a id b slot w₀ w q ledger real ne none_owned slots same kernel =
      go (reassign a.reassign_db a.now from id kind slot.idx w.slots).0 refl
    where
      from : Text
      from = prebuilt_owner slot.idx

      kind : Text
      kind = codes "natid"

      t : Table
      t = (reassign a.reassign_db a.now from id kind slot.idx w.slots).1

      moved : World k
      moved = record w { slots = t }

      after : Ledger t
      after =
          reassign-Ledger a.reassign_db a.now from id kind slot.idx w.slots real none_owned ledger

      go :
          (r : SlotStore.Result Bool)
          → (reassign a.reassign_db a.now from id kind slot.idx w.slots).0 ≡ r
          → NatidEnd id w₀ (adopt pr a id b slot w)
      go (ok true) e =
          let handed =
            reassign-true a.reassign_db a.now from id kind slot.idx w.slots
              (Ledger-Inv ledger).distinct e in
          let before = subst (λ u. view u slot.idx ≡ some (some from)) slots handed.0 in
          rw (adopt, e)
            (adopted-End pr a id slot w₀ moved q.releases after.single ne handed.1 before same
              kernel)
      go (ok false) e =
          rw (adopt, e)
            (slow_path-End pr a id b w₀ (destroy_netns slot.netns slot.veth_host moved) q after real
              ne same)
      go (err x) e =
          rw (adopt, e)
            (slow_path-End pr a id b w₀ (destroy_netns slot.netns slot.veth_host moved) q after real
              ne same)

  -- With a ledger in order that answers claims and releases, a sandbox that owned no slot, with an id
  -- that is neither empty nor a sentinel, has one after an allocation that succeeds, with its payload
  -- on record. Its namespace exists where one was built;
  -- where a slot was adopted, that slot was parked before, and its namespace is as it was. After an
  -- error the sandbox owns no slot, and no payload was written.
  pub allocate_natid-NatidEnd :
      (pr : Printing) (a : Answers) (id : Text) (b : Baked) (w : World k)
      → Answering a
      → Ledger w.slots
      → IsReal id
      → id ≢ []
      → Unowned id w.slots
      → NatidEnd id w (allocate_natid pr a id b w)
  unfolding allocate_natid
  allocate_natid-NatidEnd pr a id b w q ledger real ne none_owned =
      go
        (w.natid_free (natid_identity_key pr b.tap_host_ip b.guest_ip b.mac (ports_or_ssh b.ports)))
        refl
    where
      go :
          (free : List NatidAlloc)
          → w.natid_free
              (natid_identity_key pr b.tap_host_ip b.guest_ip b.mac (ports_or_ssh b.ports))
            ≡ free
          → NatidEnd id w (allocate_natid pr a id b w)
      go [] e = rw (allocate_natid, e) (slow_path-End pr a id b w w q ledger real ne refl)
      go (slot ∷ rest) e =
          rw (allocate_natid, e)
            (adopt-End pr a id b slot w
              (record w {
                natid_free =
                    put
                      (natid_identity_key pr b.tap_host_ip b.guest_ip b.mac (ports_or_ssh b.ports))
                      rest w.natid_free;
              })
              q ledger real ne none_owned refl refl refl)
