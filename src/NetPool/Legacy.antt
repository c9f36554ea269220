-- ===== src/NetPool/Legacy.antt =====
-- `Allocate`, the legacy path: what a sandbox has after a success, and what an error leaves.
use pandastack_ai.Common.{
  ◌≡◌, ◌≢◌, refl, inl, inr, true, not, some, [], Text, codes, Option-cases, of_not-false, if_elim,
}
use pandastack_ai.SlotStore.{claim}
use pandastack_ai.SlotStore.View.{view}
use pandastack_ai.SlotStore.Ledger.{Ledger, IsReal}
use pandastack_ai.SlotStore.Steps.{claim-Ledger}
use pandastack_ai.NetPool.{Net, Carved, carve}
use pandastack_ai.NetPool.Pool.{
  Allocation, Kernel, Printing, World, Answers, NetResult, done, refused,
}
use pandastack_ai.NetPool.Allocate.{legacy_payload, wire_tap, allocate}
use pandastack_ai.NetPool.Release.{KernelLaws, release_frees}
use pandastack_ai.NetPool.Grants.{Answering, Clean, given, denied, claim-ClaimEnd, put_at}

module _ {k : Kernel} (l : KernelLaws k) where
  abbrev pub LegacyEnd : Printing → Net → Text → World k → NetResult Allocation × World k → Type 0
  LegacyEnd pr base id w (done al, w') =
      (c : Carved) × (carve base al.idx ≡ some c)
      × (al ≡ legacy_payload pr id w.next_cid al.idx c)
      × (view w'.slots al.idx ≡ some (some id))
      × (w'.payload id ≡ some al)
      × (l.alive al.tap w'.kernel ≡ true)
  LegacyEnd pr base id w (refused e, w') = Clean l id w.payload w'

  -- With a ledger that answers claims and releases, a legacy allocation that succeeds gives the
  -- sandbox a slot, the addresses carved for it, the next vsock CID, a payload on record and a TAP;
  -- after an error the sandbox owns no slot, and no payload was written.
  pub allocate-LegacyEnd :
      (pr : Printing) (a : Answers) (base : Net) (id : Text) (w : World k)
      → Answering a
      → Ledger w.slots
      → IsReal id
      → id ≢ []
      → LegacyEnd pr base id w (allocate pr a base id w)
  unfolding allocate wire_tap
  allocate-LegacyEnd pr a base id w q ledger real ne =
      let t = (claim a.claim_db a.now id (codes "legacy") w.slots).1 in
      let single = (claim-Ledger a.claim_db a.now id (codes "legacy") w.slots real ledger).single in
      let clean = release_frees a id t q.releases single ne in
      elim (claim-ClaimEnd a id (codes "legacy") w.slots q.claims ledger ne) [
        | denied e r none_left ↦ rw (allocate, r) (record { unowned = none_left; unwritten = refl })
        | given i r at ↦ elim (Option-cases (carve base i)) [
          | inl beyond ↦ rw (allocate, r, beyond) (record { unowned = clean; unwritten = refl })
          | inr (c, carved) ↦
              let al = legacy_payload pr id w.next_cid i c in
              rw (allocate, r, carved)
                (if_elim (LegacyEnd pr base id w) (not (k.setup_tap al w.kernel).0) _ _
                  (λ _. record { unowned = clean; unwritten = refl })
                  (λ made.
                    if_elim (LegacyEnd pr base id w) a.save_fails _ _
                      (λ _. record { unowned = clean; unwritten = refl })
                      (λ _. (
                        c,
                        carved,
                        refl,
                        at,
                        put_at l id _ w.payload,
                        l.setup_alive al w.kernel (of_not-false (k.setup_tap al w.kernel).0 made),
                      ))))
        ]
      ]
