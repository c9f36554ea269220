-- ===== src/NetPool/Recovery.antt =====
-- `ReleaseNATID` after one that was cut off, and after one that could not read the payload.
use pandastack_ai.Common.{
  ℕ, zero, suc, ◌≡◌, ◌≢◌, ◌⊎◌, refl, sym, ap, ◌∙◌, subst, inl, inr, true, false, Option, none, some,
  [], Text, text_eq_refl, take, arith, List, ◌∷◌,
}
use pandastack_ai.SlotStore.View.{view}
use pandastack_ai.SlotStore.Claims.{Quiet}
use pandastack_ai.SlotStore.Ownership.{SingleOwner}
use pandastack_ai.SlotStore.Releases.{release_lem}
use pandastack_ai.SlotStore.Ledger.{Ledger}
use pandastack_ai.NetPool.Pool.{
  Allocation, Kernel, World, Answers, NetError, tear_down, read_payload, release_steps, run,
  release_natid,
}
use pandastack_ai.NetPool.Release.{
  KernelLaws, Dead, tear_down_lem, delete_kernel, torn_slots, cut-Dead, release_steps-Ledger,
  release_frees,
}

module _ {k : Kernel} (l : KernelLaws k) where
  -- What a release that went through leaves.
  pub record Gone (al : Allocation) (id : Text) (r : Option NetError) (w : World k) : Type 0 where
    pub fine : r ≡ none
    pub dead : l.alive al.tap w.kernel ≡ false
    pub forgotten : w.payload id ≡ none
    pub freed : (j : ℕ) → view w.slots j ≢ some (some id)

  -- A release of a world in which the payload is still `al`, or its name is no longer in use.
  release_natid-Gone :
      (a : Answers) (id : Text) (w : World k) (al : Allocation)
      → a.get_fails ≡ false
      → a.delete_fails ≡ false
      → Quiet a.release_db
      → id ≢ []
      → al.tap ≢ []
      → Ledger w.slots
      → ((w.payload id ≡ some al) × (l.works al.tap w.kernel ≡ true)) ⊎ Dead l al w
      → Gone al id (release_natid a id w).0 (release_natid a id w).1
  unfolding release_natid release_steps
  release_natid-Gone a id w al reads deletes q ne named ledger at =
      let torn = tear_down_lem l (read_payload a id w) w in
      let answer = (release_lem a.release_db id w.slots q ledger.single ne).0 in
      let gone : Dead l al (tear_down (read_payload a id w) w) = elim at [
        | inl (kept, fine) ↦ torn.dead al (rw reads kept) named fine
        | inr dead ↦ torn.rest al dead
      ] in
      record {
        fine = rw (release_natid, answer, deletes) refl;
        dead =
            ap (l.alive al.tap) (delete_kernel l a id (tear_down (read_payload a id w) w)) ∙ gone;
        forgotten = rw deletes (ground (arith, text_eq_refl id));
        freed =
            release_frees a id _ q (subst SingleOwner (sym (torn_slots l a id w)) ledger.single) ne;
      }

  read_at :
      (a : Answers) (id : Text) (w : World k) (al : Allocation)
      → read_payload a id w ≡ some al
      → w.payload id ≡ some al
  read_at a id w al e = ground arith

  -- After a release that read the payload, and was cut off at any point, a second one that meets no
  -- failure completes it: no error, the namespace or TAP is gone, no payload, and no slot owned. The
  -- payload names a namespace or TAP whose destruction works in the first state, the id is not empty,
  -- and the ledger is in order; the deletion of the payload and the ledger's statements may have
  -- failed in the first release.
  pub release_natid_again :
      (n : ℕ) (a a' : Answers) (id : Text) (w : World k) (al : Allocation)
      → read_payload a id w ≡ some al
      → al.tap ≢ []
      → l.works al.tap w.kernel ≡ true
      → id ≢ []
      → Ledger w.slots
      → a'.get_fails ≡ false
      → a'.delete_fails ≡ false
      → Quiet a'.release_db
      → let w' = run (take n (release_steps a id w)) w in
        Gone al id (release_natid a' id w').0 (release_natid a' id w').1
  release_natid_again zero a a' id w al e named fine ne ledger reads deletes q =
      release_natid-Gone a' id w al reads deletes q ne named ledger
        (inl (read_at a id w al e, fine))
  release_natid_again (suc n) a a' id w al e named fine ne ledger reads deletes q =
      release_natid-Gone a' id (run (take (suc n) (release_steps a id w)) w) al reads deletes q ne
        named (release_steps-Ledger l (suc n) a id w ledger)
        (inr (cut-Dead l n a id w al e named fine))

  -- The releases of a sandbox, one after the other, each with its answers.
  abbrev pub releases : List Answers → Text → World k → World k
  releases [] id w = w
  releases (a ∷ more) id w = releases more id (release_natid a id w).1

  -- A sandbox whose payload is gone, over the kernel `s`.
  Leaked : Text → k.State → World k → Type 0
  Leaked id s w = (w.kernel ≡ s) × (w.payload id ≡ none)
