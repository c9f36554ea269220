-- ===== src/SlotStore/Handover.antt =====
-- `Reassign` of slotstore.go: what its answer says of the slot.
use pandastack_ai.Common.{
  ℕ, ◌≡◌, refl, subst, inl, inr, true, ◌&&◌, some, [], ◌∷◌, Text, arith, ◌==◌, Bool-cases,
}
use pandastack_ai.SlotStore.{Faults, ok, reassign}
use pandastack_ai.SlotStore.Rows.{Table, owned_by, set_owner, update}
use pandastack_ai.SlotStore.Ownership.{Fresh, Distinct}
use pandastack_ai.SlotStore.View.{view}

module _ (now idx : ℕ) (from to kind : Text) where
  none_handed :
      (t : Table)
      → Fresh idx t
      → (update (λ r. r.idx == idx && owned_by from r) (set_owner to kind now) t).1 ≡ 0
  unfolding update
  none_handed [] h = refl
  none_handed (r ∷ t) h = ground (arith, none_handed t h.1)

  one_handed :
      (t : Table)
      → Distinct t
      → (update (λ r. r.idx == idx && owned_by from r) (set_owner to kind now) t).1 ≡ 1
      → (view t idx ≡ some (some from))
        × (view (update (λ r. r.idx == idx && owned_by from r) (set_owner to kind now) t).0 idx
            ≡ some (some to))
  unfolding update view owned_by
  one_handed [] d e = absurd (ground arith)
  one_handed (r ∷ t) d e = elim (Bool-cases (r.idx == idx)) [
    | inl here ↦
        let at : r.idx ≡ idx = ground (arith, here) in
        let none_later = none_handed t (subst (λ i. Fresh i t) at d.0) in
        ground (arith, none_later, here)
    | inr other ↦ ground (arith, one_handed t d.1, other)
  ]

-- Where `Reassign` answers true, the slot was the first owner's and is the second's.
pub reassign-true :
    (db : Faults) (now : ℕ) (from to kind : Text) (idx : ℕ) (t : Table)
    → Distinct t
    → (reassign db now from to kind idx t).0 ≡ ok true
    → (view t idx ≡ some (some from))
      × (view (reassign db now from to kind idx t).1 idx ≡ some (some to))
unfolding reassign
reassign-true db now from to kind idx t d e = ground (arith, one_handed now idx from to kind t d)
