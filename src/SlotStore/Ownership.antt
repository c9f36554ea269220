-- ===== src/SlotStore/Ownership.antt =====
-- What UPDATE statements do to the ownership of slots: rows have distinct indices, and no sandbox
-- owns two rows.
use pandastack_ai.Common.{
  ℕ, ◌≡◌, refl, subst, ◌≢◌, inl, inr, Bool, true, false, some, [], ◌∷◌, All, Text, arith,
  Bool-cases,
}
use pandastack_ai.SlotStore.Rows.{Slot, Table, set_owner, clear, update}

abbrev pub Fresh : ℕ → Table → Type 0
Fresh i = All (λ r. r.idx ≢ i)

abbrev pub Distinct : Table → Type 0
Distinct [] = Unit
Distinct (r ∷ t) = Fresh r.idx t × Distinct t

abbrev pub Unowned : Text → Table → Type 0
Unowned id = All (λ r. r.sandbox_id ≢ some id)

abbrev pub SingleOwner : Table → Type 0
SingleOwner [] = Unit
SingleOwner (r ∷ t) = ((id : Text) → r.sandbox_id ≡ some id → Unowned id t) × SingleOwner t

pub record Inv (t : Table) : Type 0 where
  pub distinct : Distinct t
  pub single : SingleOwner t

module _ (p : Slot → Bool) (f : Slot → Slot) where
  pub update_none : (t : Table) → All (λ r. p r ≡ false) t → update p f t ≡ (t, 0)
  unfolding update
  update_none [] h = refl
  update_none (r ∷ t) h = ground (arith, update_none t h.1)

  update-Fresh :
      ((r : Slot) → (f r).idx ≡ r.idx) → (i : ℕ) (t : Table) → Fresh i t → Fresh i (update p f t).0
  unfolding update
  update-Fresh keep i [] h = tt
  update-Fresh keep i (r ∷ t) h = ground (arith, keep r, update-Fresh keep i t h.1)

  pub update-Distinct :
      ((r : Slot) → (f r).idx ≡ r.idx) → (t : Table) → Distinct t → Distinct (update p f t).0
  unfolding update
  update-Distinct keep [] d = tt
  update-Distinct keep (r ∷ t) d =
      ground (arith, keep r, update-Fresh keep r.idx t d.0, update-Distinct keep t d.1)

  pub update-Unowned :
      (id : Text)
      → ((r : Slot) → p r ≡ true → (f r).sandbox_id ≢ some id)
      → (t : Table) → Unowned id t
      → Unowned id (update p f t).0
  unfolding update
  update-Unowned id other [] h = tt
  update-Unowned id other (r ∷ t) h = ground (arith, other r, update-Unowned id other t h.1)

pub clear-SingleOwner :
    (p : Slot → Bool) (t : Table) → SingleOwner t → SingleOwner (update p clear t).0
unfolding update
clear-SingleOwner p [] s = tt
clear-SingleOwner p (r ∷ t) s = elim (Bool-cases (p r)) [
  | inl hit ↦ rw (hit, update) ((λ id e. cc), clear-SingleOwner p t s.1)
  | inr miss ↦
      rw (miss, update)
        ((λ id e. update-Unowned p clear id (λ q _ c. cc) t (s.0 id e)), clear-SingleOwner p t s.1)
]

-- The rows with another owner, where `p` picks out one row at most.
module _ (p : Slot → Bool) (id kind : Text) (now i : ℕ)
    (one : (r : Slot) → p r ≡ true → r.idx ≡ i) where
  others_unmatched : (t : Table) → Fresh i t → All (λ r. p r ≡ false) t
  others_unmatched [] h = tt
  others_unmatched (r ∷ t) h = (ground (arith, one r, h.0), others_unmatched t h.1)

  unmatched-Unowned :
      (t : Table) → Fresh i t → All (λ r. p r ≡ false → r.sandbox_id ≢ some id) t → Unowned id t
  unmatched-Unowned [] h o = tt
  unmatched-Unowned (r ∷ t) h o = (o.0 (ground (arith, one r, h.0)), unmatched-Unowned t h.1 o.1)

  pub assign-SingleOwner :
      (t : Table)
      → Distinct t
      → All (λ r. p r ≡ false → r.sandbox_id ≢ some id) t
      → SingleOwner t
      → SingleOwner (update p (set_owner id kind now) t).0
  unfolding update
  assign-SingleOwner [] d o s = tt
  assign-SingleOwner (r ∷ t) d o s = elim (Bool-cases (p r)) [
    | inl hit ↦
        let fresh : Fresh i t = subst (λ j. Fresh j t) (one r hit) d.0 in
        rw (hit, update, update_none p (set_owner id kind now) t (others_unmatched t fresh))
          ((λ id' e. subst (λ j. Unowned j t) (ground arith) (unmatched-Unowned t fresh o.1)), s.1)
    | inr miss ↦
        rw (miss, update)
          (
            (λ id' e.
                update-Unowned p (set_owner id kind now) id' (λ q _ c. o.0 miss (cc)) t
                  (s.0 id' e)),
            assign-SingleOwner t d.1 o.1 s.1,
          )
  ]
