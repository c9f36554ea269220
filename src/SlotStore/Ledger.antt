-- ===== src/SlotStore/Ledger.antt =====
-- The invariant of the ledger in use, and that every SQL statement of slotstore.go keeps it: rows
-- in the order of their indices, one row to an owner, and a sentinel owner on its own row only.
use pandastack_ai.Common.{
  ℕ, ◌^◌, ◌<◌, ◌≡◌, refl, subst, ◌∙◌, ◌≢◌, inl, inr, Bool, true, false, some, [], ◌∷◌, All, Text,
  arith, Bool-cases,
}
use pandastack_ai.SlotStore.Rows.{Slot, Table, clear, set_owner, update}
use pandastack_ai.SlotStore.Hex.{prebuilt_owner}
use pandastack_ai.SlotStore.Ownership.{
  Fresh, Distinct, SingleOwner, Inv, clear-SingleOwner, assign-SingleOwner,
}
use pandastack_ai.SlotStore.Claims.{Small}

-- Every row above the bound.
abbrev pub Above : ℕ → Table → Type 0
Above i = All (λ r. i < r.idx)

abbrev pub Ascending : Table → Type 0
Ascending [] = Unit
Ascending (r ∷ t) = Above r.idx t × Ascending t

-- An owner `prebuilt:k` stands on row `k` only.
abbrev pub SentinelRow : Slot → Type 0
SentinelRow r = (k : ℕ) → k < 2 ^ 32 → r.sandbox_id ≡ some (prebuilt_owner k) → r.idx ≡ k

-- No sentinel: the id of a sandbox.
abbrev pub IsReal : Text → Type 0
IsReal id = (k : ℕ) → id ≢ prebuilt_owner k

pub record Ledger (t : Table) : Type 0 where
  pub ascending : Ascending t
  pub single : SingleOwner t
  pub sentinels : All SentinelRow t
  pub small : Small t

Above-Fresh : (i : ℕ) (t : Table) → Above i t → Fresh i t
Above-Fresh i [] h = tt
Above-Fresh i (r ∷ t) h = (omega arith, Above-Fresh i t h.1)

pub Ascending-Distinct : (t : Table) → Ascending t → Distinct t
Ascending-Distinct [] h = tt
Ascending-Distinct (r ∷ t) h = (Above-Fresh r.idx t h.0, Ascending-Distinct t h.1)

pub Ledger-Inv : {t : Table} → Ledger t → Inv t
Ledger-Inv {t} l = record { distinct = Ascending-Distinct t l.ascending; single = l.single }

module _ (p : Slot → Bool) (f : Slot → Slot) (keep : (r : Slot) → (f r).idx ≡ r.idx) where
  update-Above : (i : ℕ) (t : Table) → Above i t → Above i (update p f t).0
  unfolding update
  update-Above i [] h = tt
  update-Above i (r ∷ t) h = ground (arith, keep r, update-Above i t h.1)

  update-Ascending : (t : Table) → Ascending t → Ascending (update p f t).0
  unfolding update
  update-Ascending [] h = tt
  update-Ascending (r ∷ t) h =
      ground (arith, keep r, update-Above r.idx t h.0, update-Ascending t h.1)

  update-Small : (t : Table) → Small t → Small (update p f t).0
  unfolding update
  update-Small [] h = tt
  update-Small (r ∷ t) h = ground (arith, keep r, update-Small t h.1)

update-sentinels :
    (p : Slot → Bool) (f : Slot → Slot)
    → ((r : Slot) → r.idx < 2 ^ 32 → p r ≡ true → SentinelRow (f r))
    → (t : Table) → Small t
    → All SentinelRow t
    → All SentinelRow (update p f t).0
unfolding update
update-sentinels p f new [] b h = tt
update-sentinels p f new (r ∷ t) b h = elim (Bool-cases (p r)) [
  | inl hit ↦ rw (hit, update) (new r b.0 hit, update-sentinels p f new t b.1 h.1)
  | inr miss ↦ rw (miss, update) (h.0, update-sentinels p f new t b.1 h.1)
]

-- Freeing rows, whichever they are, keeps the ledger.
pub clear-Ledger : (p : Slot → Bool) (t : Table) → Ledger t → Ledger (update p clear t).0
clear-Ledger p t l = record {
  ascending = update-Ascending p clear (λ r. refl) t l.ascending;
  single = clear-SingleOwner p t l.single;
  sentinels = update-sentinels p clear (λ r _ _ k _ e. cc) t l.small l.sentinels;
  small = update-Small p clear (λ r. refl) t l.small;
}

-- So does giving row `i` to a sandbox that owns no other row.
pub assign-Ledger :
    (p : Slot → Bool) (id kind : Text) (now i : ℕ) (t : Table)
    → ((r : Slot) → p r ≡ true → r.idx ≡ i)
    → All (λ r. p r ≡ false → r.sandbox_id ≢ some id) t
    → ((k : ℕ) → i < 2 ^ 32 → k < 2 ^ 32 → id ≡ prebuilt_owner k → i ≡ k)
    → Ledger t
    → Ledger (update p (set_owner id kind now) t).0
assign-Ledger p id kind now i t one others sentinel l = record {
  ascending = update-Ascending p (set_owner id kind now) (λ r. refl) t l.ascending;
  single =
      assign-SingleOwner p id kind now i one t (Ascending-Distinct t l.ascending) others l.single;
  sentinels =
      update-sentinels p (set_owner id kind now)
        (λ r b hit k hk e.
          let here = one r hit in
          here ∙ sentinel k (subst (λ n. n < 2 ^ 32) here b) hk (ground arith))
        t l.small l.sentinels;
  small = update-Small p (set_owner id kind now) (λ r. refl) t l.small;
}
