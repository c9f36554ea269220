-- ===== src/SlotStore/Inserts.antt =====
-- INSERT OR IGNORE of slotstore.go keeps the ledger and every row that is there.
use pandastack_ai.Common.{
  ℕ, ◌^◌, ◌≤◌, ◌<◌, ◌≡◌, refl, inl, inr, Option, none, some, [], ◌∷◌, All, Text, ltb, ◌==◌, arith,
  Bool-cases, if◌then◌else◌,
}
use pandastack_ai.SlotStore.Rows.{Table, insert_or_ignore}
use pandastack_ai.SlotStore.Ownership.{Unowned, SingleOwner}
use pandastack_ai.SlotStore.View.{view}
use pandastack_ai.SlotStore.Claims.{Small}
use pandastack_ai.SlotStore.Ledger.{Above, Ascending, SentinelRow, Ledger}

insert-Above : (j i : ℕ) (t : Table) → j < i → Above j t → Above j (insert_or_ignore i t)
unfolding insert_or_ignore
insert-Above j i [] lt h = (lt, tt)
insert-Above j i (r ∷ t) lt h = ground (arith, insert-Above j i t lt h.1)

Above-mono : (i j : ℕ) (t : Table) → i < j → Above j t → Above i t
Above-mono i j [] lt h = tt
Above-mono i j (r ∷ t) lt h = (omega arith, Above-mono i j t lt h.1)

pub insert-Ascending : (i : ℕ) (t : Table) → Ascending t → Ascending (insert_or_ignore i t)
unfolding insert_or_ignore
insert-Ascending i [] h = (tt, tt)
insert-Ascending i (r ∷ t) h =
    ground (arith, insert-Above r.idx i t, insert-Ascending i t h.1, Above-mono i r.idx t)

insert-Unowned : (id : Text) (i : ℕ) (t : Table) → Unowned id t → Unowned id (insert_or_ignore i t)
unfolding insert_or_ignore
insert-Unowned id i [] h = (λ e. cc, tt)
insert-Unowned id i (r ∷ t) h = ground (arith, insert-Unowned id i t h.1)

insert-SingleOwner : (i : ℕ) (t : Table) → SingleOwner t → SingleOwner (insert_or_ignore i t)
unfolding insert_or_ignore
insert-SingleOwner i [] h = ((λ id e. cc), tt)
insert-SingleOwner i (r ∷ t) h = elim (Bool-cases (i == r.idx)) [
  | inl e ↦ rw (e, insert_or_ignore) h
  | inr e ↦
      rw (e, insert_or_ignore)
        (elim (Bool-cases (ltb i r.idx)) [
          | inl f ↦ rw f ((λ id c. cc), h)
          | inr f ↦ rw f ((λ id c. insert-Unowned id i t (h.0 id c)), insert-SingleOwner i t h.1)
        ])
]

insert-sentinels : (i : ℕ) (t : Table) → All SentinelRow t → All SentinelRow (insert_or_ignore i t)
unfolding insert_or_ignore
insert-sentinels i [] h = ((λ k _ e. cc), tt)
insert-sentinels i (r ∷ t) h = elim (Bool-cases (i == r.idx)) [
  | inl e ↦ rw (e, insert_or_ignore) h
  | inr e ↦
      rw (e, insert_or_ignore)
        (elim (Bool-cases (ltb i r.idx)) [
          | inl f ↦ rw f ((λ k _ c. cc), h)
          | inr f ↦ rw f (h.0, insert-sentinels i t h.1)
        ])
]

insert-Small : (i : ℕ) (t : Table) → i < 2 ^ 32 → Small t → Small (insert_or_ignore i t)
unfolding insert_or_ignore
insert-Small i [] lt h = (lt, tt)
insert-Small i (r ∷ t) lt h = ground (arith, insert-Small i t lt h.1)

pub insert-Ledger : (i : ℕ) (t : Table) → i < 2 ^ 32 → Ledger t → Ledger (insert_or_ignore i t)
insert-Ledger i t lt l = record {
  ascending = insert-Ascending i t l.ascending;
  single = insert-SingleOwner i t l.single;
  sentinels = insert-sentinels i t l.sentinels;
  small = insert-Small i t lt l.small;
}

view-Above : (i j : ℕ) (t : Table) → i ≤ j → Above j t → view t i ≡ none
unfolding view
view-Above i j [] le h = refl
view-Above i j (r ∷ t) le h = ground (arith, view-Above i j t le h.1)

-- A slot that does not exist becomes a free one.
abbrev pub exist : Option (Option Text) → Option (Option Text)
exist none = some none
exist (some o) = some o

pub view-insert :
    (i j : ℕ) (t : Table)
    → Ascending t
    → view (insert_or_ignore i t) j ≡ (if j == i then exist (view t j) else view t j)
unfolding view insert_or_ignore
view-insert i j [] h = ground arith
view-insert i j (r ∷ t) h = ground (arith, view-insert i j t h.1, view-Above i r.idx t)
