-- ===== src/SlotStore/View.antt =====
-- The abstract view of the ledger: who owns each slot index. `none` is a slot that does not exist.
use pandastack_ai.Common.{
  ℕ, ◌≤◌, ◌≡◌, refl, ◌≢◌, inl, inr, Bool, false, ◌&&◌, Option, none, some, [], ◌∷◌, All, Text,
  text_eq, ◌==◌, arith, Bool-cases, Option-cases, subst, if◌then◌else◌,
}
use pandastack_ai.SlotStore.Rows.{
  Slot, Table, is_free, owned_by, select_owned, select_free, set_owner, clear, update,
}
use pandastack_ai.SlotStore.Ownership.{Fresh, Distinct, Unowned, update_none}

unfoldable pub view : Table → ℕ → Option (Option Text)
view [] i = none
view (r ∷ t) i = if r.idx == i then some r.sandbox_id else view t i

-- What a write of an owner to a free slot, or the release of an owner, makes of a slot.
abbrev pub fill : Text → Option (Option Text) → Option (Option Text)
fill id (some none) = some (some id)
fill id (some (some o)) = some (some o)
fill id none = none

abbrev pub vacate : Text → Option (Option Text) → Option (Option Text)
vacate id none = none
vacate id (some none) = some none
vacate id (some (some o)) = if text_eq o id then some none else some (some o)

pub view-update_free :
    (id kind : Text) (now i j : ℕ) (t : Table)
    → view (update (λ r. r.idx == i && is_free r) (set_owner id kind now) t).0 j
      ≡ (if j == i then fill id (view t j) else view t j)
unfolding view update is_free
view-update_free id kind now i j [] = ground arith
view-update_free id kind now i j (r ∷ t) = ground (arith, view-update_free id kind now i j t)

pub view-update-clear :
    (id : Text) (j : ℕ) (t : Table) → view (update (owned_by id) clear t).0 j ≡ vacate id (view t j)
unfolding view update owned_by
view-update-clear id j [] = refl
view-update-clear id j (r ∷ t) = ground (arith, view-update-clear id j t)

pub view-Fresh : (i : ℕ) (t : Table) → Fresh i t → view t i ≡ none
unfolding view
view-Fresh i [] h = refl
view-Fresh i (r ∷ t) h = ground (arith, view-Fresh i t h.1)

Fresh-unmatched :
    (i : ℕ) (q : Slot → Bool) (t : Table) → Fresh i t → All (λ r. (r.idx == i && q r) ≡ false) t
Fresh-unmatched i q [] h = tt
Fresh-unmatched i q (r ∷ t) h = (ground arith, Fresh-unmatched i q t h.1)

-- An UPDATE that names a free slot affects one row.
pub update_free_count :
    (f : Slot → Slot) (i : ℕ) (t : Table)
    → Distinct t
    → view t i ≡ some none
    → (update (λ r. r.idx == i && is_free r) f t).1 ≡ 1
unfolding view update is_free
update_free_count f i [] d h = cc
update_free_count f i (r ∷ t) d h = elim (Bool-cases (r.idx == i)) [
  | inl hit ↦
      let e : r.idx ≡ i = ground arith in
      ground (
        arith,
        update_none (λ r. r.idx == i && is_free r) f t
            (Fresh-unmatched i is_free t (subst (λ k. Fresh k t) e d.0)),
      )
  | inr miss ↦ ground (arith, update_free_count f i t d.1)
]

-- SELECT by owner.
pub select_owned-none : (id : Text) (t : Table) → select_owned id t ≡ none → Unowned id t
unfolding select_owned owned_by
select_owned-none id [] h = tt
select_owned-none id (r ∷ t) h = ground (arith, select_owned-none id t)

pub Unowned-view : (id : Text) (t : Table) → Unowned id t → (j : ℕ) → view t j ≢ some (some id)
unfolding view
Unowned-view id [] h j = λ e. cc
Unowned-view id (r ∷ t) h j = ground (arith, Unowned-view id t h.1 j)

Fresh-select_owned : (id : Text) (i : ℕ) (t : Table) → Fresh i t → select_owned id t ≢ some i
unfolding select_owned owned_by
Fresh-select_owned id i [] h = λ e. cc
Fresh-select_owned id i (r ∷ t) h = ground (arith, Fresh-select_owned id i t h.1)

pub select_owned-some :
    (id : Text) (i : ℕ) (t : Table)
    → Distinct t
    → select_owned id t ≡ some i
    → view t i ≡ some (some id)
unfolding select_owned owned_by view
select_owned-some id i [] d h = cc
select_owned-some id i (r ∷ t) d h =
    ground (arith, select_owned-some id i t d.1, Fresh-select_owned id r.idx t d.0)

-- SELECT of the lowest free slot.
pub select_free-none : (j : ℕ) (t : Table) → select_free t ≡ none → view t j ≢ some none
unfolding select_free is_free view
select_free-none j [] h = λ e. cc
select_free-none j (r ∷ t) h = ground (arith, select_free-none j t)

Fresh-select_free : (i : ℕ) (t : Table) → Fresh i t → select_free t ≢ some i
unfolding select_free is_free
Fresh-select_free i [] h = λ e. cc
Fresh-select_free i (r ∷ t) h = ground (arith, Fresh-select_free i t h.1)

pub select_free-some :
    (i : ℕ) (t : Table) → Distinct t → select_free t ≡ some i → view t i ≡ some none
unfolding select_free is_free view
select_free-some i [] d h = cc
select_free-some i (r ∷ t) d h =
    ground (arith, select_free-some i t d.1, Fresh-select_free r.idx t d.0)

pub select_free-least :
    (i j : ℕ) (t : Table) → select_free t ≡ some i → view t j ≡ some none → i ≤ j
unfolding select_free is_free view
select_free-least i j [] h v = cc
select_free-least i j (r ∷ t) h v = elim (Option-cases (select_free t)) [
  | inl e ↦ ground (arith, select_free-none j t e)
  | inr (k, e) ↦ ground (arith, select_free-least k j t e)
]
