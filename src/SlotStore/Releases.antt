-- ===== src/SlotStore/Releases.antt =====
-- `Release`, `Reconcile`, `Reassign` and `Stats` of slotstore.go: which slots change hands.
use pandastack_ai.Common.{
  ℕ, ◌≡◌, refl, ◌≢◌, inl, inr, true, false, none, some, [], ◌∷◌, All, Text, arith, Bool-cases,
}
use pandastack_ai.SlotStore.{Faults, Stmt, ok, release}
use pandastack_ai.SlotStore.Rows.{Table, owned_by, select_owned, clear, update}
use pandastack_ai.SlotStore.Ownership.{Unowned, SingleOwner, update_none}
use pandastack_ai.SlotStore.View.{view, vacate, view-update-clear}
use pandastack_ai.SlotStore.Claims.{Quiet}

Unowned-unmatched : (id : Text) (t : Table) → Unowned id t → All (λ r. owned_by id r ≡ false) t
unfolding owned_by
Unowned-unmatched id [] u = tt
Unowned-unmatched id (r ∷ t) u = (ground arith, Unowned-unmatched id t u.1)

-- One row at most has a given owner.
owned_count :
    (id : Text) (t : Table)
    → SingleOwner t
    → (update (owned_by id) clear t).1 ≡ elim (select_owned id t) [ none ↦ 0 | some _ ↦ 1 ]
unfolding update select_owned owned_by
owned_count id [] s = refl
owned_count id (r ∷ t) s = elim (Bool-cases (owned_by id r)) [
  | inl e ↦
      ground
        (arith, update_none (owned_by id) clear t (Unowned-unmatched id t (s.0 id (ground arith))))
  | inr e ↦ ground (arith, owned_count id t s.1)
]

clear-Unowned : (id : Text) (t : Table) → Unowned id (update (owned_by id) clear t).0
unfolding update owned_by
clear-Unowned id [] = tt
clear-Unowned id (r ∷ t) = ground (arith, clear-Unowned id t)

-- With a database that answers and no owner of two rows, a release for a non-empty id frees the
-- slots of that id and no other, and returns true exactly when it owned one.
pub release_lem :
    (db : Faults) (id : Text) (t : Table)
    → Quiet db
    → SingleOwner t
    → id ≢ []
    → ((release db id t).0 ≡ ok (elim (select_owned id t) [ none ↦ false | some _ ↦ true ]))
      × ((j : ℕ) → view (release db id t).1 j ≡ vacate id (view t j))
unfolding release
release_lem db id t q s ne = (
  ground (arith, q Stmt.exec_update, q Stmt.rows_affected, owned_count id t s),
  λ j. ground (arith, q Stmt.exec_update, q Stmt.rows_affected, view-update-clear id j t),
)

-- With a database that answers, the second of two releases of one sandbox frees nothing: it
-- returns false, and leaves the table that the first one left.
pub release_once :
    (db db' : Faults) (id : Text) (t : Table)
    → Quiet db
    → Quiet db'
    → release db' id (release db id t).1 ≡ (ok false, (release db id t).1)
unfolding release
release_once db db' id t q q' =
    let cleared = (update (owned_by id) clear t).0 in
    ground (
      arith,
      q Stmt.exec_update,
      q Stmt.rows_affected,
      q' Stmt.exec_update,
      q' Stmt.rows_affected,
      update_none (owned_by id) clear cleared (Unowned-unmatched id cleared (clear-Unowned id t)),
    )
