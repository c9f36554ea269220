-- ===== src/SlotStore/Reconciles.antt =====
-- `Reconcile`, `Reassign` and `Stats` of slotstore.go.
use pandastack_ai.Common.{
  ℕ, ◌≡◌, refl, ◌⊎◌, inl, inr, Bool, true, false, ◌&&◌, ◌||◌, Option, none, some, List, [], ◌∷◌,
  Text, text_eq, length, ◌==◌, arith, Bool-cases, if◌then◌else◌,
}
use pandastack_ai.SlotStore.{Faults, Stmt, ok, reassign, contains, orphans, free_all, reconcile}
use pandastack_ai.SlotStore.Rows.{Table, owned_by, set_owner, clear, update}
use pandastack_ai.SlotStore.Ownership.{Fresh, Distinct}
use pandastack_ai.SlotStore.View.{view}
use pandastack_ai.SlotStore.Claims.{Quiet}

-- A slot whose owner is not alive is free afterwards.
abbrev pub reap : List Text → Option (Option Text) → Option (Option Text)
reap live none = none
reap live (some none) = some none
reap live (some (some o)) = if contains o live then some (some o) else some none

abbrev listed : ℕ → List ℕ → Bool
listed j [] = false
listed j (i ∷ is) = i == j || listed j is

abbrev freed : Option (Option Text) → Option (Option Text)
freed none = none
freed (some o) = some none

view-clear_idx :
    (i j : ℕ) (t : Table)
    → view (update (λ r. r.idx == i) clear t).0 j ≡ (if i == j then freed (view t j) else view t j)
unfolding view update
view-clear_idx i j [] = ground arith
view-clear_idx i j (r ∷ t) = ground (arith, view-clear_idx i j t)

view-free_all :
    (db : Faults) (is : List ℕ) (j : ℕ) (t : Table)
    → Quiet db
    → ((free_all db is t).0 ≡ true)
      × (view (free_all db is t).1 j ≡ (if listed j is then freed (view t j) else view t j))
unfolding free_all
view-free_all db [] j t q = (refl, refl)
view-free_all db (i ∷ is) j t q = ground (
  arith,
  q (Stmt.free_row i),
  view-free_all db is j (update (λ r. r.idx == i) clear t).0 q,
  view-clear_idx i j t,
)

free_all_keeps :
    (db : Faults) (is : List ℕ) (j : ℕ) (t : Table)
    → listed j is ≡ false
    → view (free_all db is t).1 j ≡ view t j
unfolding free_all
free_all_keeps db [] j t h = refl
free_all_keeps db (i ∷ is) j t h =
    ground
      (arith, free_all_keeps db is j (update (λ r. r.idx == i) clear t).0, view-clear_idx i j t)

Fresh-unlisted :
    (live : List Text) (j : ℕ) (t : Table) → Fresh j t → listed j (orphans live t) ≡ false
unfolding orphans
Fresh-unlisted live j [] h = refl
Fresh-unlisted live j (r ∷ t) h = ground (arith, Fresh-unlisted live j t h.1)

listed-reap :
    (live : List Text) (j : ℕ) (t : Table)
    → Distinct t
    → (if listed j (orphans live t) then freed (view t j) else view t j) ≡ reap live (view t j)
unfolding orphans view
listed-reap live j [] d = refl
listed-reap live j (r ∷ t) d =
    ground (arith, listed-reap live j t d.1, Fresh-unlisted live r.idx t d.0)

-- With a database that answers and rows of distinct indices, reconciliation frees exactly the
-- slots whose owner is not alive, and returns the number of those.
pub reconcile_lem :
    (db : Faults) (live : List Text) (t : Table)
    → Quiet db
    → Distinct t
    → ((reconcile db live t).0 ≡ ok (length (orphans live t)))
      × ((j : ℕ) → view (reconcile db live t).1 j ≡ reap live (view t j))
unfolding reconcile
reconcile_lem db live t q d =
    let after = λ (j : ℕ). view-free_all db (orphans live t) j t q in
    (
      ground (arith, q Stmt.scan_owned, after 0),
      λ j. ground (arith, q Stmt.scan_owned, after j, listed-reap live j t d),
    )

-- Whichever statements fail, reconciliation of rows of distinct indices never takes a slot from a
-- sandbox that is alive.
pub reconcile_keeps_live :
    (db : Faults) (live : List Text) (j : ℕ) (id : Text) (t : Table)
    → Distinct t
    → view t j ≡ some (some id)
    → contains id live ≡ true
    → view (reconcile db live t).1 j ≡ some (some id)
unfolding reconcile
reconcile_keeps_live db live j id t d e h = elim (Bool-cases (listed j (orphans live t))) [
  | inl yes_listed ↦ ground (arith, listed-reap live j t d)
  | inr unlisted ↦ ground (arith, free_all_keeps db (orphans live t) j t unlisted)
]

abbrev handed : Text → Text → Option (Option Text) → Option (Option Text)
handed from to none = none
handed from to (some none) = some none
handed from to (some (some o)) = if text_eq o from then some (some to) else some (some o)

view-hand_over :
    (now idx j : ℕ) (from to kind : Text) (t : Table)
    → view (update (λ r. r.idx == idx && owned_by from r) (set_owner to kind now) t).0 j
      ≡ (if idx == j then handed from to (view t j) else view t j)
unfolding view update owned_by
view-hand_over now idx j from to kind [] = ground arith
view-hand_over now idx j from to kind (r ∷ t) =
    ground (arith, view-hand_over now idx j from to kind t)

-- Handing a slot over: whichever statements fail, every slot stays as it was, but for slot `idx`,
-- which may go from the one owner to the other.
pub reassign_never_frees :
    (db : Faults) (now : ℕ) (from to kind : Text) (idx j : ℕ) (t : Table)
    → (view (reassign db now from to kind idx t).1 j ≡ view t j)
      ⊎ ((j ≡ idx)
          × (view t j ≡ some (some from))
          × (view (reassign db now from to kind idx t).1 j ≡ some (some to)))
unfolding reassign
reassign_never_frees db now from to kind idx j t =
    ground (arith, view-hand_over now idx j from to kind t)
