-- ===== src/SlotStore/Seeds.antt =====
-- `Seed` of slotstore.go: the rows it adds, and that it keeps the ledger.
use pandastack_ai.Common.{
  ℕ, zero, suc, ◌+◌, ◌^◌, ◌≤◌, ◌<◌, ◌≡◌, refl, ◌≢◌, inl, inr, ◌&&◌, Option, none, some, Text, ltb,
  leb, length, arith, Bool-cases, if◌then◌else◌,
}
use pandastack_ai.SlotStore.{Faults, Stmt, seed_rows, finish_seed, seed}
use pandastack_ai.SlotStore.Rows.{Table, insert_or_ignore}
use pandastack_ai.SlotStore.View.{view}
use pandastack_ai.SlotStore.Claims.{Quiet}
use pandastack_ai.SlotStore.Ledger.{Ledger, Ascending}
use pandastack_ai.SlotStore.Inserts.{insert-Ledger, insert-Ascending, exist, view-insert}

seed_rows-Ledger :
    (db : Faults) (k i : ℕ) (t u : Table)
    → i + k ≤ 2 ^ 32
    → Ledger t
    → seed_rows db k i t ≡ some u
    → Ledger u
unfolding seed_rows
seed_rows-Ledger db zero i t u b l e = ground arith
seed_rows-Ledger db (suc k) i t u b l e =
    seed_rows-Ledger db k (i + 1) (insert_or_ignore i t) u (omega arith)
      (insert-Ledger i t (omega arith) l) (ground arith)

finish_seed-Ledger :
    (db : Faults) (t : Table) (o : Option Table)
    → Ledger t
    → ((u : Table) → o ≡ some u → Ledger u)
    → Ledger (finish_seed db t o).1
finish_seed-Ledger db t none l h = l
finish_seed-Ledger db t (some u) l h = elim (Bool-cases (db Stmt.commit)) [
  | inl c ↦ rw c l
  | inr c ↦ rw c (h u refl)
]

pub seed-Ledger :
    (db : Faults) (capacity : ℕ) (t : Table)
    → capacity < 2 ^ 32
    → Ledger t
    → Ledger (seed db capacity t).1
unfolding seed
seed-Ledger db capacity t b l = ground (
  arith,
  finish_seed-Ledger db t (seed_rows db capacity 0 t) l
      (λ u e. seed_rows-Ledger db capacity 0 t u (omega arith) l e),
)

view-seed_rows :
    (db : Faults) (k i j : ℕ) (t u : Table)
    → Ascending t
    → seed_rows db k i t ≡ some u
    → view u j ≡ (if leb i j && ltb j (i + k) then exist (view t j) else view t j)
unfolding seed_rows
view-seed_rows db zero i j t u a e = ground arith
view-seed_rows db (suc k) i j t u a e = ground (
  arith,
  view-seed_rows db k (i + 1) j (insert_or_ignore i t) u (insert-Ascending i t a),
  view-insert i j t a,
)

seed_rows-total :
    (db : Faults) (k i : ℕ) (t : Table) → Quiet db → (u : Table) × (seed_rows db k i t ≡ some u)
unfolding seed_rows
seed_rows-total db zero i t q = (t, refl)
seed_rows-total db (suc k) i t q =
    let (u, e) = seed_rows-total db k (i + 1) (insert_or_ignore i t) q in
    (u, ground (arith, q (Stmt.insert_row i), e))

finish_seed_keeps :
    (db : Faults) (j : ℕ) (x : Option Text) (t : Table) (o : Option Table)
    → view t j ≡ some x
    → ((u : Table) → o ≡ some u → view u j ≡ some x)
    → view (finish_seed db t o).1 j ≡ some x
finish_seed_keeps db j x t none e h = e
finish_seed_keeps db j x t (some u) e h = ground (arith, h u refl)

-- Seeding a table in the order of its indices never touches a slot that exists, whatever the
-- capacity and whichever statements fail.
pub seed_keeps :
    (db : Faults) (capacity j : ℕ) (o : Option Text) (t : Table)
    → Ascending t
    → view t j ≡ some o
    → view (seed db capacity t).1 j ≡ some o
unfolding seed
seed_keeps db capacity j o t a e = ground (
  arith,
  finish_seed_keeps db j o t (seed_rows db capacity 0 t) e
      (λ u s. ground (arith, view-seed_rows db capacity 0 j t u a s)),
)

-- With a database that answers, seeding a ledger whose rows have no gap leaves every slot below the
-- capacity in the table.
pub seed_exists :
    (db : Faults) (capacity j : ℕ) (t : Table)
    → Quiet db
    → Ascending t
    → ((i : ℕ) → i < length t → view t i ≢ none)
    → j < capacity
    → view (seed db capacity t).1 j ≢ none
unfolding seed
seed_exists db capacity j t q a dense lt =
    let (u, e) = seed_rows-total db capacity 0 t q in
    ground (
      arith,
      e,
      q Stmt.count_rows,
      q Stmt.begin_tx,
      q Stmt.prepare,
      q Stmt.commit,
      dense j,
      view-seed_rows db capacity 0 j t u a e,
    )
