-- ===== src/SlotStore/Examples.antt =====
-- Runs of slotstore.go on small ledgers, where the hypotheses of its theorems hold.
use pandastack_ai.Common.{
  ℕ, ◌≡◌, refl, true, false, none, some, [], ◌∷◌, length, Text, codes, Text-discrete, arith,
}
use pandastack_ai.SlotStore.{
  Faults, ok, claim, reconcile, contains, orphans, seed, Stmt, Error, err,
}
use pandastack_ai.SlotStore.Rows.{Slot, Table, select_owned, select_free, update}
use pandastack_ai.SlotStore.Failures.{claim_undone}
use pandastack_ai.SlotStore.Hex.{prebuilt_owner}
use pandastack_ai.SlotStore.Ownership.{Inv, SingleOwner}
use pandastack_ai.SlotStore.View.{view}
use pandastack_ai.SlotStore.Claims.{Quiet, Claimed, claim-Claimed}
use pandastack_ai.SlotStore.Ledger.{Ledger, IsReal}
use pandastack_ai.SlotStore.Reconciles.{reap, reconcile_lem}
use pandastack_ai.SlotStore.History.{Reach, start, next, Step, Reach-Ledger}

abbrev quiet : Faults
quiet s = false

quiet-Quiet : Quiet quiet
quiet-Quiet s = refl

abbrev alice : Text
alice = codes "alice"

abbrev bob : Text
bob = codes "bob"

abbrev kind : Text
kind = codes "sandbox"

abbrev empty_row : ℕ → Slot
empty_row i = record { idx = i; sandbox_id = none; kind = []; claimed_at = none }

abbrev owned_row : ℕ → Text → Slot
owned_row i id = record { idx = i; sandbox_id = some id; kind = kind; claimed_at = some 1 }

abbrev table : Table
table = empty_row 0 ∷ owned_row 1 alice ∷ empty_row 2 ∷ []

table-SingleOwner : SingleOwner table
table-SingleOwner = (λ o e. absurd cc, (λ o e. (λ f. absurd cc, tt), (λ o e. tt, tt)))

table-Inv : Inv table
table-Inv = record {
  distinct = ((omega arith, (omega arith, tt)), ((omega arith, tt), (tt, tt)));
  single = table-SingleOwner;
}

alice-IsReal : IsReal alice
unfolding prebuilt_owner
alice-IsReal k e = absurd cc

claim-Claimed_example :
    Claimed bob table (claim quiet 5 bob kind table).0 (claim quiet 5 bob kind table).1
claim-Claimed_example =
    claim-Claimed quiet 5 bob kind table quiet-Quiet table-Inv
      (omega arith, (omega arith, (omega arith, tt))) (λ e. absurd cc)

reconcile_lem_example :
    ((reconcile quiet (bob ∷ []) table).0 ≡ ok (length (orphans (bob ∷ []) table)))
    × ((j : ℕ) → view (reconcile quiet (bob ∷ []) table).1 j ≡ reap (bob ∷ []) (view table j))
reconcile_lem_example = reconcile_lem quiet (bob ∷ []) table quiet-Quiet table-Inv.distinct

at_1 : view table 1 ≡ some (some alice)
unfolding view
at_1 = refl

alive : contains alice (alice ∷ []) ≡ true
unfolding contains Text-discrete
alive = refl

abbrev seeded : Table
seeded = (seed quiet 2 []).1

abbrev claimed : Table
claimed = (claim quiet 5 alice kind seeded).1

claimed-Reach : Reach claimed
claimed-Reach =
    next (next start (Step.seeds quiet 2 (omega arith)))
      (Step.claims quiet 5 alice kind alice-IsReal)

Reach-Ledger_example : Ledger claimed
Reach-Ledger_example = Reach-Ledger claimed-Reach

lowest_free_slot : (claim quiet 5 bob kind table).0 ≡ ok 0
unfolding claim Text-discrete select_owned select_free update
lowest_free_slot = refl

abbrev broken_commit : Faults
broken_commit Stmt.commit = true
broken_commit Stmt.begin_tx = false
broken_commit Stmt.prepare = false
broken_commit Stmt.count_rows = false
broken_commit Stmt.select_owner = false
broken_commit Stmt.lowest_free = false
broken_commit Stmt.exec_update = false
broken_commit Stmt.rows_affected = false
broken_commit (Stmt.insert_row i) = false
broken_commit (Stmt.free_row i) = false
broken_commit Stmt.scan_owned = false

commit_fails : (claim broken_commit 5 bob kind table).0 ≡ err Error.db_error
unfolding claim Text-discrete select_owned select_free update
commit_fails = refl

claim_undone_example : (claim broken_commit 5 bob kind table).1 ≡ table
claim_undone_example = claim_undone broken_commit 5 bob kind table Error.db_error commit_fails
