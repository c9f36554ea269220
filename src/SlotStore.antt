-- ===== src/SlotStore.antt =====
-- agent/internal/slotstore/slotstore.go: the ledger of /30 network slots of a host.
-- The table `network_slots` is a list of rows, and each SQL statement is a function on it. Whether
-- a statement of a call fails (lost file, cancelled context) is an argument, `Faults`; a
-- transaction that does not commit leaves the table as it was.
pub mod Rows
pub mod Hex
pub mod Ownership
pub mod View
pub mod Claims
pub mod Ledger
pub mod Inserts
pub mod Steps
pub mod Seeds
pub mod Releases
pub mod Reconciles
pub mod History
pub mod Failures
pub mod Handover
pub mod Examples
use Rows.{Slot, Table, is_free, owned_by, select_owned, select_free, set_owner, update}
use Rows.{insert_or_ignore, count_free, clear}
use pandastack_ai.Common.{
  ℕ, zero, suc, ◌+◌, ◌-◌, ◌%◌, ◌^◌, Bool, true, false, not, ◌&&◌, ◌||◌, Option, none, some, List,
  [], ◌∷◌, length, Text, text_eq, codes, ltb, leb, ◌==◌, if◌then◌else◌,
}
use Hex.{prebuilt_owner}

pub data Stmt : Type 0 where
  begin_tx prepare count_rows select_owner lowest_free exec_update rows_affected commit : Stmt
  insert_row free_row : ℕ → Stmt
  scan_owned : Stmt

abbrev pub Faults : Type 0
Faults = Stmt → Bool

-- `raced` is the error "slot taken concurrently".
pub data Error : Type 0 where
  pool_exhausted empty_id db_error raced : Error

pub data Result {ℓ} (A : Type ℓ) : Type ℓ where
  ok : A → Result A
  err : Error → Result A

abbrev pub u32 : ℕ → ℕ
u32 n = n % 2 ^ 32

-- The UPDATE of one free row, its row count and the commit, as `Claim` and `ClaimPrebuilt` end.
finish_claim : Faults → ℕ → ℕ → Text → Text → Table → Result ℕ × Table
finish_claim db now idx id kind t =
    let (t', n) = update (λ r. r.idx == idx && is_free r) (set_owner id kind now) t in
    if db exec_update
    then (err db_error, t)
    else if db rows_affected
    then (err db_error, t)
    else if not (n == 1)
    then (err raced, t)
    else if db commit
    then (err db_error, t)
    else (ok (u32 idx), t')

-- `owner` gives the owner to write: the caller's id, or the sentinel of the row that was found.
claim_free : Faults → ℕ → (ℕ → Text) → Text → Table → Option ℕ → Result ℕ × Table
unfolding finish_claim
claim_free db now owner kind t none =
    if db lowest_free then (err db_error, t) else (err pool_exhausted, t)
claim_free db now owner kind t (some idx) =
    if db lowest_free then (err db_error, t) else finish_claim db now idx (owner idx) kind t

claim_tx : Faults → ℕ → Text → Text → Table → Option ℕ → Result ℕ × Table
unfolding claim_free
claim_tx db now id kind t (some existing) =
    if db commit then (err db_error, t) else (ok (u32 existing), t)
claim_tx db now id kind t none = claim_free db now (λ _. id) kind t (select_free t)

pub claim : Faults → ℕ → Text → Text → Table → Result ℕ × Table
unfolding claim_tx
claim db now id kind t =
    if text_eq id []
    then (err empty_id, t)
    else if db begin_tx
    then (err db_error, t)
    else if db select_owner
    then (err db_error, t)
    else claim_tx db now id kind t (select_owned id t)

pub claim_prebuilt : Faults → ℕ → Text → Table → Result ℕ × Table
unfolding claim_free
claim_prebuilt db now kind t =
    if db begin_tx
    then (err db_error, t)
    else claim_free db now (λ i. prebuilt_owner (u32 i)) kind t (select_free t)

-- A single UPDATE commits by itself, so the rows are written also when the row count cannot be
-- read.
abbrev run_update : Faults → (Slot → Bool) → (Slot → Slot) → Table → Result Bool × Table
run_update db p f t =
    let (t', n) = update p f t in
    if db exec_update
    then (err db_error, t)
    else if db rows_affected
    then (err db_error, t')
    else (ok (n == 1), t')

pub claim_idx : Faults → ℕ → Text → Text → ℕ → Table → Result Bool × Table
claim_idx db now id kind idx t =
    if text_eq id []
    then (err empty_id, t)
    else run_update db (λ r. r.idx == idx && (is_free r || owned_by id r)) (set_owner id kind now) t

pub reassign : Faults → ℕ → Text → Text → Text → ℕ → Table → Result Bool × Table
reassign db now from to kind idx t =
    if text_eq to []
    then (err empty_id, t)
    else run_update db (λ r. r.idx == idx && owned_by from r) (set_owner to kind now) t

pub release : Faults → Text → Table → Result Bool × Table
release db id t = if text_eq id [] then (ok false, t) else run_update db (owned_by id) clear t

pub owner_idx : Faults → Text → Table → Result (Option ℕ)
owner_idx db id t = if db select_owner then err db_error else ok (select_owned id t)

pub contains : Text → List Text → Bool
contains id [] = false
contains id (x ∷ xs) = text_eq x id || contains id xs

pub orphan : List Text → Slot → Bool
unfolding contains
orphan live r = elim r.sandbox_id [ none ↦ false | some id ↦ not (contains id live) ]

pub orphans : List Text → Table → List ℕ
unfolding orphan
orphans live [] = []
orphans live (r ∷ t) = let rest = orphans live t in if orphan live r then r.idx ∷ rest else rest

-- The loop of UPDATEs; each commits by itself, so a failure leaves the earlier ones in place.
free_all : Faults → List ℕ → Table → Bool × Table
free_all db [] t = (true, t)
free_all db (i ∷ is) t =
    let rest = free_all db is (update (λ r. r.idx == i) clear t).0 in
    if db (free_row i) then (false, t) else rest

pub reconcile : Faults → List Text → Table → Result ℕ × Table
unfolding orphans free_all
reconcile db live t =
    let found = orphans live t in
    let (done, t') = free_all db found t in
    if db scan_owned
    then (err db_error, t)
    else if done
    then (ok (length found), t')
    else (err db_error, t')

pub record Stats : Type 0 where
  pub capacity : ℕ
  pub free : ℕ
  pub used : ℕ

pub stats : Faults → Table → Result Stats
stats db t =
    if db count_rows
    then err db_error
    else ok (record { capacity = length t; free = count_free t; used = length t - count_free t })

-- INSERT OR IGNORE for i, i + 1, …; `none` when one fails, and the transaction is rolled back.
seed_rows : Faults → ℕ → ℕ → Table → Option Table
seed_rows db zero i t = some t
seed_rows db (suc k) i t =
    let rest = seed_rows db k (i + 1) (insert_or_ignore i t) in
    if db (insert_row i) then none else rest

abbrev finish_seed : Faults → Table → Option Table → Option Error × Table
finish_seed db t none = (some db_error, t)
finish_seed db t (some t') = if db commit then (some db_error, t) else (none, t')

pub seed : Faults → ℕ → Table → Option Error × Table
unfolding seed_rows
seed db capacity t =
    if capacity == 0
    then (none, t)
    else if db count_rows
    then (some db_error, t)
    else if leb capacity (length t)
    then (none, t)
    else if db begin_tx
    then (some db_error, t)
    else if db prepare
    then (some db_error, t)
    else finish_seed db t (seed_rows db capacity 0 t)
