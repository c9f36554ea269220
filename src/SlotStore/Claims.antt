-- ===== src/SlotStore/Claims.antt =====
-- `Claim` of slotstore.go against an abstract allocator, and its error paths.
use pandastack_ai.Common.{
  ℕ, ◌^◌, ◌≤◌, ◌<◌, ◌≡◌, refl, ◌≢◌, inl, inr, false, ◌&&◌, Option, none, some, [], ◌∷◌, All, Text,
  text_eq, ◌==◌, arith, Bool-cases, if◌then◌else◌,
}
use pandastack_ai.SlotStore.{
  Faults, Stmt, pool_exhausted, Result, ok, err, u32, finish_claim, claim_free, claim_tx, claim,
}
use pandastack_ai.SlotStore.Rows.{Table, is_free, select_owned, select_free, set_owner, update}
use pandastack_ai.SlotStore.Ownership.{Inv, Unowned}
use pandastack_ai.SlotStore.View.{
  view, view-update_free, update_free_count, select_owned-none, Unowned-view, select_owned-some,
  select_free-none, select_free-some, select_free-least,
}

-- Every statement succeeds.
abbrev pub Quiet : Faults → Type 0
Quiet db = (s : Stmt) → db s ≡ false

-- What a call of `Claim` may do to the slots, and what it returns.
pub data Claimed (id : Text) (t : Table) (r : Result ℕ) (t' : Table) : Type 0 where
  again : (i : ℕ) → view t i ≡ some (some id) → r ≡ ok i → t' ≡ t → Claimed id t r t'
  fresh :
      (i : ℕ)
      → ((j : ℕ) → view t j ≢ some (some id))
      → view t i ≡ some none
      → ((j : ℕ) → view t j ≡ some none → i ≤ j)
      → r ≡ ok i
      → ((j : ℕ) → view t' j ≡ (if j == i then some (some id) else view t j))
      → Claimed id t r t'
  full :
      ((j : ℕ) → view t j ≢ some (some id))
      → ((j : ℕ) → view t j ≢ some none)
      → r ≡ err pool_exhausted
      → t' ≡ t
      → Claimed id t r t'

abbrev pub Small : Table → Type 0
Small = All (λ r. r.idx < 2 ^ 32)

view-Small : (i : ℕ) (o : Option Text) (t : Table) → Small t → view t i ≡ some o → u32 i ≡ i
unfolding view
view-Small i o [] b e = cc
view-Small i o (r ∷ t) b e = ground (arith, view-Small i o t b.1)

finish_claim-ok :
    (db : Faults) (now i : ℕ) (id kind : Text) (t : Table)
    → Quiet db
    → Inv t
    → Small t
    → view t i ≡ some none
    → finish_claim db now i id kind t
      ≡ (ok i, (update (λ r. r.idx == i && is_free r) (set_owner id kind now) t).0)
unfolding finish_claim
finish_claim-ok db now i id kind t q v b e = ground (
  arith,
  q Stmt.exec_update,
  q Stmt.rows_affected,
  q Stmt.commit,
  view-Small i none t b e,
  update_free_count (set_owner id kind now) i t v.distinct e,
)

claim_free-Claimed :
    (db : Faults) (now : ℕ) (id kind : Text) (t : Table)
    → Quiet db
    → Inv t
    → Small t
    → Unowned id t
    → (o : Option ℕ) → select_free t ≡ o
    → Claimed id t (claim_free db now (λ _. id) kind t o).0 (claim_free db now (λ _. id) kind t o).1
unfolding claim_free
claim_free-Claimed db now id kind t q v b u none e =
    full (Unowned-view id t u) (λ j. select_free-none j t e) (ground (arith, q Stmt.lowest_free))
      (ground (arith, q Stmt.lowest_free))
claim_free-Claimed db now id kind t q v b u (some i) e =
    let free = select_free-some i t v.distinct e in
    rw (q Stmt.lowest_free, finish_claim-ok db now i id kind t q v b free)
      (fresh i (Unowned-view id t u) free (λ j. select_free-least i j t e) refl
        (λ j. ground (arith, view-update_free id kind now i j t)))

claim_tx-Claimed :
    (db : Faults) (now : ℕ) (id kind : Text) (t : Table)
    → Quiet db
    → Inv t
    → Small t
    → (o : Option ℕ) → select_owned id t ≡ o
    → Claimed id t (claim_tx db now id kind t o).0 (claim_tx db now id kind t o).1
unfolding claim_tx
claim_tx-Claimed db now id kind t q v b none e =
    claim_free-Claimed db now id kind t q v b (select_owned-none id t e) (select_free t) refl
claim_tx-Claimed db now id kind t q v b (some i) e =
    let owned = select_owned-some id i t v.distinct e in
    again i owned (ground (arith, q Stmt.commit, view-Small i (some id) t b owned))
      (ground (arith, q Stmt.commit))

-- With a database that answers and a table of distinct indices below 2^32 where no owner has two
-- rows, a claim for a non-empty id returns the slot that the sandbox already owns and changes
-- nothing, or gives it the lowest free slot and changes the owner of no other, or reports
-- exhaustion when no slot is free, and changes nothing.
pub claim-Claimed :
    (db : Faults) (now : ℕ) (id kind : Text) (t : Table)
    → Quiet db
    → Inv t
    → Small t
    → id ≢ []
    → Claimed id t (claim db now id kind t).0 (claim db now id kind t).1
unfolding claim
claim-Claimed db now id kind t q v b ne = elim (Bool-cases (text_eq id [])) [
  | inl e ↦ absurd (ne (ground arith))
  | inr e ↦
      rw (e, q Stmt.begin_tx, q Stmt.select_owner)
        (claim_tx-Claimed db now id kind t q v b (select_owned id t) refl)
]
