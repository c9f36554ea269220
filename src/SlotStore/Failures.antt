-- ===== src/SlotStore/Failures.antt =====
-- The error paths of `Claim` and `ClaimPrebuilt` of slotstore.go.
use pandastack_ai.Common.{ℕ, ◌≡◌, Option, none, some, Text, arith}
use pandastack_ai.SlotStore.{
  Faults, Error, Result, err, finish_claim, claim_free, claim_tx, claim, claim_prebuilt,
}
use pandastack_ai.SlotStore.Rows.{Table, select_owned, select_free}

-- A call that fails leaves the table as it was.
abbrev pub Undone : Table → Result ℕ × Table → Type 0
Undone t out = (e : Error) → out.0 ≡ err e → out.1 ≡ t

finish_claim-Undone :
    (db : Faults) (now i : ℕ) (id kind : Text) (t : Table)
    → Undone t (finish_claim db now i id kind t)
unfolding finish_claim
finish_claim-Undone db now i id kind t e h = ground arith

claim_free-Undone :
    (db : Faults) (now : ℕ) (owner : ℕ → Text) (kind : Text) (t : Table) (o : Option ℕ)
    → Undone t (claim_free db now owner kind t o)
unfolding claim_free
claim_free-Undone db now owner kind t none e h = ground arith
claim_free-Undone db now owner kind t (some i) e h =
    ground (arith, finish_claim-Undone db now i (owner i) kind t e)

claim_tx-Undone :
    (db : Faults) (now : ℕ) (id kind : Text) (t : Table) (o : Option ℕ)
    → Undone t (claim_tx db now id kind t o)
unfolding claim_tx
claim_tx-Undone db now id kind t none e h =
    claim_free-Undone db now (λ _. id) kind t (select_free t) e h
claim_tx-Undone db now id kind t (some i) e h = ground arith

claim-Undone :
    (db : Faults) (now : ℕ) (id kind : Text) (t : Table) → Undone t (claim db now id kind t)
unfolding claim
claim-Undone db now id kind t e h =
    ground (arith, claim_tx-Undone db now id kind t (select_owned id t) e)

claim_prebuilt-Undone :
    (db : Faults) (now : ℕ) (kind : Text) (t : Table) → Undone t (claim_prebuilt db now kind t)
unfolding claim_prebuilt
claim_prebuilt-Undone db now kind t e h =
    ground (arith, claim_free-Undone db now _ kind t (select_free t) e)

-- Whichever statements fail, a claim that returns an error has changed nothing.
pub claim_undone :
    (db : Faults) (now : ℕ) (id kind : Text) (t : Table) (e : Error)
    → (claim db now id kind t).0 ≡ err e
    → (claim db now id kind t).1 ≡ t
claim_undone db now id kind t e h = claim-Undone db now id kind t e h

-- Nor has a claim for a pre-built slot.
pub claim_prebuilt_undone :
    (db : Faults) (now : ℕ) (kind : Text) (t : Table) (e : Error)
    → (claim_prebuilt db now kind t).0 ≡ err e
    → (claim_prebuilt db now kind t).1 ≡ t
claim_prebuilt_undone db now kind t e h = claim_prebuilt-Undone db now kind t e h
