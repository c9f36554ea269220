-- ===== src/SlotStore/History.antt =====
-- Histories of calls on one ledger, and what holds after any of them.
use pandastack_ai.Common.{ℕ, ◌^◌, ◌<◌, ◌≡◌, some, List, [], All, Text}
use pandastack_ai.SlotStore.{
  Faults, claim, claim_prebuilt, claim_idx, reassign, release, reconcile, seed,
}
use pandastack_ai.SlotStore.Rows.{Table}
use pandastack_ai.SlotStore.Ownership.{Unowned}
use pandastack_ai.SlotStore.Ledger.{IsReal, Ledger}
use pandastack_ai.SlotStore.Steps.{
  claim-Ledger, claim_prebuilt-Ledger, claim_idx-Ledger, reassign-Ledger, release-Ledger,
  reconcile-Ledger,
}
use pandastack_ai.SlotStore.Seeds.{seed-Ledger}

-- One call, with any statements failing. `reassign` and `claim_idx` are called for a sandbox that
-- owns no other slot; neither of them looks.
pub data Step (t : Table) : Table → Type 0 where
  seeds : (db : Faults) (capacity : ℕ) → capacity < 2 ^ 32 → Step t (seed db capacity t).1
  claims : (db : Faults) (now : ℕ) (id kind : Text) → IsReal id → Step t (claim db now id kind t).1
  prebuilds : (db : Faults) (now : ℕ) (kind : Text) → Step t (claim_prebuilt db now kind t).1
  adopts :
      (db : Faults) (now : ℕ) (from to kind : Text) (idx : ℕ)
      → IsReal to
      → Unowned to t
      → Step t (reassign db now from to kind idx t).1
  claims_idx :
      (db : Faults) (now : ℕ) (id kind : Text) (idx : ℕ)
      → IsReal id
      → All (λ r. r.sandbox_id ≡ some id → r.idx ≡ idx) t
      → Step t (claim_idx db now id kind idx t).1
  releases : (db : Faults) (id : Text) → Step t (release db id t).1
  reconciles : (db : Faults) (live : List Text) → Step t (reconcile db live t).1

pub data Reach : Table → Type 0 where
  start : Reach []
  next : {t u : Table} → Reach t → Step t u → Reach u

Step-Ledger : {t u : Table} → Step t u → Ledger t → Ledger u
Step-Ledger {t} (seeds db capacity b) l = seed-Ledger db capacity t b l
Step-Ledger {t} (claims db now id kind real) l = claim-Ledger db now id kind t real l
Step-Ledger {t} (prebuilds db now kind) l = claim_prebuilt-Ledger db now kind t l
Step-Ledger {t} (adopts db now from to kind idx real u) l =
    reassign-Ledger db now from to kind idx t real u l
Step-Ledger {t} (claims_idx db now id kind idx real h) l =
    claim_idx-Ledger db now id kind idx t real h l
Step-Ledger {t} (releases db id) l = release-Ledger db id t l
Step-Ledger {t} (reconciles db live) l = reconcile-Ledger db live t l

-- After any history of calls from an empty ledger, with any statements failing, where claims are
-- for ids that are no sentinel, and ClaimIdx and Reassign for a sandbox that owns no other slot,
-- the rows stand in the order of distinct indices below 2^32, no two rows have the same owner, and
-- a sentinel `prebuilt:k` owns no row but `k`.
pub Reach-Ledger : {t : Table} → Reach t → Ledger t
Reach-Ledger start = record { ascending = tt; single = tt; sentinels = tt; small = tt }
Reach-Ledger (next r s) = Step-Ledger s (Reach-Ledger r)
