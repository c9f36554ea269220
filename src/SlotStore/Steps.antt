-- ===== src/SlotStore/Steps.antt =====
-- Each call of slotstore.go, with statements that fail anywhere, keeps the ledger.
use pandastack_ai.Common.{
  ℕ, ◌^◌, ◌<◌, ◌≡◌, refl, ◌≢◌, ◌⊎◌, subst, inl, inr, Bool, true, false, ◌&&◌, ◌||◌, Option, none,
  some, List, [], ◌∷◌, All, Text, text_eq, ◌==◌, arith, Bool-cases,
}
use pandastack_ai.SlotStore.{
  Faults, Stmt, u32, finish_claim, claim_free, claim_tx, claim, claim_prebuilt, run_update,
  claim_idx, reassign, release, orphans, free_all, reconcile,
}
use pandastack_ai.SlotStore.Rows.{
  Slot, Table, is_free, owned_by, select_owned, select_free, set_owner, clear, update,
}
use pandastack_ai.SlotStore.Hex.{prebuilt_owner, prebuilt_owner_inj}
use pandastack_ai.SlotStore.Ownership.{Fresh, Distinct, Unowned}
use pandastack_ai.SlotStore.View.{view, select_owned-none, select_free-some}
use pandastack_ai.SlotStore.Claims.{Small}
use pandastack_ai.SlotStore.Ledger.{
  IsReal, Ledger, SentinelRow, Ascending-Distinct, clear-Ledger, assign-Ledger,
}

-- Whichever way an UPDATE ends, the table is the one before it or the one that it writes.
run_update_ind :
    (P : Table → Type 0) (db : Faults) (p : Slot → Bool) (f : Slot → Slot) (t : Table)
    → P t
    → P (update p f t).0
    → P (run_update db p f t).1
run_update_ind P db p f t before after = elim (Bool-cases (db Stmt.exec_update)) [
  | inl e ↦ rw e before
  | inr e ↦
      rw e (elim (Bool-cases (db Stmt.rows_affected)) [ inl c ↦ rw c after | inr c ↦ rw c after ])
]

pub release-Ledger : (db : Faults) (id : Text) (t : Table) → Ledger t → Ledger (release db id t).1
unfolding release
release-Ledger db id t l = elim (Bool-cases (text_eq id [])) [
  | inl e ↦ rw e l
  | inr e ↦ rw e (run_update_ind Ledger db (owned_by id) clear t l (clear-Ledger (owned_by id) t l))
]

free_all-Ledger : (db : Faults) (is : List ℕ) (t : Table) → Ledger t → Ledger (free_all db is t).1
unfolding free_all
free_all-Ledger db [] t l = l
free_all-Ledger db (i ∷ is) t l = elim (Bool-cases (db (Stmt.free_row i))) [
  | inl e ↦ rw (e, free_all) l
  | inr e ↦ rw (e, free_all) (free_all-Ledger db is _ (clear-Ledger (λ r. r.idx == i) t l))
]

pub reconcile-Ledger :
    (db : Faults) (live : List Text) (t : Table) → Ledger t → Ledger (reconcile db live t).1
unfolding reconcile
reconcile-Ledger db live t l = ground (arith, free_all-Ledger db (orphans live t) t l)

-- A claim ends with the table before it, or with one free row given away.
finish_claim_table :
    (db : Faults) (now i : ℕ) (id kind : Text) (t : Table)
    → ((finish_claim db now i id kind t).1 ≡ t)
      ⊎ ((finish_claim db now i id kind t).1
          ≡ (update (λ r. r.idx == i && is_free r) (set_owner id kind now) t).0)
unfolding finish_claim
finish_claim_table db now i id kind t = ground arith

finish_claim_ind :
    (P : Table → Type 0) (db : Faults) (now i : ℕ) (id kind : Text) (t : Table)
    → P t
    → P (update (λ r. r.idx == i && is_free r) (set_owner id kind now) t).0
    → P (finish_claim db now i id kind t).1
finish_claim_ind P db now i id kind t before after = elim (finish_claim_table db now i id kind t) [
  | inl e ↦ rw e before
  | inr e ↦ rw e after
]

claim_free_ind :
    (P : Table → Type 0) (db : Faults) (now : ℕ) (owner : ℕ → Text) (kind : Text) (t : Table)
    (o : Option ℕ)
    → P t
    → ((i : ℕ)
        → o ≡ some i
        → P (update (λ r. r.idx == i && is_free r) (set_owner (owner i) kind now) t).0)
    → P (claim_free db now owner kind t o).1
unfolding claim_free
claim_free_ind P db now owner kind t none before after = elim (Bool-cases (db Stmt.lowest_free)) [
  | inl e ↦ rw e before
  | inr e ↦ rw e before
]
claim_free_ind P db now owner kind t (some i) before after =
    elim (Bool-cases (db Stmt.lowest_free)) [
      | inl e ↦ rw e before
      | inr e ↦ rw e (finish_claim_ind P db now i (owner i) kind t before (after i refl))
    ]

Unowned-others :
    (p : Slot → Bool) (id : Text) (t : Table)
    → Unowned id t
    → All (λ r. p r ≡ false → r.sandbox_id ≢ some id) t
Unowned-others p id [] u = tt
Unowned-others p id (r ∷ t) u = ((λ _. u.0), Unowned-others p id t u.1)

claim_tx-Ledger :
    (db : Faults) (now : ℕ) (id kind : Text) (t : Table) (o : Option ℕ)
    → IsReal id
    → select_owned id t ≡ o
    → Ledger t
    → Ledger (claim_tx db now id kind t o).1
unfolding claim_tx
claim_tx-Ledger db now id kind t (some i) real e l = elim (Bool-cases (db Stmt.commit)) [
  | inl c ↦ rw c l
  | inr c ↦ rw c l
]
claim_tx-Ledger db now id kind t none real e l =
    claim_free_ind Ledger db now (λ _. id) kind t (select_free t) l
      λ i _.
        assign-Ledger (λ r. r.idx == i && is_free r) id kind now i t (λ r h. ground arith)
          (Unowned-others (λ r. r.idx == i && is_free r) id t (select_owned-none id t e))
          (λ k _ _ c. absurd (real k c)) l

pub claim-Ledger :
    (db : Faults) (now : ℕ) (id kind : Text) (t : Table)
    → IsReal id
    → Ledger t
    → Ledger (claim db now id kind t).1
unfolding claim
claim-Ledger db now id kind t real l =
    ground (arith, claim_tx-Ledger db now id kind t (select_owned id t) real refl l)

-- On a slot that is free no other row can have its sentinel.
Fresh-unsentinel :
    (i : ℕ) (t : Table) → Fresh i t → All SentinelRow t → i < 2 ^ 32 → Unowned (prebuilt_owner i) t
Fresh-unsentinel i [] f s lt = tt
Fresh-unsentinel i (r ∷ t) f s lt = ((λ e. f.0 (s.0 i lt e)), Fresh-unsentinel i t f.1 s.1 lt)

sentinel-Unowned :
    (i : ℕ) (t : Table)
    → Distinct t
    → All SentinelRow t
    → i < 2 ^ 32
    → view t i ≡ some none
    → Unowned (prebuilt_owner i) t
unfolding view
sentinel-Unowned i [] d s lt e = tt
sentinel-Unowned i (r ∷ t) d s lt e = elim (Bool-cases (r.idx == i)) [
  | inl hit ↦
      let here : r.idx ≡ i = ground arith in
      (ground arith, Fresh-unsentinel i t (subst (λ j. Fresh j t) here d.0) s.1 lt)
  | inr miss ↦ ((λ c. ground (arith, s.0 i lt c)), sentinel-Unowned i t d.1 s.1 lt (ground arith))
]

view-bound : (i : ℕ) (o : Option Text) (t : Table) → Small t → view t i ≡ some o → i < 2 ^ 32
unfolding view
view-bound i o [] b e = cc
view-bound i o (r ∷ t) b e = ground (arith, view-bound i o t b.1)

prebuilt_rows :
    (now i : ℕ) (kind : Text) (t : Table)
    → select_free t ≡ some i
    → Ledger t
    → Ledger
        (update (λ r. r.idx == i && is_free r) (set_owner (prebuilt_owner (u32 i)) kind now) t).0
prebuilt_rows now i kind t e l =
    let free = select_free-some i t (Ascending-Distinct t l.ascending) e in
    let lt = view-bound i none t l.small free in
    let same : u32 i ≡ i = omega arith in
    rw same (
      assign-Ledger (λ r. r.idx == i && is_free r) (prebuilt_owner i) kind now i t
        (λ r h. ground arith)
        (Unowned-others (λ r. r.idx == i && is_free r) (prebuilt_owner i) t
          (sentinel-Unowned i t (Ascending-Distinct t l.ascending) l.sentinels lt free))
        (λ k hi hk c. prebuilt_owner_inj i k hi hk c) l)

pub claim_prebuilt-Ledger :
    (db : Faults) (now : ℕ) (kind : Text) (t : Table)
    → Ledger t
    → Ledger (claim_prebuilt db now kind t).1
unfolding claim_prebuilt
claim_prebuilt-Ledger db now kind t l = elim (Bool-cases (db Stmt.begin_tx)) [
  | inl e ↦ rw e l
  | inr e ↦ rw e (
      claim_free_ind Ledger db now (λ i. prebuilt_owner (u32 i)) kind t (select_free t) l
        (λ i s. prebuilt_rows now i kind t s l))
]

-- Handing row `idx` over to a sandbox that owns no other row.
pub reassign-Ledger :
    (db : Faults) (now : ℕ) (from to kind : Text) (idx : ℕ) (t : Table)
    → IsReal to
    → Unowned to t
    → Ledger t
    → Ledger (reassign db now from to kind idx t).1
unfolding reassign
reassign-Ledger db now from to kind idx t real u l = elim (Bool-cases (text_eq to [])) [
  | inl e ↦ rw e l
  | inr e ↦
      let p = λ (r : Slot). r.idx == idx && owned_by from r in
      rw e (
        run_update_ind Ledger db p (set_owner to kind now) t l (
          assign-Ledger p to kind now idx t (λ r h. ground arith) (Unowned-others p to t u)
            (λ k _ _ c. absurd (real k c)) l))
]

own_row_matches :
    (id : Text) (idx : ℕ) (r : Slot)
    → r.sandbox_id ≡ some id
    → r.idx ≡ idx
    → (r.idx == idx && (is_free r || owned_by id r)) ≡ true
unfolding is_free owned_by
own_row_matches id idx r own here = ground arith

pub claim_idx-Ledger :
    (db : Faults) (now : ℕ) (id kind : Text) (idx : ℕ) (t : Table)
    → IsReal id
    → All (λ r. r.sandbox_id ≡ some id → r.idx ≡ idx) t
    → Ledger t
    → Ledger (claim_idx db now id kind idx t).1
unfolding claim_idx
claim_idx-Ledger db now id kind idx t real here l = elim (Bool-cases (text_eq id [])) [
  | inl e ↦ rw e l
  | inr e ↦
      let p = λ (r : Slot). r.idx == idx && (is_free r || owned_by id r) in
      rw e (
        run_update_ind Ledger db p (set_owner id kind now) t l (
          assign-Ledger p id kind now idx t (λ r h. ground arith) (elsewhere t here)
            (λ k _ _ c. absurd (real k c)) l))
]
  where
    elsewhere :
        (u : Table)
        → All (λ r. r.sandbox_id ≡ some id → r.idx ≡ idx) u
        → All
            (λ r. (r.idx == idx && (is_free r || owned_by id r)) ≡ false → r.sandbox_id ≢ some id)
            u
    elsewhere [] h = tt
    elsewhere (r ∷ u) h =
        ((λ off own. cc (own_row_matches id idx r own (h.0 own))), elsewhere u h.1)
