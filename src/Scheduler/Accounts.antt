-- ===== src/Scheduler/Accounts.antt =====
-- The books of the in-flight reservations: what a placement adds, and what expires.
use pandastack_ai.Common.{
  ℕ, ◌≡◌, refl, ◌∙◌, ◌≢◌, inl, inr, List, [], ◌∷◌, ◌++◌, All, Text, text_eq, arith, Bool-cases,
  if◌then◌else◌,
}
use pandastack_ai.Common.Int.{◌+ℤ◌}
use pandastack_ai.Scheduler.Data.{Request, Reservation}
use pandastack_ai.Scheduler.Reserve.{
  Reservations, Totals, keep_live, put_kept, prune, claims_of, total_from, no_claims, reserved,
  claim_of, append_claim, reserve,
}

abbrev pub plus : Totals → Reservation → Totals
plus t r = record { cpu = t.cpu +ℤ r.cpu; mem_mb = t.mem_mb +ℤ r.mem_mb; disk = t.disk +ℤ r.disk }

total_from-snoc :
    (t : Totals) (rs : List Reservation) (r : Reservation)
    → total_from t (rs ++ (r ∷ [])) ≡ plus (total_from t rs) r
unfolding total_from
total_from-snoc t [] r = refl
total_from-snoc t (q ∷ rs) r = total_from-snoc (plus t q) rs r

claims_of-append_claim :
    (id j : Text) (r : Reservation) (m : Reservations)
    → claims_of j (append_claim id r m)
      ≡ (if text_eq id j then claims_of j m ++ (r ∷ []) else claims_of j m)
unfolding claims_of append_claim
claims_of-append_claim id j r [] = ground arith
claims_of-append_claim id j r ((k, rs) ∷ m) = ground (arith, claims_of-append_claim id j r m)

-- A placement adds its claim to the agent that was chosen, and nothing to any other.
pub reserved-reserve :
    (id j : Text) (req : Request) (now : ℕ) (m : Reservations)
    → reserved j (reserve id req now m)
      ≡ (if text_eq id j then plus (reserved j m) (claim_of req now) else reserved j m)
unfolding reserved reserve
reserved-reserve id j req now m = elim (Bool-cases (text_eq id j)) [
  | inl e ↦
      rw (claims_of-append_claim id j (claim_of req now) m, e)
        (total_from-snoc no_claims (claims_of j m) (claim_of req now))
  | inr e ↦ rw (claims_of-append_claim id j (claim_of req now) m, e)
]

-- The keys of a Go map are distinct.
abbrev pub NoKey : Text → Reservations → Type 0
NoKey id = All (λ e. e.0 ≢ id)

abbrev pub Keys : Reservations → Type 0
Keys [] = Unit
Keys ((k, rs) ∷ m) = NoKey k m × Keys m

NoKey-claims : (id : Text) (m : Reservations) → NoKey id m → claims_of id m ≡ []
unfolding claims_of
NoKey-claims id [] h = refl
NoKey-claims id ((k, rs) ∷ m) h = ground (arith, NoKey-claims id m h.1)

put_kept-NoKey :
    (id k : Text) (rs : List Reservation) (m : Reservations)
    → k ≢ id
    → NoKey id m
    → NoKey id (put_kept k rs m)
put_kept-NoKey id k [] m ne h = h
put_kept-NoKey id k (r ∷ rs) m ne h = (ne, h)

prune-NoKey : (now : ℕ) (id : Text) (m : Reservations) → NoKey id m → NoKey id (prune now m)
unfolding prune
prune-NoKey now id [] h = tt
prune-NoKey now id ((k, rs) ∷ m) h =
    put_kept-NoKey id k (keep_live now rs) (prune now m) h.0 (prune-NoKey now id m h.1)

claims_of-put_kept :
    (id k : Text) (rs : List Reservation) (m : Reservations)
    → NoKey k m
    → claims_of id (put_kept k rs m) ≡ (if text_eq k id then rs else claims_of id m)
unfolding claims_of
claims_of-put_kept id k [] m h = ground (arith, NoKey-claims k m h)
claims_of-put_kept id k (r ∷ rs) m h = refl

-- In a map of distinct keys, pruning keeps for every agent exactly the claims younger than the
-- limit, in their order.
pub claims_of-prune :
    (now : ℕ) (id : Text) (m : Reservations)
    → Keys m
    → claims_of id (prune now m) ≡ keep_live now (claims_of id m)
unfolding prune claims_of
claims_of-prune now id [] h = unfold keep_live in refl
claims_of-prune now id ((k, rs) ∷ m) h =
    claims_of-put_kept id k (keep_live now rs) (prune now m) (prune-NoKey now k m h.0)
    ∙ ground (arith, claims_of-prune now id m h.1)

-- The map stays a map.
put_kept-Keys :
    (k : Text) (rs : List Reservation) (m : Reservations)
    → NoKey k m
    → Keys m
    → Keys (put_kept k rs m)
put_kept-Keys k [] m h u = u
put_kept-Keys k (r ∷ rs) m h u = (h, u)

pub prune-Keys : (now : ℕ) (m : Reservations) → Keys m → Keys (prune now m)
unfolding prune
prune-Keys now [] h = tt
prune-Keys now ((k, rs) ∷ m) h =
    put_kept-Keys k (keep_live now rs) (prune now m) (prune-NoKey now k m h.0)
      (prune-Keys now m h.1)

append_claim-NoKey :
    (id k : Text) (r : Reservation) (m : Reservations)
    → id ≢ k
    → NoKey k m
    → NoKey k (append_claim id r m)
unfolding append_claim
append_claim-NoKey id k r [] ne h = (ne, tt)
append_claim-NoKey id k r ((j, rs) ∷ m) ne h = ground (arith, append_claim-NoKey id k r m ne h.1)

pub append_claim-Keys :
    (id : Text) (r : Reservation) (m : Reservations) → Keys m → Keys (append_claim id r m)
unfolding append_claim
append_claim-Keys id r [] h = (tt, tt)
append_claim-Keys id r ((k, rs) ∷ m) h = elim (Bool-cases (text_eq k id)) [
  | inl e ↦ rw e h
  | inr e ↦ rw e (append_claim-NoKey id k r m (λ c. ground arith) h.0, append_claim-Keys id r m h.1)
]
