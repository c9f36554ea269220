-- ===== src/Scheduler/Reserve.antt =====
-- The in-flight reservations of scheduler.go: a map from agent ids to lists.
use pandastack_ai.Common.{ℕ, ◌+◌, Bool, List, [], ◌∷◌, ◌++◌, Text, text_eq, ltb, if◌then◌else◌}
use pandastack_ai.Common.Int.{ℤ, pos, ◌+ℤ◌}
use pandastack_ai.Scheduler.Data.{
  Request, Reservation, reservation_ttl, default_reserved_cpu, positive,
}

abbrev pub Reservations : Type 0
Reservations = List (Text × List Reservation)

-- `now.Sub(r.at) < reservationTTL`
abbrev pub is_live : ℕ → Reservation → Bool
is_live now r = ltb now (r.at + reservation_ttl)

unfoldable pub keep_live : ℕ → List Reservation → List Reservation
keep_live now [] = []
keep_live now (r ∷ rs) = let rest = keep_live now rs in if is_live now r then r ∷ rest else rest

abbrev pub put_kept : Text → List Reservation → Reservations → Reservations
put_kept id [] rest = rest
put_kept id (r ∷ rs) rest = (id, r ∷ rs) ∷ rest

unfoldable pub prune : ℕ → Reservations → Reservations
unfolding keep_live
prune now [] = []
prune now ((id, rs) ∷ m) = put_kept id (keep_live now rs) (prune now m)

-- `s.reservations[agentID]`, the empty list for a missing key.
unfoldable pub claims_of : Text → Reservations → List Reservation
claims_of id [] = []
claims_of id ((k, rs) ∷ m) = if text_eq k id then rs else claims_of id m

pub record Totals : Type 0 where
  pub cpu : ℤ
  pub mem_mb : ℤ
  pub disk : ℤ

unfoldable pub total_from : Totals → List Reservation → Totals
total_from t [] = t
total_from t (r ∷ rs) =
    total_from
      (record { cpu = t.cpu +ℤ r.cpu; mem_mb = t.mem_mb +ℤ r.mem_mb; disk = t.disk +ℤ r.disk }) rs

abbrev pub no_claims : Totals
no_claims = record { cpu = pos 0; mem_mb = pos 0; disk = pos 0 }

unfoldable pub reserved : Text → Reservations → Totals
unfolding claims_of total_from
reserved id m = total_from no_claims (claims_of id m)

-- The claim that a placement records: a create that declares no size counts as 8 vCPUs.
unfoldable pub claim_of : Request → ℕ → Reservation
claim_of req now = record {
  cpu = if positive req.cpu then req.cpu else default_reserved_cpu;
  mem_mb = req.memory_mb;
  disk = req.disk_bytes;
  at = now;
}

unfoldable pub append_claim : Text → Reservation → Reservations → Reservations
append_claim id r [] = (id, r ∷ []) ∷ []
append_claim id r ((k, rs) ∷ m) =
    if text_eq k id then (k, rs ++ (r ∷ [])) ∷ m else (k, rs) ∷ append_claim id r m

unfoldable pub reserve : Text → Request → ℕ → Reservations → Reservations
unfolding claim_of append_claim
reserve id req now m = append_claim id (claim_of req now) m
