-- ===== src/Scheduler/Leases.antt =====
-- The lease cache of scheduler.go: `RememberLease`, `RememberLeasePersistent`, `ForgetLease` and
-- `LookupLease`. The lease table of the database is a parameter; times are nanoseconds.
use pandastack_ai.Common.{
  ℕ, ◌+◌, ◌*◌, ◌^◌, ◌≡◌, ◌≢◌, refl, inl, inr, true, false, Option, none, some, List, [], ◌∷◌, Text,
  text_eq, ltb, Bool-cases, if◌then◌else◌, arith,
}
use pandastack_ai.Scheduler.Data.{Agent}

pub record Entry : Type 0 where
  pub agent : Agent
  pub expires_at : ℕ

abbrev pub Leases : Type 0
Leases = List (Text × Entry)

abbrev pub lease_cache_ttl : ℕ
lease_cache_ttl = 300 * 10 ^ 9

abbrev pub persistent_ttl : ℕ
persistent_ttl = 3600 * 10 ^ 9

unfoldable pub entry_of : Text → Leases → Option Entry
entry_of id [] = none
entry_of id ((k, e) ∷ m) = if text_eq k id then some e else entry_of id m

unfoldable pub store : Text → Entry → Leases → Leases
store id e [] = (id, e) ∷ []
store id e ((k, old) ∷ m) =
    let rest = store id e m in if text_eq k id then (k, e) ∷ m else (k, old) ∷ rest

unfoldable pub evict : Text → Leases → Leases
evict id [] = []
evict id ((k, e) ∷ m) = let rest = evict id m in if text_eq k id then rest else (k, e) ∷ rest

unfoldable pub remember_lease_with_ttl : ℕ → ℕ → Text → Agent → Leases → Leases
remember_lease_with_ttl ttl now id a m =
    if text_eq id [] then m else store id (record { agent = a; expires_at = now + ttl }) m

unfoldable pub remember_lease : ℕ → Text → Agent → Leases → Leases
remember_lease = remember_lease_with_ttl lease_cache_ttl

unfoldable pub remember_lease_persistent : ℕ → Text → Agent → Leases → Leases
remember_lease_persistent = remember_lease_with_ttl persistent_ttl

unfoldable pub forget_lease : Text → Leases → Leases
forget_lease id m = if text_eq id [] then m else evict id m

-- The answer of the database: `sql.ErrNoRows`, another error, or the row.
pub data DbLease : Type 0 where
  no_rows failed : DbLease
  row : Agent → DbLease

pub data Lookup : Type 0 where
  empty_id db_error not_found : Lookup
  found : Agent → Lookup

abbrev pub from_db : DbLease → Lookup
from_db no_rows = not_found
from_db failed = db_error
from_db (row a) = found a

abbrev pub from_entry : ℕ → Lookup → Option Entry → Lookup
from_entry now db none = db
from_entry now db (some e) = if ltb now e.expires_at then found e.agent else db

-- `query` is the database at the time of the call.
unfoldable pub lookup_lease : (Text → DbLease) → ℕ → Text → Leases → Lookup
lookup_lease query now id m =
    if text_eq id [] then empty_id else from_entry now (from_db (query id)) (entry_of id m)

-- The calls that write the cache.
pub data Call : Type 0 where
  remember : ℕ → Text → Agent → Call
  remember_long : ℕ → Text → Agent → Call
  forget : Text → Call

-- The latest call comes first.
pub run : List Call → Leases
run [] = []
run (remember now id a ∷ calls) = remember_lease now id a (run calls)
run (remember_long now id a ∷ calls) = remember_lease_persistent now id a (run calls)
run (forget id ∷ calls) = forget_lease id (run calls)

-- The abstract view: the last call that names the sandbox decides.
pub latest : Text → List Call → Option Entry
latest id [] = none
latest id (remember now k a ∷ calls) =
    let before = latest id calls in
    if text_eq k id then some (record { agent = a; expires_at = now + lease_cache_ttl }) else before
latest id (remember_long now k a ∷ calls) =
    let before = latest id calls in
    if text_eq k id then some (record { agent = a; expires_at = now + persistent_ttl }) else before
latest id (forget k ∷ calls) = let before = latest id calls in if text_eq k id then none else before

entry_of-store :
    (k id : Text) (e : Entry) (m : Leases)
    → entry_of id (store k e m) ≡ (if text_eq k id then some e else entry_of id m)
unfolding entry_of store
entry_of-store k id e [] = refl
entry_of-store k id e ((j, old) ∷ m) = ground (arith, entry_of-store k id e m)

entry_of-evict :
    (k id : Text) (m : Leases)
    → entry_of id (evict k m) ≡ (if text_eq k id then none else entry_of id m)
unfolding entry_of evict
entry_of-evict k id [] = ground arith
entry_of-evict k id ((j, old) ∷ m) = ground (arith, entry_of-evict k id m)

other_id : (k id : Text) → id ≢ [] → text_eq k [] ≡ true → text_eq k id ≡ false
other_id k id ne e = ground arith

entry_of-nil : (id : Text) → entry_of id [] ≡ none
unfolding entry_of
entry_of-nil id = refl

entry_of-remember :
    (ttl now : ℕ) (k id : Text) (a : Agent) (m : Leases)
    → id ≢ []
    → entry_of id (remember_lease_with_ttl ttl now k a m) ≡ (
        if text_eq k id then some (record { agent = a; expires_at = now + ttl }) else entry_of id m)
unfolding remember_lease_with_ttl
entry_of-remember ttl now k id a m ne = elim (Bool-cases (text_eq k [])) [
  | inl e ↦ rw (e, other_id k id ne e) refl
  | inr e ↦ rw e (entry_of-store k id (record { agent = a; expires_at = now + ttl }) m)
]

entry_of-forget :
    (k id : Text) (m : Leases)
    → id ≢ []
    → entry_of id (forget_lease k m) ≡ (if text_eq k id then none else entry_of id m)
unfolding forget_lease
entry_of-forget k id m ne = elim (Bool-cases (text_eq k [])) [
  | inl e ↦ rw (e, other_id k id ne e) refl
  | inr e ↦ rw e (entry_of-evict k id m)
]

-- After any calls, the cache holds for a sandbox what the last call about it left.
pub entry_of-run :
    (id : Text) (calls : List Call) → id ≢ [] → entry_of id (run calls) ≡ latest id calls
unfolding run latest remember_lease remember_lease_persistent
entry_of-run id [] ne = entry_of-nil id
entry_of-run id (remember now k a ∷ calls) ne =
    rw (entry_of-remember lease_cache_ttl now k id a (run calls) ne, entry_of-run id calls ne) refl
entry_of-run id (remember_long now k a ∷ calls) ne =
    rw (entry_of-remember persistent_ttl now k id a (run calls) ne, entry_of-run id calls ne) refl
entry_of-run id (forget k ∷ calls) ne =
    rw (entry_of-forget k id (run calls) ne, entry_of-run id calls ne) refl
