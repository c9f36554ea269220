-- ===== src/Host/Admission.antt =====
-- admission.go and the sums of manager.go under it: the memory gate of a host.
use pandastack_ai.Common.{
  ℕ, ◌+◌, ◌*◌, Bool, true, false, not, ◌||◌, Option, none, some, List, [], ◌∷◌, Text, text_eq,
  if◌then◌else◌, length,
}
use pandastack_ai.Common.Int.{ℤ, pos, pos_part, ltb_ℤ, ◌-ℤ◌}
use pandastack_ai.Scheduler.Data.{Floats, positive}

abbrev pub fallback_mem_mb : ℕ
fallback_mem_mb = 4096

-- A row of the store, as far as the sums read it.
pub record SandboxRow : Type 0 where
  pub id : Text
  pub memory_mb : ℤ

abbrev pub has : List Text → Text → Bool
has [] id = false
has (x ∷ xs) id = text_eq id x || has xs id

-- `if mem <= 0 { mem = fallbackSandboxMemMB }`
abbrev pub counted : ℤ → ℕ
counted m = if positive m then pos_part m else fallback_mem_mb

-- The loop over the rows; a row that is none is no map, and skipped.
abbrev pub sum_rows : List (Option SandboxRow) → List Text → ℕ
sum_rows [] live = 0
sum_rows (none ∷ rows) live = sum_rows rows live
sum_rows (some r ∷ rows) live =
    (if has live r.id then counted r.memory_mb else 0) + sum_rows rows live

abbrev pub row_of : List (Option SandboxRow) → Text → Bool
row_of [] id = false
row_of (none ∷ rows) id = row_of rows id
row_of (some r ∷ rows) id = text_eq r.id id || row_of rows id

-- `len(live) - len(seen)`: the ids of `live` that no row has.
abbrev pub missing : List (Option SandboxRow) → List Text → ℕ
missing rows [] = 0
missing rows (id ∷ live) = (if row_of rows id then 0 else 1) + missing rows live

unfoldable pub sum_live_mem : List (Option SandboxRow) → List Text → ℕ
sum_live_mem rows live = sum_rows rows live + missing rows live * fallback_mem_mb

-- The store answers, or not.
unfoldable pub registry_mem : Option (List (Option SandboxRow)) → List Text → ℕ
registry_mem none live = length live * fallback_mem_mb
registry_mem (some rows) live = sum_live_mem rows live

-- `budget` of `memoryBudgetMB`: `total` is `hostMemTotalMBCached`, the others are settings.
unfoldable pub memory_budget : (f : Floats) → ℤ → ℤ → f.Float → ℤ
memory_budget f total reserve factor =
    let budget = f.truncate (f.mul (f.of_int (total -ℤ reserve)) factor) in
    if not (positive total) then pos 0 else (if ltb_ℤ budget (pos 0) then pos 0 else budget)

-- `admitMemory`, without its message; `used` is the memory of `RegistrySnapshot`.
unfoldable pub admit_memory : ℤ → ℕ → ℤ → Bool
admit_memory budget used req =
    if not (positive budget) || not (positive req)
    then true
    else not (ltb_ℤ budget (pos (used + pos_part req)))
