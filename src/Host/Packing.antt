-- ===== src/Host/Packing.antt =====
-- What the gate of admission.go promises: the memory it counts, and the sum it keeps.
use pandastack_ai.Common.{
  ℕ, ◌+◌, ◌*◌, ◌≤◌, ◌≡◌, refl, subst, inl, inr, true, false, Option, none, some, List, [], ◌∷◌,
  Text, text_eq, text_eq→≡, text_eq_refl, Bool-cases, if◌then◌else◌, arith,
}
use pandastack_ai.Common.Int.{ℤ, pos_part, ◌-ℤ◌}
use pandastack_ai.Scheduler.Data.{Floats, positive}
use pandastack_ai.Host.Admission.{
  SandboxRow, fallback_mem_mb, has, counted, sum_rows, row_of, missing, sum_live_mem, admit_memory,
  memory_budget,
}

text_eq_no : (a b : Text) → text_eq a b ≡ false → text_eq b a ≡ false
text_eq_no a b h = elim (Bool-cases (text_eq b a)) [
  | inr other ↦ other
  | inl same ↦
      let at : text_eq a b ≡ true =
        subst (λ x. text_eq x b ≡ true) (text_eq→≡ b a same) (text_eq_refl b) in
      absurd (ground (arith, at, h))
]

-- The memory of the first row of a sandbox, the fallback where it has none.
abbrev pub need : List (Option SandboxRow) → Text → ℕ
need [] id = fallback_mem_mb
need (none ∷ rows) id = need rows id
need (some r ∷ rows) id = if text_eq r.id id then counted r.memory_mb else need rows id

abbrev pub total_need : List (Option SandboxRow) → List Text → ℕ
total_need rows [] = 0
total_need rows (id ∷ live) = need rows id + total_need rows live

abbrev pub Distinct : List Text → Type 0
Distinct [] = Unit
Distinct (id ∷ live) = (has live id ≡ false) × Distinct live

-- The rows of one sandbox.
abbrev own_rows : List (Option SandboxRow) → Text → ℕ
own_rows [] id = 0
own_rows (none ∷ rows) id = own_rows rows id
own_rows (some r ∷ rows) id =
    (if text_eq r.id id then counted r.memory_mb else 0) + own_rows rows id

sum_rows-empty : (rows : List (Option SandboxRow)) → sum_rows rows [] ≡ 0
sum_rows-empty [] = refl
sum_rows-empty (none ∷ rows) = sum_rows-empty rows
sum_rows-empty (some r ∷ rows) = omega (arith, sum_rows-empty rows)

-- A host: the rows of the store and the sandboxes that run.
pub record Packed : Type 0 where
  pub rows : List (Option SandboxRow)
  pub live : List Text

abbrev pub remove : List Text → Text → List Text
remove [] id = []
remove (x ∷ xs) id = let rest = remove xs id in if text_eq id x then rest else x ∷ rest

abbrev pub packed_mem : Packed → ℕ
packed_mem s = sum_live_mem s.rows s.live

-- The creates without a size, which the gate admits unasked.
abbrev pub unsized : ℤ → ℕ
unsized m = if positive m then 0 else 1

-- A create that the gate admits runs, with its row, before the next one is asked for. The number is
-- that of the creates without a size.
pub data PackStep (budget : ℤ) : ℕ → Packed → Packed → Type 0 where
  creates :
      (s : Packed) (r : SandboxRow)
      → has s.live r.id ≡ false
      → row_of s.rows r.id ≡ false
      → admit_memory budget (packed_mem s) r.memory_mb ≡ true
      → PackStep budget
          (unsized r.memory_mb)
          s
          (record { rows = some r ∷ s.rows; live = r.id ∷ s.live })
  destroys :
      (s : Packed) (id : Text)
      → PackStep budget 0 s (record { rows = s.rows; live = remove s.live id })

pub data PackReach (budget : ℤ) : ℕ → Packed → Packed → Type 0 where
  here : (s : Packed) → PackReach budget 0 s s
  there :
      {n k : ℕ} {s t u : Packed}
      → PackReach budget n s t
      → PackStep budget k t u
      → PackReach budget (n + k) s u

has-remove : (live : List Text) (id x : Text) → has live x ≡ false → has (remove live id) x ≡ false
has-remove [] id x h = refl
has-remove (y ∷ live) id x h = ground (arith, has-remove live id x)

sum_rows-remove :
    (rows : List (Option SandboxRow)) (live : List Text) (id : Text)
    → sum_rows rows (remove live id) ≤ sum_rows rows live
sum_rows-remove [] live id = omega arith
sum_rows-remove (none ∷ rows) live id = sum_rows-remove rows live id
sum_rows-remove (some r ∷ rows) live id =
    ground (arith, sum_rows-remove rows live id, has-remove live id r.id)

missing-remove :
    (rows : List (Option SandboxRow)) (live : List Text) (id : Text)
    → missing rows (remove live id) ≤ missing rows live
missing-remove rows [] id = omega arith
missing-remove rows (x ∷ live) id = ground (arith, missing-remove rows live id)

sum_rows_absent :
    (rows : List (Option SandboxRow)) (live : List Text) (id : Text)
    → row_of rows id ≡ false
    → sum_rows rows (id ∷ live) ≡ sum_rows rows live
sum_rows_absent [] live id h = refl
sum_rows_absent (none ∷ rows) live id h = sum_rows_absent rows live id h
sum_rows_absent (some r ∷ rows) live id h = ground (arith, sum_rows_absent rows live id)

missing_fresh :
    (rows : List (Option SandboxRow)) (live : List Text) (r : SandboxRow)
    → has live r.id ≡ false
    → missing (some r ∷ rows) live ≡ missing rows live
missing_fresh rows [] r h = refl
missing_fresh rows (x ∷ live) r h = ground (arith, missing_fresh rows live r)

admit_memory_lem :
    (budget req : ℤ) (used : ℕ)
    → positive budget ≡ true
    → positive req ≡ true
    → admit_memory budget used req ≡ true
    → used + pos_part req ≤ pos_part budget
unfolding admit_memory
admit_memory_lem budget req used b r h = ground arith

create-packed_mem :
    (s : Packed) (r : SandboxRow)
    → has s.live r.id ≡ false
    → row_of s.rows r.id ≡ false
    → packed_mem (record { rows = some r ∷ s.rows; live = r.id ∷ s.live })
      ≡ packed_mem s + counted r.memory_mb
unfolding sum_live_mem
create-packed_mem s r fresh new =
    let sum = sum_rows_absent s.rows s.live r.id new in
    let miss = missing_fresh s.rows s.live r fresh in ground (arith, sum, miss, text_eq_refl r.id)

destroy-packed_mem :
    (s : Packed) (id : Text)
    → packed_mem (record { rows = s.rows; live = remove s.live id }) ≤ packed_mem s
unfolding sum_live_mem
destroy-packed_mem s id =
    omega (arith, sum_rows-remove s.rows s.live id, missing-remove s.rows s.live id)

-- From a host whose count is within the budget, where the gate is on and the store answers, any
-- sequence of creates that it admits, each under a new id and registered before the next is asked
-- for, and of destroys keeps the memory that the host counts within the budget, but for 4096 MB for
-- each create without a size, which the gate admits unasked.
pub PackReach-packed_mem :
    (budget : ℤ) {n : ℕ} {s t : Packed}
    → positive budget ≡ true
    → packed_mem s ≤ pos_part budget
    → PackReach budget n s t
    → packed_mem t ≤ pos_part budget + n * fallback_mem_mb
PackReach-packed_mem budget on h (here s) = omega (arith, h)
PackReach-packed_mem budget on h (there {n} q (creates s x fresh new admitted)) =
    let grown = create-packed_mem s x fresh new in
    let before = PackReach-packed_mem budget on h q in
    elim (Bool-cases (positive x.memory_mb)) [
      | inl sized ↦
          let fits = admit_memory_lem budget x.memory_mb (packed_mem s) on sized admitted in
          let size : counted x.memory_mb ≡ pos_part x.memory_mb = ground (arith, sized) in
          let none_more : unsized x.memory_mb ≡ 0 = ground (arith, sized) in
          rw none_more (omega (arith, grown, fits, size))
      | inr none_given ↦
          let size : counted x.memory_mb ≡ fallback_mem_mb = ground (arith, none_given) in
          let one_more : unsized x.memory_mb ≡ 1 = ground (arith, none_given) in
          rw one_more (omega (arith, grown, before, size))
    ]
PackReach-packed_mem budget on h (there q (destroys s id)) =
    omega (arith, destroy-packed_mem s id, PackReach-packed_mem budget on h q)

-- A host whose memory is no more than the reserve gets the budget 0, and the gate is then off: every
-- request is admitted, where a factor maps a negative number to one that is not positive.
pub admit-memory_budget :
    (f : Floats) (total reserve req : ℤ) (factor : f.Float) (used : ℕ)
    → (positive (f.truncate (f.mul (f.of_int (total -ℤ reserve)) factor)) ≡ false)
    → admit_memory (memory_budget f total reserve factor) used req ≡ true
unfolding memory_budget admit_memory
admit-memory_budget f total reserve req factor used h = ground arith
