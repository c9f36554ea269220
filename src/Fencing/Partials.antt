-- ===== src/Fencing/Partials.antt =====
-- db_fencing.go: `selectPartialsToDelete`, the partial uploads that others have superseded. ParseInt
-- and the sort of the result are parameters.
use pandastack_ai.Common.{
  ℕ, zero, suc, ◌+◌, Bool, true, false, not, ◌&&◌, ◌||◌, ◌==◌, Option, none, some, List, [], ◌∷◌,
  ◌++◌, Text, text_eq, codes, take, drop, length, map, if◌then◌else◌,
}
use pandastack_ai.Common.Int.{ℤ, pos, ltb_ℤ}
use pandastack_ai.Scheduler.Data.{positive}
use pandastack_ai.Host.Growth.{has_prefix}
use pandastack_ai.Host.Admission.{has}

-- `strings.Index`
abbrev pub index_of : Text → Text → Option ℕ
index_of p [] = none
index_of p (c ∷ cs) =
    let rest = index_of p cs in
    if has_prefix (c ∷ cs) p then some 0 else elim rest [ none ↦ none | some i ↦ some (suc i) ]

pub record Partial : Type 0 where
  pub name : Text
  pub seg : Text
  pub off : ℤ
  pub gen : ℤ

-- `strconv.ParseInt`: a value also where there is an error.
abbrev pub ParseInt : Type 0
ParseInt = Text → ℤ × Bool

abbrev pub no_error : ℤ × Bool → Option ℤ
no_error (n, failed) = if failed then none else some n

-- The offset and the generation: `-g` and what follows it may be missing.
abbrev pub offset_and_gen : ParseInt → Text → Option ℕ → Option ℤ × ℤ
offset_and_gen parse_int rest none = (no_error (parse_int rest), pos 0)
offset_and_gen parse_int rest (some j) =
    (no_error (parse_int (take j rest)), (parse_int (drop (j + 2) rest)).0)

abbrev pub valid : Text → Text → Option ℤ × ℤ → Option Partial
valid n seg (none, gen) = none
valid n seg (some off, gen) =
    if positive off then some (record { name = n; seg = seg; off = off; gen = gen }) else none

-- A name is a partial, a partial that is skipped, or no partial.
pub data Kind : Type 0 where
  partial : Option Partial → Kind
  other : Kind

abbrev pub kind_at : ParseInt → Text → Option ℕ → Kind
kind_at parse_int n none = other
kind_at parse_int n (some zero) = other
kind_at parse_int n (some (suc i)) =
    let rest = drop (suc i + 9) n in
    partial (valid n (take (suc i) n) (offset_and_gen parse_int rest (index_of (codes "-g") rest)))

abbrev pub partials_from : Kind → List Partial → List Partial
partials_from (partial (some p)) rest = p ∷ rest
partials_from (partial none) rest = rest
partials_from other rest = rest

unfoldable pub partials_of : ParseInt → List Text → List Partial
partials_of parse_int [] = []
partials_of parse_int (n ∷ ns) =
    partials_from (kind_at parse_int n (index_of (codes ".partial-") n)) (partials_of parse_int ns)

abbrev pub full_from : Kind → Text → List Text → List Text
full_from (partial p) n rest = rest
full_from other n rest = if length n == 24 then n ∷ rest else rest

unfoldable pub full_of : ParseInt → List Text → List Text
full_of parse_int [] = []
full_of parse_int (n ∷ ns) =
    full_from (kind_at parse_int n (index_of (codes ".partial-") n)) n (full_of parse_int ns)

-- `ps[i]` takes the place of the best one so far.
abbrev pub better : Partial → Partial → Bool
better p b =
    ltb_ℤ b.gen p.gen || (not (ltb_ℤ p.gen b.gen || ltb_ℤ b.gen p.gen) && ltb_ℤ b.off p.off)

abbrev pub best_of : Partial → List Partial → Partial
best_of b [] = b
best_of b (p ∷ ps) =
    let taken = best_of p ps in let left = best_of b ps in if better p b then taken else left

-- The names of all but the best one.
abbrev pub losers : Partial → List Partial → List Text
losers b [] = []
losers b (p ∷ ps) =
    let taken = losers p ps in
    let left = losers b ps in if better p b then b.name ∷ taken else p.name ∷ left

abbrev pub group : Text → List Partial → List Partial
group s [] = []
group s (p ∷ ps) = let rest = group s ps in if text_eq p.seg s then p ∷ rest else rest

abbrev pub delete_group : Bool → List Partial → List Text
delete_group full [] = []
delete_group true (p ∷ ps) = map (λ q. q.name) (p ∷ ps)
delete_group false (p ∷ ps) = losers p ps

abbrev pub distinct_segs : List Partial → List Text
distinct_segs [] = []
distinct_segs (p ∷ ps) =
    let rest = distinct_segs ps in if has rest p.seg then rest else p.seg ∷ rest

abbrev pub delete_groups : List Text → List Partial → List Text → List Text
delete_groups full ps [] = []
delete_groups full ps (s ∷ ss) = delete_group (has full s) (group s ps) ++ delete_groups full ps ss

unfoldable pub select_partials_to_delete :
    ParseInt → (List Text → List Text) → List Text → List Text
select_partials_to_delete parse_int sort names =
    let ps = partials_of parse_int names in
    sort (delete_groups (full_of parse_int names) ps (distinct_segs ps))
