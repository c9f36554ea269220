-- ===== src/Fencing/Examples.antt =====
-- Runs of db_fencing.go, where the hypotheses of its theorems hold.
use pandastack_ai.Common.{
  Text-discrete, ◌≢◌, ◌-◌, ℕ, ◌+◌, ◌≡◌, ◌↔◌, ◌⊎◌, if_elim, refl, sym, subst, inl, inr, true, false,
  none, List, [], ◌∷◌, All, In, Text, codes, ltb, leb, map, if◌then◌else◌, Bool-cases, arith,
}
use pandastack_ai.Common.Int.{pos}
use pandastack_ai.Fencing.Generations.{
  Call, bumps, seeds, answered, lost, given_out, Rising, given_out-Rising,
}
use pandastack_ai.Fencing.Leases.{
  acquire_archive_lease, archive_lease_active, acts, expires, archive_lease_active_lem,
}
use pandastack_ai.Fencing.Breaker.{new_loop_breaker, allow, reports, streak, went_wrong, allow_lem}
use pandastack_ai.Fencing.Wal.{Sort, seg_less, seg_number, newest, parse_segments, count_wal_gaps}
use pandastack_ai.Host.Admission.{has}
use pandastack_ai.Fencing.Partials.{
  Partial, ParseInt, partials_of, full_of, better, select_partials_to_delete,
}
use pandastack_ai.Fencing.Survivors.{Named, select-survivor}
use pandastack_ai.Fencing.Gaps.{SortLaws, Gapless, Ordered, Ordinary, count_wal_gaps-Gapless}

abbrev db : Text
db = codes "db"

-- Two owners; the first one's answer is lost, and it tries again.
abbrev two_owners : List Call
two_owners =
    seeds answered db
    ∷ bumps (λ n. false) (λ n. if leb 1 n then answered else lost) db (codes "one")
    ∷ bumps (λ n. false) (λ n. answered) db (codes "two")
    ∷ []

given_out-Rising_example : Rising 0 (given_out db two_owners (λ id. none))
given_out-Rising_example = given_out-Rising db two_owners (λ id. none)

archive_lease_active_lem_example :
    archive_lease_active true false 50 db (
      acts
        ((40, expires false) ∷ [])
        (acquire_archive_lease true false 10 db (codes "one") (codes "failover") 2700 []).1)
    ≡ true
archive_lease_active_lem_example =
    archive_lease_active_lem db (codes "one") (codes "failover") 10 2700 50
      ((40, expires false) ∷ []) false [] (omega arith) (omega arith, tt)

allow_lem_example :
    allow 100 (reports (went_wrong 3 ∷ went_wrong 9 ∷ []) (new_loop_breaker 2 50)) ≡ (
      let (n, t) = streak (went_wrong 3 ∷ went_wrong 9 ∷ []) (0, 0) in
      if leb 2 n then ltb (t + 50) 100 else true)
allow_lem_example = allow_lem 2 50 100 (went_wrong 3 ∷ went_wrong 9 ∷ []) (omega arith)

-- Insertion sort keeps the law of `sort.Slice`.
abbrev put_in : ℕ × ℕ → List (ℕ × ℕ) → List (ℕ × ℕ)
put_in x [] = x ∷ []
put_in x (y ∷ ys) = let rest = put_in x ys in if seg_less y x then y ∷ rest else x ∷ y ∷ ys

abbrev insertion : List (ℕ × ℕ) → List (ℕ × ℕ)
insertion [] = []
insertion (x ∷ xs) = put_in x (insertion xs)

put_in-here : (x : ℕ × ℕ) (ys : List (ℕ × ℕ)) → In x (put_in x ys)
put_in-here x [] = inl refl
put_in-here x (y ∷ ys) = elim (Bool-cases (seg_less y x)) [
  | inl e ↦ rw e (inr (put_in-here x ys))
  | inr e ↦ rw e (inl refl)
]

put_in-kept : (a x : ℕ × ℕ) (ys : List (ℕ × ℕ)) → In a ys → In a (put_in x ys)
put_in-kept a x [] m = elim m [ ]
put_in-kept a x (y ∷ ys) (inl e) = if_elim (In a) (seg_less y x) _ _ (λ _. inl e) (λ _. inr (inl e))
put_in-kept a x (y ∷ ys) (inr m) =
    if_elim (In a) (seg_less y x) _ _ (λ _. inr (put_in-kept a x ys m)) (λ _. inr (inr m))

put_in-only : (a x : ℕ × ℕ) (ys : List (ℕ × ℕ)) → In a (put_in x ys) → (a ≡ x) ⊎ In a ys
put_in-only a x [] m = m
put_in-only a x (y ∷ ys) m =
    if_elim (λ l. In a l → (a ≡ x) ⊎ In a (y ∷ ys)) (seg_less y x) (y ∷ put_in x ys) (x ∷ y ∷ ys)
      (λ _ n. elim n [
        | inl e ↦ inr (inl e)
        | inr k ↦ elim (put_in-only a x ys k) [ inl e ↦ inl e | inr l ↦ inr (inr l) ]
      ])
      (λ _ n. n) m

asymmetric : (x y : ℕ × ℕ) → seg_less y x ≡ true → seg_less x y ≡ false
asymmetric (a, b) (c, d) h = ground arith

put_in-Ordered : (x : ℕ × ℕ) (ys : List (ℕ × ℕ)) → Ordered ys → Ordered (put_in x ys)
put_in-Ordered x [] h = tt
put_in-Ordered x (y ∷ []) h =
    if_elim Ordered (seg_less y x) _ _ (λ e. (asymmetric x y e, tt)) (λ e. (e, tt))
put_in-Ordered x (y ∷ z ∷ zs) h =
    let rest = put_in-Ordered x (z ∷ zs) h.1 in
    if_elim Ordered (seg_less y x) _ _
      (λ e.
        if_elim (λ l. Ordered l → Ordered (y ∷ l)) (seg_less z x) (z ∷ put_in x zs) (x ∷ z ∷ zs)
          (λ _ r. (h.0, r)) (λ _ r. (asymmetric x y e, r)) rest)
      (λ e. (e, h))

insertion-Ordered : (xs : List (ℕ × ℕ)) → Ordered (insertion xs)
insertion-Ordered [] = tt
insertion-Ordered (x ∷ xs) = put_in-Ordered x (insertion xs) (insertion-Ordered xs)

insertion-kept : (a : ℕ × ℕ) (xs : List (ℕ × ℕ)) → In a xs → In a (insertion xs)
insertion-kept a [] m = m
insertion-kept a (x ∷ xs) (inl e) =
    subst (λ i. In i (put_in x (insertion xs))) (sym e) (put_in-here x (insertion xs))
insertion-kept a (x ∷ xs) (inr m) = put_in-kept a x (insertion xs) (insertion-kept a xs m)

insertion-only : (a : ℕ × ℕ) (xs : List (ℕ × ℕ)) → In a (insertion xs) → In a xs
insertion-only a [] m = m
insertion-only a (x ∷ xs) m = elim (put_in-only a x (insertion xs) m) [
  | inl e ↦ inl e
  | inr k ↦ inr (insertion-only a xs k)
]

abbrev sorting : Sort
sorting less xs = insertion xs

sorting-SortLaws : SortLaws sorting
sorting-SortLaws = record {
  ordered = insertion-Ordered;
  kept = insertion-kept;
  no_other = insertion-only;
}

-- The second of three segments is not archived.
abbrev archived : List Text
archived = codes "000000010000000000000001" ∷ codes "000000010000000000000003" ∷ codes "junk" ∷ []

two_segments : newest (λ t. t) archived ≡ (0, 1) ∷ (0, 3) ∷ []
unfolding newest parse_segments
two_segments = refl

count_wal_gaps-Gapless_example :
    ((count_wal_gaps (λ t. t) sorting archived).0 ≡ pos 0)
    ↔ Gapless (map seg_number (newest (λ t. t) archived))
count_wal_gaps-Gapless_example =
    count_wal_gaps-Gapless (λ t. t) sorting archived sorting-SortLaws
      (subst (All Ordinary) (sym two_segments)
        ((omega arith, omega arith), ((omega arith, omega arith), tt)))

-- Two partial uploads of one segment, of 4 and of 9 bytes.
abbrev single_digit : ParseInt
single_digit [] = (pos 0, true)
single_digit (c ∷ []) = (pos (c - 48), false)
single_digit (c ∷ d ∷ cs) = (pos 0, true)

abbrev uploads : List Text
uploads = codes "a.partial-4" ∷ codes "a.partial-9" ∷ []

abbrev upload : Text → ℕ → Partial
upload name off = record { name = name; seg = codes "a"; off = pos off; gen = pos 0 }

abbrev two : List Partial
two = upload (codes "a.partial-4") 4 ∷ upload (codes "a.partial-9") 9 ∷ []

uploads_two : partials_of single_digit uploads ≡ two
unfolding partials_of Text-discrete
uploads_two = refl

names_apart : codes "a.partial-9" ≢ codes "a.partial-4"
names_apart e = absurd (ground (arith, e))

two-Named : Named two
two-Named = ((names_apart, tt), (tt, tt))

no_full : has (full_of single_digit uploads) (codes "a") ≡ false
unfolding full_of Text-discrete
no_full = refl

select-survivor_example :
    (q : Partial) × In q (partials_of single_digit uploads)
    × (q.seg ≡ codes "a")
    × (better (upload (codes "a.partial-4") 4) q ≡ false)
    × (In q.name (select_partials_to_delete single_digit (λ ns. ns) uploads) → ⊥)
select-survivor_example =
    select-survivor single_digit (λ ns. ns) uploads (upload (codes "a.partial-4") 4) (λ n ns m. m)
      (subst Named (sym uploads_two) two-Named)
      (subst (In (upload (codes "a.partial-4") 4)) (sym uploads_two) (inl refl)) no_full
