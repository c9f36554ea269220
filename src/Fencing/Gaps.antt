-- ===== src/Fencing/Gaps.antt =====
-- db_fencing.go: what no gap means.
use pandastack_ai.Common.{
  ℕ, ◌+◌, ◌-◌, ◌^◌, ◌<◌, ◌≤◌, ◌≡◌, ◌↔◌, ◌∙◌, refl, sym, ap, subst, inl, inr, false, ◌==◌, List, [],
  ◌∷◌, All, In, Text, ltb, map, Bool-cases, arith, All-In,
}
use pandastack_ai.Common.Int.{pos, ◌+ℤ◌}
use pandastack_ai.Faults.{int64}
use pandastack_ai.Fencing.Wal.{
  seg_less, seg_number, gap, sum_gaps, gaps_of, Sort, newest, count_wal_gaps,
}

-- What `sort.Slice` promises: the same elements, and none below the one before it.
abbrev pub Ordered : List (ℕ × ℕ) → Type 0
Ordered [] = Unit
Ordered (x ∷ []) = Unit
Ordered (x ∷ y ∷ ys) = (seg_less y x ≡ false) × Ordered (y ∷ ys)

pub record SortLaws (sort : Sort) : Type 0 where
  pub ordered : (xs : List (ℕ × ℕ)) → Ordered (sort seg_less xs)
  pub kept : (x : ℕ × ℕ) (xs : List (ℕ × ℕ)) → In x xs → In x (sort seg_less xs)
  pub no_other : (x : ℕ × ℕ) (xs : List (ℕ × ℕ)) → In x (sort seg_less xs) → In x xs

-- Every number between two that are there is there.
abbrev pub Gapless : List ℕ → Type 0
Gapless ns = (a b x : ℕ) → In a ns → In b ns → a ≤ x → x ≤ b → In x ns

abbrev Rises : ℕ → List ℕ → Type 0
Rises p [] = Unit
Rises p (c ∷ cs) = (p ≤ c) × Rises c cs

Rises-In : (p x : ℕ) (cs : List ℕ) → Rises p cs → In x (p ∷ cs) → p ≤ x
Rises-In p x cs h (inl e) = omega (arith, e)
Rises-In p x [] h (inr m) = elim m [ ]
Rises-In p x (c ∷ cs) h (inr m) = omega (arith, h.0, Rises-In c x cs h.1 m)

-- A gap between rising numbers below 2^63 does not wrap around.
gap_lem : (p c : ℕ) → p ≤ c → c < 2 ^ 63 → gap p c ≡ pos (c - p - 1)
unfolding int64
gap_lem p c h b = ground arith

add_pos : (a b : ℕ) → pos a +ℤ pos b ≡ pos (a + b)
unfolding ◌+ℤ◌
add_pos a b = ground arith

-- The gaps of rising numbers.
abbrev missing_sum : ℕ → List ℕ → ℕ
missing_sum p [] = 0
missing_sum p (c ∷ cs) = (c - p - 1) + missing_sum c cs

sum_gaps_lem :
    (p : ℕ) (cs : List ℕ)
    → Rises p cs
    → All (λ c. c < 2 ^ 63) cs
    → sum_gaps p cs ≡ pos (missing_sum p cs)
sum_gaps_lem p [] h b = refl
sum_gaps_lem p (c ∷ cs) h b =
    ap (λ z. z +ℤ sum_gaps c cs) (gap_lem p c h.0 b.0)
    ∙ ap (λ z. pos (c - p - 1) +ℤ z) (sum_gaps_lem c cs h.1 b.1)
    ∙ add_pos (c - p - 1) (missing_sum c cs)

no_missing-In :
    (p : ℕ) (cs : List ℕ) (b x : ℕ)
    → Rises p cs
    → missing_sum p cs ≡ 0
    → In b (p ∷ cs)
    → p ≤ x
    → x ≤ b
    → In x (p ∷ cs)
no_missing-In p cs b x h z (inl e) l u = inl (omega (arith, e, l, u))
no_missing-In p [] b x h z (inr m) l u = elim m [ ]
no_missing-In p (c ∷ cs) b x h z (inr m) l u = elim (Bool-cases (x == p)) [
  | inl same ↦ inl (ground (arith, same))
  | inr other ↦
      inr (no_missing-In c cs b x h.1 (omega (arith, z)) m (ground (arith, z, l, other, h.0)) u)
]

In-no_missing : (p : ℕ) (cs : List ℕ) → Rises p cs → Gapless (p ∷ cs) → missing_sum p cs ≡ 0
In-no_missing p [] h g = refl
In-no_missing p (c ∷ cs) h g =
    let later =
      In-no_missing c cs h.1 (λ a b x m n l u. tail a x m l (g a b x (inr m) (inr n) l u)) in
    elim (Bool-cases (ltb (p + 1) c)) [
      | inr near ↦ ground (arith, later, near)
      | inl far ↦
          let between =
            g p c (p + 1) (inl refl) (inr (inl refl)) (omega arith) (ground (arith, far)) in
          absurd (out between (ground (arith, far)))
    ]
  where
    tail : (a x : ℕ) → In a (c ∷ cs) → a ≤ x → In x (p ∷ c ∷ cs) → In x (c ∷ cs)
    tail a x m l (inr n) = n
    tail a x m l (inl e) = inl (omega (arith, e, l, h.0, Rises-In c a cs h.1 m))

    out : In (p + 1) (p ∷ c ∷ cs) → p + 1 < c → ⊥
    out (inl e) far = omega (arith, e)
    out (inr n) far = omega (arith, far, Rises-In c (p + 1) cs h.1 n)

-- The number of an ordinary segment: fewer than 256 to a log, and logs of 32 bits.
abbrev pub Ordinary : ℕ × ℕ → Type 0
Ordinary x = (x.0 < 2 ^ 32) × (x.1 < 256)

In-map : (x : ℕ × ℕ) (xs : List (ℕ × ℕ)) → In x xs → In (seg_number x) (map seg_number xs)
In-map x [] m = elim m [ ]
In-map x (y ∷ ys) (inl e) = inl (ap seg_number e)
In-map x (y ∷ ys) (inr m) = inr (In-map x ys m)

map-In :
    (n : ℕ) (xs : List (ℕ × ℕ))
    → In n (map seg_number xs)
    → (x : ℕ × ℕ) × In x xs × (n ≡ seg_number x)
map-In n [] m = elim m [ ]
map-In n (y ∷ ys) (inl e) = (y, inl refl, e)
map-In n (y ∷ ys) (inr m) = let (x, at, e) = map-In n ys m in (x, inr at, e)

Ordered-Rises :
    (x : ℕ × ℕ) (xs : List (ℕ × ℕ))
    → All Ordinary (x ∷ xs)
    → Ordered (x ∷ xs)
    → Rises (seg_number x) (map seg_number xs)
Ordered-Rises x [] o h = tt
Ordered-Rises (l, s) ((l', s') ∷ ys) o h =
    (ground (arith, h.0, o.0, o.1.0), Ordered-Rises (l', s') ys o.1 h.1)

small_numbers : (xs : List (ℕ × ℕ)) → All Ordinary xs → All (λ c. c < 2 ^ 63) (map seg_number xs)
small_numbers [] o = tt
small_numbers (x ∷ xs) o = (omega (arith, o.0.0, o.0.1), small_numbers xs o.1)

All-of_In : {P : ℕ × ℕ → Type 0} (xs : List (ℕ × ℕ)) → ((x : ℕ × ℕ) → In x xs → P x) → All P xs
All-of_In [] h = tt
All-of_In (x ∷ xs) h = (h x (inl refl), All-of_In xs (λ y m. h y (inr m)))

gaps_of_lem :
    (xs : List (ℕ × ℕ))
    → All Ordinary xs
    → Ordered xs
    → (gaps_of (map seg_number xs) ≡ pos 0) ↔ Gapless (map seg_number xs)
gaps_of_lem [] o h = (λ _. (λ a b x m. elim m [ ]), λ _. refl)
gaps_of_lem (y ∷ ys) o h =
    let rises = Ordered-Rises y ys o h in
    let sum = sum_gaps_lem (seg_number y) (map seg_number ys) rises (small_numbers ys o.1) in
    (
      λ e a b x m n l u.
          no_missing-In (seg_number y) (map seg_number ys) b x rises (ground (arith, sum, e)) n
            (omega (arith, l, Rises-In (seg_number y) a (map seg_number ys) rises m)) u,
      λ g. sum ∙ ap pos (In-no_missing (seg_number y) (map seg_number ys) rises g),
    )

-- Where the segments of the newest timeline are ordinary, `countWALGaps` counts no gap exactly where
-- every segment between two archived ones is archived too, in whatever order they are listed and
-- however often.
pub count_wal_gaps-Gapless :
    (trim : Text → Text) (sort : Sort) (names : List Text)
    → SortLaws sort
    → All Ordinary (newest trim names)
    → ((count_wal_gaps trim sort names).0 ≡ pos 0) ↔ Gapless (map seg_number (newest trim names))
unfolding count_wal_gaps
count_wal_gaps-Gapless trim sort names laws o =
    let segs = sort seg_less (newest trim names) in
    let ordinary : All Ordinary segs =
      All-of_In segs (λ x m. All-In Ordinary (newest trim names) x o (laws.no_other x _ m)) in
    let (to, from) = gaps_of_lem segs ordinary (laws.ordered (newest trim names)) in
    (
      λ e a b x m n l u. back x (to e a b x (there a m) (there b n) l u),
      λ g. from (λ a b x m n l u. there x (g a b x (back a m) (back b n) l u)),
    )
  where
    there :
        (n : ℕ)
        → In n (map seg_number (newest trim names))
        → In n (map seg_number (sort seg_less (newest trim names)))
    there n m =
        let (x, at, e) = map-In n (newest trim names) m in
        subst (λ i. In i (map seg_number (sort seg_less (newest trim names)))) (sym e)
          (In-map x _ (laws.kept x _ at))

    back :
        (n : ℕ)
        → In n (map seg_number (sort seg_less (newest trim names)))
        → In n (map seg_number (newest trim names))
    back n m =
        let (x, at, e) = map-In n (sort seg_less (newest trim names)) m in
        subst (λ i. In i (map seg_number (newest trim names))) (sym e)
          (In-map x _ (laws.no_other x _ at))
