-- ===== src/Fencing/Survivors.antt =====
-- db_fencing.go: the partial upload that is kept.
use pandastack_ai.Common.{
  ◌≡◌, ◌≢◌, ◌⊎◌, refl, sym, ap, subst, ◌∙◌, inl, inr, Bool, true, false, List, [], ◌∷◌, ◌++◌, All,
  All-In, In, Text, text_eq, text_eq→≡, text_eq_refl, map, if◌then◌else◌, if_elim, arith,
}
use pandastack_ai.Host.Admission.{has}
use pandastack_ai.Fencing.Partials.{
  Partial, ParseInt, partials_of, full_of, better, best_of, losers, group, delete_group,
  distinct_segs, delete_groups, select_partials_to_delete,
}

-- No two partials have one name.
abbrev pub Named : List Partial → Type 0
Named [] = Unit
Named (p ∷ ps) = All (λ q. q.name ≢ p.name) ps × Named ps

best-In : (b : Partial) (ps : List Partial) → In (best_of b ps) (b ∷ ps)
best-In b [] = inl refl
best-In b (p ∷ ps) =
    if_elim (λ q. In q (b ∷ p ∷ ps)) (better p b) _ _ (λ _. inr (best-In p ps))
      (λ _. elim (best-In b ps) [ inl e ↦ inl e | inr m ↦ inr (inr m) ])

not_better : (p q r : Partial) → better p q ≡ false → better q r ≡ false → better p r ≡ false
not_better p q r h k = ground arith

over : (p q r : Partial) → better q p ≡ true → better q r ≡ false → better p r ≡ false
over p q r h k = ground arith

self : (p : Partial) → better p p ≡ false
self p = ground arith

best-top : (b : Partial) (ps : List Partial) → All (λ q. better q (best_of b ps) ≡ false) (b ∷ ps)
best-top b [] = (self b, tt)
best-top b (p ∷ ps) =
    let taken = best-top p ps in
    let left = best-top b ps in
    if_elim (λ t. All (λ q. better q t ≡ false) (b ∷ p ∷ ps)) (better p b) (best_of p ps)
      (best_of b ps) (λ e. (over b p (best_of p ps) e taken.0, taken))
      (λ e. (left.0, (not_better p b (best_of b ps) e left.0, left.1)))

losers-only :
    (n : Text) (b : Partial) (ps : List Partial)
    → In n (losers b ps)
    → In n (map (λ q. q.name) (b ∷ ps))
losers-only n b [] m = elim m [ ]
losers-only n b (p ∷ ps) m =
    if_elim (λ l. In n l → In n (map (λ q. q.name) (b ∷ p ∷ ps))) (better p b)
      (b.name ∷ losers p ps) (p.name ∷ losers b ps)
      (λ _ k. elim k [ inl e ↦ inl e | inr j ↦ inr (losers-only n p ps j) ])
      (λ _ k. elim k [
        | inl e ↦ inr (inl e)
        | inr j ↦ elim (losers-only n b ps j) [ inl e ↦ inl e | inr i ↦ inr (inr i) ]
      ])
      m

named-apart :
    (b : Partial) (ps : List Partial) (q : Partial)
    → All (λ r. r.name ≢ b.name) ps
    → In q ps
    → q.name ≢ b.name
named-apart b ps q h m = All-In (λ r. r.name ≢ b.name) ps q h m

kept_step :
    (c : Bool) (b p : Partial) (ps : List Partial)
    → Named (b ∷ p ∷ ps)
    → (In (best_of p ps).name (losers p ps) → ⊥)
    → (In (best_of b ps).name (losers b ps) → ⊥)
    → In
        (if c then best_of p ps else best_of b ps).name
        (if c then b.name ∷ losers p ps else p.name ∷ losers b ps)
    → ⊥
kept_step true b p ps d taken left (inl e) =
    named-apart b (p ∷ ps) (best_of p ps) d.0 (best-In p ps) e
kept_step true b p ps d taken left (inr m) = taken m
kept_step false b p ps d taken left (inr m) = left m
kept_step false b p ps d taken left (inl e) = elim (best-In b ps) [
  | inl is ↦ d.0.0 (sym e ∙ ap (λ q. q.name) is)
  | inr m ↦ named-apart p ps (best_of b ps) d.1.0 m e
]

best_kept :
    (b : Partial) (ps : List Partial) → Named (b ∷ ps) → In (best_of b ps).name (losers b ps) → ⊥
best_kept b [] d m = elim m [ ]
best_kept b (p ∷ ps) d m =
    kept_step (better p b) b p ps d (best_kept p ps d.1) (best_kept b ps (d.0.1, d.1.1)) m

group-In : (s : Text) (q : Partial) (ps : List Partial) → In q (group s ps) → In q ps × (q.seg ≡ s)
group-In s q [] m = elim m [ ]
group-In s q (p ∷ ps) m =
    let later : In q (group s ps) → In q (p ∷ ps) × (q.seg ≡ s) =
      λ k. (inr (group-In s q ps k).0, (group-In s q ps k).1) in
    if_elim (λ l. In q l → In q (p ∷ ps) × (q.seg ≡ s)) (text_eq p.seg s) (p ∷ group s ps)
      (group s ps)
      (λ same k. elim k [
        | inl e ↦ (inl e, ap (λ r. r.seg) e ∙ text_eq→≡ p.seg s same)
        | inr j ↦ later j
      ])
      (λ _ k. later k) m

In-group : (q : Partial) (ps : List Partial) → In q ps → In q (group q.seg ps)
In-group q [] m = elim m [ ]
In-group q (p ∷ ps) (inl e) =
    if_elim (In q) (text_eq p.seg q.seg) (p ∷ group q.seg ps) (group q.seg ps) (λ _. inl e)
      (λ other. absurd (ground (arith, other, text_eq_refl q.seg, ap (λ r. text_eq r.seg q.seg) e)))
In-group q (p ∷ ps) (inr m) =
    if_elim (In q) (text_eq p.seg q.seg) (p ∷ group q.seg ps) (group q.seg ps)
      (λ _. inr (In-group q ps m)) (λ _. In-group q ps m)

All-group :
    (n s : Text) (ps : List Partial) → All (λ q. q.name ≢ n) ps → All (λ q. q.name ≢ n) (group s ps)
All-group n s [] h = tt
All-group n s (p ∷ ps) h =
    let rest = All-group n s ps h.1 in
    if_elim (All (λ q. q.name ≢ n)) (text_eq p.seg s) _ _ (λ _. (h.0, rest)) (λ _. rest)

Named-group : (s : Text) (ps : List Partial) → Named ps → Named (group s ps)
Named-group s [] d = tt
Named-group s (p ∷ ps) d =
    let rest = Named-group s ps d.1 in
    if_elim Named (text_eq p.seg s) _ _ (λ _. (All-group p.name s ps d.0, rest)) (λ _. rest)

Named-inj :
    (ps : List Partial) (p q : Partial) → Named ps → In p ps → In q ps → p.name ≡ q.name → p ≡ q
Named-inj [] p q d m n e = elim m [ ]
Named-inj (r ∷ ps) p q d (inl a) (inl b) e = a ∙ sym b
Named-inj (r ∷ ps) p q d (inl a) (inr n) e =
    absurd (named-apart r ps q d.0 n (sym e ∙ ap (λ x. x.name) a))
Named-inj (r ∷ ps) p q d (inr m) (inl b) e =
    absurd (named-apart r ps p d.0 m (e ∙ ap (λ x. x.name) b))
Named-inj (r ∷ ps) p q d (inr m) (inr n) e = Named-inj ps p q d.1 m n e

name-In :
    (n : Text) (ps : List Partial)
    → In n (map (λ q. q.name) ps)
    → (q : Partial) × In q ps × (n ≡ q.name)
name-In n [] m = elim m [ ]
name-In n (p ∷ ps) (inl e) = (p, inl refl, e)
name-In n (p ∷ ps) (inr m) = let (q, at, e) = name-In n ps m in (q, inr at, e)

delete_group-only :
    (full : Bool) (n : Text) (g : List Partial)
    → In n (delete_group full g)
    → In n (map (λ q. q.name) g)
delete_group-only full n [] m = elim m [ ]
delete_group-only true n (p ∷ ps) m = m
delete_group-only false n (p ∷ ps) m = losers-only n p ps m

In-append : (n : Text) (xs ys : List Text) → In n (xs ++ ys) → In n xs ⊎ In n ys
In-append n [] ys m = inr m
In-append n (x ∷ xs) ys (inl e) = inl (inl e)
In-append n (x ∷ xs) ys (inr m) = elim (In-append n xs ys m) [ inl a ↦ inl (inr a) | inr b ↦ inr b ]

module _ (full : List Text) (ps : List Partial) (d : Named ps) where
  -- The best of its group, where that has no full segment, is not deleted with any group.
  survives :
      (q b : Partial) (rest : List Partial) (ss : List Text)
      → In q ps
      → has full q.seg ≡ false
      → group q.seg ps ≡ b ∷ rest
      → q ≡ best_of b rest
      → In q.name (delete_groups full ps ss)
      → ⊥
  survives q b rest [] m f g e n = elim n [ ]
  survives q b rest (s ∷ ss) m f g e n =
      elim (In-append q.name (delete_group (has full s) (group s ps)) (delete_groups full ps ss)
        n) [
          | inr later ↦ survives q b rest ss m f g e later
          | inl now ↦
              let (r, at, same) =
                name-In q.name (group s ps)
                  (delete_group-only (has full s) q.name (group s ps) now) in
              let (in_ps, seg) = group-In s r ps at in
              let is : q ≡ r = Named-inj ps q r d m in_ps same in
              let here : s ≡ q.seg = sym (ap (λ x. x.seg) is ∙ seg) in
              let mine : In q.name (delete_group (has full q.seg) (group q.seg ps)) =
                subst (λ t. In q.name (delete_group (has full t) (group t ps))) here now in
              let lost : In q.name (losers b rest) =
                subst (λ l. In q.name (delete_group false l)) g
                  (subst (λ x. In q.name (delete_group x (group q.seg ps))) f mine) in
              best_kept b rest (subst Named g (Named-group q.seg ps d))
                (subst (λ x. In x.name (losers b rest)) e lost)
        ]

  survivor :
      (p : Partial) (ss : List Text)
      → In p ps
      → has full p.seg ≡ false
      → (q : Partial) × In q ps
        × (q.seg ≡ p.seg)
        × (better p q ≡ false)
        × (In q.name (delete_groups full ps ss) → ⊥)
  survivor p ss m f = go (group p.seg ps) refl
    where
      go :
          (l : List Partial)
          → group p.seg ps ≡ l
          → (q : Partial) × In q ps
            × (q.seg ≡ p.seg)
            × (better p q ≡ false)
            × (In q.name (delete_groups full ps ss) → ⊥)
      go [] e = absurd (subst (λ g. In p g → ⊥) (sym e) (λ k. elim k [ ]) (In-group p ps m))
      go (b ∷ rest) e =
          let q = best_of b rest in
          let in_group : In q (group p.seg ps) = subst (In q) (sym e) (best-In b rest) in
          let (at, seg) = group-In p.seg q ps in_group in
          let top =
            All-In (λ r. better r q ≡ false) (b ∷ rest) p (best-top b rest)
              (subst (In p) e (In-group p ps m)) in
          (
            q,
            at,
            seg,
            top,
            survives q b rest ss at (ap (has full) seg ∙ f) (ap (λ s. group s ps) seg ∙ e) refl,
          )

-- Where no two partials have one name, every listed partial whose segment is not there in full leaves
-- a partial of that segment that is not deleted, and that is no worse than it: of a generation that is
-- higher, or of the same one and no shorter.
pub select-survivor :
    (parse_int : ParseInt) (sort : List Text → List Text) (names : List Text) (p : Partial)
    → ((n : Text) (ns : List Text) → In n (sort ns) → In n ns)
    → Named (partials_of parse_int names)
    → In p (partials_of parse_int names)
    → has (full_of parse_int names) p.seg ≡ false
    → (q : Partial) × In q (partials_of parse_int names)
      × (q.seg ≡ p.seg)
      × (better p q ≡ false)
      × (In q.name (select_partials_to_delete parse_int sort names) → ⊥)
unfolding select_partials_to_delete
select-survivor parse_int sort names p only d m f =
    let ps = partials_of parse_int names in
    let (q, at, seg, top, kept) =
      survivor (full_of parse_int names) ps d p (distinct_segs ps) m f in
    (q, at, seg, top, λ n. kept (only q.name _ n))
