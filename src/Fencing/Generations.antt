-- ===== src/Fencing/Generations.antt =====
-- db_fencing.go: the archive generations. A statement is answered, or fails before it is executed, or
-- is executed and its answer lost; generations are far below 2^63.
use pandastack_ai.Common.{
  ℕ, zero, suc, ◌+◌, ◌<◌, ◌≤◌, ◌≡◌, refl, sym, ap, subst, ◌∙◌, inl, inr, Bool, true, false, Option,
  none, some, List, [], ◌∷◌, Text, text_eq, text_eq→≡, text_eq_refl, codes, if◌then◌else◌, if_elim,
  Bool-cases, arith,
}

pub data Answer : Type 0 where
  answered failed lost : Answer

pub record Generation : Type 0 where
  pub generation : ℕ
  pub holder : Text

abbrev pub Generations : Type 0
Generations = Text → Option Generation

abbrev pub write : Text → Generation → Generations → Generations
write id g t k = if text_eq k id then some g else t k

-- INSERT … VALUES (id, 1, 'create') ON CONFLICT DO NOTHING
abbrev pub insert_first : Text → Option Generation → Generations → Generations
insert_first id none t = write id (record { generation = 1; holder = codes "create" }) t
insert_first id (some g) t = t

-- INSERT … VALUES (id, 2, holder) ON CONFLICT DO UPDATE SET generation = generation + 1
abbrev pub bumped : Option Generation → ℕ
bumped none = 2
bumped (some g) = g.generation + 1

-- The `Bool` is the error. Without a database nothing is done: `connected` is `d.db != nil`.
unfoldable pub seed_archive_generation : Bool → Answer → Text → Generations → Bool × Generations
seed_archive_generation false a id t = (false, t)
seed_archive_generation true answered id t = (false, insert_first id (t id) t)
seed_archive_generation true failed id t = (true, t)
seed_archive_generation true lost id t = (true, insert_first id (t id) t)

unfoldable pub bump_archive_generation :
    Bool → Answer → Text → Text → Generations → Option ℕ × Generations
bump_archive_generation false a id holder t = (some 1, t)
bump_archive_generation true a id holder t =
    let g = bumped (t id) in
    let t' = write id (record { generation = g; holder = holder }) t in
    elim a [ answered ↦ (some g, t') | failed ↦ (none, t) | lost ↦ (none, t') ]

abbrev pub settle : Option ℕ → Option ℕ × Generations → Generations → Option ℕ × Generations
settle (some g) rest t = (some g, t)
settle none rest t = rest

-- The attempts that are left; `stops n` is the end of the context in the wait before attempt `n`.
unfoldable pub bump_attempts :
    (ℕ → Bool) → (ℕ → Answer) → Text → Text → ℕ → ℕ → Generations → Option ℕ × Generations
unfolding bump_archive_generation
bump_attempts stops a id holder zero n t = (none, t)
bump_attempts stops a id holder (suc left) n t =
    let (r, t') = bump_archive_generation true (a n) id holder t in
    let rest = bump_attempts stops a id holder left (suc n) t' in
    if stops n then (none, t) else settle r rest t'

-- The first attempt has no wait.
abbrev pub cut_off : (ℕ → Bool) → ℕ → Bool
cut_off stops zero = false
cut_off stops (suc n) = stops (suc n)

unfoldable pub bump_archive_generation_retry :
    Bool → (ℕ → Bool) → (ℕ → Answer) → Text → Text → Generations → Option ℕ × Generations
unfolding bump_attempts
bump_archive_generation_retry false stops a id holder t = (some 1, t)
bump_archive_generation_retry true stops a id holder t =
    bump_attempts (cut_off stops) a id holder 3 0 t

unfoldable pub current_archive_generation : Bool → Bool → Text → Generations → Option ℕ
current_archive_generation false fails id t = none
current_archive_generation true true id t = none
current_archive_generation true false id t = elim (t id) [
  | none ↦ none
  | some g ↦ some g.generation
]

-- The calls of any number of owners on a database, in the order in which they are made.
pub data Call : Type 0 where
  seeds : Answer → Text → Call
  bumps : (ℕ → Bool) → (ℕ → Answer) → Text → Text → Call

abbrev pub after : Call → Generations → Generations
after (seeds a id) t = (seed_archive_generation true a id t).1
after (bumps stops a id holder) t = (bump_archive_generation_retry true stops a id holder t).1

-- The generation that a call for `id` returns.
abbrev pub returned : Text → Call → Generations → Option ℕ
returned id (seeds a k) t = none
returned id (bumps stops a k holder) t =
    if text_eq k id then (bump_archive_generation_retry true stops a k holder t).0 else none

abbrev pub given_out : Text → List Call → Generations → List ℕ
given_out id [] t = []
given_out id (c ∷ cs) t =
    let rest = given_out id cs (after c t) in
    elim (returned id c t) [ none ↦ rest | some g ↦ g ∷ rest ]

-- The generation on record, 0 for none.
abbrev pub level : Option Generation → ℕ
level none = 0
level (some g) = g.generation

-- Every element is above the bound and above those before it.
abbrev pub Rising : ℕ → List ℕ → Type 0
Rising n [] = Unit
Rising n (g ∷ gs) = (n < g) × Rising g gs

Rising-weaken : (m n : ℕ) (gs : List ℕ) → m ≤ n → Rising n gs → Rising m gs
Rising-weaken m n [] le h = tt
Rising-weaken m n (g ∷ gs) le h = (omega (arith, le, h.0), h.1)

-- No level falls, and a generation that is returned for `k` is above the level before the call, and
-- not above the one after it.
record Raised (k : Text) (t : Generations) (out : Option ℕ × Generations) : Type 0 where
  pub no_lower : (j : Text) → level (t j) ≤ level (out.1 j)
  pub fresh : (g : ℕ) → out.0 ≡ some g → (level (t k) < g) × (g ≤ level (out.1 k))

write-level :
    (j k : Text) (g : Generation) (t : Generations)
    → level (t k) < g.generation
    → level (t j) ≤ level (write k g t j)
write-level j k g t h =
    if_elim (λ o. level (t j) ≤ level o) (text_eq j k) _ _
      (λ same.
        subst (λ x. level (t x) ≤ g.generation) (sym (text_eq→≡ j k same)) (omega (arith, h)))
      (λ _. omega arith)

level-bumped : (o : Option Generation) → level o < bumped o
level-bumped none = omega arith
level-bumped (some g) = omega arith

unchanged : (k : Text) (t : Generations) → Raised k t (none, t)
unchanged k t = record { no_lower = λ j. omega arith; fresh = λ g e. absurd cc }

bump-Raised :
    (a : Answer) (k holder : Text) (t : Generations)
    → Raised k t (bump_archive_generation true a k holder t)
unfolding bump_archive_generation
bump-Raised failed k holder t = unchanged k t
bump-Raised lost k holder t = record {
  no_lower = λ j. write-level j k _ t (level-bumped (t k));
  fresh = λ g e. absurd cc;
}
bump-Raised answered k holder t = record {
  no_lower = λ j. write-level j k _ t (level-bumped (t k));
  fresh = λ g e.
      let is : bumped (t k) ≡ g = ground (arith, e) in
      let at : level (write k (record { generation = bumped (t k); holder = holder }) t k)
          ≡ bumped (t k) =
        ap
          (λ b.
            level (if b then some (record { generation = bumped (t k); holder = holder }) else t k))
          (text_eq_refl k) in
      let above = level-bumped (t k) in (omega (arith, is, above), omega (arith, is, at));
}

settled-Raised :
    (k : Text) (t : Generations) (out rest : Option ℕ × Generations)
    → Raised k t out
    → Raised k out.1 rest
    → Raised k t (settle out.0 rest out.1)
settled-Raised k t (some g, t') rest first more = first
settled-Raised k t (none, t') rest first more = record {
  no_lower = λ j. omega (arith, first.no_lower j, more.no_lower j);
  fresh = λ g f. let later = more.fresh g f in (omega (arith, first.no_lower k, later.0), later.1);
}

attempts-Raised :
    (stops : ℕ → Bool) (a : ℕ → Answer) (k holder : Text) (left n : ℕ) (t : Generations)
    → Raised k t (bump_attempts stops a k holder left n t)
unfolding bump_attempts
attempts-Raised stops a k holder zero n t = unchanged k t
attempts-Raised stops a k holder (suc left) n t =
    let out = bump_archive_generation true (a n) k holder t in
    if_elim (Raised k t) (stops n) _ _ (λ _. unchanged k t)
      (λ _.
        settled-Raised k t out _ (bump-Raised (a n) k holder t)
          (attempts-Raised stops a k holder left (suc n) out.1))

after-level : (c : Call) (t : Generations) (j : Text) → level (t j) ≤ level (after c t j)
unfolding seed_archive_generation bump_archive_generation_retry
after-level (seeds a k) t j = seeded a
  where
    inserted : (o : Option Generation) → t k ≡ o → level (t j) ≤ level (insert_first k o t j)
    inserted none e = write-level j k _ t (rw e (omega arith))
    inserted (some g) e = omega arith

    seeded : (a : Answer) → level (t j) ≤ level ((seed_archive_generation true a k t).1 j)
    seeded answered = inserted (t k) refl
    seeded failed = omega arith
    seeded lost = inserted (t k) refl
after-level (bumps stops a k holder) t j =
    (attempts-Raised (cut_off stops) a k holder 3 0 t).no_lower j

returned-fresh :
    (id : Text) (c : Call) (t : Generations) (g : ℕ)
    → returned id c t ≡ some g
    → (level (t id) < g) × (g ≤ level (after c t id))
unfolding bump_archive_generation_retry
returned-fresh id (seeds a k) t g e = absurd cc
returned-fresh id (bumps stops a k holder) t g e = elim (Bool-cases (text_eq k id)) [
  | inr other ↦ absurd (ground (arith, other, e))
  | inl same ↦
      let out = bump_archive_generation_retry true stops a k holder t in
      let is : out.0 ≡ some g = sym (ap (λ b. if b then out.0 else none) same) ∙ e in
      subst (λ j. (level (t j) < g) × (g ≤ level (out.1 j))) (text_eq→≡ k id same)
        ((attempts-Raised (cut_off stops) a k holder 3 0 t).fresh g is)
]

given_out_step :
    (n m : ℕ) (r : Option ℕ) (rest : List ℕ)
    → n ≤ m
    → ((g : ℕ) → r ≡ some g → (n < g) × (g ≤ m))
    → Rising m rest
    → Rising n (elim r as (λ _. List ℕ) [ none ↦ rest | some g ↦ g ∷ rest ])
given_out_step n m none rest le h later = Rising-weaken n m rest le later
given_out_step n m (some g) rest le h later =
    ((h g refl).0, Rising-weaken g m rest (h g refl).1 later)

-- However the calls of any number of owners interleave, and whichever statements fail or lose their
-- answers, the generations that are given out for a database rise strictly, from above the one on
-- record: no two owners ever get the same one, and a later owner's is higher.
pub given_out-Rising :
    (id : Text) (calls : List Call) (t : Generations) → Rising (level (t id)) (given_out id calls t)
given_out-Rising id [] t = tt
given_out-Rising id (c ∷ calls) t =
    given_out_step _ _ (returned id c t) _ (after-level c t id) (returned-fresh id c t)
      (given_out-Rising id calls (after c t))
