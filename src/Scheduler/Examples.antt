-- ===== src/Scheduler/Examples.antt =====
-- Runs of scheduler.go on two agents, where the hypotheses of its theorems hold.
use pandastack_ai.Common.{
  ℕ, ◌-◌, ◌<◌, ◌⊎◌, ◌≡◌, ◌≢◌, refl, sym, ◌∙◌, subst, inl, inr, Bool, false, none, some, List, [],
  ◌∷◌, All, In, Text, codes, Text-discrete, if◌then◌else◌, Bool-cases, arith,
}
use pandastack_ai.Common.Int.{ℤ, pos, ◌+ℤ◌, ◌-ℤ◌, ◌≤ℤ◌, ltb_ℤ}
use pandastack_ai.Scheduler.Data.{Floats, Agent, Request}
use pandastack_ai.Scheduler.Reserve.{Reservations, prune, reserved, claims_of, total_from}
use pandastack_ai.Scheduler.Choose.{
  Config, Picked, agent_pool, want_pool, free_cpu, free_mem, cpu_admits, passes, sandbox_score,
  score, candidates, pick,
}
use pandastack_ai.Scheduler.Selection.{SortsFirst, WeakOrder, Selected, pick-Selected}
use pandastack_ai.Scheduler.Leases.{DbLease, no_rows, Call}
use pandastack_ai.Scheduler.AgentList.{
  Answer, Listed, ListCache, Tick, after, ask, scan_rows, list_agents, Asked, list_agents-fresh,
}
use pandastack_ai.Scheduler.Fit.{pick_no_oversell}

-- Numbers in place of floats.
abbrev pub numbers : Floats
numbers = record {
  Float = ℤ;
  of_int = λ x. x;
  truncate = λ x. x;
  decimal = λ m k. pos m;
  add = λ x y. x +ℤ y;
  mul = λ x y. x;
  div = λ x y. x;
  less = ltb_ℤ;
}

abbrev config : Config
config = record { floats = numbers; trim = λ t. t; cpu_overcommit = none }

-- Insertion sort keeps the law of `sort.Slice`.
abbrev insert {ℓ} : {A : Type ℓ} → (A → A → Bool) → A → List A → List A
insert less x [] = x ∷ []
insert less x (y ∷ ys) = let rest = insert less x ys in if less y x then y ∷ rest else x ∷ y ∷ ys

abbrev sort {ℓ} : {A : Type ℓ} → (A → A → Bool) → List A → List A
sort less [] = []
sort less (x ∷ xs) = insert less x (sort less xs)

module _ {ℓ} {A : Type ℓ} (less : A → A → Bool) where
  insert_cons : (x : A) (ys : List A) → insert less x ys ≢ []
  insert_cons x [] e = cc
  insert_cons x (y ∷ ys) e = elim (Bool-cases (less y x)) [
    | inl h ↦ let f : y ∷ insert less x ys ≡ [] = sym (rw h refl) ∙ e in cc
    | inr h ↦ let f : x ∷ y ∷ ys ≡ [] = sym (rw h refl) ∙ e in cc
  ]

  sort_nil : (xs : List A) → sort less xs ≡ [] → xs ≡ []
  sort_nil [] e = refl
  sort_nil (x ∷ xs) e = absurd (insert_cons x (sort less xs) e)

  All-below :
      WeakOrder less
      → (x y : A) (xs : List A) → less y x ≡ false
      → All (λ z. less z y ≡ false) xs
      → All (λ z. less z x ≡ false) xs
  All-below w x y [] h a = tt
  All-below w x y (z ∷ xs) h a = (w.cotrans z y x a.0 h, All-below w x y xs h a.1)

  irreflexive : WeakOrder less → (x : A) → less x x ≡ false
  irreflexive w x = elim (Bool-cases (less x x)) [ inl e ↦ w.asym x x e | inr e ↦ e ]

  sort_first :
      (xs : List A) (y : A) (ys : List A)
      → WeakOrder less
      → sort less xs ≡ y ∷ ys
      → In y xs × All (λ x. less x y ≡ false) xs
  sort_first [] y ys w e = absurd cc
  sort_first (x ∷ xs) y ys w e = at_head (sort less xs) refl (λ z zs f. sort_first xs z zs w f) e
    where
      at_head :
          (s : List A)
          → sort less xs ≡ s
          → ((z : A) (zs : List A)
              → sort less xs ≡ z ∷ zs
              → In z xs × All (λ v. less v z ≡ false) xs)
          → insert less x s ≡ y ∷ ys
          → In y (x ∷ xs) × All (λ v. less v y ≡ false) (x ∷ xs)
      at_head [] f ih g =
          let same : x ≡ y = cc in
          let none_left = sort_nil xs f in
          subst (λ l. In y (x ∷ l) × All (λ v. less v y ≡ false) (x ∷ l)) (sym none_left)
            (inl (sym same), (subst (λ v. less v y ≡ false) (sym same) (irreflexive w y), tt))
      at_head (z ∷ zs) f ih g = elim (Bool-cases (less z x)) [
        | inl h ↦
            let top : z ∷ insert less x zs ≡ y ∷ ys = sym (rw h refl) ∙ g in
            let same : z ≡ y = cc in
            let (i, a) = ih z zs f in
            subst (λ t. In t (x ∷ xs) × All (λ v. less v t ≡ false) (x ∷ xs)) same
              (inr i, (w.asym z x h, a))
        | inr h ↦
            let top : x ∷ z ∷ zs ≡ y ∷ ys = sym (rw h refl) ∙ g in
            let same : x ≡ y = cc in
            let (i, a) = ih z zs f in
            subst (λ t. In t (x ∷ xs) × All (λ v. less v t ≡ false) (x ∷ xs)) same
              (inl refl, (irreflexive w x, All-below w x z xs h a))
      ]

sort-SortsFirst {ℓ} : {A : Type ℓ} → SortsFirst (sort {A = A})
sort-SortsFirst = record { of_nil = λ less. refl; to_nil = sort_nil; first = sort_first }

numbers-WeakOrder : WeakOrder numbers.less
numbers-WeakOrder = record { asym = λ x y e. ground arith; cotrans = λ x y z e f. ground arith }

abbrev agent : Text → ℕ → Agent
agent id used = record {
  id = id;
  endpoint = [];
  region = [];
  zone = [];
  version = [];
  status = codes "active";
  capacity = record {
    cpu_total = pos 16;
    cpu_used = pos 2;
    memory_mb = pos 1000;
    memory_used = pos used;
    sandboxes = pos 1;
    stream_restore_enabled = false;
    volume_provisioned_bytes = pos 0;
    volumes_fs_size_bytes = pos 0;
    volumes_fs_free_bytes = pos 0;
    pool = [];
  };
  last_heartbeat = 1;
}

abbrev full_agent : Agent
full_agent = agent (codes "a1") 900

abbrev roomy_agent : Agent
roomy_agent = agent (codes "a2") 100

abbrev agents : List Agent
agents = full_agent ∷ roomy_agent ∷ []

abbrev sized : Request
sized = record {
  cpu = pos 2;
  memory_mb = pos 400;
  region = [];
  disk_bytes = pos 0;
  require_pool = [];
}

abbrev huge : Request
huge = record {
  cpu = pos 2;
  memory_mb = pos 4000;
  region = [];
  disk_bytes = pos 0;
  require_pool = [];
}

abbrev booked : Reservations
booked = (pick config sort sized 7 [] (some agents)).1

pick_run : pick config sort sized 7 [] (some agents) ≡ (Picked.ok roomy_agent, booked)
unfolding pick candidates score passes sandbox_score free_cpu free_mem cpu_admits want_pool
    agent_pool reserved claims_of total_from prune Text-discrete ◌+ℤ◌ ◌-ℤ◌
pick_run = refl

pick-Selected_example : Selected config sized 7 [] agents roomy_agent booked
pick-Selected_example =
    pick-Selected config sort sort-SortsFirst numbers-WeakOrder sized 7 [] agents roomy_agent booked
      pick_run

pick_no_oversell_example :
    (roomy_agent.capacity.memory_used +ℤ (reserved roomy_agent.id booked).mem_mb)
    ≤ℤ roomy_agent.capacity.memory_mb
pick_no_oversell_example =
    pick_no_oversell config sort sort-SortsFirst numbers-WeakOrder sized 7 [] agents roomy_agent
      booked pick_run refl

abbrev old_claims : Reservations
old_claims = (codes "a2", record { cpu = pos 1; mem_mb = pos 5; disk = pos 0; at = 0 } ∷ []) ∷ []

abbrev sandbox : Text
sandbox = codes "s1"

abbrev no_leases : Text → DbLease
no_leases id = no_rows

abbrev calls : List Call
calls = Call.remember 5 sandbox roomy_agent ∷ Call.forget sandbox ∷ []

abbrev tick : Tick
tick = record { now = 100; later = 101; db = Answer.rows (some roomy_agent ∷ []) false }

abbrev cached : ListCache
cached = after 10 (tick ∷ [])

cached_run :
    (list_agents 10 103 104 Answer.query_failed cached).0 ≡ Listed.listed (roomy_agent ∷ [])
unfolding list_agents ask scan_rows after
cached_run = refl

list_agents-fresh_example :
    (ask Answer.query_failed ≡ Listed.listed (roomy_agent ∷ []))
    ⊎ ((at : ℕ) × Asked 10 (roomy_agent ∷ []) at (tick ∷ []) × (103 - at < 10))
list_agents-fresh_example =
    list_agents-fresh 10 103 104 Answer.query_failed (tick ∷ []) (roomy_agent ∷ []) cached_run
