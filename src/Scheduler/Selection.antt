-- ===== src/Scheduler/Selection.antt =====
-- What `Pick` of scheduler.go chooses: a listed agent that passes every filter, of the best score.
use pandastack_ai.Common.{
  ℕ, ◌≡◌, refl, sym, ap, subst, ◌∙◌, ◌⊎◌, ◌↔◌, inl, inr, Bool, true, false, Option, none, some,
  List, [], ◌∷◌, All, In, All-In, Option-cases,
}
use pandastack_ai.Scheduler.Data.{Agent, Request}
use pandastack_ai.Scheduler.Reserve.{Reservations, prune, reserved, reserve}
use pandastack_ai.Scheduler.Choose.{
  Config, PickError, Picked, Scored, score, consider, candidates, better, settle, pick,
}

-- The order that `sort.Slice` asks for.
pub record WeakOrder {ℓ} {A : Type ℓ} (less : A → A → Bool) : Type ℓ where
  pub asym : (x y : A) → less x y ≡ true → less y x ≡ false
  pub cotrans : (x y z : A) → less x y ≡ false → less y z ≡ false → less x z ≡ false

-- What `sort.Slice` promises of the first element, for such an order: the elements stay, and none
-- of them comes before the first.
pub record SortsFirst {ℓ} {A : Type ℓ} (sort_slice : (A → A → Bool) → List A → List A)
    : Type ℓ where
  pub of_nil : (less : A → A → Bool) → sort_slice less [] ≡ []
  pub to_nil : (less : A → A → Bool) (xs : List A) → sort_slice less xs ≡ [] → xs ≡ []
  pub first :
      (less : A → A → Bool) (xs : List A) (y : A) (ys : List A)
      → WeakOrder less
      → sort_slice less xs ≡ y ∷ ys
      → In y xs × All (λ x. less x y ≡ false) xs

better-WeakOrder : (cfg : Config) → WeakOrder (cfg.floats.less) → WeakOrder (better cfg)
better-WeakOrder cfg w = record {
  asym = λ x y e. w.asym y.1 x.1 e;
  cotrans = λ x y z e f. w.cotrans z.1 y.1 x.1 f e;
}

module _ (cfg : Config) (req : Request) (m : Reservations) where
  -- A candidate is an agent of the list with its score.
  pub Scores : Scored cfg → Type 0
  Scores x = score cfg req x.0 (reserved x.0.id m) ≡ some x.1

  consider-In :
      (a : Agent) (o : Option (cfg.floats.Float)) (rest : List (Scored cfg)) (x : Scored cfg)
      → In x (consider cfg a o rest)
      → ((x.0 ≡ a) × (o ≡ some x.1)) ⊎ In x rest
  consider-In a none rest x i = inr i
  consider-In a (some s) rest x (inl e) = inl (ap (λ p. p.0) e, ap some (sym (ap (λ p. p.1) e)))
  consider-In a (some s) rest x (inr i) = inr i

  pub candidates-In :
      (agents : List Agent) (x : Scored cfg)
      → In x (candidates cfg req m agents)
      → In x.0 agents × Scores x
  unfolding candidates Scores
  candidates-In [] x i = elim i [ ]
  candidates-In (a ∷ agents) x i =
      elim (consider-In a (score cfg req a (reserved a.id m)) (candidates cfg req m agents) x i) [
        | inl h ↦
            (inl (h.0), subst (λ b. score cfg req b (reserved b.id m) ≡ some x.1) (sym h.0) h.1)
        | inr j ↦ let h = candidates-In agents x j in (inr h.0, h.1)
      ]

  pub In-candidates :
      (agents : List Agent) (b : Agent) (s : cfg.floats.Float)
      → In b agents
      → score cfg req b (reserved b.id m) ≡ some s
      → In (b, s) (candidates cfg req m agents)
  unfolding candidates
  In-candidates [] b s i e = elim i [ ]
  In-candidates (a ∷ agents) b s (inl h) e =
      subst
        (λ c.
          In (b, s)
            (consider cfg c (score cfg req c (reserved c.id m)) (candidates cfg req m agents)))
        h (rw e (inl refl))
  In-candidates (a ∷ agents) b s (inr j) e =
      skip a (score cfg req a (reserved a.id m)) (In-candidates agents b s j e)
    where
      skip :
          (c : Agent) (o : Option (cfg.floats.Float))
          → In (b, s) (candidates cfg req m agents)
          → In (b, s) (consider cfg c o (candidates cfg req m agents))
      skip c none k = k
      skip c (some t) k = inr k

-- What a successful `Pick` promises of the agent `a` and of the map it leaves.
pub record Selected (cfg : Config) (req : Request) (now : ℕ) (m : Reservations)
    (agents : List Agent) (a : Agent) (m' : Reservations) : Type 0 where
  pub listed : In a agents
  pub value : cfg.floats.Float
  pub scored : score cfg req a (reserved a.id (prune now m)) ≡ some value
  -- no agent that passes has a better score
  pub best :
      (b : Agent) (t : cfg.floats.Float)
      → In b agents
      → score cfg req b (reserved b.id (prune now m)) ≡ some t
      → cfg.floats.less value t ≡ false
  pub booked : m' ≡ reserve a.id req now (prune now m)

module _ (cfg : Config)
    (sort_slice : (Scored cfg → Scored cfg → Bool) → List (Scored cfg) → List (Scored cfg))
    (law : SortsFirst sort_slice) (order : WeakOrder (cfg.floats.less)) (req : Request) (now : ℕ)
    (m : Reservations) where
  settle-ok :
      (live : Reservations) (xs : List (Scored cfg)) (a : Agent) (m' : Reservations)
      → settle cfg sort_slice req now live xs ≡ (Picked.ok a, m')
      → (s : cfg.floats.Float) × (ys : List (Scored cfg)) × (xs ≡ (a, s) ∷ ys)
        × (m' ≡ reserve a.id req now live)
  settle-ok live [] a m' e = cc
  settle-ok live (x ∷ ys) a m' e =
      let same : x.0 ≡ a = cc in
      (
        x.1,
        ys,
        ap (λ b. (b, x.1) ∷ ys) same,
        sym (ap (λ p. p.1) e) ∙ ap (λ b. reserve b.id req now live) same,
      )

  -- With `sort.Slice` and the order of floats as their documentation says, an agent that `Pick`
  -- returns is one of the list, passes every filter against the claims that are still live, has a
  -- score that no other passing agent beats, and is charged with the request in a map that holds
  -- otherwise only the live claims.
  pub pick-Selected :
      (agents : List Agent) (a : Agent) (m' : Reservations)
      → pick cfg sort_slice req now m (some agents) ≡ (Picked.ok a, m')
      → Selected cfg req now m agents a m'
  unfolding pick
  pick-Selected agents a m' e =
      let live = prune now m in
      let xs = candidates cfg req live agents in
      let (s, ys, sorted, books) = settle-ok live (sort_slice (better cfg) xs) a m' e in
      let (i, top) = law.first (better cfg) xs (a, s) ys (better-WeakOrder cfg order) sorted in
      let here = candidates-In cfg req live agents (a, s) i in
      record {
        listed = here.0;
        value = s;
        scored = unfold Scores in here.1;
        best = λ b t j f.
            All-In (λ x. better cfg x (a, s) ≡ false) xs (b, t) top
              (In-candidates cfg req live agents b t j f);
        booked = books;
      }

  all_none :
      (live : Reservations) (agents : List Agent)
      → ((b : Agent) → In b agents → score cfg req b (reserved b.id live) ≡ none)
      → candidates cfg req live agents ≡ []
  unfolding candidates
  all_none live [] h = refl
  all_none live (a ∷ agents) h = rw (h a (inl refl)) (all_none live agents (λ b j. h b (inr j)))

  none_all :
      (live : Reservations) (agents : List Agent)
      → candidates cfg req live agents ≡ []
      → (b : Agent) → In b agents
      → score cfg req b (reserved b.id live) ≡ none
  none_all live agents h b j = elim (Option-cases (score cfg req b (reserved b.id live))) [
    | inl e ↦ e
    | inr (s, e) ↦
        absurd (elim (subst (In (b, s)) h (In-candidates cfg req live agents b s j e)) [ ])
  ]

  settle-none :
      (live : Reservations) (xs : List (Scored cfg)) (m' : Reservations)
      → settle cfg sort_slice req now live xs ≡ (Picked.err PickError.no_agents, m')
      → xs ≡ []
  settle-none live [] m' e = refl
  settle-none live (x ∷ xs) m' e = cc

  -- With `sort.Slice` as its documentation says, `Pick` reports no agents and only drops the
  -- expired claims exactly if every listed agent fails a filter.
  pub pick-no_agents :
      (agents : List Agent)
      → ((b : Agent) → In b agents → score cfg req b (reserved b.id (prune now m)) ≡ none) ↔ (
          pick cfg sort_slice req now m (some agents)
          ≡ (Picked.err PickError.no_agents, prune now m))
  unfolding pick
  pick-no_agents agents =
      let live = prune now m in
      (
        (λ h. rw (all_none live agents h) (rw (law.of_nil (better cfg)) refl)),
        λ e. none_all live agents (
            law.to_nil (better cfg) (candidates cfg req live agents)
              (settle-none live (sort_slice (better cfg) (candidates cfg req live agents)) live e)),
      )
