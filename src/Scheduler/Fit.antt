-- ===== src/Scheduler/Fit.antt =====
-- The filters of `Pick` (scheduler.go), and the memory that bursts of placements share.
use pandastack_ai.Common.{
  ℕ, ◌≡◌, refl, ap, ◌∙◌, ◌⊎◌, inl, inr, Bool, true, false, not, ◌&&◌, none, some, List, [], Text,
  text_eq, text_eq→≡, text_eq_refl, codes, Bool-cases, arith, subst, sym,
}
use pandastack_ai.Common.Int.{ℤ, ltb_ℤ, ◌+ℤ◌, ◌-ℤ◌, ◌≤ℤ◌, int_laws}
use pandastack_ai.Scheduler.Data.{Agent, Request, pool_stateful, positive, volume_headroom_bytes}
use pandastack_ai.Scheduler.Reserve.{Reservations, Totals, prune, reserved, reserve, claim_of}
use pandastack_ai.Scheduler.Accounts.{plus, reserved-reserve}
use pandastack_ai.Scheduler.Choose.{
  Config, Picked, Scored, agent_pool, want_pool, free_mem, passes, volume_score, score, pick,
}
use pandastack_ai.Scheduler.Selection.{SortsFirst, WeakOrder, pick-Selected}

and_parts : (a b : Bool) → (a && b) ≡ true → (a ≡ true) × (b ≡ true)
and_parts true b h = (refl, h)
and_parts false b h = absurd cc

negated_true : (b : Bool) → not b ≡ true → b ≡ false
negated_true true h = absurd cc
negated_true false h = refl

-- What an agent with a score offers to the request, given the claims `t` in flight there.
pub record Eligible (cfg : Config) (req : Request) (a : Agent) (t : Totals) : Type 0 where
  pub active : a.status ≡ codes "active"
  -- a request that names a region goes to that region, or to an agent that names none
  pub region : (req.region ≡ []) ⊎ ((a.region ≡ []) ⊎ (req.region ≡ a.region))
  -- a volume goes to the stateful pool
  pub stateful : positive req.disk_bytes ≡ true → agent_pool cfg a ≡ pool_stateful
  pub pool :
      positive req.disk_bytes ≡ false
      → (req.require_pool ≡ []) ⊎ (agent_pool cfg a ≡ req.require_pool)
  pub memory : positive req.memory_mb ≡ true → req.memory_mb ≤ℤ free_mem cfg a t
  -- a volume fits the headroom, where the agent reports one
  pub disk :
      positive req.disk_bytes ≡ true
      → (hr : ℤ) → volume_headroom_bytes cfg.floats a.capacity ≡ some hr
      → req.disk_bytes ≤ℤ (hr -ℤ t.disk)

one_of :
    (a b c : Bool) → not (not a && (not b && not c)) ≡ true → (a ≡ true) ⊎ ((b ≡ true) ⊎ (c ≡ true))
one_of true b c h = inl refl
one_of false true c h = inr (inl refl)
one_of false false true h = inr (inr refl)
one_of false false false h = absurd cc

either : (a b : Bool) → not (not a && not b) ≡ true → (a ≡ true) ⊎ (b ≡ true)
either true b h = inl refl
either false true h = inr refl
either false false h = absurd cc

region_cases :
    (r s : Text)
    → not (not (text_eq r []) && (not (text_eq s []) && not (text_eq r s))) ≡ true
    → (r ≡ []) ⊎ ((s ≡ []) ⊎ (r ≡ s))
region_cases r s h = elim (one_of (text_eq r []) (text_eq s []) (text_eq r s) h) [
  | inl e ↦ inl (text_eq→≡ r [] e)
  | inr (inl e) ↦ inr (inl (text_eq→≡ s [] e))
  | inr (inr e) ↦ inr (inr (text_eq→≡ r s e))
]

pool_cases :
    (w p : Text) → not (not (text_eq w []) && not (text_eq p w)) ≡ true → (w ≡ []) ⊎ (p ≡ w)
pool_cases w p h = elim (either (text_eq w []) (text_eq p w) h) [
  | inl e ↦ inl (text_eq→≡ w [] e)
  | inr e ↦ inr (text_eq→≡ p w e)
]

stateful_case : (p : Text) → (pool_stateful ≡ []) ⊎ (p ≡ pool_stateful) → p ≡ pool_stateful
stateful_case p (inl e) = absurd cc
stateful_case p (inr e) = e

not_less : (a b : ℤ) → ltb_ℤ a b ≡ false → b ≤ℤ a
not_less a b h = ground arith

guarded : (p q : Bool) → not (p && q) ≡ true → p ≡ true → q ≡ false
guarded true q h e = negated_true q h
guarded false q h e = absurd cc

charged_fits :
    (total used held r : ℤ) → r ≤ℤ (total -ℤ used -ℤ held) → (used +ℤ (held +ℤ r)) ≤ℤ total
charged_fits total used held r h = omega int_laws

module _ (cfg : Config) (req : Request) (a : Agent) (t : Totals) where
  score-passes : (s : cfg.floats.Float) → score cfg req a t ≡ some s → passes cfg req a t ≡ true
  unfolding score
  score-passes s h = elim (Bool-cases (passes cfg req a t)) [
    | inl e ↦ e
    | inr e ↦ absurd (ground (arith, e, h))
  ]

  volume_room :
      (s : cfg.floats.Float) (hr : ℤ)
      → score cfg req a t ≡ some s
      → positive req.disk_bytes ≡ true
      → volume_headroom_bytes cfg.floats a.capacity ≡ some hr
      → ltb_ℤ (hr -ℤ t.disk) req.disk_bytes ≡ false
  unfolding score volume_score
  volume_room s hr h v e = elim (Bool-cases (ltb_ℤ (hr -ℤ t.disk) req.disk_bytes)) [
    | inl g ↦
        let full : score cfg req a t ≡ none = rw (score-passes s h, v, volume_score, e, g) refl in
        absurd cc
    | inr g ↦ g
  ]

  passes_parts :
      passes cfg req a t ≡ true
      → (text_eq a.status (codes "active") ≡ true)
        × (not (
              not (text_eq req.region [])
              && (not (text_eq a.region []) && not (text_eq req.region a.region)))
            ≡ true)
        × (not (
              not (text_eq (want_pool cfg req) [])
              && not (text_eq (agent_pool cfg a) (want_pool cfg req)))
            ≡ true)
        × (not (positive req.memory_mb && ltb_ℤ (free_mem cfg a t) req.memory_mb) ≡ true)
  unfolding passes
  passes_parts h =
      let (status, rest) = and_parts _ _ h in
      let (in_region, rest1) = and_parts _ _ rest in
      let (in_pool, rest2) = and_parts _ _ rest1 in
      (status, in_region, in_pool, (and_parts _ _ rest2).1)

  want_stateful : positive req.disk_bytes ≡ true → want_pool cfg req ≡ pool_stateful
  unfolding want_pool
  want_stateful v = rw v refl

  want_required : positive req.disk_bytes ≡ false → want_pool cfg req ≡ req.require_pool
  unfolding want_pool
  want_required v = rw v refl

  -- Every agent with a score is eligible.
  pub score-Eligible : (s : cfg.floats.Float) → score cfg req a t ≡ some s → Eligible cfg req a t
  score-Eligible s h =
      let (status, in_region, in_pool, memory_fits) = passes_parts (score-passes s h) in
      let pools = pool_cases (want_pool cfg req) (agent_pool cfg a) in_pool in
      record {
        active = text_eq→≡ a.status (codes "active") status;
        region = region_cases req.region a.region in_region;
        stateful = λ v.
            stateful_case (agent_pool cfg a)
              (subst (λ w. (w ≡ []) ⊎ (agent_pool cfg a ≡ w)) (want_stateful v) pools);
        pool = λ v. subst (λ w. (w ≡ []) ⊎ (agent_pool cfg a ≡ w)) (want_required v) pools;
        memory = λ v. not_less (free_mem cfg a t) req.memory_mb (guarded _ _ memory_fits v);
        disk = λ v hr e. not_less (hr -ℤ t.disk) req.disk_bytes (volume_room s hr h v e);
      }

module _ (cfg : Config)
    (sort_slice : (Scored cfg → Scored cfg → Bool) → List (Scored cfg) → List (Scored cfg))
    (law : SortsFirst sort_slice) (order : WeakOrder (cfg.floats.less)) (req : Request) (now : ℕ)
    (m : Reservations) where
  -- With `sort.Slice` and the order of floats as their documentation says, the agent that `Pick`
  -- returns is active, matches the region and the pool, and has the memory and the volume headroom
  -- that the request asks for beside the claims that are in flight there.
  pub pick-Eligible :
      (agents : List Agent) (a : Agent) (m' : Reservations)
      → pick cfg sort_slice req now m (some agents) ≡ (Picked.ok a, m')
      → Eligible cfg req a (reserved a.id (prune now m))
  pick-Eligible agents a m' e =
      let p = pick-Selected cfg sort_slice law order req now m agents a m' e in
      score-Eligible cfg req a (reserved a.id (prune now m)) p.value p.scored

  free_mem_room :
      (a : Agent) (t : Totals)
      → req.memory_mb ≤ℤ free_mem cfg a t
      → req.memory_mb ≤ℤ (a.capacity.memory_mb -ℤ a.capacity.memory_used -ℤ t.mem_mb)
  unfolding free_mem
  free_mem_room a t h = h

  booked_mem :
      (a : Agent) (m' : Reservations)
      → m' ≡ reserve a.id req now (prune now m)
      → reserved a.id m' ≡ plus (reserved a.id (prune now m)) (claim_of req now)
  booked_mem a m' e =
      ap (reserved a.id) e
      ∙ reserved-reserve a.id a.id req now (prune now m)
      ∙ rw (text_eq_refl a.id) refl

  -- With `sort.Slice` and the order of floats as their documentation says, a placement that asks
  -- for memory never oversells: after it, the memory in use on the chosen agent and all the claims
  -- in flight there, the new one included, fit the agent's memory.
  pub pick_no_oversell :
      (agents : List Agent) (a : Agent) (m' : Reservations)
      → pick cfg sort_slice req now m (some agents) ≡ (Picked.ok a, m')
      → positive req.memory_mb ≡ true
      → (a.capacity.memory_used +ℤ (reserved a.id m').mem_mb) ≤ℤ a.capacity.memory_mb
  unfolding claim_of
  pick_no_oversell agents a m' e v =
      let p = pick-Selected cfg sort_slice law order req now m agents a m' e in
      let fits = (pick-Eligible agents a m' e).memory v in
      let mem = ap (λ t. t.mem_mb) (booked_mem a m' p.booked) in
      subst (λ x. (a.capacity.memory_used +ℤ x) ≤ℤ a.capacity.memory_mb) (sym mem)
        (charged_fits a.capacity.memory_mb a.capacity.memory_used
          (reserved a.id (prune now m)).mem_mb req.memory_mb (free_mem_room a _ fits))
