-- ===== src/NetPool/Release.antt =====
-- `Release` and `ReleaseNATID` of the pool, stopped at any point: what a crash leaves.
use pandastack_ai.Common.{
  ℕ, zero, suc, ◌≡◌, ◌≢◌, ◌⊎◌, refl, sym, ap, ◌∙◌, subst, inl, inr, Bool, true, false, Option, none,
  some, [], Text, text_eq, text_eq→≡, text_eq_refl, codes, take, if_elim, arith,
}
use pandastack_ai.SlotStore.{release}
use pandastack_ai.SlotStore.Rows.{Table}
use pandastack_ai.SlotStore.View.{view, vacate}
use pandastack_ai.SlotStore.Claims.{Quiet}
use pandastack_ai.SlotStore.Ownership.{SingleOwner}
use pandastack_ai.SlotStore.Releases.{release_lem}
use pandastack_ai.SlotStore.Ledger.{Ledger}
use pandastack_ai.SlotStore.Steps.{release-Ledger}
use pandastack_ai.Host.Growth.{has_prefix}
use pandastack_ai.NetPool.Pool.{
  Allocation, Kernel, Spec, World, Answers, tear_down, read_payload, delete_payload, release_steps,
  run,
}

-- What the pool relies on: a name is in use from its creation to a destruction that works. The pool
-- does not read the error of a destruction; `works` says whether one of the name goes through in a
-- state.
pub record KernelLaws (k : Kernel) : Type 0 where
  pub alive : Text → k.State → Bool
  pub works : Text → k.State → Bool
  pub create_alive :
      (sp : Spec) (s : k.State) → (k.create sp s).0 ≡ true → alive sp.name (k.create sp s).1 ≡ true
  pub destroy_gone :
      (n v : Text) (s : k.State) → works n s ≡ true → alive n (k.destroy n v s) ≡ false
  pub destroy_rest :
      (n m v : Text) (s : k.State) → alive m s ≡ false → alive m (k.destroy n v s) ≡ false
  pub destroy_other :
      (n m v : Text) (s : k.State) → text_eq m n ≡ false → alive m (k.destroy n v s) ≡ alive m s
  pub clear_alive : (ip keep n : Text) (s : k.State) → alive n (k.clear_stale ip keep s) ≡ alive n s
  pub setup_alive :
      (al : Allocation) (s : k.State)
      → (k.setup_tap al s).0 ≡ true
      → alive al.tap (k.setup_tap al s).1 ≡ true
  pub teardown_gone :
      (n : Text) (s : k.State) → works n s ≡ true → alive n (k.teardown_tap n s) ≡ false
  pub teardown_rest :
      (n m : Text) (s : k.State) → alive m s ≡ false → alive m (k.teardown_tap n s) ≡ false

-- With a ledger that answers, nothing is left to the owner.
pub release_frees :
    (a : Answers) (id : Text) (t : Table)
    → Quiet a.release_db
    → SingleOwner t
    → id ≢ []
    → (j : ℕ) → view (release a.release_db id t).1 j ≢ some (some id)
release_frees a id t q s ne j e =
    vacated (view t j) (sym ((release_lem a.release_db id t q s ne).1 j) ∙ e)
  where
    vacated : (o : Option (Option Text)) → vacate id o ≢ some (some id)
    vacated none = λ h. cc
    vacated (some none) = λ h. cc
    vacated (some (some o)) = ground (arith, text_eq_refl id)

module _ {k : Kernel} (l : KernelLaws k) where
  -- The name of a payload is no longer in use.
  abbrev pub Dead : Allocation → World k → Type 0
  Dead al w = l.alive al.tap w.kernel ≡ false

  pub record Torn (o : Option Allocation) (w w' : World k) : Type 0 where
    pub slots : w'.slots ≡ w.slots
    pub payload : w'.payload ≡ w.payload
    pub dead :
        (al : Allocation) → o ≡ some al → al.tap ≢ [] → l.works al.tap w.kernel ≡ true → Dead al w'
    pub rest : (al : Allocation) → Dead al w → Dead al w'

  pub tear_down_lem : (o : Option Allocation) (w : World k) → Torn o w (tear_down o w)
  tear_down_lem none w = record {
    slots = refl;
    payload = refl;
    dead = λ al e. absurd cc;
    rest = λ al h. h;
  }
  tear_down_lem (some x) w =
      if_elim (Torn (some x) w) (text_eq x.tap []) _ _
        (λ empty. record {
          slots = refl;
          payload = refl;
          dead = λ al e named _. absurd (named (ground (arith, e, text_eq→≡ x.tap [] empty)));
          rest = λ al h. h;
        })
        (λ _.
          if_elim (Torn (some x) w) (has_prefix x.tap (codes "ns-")) _ _
            (λ _. record {
              slots = refl;
              payload = refl;
              dead = λ al e _ fine.
                  destroyed al e (l.destroy_gone x.tap x.subnet w.kernel (works_for al e fine));
              rest = λ al h. l.destroy_rest x.tap al.tap x.subnet w.kernel h;
            })
            (λ _. record {
              slots = refl;
              payload = refl;
              dead = λ al e _ fine.
                  torn_down al e (l.teardown_gone x.tap w.kernel (works_for al e fine));
              rest = λ al h. l.teardown_rest x.tap al.tap w.kernel h;
            }))
    where
      tap_of : (al : Allocation) → some x ≡ some al → x.tap ≡ al.tap
      tap_of al e = ground (arith, e)

      works_for :
          (al : Allocation)
          → some x ≡ some al
          → l.works al.tap w.kernel ≡ true
          → l.works x.tap w.kernel ≡ true
      works_for al e fine = subst (λ n. l.works n w.kernel ≡ true) (sym (tap_of al e)) fine

      destroyed :
          (al : Allocation)
          → some x ≡ some al
          → l.alive x.tap (k.destroy x.tap x.subnet w.kernel) ≡ false
          → l.alive al.tap (k.destroy x.tap x.subnet w.kernel) ≡ false
      destroyed al e =
          subst (λ n. l.alive n (k.destroy x.tap x.subnet w.kernel) ≡ false) (tap_of al e)

      torn_down :
          (al : Allocation)
          → some x ≡ some al
          → l.alive x.tap (k.teardown_tap x.tap w.kernel) ≡ false
          → l.alive al.tap (k.teardown_tap x.tap w.kernel) ≡ false
      torn_down al e = subst (λ n. l.alive n (k.teardown_tap x.tap w.kernel) ≡ false) (tap_of al e)

  -- What a crash may leave of a sandbox whose payload is `al`: what still answers is still owned and
  -- still on record.
  pub record Safe (al : Allocation) (id : Text) (w w' : World k) : Type 0 where
    pub owned : (w'.slots ≡ w.slots) ⊎ (l.alive al.tap w'.kernel ≡ false)
    pub recorded : (w'.payload id ≡ w.payload id) ⊎ (l.alive al.tap w'.kernel ≡ false)

  pub delete_kernel :
      (a : Answers) (id : Text) (w : World k) → (delete_payload a id w).kernel ≡ w.kernel
  delete_kernel a id w =
      if_elim (λ (v : World k). v.kernel ≡ w.kernel) a.delete_fails _ _ (λ _. refl) (λ _. refl)

  delete_slots : (a : Answers) (id : Text) (w : World k) → (delete_payload a id w).slots ≡ w.slots
  delete_slots a id w =
      if_elim (λ (v : World k). v.slots ≡ w.slots) a.delete_fails _ _ (λ _. refl) (λ _. refl)

  -- Once the first write of a release was made, the name is no longer in use.
  pub cut-Dead :
      (n : ℕ) (a : Answers) (id : Text) (w : World k) (al : Allocation)
      → read_payload a id w ≡ some al
      → al.tap ≢ []
      → l.works al.tap w.kernel ≡ true
      → Dead al (run (take (suc n) (release_steps a id w)) w)
  unfolding release_steps
  cut-Dead n a id w al e named fine = at n
    where
      gone : Dead al (tear_down (read_payload a id w) w)
      gone = (tear_down_lem (read_payload a id w) w).dead al e named fine

      later : Dead al (delete_payload a id (tear_down (read_payload a id w) w))
      later = ap (l.alive al.tap) (delete_kernel a id (tear_down (read_payload a id w) w)) ∙ gone

      at : (m : ℕ) → Dead al (run (take (suc m) (release_steps a id w)) w)
      at zero = gone
      at (suc zero) = later
      at (suc (suc zero)) = later
      at (suc (suc (suc m))) = later

  -- Where the payload of a sandbox can be read and names a namespace or TAP whose destruction works,
  -- a release that is cut off after any of its writes leaves no freed slot, and no deleted payload,
  -- whose namespace or TAP still exists; the other calls of the store and the ledger may fail.
  pub release_steps-Safe :
      (n : ℕ) (a : Answers) (id : Text) (w : World k) (al : Allocation)
      → read_payload a id w ≡ some al
      → al.tap ≢ []
      → l.works al.tap w.kernel ≡ true
      → Safe al id w (run (take n (release_steps a id w)) w)
  release_steps-Safe zero a id w al e named fine = record { owned = inl refl; recorded = inl refl }
  release_steps-Safe (suc n) a id w al e named fine =
      let gone = cut-Dead n a id w al e named fine in
      record { owned = inr gone; recorded = inr gone }

  pub torn_slots :
      (a : Answers) (id : Text) (w : World k)
      → (delete_payload a id (tear_down (read_payload a id w) w)).slots ≡ w.slots
  torn_slots a id w =
      delete_slots a id (tear_down (read_payload a id w) w)
      ∙ (tear_down_lem (read_payload a id w) w).slots

  pub release_steps-Ledger :
      (n : ℕ) (a : Answers) (id : Text) (w : World k)
      → Ledger w.slots
      → Ledger (run (take n (release_steps a id w)) w).slots
  unfolding release_steps
  release_steps-Ledger zero a id w h = h
  release_steps-Ledger (suc zero) a id w h =
      subst Ledger (sym (tear_down_lem (read_payload a id w) w).slots) h
  release_steps-Ledger (suc (suc zero)) a id w h = subst Ledger (sym (torn_slots a id w)) h
  release_steps-Ledger (suc (suc (suc zero))) a id w h =
      release-Ledger a.release_db id _ (subst Ledger (sym (torn_slots a id w)) h)
  release_steps-Ledger (suc (suc (suc (suc n)))) a id w h =
      release-Ledger a.release_db id _ (subst Ledger (sym (torn_slots a id w)) h)
