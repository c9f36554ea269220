-- ===== src/NetPool/Orphans.antt =====
-- natid.go: the sweep of orphaned namespaces at boot, `SweepOrphanNetns`.
use pandastack_ai.Common.{
  ℕ, ◌≡◌, ◌⊎◌, refl, sym, ap, ◌∙◌, subst, inl, inr, Bool, true, false, not, ◌&&◌, ◌||◌, Option,
  none, some, List, [], ◌∷◌, ◌++◌, In, Text, text_eq, text_eq→≡, text_eq_refl, codes, drop, length,
  Bool-cases, Option-cases, if_elim, if◌then◌else◌, arith,
}
use pandastack_ai.Host.Growth.{has_prefix}
use pandastack_ai.Host.Admission.{has}
use pandastack_ai.NetPool.Pool.{Allocation, Kernel}
use pandastack_ai.NetPool.Release.{KernelLaws}

-- What `GetAllocationJSON` answers; `broken` is a payload that is no JSON.
pub data Read : Type 0 where
  no_row read_error broken : Read
  found : Allocation → Read

abbrev pub named : Allocation → List Text → List Text
named al keep = if has_prefix al.tap (codes "ns-") then al.tap ∷ keep else keep

abbrev pub keep_one : Read → Option (List Text) → Option (List Text)
keep_one r none = none
keep_one no_row (some keep) = some keep
keep_one read_error (some keep) = none
keep_one broken (some keep) = some keep
keep_one (found al) (some keep) = some (named al keep)

-- The names of the live sandboxes; none where one of the payloads could not be read.
unfoldable pub live_netns_names : (Text → Read) → List Text → Option (List Text)
live_netns_names read [] = some []
live_netns_names read (id ∷ ids) = keep_one (read id) (live_netns_names read ids)

unfoldable pub orphan_netns_to_sweep : List Text → List Text → List Text
orphan_netns_to_sweep [] keep = []
orphan_netns_to_sweep (name ∷ all) keep =
    let rest = orphan_netns_to_sweep all keep in
    if not (has_prefix name (codes "ns-")) || has keep name then rest else name ∷ rest

-- "vh-" and the name without its prefix.
abbrev pub veth_of : Text → Text
veth_of name = codes "vh-" ++ drop 3 name

pub data SweepError : Type 0 where
  incomplete list_failed : SweepError

module _ (k : Kernel) where
  abbrev pub destroy_all : List Text → k.State → k.State
  destroy_all [] s = s
  destroy_all (name ∷ names) s = destroy_all names (k.destroy name (veth_of name) s)

  -- `netns.List` is the argument `all`, none where it fails. The count is that of the names swept.
  unfoldable pub sweep_orphan_netns :
      (Text → Read) → Option (List Text) → List Text → k.State → (SweepError ⊎ ℕ) × k.State
  unfolding live_netns_names
  sweep_orphan_netns read all live s = elim (live_netns_names read live) [
    | none ↦ (inl incomplete, s)
    | some keep ↦ elim all [
      | none ↦ (inl list_failed, s)
      | some names ↦
          let del = orphan_netns_to_sweep names keep in (inr (length del), destroy_all del s)
    ]
  ]

In-has : (names : List Text) (x : Text) → In x names → has names x ≡ true
In-has [] x m = elim m [ ]
In-has (y ∷ names) x (inl e) = ground (arith, e, text_eq_refl y)
In-has (y ∷ names) x (inr m) = ground (arith, In-has names x m)

-- A live sandbox with a namespace on record is in the set to keep, if there is one.
live-kept :
    (read : Text → Read) (ids : List Text) (id : Text) (al : Allocation) (keep : List Text)
    → In id ids
    → read id ≡ found al
    → has_prefix al.tap (codes "ns-") ≡ true
    → live_netns_names read ids ≡ some keep
    → has keep al.tap ≡ true
unfolding live_netns_names
live-kept read [] id al keep m e n h = elim m [ ]
live-kept read (x ∷ ids) id al keep (inl same) e n h =
    elim (Option-cases (live_netns_names read ids)) [
      | inl failed ↦ absurd (ground (arith, failed, h))
      | inr (rest, ok) ↦
          let at : read x ≡ found al = ap read (sym same) ∙ e in
          let is : some (al.tap ∷ rest) ≡ some keep = ground (arith, ok, at, n, h) in
          ground (arith, is, text_eq_refl al.tap)
    ]
live-kept read (x ∷ ids) id al keep (inr m) e n h =
    elim (Option-cases (live_netns_names read ids)) [
      | inl failed ↦ absurd (ground (arith, failed, h))
      | inr (rest, ok) ↦
          kept (read x) rest (live-kept read ids id al rest m e n ok)
            (ap (keep_one (read x)) (sym ok) ∙ h)
    ]
  where
    kept :
        (r : Read) (rest : List Text)
        → has rest al.tap ≡ true
        → keep_one r (some rest) ≡ some keep
        → has keep al.tap ≡ true
    kept no_row rest k s = ground arith
    kept read_error rest k s = absurd cc
    kept broken rest k s = ground arith
    kept (found b) rest k s = ground arith

-- What is swept: the names with the prefix that are not kept.
has-orphan_netns_to_sweep :
    (all keep : List Text) (name : Text)
    → has (orphan_netns_to_sweep all keep) name
      ≡ (has all name && (has_prefix name (codes "ns-") && not (has keep name)))
unfolding orphan_netns_to_sweep
has-orphan_netns_to_sweep [] keep name = refl
has-orphan_netns_to_sweep (x ∷ all) keep name =
    let rest = has-orphan_netns_to_sweep all keep name in
    elim (Bool-cases (text_eq name x)) [
      | inl same ↦
          let at = text_eq→≡ name x same in
          let prefix : has_prefix name (codes "ns-") ≡ has_prefix x (codes "ns-") =
            ap (λ t. has_prefix t (codes "ns-")) at in
          let kept : has keep name ≡ has keep x = ap (has keep) at in
          shape (has_prefix name (codes "ns-")) (has_prefix x (codes "ns-")) (has keep name)
            (has keep x) prefix kept rest same
      | inr other ↦
          if_elim
            (λ l. has l name ≡ (
              (text_eq name x || has all name)
              && (has_prefix name (codes "ns-") && not (has keep name))))
            (not (has_prefix x (codes "ns-")) || has keep x) _ _ (λ _. rest ∙ back other)
            (λ _.
              ap (λ b. b || has (orphan_netns_to_sweep all keep) name) other ∙ rest ∙ back other)
    ]
  where
    back :
        text_eq name x ≡ false
        → (has all name && (has_prefix name (codes "ns-") && not (has keep name))) ≡ (
            (text_eq name x || has all name)
            && (has_prefix name (codes "ns-") && not (has keep name)))
    back other =
        ap (λ b. (b || has all name) && (has_prefix name (codes "ns-") && not (has keep name)))
          (sym other)

    shape :
        (p q g h : Bool)
        → p ≡ q
        → g ≡ h
        → has (orphan_netns_to_sweep all keep) name ≡ (has all name && (p && not g))
        → text_eq name x ≡ true
        → has
            (if not q || h
              then orphan_netns_to_sweep all keep
              else x ∷ orphan_netns_to_sweep all keep)
            name
          ≡ ((text_eq name x || has all name) && (p && not g))
    shape true q true h e f rest same = ground arith
    shape true q false h e f rest same = ground arith
    shape false q g h e f rest same = ground arith

module _ {k : Kernel} (l : KernelLaws k) where
  destroy_all_unlisted :
      (names : List Text) (m : Text) (s : k.State)
      → has names m ≡ false
      → l.alive m (destroy_all k names s) ≡ l.alive m s
  destroy_all_unlisted [] m s h = refl
  destroy_all_unlisted (n ∷ names) m s h = elim (Bool-cases (text_eq m n)) [
    | inl same ↦ absurd (ground (arith, same, h))
    | inr other ↦
        destroy_all_unlisted names m (k.destroy n (veth_of n) s) (ground (arith, other, h))
        ∙ l.destroy_other n m (veth_of n) s other
  ]

  destroy_all_dead :
      (names : List Text) (m : Text) (s : k.State)
      → l.alive m s ≡ false
      → l.alive m (destroy_all k names s) ≡ false
  destroy_all_dead [] m s h = h
  destroy_all_dead (n ∷ names) m s h =
      destroy_all_dead names m (k.destroy n (veth_of n) s) (l.destroy_rest n m (veth_of n) s h)

  destroy_all_listed :
      (names : List Text) (m : Text) (s : k.State)
      → ((s' : k.State) → l.works m s' ≡ true)
      → has names m ≡ true
      → l.alive m (destroy_all k names s) ≡ false
  destroy_all_listed [] m s fine h = absurd cc
  destroy_all_listed (n ∷ names) m s fine h = elim (Bool-cases (text_eq m n)) [
    | inl same ↦ destroy_all_dead names m (k.destroy n (veth_of n) s) (
        subst (λ j. l.alive m (k.destroy j (veth_of j) s) ≡ false) (text_eq→≡ m n same)
          (l.destroy_gone m (veth_of m) s (fine s)))
    | inr other ↦
        destroy_all_listed names m (k.destroy n (veth_of n) s) fine (ground (arith, other, h))
  ]

  -- A name outside the set that is swept is as it was.
  sweep-kept :
      (read : Text → Read) (all : Option (List Text)) (live : List Text) (s : k.State) (m : Text)
      → ((keep : List Text)
          → live_netns_names read live ≡ some keep
          → (has_prefix m (codes "ns-") && not (has keep m)) ≡ false)
      → l.alive m (sweep_orphan_netns k read all live s).1 ≡ l.alive m s
  unfolding sweep_orphan_netns
  sweep-kept read all live s m h = elim (Option-cases (live_netns_names read live)) [
    | inl failed ↦ rw (sweep_orphan_netns, failed) refl
    | inr (keep, ok) ↦ rw (sweep_orphan_netns, ok) (listed all keep (h keep ok))
  ]
    where
      listed :
          (o : Option (List Text)) (keep : List Text)
          → (has_prefix m (codes "ns-") && not (has keep m)) ≡ false
          → l.alive m
              (elim o as (λ _. (SweepError ⊎ ℕ) × k.State) [
                | none ↦ (inl list_failed, s)
                | some names ↦ (
                  inr (length (orphan_netns_to_sweep names keep)),
                  destroy_all k (orphan_netns_to_sweep names keep) s,
                )
              ]).1
            ≡ l.alive m s
      listed none keep unswept = refl
      listed (some names) keep unswept =
          let out = has-orphan_netns_to_sweep names keep m in
          destroy_all_unlisted (orphan_netns_to_sweep names keep) m s (ground (arith, out, unswept))

  -- The sweep, whatever answers or fails, leaves alone every namespace that the payload of a live
  -- sandbox names, and every one whose name does not begin with "ns-".
  pub sweep_orphan_netns_safe :
      (read : Text → Read) (all : Option (List Text)) (live : List Text) (s : k.State) (m : Text)
      → ((id : Text) × (al : Allocation) × In id live × (read id ≡ found al) × (al.tap ≡ m))
        ⊎ (has_prefix m (codes "ns-") ≡ false)
      → l.alive m (sweep_orphan_netns k read all live s).1 ≡ l.alive m s
  sweep_orphan_netns_safe read all live s m (inr foreign) =
      sweep-kept read all live s m (λ keep _. ground (arith, foreign))
  sweep_orphan_netns_safe read all live s m (inl (id, al, m_in, e, at)) =
      sweep-kept read all live s m (λ keep ok. elim (Bool-cases (has_prefix m (codes "ns-"))) [
        | inr foreign ↦ ground (arith, foreign)
        | inl ours ↦
            let named_ours : has_prefix al.tap (codes "ns-") ≡ true =
              ap (λ t. has_prefix t (codes "ns-")) at ∙ ours in
            let kept : has keep m ≡ true =
              ap (has keep) (sym at) ∙ live-kept read live id al keep m_in e named_ours ok in
            ground (arith, kept)
      ])

  -- A sweep that can read the payloads and list the names leaves no orphan whose destruction works: a
  -- listed name that begins with "ns-", that no live sandbox is known by, and whose destruction works
  -- in every state is not in use afterwards.
  pub sweep_orphan_netns_all :
      (read : Text → Read) (names keep live : List Text) (s : k.State) (m : Text)
      → live_netns_names read live ≡ some keep
      → In m names
      → has_prefix m (codes "ns-") ≡ true
      → has keep m ≡ false
      → ((s' : k.State) → l.works m s' ≡ true)
      → l.alive m (sweep_orphan_netns k read (some names) live s).1 ≡ false
  unfolding sweep_orphan_netns
  sweep_orphan_netns_all read names keep live s m ok listed ours unkept fine =
      let out = has-orphan_netns_to_sweep names keep m in
      let at = In-has names m listed in
      rw (sweep_orphan_netns, ok)
        (destroy_all_listed (orphan_netns_to_sweep names keep) m s fine
          (ground (arith, out, at, ours, unkept)))
