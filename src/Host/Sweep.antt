-- ===== src/Host/Sweep.antt =====
-- The sweeper of volume_autogrow.go, `RunVolumeAutoGrow`: which volumes a round of it may enlarge.
use pandastack_ai.Common.{
  ℕ, ◌-◌, ◌*◌, ◌^◌, ◌<◌, ◌≡◌, ◌⊎◌, refl, sym, ap, ◌∙◌, subst, inl, inr, Bool, All, false, Option,
  none, some, List, [], ◌∷◌, Text, text_eq, text_eq→≡, text_eq_refl, ltb, Bool-cases, if_elim,
  if◌then◌else◌, arith,
}
use pandastack_ai.Scheduler.Data.{Floats}
use pandastack_ai.Host.Growth.{Probe, Grown, skipped, grew, failed, auto_grow_one}
use pandastack_ai.Host.Grown.{auto_grow_one_lem}

-- `autoGrowCooldown`, 3 minutes in nanoseconds.
abbrev pub cooldown : ℕ
cooldown = 180 * 10 ^ 9

-- The images by the id of their sandbox, none where there is no file, and the time of the last
-- attempt that counts.
pub record Sweeper : Type 0 where
  pub images : Text → Option ℕ
  pub last_grow : Text → Option ℕ

abbrev pub set {ℓ} : {A : Type ℓ} → Text → A → (Text → A) → Text → A
set id a m k = if text_eq k id then a else m k

-- `now.Sub(lastGrow[id]) < autoGrowCooldown`; a missing key is the zero time.
abbrev pub cooling : ℕ → Option ℕ → Bool
cooling now none = false
cooling now (some t) = ltb (now - t) cooldown

abbrev pub note : Text → ℕ → Grown × ℕ → Sweeper → Sweeper
note id now (skipped, size) st = record st { images = set id (some size) st.images }
note id now (grew, size) st = record {
  images = set id (some size) st.images;
  last_grow = set id (some now) st.last_grow;
}
note id now (failed e, size) st = record {
  images = set id (some size) st.images;
  last_grow = set id (some now) st.last_grow;
}

abbrev pub visit_image : Floats → ℕ → Probe → Text → Option ℕ → Sweeper → Sweeper
visit_image f now p id none st = st
visit_image f now p id (some size) st =
    if cooling now (st.last_grow id) then st else note id now (auto_grow_one f p size) st

-- One sandbox of the loop.
unfoldable pub sweep_one : Floats → ℕ → Probe → Text → Sweeper → Sweeper
sweep_one f now p id st = visit_image f now p id (st.images id) st

-- One round: the sandboxes that have a driver, each with the answers to its attempt.
unfoldable pub sweep : Floats → ℕ → List (Text × Probe) → Sweeper → Sweeper
unfolding sweep_one
sweep f now [] st = st
sweep f now ((id, p) ∷ rest) st = sweep f now rest (sweep_one f now p id st)

-- The end of a round: entries of images that are gone are dropped.
unfoldable pub drop_gone : Sweeper → Sweeper
drop_gone st = record st {
  last_grow = λ id. elim (st.images id) [ none ↦ none | some _ ↦ st.last_grow id ];
}

-- An image is as it was, or its cooldown runs from this round.
abbrev Marked : Text → ℕ → Sweeper → Type 0
Marked id now st = (st.last_grow id ≡ some now) × ((n : ℕ) × (st.images id ≡ some n))

abbrev Resting : Text → ℕ → Sweeper → Sweeper → Type 0
Resting id now st st' = (st'.images id ≡ st.images id) ⊎ Marked id now st'

set_at {ℓ} : {A : Type ℓ} (id : Text) (a : A) (m : Text → A) → set id a m id ≡ a
set_at id a m = ap (λ b. if b then a else m id) (text_eq_refl id)

note-Resting :
    (id : Text) (now size : ℕ) (out : Grown × ℕ) (st : Sweeper)
    → st.images id ≡ some size
    → (out.1 ≡ size) ⊎ ((e : out.0 ≡ skipped) → ⊥)
    → Resting id now st (note id now out st)
note-Resting id now size (skipped, n) st e (inl s) =
    inl (set_at id (some n) st.images ∙ ap some s ∙ sym e)
note-Resting id now size (skipped, n) st e (inr c) = absurd (c refl)
note-Resting id now size (grew, n) st e h =
    inr (set_at id (some now) st.last_grow, (n, set_at id (some n) st.images))
note-Resting id now size (failed x, n) st e h =
    inr (set_at id (some now) st.last_grow, (n, set_at id (some n) st.images))

set_present :
    (id k : Text) (n : ℕ) (m : Text → Option ℕ)
    → (i : ℕ) × (m id ≡ some i)
    → (i : ℕ) × (set k (some n) m id ≡ some i)
set_present id k n m (i, e) =
    if_elim (λ o. (i : ℕ) × (o ≡ some i)) (text_eq id k) _ _ (λ _. (n, refl)) (λ _. (i, e))

set_kept :
    (id k : Text) (now : ℕ) (m : Text → Option ℕ)
    → m id ≡ some now
    → set k (some now) m id ≡ some now
set_kept id k now m e = if_elim (λ o. o ≡ some now) (text_eq id k) _ _ (λ _. refl) (λ _. e)

note-Marked :
    (id k : Text) (now : ℕ) (out : Grown × ℕ) (st : Sweeper)
    → Marked id now st
    → Marked id now (note k now out st)
note-Marked id k now (skipped, n) st h = (h.0, set_present id k n st.images h.1)
note-Marked id k now (grew, n) st h =
    (set_kept id k now st.last_grow h.0, set_present id k n st.images h.1)
note-Marked id k now (failed x, n) st h =
    (set_kept id k now st.last_grow h.0, set_present id k n st.images h.1)

note_other :
    (id k : Text) (now : ℕ) (out : Grown × ℕ) (st : Sweeper)
    → text_eq id k ≡ false
    → (note k now out st).images id ≡ st.images id
note_other id k now (skipped, n) st h = ground arith
note_other id k now (grew, n) st h = ground arith
note_other id k now (failed x, n) st h = ground arith

note_last :
    (id k : Text) (now : ℕ) (out : Grown × ℕ) (st : Sweeper)
    → text_eq id k ≡ false
    → (note k now out st).last_grow id ≡ st.last_grow id
note_last id k now (skipped, n) st h = refl
note_last id k now (grew, n) st h = ground arith
note_last id k now (failed x, n) st h = ground arith

attempt :
    (f : Floats) (p : Probe) (size : ℕ)
    → ((auto_grow_one f p size).1 ≡ size) ⊎ ((auto_grow_one f p size).0 ≡ skipped → ⊥)
attempt f p size = elim (auto_grow_one_lem f p size) [ inl e ↦ inl e | inr r ↦ inr r.counted ]

visit-Resting :
    (f : Floats) (now : ℕ) (p : Probe) (k id : Text) (st : Sweeper) (o : Option ℕ)
    → st.images k ≡ o
    → Resting id now st (visit_image f now p k o st)
visit-Resting f now p k id st none e = inl refl
visit-Resting f now p k id st (some size) e =
    if_elim (Resting id now st) (cooling now (st.last_grow k)) _ _ (λ _. inl refl)
      (λ _. elim (Bool-cases (text_eq id k)) [
        | inl same ↦
            let at : id ≡ k = text_eq→≡ id k same in
            subst (λ j. Resting j now st (note k now (auto_grow_one f p size) st)) (sym at)
              (note-Resting k now size (auto_grow_one f p size) st e (attempt f p size))
        | inr other ↦ inl (note_other id k now (auto_grow_one f p size) st other)
      ])

visit-Marked :
    (f : Floats) (now : ℕ) (p : Probe) (k id : Text) (st : Sweeper) (o : Option ℕ)
    → Marked id now st
    → Marked id now (visit_image f now p k o st)
visit-Marked f now p k id st none h = h
visit-Marked f now p k id st (some size) h =
    if_elim (Marked id now) (cooling now (st.last_grow k)) _ _ (λ _. h)
      (λ _. note-Marked id k now (auto_grow_one f p size) st h)

sweep-Marked :
    (f : Floats) (now : ℕ) (ids : List (Text × Probe)) (id : Text) (st : Sweeper)
    → Marked id now st
    → Marked id now (sweep f now ids st)
unfolding sweep sweep_one
sweep-Marked f now [] id st h = h
sweep-Marked f now ((k, p) ∷ rest) id st h =
    sweep-Marked f now rest id _ (visit-Marked f now p k id st (st.images k) h)

sweep-Resting :
    (f : Floats) (now : ℕ) (ids : List (Text × Probe)) (id : Text) (st : Sweeper)
    → Resting id now st (sweep f now ids st)
unfolding sweep sweep_one
sweep-Resting f now [] id st = inl refl
sweep-Resting f now ((k, p) ∷ rest) id st =
    let st' = visit_image f now p k (st.images k) st in
    elim (visit-Resting f now p k id st (st.images k) refl) [
      | inr marked ↦ inr (sweep-Marked f now rest id st' marked)
      | inl same ↦ elim (sweep-Resting f now rest id st') [
        | inl later ↦ inl (later ∙ same)
        | inr marked ↦ inr marked
      ]
    ]

-- While its cooldown runs, nothing happens to an image.
abbrev Untouched : Text → ℕ → Sweeper → Sweeper → Type 0
Untouched id t st st' = (st'.images id ≡ st.images id) × (st'.last_grow id ≡ some t)

visit-Untouched :
    (f : Floats) (now t : ℕ) (p : Probe) (k id : Text) (st : Sweeper) (o : Option ℕ)
    → now - t < cooldown
    → st.last_grow id ≡ some t
    → Untouched id t st (visit_image f now p k o st)
visit-Untouched f now t p k id st none young h = (refl, h)
visit-Untouched f now t p k id st (some size) young h =
    if_elim (Untouched id t st) (cooling now (st.last_grow k)) _ _ (λ _. (refl, h))
      (λ hot. elim (Bool-cases (text_eq id k)) [
        | inl same ↦
            let at : id ≡ k = text_eq→≡ id k same in
            let last : st.last_grow k ≡ some t = subst (λ j. st.last_grow j ≡ some t) at h in
            absurd (ground (arith, last, hot))
        | inr other ↦ (note_other id k now _ st other, note_last id k now _ st other ∙ h)
      ])

sweep-Untouched :
    (f : Floats) (now t : ℕ) (ids : List (Text × Probe)) (id : Text) (st : Sweeper)
    → now - t < cooldown
    → st.last_grow id ≡ some t
    → Untouched id t st (sweep f now ids st)
unfolding sweep sweep_one
sweep-Untouched f now t [] id st young h = (refl, h)
sweep-Untouched f now t ((k, p) ∷ rest) id st young h =
    let first = visit-Untouched f now t p k id st (st.images k) young h in
    let later = sweep-Untouched f now t rest id _ young first.1 in (later.0 ∙ first.0, later.1)

-- A whole round.
unfoldable pub round : Floats → ℕ → List (Text × Probe) → Sweeper → Sweeper
round f now ids st = drop_gone (sweep f now ids st)

drop_gone-Marked :
    (id : Text) (t : ℕ) (st : Sweeper) → Marked id t st → (drop_gone st).last_grow id ≡ some t
unfolding drop_gone
drop_gone-Marked id t st (e, (n, at)) = rw (at) e

-- Later rounds, each at its time and with the sandboxes that have a driver then.
abbrev pub rounds : Floats → List (ℕ × List (Text × Probe)) → Sweeper → Sweeper
rounds f [] st = st
rounds f ((now, ids) ∷ later) st = rounds f later (round f now ids st)

round-Marked :
    (f : Floats) (now t : ℕ) (ids : List (Text × Probe)) (id : Text) (st : Sweeper)
    → now - t < cooldown
    → Marked id t st
    → Marked id t (round f now ids st) × ((round f now ids st).images id ≡ st.images id)
unfolding round drop_gone
round-Marked f now t ids id st young (last, (n, at)) =
    let (same, still) = sweep-Untouched f now t ids id st young last in
    let present = same ∙ at in
    ((drop_gone-Marked id t (sweep f now ids st) (still, (n, present)), (n, present)), same)

rounds-Marked :
    (f : Floats) (t : ℕ) (later : List (ℕ × List (Text × Probe))) (id : Text) (st : Sweeper)
    → All (λ p. p.0 - t < cooldown) later
    → Marked id t st
    → (rounds f later st).images id ≡ st.images id
rounds-Marked f t [] id st young m = refl
rounds-Marked f t ((now, ids) ∷ later) id st young m =
    let (m', same) = round-Marked f now t ids id st young.0 m in
    rounds-Marked f t later id (round f now ids st) young.1 m' ∙ same

-- A round that changes the size of an image is followed by none that does within the cooldown: for
-- any number of later rounds, all less than the cooldown after it, the image has the size that the
-- round left, whatever the guests and the host answer and whichever sandboxes have a driver.
pub round-rounds :
    (f : Floats) (t : ℕ) (ids : List (Text × Probe)) (later : List (ℕ × List (Text × Probe)))
    (id : Text) (st : Sweeper)
    → All (λ p. p.0 - t < cooldown) later
    → ((round f t ids st).images id ≡ st.images id)
      ⊎ ((rounds f later (round f t ids st)).images id ≡ (round f t ids st).images id)
unfolding round drop_gone
round-rounds f t ids later id st young = elim (sweep-Resting f t ids id st) [
  | inl same ↦ inl same
  | inr marked ↦ inr (
      rounds-Marked f t later id (round f t ids st) young
        (drop_gone-Marked id t (sweep f t ids st) marked, marked.1))
]
