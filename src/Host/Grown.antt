-- ===== src/Host/Grown.antt =====
-- volume_autogrow.go: the sizes that a growth may lead to, and when.
use pandastack_ai.Common.{
  ℕ, ◌+◌, ◌-◌, ◌%◌, ◌^◌, ◌<◌, ◌≤◌, ◌≡◌, ◌≢◌, ◌⊎◌, refl, inl, inr, true, not, Option, none, some,
  leb, if_elim, of_not-false, if◌then◌else◌, arith,
}
use pandastack_ai.Scheduler.Data.{Floats}
use pandastack_ai.Host.Growth.{
  max_bytes, min_step_bytes, next_volume_size, Probe, Grown, GrowError, skipped, wants_growth,
  finish_growth, host_has, enlarge, auto_grow_one, DfLine,
}

-- Below the ceiling the next size is larger, by at least 1 GiB unless the ceiling cuts it; it is a
-- whole number of GiB, and never above the ceiling.
pub next_volume_size_lem :
    (cur : ℕ)
    → cur < max_bytes
    → (cur < next_volume_size cur)
      × (next_volume_size cur ≤ max_bytes)
      × (next_volume_size cur % 2 ^ 30 ≡ 0)
      × ((cur + min_step_bytes ≤ next_volume_size cur) ⊎ (next_volume_size cur ≡ max_bytes))
unfolding next_volume_size
next_volume_size_lem cur h = ground arith

-- What holds where an attempt has enlarged the image.
pub record Enlarged (f : Floats) (p : Probe) (cur next : ℕ) (r : Grown) : Type 0 where
  pub line : DfLine
  pub answered : p.df ≡ some (some line)
  pub wanted : wants_growth f line ≡ true
  pub larger : cur < next
  pub bounded : next ≤ max_bytes
  pub room : host_has p.host_avail (next - cur) ≡ true
  pub counted : r ≢ skipped

finish-skipped : (p : Probe) → finish_growth p ≢ skipped
unfolding finish_growth
finish-skipped p e = ground arith

-- What an attempt makes of an image, whatever the guest said.
abbrev Outcome : Probe → ℕ → Grown × ℕ → Type 0
Outcome p cur out =
    (out.1 ≡ cur)
    ⊎ ((cur < out.1)
        × (out.1 ≤ max_bytes)
        × (host_has p.host_avail (out.1 - cur) ≡ true)
        × (out.0 ≢ skipped))

enlarge-Outcome : (p : Probe) (cur : ℕ) → Outcome p cur (enlarge p cur)
unfolding enlarge
enlarge-Outcome p cur =
    let next = next_volume_size cur in
    if_elim (Outcome p cur) (not p.stat) _ _ (λ _. inl refl)
      (λ _.
        if_elim (Outcome p cur) (leb max_bytes cur) _ _ (λ _. inl refl)
          (λ small.
            if_elim (Outcome p cur) (not (host_has p.host_avail (next - cur))) _ _ (λ _. inl refl)
              (λ room.
                if_elim (Outcome p cur) (not p.truncate) _ _ (λ _. inl refl)
                  (λ _.
                    let sizes = next_volume_size_lem cur (ground (arith, small)) in
                    inr (
                      sizes.0,
                      sizes.1,
                      of_not-false (host_has p.host_avail (next - cur)) room,
                      finish-skipped p,
                    )))))

abbrev Told : Floats → Probe → ℕ → Grown × ℕ → Type 0
Told f p cur out = (out.1 ≡ cur) ⊎ Enlarged f p cur out.1 out.0

told :
    (f : Floats) (p : Probe) (cur : ℕ) (d : Option (Option DfLine))
    → p.df ≡ d
    → Told f p cur (elim d [
      | none ↦ (Grown.failed GrowError.df_failed, cur)
      | some none ↦ (skipped, cur)
      | some (some line) ↦ if wants_growth f line then enlarge p cur else (skipped, cur)
    ])
told f p cur none e = inl refl
told f p cur (some none) e = inl refl
told f p cur (some (some line)) e =
    if_elim (Told f p cur) (wants_growth f line) _ _
      (λ w. elim (enlarge-Outcome p cur) [
        | inl same ↦ inl same
        | inr (l, b, r, c) ↦ inr (record {
          line = line;
          answered = e;
          wanted = w;
          larger = l;
          bounded = b;
          room = r;
          counted = c;
        })
      ])
      (λ _. inl refl)

-- An attempt leaves the image as it was, or it enlarges it: then the guest reported a data device at
-- 80 % or more, the new size is at most 100 GiB, the host keeps its reserve where it can be asked, and
-- the attempt does not count as skipped.
pub auto_grow_one_lem :
    (f : Floats) (p : Probe) (cur : ℕ)
    → ((auto_grow_one f p cur).1 ≡ cur)
      ⊎ Enlarged f p cur (auto_grow_one f p cur).1 (auto_grow_one f p cur).0
unfolding auto_grow_one
auto_grow_one_lem f p cur =
    if_elim (Told f p cur) (not p.guest_client) _ _ (λ _. inl refl) (λ _. told f p cur p.df refl)
