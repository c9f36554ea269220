-- ===== src/Host/Growth.antt =====
-- volume_autogrow.go: one growth of the volume of a database. What the guest and the host answer is
-- the argument `Probe`; sizes are bytes, and `int64` is wide enough below the ceiling of 100 GiB.
use pandastack_ai.Common.{
  ℕ, ◌+◌, ◌-◌, ◌*◌, ◌/◌, ◌^◌, max, min, Bool, true, not, ◌&&◌, Option, none, some, List, [], ◌∷◌,
  Text, text_eq, codes, ltb, leb, ◌==◌, if◌then◌else◌, take, length,
}
use pandastack_ai.Common.Int.{ℤ}
use pandastack_ai.Scheduler.Data.{Floats, positive}

abbrev pub max_bytes : ℕ
max_bytes = 100 * 2 ^ 30

abbrev pub min_step_bytes : ℕ
min_step_bytes = 2 ^ 30

abbrev pub host_reserve_bytes : ℕ
host_reserve_bytes = 10 * 2 ^ 30

-- `(next + (1<<30) - 1) &^ ((1<<30) - 1)`
unfoldable pub next_volume_size : ℕ → ℕ
next_volume_size cur =
    let next = max (cur * 3 / 2) (cur + min_step_bytes) in
    min ((next + 2 ^ 30 - 1) / 2 ^ 30 * 2 ^ 30) max_bytes

-- `strings.HasPrefix`
abbrev pub has_prefix : Text → Text → Bool
has_prefix t p = text_eq (take (length p) t) p

pub record DfLine : Type 0 where
  pub device : Text
  pub size : ℤ
  pub used : ℤ

-- `parseDFLine`; `fields` splits at white space, `parse_int` is `strconv.ParseInt`.
unfoldable pub parse_df_line : (Text → List Text) → (Text → Option ℤ) → Text → Option DfLine
parse_df_line fields parse_int s = elim (fields s) [
  | d ∷ a ∷ b ∷ [] ↦ read d (parse_int a) (parse_int b)
  | _ ↦ none
]
  where
    read : Text → Option ℤ → Option ℤ → Option DfLine
    read d (some size) (some used) = some (record { device = d; size = size; used = used })
    read d _ _ = none

-- The answers to the calls of one attempt. `df` is none if the call in the guest fails, and then
-- none if its line cannot be read; `resize` is the exit code of resize2fs.
pub record Probe : Type 0 where
  pub guest_client : Bool
  pub df : Option (Option DfLine)
  pub stat : Bool
  pub host_avail : Option ℕ
  pub truncate : Bool
  pub driver : Bool
  pub patch : Bool
  pub resize : Option ℕ

pub data GrowError : Type 0 where
  no_client df_failed stat_failed host_low truncate_failed no_driver patch_failed : GrowError
  resize_failed resize_exit : GrowError

pub data Grown : Type 0 where
  skipped grew : Grown
  failed : GrowError → Grown

-- `fsSize > 0`, the device is a data device, and `fsUsed * 100 / fsSize >= 80`.
unfoldable pub wants_growth : Floats → DfLine → Bool
wants_growth f line =
    positive line.size
    && ((has_prefix line.device (codes "/dev/vd") && not (text_eq line.device (codes "/dev/vda")))
        && not (
            f.less (f.div (f.mul (f.of_int line.used) (f.decimal 100 0)) (f.of_int line.size))
              (f.decimal 80 0)))

-- The steps after the image was enlarged.
unfoldable pub finish_growth : Probe → Grown
finish_growth p =
    if not p.driver
    then failed no_driver
    else (if not p.patch then failed patch_failed else elim p.resize [
      | none ↦ failed resize_failed
      | some code ↦ if code == 0 then grew else failed resize_exit
    ])

-- The new size fits the host: a file system that cannot be asked is taken to have room.
abbrev pub host_has : Option ℕ → ℕ → Bool
host_has none need = true
host_has (some avail) need = not (ltb avail (need + host_reserve_bytes))

-- The second component is the size of the image afterwards.
unfoldable pub enlarge : Probe → ℕ → Grown × ℕ
unfolding finish_growth
enlarge p cur =
    if not p.stat
    then (failed stat_failed, cur)
    else (if leb max_bytes cur
        then (skipped, cur)
        else (if not (host_has p.host_avail (next_volume_size cur - cur))
            then (failed host_low, cur)
            else (if not p.truncate
                then (failed truncate_failed, cur)
                else (finish_growth p, next_volume_size cur))))

unfoldable pub auto_grow_one : Floats → Probe → ℕ → Grown × ℕ
unfolding enlarge
auto_grow_one f p cur =
    let tried = enlarge p cur in
    if not p.guest_client then (failed no_client, cur) else elim p.df [
      | none ↦ (failed df_failed, cur)
      | some none ↦ (skipped, cur)
      | some (some line) ↦ if wants_growth f line then tried else (skipped, cur)
    ]
