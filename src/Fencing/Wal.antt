-- ===== src/Fencing/Wal.antt =====
-- db_fencing.go: `countWALGaps` and the scrub of an archive. `strings.TrimSpace` and `sort.Slice` are
-- parameters.
use pandastack_ai.Common.{
  ℕ, ◌+◌, ◌-◌, ◌*◌, ◌%◌, ◌^◌, max, Bool, true, false, not, ◌&&◌, ◌||◌, ◌==◌, Option, none, some,
  List, [], ◌∷◌, Text, ltb, leb, length, take, drop, map, if◌then◌else◌,
}
use pandastack_ai.Common.Int.{ℤ, pos, ◌+ℤ◌}
use pandastack_ai.Scheduler.Data.{positive}
use pandastack_ai.Faults.{int64}

-- The value of an upper-case hexadecimal digit.
abbrev pub hex_value : ℕ → Option ℕ
hex_value c =
    if leb 48 c && leb c 57
    then some (c - 48)
    else (if leb 65 c && leb c 70 then some (c - 55) else none)

abbrev pub next_digit : Option ℕ → Option ℕ → Option ℕ
next_digit (some n) (some d) = some (n * 16 + d)
next_digit _ _ = none

-- `strconv.ParseUint(s, 16, 64)`, for such digits and at most 16 of them.
abbrev pub parse_hex : Option ℕ → Text → Option ℕ
parse_hex n [] = n
parse_hex n (c ∷ cs) = parse_hex (next_digit n (hex_value c)) cs

abbrev pub all_hex : Text → Bool
all_hex [] = true
all_hex (c ∷ cs) = let rest = all_hex cs in elim (hex_value c) [ none ↦ false | some _ ↦ rest ]

unfoldable pub is_full_wal_segment : (Text → Text) → Text → Bool
is_full_wal_segment trim name = let n = trim name in (length n == 24) && all_hex n

pub record Segment : Type 0 where
  pub tli : ℕ
  pub log : ℕ
  pub seg : ℕ

abbrev pub segment : Option ℕ → Option ℕ → Option ℕ → Option Segment
segment (some t) (some l) (some s) = some (record { tli = t; log = l; seg = s })
segment _ _ _ = none

unfoldable pub parse_segment : (Text → Text) → Text → Option Segment
unfolding is_full_wal_segment
parse_segment trim name =
    let n = trim name in
    if is_full_wal_segment trim name
    then segment (parse_hex (some 0) (take 8 n)) (parse_hex (some 0) (take 8 (drop 8 n)))
        (parse_hex (some 0) (take 8 (drop 16 n)))
    else none

abbrev pub keep_some : Option Segment → List Segment → List Segment
keep_some none rest = rest
keep_some (some s) rest = s ∷ rest

unfoldable pub parse_segments : (Text → Text) → List Text → List Segment
unfolding parse_segment
parse_segments trim [] = []
parse_segments trim (n ∷ ns) = keep_some (parse_segment trim n) (parse_segments trim ns)

abbrev pub max_tli : List Segment → ℕ
max_tli [] = 0
max_tli (s ∷ ss) = max s.tli (max_tli ss)

abbrev pub on_timeline : ℕ → List Segment → List (ℕ × ℕ)
on_timeline t [] = []
on_timeline t (s ∷ ss) =
    let rest = on_timeline t ss in if s.tli == t then (s.log, s.seg) ∷ rest else rest

-- The order that the sort is given.
abbrev pub seg_less : ℕ × ℕ → ℕ × ℕ → Bool
seg_less (l, s) (l', s') = if not (l == l') then ltb l l' else ltb s s'

-- `log*segsPerLog + seg`
abbrev pub seg_number : ℕ × ℕ → ℕ
seg_number (l, s) = l * 256 + s

-- `int(cur - prev - 1)` of two uint64, where they are neither equal nor consecutive.
abbrev pub gap : ℕ → ℕ → ℤ
gap prev cur =
    if cur == prev
    then pos 0
    else (if cur == prev + 1 then pos 0 else int64 ((cur + 2 ^ 64 - prev - 1) % 2 ^ 64))

abbrev pub sum_gaps : ℕ → List ℕ → ℤ
sum_gaps prev [] = pos 0
sum_gaps prev (cur ∷ rest) = gap prev cur +ℤ sum_gaps cur rest

abbrev pub gaps_of : List ℕ → ℤ
gaps_of [] = pos 0
gaps_of (n ∷ ns) = sum_gaps n ns

abbrev pub Sort : Type 0
Sort = (ℕ × ℕ → ℕ × ℕ → Bool) → List (ℕ × ℕ) → List (ℕ × ℕ)

-- The segments of the newest timeline.
unfoldable pub newest : (Text → Text) → List Text → List (ℕ × ℕ)
newest trim names = let all = parse_segments trim names in on_timeline (max_tli all) all

unfoldable pub count_wal_gaps : (Text → Text) → Sort → List Text → ℤ × ℕ
unfolding newest
count_wal_gaps trim sort names =
    let segs = sort seg_less (newest trim names) in (gaps_of (map seg_number segs), length segs)

-- The verdict of the scrub: the sizes are those of the base backups.
pub data Health : Type 0 where
  ok no_base zero_sized : Health
  wal_gap : ℤ → ℕ → Health

abbrev pub any_zero : List ℕ → Bool
any_zero [] = false
any_zero (n ∷ ns) = n == 0 || any_zero ns

unfoldable pub scrub_archive_health : (Text → Text) → Sort → List ℕ → List Text → Health
scrub_archive_health trim sort bases names =
    let (gaps, segs) = count_wal_gaps trim sort names in
    let zeros = any_zero bases in
    elim bases [
      | [] ↦ no_base
      | _ ∷ _ ↦ if positive gaps then wal_gap gaps segs else (if zeros then zero_sized else ok)
    ]
