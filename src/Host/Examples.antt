-- ===== src/Host/Examples.antt =====
-- Runs of the limits of a host on small inputs, where the hypotheses of their theorems hold.
use pandastack_ai.Common.{
  ℕ, ◌+◌, ◌*◌, ◌^◌, ◌^◌, ◌≤◌, ◌≡◌, ◌⊎◌, refl, true, false, Option, none, some, List, [], ◌∷◌, Text,
  codes, Text-discrete, text_eq, if◌then◌else◌, arith,
}
use pandastack_ai.Common.Int.{pos, ◌-ℤ◌, ◌+ℤ◌}
use pandastack_ai.Scheduler.Data.{Capacity, volume_headroom_bytes, volume_free_reserve_bytes}
use pandastack_ai.Scheduler.Examples.{numbers}
use pandastack_ai.Host.Headroom.{headroom_decision, reported, admitted, headroom-headroom}
use pandastack_ai.Host.Growth.{Probe, auto_grow_one}
use pandastack_ai.Host.Grown.{Enlarged, auto_grow_one_lem}
use pandastack_ai.Host.Sweep.{Sweeper, round, rounds, round-rounds}
use pandastack_ai.Host.Admission.{
  SandboxRow, sum_live_mem, admit_memory, has, row_of, fallback_mem_mb,
}
use pandastack_ai.Host.Packing.{
  Packed, packed_mem, here, there, creates, destroys, remove, PackReach-packed_mem,
}

abbrev half_full : Capacity
half_full = record {
  cpu_total = pos 8;
  cpu_used = pos 0;
  memory_mb = pos 100;
  memory_used = pos 0;
  sandboxes = pos 0;
  stream_restore_enabled = false;
  volume_provisioned_bytes = pos 10;
  volumes_fs_size_bytes = pos 100;
  volumes_fs_free_bytes = volume_free_reserve_bytes +ℤ pos 50;
  pool = [];
}

room_left : volume_headroom_bytes numbers half_full ≡ some (pos 20)
unfolding volume_headroom_bytes ◌-ℤ◌ ◌+ℤ◌
room_left = refl

headroom-headroom_example :
    headroom_decision numbers (reported numbers half_full (pos 5)) ≡ admitted
headroom-headroom_example =
    headroom-headroom numbers half_full (pos 5) (pos 20) room_left (omega arith) (omega arith)

-- A database volume at 90 of 100 blocks, on a host that can do all that is asked.
abbrev nearly_full : Probe
nearly_full = record {
  guest_client = true;
  df = some (some (record { device = codes "/dev/vdb"; size = pos 100; used = pos 90 }));
  stat = true;
  host_avail = some (2 ^ 50);
  truncate = true;
  driver = true;
  patch = true;
  resize = some 0;
}

auto_grow_one_lem_example :
    ((auto_grow_one numbers nearly_full (2 ^ 30)).1 ≡ 2 ^ 30)
    ⊎ Enlarged numbers nearly_full
        (2 ^ 30)
        (auto_grow_one numbers nearly_full (2 ^ 30)).1
        (auto_grow_one numbers nearly_full (2 ^ 30)).0
auto_grow_one_lem_example = auto_grow_one_lem numbers nearly_full (2 ^ 30)

abbrev db : Text
db = codes "db"

abbrev one_database : Sweeper
one_database = record {
  images = λ id. if text_eq id db then some (2 ^ 30) else none;
  last_grow = λ id. none;
}

-- Two more rounds, one and two minutes later.
abbrev later_rounds : List (ℕ × List (Text × Probe))
later_rounds =
    (1000 + 60 * 10 ^ 9, (db, nearly_full) ∷ [])
    ∷ (1000 + 120 * 10 ^ 9, (db, nearly_full) ∷ [])
    ∷ []

round-rounds_example :
    ((round numbers 1000 ((db, nearly_full) ∷ []) one_database).images db ≡ one_database.images db)
    ⊎ ((rounds numbers later_rounds
            (round numbers 1000 ((db, nearly_full) ∷ []) one_database)).images
          db
        ≡ (round numbers 1000 ((db, nearly_full) ∷ []) one_database).images db)
round-rounds_example =
    round-rounds numbers 1000 ((db, nearly_full) ∷ []) later_rounds db one_database
      (omega arith, (omega arith, tt))

-- One row with a size, one without, and a sandbox that has no row yet.
abbrev stored : List (Option SandboxRow)
stored =
    some (record { id = codes "a"; memory_mb = pos 512 })
    ∷ some (record { id = codes "b"; memory_mb = pos 0 })
    ∷ none
    ∷ []

abbrev idle : Packed
idle = record { rows = []; live = [] }

abbrev first : SandboxRow
first = record { id = codes "a"; memory_mb = pos 512 }

abbrev after_first : Packed
after_first = record { rows = some first ∷ []; live = codes "a" ∷ [] }

lets_in : admit_memory (pos 1024) (packed_mem idle) (pos 512) ≡ true
unfolding admit_memory sum_live_mem
lets_in = refl

nothing_used : packed_mem idle ≤ 1024
unfolding sum_live_mem
nothing_used = omega arith

-- A create without a size, which the gate admits.
abbrev second : SandboxRow
second = record { id = codes "b"; memory_mb = pos 0 }

lets_in_unsized : admit_memory (pos 1024) (packed_mem after_first) (pos 0) ≡ true
unfolding admit_memory sum_live_mem
lets_in_unsized = refl

second_new : has (codes "a" ∷ []) (codes "b") ≡ false
unfolding Text-discrete
second_new = refl

second_no_row : row_of (some first ∷ []) (codes "b") ≡ false
unfolding Text-discrete
second_no_row = refl

PackReach-packed_mem_example :
    packed_mem (record {
      rows = some second ∷ some first ∷ [];
      live = remove (codes "b" ∷ codes "a" ∷ []) (codes "a");
    })
    ≤ 1024 + 1 * fallback_mem_mb
PackReach-packed_mem_example = PackReach-packed_mem (pos 1024) refl nothing_used (
    there
      (there (there (here idle) (creates idle first refl refl lets_in))
        (creates after_first second second_new second_no_row lets_in_unsized))
      (destroys (record { rows = some second ∷ some first ∷ []; live = codes "b" ∷ codes "a" ∷ [] })
        (codes "a")))
