-- ===== src/Stream/Egress.antt =====
-- agent/internal/diskstream/govsource.go: the egress governor. Byte counts are far below 2^63. The
-- upstream source, the clock and the floats are parameters; a read is its two critical sections, with
-- the wait and the fetch between them.
use pandastack_ai.Common.{
  ℕ, ◌+◌, ◌<◌, ◌≤◌, ◌≡◌, Bool, true, false, not, ◌&&◌, Option, none, some, List, [], ◌∷◌, ◌++◌,
  length, if◌then◌else◌,
}
use pandastack_ai.Common.Int.{ℤ, pos, negsuc, ltb_ℤ}
use pandastack_ai.Scheduler.Data.{Floats, positive}

-- `DefaultChunkSize`
abbrev pub default_chunk_size : ℕ
default_chunk_size = 1048576

pub record GovConfig (f : Floats) : Type 0 where
  pub rate_bytes_per_sec : f.Float
  pub burst_bytes : f.Float
  pub hard_cap_bytes : ℤ
  pub soft_cap_bytes : ℤ

pub record Gov (f : Floats) : Type 0 where
  pub rate_bps : f.Float
  pub burst : f.Float
  pub tokens : f.Float
  pub last : ℕ
  pub lifetime : ℕ
  pub hard_cap : ℤ
  pub soft_cap : ℤ
  pub throttled : Bool
  pub fetched : ℕ
  pub cap_hits : ℕ

-- The read is refused, or waits for a time (none for no wait).
pub data Began : Type 0 where
  over_cap : Began
  waits : Option ℤ → Began

module _ (f : Floats) where
  abbrev pub zero_f : f.Float
  zero_f = f.of_int (pos 0)

  abbrev pub negate : f.Float → f.Float
  negate x = f.mul x (f.of_int (negsuc 0))

  -- `NewGovSource`, at the time `now`.
  unfoldable pub new_gov_source : GovConfig f → ℕ → Gov f
  new_gov_source cfg now =
      let chunk = f.of_int (pos default_chunk_size) in
      let rate = cfg.rate_bytes_per_sec in
      let burst =
        (if f.less zero_f cfg.burst_bytes
          then cfg.burst_bytes
          else (if f.less rate chunk then chunk else rate)) in
      record {
        rate_bps = rate;
        burst = burst;
        tokens = burst;
        last = now;
        lifetime = 0;
        hard_cap = cfg.hard_cap_bytes;
        soft_cap = cfg.soft_cap_bytes;
        throttled = false;
        fetched = 0;
        cap_hits = 0;
      }

  abbrev pub lesser : f.Float → f.Float → f.Float
  lesser x y = if f.less y x then y else x

  -- The tokens after the time that has passed; `seconds` is `now.Sub(g.last).Seconds()`.
  abbrev pub refill : f.Float → ℕ → Gov f → Gov f
  refill seconds now g =
      if f.less zero_f seconds
      then record g {
        tokens = lesser (f.add g.tokens (f.mul seconds g.rate_bps)) g.burst;
        last = now;
      }
      else g

  abbrev pub take_tokens : f.Float → Gov f → Option ℤ × Gov f
  take_tokens n g =
      let left = f.add g.tokens (negate n) in
      (
        if f.less left zero_f
            then some
                (f.truncate (f.mul (f.div (negate left) g.rate_bps) (f.of_int (pos 1000000000))))
            else none,
        record g { tokens = left },
      )

  -- No rate that is positive is no limit.
  unfoldable pub reserve_locked : f.Float → ℕ → ℕ → Gov f → Option ℤ × Gov f
  reserve_locked seconds now n g =
      if f.less zero_f g.rate_bps
      then take_tokens (f.of_int (pos n)) (refill seconds now g)
      else (none, g)

  abbrev pub warn : ℕ → Gov f → Gov f
  warn n g =
      if positive g.soft_cap && (not g.throttled && ltb_ℤ g.soft_cap (pos (g.lifetime + n)))
      then record g { throttled = true }
      else g

  -- The first critical section of `ReadAt`, for `n` bytes, above 0.
  unfoldable pub begin_read : f.Float → ℕ → ℕ → Gov f → Began × Gov f
  unfolding reserve_locked
  begin_read seconds now n g =
      if positive g.hard_cap && ltb_ℤ g.hard_cap (pos (g.lifetime + n))
      then (over_cap, record g { cap_hits = g.cap_hits + 1 })
      else (let (wait, g') = reserve_locked seconds now n (warn n g) in (waits wait, g'))

  -- The second one: `read` bytes came, or the wait was cut short or the fetch failed.
  unfoldable pub finish_read : Option ℕ → Gov f → Gov f
  finish_read none g = g
  finish_read (some read) g = record g { lifetime = g.lifetime + read; fetched = g.fetched + read }

  -- The reads between their sections, by their lengths.
  pub record Flight : Type 0 where
    pub gov : Gov f
    pub pending : List ℕ

  abbrev pub total : List ℕ → ℕ
  total [] = 0
  total (n ∷ ns) = n + total ns

  -- At most `k` reads at once, of `m` bytes at most; a source gives no more than was asked for.
  pub data GovStep (k m : ℕ) : Flight → Flight → Type 0 where
    begins :
        (s : Flight) (seconds : f.Float) (now n : ℕ) (wait : Option ℤ)
        → length s.pending < k
        → n ≤ m
        → (begin_read seconds now n s.gov).0 ≡ waits wait
        → GovStep k m s
            (record { gov = (begin_read seconds now n s.gov).1; pending = n ∷ s.pending })
    is_refused :
        (s : Flight) (seconds : f.Float) (now n : ℕ)
        → (begin_read seconds now n s.gov).0 ≡ over_cap
        → GovStep k m s (record { gov = (begin_read seconds now n s.gov).1; pending = s.pending })
    finishes :
        (g : Gov f) (before after : List ℕ) (n read : ℕ)
        → read ≤ n
        → GovStep k m
            (record { gov = g; pending = before ++ (n ∷ after) })
            (record { gov = finish_read (some read) g; pending = before ++ after })
    fails :
        (g : Gov f) (before after : List ℕ) (n : ℕ)
        → GovStep k m
            (record { gov = g; pending = before ++ (n ∷ after) })
            (record { gov = finish_read none g; pending = before ++ after })

  pub data GovReach (k m : ℕ) : Flight → Flight → Type 0 where
    here : (s : Flight) → GovReach k m s s
    there : {s t u : Flight} → GovReach k m s t → GovStep k m t u → GovReach k m s u
