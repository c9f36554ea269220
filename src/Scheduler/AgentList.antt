-- ===== src/Scheduler/AgentList.antt =====
-- `List` of scheduler.go: the live agents, cached for `cacheTTL` (0 for a disabled cache). The
-- agents table is a parameter; times are nanoseconds.
use pandastack_ai.Common.{
  ℕ, ◌-◌, ◌<◌, ◌≡◌, refl, sym, ap, ◌∙◌, subst, inl, inr, ◌⊎◌, Bool, true, false, ◌&&◌, Option, none,
  some, List, [], ◌∷◌, ltb, Bool-cases, if◌then◌else◌, arith,
}
use pandastack_ai.Scheduler.Data.{Agent}

-- The query fails, or yields rows that `scanAgent` reads or not, and the error of the iteration.
pub data Answer : Type 0 where
  query_failed : Answer
  rows : List (Option Agent) → Bool → Answer

pub data ListError : Type 0 where
  query_error scan_error rows_error : ListError

pub data Listed : Type 0 where
  listed : List Agent → Listed
  list_err : ListError → Listed

-- `cache` is none where the Go slice is nil.
pub record ListCache : Type 0 where
  pub cache : Option (List Agent)
  pub cached_at : ℕ

abbrev pub new_cache : ListCache
new_cache = record { cache = none; cached_at = 0 }

abbrev pub push : Option Agent → Option (List Agent) → Option (List Agent)
push none rest = none
push (some a) none = none
push (some a) (some rest) = some (a ∷ rest)

unfoldable pub scan_rows : List (Option Agent) → Option (List Agent)
scan_rows [] = some []
scan_rows (r ∷ rs) = push r (scan_rows rs)

abbrev pub gather : Option (List Agent) → Bool → Listed
gather none failed = list_err scan_error
gather (some out) true = list_err rows_error
gather (some out) false = listed out

unfoldable pub ask : Answer → Listed
unfolding scan_rows
ask query_failed = list_err query_error
ask (rows rs failed) = gather (scan_rows rs) failed

-- A slice that no row was appended to stays nil.
abbrev pub slice_of : List Agent → Option (List Agent)
slice_of [] = none
slice_of (a ∷ out) = some (a ∷ out)

abbrev pub keep : ℕ → ℕ → Listed → ListCache → Listed × ListCache
keep ttl later (list_err e) st = (list_err e, st)
keep ttl later (listed out) st =
    (listed out, if ltb 0 ttl then record { cache = slice_of out; cached_at = later } else st)

abbrev pub serve : Option (List Agent) → Listed × ListCache → ListCache → Listed × ListCache
serve none miss st = miss
serve (some out) miss st = (listed out, st)

-- `now` is the time of the test, `later` the time at which the answer is kept.
unfoldable pub list_agents : ℕ → ℕ → ℕ → Answer → ListCache → Listed × ListCache
unfolding ask
list_agents ttl now later db st =
    let miss = keep ttl later (ask db) st in
    if ltb 0 ttl && ltb (now - st.cached_at) ttl then serve st.cache miss st else miss

-- Calls of `List`, the latest first: the times of the two clock readings and what the database
-- would answer.
pub record Tick : Type 0 where
  pub now : ℕ
  pub later : ℕ
  pub db : Answer

unfoldable pub after : ℕ → List Tick → ListCache
after ttl [] = new_cache
after ttl (t ∷ ts) = (list_agents ttl t.now t.later t.db (after ttl ts)).1

-- One of the calls answered the agents `out`, as the database did, and ended at `at`.
pub data Asked (ttl : ℕ) (out : List Agent) (at : ℕ) : List Tick → Type 0 where
  latest :
      (t : Tick) (ts : List Tick)
      → ask t.db ≡ listed out
      → (list_agents ttl t.now t.later t.db (after ttl ts)).0 ≡ listed out
      → t.later ≡ at
      → Asked ttl out at (t ∷ ts)
  earlier : (t : Tick) (ts : List Tick) → Asked ttl out at ts → Asked ttl out at (t ∷ ts)

keep-cache :
    (ttl later : ℕ) (r : Listed) (st : ListCache) (out : List Agent)
    → (keep ttl later r st).1.cache ≡ some out
    → ((r ≡ listed out) × ((keep ttl later r st).1.cached_at ≡ later))
      ⊎ ((st.cache ≡ some out) × ((keep ttl later r st).1.cached_at ≡ st.cached_at))
keep-cache ttl later (list_err e) st out h = inr (h, refl)
keep-cache ttl later (listed []) st out h = ground arith
keep-cache ttl later (listed (a ∷ xs)) st out h = ground arith

-- The two ways a call answers: from a fresh cache, or from the database.
list_agents-cases :
    (ttl now later : ℕ) (db : Answer) (st : ListCache)
    → (list_agents ttl now later db st ≡ keep ttl later (ask db) st)
      ⊎ ((out : List Agent) × (st.cache ≡ some out)
          × (now - st.cached_at < ttl)
          × (list_agents ttl now later db st ≡ (listed out, st)))
unfolding list_agents
list_agents-cases ttl now later db st =
    go st.cache (Bool-cases (ltb 0 ttl && ltb (now - st.cached_at) ttl)) refl
  where
    go :
        (c : Option (List Agent))
        → ((ltb 0 ttl && ltb (now - st.cached_at) ttl) ≡ true)
          ⊎ ((ltb 0 ttl && ltb (now - st.cached_at) ttl) ≡ false)
        → st.cache ≡ c
        → (list_agents ttl now later db st ≡ keep ttl later (ask db) st)
          ⊎ ((out : List Agent) × (st.cache ≡ some out)
              × (now - st.cached_at < ttl)
              × (list_agents ttl now later db st ≡ (listed out, st)))
    go c (inr e) h = inl (rw e refl)
    go none (inl e) h = inl (rw (e, h) refl)
    go (some out) (inl e) h = inr (out, h, ground arith, rw (e, h) refl)

-- What the cache holds was asked for.
after-Asked :
    (ttl : ℕ) (ts : List Tick) (out : List Agent)
    → (after ttl ts).cache ≡ some out
    → Asked ttl out ((after ttl ts).cached_at) ts
unfolding after
after-Asked ttl [] out h = absurd cc
after-Asked ttl (t ∷ ts) out h =
    let st = after ttl ts in
    elim (list_agents-cases ttl t.now t.later t.db st) [
      | inl e ↦
          let kept = ap (λ p. p.1.cached_at) e in
          elim (keep-cache ttl t.later (ask t.db) st out (ap (λ p. p.1.cache) (sym e) ∙ h)) [
            | inl (a, l) ↦
                latest t ts a (ap (λ p. p.0) e ∙ ap (λ q. (keep ttl t.later q st).0) a)
                  (sym (kept ∙ l))
            | inr (c, l) ↦
                subst (λ at. Asked ttl out at (t ∷ ts)) (sym (kept ∙ l))
                  (earlier t ts (after-Asked ttl ts out c))
          ]
      | inr (xs, c, young, e) ↦
          subst (λ at. Asked ttl out at (t ∷ ts)) (sym (ap (λ p. p.1.cached_at) e))
            (earlier t ts (after-Asked ttl ts out (ap (λ p. p.1.cache) (sym e) ∙ h)))
    ]

keep-answer :
    (ttl later : ℕ) (r : Listed) (st : ListCache) (out : List Agent)
    → (keep ttl later r st).0 ≡ listed out
    → r ≡ listed out
keep-answer ttl later (list_err e) st out h = h
keep-answer ttl later (listed xs) st out h = h

-- However calls follow each other, agents that `List` answers are what the database answers to
-- this call, or what the database and `List` answered to an earlier call, less than `cacheTTL` ago.
pub list_agents-fresh :
    (ttl now later : ℕ) (db : Answer) (ts : List Tick) (out : List Agent)
    → (list_agents ttl now later db (after ttl ts)).0 ≡ listed out
    → (ask db ≡ listed out) ⊎ ((at : ℕ) × Asked ttl out at ts × (now - at < ttl))
list_agents-fresh ttl now later db ts out h =
    elim (list_agents-cases ttl now later db (after ttl ts)) [
      | inl e ↦ inl (keep-answer ttl later (ask db) (after ttl ts) out (ap (λ p. p.0) (sym e) ∙ h))
      | inr (xs, c, young, e) ↦
          let same : xs ≡ out = cc in
          inr ((after ttl ts).cached_at, after-Asked ttl ts out (c ∙ ap some same), young)
    ]
