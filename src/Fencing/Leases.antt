-- ===== src/Fencing/Leases.antt =====
-- db_fencing.go: the leases on archives, that keep the pruner away. The clock of Postgres is the
-- argument `now`, in seconds; a statement may fail.
use pandastack_ai.Common.{
  ℕ, ◌+◌, ◌<◌, ◌≤◌, ◌≡◌, ◌⊎◌, refl, inl, inr, Bool, true, false, not, ◌&&◌, ◌||◌, List, [], ◌∷◌,
  Text, text_eq, text_eq_refl, ltb, if◌then◌else◌, if_elim, arith,
}

pub record Lease : Type 0 where
  pub db_id : Text
  pub holder : Text
  pub purpose : Text
  pub expires_at : ℕ

abbrev pub Leases : Type 0
Leases = List Lease

-- DELETE … WHERE
abbrev pub delete_where : (Lease → Bool) → Leases → Leases
delete_where p [] = []
delete_where p (l ∷ ls) = let rest = delete_where p ls in if p l then rest else l ∷ rest

-- The first component is the error.
unfoldable pub acquire_archive_lease :
    Bool → Bool → ℕ → Text → Text → Text → ℕ → Leases → Bool × Leases
acquire_archive_lease connected fails now id holder purpose ttl ls =
    if not connected
    then (false, ls)
    else (if fails then (true, ls) else (
      false,
      record { db_id = id; holder = holder; purpose = purpose; expires_at = now + ttl } ∷ ls,
    ))

unfoldable pub release_archive_lease : Bool → Bool → Text → Text → Leases → Leases
release_archive_lease connected fails id holder ls =
    if not connected || fails
    then ls
    else delete_where (λ l. text_eq l.db_id id && text_eq l.holder holder) ls

abbrev pub live_lease : ℕ → Text → Leases → Bool
live_lease now id [] = false
live_lease now id (l ∷ ls) = (text_eq l.db_id id && ltb now l.expires_at) || live_lease now id ls

-- An error of the query that is not "no rows" counts as a lease.
unfoldable pub archive_lease_active : Bool → Bool → ℕ → Text → Leases → Bool
archive_lease_active connected fails now id ls =
    if not connected then false else (if fails then true else live_lease now id ls)

-- `expires_at < now() - interval '1 hour'`
unfoldable pub expire_archive_leases : Bool → Bool → ℕ → Leases → Leases
expire_archive_leases connected fails now ls =
    if not connected || fails then ls else delete_where (λ l. ltb (l.expires_at + 3600) now) ls

-- What other actors do to the table, at a time.
pub data Act : Type 0 where
  acquires : Bool → Text → Text → Text → ℕ → Act
  releases : Bool → Text → Text → Act
  expires : Bool → Act

abbrev pub act : ℕ → Act → Leases → Leases
act now (acquires fails id holder purpose ttl) ls =
    (acquire_archive_lease true fails now id holder purpose ttl ls).1
act now (releases fails id holder) ls = release_archive_lease true fails id holder ls
act now (expires fails) ls = expire_archive_leases true fails now ls

abbrev pub acts : List (ℕ × Act) → Leases → Leases
acts [] ls = ls
acts ((now, a) ∷ rest) ls = acts rest (act now a ls)

-- No act releases the leases that `holder` has on `id`, and none is later than `until`.
abbrev pub Foreign : Text → Text → ℕ → List (ℕ × Act) → Type 0
Foreign id holder until [] = Unit
Foreign id holder until ((now, releases fails k h) ∷ rest) =
    ((text_eq id k && text_eq holder h) ≡ false) × (now ≤ until) × Foreign id holder until rest
Foreign id holder until ((now, a) ∷ rest) = (now ≤ until) × Foreign id holder until rest

-- A lease of the holder that runs past `until` stands in the table.
abbrev Stands : Text → Text → ℕ → Leases → Type 0
Stands id holder until [] = ⊥
Stands id holder until (l ∷ ls) =
    ((l.db_id ≡ id) × (l.holder ≡ holder) × (until < l.expires_at)) ⊎ Stands id holder until ls

delete-Stands :
    (id holder : Text) (until : ℕ) (p : Lease → Bool) (ls : Leases)
    → ((l : Lease) → l.db_id ≡ id → l.holder ≡ holder → until < l.expires_at → p l ≡ false)
    → Stands id holder until ls
    → Stands id holder until (delete_where p ls)
delete-Stands id holder until p [] keep s = s
delete-Stands id holder until p (l ∷ ls) keep (inl (d, h, e)) =
    if_elim (Stands id holder until) (p l) _ _ (λ gone. absurd (ground (arith, gone, keep l d h e)))
      (λ _. inl (d, h, e))
delete-Stands id holder until p (l ∷ ls) keep (inr s) =
    let rest = delete-Stands id holder until p ls keep s in
    if_elim (Stands id holder until) (p l) _ _ (λ _. rest) (λ _. inr rest)

act-Stands :
    (id holder : Text) (until now : ℕ) (a : Act) (ls : Leases)
    → Foreign id holder until ((now, a) ∷ [])
    → Stands id holder until ls
    → Stands id holder until (act now a ls)
unfolding acquire_archive_lease release_archive_lease expire_archive_leases
act-Stands id holder until now (acquires fails k h purpose ttl) ls f s =
    if_elim (λ (r : Bool × Leases). Stands id holder until r.1) fails _ _ (λ _. s) (λ _. inr s)
act-Stands id holder until now (releases fails k h) ls f s =
    if_elim (Stands id holder until) fails _ _ (λ _. s)
      (λ _. delete-Stands id holder until _ ls (λ l d e _. rw (d, e) f.0) s)
act-Stands id holder until now (expires fails) ls f s =
    if_elim (Stands id holder until) fails _ _ (λ _. s)
      (λ _. delete-Stands id holder until _ ls (λ l _ _ e. ground (arith, f.0, e)) s)

acts-Stands :
    (id holder : Text) (until : ℕ) (as_made : List (ℕ × Act)) (ls : Leases)
    → Foreign id holder until as_made
    → Stands id holder until ls
    → Stands id holder until (acts as_made ls)
acts-Stands id holder until [] ls f s = s
acts-Stands id holder until ((now, acquires fails k h p ttl) ∷ rest) ls f s =
    acts-Stands id holder until rest _ f.1
      (act-Stands id holder until now (acquires fails k h p ttl) ls (f.0, tt) s)
acts-Stands id holder until ((now, releases fails k h) ∷ rest) ls f s =
    acts-Stands id holder until rest _ f.2
      (act-Stands id holder until now (releases fails k h) ls (f.0, f.1, tt) s)
acts-Stands id holder until ((now, expires fails) ∷ rest) ls f s =
    acts-Stands id holder until rest _ f.1
      (act-Stands id holder until now (expires fails) ls (f.0, tt) s)

Stands-live :
    (id holder : Text) (until : ℕ) (ls : Leases)
    → Stands id holder until ls
    → live_lease until id ls ≡ true
Stands-live id holder until [] s = elim s [ ]
Stands-live id holder until (l ∷ ls) (inl (d, h, e)) = ground (arith, d, text_eq_refl id, e)
Stands-live id holder until (l ∷ ls) (inr s) = ground (arith, Stands-live id holder until ls s)

-- An archive whose lease was granted is seen as leased by every check until the lease ends, whatever
-- other actors acquire, release or expire meanwhile, and also where the check itself fails: only the
-- holder's own release of that archive ends it early.
pub archive_lease_active_lem :
    (id holder purpose : Text) (start ttl until : ℕ) (as_made : List (ℕ × Act)) (check_fails : Bool)
    (ls : Leases)
    → until < start + ttl
    → Foreign id holder until as_made
    → archive_lease_active true check_fails until id
        (acts as_made (acquire_archive_lease true false start id holder purpose ttl ls).1)
      ≡ true
unfolding archive_lease_active acquire_archive_lease
archive_lease_active_lem id holder purpose start ttl until as_made check_fails ls h f =
    if_elim (λ b. b ≡ true) check_fails _ _ (λ _. refl)
      (λ _.
        Stands-live id holder until _
          (acts-Stands id holder until as_made _ f (inl (refl, refl, h))))
