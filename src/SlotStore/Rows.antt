-- ===== src/SlotStore/Rows.antt =====
-- The table `network_slots` and the SQL statements over it.
use pandastack_ai.Common.{
  ℕ, suc, Bool, true, false, Option, none, some, List, [], ◌∷◌, Text, text_eq, min, ltb, ◌==◌,
  if◌then◌else◌,
}

pub record Slot : Type 0 where
  pub idx : ℕ
  pub sandbox_id : Option Text
  pub kind : Text
  pub claimed_at : Option ℕ

abbrev pub Table : Type 0
Table = List Slot

-- `sandbox_id IS NULL`
unfoldable pub is_free : Slot → Bool
is_free r = elim r.sandbox_id [ none ↦ true | some _ ↦ false ]

-- `sandbox_id = ?`
unfoldable pub owned_by : Text → Slot → Bool
owned_by id r = elim r.sandbox_id [ none ↦ false | some o ↦ text_eq o id ]

-- SELECT idx … WHERE sandbox_id=?
unfoldable pub select_owned : Text → Table → Option ℕ
unfolding owned_by
select_owned id [] = none
select_owned id (r ∷ t) = if owned_by id r then some r.idx else select_owned id t

abbrev least : ℕ → Option ℕ → ℕ
least i none = i
least i (some j) = min i j

-- SELECT idx … WHERE sandbox_id IS NULL ORDER BY idx LIMIT 1
unfoldable pub select_free : Table → Option ℕ
unfolding is_free
select_free [] = none
select_free (r ∷ t) =
    let rest = select_free t in if is_free r then some (least r.idx rest) else rest

-- SET sandbox_id=?, kind=?, claimed_at=strftime('%s','now')
abbrev pub set_owner : Text → Text → ℕ → Slot → Slot
set_owner id kind now r = record {
  idx = r.idx;
  sandbox_id = some id;
  kind = kind;
  claimed_at = some now;
}

-- SET sandbox_id=NULL, kind='', claimed_at=NULL
abbrev pub clear : Slot → Slot
clear r = record { idx = r.idx; sandbox_id = none; kind = []; claimed_at = none }

-- UPDATE … SET f WHERE p, with the number of rows affected.
unfoldable pub update : (Slot → Bool) → (Slot → Slot) → Table → Table × ℕ
update p f [] = ([], 0)
update p f (r ∷ t) = let (t', n) = update p f t in if p r then (f r ∷ t', suc n) else (r ∷ t', n)

abbrev free_slot : ℕ → Slot
free_slot i = record { idx = i; sandbox_id = none; kind = []; claimed_at = none }

-- INSERT OR IGNORE of a free row, in the order of the primary key.
unfoldable pub insert_or_ignore : ℕ → Table → Table
insert_or_ignore i [] = free_slot i ∷ []
insert_or_ignore i (r ∷ t) =
    if i == r.idx
    then r ∷ t
    else if ltb i r.idx
    then free_slot i ∷ r ∷ t
    else r ∷ insert_or_ignore i t

-- COUNT(*) FILTER (WHERE sandbox_id IS NULL)
unfoldable pub count_free : Table → ℕ
unfolding is_free
count_free [] = 0
count_free (r ∷ t) = let n = count_free t in if is_free r then suc n else n
