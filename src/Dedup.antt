-- ===== src/Dedup.antt =====
-- The window of event ids, `EventDedup` of aegis-brain/app/services/event_dedup.py. The
-- `OrderedDict` is the list of its keys, the oldest first; its values are always `True`. The lock
-- makes each call one step.
pub mod History
pub mod Shared
use aegis_ecosystem.Prelude.{
  ℕ, ◌+◌, Bool, true, false, Option, none, some, List, [], ◌∷◌, ◌++◌, Text, length, member, without,
  ltb, if◌then◌else◌, eq_text, eq_pair,
}

-- `(str(agent_id), str(event_id))`
abbrev pub Key : Type 0
Key = Text × Text

pub record EventDedup : Type 0 where
  pub capacity : ℕ
  pub seen : List Key
  pub accepted : ℕ
  pub duplicates : ℕ

unfoldable pub init : ℕ → EventDedup
init capacity = record { capacity = capacity; seen = []; accepted = 0; duplicates = 0 }

-- `while len(self._seen) > self._capacity: self._seen.popitem(last=False)`
unfoldable pub evict : ℕ → List Key → List Key
evict capacity [] = []
evict capacity (k ∷ ks) =
    let rest = evict capacity ks in if ltb capacity (length (k ∷ ks)) then rest else k ∷ ks

-- `self._seen.move_to_end(key)`
unfoldable pub move_to_end : Key → List Key → List Key
move_to_end k ks = without k ks ++ k ∷ []

-- What `check` does with an event that has an id, under the lock.
unfoldable pub judge : EventDedup → Key → EventDedup × Bool
unfolding evict move_to_end
judge d key =
    if member key d.seen
    then (record d { duplicates = d.duplicates + 1; seen = move_to_end key d.seen }, true)
    else (
      record d { accepted = d.accepted + 1; seen = evict d.capacity (d.seen ++ key ∷ []) },
      false,
    )

unfoldable pub check : EventDedup → Text → Option Text → EventDedup × Bool
unfolding judge
check d agent none = (d, false)
check d agent (some []) = (d, false)
check d agent (some (c ∷ s)) = judge d (agent, c ∷ s)

pub record Snapshot : Type 0 where
  pub accepted : ℕ
  pub duplicates : ℕ
  pub window : ℕ

unfoldable pub snapshot : EventDedup → Snapshot
snapshot d = record { accepted = d.accepted; duplicates = d.duplicates; window = length d.seen }
