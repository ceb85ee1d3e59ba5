-- ===== src/Redis/Queues.antt =====
-- The commands of the server that the consumer of events calls on lists. `items` gives the items of a
-- key from the left end to the right one. A call that raises is `none`, and leaves the server as it
-- was; an empty source is the answer `none` inside.
pub mod Moves
pub mod Memory
use aegis_ecosystem.Prelude.{
  ℕ, suc, ◌≡◌, false, Option, none, some, List, [], ◌∷◌, ◌++◌, Text, take, if◌then◌else◌, ◌==◌,
  eq_text,
}

-- the list without its first copy of a value
unfoldable pub remove_first : Text → List Text → List Text
remove_first a [] = []
remove_first a (x ∷ xs) = let rest = remove_first a xs in if x == a then xs else x ∷ rest

-- What an answer of a move between two keys says of the items before and after it: the last item of
-- the source becomes the first of the target.
abbrev pub Moves : List Text → List Text → Option Text → List Text → List Text → Type 0
Moves from to none from' to' = (from ≡ []) × (from' ≡ from) × (to' ≡ to)
Moves from to (some x) from' to' = (from ≡ from' ++ x ∷ []) × (to' ≡ x ∷ to)

pub record RedisQueues : Type 1 where
  pub Store : Type 0
  pub items : Store → Text → List Text
  pub rpoplpush : Store → Text → Text → Option (Option Text × Store)
  pub brpoplpush : Store → Text → Text → Option (Option Text × Store)
  pub lpush : Store → Text → Text → Option Store
  pub lrem : Store → Text → Text → Option Store
  pub ltrim : Store → Text → ℕ → Option Store
  pub llen : Store → Text → Option ℕ
  pub rpoplpush_moves :
      (s s' : Store) (from to : Text) (r : Option Text)
      → (from == to) ≡ false
      → rpoplpush s from to ≡ some (r, s')
      → Moves (items s from) (items s to) r (items s' from) (items s' to)
        × ((j : Text) → (from == j) ≡ false → (to == j) ≡ false → items s' j ≡ items s j)
  pub brpoplpush_moves :
      (s s' : Store) (from to : Text) (r : Option Text)
      → (from == to) ≡ false
      → brpoplpush s from to ≡ some (r, s')
      → Moves (items s from) (items s to) r (items s' from) (items s' to)
        × ((j : Text) → (from == j) ≡ false → (to == j) ≡ false → items s' j ≡ items s j)
  pub lpush_writes :
      (s s' : Store) (k j a : Text)
      → lpush s k a ≡ some s'
      → items s' j ≡ (if k == j then a ∷ items s k else items s j)
  pub lrem_writes :
      (s s' : Store) (k j a : Text)
      → lrem s k a ≡ some s'
      → items s' j ≡ (if k == j then remove_first a (items s k) else items s j)
  pub ltrim_writes :
      (s s' : Store) (k j : Text) (stop : ℕ)
      → ltrim s k stop ≡ some s'
      → items s' j ≡ (if k == j then take (suc stop) (items s k) else items s j)

-- Whether the server answers every command.
pub record IsAnswering (queues : RedisQueues) : Type 0 where
  pub rpoplpush_answers :
      (s : queues.Store) (from to : Text)
      → (a : Option Text × queues.Store) × (queues.rpoplpush s from to ≡ some a)
  pub brpoplpush_answers :
      (s : queues.Store) (from to : Text)
      → (a : Option Text × queues.Store) × (queues.brpoplpush s from to ≡ some a)
  pub lpush_answers :
      (s : queues.Store) (k a : Text) → (s' : queues.Store) × (queues.lpush s k a ≡ some s')
  pub lrem_answers :
      (s : queues.Store) (k a : Text) → (s' : queues.Store) × (queues.lrem s k a ≡ some s')
  pub ltrim_answers :
      (s : queues.Store) (k : Text) (stop : ℕ)
      → (s' : queues.Store) × (queues.ltrim s k stop ≡ some s')
  pub llen_answers : (s : queues.Store) (k : Text) → (n : ℕ) × (queues.llen s k ≡ some n)
