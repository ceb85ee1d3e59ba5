-- ===== src/Redis/Lists.antt =====
-- The list commands of the server: the items of a key, the oldest first, what `rpush` and
-- `ltrim(key, 0, stop)` make of them, and a server in memory. A call that raises is `none`.
pub mod Room
use aegis_ecosystem.Prelude.{
  ℕ, suc, ◌≡◌, refl, Option, none, some, List, [], ◌∷◌, ◌++◌, arith, Text, take, if◌then◌else◌,
  ◌==◌, eq_text,
}
use aegis_ecosystem.Prelude.Dict.{Dict, lookup, insert, lookup-insert}

pub record RedisLists (A : Type 0) : Type 1 where
  pub Store : Type 0
  pub items : Store → Text → List A
  pub rpush : Store → Text → A → Option Store
  pub ltrim : Store → Text → ℕ → Option Store
  pub rpush_writes :
      (s s' : Store) (k j : Text) (a : A)
      → rpush s k a ≡ some s'
      → items s' j ≡ (if k == j then items s k ++ a ∷ [] else items s j)
  pub ltrim_writes :
      (s s' : Store) (k j : Text) (stop : ℕ)
      → ltrim s k stop ≡ some s'
      → items s' j ≡ (if k == j then take (suc stop) (items s k) else items s j)

-- Every push and every cut answers.
abbrev pub Answers : {A : Type 0} → RedisLists A → Type 0
Answers {A} lists =
    ((s : lists.Store) (k : Text) (a : A) → (s' : lists.Store) × (lists.rpush s k a ≡ some s'))
    × ((s : lists.Store) (k : Text) (stop : ℕ)
        → (s' : lists.Store) × (lists.ltrim s k stop ≡ some s'))

module _ {A : Type 0} where
  unfoldable pub items_of : Dict Text (List A) → Text → List A
  items_of s k = elim (lookup k s) [ none ↦ [] | some xs ↦ xs ]

  pub items_of-insert :
      (k j : Text) (xs : List A) (s : Dict Text (List A))
      → items_of (insert k xs s) j ≡ (if k == j then xs else items_of s j)
  unfolding items_of
  items_of-insert k j xs s = ground (arith, lookup-insert k j xs s)

  unfoldable pub push : Dict Text (List A) → Text → A → Option (Dict Text (List A))
  unfolding items_of
  push s k a = some (insert k (items_of s k ++ a ∷ []) s)

  unfoldable pub trim : Dict Text (List A) → Text → ℕ → Option (Dict Text (List A))
  unfolding items_of
  trim s k stop = some (insert k (take (suc stop) (items_of s k)) s)

  pub items_of-push :
      (s s' : Dict Text (List A)) (k j : Text) (a : A)
      → push s k a ≡ some s'
      → items_of s' j ≡ (if k == j then items_of s k ++ a ∷ [] else items_of s j)
  unfolding push
  items_of-push s s' k j a h =
      let e : insert k (items_of s k ++ a ∷ []) s ≡ s' = ground arith in
      rw (← e) (items_of-insert k j (items_of s k ++ a ∷ []) s)

  pub items_of-trim :
      (s s' : Dict Text (List A)) (k j : Text) (stop : ℕ)
      → trim s k stop ≡ some s'
      → items_of s' j ≡ (if k == j then take (suc stop) (items_of s k) else items_of s j)
  unfolding trim
  items_of-trim s s' k j stop h =
      let e : insert k (take (suc stop) (items_of s k)) s ≡ s' = ground arith in
      rw (← e) (items_of-insert k j (take (suc stop) (items_of s k)) s)

abbrev pub memory_lists : (A : Type 0) → RedisLists A
memory_lists A = record {
  Store = Dict Text (List A);
  items = items_of;
  rpush = push;
  ltrim = trim;
  rpush_writes = items_of-push;
  ltrim_writes = items_of-trim;
}

pub memory_lists-Answers : (A : Type 0) → Answers (memory_lists A)
unfolding push trim
memory_lists-Answers A = (
  (λ s k a. (insert k (items_of s k ++ a ∷ []) s, refl)),
  (λ s k stop. (insert k (take (suc stop) (items_of s k)) s, refl)),
)
