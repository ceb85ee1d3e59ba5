-- ===== src/Redis/Queues/Memory.antt =====
-- A server in memory that never fails: the lists of its keys in an association list.
use aegis_ecosystem.Prelude.{
  ℕ, suc, ◌≡◌, refl, false, Option, none, some, List, [], ◌∷◌, ◌++◌, arith, Text, take, length,
  Option-cases, inl, inr, if◌then◌else◌, ◌==◌, eq_text, text_eq_iff,
}
use aegis_ecosystem.Prelude.Dict.{Dict, insert}
use aegis_ecosystem.Redis.Lists.{items_of, items_of-insert}
use aegis_ecosystem.Redis.Queues.{remove_first, Moves, RedisQueues, IsAnswering}

-- The last item of a list with the items before it.
unfoldable pub pop_last : List Text → Option (List Text × Text)
pop_last [] = none
pop_last (x ∷ xs) =
    let rest = pop_last xs in elim rest [ none ↦ some ([], x) | some (ys, y) ↦ some (x ∷ ys, y) ]

pop_last-none : (xs : List Text) → pop_last xs ≡ none → xs ≡ []
unfolding pop_last
pop_last-none [] h = refl
pop_last-none (x ∷ xs) h = ground (arith, pop_last-none xs)

pop_last-some : (xs ys : List Text) (y : Text) → pop_last xs ≡ some (ys, y) → xs ≡ ys ++ y ∷ []
unfolding pop_last
pop_last-some [] ys y h = cc
pop_last-some (x ∷ xs) ys y h = elim (Option-cases (pop_last xs)) [
  | inl e ↦ ground (arith, pop_last-none xs e)
  | inr ((zs, z), e) ↦ ground (arith, pop_last-some xs zs z e)
]

abbrev Answer : Type 0
Answer = Option (Option Text × Dict Text (List Text))

-- the server after a move of what `pop_last` found at the source
moved : Dict Text (List Text) → Text → Text → Option (List Text × Text) → Answer
moved s from to none = some (none, s)
moved s from to (some (xs, x)) = some (some x, insert to (x ∷ items_of s to) (insert from xs s))

moved_lem :
    (s s' : Dict Text (List Text)) (from to : Text) (o : Option (List Text × Text))
    → (r : Option Text) → (from == to) ≡ false
    → pop_last (items_of s from) ≡ o
    → moved s from to o ≡ some (r, s')
    → Moves (items_of s from) (items_of s to) r (items_of s' from) (items_of s' to)
      × ((j : Text) → (from == j) ≡ false → (to == j) ≡ false → items_of s' j ≡ items_of s j)
unfolding moved
moved_lem s s' from to none none d e h =
    let same : s ≡ s' = ground arith in
    rw (← same) ((pop_last-none (items_of s from) e, refl, refl), λ j p q. refl)
moved_lem s s' from to none (some x) d e h = cc
moved_lem s s' from to (some (xs, x)) none d e h = cc
moved_lem s s' from to (some (xs, x)) (some y) d e h =
    let same : insert to (x ∷ items_of s to) (insert from xs s) ≡ s' = ground arith in
    let after = λ (j : Text). items_of-insert to j (x ∷ items_of s to) (insert from xs s) in
    let before = λ (j : Text). items_of-insert from j xs s in
    rw (← same) (
      (
        ground (
          arith,
          pop_last-some (items_of s from) xs x e,
          after from,
          before from,
          text_eq_iff from to,
          text_eq_iff to from,
          text_eq_iff from from,
        ),
        ground (arith, after to, text_eq_iff to to),
      ),
      λ j p q. ground (arith, after j, before j),
    )

unfoldable pub move_last : Dict Text (List Text) → Text → Text → Answer
unfolding items_of pop_last moved
move_last s from to = moved s from to (pop_last (items_of s from))

pub move_last_lem :
    (s s' : Dict Text (List Text)) (from to : Text) (r : Option Text)
    → (from == to) ≡ false
    → move_last s from to ≡ some (r, s')
    → Moves (items_of s from) (items_of s to) r (items_of s' from) (items_of s' to)
      × ((j : Text) → (from == j) ≡ false → (to == j) ≡ false → items_of s' j ≡ items_of s j)
move_last_lem s s' from to r d h =
    moved_lem s s' from to (pop_last (items_of s from)) r d refl (unfold move_last in h)

-- the server with new items under a key
abbrev write : Dict Text (List Text) → Text → List Text → Option (Dict Text (List Text))
write s k xs = some (insert k xs s)

write_lem :
    (s s' : Dict Text (List Text)) (k j : Text) (xs : List Text)
    → write s k xs ≡ some s'
    → items_of s' j ≡ (if k == j then xs else items_of s j)
write_lem s s' k j xs h =
    let e : insert k xs s ≡ s' = ground arith in rw (← e) (items_of-insert k j xs s)

unfoldable pub push_left : Dict Text (List Text) → Text → Text → Option (Dict Text (List Text))
unfolding items_of
push_left s k a = write s k (a ∷ items_of s k)

unfoldable pub remove_one : Dict Text (List Text) → Text → Text → Option (Dict Text (List Text))
unfolding items_of remove_first
remove_one s k a = write s k (remove_first a (items_of s k))

unfoldable pub trim_left : Dict Text (List Text) → Text → ℕ → Option (Dict Text (List Text))
unfolding items_of
trim_left s k stop = write s k (take (suc stop) (items_of s k))

pub items_of-push_left :
    (s s' : Dict Text (List Text)) (k j a : Text)
    → push_left s k a ≡ some s'
    → items_of s' j ≡ (if k == j then a ∷ items_of s k else items_of s j)
items_of-push_left s s' k j a h = write_lem s s' k j (a ∷ items_of s k) (unfold push_left in h)

pub items_of-remove_one :
    (s s' : Dict Text (List Text)) (k j a : Text)
    → remove_one s k a ≡ some s'
    → items_of s' j ≡ (if k == j then remove_first a (items_of s k) else items_of s j)
items_of-remove_one s s' k j a h =
    write_lem s s' k j (remove_first a (items_of s k)) (unfold remove_one in h)

pub items_of-trim_left :
    (s s' : Dict Text (List Text)) (k j : Text) (stop : ℕ)
    → trim_left s k stop ≡ some s'
    → items_of s' j ≡ (if k == j then take (suc stop) (items_of s k) else items_of s j)
items_of-trim_left s s' k j stop h =
    write_lem s s' k j (take (suc stop) (items_of s k)) (unfold trim_left in h)

abbrev pub memory_queues : RedisQueues
memory_queues = record {
  Store = Dict Text (List Text);
  items = items_of;
  rpoplpush = move_last;
  brpoplpush = move_last;
  lpush = push_left;
  lrem = remove_one;
  ltrim = trim_left;
  llen = λ s k. some (length (items_of s k));
  rpoplpush_moves = move_last_lem;
  brpoplpush_moves = move_last_lem;
  lpush_writes = items_of-push_left;
  lrem_writes = items_of-remove_one;
  ltrim_writes = items_of-trim_left;
}

moved_answers :
    (s : Dict Text (List Text)) (from to : Text) (o : Option (List Text × Text))
    → (a : Option Text × Dict Text (List Text)) × (moved s from to o ≡ some a)
unfolding moved
moved_answers s from to none = ((none, s), refl)
moved_answers s from to (some (xs, x)) =
    ((some x, insert to (x ∷ items_of s to) (insert from xs s)), refl)

move_last_answers :
    (s : Dict Text (List Text)) (from to : Text)
    → (a : Option Text × Dict Text (List Text)) × (move_last s from to ≡ some a)
unfolding move_last
move_last_answers s from to = moved_answers s from to (pop_last (items_of s from))

pub memory_queues-IsAnswering : IsAnswering memory_queues
unfolding push_left remove_one trim_left
memory_queues-IsAnswering = record {
  rpoplpush_answers = move_last_answers;
  brpoplpush_answers = move_last_answers;
  lpush_answers = λ s k a. (insert k (a ∷ items_of s k) s, refl);
  lrem_answers = λ s k a. (insert k (remove_first a (items_of s k)) s, refl);
  ltrim_answers = λ s k stop. (insert k (take (suc stop) (items_of s k)) s, refl);
  llen_answers = λ s k. (length (items_of s k), refl);
}
