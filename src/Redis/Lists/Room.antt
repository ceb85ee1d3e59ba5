-- ===== src/Redis/Lists/Room.antt =====
-- Lists that are pushed to and cut at 100 items, as the queues of the agents' commands are.
use aegis_ecosystem.Prelude.{
  ℕ, zero, suc, ◌+◌, ◌≤◌, ◌≡◌, refl, ap, ◌∙◌, some, List, [], ◌∷◌, ◌++◌, arith, Text, take, length,
  ltb, if◌then◌else◌, ◌==◌, ==_iff, eq_text, Bool-cases, inl, inr,
}
use aegis_ecosystem.Redis.Lists.{RedisLists}

module _ {A : Type 0} where
  take-room : (n : ℕ) (xs : List A) → length xs ≤ n → take n xs ≡ xs
  take-room zero [] h = refl
  take-room zero (x ∷ xs) h = absurd (omega arith)
  take-room (suc n) [] h = refl
  take-room (suc n) (x ∷ xs) h = ap (λ ys. x ∷ ys) (take-room n xs (omega arith))

  take-full : (n : ℕ) (xs ys : List A) → n ≤ length xs → take n (xs ++ ys) ≡ take n xs
  take-full zero xs ys h = refl
  take-full (suc n) [] ys h = absurd (omega arith)
  take-full (suc n) (x ∷ xs) ys h = ap (λ zs. x ∷ zs) (take-full n xs ys (omega arith))

  pub length-append_one : (xs : List A) (x : A) → length (xs ++ x ∷ []) ≡ length xs + 1
  length-append_one [] x = omega arith
  length-append_one (y ∷ xs) x = omega (arith, length-append_one xs x)

  -- What a queue of at most 100 items is after one more item and `ltrim(0, 99)`.
  abbrev pub queued_on : List A → A → List A
  queued_on xs x = if ltb (length xs) 100 then xs ++ x ∷ [] else xs

  pub take-queued_on :
      (xs : List A) (x : A) → length xs ≤ 100 → take 100 (xs ++ x ∷ []) ≡ queued_on xs x
  take-queued_on xs x le = elim (Bool-cases (ltb (length xs) 100)) [
    | inl p ↦ rw p (take-room 100 (xs ++ x ∷ []) (ground (arith, length-append_one xs x)))
    | inr p ↦ rw p (take-full 100 xs (x ∷ []) (ground arith) ∙ take-room 100 xs le)
  ]

module _ {A : Type 0} (lists : RedisLists A) where
  open lists use {Store, items}

  -- An item pushed and the list cut at 100: of a list of at most 100 items it stands behind all that
  -- were there if they were fewer than 100, and else is lost. No other list changes.
  pub push_trim-queued_on :
      (s s1 s2 : Store) (k j : Text) (x : A)
      → length (items s k) ≤ 100
      → lists.rpush s k x ≡ some s1
      → lists.ltrim s1 k 99 ≡ some s2
      → items s2 j ≡ (if k == j then queued_on (items s k) x else items s j)
  push_trim-queued_on s s1 s2 k j x le e f =
      let own : take 100 (items s1 k) ≡ queued_on (items s k) x =
        rw (lists.rpush_writes s s1 k k x e, (==_iff k k).1 refl)
          (take-queued_on (items s k) x le) in
      rw (lists.ltrim_writes s1 s2 k j 99 f) (elim (Bool-cases (k == j)) [
        | inl p ↦ rw p own
        | inr p ↦ rw (p, lists.rpush_writes s s1 k j x e, p) refl
      ])
