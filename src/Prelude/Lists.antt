-- ===== src/Prelude/Lists.antt =====
-- Lists measured by native numbers, and membership by a Boolean test.
use Prim.Native.Nat.{ℕ, zero, suc, ◌+◌, ◌≤◌}
use mathlib.Core.Path.{◌≡◌, refl}
use mathlib.Core.Logic.{◌⊎◌, inl, inr}
use mathlib.Core.Bool.{Bool, true, false, not, ◌&&◌, ◌||◌}
use mathlib.Core.List.{List, [], ◌∷◌, ◌++◌}
use native.Mathlib.Omega.{arith}
use aegis_ecosystem.Prelude.Tests.{Eq, ◌==◌, Bool-cases, if◌then◌else◌}

module _ {ℓ} {A : Type ℓ} where
  abbrev pub length : List A → ℕ
  length [] = 0
  length (x ∷ xs) = suc (length xs)

  abbrev pub take : ℕ → List A → List A
  take zero xs = []
  take (suc n) [] = []
  take (suc n) (x ∷ xs) = x ∷ take n xs

  pub length-append : (xs ys : List A) → length (xs ++ ys) ≡ length xs + length ys
  length-append [] ys = omega arith
  length-append (x ∷ xs) ys = omega (arith, length-append xs ys)

  abbrev pub drop : ℕ → List A → List A
  drop zero xs = xs
  drop (suc n) [] = []
  drop (suc n) (x ∷ xs) = drop n xs

  -- `any(p(x) for x in xs)` and `all(p(x) for x in xs)`
  abbrev pub any : (A → Bool) → List A → Bool
  any p [] = false
  any p (x ∷ xs) = p x || any p xs

  abbrev pub all : (A → Bool) → List A → Bool
  all p [] = true
  all p (x ∷ xs) = p x && all p xs

  abbrev pub filter : (A → Bool) → List A → List A
  filter p [] = []
  filter p (x ∷ xs) = let rest = filter p xs in if p x then x ∷ rest else rest

  abbrev pub is_nil : List A → Bool
  is_nil [] = true
  is_nil (x ∷ xs) = false

  pub all-filter : (p : A → Bool) (xs : List A) → all p xs ≡ is_nil (filter (λ x. not (p x)) xs)
  all-filter p [] = refl
  all-filter p (x ∷ xs) = ground (arith, all-filter p xs)

  pub List-cases : (xs : List A) → (xs ≡ []) ⊎ ((x : A) × (r : List A) × (xs ≡ x ∷ r))
  List-cases [] = inl refl
  List-cases (x ∷ r) = inr (x, r, refl)

  abbrev pub All {κ} : (A → Type κ) → List A → Type κ
  All P [] = Unit
  All P (x ∷ xs) = P x × All P xs

module _ {ℓ} {A : Type ℓ} ⦃e : Eq A⦄ where
  -- `a in xs`
  unfoldable pub member : A → List A → Bool
  member a [] = false
  member a (x ∷ xs) = x == a || member a xs

  -- the list with every copy of `a` left out
  unfoldable pub without : A → List A → List A
  without a [] = []
  without a (x ∷ xs) = let rest = without a xs in if x == a then rest else x ∷ rest

  -- how often an element stands in a list
  unfoldable pub count : A → List A → ℕ
  count a [] = 0
  count a (x ∷ xs) = if x == a then suc (count a xs) else count a xs

  pub count-append : (a : A) (xs ys : List A) → count a (xs ++ ys) ≡ count a xs + count a ys
  unfolding count
  count-append a [] ys = omega arith
  count-append a (x ∷ xs) ys = ground (arith, count-append a xs ys)

  -- no element stands twice
  abbrev pub IsDistinct : List A → Type 0
  IsDistinct [] = Unit
  IsDistinct (x ∷ xs) = (member x xs ≡ false) × IsDistinct xs

  pub member-append : (a : A) (xs ys : List A) → member a (xs ++ ys) ≡ (member a xs || member a ys)
  unfolding member
  member-append a [] ys = refl
  member-append a (x ∷ xs) ys = ground (arith, member-append a xs ys)

  pub member-without :
      (a b : A) (xs : List A) → member b (without a xs) ≡ (if a == b then false else member b xs)
  unfolding member without
  member-without a b [] = ground arith
  member-without a b (x ∷ xs) =
      ground (arith, member-without a b xs, e.same_iff x a, e.same_iff x b, e.same_iff a b)

  pub without_absent : (a : A) (xs : List A) → member a xs ≡ false → without a xs ≡ xs
  unfolding member without
  without_absent a [] m = refl
  without_absent a (x ∷ xs) m = ground (arith, without_absent a xs)

  pub length-without_ge :
      (a : A) (xs : List A) → IsDistinct xs → length xs ≤ length (without a xs) + 1
  unfolding without
  length-without_ge a [] d = omega arith
  length-without_ge a (x ∷ xs) d =
      ground (arith, e.same_iff x a, without_absent a xs, length-without_ge a xs)

  pub length-without_le : (a : A) (xs : List A) → length (without a xs) ≤ length xs
  unfolding without
  length-without_le a [] = omega arith
  length-without_le a (x ∷ xs) = ground (arith, length-without_le a xs)

  pub length-without_lt :
      (a : A) (xs : List A) → member a xs ≡ true → suc (length (without a xs)) ≤ length xs
  unfolding member without
  length-without_lt a [] m = cc
  length-without_lt a (x ∷ xs) m = ground (arith, length-without_le a xs, length-without_lt a xs)

  pub IsDistinct-without : (a : A) (xs : List A) → IsDistinct xs → IsDistinct (without a xs)
  unfolding without
  IsDistinct-without a [] d = tt
  IsDistinct-without a (x ∷ xs) d = elim (Bool-cases (x == a)) [
    | inl p ↦ rw p (IsDistinct-without a xs d.1)
    | inr p ↦ rw p (ground (arith, member-without a x xs), IsDistinct-without a xs d.1)
  ]

  pub IsDistinct-append :
      (a : A) (xs : List A) → member a xs ≡ false → IsDistinct xs → IsDistinct (xs ++ a ∷ [])
  unfolding member
  IsDistinct-append a [] m d = (refl, tt)
  IsDistinct-append a (x ∷ xs) m d = (
    ground (arith, member-append x xs (a ∷ []), e.same_iff x a, e.same_iff a x),
    IsDistinct-append a xs (ground arith) d.1,
  )
