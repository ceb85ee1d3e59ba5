-- ===== src/Prelude/Dict.antt =====
-- Python's `dict`, as an association list with at most one entry for a key that `insert` makes.
use mathlib.Core.Path.{◌≡◌, refl}
use mathlib.Core.Option.{Option, none, some}
use mathlib.Core.List.{List, [], ◌∷◌}
use native.Mathlib.Omega.{arith}
use mathlib.Core.Bool.{Bool, false}
use mathlib.Core.List.{map}
use aegis_ecosystem.Prelude.Tests.{Eq, ◌==◌, if◌then◌else◌}
use aegis_ecosystem.Prelude.Lists.{member, IsDistinct}

abbrev pub Dict {ℓ κ} : Type ℓ → Type κ → Type (ℓ ⊔ κ)
Dict K V = List (K × V)

module _ {ℓ κ} {K : Type ℓ} {V : Type κ} ⦃e : Eq K⦄ where
  -- `d.get(k)`
  unfoldable pub lookup : K → Dict K V → Option V
  lookup k [] = none
  lookup k ((j, v) ∷ d) = if j == k then some v else lookup k d

  -- `d[k] = v`
  unfoldable pub insert : K → V → Dict K V → Dict K V
  insert k v [] = (k, v) ∷ []
  insert k v ((j, w) ∷ d) = if j == k then (k, v) ∷ d else (j, w) ∷ insert k v d

  pub lookup-insert :
      (k j : K) (v : V) (d : Dict K V)
      → lookup j (insert k v d) ≡ (if k == j then some v else lookup j d)
  unfolding lookup insert
  lookup-insert k j v [] = refl
  lookup-insert k j v ((i, w) ∷ d) =
      ground (arith, e.same_iff k j, e.same_iff i k, e.same_iff i j, lookup-insert k j v d)

  pub lookup-insert_self : (k : K) (v : V) (d : Dict K V) → lookup k (insert k v d) ≡ some v
  lookup-insert_self k v d = ground (arith, lookup-insert k k v d, e.same_iff k k)

  -- `del d[k]`
  unfoldable pub delete : K → Dict K V → Dict K V
  delete k [] = []
  delete k ((j, v) ∷ d) = let rest = delete k d in if j == k then rest else (j, v) ∷ rest

  pub lookup-delete :
      (k j : K) (d : Dict K V) → lookup j (delete k d) ≡ (if k == j then none else lookup j d)
  unfolding lookup delete
  lookup-delete k j [] = ground arith
  lookup-delete k j ((i, w) ∷ d) =
      ground (arith, e.same_iff k j, e.same_iff i k, e.same_iff i j, lookup-delete k j d)

  -- the entries that pass a test
  unfoldable pub filter_entries : (V → Bool) → Dict K V → Dict K V
  filter_entries p [] = []
  filter_entries p ((j, v) ∷ d) =
      let rest = filter_entries p d in if p v then (j, v) ∷ rest else rest

  abbrev pub keys : Dict K V → List K
  keys = map (λ x. x.0)

  -- no key stands twice
  abbrev pub IsDict : Dict K V → Type 0
  IsDict d = IsDistinct (keys d)

  pub lookup_absent : (k : K) (d : Dict K V) → member k (keys d) ≡ false → lookup k d ≡ none
  unfolding lookup member
  lookup_absent k [] h = refl
  lookup_absent k ((j, v) ∷ d) h = ground (arith, lookup_absent k d)

  member-filter_entries :
      (p : V → Bool) (k : K) (d : Dict K V)
      → member k (keys d) ≡ false
      → member k (keys (filter_entries p d)) ≡ false
  unfolding member filter_entries
  member-filter_entries p k [] h = refl
  member-filter_entries p k ((j, v) ∷ d) h = ground (arith, member-filter_entries p k d)

  pub lookup-filter_entries :
      (p : V → Bool) (k : K) (d : Dict K V)
      → IsDict d
      → lookup k (filter_entries p d)
        ≡ (elim (lookup k d) [ none ↦ none | some v ↦ if p v then some v else none ])
  unfolding lookup filter_entries
  lookup-filter_entries p k [] h = refl
  lookup-filter_entries p k ((j, v) ∷ d) h = ground (
    arith,
    e.same_iff j k,
    lookup-filter_entries p k d h.1,
    lookup_absent j (filter_entries p d),
    member-filter_entries p j d h.0,
  )

  pub IsDict-filter_entries : (p : V → Bool) (d : Dict K V) → IsDict d → IsDict (filter_entries p d)
  unfolding filter_entries
  IsDict-filter_entries p [] h = tt
  IsDict-filter_entries p ((j, v) ∷ d) h =
      ground (arith, member-filter_entries p j d h.0, IsDict-filter_entries p d h.1)

  member-insert :
      (k j : K) (v : V) (d : Dict K V)
      → (k == j) ≡ false
      → member j (keys d) ≡ false
      → member j (keys (insert k v d)) ≡ false
  unfolding member insert
  member-insert k j v [] n h = ground arith
  member-insert k j v ((i, w) ∷ d) n h = ground (arith, member-insert k j v d n)

  pub IsDict-insert : (k : K) (v : V) (d : Dict K V) → IsDict d → IsDict (insert k v d)
  unfolding insert member
  IsDict-insert k v [] h = (refl, tt)
  IsDict-insert k v ((i, w) ∷ d) h =
      ground (arith, e.same_iff i k, e.same_iff k i, member-insert k i v d, IsDict-insert k v d h.1)
