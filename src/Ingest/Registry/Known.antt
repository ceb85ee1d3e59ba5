-- ===== src/Ingest/Registry/Known.antt =====
-- The names of the registry's order, aegis-brain/app/ingest/registry.py: `detect` finds a parser under
-- each of them.
use aegis_ecosystem.Prelude.{
  Bool, true, false, Option, none, some, List, [], ◌∷◌, ◌++◌, ◌≡◌, refl, Text, All, member, ◌==◌,
  eq_text, Bool-cases, inl, inr,
}
use aegis_ecosystem.Prelude.Dict.{Dict, lookup, insert, lookup-insert}
use aegis_ecosystem.Ingest.Registry.{Parser, Registry, empty_registry, add_aliases, register}

abbrev is_some : {A : Type 0} → Option A → Bool
is_some none = false
is_some (some a) = true

module _ {A : Type 0} where
  abbrev Has : Dict Text (Parser A) → Text → Type 0
  Has parsers name = is_some (lookup name parsers) ≡ true

  -- every name of the order is a key of the parsers
  abbrev pub IsKnown : Registry A → Type 0
  IsKnown registry = All (Has registry.parsers) registry.order

  Has-insert :
      (k name : Text) (p : Parser A) (parsers : Dict Text (Parser A))
      → Has parsers name
      → Has (insert k p parsers) name
  Has-insert k name p parsers h =
      rw lookup-insert (elim (Bool-cases (k == name)) [ inl e ↦ rw e refl | inr e ↦ rw e h ])

  Has-add_aliases :
      (p : Parser A) (aliases : List Text) (parsers : Dict Text (Parser A)) (name : Text)
      → Has parsers name
      → Has (add_aliases p aliases parsers) name
  unfolding add_aliases
  Has-add_aliases p [] parsers name h = h
  Has-add_aliases p (alias ∷ aliases) parsers name h =
      Has-add_aliases p aliases (insert alias p parsers) name (Has-insert alias name p parsers h)

  Has-registered :
      (p : Parser A) (aliases : List Text) (parsers : Dict Text (Parser A)) (names : List Text)
      → All (Has parsers) names
      → All (Has (add_aliases p aliases (insert p.name p parsers))) names
  Has-registered p aliases parsers [] h = tt
  Has-registered p aliases parsers (name ∷ names) (h, hs) = (
    Has-add_aliases p aliases (insert p.name p parsers) name (Has-insert p.name name p parsers h),
    Has-registered p aliases parsers names hs,
  )

  All-snoc :
      (parsers : Dict Text (Parser A)) (names : List Text) (name : Text)
      → All (Has parsers) names
      → Has parsers name
      → All (Has parsers) (names ++ name ∷ [])
  All-snoc parsers [] name h k = (k, tt)
  All-snoc parsers (n ∷ names) name (h, hs) k = (h, All-snoc parsers names name hs k)

  -- Registering a parser, with any aliases, keeps every name of the order a key of the parsers.
  pub register-IsKnown :
      (registry : Registry A) (p : Parser A) (aliases : List Text) (generic : Bool)
      → IsKnown registry
      → IsKnown (register registry p aliases generic)
  unfolding register
  register-IsKnown registry p aliases generic h =
      let kept = Has-registered p aliases registry.parsers registry.order h in
      let parsers = insert p.name p registry.parsers in
      let own = Has-add_aliases p aliases parsers p.name (
        rw (lookup-insert p.name p.name p registry.parsers, (eq_text.same_iff p.name p.name).1 refl)
          refl) in
      elim (Bool-cases (member p.name registry.order)) [
        | inl e ↦ rw e kept
        | inr e ↦ rw e (All-snoc (add_aliases p aliases parsers) registry.order p.name kept own)
      ]

-- The registry that holds no parser.
empty_registry-IsKnown : (A : Type 0) → IsKnown (empty_registry {A = A})
empty_registry-IsKnown A = tt
