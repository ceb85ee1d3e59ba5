-- ===== src/Updater/Rollback.antt =====
-- Updates in a row, NodeTrace/agents/python/services/updater.py: where a version is given and is no
-- "latest", the comparison of versions lets none come back.
use aegis_ecosystem.Prelude.{
  ℕ, true, false, some, List, [], ◌∷◌, ◌≡◌, refl, Text, codes, lower, strip, is_nil, ◌==◌, eq_text,
  arith, Bool-cases, inl, inr,
}
use aegis_ecosystem.Updater.{parse_version, tuple_gt, is_newer, Files, staged, stage_package}

tuple_gt_trans : (a b c : List ℕ) → tuple_gt a b ≡ true → tuple_gt b c ≡ true → tuple_gt a c ≡ true
unfolding tuple_gt
tuple_gt_trans [] b c h k = cc
tuple_gt_trans (x ∷ a) [] c h k = cc
tuple_gt_trans (x ∷ a) (y ∷ b) [] h k = refl
tuple_gt_trans (x ∷ a) (y ∷ b) (z ∷ c) h k = ground (arith, tuple_gt_trans a b c)

tuple_gt_irrefl : (a : List ℕ) → tuple_gt a a ≡ false
unfolding tuple_gt
tuple_gt_irrefl [] = refl
tuple_gt_irrefl (x ∷ a) = ground (arith, tuple_gt_irrefl a)

tuple_gt_asym : (a b : List ℕ) → tuple_gt a b ≡ true → tuple_gt b a ≡ false
tuple_gt_asym a b h = elim (Bool-cases (tuple_gt b a)) [
  | inr e ↦ e
  | inl e ↦ let same = tuple_gt_trans a b a h e in let bad = rw (tuple_gt_irrefl a) at same in cc
]

-- a version that is not empty and not "latest"
abbrev pub IsVersion : Text → Type 0
IsVersion v = (is_nil v ≡ false) × ((lower (strip v) == codes "latest") ≡ false)

is_newer-IsVersion :
    (current target : Text)
    → IsVersion current
    → IsVersion target
    → is_newer current target ≡ tuple_gt (parse_version target) (parse_version current)
unfolding is_newer
is_newer-IsVersion current [] c t = cc
is_newer-IsVersion current (x ∷ target) c t = rw (t.1, c.0) refl

module _ (hash : Text → Text) where
  -- Packages that were staged, each for the version that the one before had as its target.
  pub data Updates : Text → Text → Type 0 where
    one :
        {current target : Text} (files : Files) (content path expected : Text)
        → IsVersion current
        → IsVersion target
        → (stage_package hash files content path expected current (some target)).0 ≡ staged path
        → Updates current target
    then_one :
        {first current target : Text} (files : Files) (content path expected : Text)
        → Updates first current
        → IsVersion current
        → IsVersion target
        → (stage_package hash files content path expected current (some target)).0 ≡ staged path
        → Updates first target

  stage_package-is_newer :
      (files : Files) (content path expected current target : Text)
      → (stage_package hash files content path expected current (some target)).0 ≡ staged path
      → is_newer current target ≡ true
  unfolding stage_package
  stage_package-is_newer files content path expected current target h =
      elim (Bool-cases (is_newer current target)) [
        | inl e ↦ e
        | inr e ↦ let bad = rw (e, stage_package) at h in cc
      ]

  Updates-tuple_gt :
      {first last : Text}
      → Updates first last
      → tuple_gt (parse_version last) (parse_version first) ≡ true
  Updates-tuple_gt (one {current} {target} files content path expected c t h) =
      rw (← is_newer-IsVersion current target c t)
        (stage_package-is_newer files content path expected current target h)
  Updates-tuple_gt (then_one {first} {current} {target} files content path expected before c t h) =
      tuple_gt_trans (parse_version target) (parse_version current) (parse_version first)
        (rw (← is_newer-IsVersion current target c t)
          (stage_package-is_newer files content path expected current target h))
        (Updates-tuple_gt before)

  Updates-IsVersion : {first last : Text} → Updates first last → IsVersion first × IsVersion last
  Updates-IsVersion (one files content path expected c t h) = (c, t)
  Updates-IsVersion (then_one files content path expected before c t h) =
      ((Updates-IsVersion before).0, t)

  -- Over any packages staged in a row, each from the version that the one before was for, and none of
  -- them for "latest" or for no version: the last version is newer than the first, and the first is
  -- not newer than the last.
  pub is_newer-Updates :
      {first last : Text}
      → Updates first last
      → (is_newer first last ≡ true) × (is_newer last first ≡ false)
  is_newer-Updates {first} {last} u =
      let (f, l) = Updates-IsVersion u in
      let new = Updates-tuple_gt u in
      (
        rw (is_newer-IsVersion first last f l) new,
        rw (is_newer-IsVersion last first l f)
            (tuple_gt_asym (parse_version last) (parse_version first) new),
      )
