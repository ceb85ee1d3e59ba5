-- ===== src/Updater.antt =====
-- The staged update of the NodeTrace agent, NodeTrace/agents/python/services/updater.py: the signature
-- of an update, the comparison of versions, the staging of a package, and the seal of the state file
-- with its check at the restart. SHA-256 and HMAC are parameters, texts of hexadecimal digits; a digit of
-- a version is an ASCII one. The files are the package that was downloaded, the staged packages and the
-- state file; calls of the file system do not fail.
pub mod StateFile
pub mod Sealed
pub mod Rollback
use aegis_ecosystem.Prelude.{
  ℕ, zero, suc, ◌+◌, ◌*◌, ◌-◌, Bool, true, false, not, ◌&&◌, ◌||◌, Option, none, some, List, [],
  ◌∷◌, ◌++◌, map, Text, codes, lower, strip, contains, is_nil, ltb, leb, nat_eq, if◌then◌else◌,
  ◌==◌, eq_text,
}
use aegis_ecosystem.Prelude.Dict.{Dict, lookup, insert}
use aegis_ecosystem.Ingest.Texts.{splitlines}

-- the text up to the first copy of a character, and what is behind it
unfoldable pub split_once : ℕ → Text → Option (Text × Text)
split_once c [] = none
split_once c (d ∷ s) =
    let rest = split_once c s in
    if nat_eq d c then some ([], s) else (elim rest [ none ↦ none | some (a, b) ↦ some (d ∷ a, b) ])

unfoldable pub is_digit : ℕ → Bool
is_digit c = leb b'0' c && leb c b'9'

-- `int` of the leading digits of a part, 0 where there is none
unfoldable pub leading_number : ℕ → Text → ℕ
unfolding is_digit
leading_number n [] = n
leading_number n (c ∷ s) =
    let rest = leading_number (10 * n + (c - b'0')) s in if is_digit c then rest else n

-- the parts between the dots, the first of which is read so far
unfoldable pub split_dots : Text → Text → List Text
split_dots part [] = part ∷ []
split_dots part (c ∷ s) = elim (nat_eq c b'.') [
  | true ↦ part ∷ split_dots [] s
  | false ↦ split_dots (part ++ c ∷ []) s
]

-- `.lstrip("vV")`
unfoldable pub without_v : Text → Text
without_v [] = []
without_v (c ∷ s) = let rest = without_v s in if nat_eq c b'v' || nat_eq c b'V' then rest else c ∷ s

-- `_parse_version`, where no version is the empty text
unfoldable pub parse_version : Text → List ℕ
unfolding without_v split_dots leading_number
parse_version [] = []
parse_version (c ∷ v) =
    map (λ part. leading_number 0 part) (split_dots [] (without_v (strip (c ∷ v))))

-- `a > b` of two tuples
unfoldable pub tuple_gt : List ℕ → List ℕ → Bool
tuple_gt [] b = false
tuple_gt (x ∷ a) [] = true
tuple_gt (x ∷ a) (y ∷ b) = let rest = tuple_gt a b in if nat_eq x y then rest else ltb y x

unfoldable pub is_newer : Text → Text → Bool
unfolding parse_version tuple_gt
is_newer current [] = true
is_newer current (c ∷ target) =
    if lower (strip (c ∷ target)) == codes "latest" || is_nil current
    then true
    else tuple_gt (parse_version (c ∷ target)) (parse_version current)

pub record Files : Type 0 where
  -- the package that was downloaded, until it is removed or moved
  pub downloaded : Option Text
  -- the packages of `update.pending`, by their paths
  pub pending : Dict Text Text
  -- `update.state`
  pub state : Option Text

pub data Staged : Type 0 where
  staged : Text → Staged
  rollback mismatch : Staged

-- the text of `update.state`
unfoldable pub body_of : Text → Text → Text
body_of path sha256 =
    codes "staged="
    ++ (path ++ (10 ∷ (codes "sha256=" ++ (sha256 ++ (10 ∷ codes "status=pending-restart\n")))))

module _ (hash : Text → Text) where
  -- `stage_package` of a package with some content, to the path it gets in `update.pending`
  unfoldable pub stage_package : Files → Text → Text → Text → Text → Option Text → Staged × Files
  unfolding is_newer body_of
  stage_package files content path expected current target =
      let newer : Bool = elim target [ none ↦ true | some t ↦ is_newer current t ] in
      let actual = hash content in
      if not newer
      then (rollback, record files { downloaded = none })
      else if actual == lower (strip expected)
      then (
        staged path,
        record {
          downloaded = none;
          pending = insert path content files.pending;
          state = some (body_of path actual);
        },
      )
      else (mismatch, record files { downloaded = none })

-- `vals`: the values of the lines with an equals sign
unfoldable pub read_values : List Text → Dict Text Text → Dict Text Text
unfolding split_once
read_values [] vals = vals
read_values (l ∷ ls) vals =
    read_values ls
      (elim (split_once b'=' l) [ none ↦ vals | some (k, v) ↦ insert (strip k) (strip v) vals ])

-- `vals.get(key)`, where the empty text is as none
unfoldable pub value_of : Text → Dict Text Text → Text
value_of key vals = elim (lookup key vals) [ none ↦ [] | some v ↦ v ]

module _ (hmac : Text → Text → Text) where
  unfoldable pub verify_signature : Text → Text → Text → Bool
  verify_signature sha256 signature enroll_key =
      if is_nil sha256 || is_nil signature || is_nil (strip enroll_key)
      then false
      else hmac enroll_key (strip sha256) == lower (strip signature)

  -- `seal_staged_state`: `none` is an exception
  unfoldable pub seal_staged_state : Files → Text → Option Files
  seal_staged_state files secret = if is_nil (strip secret) then none else (elim files.state [
    | none ↦ none
    | some body ↦
        if contains (codes "mac=") body
        then none
        else some (record files {
          state = some (body ++ (codes "mac=" ++ (hmac secret body ++ (10 ∷ []))));
        })
  ])

  unfoldable pub check_values : Text → Text → Text → Text → Option (Text × Text)
  unfolding body_of
  check_values secret path sha256 mac =
      if is_nil path || is_nil sha256 || is_nil mac
      then none
      else if hmac secret (body_of path sha256) == lower mac
      then some (path, sha256)
      else none

  -- `verify_staged_state`
  unfoldable pub verify_staged_state : Files → Text → Option (Text × Text)
  unfolding splitlines read_values value_of check_values
  verify_staged_state files secret = if is_nil (strip secret) then none else (elim files.state [
    | none ↦ none
    | some s ↦
        let vals = read_values (splitlines s) [] in
        check_values secret (value_of (codes "staged") vals) (value_of (codes "sha256") vals)
          (value_of (codes "mac") vals)
  ])
