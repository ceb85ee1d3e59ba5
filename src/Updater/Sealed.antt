-- ===== src/Updater/Sealed.antt =====
-- The state file of a staged update, NodeTrace/agents/python/services/updater.py: what the restart reads
-- back of a package that was staged and sealed.
use aegis_ecosystem.Prelude.{
  Bool, true, false, not, Option, none, some, [], ◌∷◌, ◌++◌, ◌≡◌, refl, sym, ◌∙◌, text_eq, Text,
  codes, lower, strip, contains, is_nil, if◌then◌else◌, ◌==◌, eq_text,
}
use aegis_ecosystem.Prelude.Dict.{lookup, insert, lookup-insert_self}
use aegis_ecosystem.Ingest.Texts.{splitlines}
use aegis_ecosystem.Updater.{
  Files, Staged, staged, rollback, mismatch, stage_package, seal_staged_state, verify_staged_state,
  body_of, read_values, value_of, check_values, is_newer,
}
use aegis_ecosystem.Updater.StateFile.{IsLine, values, splitlines-sealed, read_values-sealed}

-- the files behind a package that was staged
abbrev with_package : (Text → Text) → Files → Text → Text → Files
with_package hash files content path = record {
  downloaded = none;
  pending = insert path content files.pending;
  state = some (body_of path (hash content));
}

-- `stage_package` behind its two tests
after_tests : (Text → Text) → Bool → Bool → Files → Text → Text → Staged × Files
after_tests hash newer same files content path =
    if not newer
    then (rollback, record files { downloaded = none })
    else if same
    then (staged path, with_package hash files content path)
    else (mismatch, record files { downloaded = none })

after_tests-staged :
    (hash : Text → Text) (newer same : Bool) (files : Files) (content path : Text)
    → (after_tests hash newer same files content path).0 ≡ staged path
    → (after_tests hash newer same files content path).1 ≡ with_package hash files content path
unfolding after_tests
after_tests-staged hash true true files content path h = refl
after_tests-staged hash true false files content path h = cc
after_tests-staged hash false same files content path h = cc

module _ (hash : Text → Text) (hmac : Text → Text → Text) where
  stage_package-staged :
      (files : Files) (content path expected current : Text) (target : Option Text)
      → (stage_package hash files content path expected current target).0 ≡ staged path
      → (stage_package hash files content path expected current target).1
        ≡ with_package hash files content path
  unfolding stage_package after_tests
  stage_package-staged files content path expected current target h =
      after_tests-staged hash (elim target [ none ↦ true | some t ↦ is_newer current t ])
        (hash content == lower (strip expected)) files content path h

  seal_staged_state_lem :
      (files : Files) (body secret : Text)
      → files.state ≡ some body
      → is_nil (strip secret) ≡ false
      → contains (codes "mac=") body ≡ false
      → seal_staged_state hmac files secret
        ≡ some (record files {
          state = some (body ++ (codes "mac=" ++ (hmac secret body ++ (10 ∷ []))));
        })
  unfolding seal_staged_state
  seal_staged_state_lem files body secret e named no_mac =
      rw (named, seal_staged_state) (by_state files.state e)
    where
      by_state :
          (state : Option Text)
          → state ≡ some body
          → (elim state [
            | none ↦ none
            | some b ↦
                if contains (codes "mac=") b
                then none
                else some (record files {
                  state = some (b ++ (codes "mac=" ++ (hmac secret b ++ (10 ∷ []))));
                })
          ])
            ≡ some (record files {
              state = some (body ++ (codes "mac=" ++ (hmac secret body ++ (10 ∷ []))));
            })
      by_state state e = rw (e, no_mac) refl

  check_values_lem :
      (secret path sha256 mac : Text)
      → (is_nil path ≡ false) × (is_nil sha256 ≡ false) × (is_nil mac ≡ false)
      → hmac secret (body_of path sha256) ≡ lower mac
      → check_values hmac secret path sha256 mac ≡ some (path, sha256)
  unfolding check_values
  check_values_lem secret path sha256 mac (p, q, r) e =
      rw (p, q, r, (eq_text.same_iff (hmac secret (body_of path sha256)) (lower mac)).1 e) refl

  verify_staged_state_lem :
      (files : Files) (s path sha256 mac secret : Text)
      → files.state ≡ some s
      → is_nil (strip secret) ≡ false
      → read_values (splitlines s) [] ≡ values path sha256 mac
      → verify_staged_state hmac files secret ≡ check_values hmac secret path sha256 mac
  unfolding verify_staged_state value_of lookup text_eq
  verify_staged_state_lem files s path sha256 mac secret e named r =
      rw (named, verify_staged_state) (rw e (rw r refl))

  module _ (hash_line : (s : Text) → IsLine (hash s)) (mac_line : (k s : Text) → IsLine (hmac k s))
      (mac_lower : (k s : Text) → lower (hmac k s) ≡ hmac k s) where
    -- A package that was staged and sealed under a secret that is not blank is what the check reads back
    -- at the restart: its path, where the package's content is, and the hash of that content. The
    -- path is a line without "mac=", and so are the hash and the seal.
    pub verify-seal :
        (files : Files) (content path expected current : Text) (target : Option Text)
        (secret : Text)
        → is_nil (strip secret) ≡ false
        → IsLine path
        → contains (codes "mac=") (body_of path (hash content)) ≡ false
        → (stage_package hash files content path expected current target).0 ≡ staged path
        → let files' = (stage_package hash files content path expected current target).1 in
          (sealed : Files) × (seal_staged_state hmac files' secret ≡ some sealed)
          × (verify_staged_state hmac sealed secret ≡ some (path, hash content))
          × (lookup path sealed.pending ≡ some content)
    verify-seal files content path expected current target secret named p no_mac h =
        let digest = hash content in
        let body = body_of path digest in
        let mac = hmac secret body in
        let done = with_package hash files content path in
        let sealed : Files = record done {
          state = some (body ++ (codes "mac=" ++ (mac ++ (10 ∷ []))));
        } in
        let lines =
          splitlines-sealed path digest mac p (hash_line content) (mac_line secret body) in
        let read =
          read_values-sealed path digest mac _ lines p (hash_line content) (mac_line secret body) in
        rw (stage_package-staged files content path expected current target h) (
          sealed,
          seal_staged_state_lem done body secret refl named no_mac,
          verify_staged_state_lem sealed _ path digest mac secret refl named read
              ∙ check_values_lem secret path digest mac
                  (p.some_char, (hash_line content).some_char, (mac_line secret body).some_char)
                  (sym (mac_lower secret body)),
          lookup-insert_self path content files.pending,
        )
