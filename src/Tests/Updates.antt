-- ===== src/Tests/Updates.antt =====
-- Runs of the staged update.
use aegis_ecosystem.Prelude.{
  ◌≡◌, refl, true, false, none, some, [], ◌∷◌, Text, codes, lower, strip, member, contains, text_eq,
  eq_text,
}
use aegis_ecosystem.Prelude.Dict.{lookup}
use aegis_ecosystem.Ingest.Texts.{is_line_end}
use aegis_ecosystem.Updater.{
  Files, Staged, rollback, stage_package, seal_staged_state, verify_staged_state, is_newer,
}
use aegis_ecosystem.Updater.Rollback.{Updates, is_newer-Updates}
use aegis_ecosystem.Updater.StateFile.{IsLine}
use aegis_ecosystem.Updater.Sealed.{verify-seal}

-- A digest of one letter.
abbrev digest : Text → Text
digest s = b'd' ∷ []

abbrev code_of : Text → Text → Text
code_of key s = b'c' ∷ []

abbrev no_files : Files
no_files = record { downloaded = none; pending = []; state = none }

abbrev stage : Text → Text → Staged × Files
stage current target =
    stage_package digest no_files (codes "zip") (codes "/opt/update.pending/p.pkg") (codes " D ")
      current (some target)

older_refused : (stage (codes "1.10") (codes "v1.9.9")).0 ≡ rollback
unfolding stage_package lower strip text_eq
older_refused = refl

digest-IsLine : (s : Text) → IsLine (digest s)
unfolding is_line_end member strip
digest-IsLine s = record { some_char = refl; one_line = refl; stripped = refl }

code_of-IsLine : (key s : Text) → IsLine (code_of key s)
unfolding is_line_end member strip
code_of-IsLine key s = record { some_char = refl; one_line = refl; stripped = refl }

path-IsLine : IsLine (codes "/opt/update.pending/p.pkg")
unfolding is_line_end member strip
path-IsLine = record { some_char = refl; one_line = refl; stripped = refl }

is_newer-Updates_example :
    (is_newer (codes "1.9") (codes "2") ≡ true) × (is_newer (codes "2") (codes "1.9") ≡ false)
unfolding stage_package lower strip text_eq
is_newer-Updates_example = is_newer-Updates digest (
    Updates.then_one {first = codes "1.9"} {current = codes "1.10"} {target = codes "2"} no_files
      (codes "zip") (codes "p") (codes "d")
      (Updates.one {current = codes "1.9"} {target = codes "1.10"} no_files (codes "zip")
        (codes "p") (codes "d") (refl, refl) (refl, refl) refl)
      (refl, refl) (refl, refl) refl)

verify-seal_example :
    (sealed : Files) × (seal_staged_state code_of (stage (codes "1.9") (codes "2")).1 (codes "key")
      ≡ some sealed)
    × (verify_staged_state code_of sealed (codes "key")
        ≡ some (codes "/opt/update.pending/p.pkg", digest (codes "zip")))
    × (lookup (codes "/opt/update.pending/p.pkg") sealed.pending ≡ some (codes "zip"))
unfolding stage_package lower strip contains text_eq
verify-seal_example =
    verify-seal digest code_of digest-IsLine code_of-IsLine (λ k s. refl) no_files (codes "zip")
      (codes "/opt/update.pending/p.pkg") (codes " D ") (codes "1.9") (some (codes "2"))
      (codes "key") refl path-IsLine refl refl
