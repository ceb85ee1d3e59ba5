-- ===== src/Updater/StateFile.antt =====
-- The lines of the sealed state file, NodeTrace/agents/python/services/updater.py, and what is read of
-- them.
use aegis_ecosystem.Prelude.{
  true, false, not, List, [], ◌∷◌, ◌++◌, ◌≡◌, refl, ap, ◌∙◌, text_eq, Text, codes, strip, is_nil,
  all, member, eq_text, Bool-cases, inl, inr,
}
use mathlib.Core.List.{append_assoc, append-nil}
use aegis_ecosystem.Prelude.Dict.{Dict, insert}
use aegis_ecosystem.Ingest.Texts.{is_line_end, split_from, splitlines}
use aegis_ecosystem.Updater.{body_of, read_values}

-- A text that a line of the file can hold: not empty, of no character that ends a line, and with no
-- space at its ends.
pub record IsLine (s : Text) : Type 0 where
  pub some_char : is_nil s ≡ false
  pub one_line : all (λ c. not (is_line_end c)) s ≡ true
  pub stripped : strip s ≡ s

line_feed : is_line_end 10 ≡ true
unfolding is_line_end member
line_feed = refl

split_from-line :
    (line s rest : Text)
    → all (λ c. not (is_line_end c)) s ≡ true
    → split_from line false (s ++ 10 ∷ rest) ≡ (line ++ s) ∷ split_from [] false rest
unfolding split_from
split_from-line line [] rest h = rw (line_feed, split_from) (rw append-nil refl)
split_from-line line (c ∷ s) rest h = elim (Bool-cases (is_line_end c)) [
  | inl e ↦ let bad = rw e at h in cc
  | inr e ↦
      let tail = rw e at h in
      rw (e, split_from)
        (split_from-line (line ++ c ∷ []) s rest tail ∙ rw (append_assoc line (c ∷ []) s) refl)
]

-- the state file in front of some text
body_of-append :
    (path sha256 t : Text)
    → body_of path sha256 ++ t
      ≡ codes "staged="
        ++ (path
            ++ (10
                ∷ (codes "sha256=" ++ (sha256 ++ (10 ∷ (codes "status=pending-restart\n" ++ t))))))
unfolding body_of
body_of-append path sha256 t =
    ap (λ r. codes "staged=" ++ r)
      (append_assoc path _ t
        ∙ ap (λ r. path ++ (10 ∷ (codes "sha256=" ++ r))) (append_assoc sha256 _ t))

-- the lines of a sealed state file
pub splitlines-sealed :
    (path sha256 mac : Text)
    → IsLine path
    → IsLine sha256
    → IsLine mac
    → splitlines (body_of path sha256 ++ (codes "mac=" ++ (mac ++ (10 ∷ []))))
      ≡ (codes "staged=" ++ path)
        ∷ (codes "sha256=" ++ sha256)
        ∷ codes "status=pending-restart"
        ∷ (codes "mac=" ++ mac)
        ∷ []
unfolding splitlines is_line_end member
splitlines-sealed path sha256 mac p s m = rw body_of-append (
    split_from-line [] (codes "staged=" ++ path) _ p.one_line
    ∙ ap (λ ls. (codes "staged=" ++ path) ∷ ls)
        (split_from-line [] (codes "sha256=" ++ sha256) _ s.one_line
          ∙ ap (λ ls. (codes "sha256=" ++ sha256) ∷ ls)
              (split_from-line [] (codes "status=pending-restart")
                  (codes "mac=" ++ (mac ++ (10 ∷ []))) refl
                ∙ ap (λ ls. codes "status=pending-restart" ∷ ls)
                    (split_from-line [] (codes "mac=" ++ mac) [] m.one_line))))

-- the values of a sealed state file
abbrev pub values : Text → Text → Text → Dict Text Text
values path sha256 mac =
    (codes "staged", path)
    ∷ (codes "sha256", sha256)
    ∷ (codes "status", codes "pending-restart")
    ∷ (codes "mac", mac)
    ∷ []

strip_keys :
    (strip (codes "staged") ≡ codes "staged")
    × (strip (codes "sha256") ≡ codes "sha256")
    × (strip (codes "status") ≡ codes "status")
    × (strip (codes "pending-restart") ≡ codes "pending-restart")
    × (strip (codes "mac") ≡ codes "mac")
unfolding strip
strip_keys = (refl, refl, refl, refl, refl)

pub read_values-sealed :
    (path sha256 mac : Text) (lines : List Text)
    → lines
      ≡ (codes "staged=" ++ path)
        ∷ (codes "sha256=" ++ sha256)
        ∷ codes "status=pending-restart"
        ∷ (codes "mac=" ++ mac)
        ∷ []
    → IsLine path
    → IsLine sha256
    → IsLine mac
    → read_values lines [] ≡ values path sha256 mac
unfolding read_values insert text_eq
read_values-sealed path sha256 mac lines e p s m =
    rw
      (
        e, p.stripped, s.stripped, m.stripped, strip_keys.0, strip_keys.1, strip_keys.2,
        strip_keys.3, strip_keys.4,
      )
      refl
