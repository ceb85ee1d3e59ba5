-- ===== src/Consumer/Files/Paths.antt =====
-- Reading back the line of a file event, "[FIM] <change>: <path>", as `handle_file_event` of
-- aegis-brain/app/services/file_event_service.py does.
use aegis_ecosystem.Prelude.{
  ℕ, ◌≡◌, refl, ap, ◌∙◌, false, [], ◌∷◌, ◌++◌, arith, Text, codes, lower, strip, lstrip, rstrip,
  contains, starts_with, All, eq_text,
}
use aegis_ecosystem.Json.{Fields, text, get_field}
use aegis_ecosystem.Heuristic.Conditions.{text_or_none, text_value}
use aegis_ecosystem.Consumer.Files.{remove_from, raw_path, split_change, verbs, change_of}

-- A text in which the part does not stand is left whole.
remove_from_absent : (old s : Text) → contains old s ≡ false → remove_from old 0 s ≡ s
unfolding contains remove_from
remove_from_absent old [] h = refl
remove_from_absent old (c ∷ s) h =
    let first : starts_with old (c ∷ s) ≡ false = ground arith in
    let rest : contains old s ≡ false = ground arith in
    rw (first, remove_from) (ap (λ t. c ∷ t) (remove_from_absent old s rest))

rstrip-append :
    (xs : Text) (c : ℕ) (s : Text) → rstrip (c ∷ s) ≡ c ∷ s → rstrip (xs ++ c ∷ s) ≡ xs ++ c ∷ s
unfolding rstrip
rstrip-append [] c s h = h
rstrip-append (x ∷ []) c s h = rw (h, rstrip) refl
rstrip-append (x ∷ y ∷ xs) c s h = rw (rstrip-append (y ∷ xs) c s h, rstrip) refl

-- the line of a change
abbrev pub line_of : Text → Text → Text
line_of verb path = codes "[FIM] " ++ (verb ++ (codes ": " ++ path))

module _ (c : ℕ) (s : Text) (left : lstrip (c ∷ s) ≡ c ∷ s) (right : rstrip (c ∷ s) ≡ c ∷ s)
    (absent : contains (codes "[FIM] ") (c ∷ s) ≡ false) where
  strip_path : strip (c ∷ s) ≡ c ∷ s
  unfolding strip
  strip_path = ap lstrip right ∙ left

  kept : remove_from (codes "[FIM] ") 0 (c ∷ s) ≡ c ∷ s
  kept = remove_from_absent (codes "[FIM] ") (c ∷ s) absent

  -- what the reading of a line needs of its verb, which computes for each of the verbs
  read_line :
      (event : Fields) (d : ℕ) (v : Text)
      → get_field (codes "command_line") event ≡ text (line_of (d ∷ v) (c ∷ s))
      → lstrip ((d ∷ v) ++ (codes ": " ++ c ∷ s)) ≡ (d ∷ v) ++ (codes ": " ++ c ∷ s)
      → remove_from (codes "[FIM] ") 0 (line_of (d ∷ v) (c ∷ s))
        ≡ (d ∷ v) ++ (codes ": " ++ remove_from (codes "[FIM] ") 0 (c ∷ s))
      → split_change verbs ((d ∷ v) ++ (codes ": " ++ c ∷ s)) ≡ (d ∷ v, strip (c ∷ s))
      → change_of event ≡ (d ∷ v, c ∷ s)
  unfolding change_of raw_path strip lstrip text_or_none text_value
  read_line event d v line first removed split =
      let colon : rstrip (codes ": " ++ c ∷ s) ≡ codes ": " ++ c ∷ s =
        rstrip-append (codes ": ") c s right in
      let whole : strip (line_of (d ∷ v) (c ∷ s)) ≡ line_of (d ∷ v) (c ∷ s) =
        ap lstrip (rstrip-append (codes "[FIM] " ++ d ∷ v) b':' (b' ' ∷ c ∷ s) colon) in
      let bare : strip ((d ∷ v) ++ (codes ": " ++ c ∷ s)) ≡ (d ∷ v) ++ (codes ": " ++ c ∷ s) =
        ap lstrip (rstrip-append (d ∷ v) b':' (b' ' ∷ c ∷ s) colon) ∙ first in
      let rest : remove_from (codes "[FIM] ") 0 (line_of (d ∷ v) (c ∷ s))
          ≡ (d ∷ v) ++ (codes ": " ++ c ∷ s) =
        removed ∙ ap (λ r. (d ∷ v) ++ (codes ": " ++ r)) kept in
      rw (line, change_of, raw_path, whole, rest, bare) (split ∙ ap (λ r. (d ∷ v, r)) strip_path)

  -- A line "[FIM] <change>: <path>" of a path that is not empty, has no space at its ends and does not
  -- hold "[FIM] ": each of the three changes is read back with the path.
  pub change_of-line_of :
      (event : Text → Fields)
      → ((line : Text) → get_field (codes "command_line") (event line) ≡ text line)
      → All (λ verb. change_of (event (line_of verb (c ∷ s))) ≡ (verb, c ∷ s)) verbs
  unfolding lstrip remove_from starts_with split_change lower
  change_of-line_of event reads = (
    read_line (event (line_of (codes "created") (c ∷ s))) b'c' (codes "reated")
        (reads (line_of (codes "created") (c ∷ s))) refl refl refl,
    (
      read_line (event (line_of (codes "modified") (c ∷ s))) b'm' (codes "odified")
          (reads (line_of (codes "modified") (c ∷ s))) refl refl refl,
      (
        read_line (event (line_of (codes "deleted") (c ∷ s))) b'd' (codes "eleted")
            (reads (line_of (codes "deleted") (c ∷ s))) refl refl refl,
        tt,
      ),
    ),
  )
