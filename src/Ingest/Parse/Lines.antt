-- ===== src/Ingest/Parse/Lines.antt =====
-- What the loop over the lines of a payload makes of each line, `_parse_auto` of
-- aegis-brain/app/ingest/registry.py.
use mathlib.Core.List.{append_assoc, append-nil}
use aegis_ecosystem.Prelude.{
  ℕ, zero, suc, ◌+◌, Bool, true, false, none, some, List, [], ◌∷◌, ◌++◌, ◌≡◌, refl, sym, ◌∙◌, inl,
  inr, Text, strip, length, is_nil, take, drop, arith, codes, contains, Option-cases, List-cases,
  if◌then◌else◌,
}
use aegis_ecosystem.Ingest.Registry.{
  text, Meta, Parser, auto_line, ParseResult, Registry, get, detect, run,
}
use aegis_ecosystem.Ingest.Texts.{splitlines}
use aegis_ecosystem.Ingest.Parse.{
  Merged, merge, parse_line, parse_lines, nothing_merged, conclude, max_auto_lines, parse_mixed,
  parse_auto, as_text, with_source, parse,
}
use aegis_ecosystem.Prelude.Dict.{Dict}

module _ {A : Type 0} (registry : Registry A) (meta : Meta) where
  -- the events of a stripped line: those of the first parser that knows it
  abbrev pub events_of : Text → List A
  events_of [] = []
  events_of (c ∷ line) = elim (detect registry (text (c ∷ line)) meta false) [
    | none ↦ []
    | some parser ↦ (run parser (text (c ∷ line)) meta auto_line).events
  ]

  -- a line that is not blank and gives no event
  abbrev pub is_unparsed : Text → Bool
  is_unparsed [] = false
  is_unparsed (c ∷ line) = is_nil (events_of (c ∷ line))

  -- the events of several lines, in their order
  abbrev pub all_events : List Text → List A
  all_events [] = []
  all_events (line ∷ lines) = events_of (strip line) ++ all_events lines

  -- how many lines are not blank and give no event
  abbrev pub unparsed_of : List Text → ℕ
  unparsed_of [] = 0
  unparsed_of (line ∷ lines) =
      if is_unparsed (strip line) then suc (unparsed_of lines) else unparsed_of lines

  merge_lem :
      (parser : Parser A) (r : ParseResult A) (m : Merged A)
      → ((merge parser r m).events ≡ m.events ++ r.events)
        × ((merge parser r m).unparsed ≡ m.unparsed + (if is_nil r.events then 1 else 0))
  unfolding merge
  merge_lem parser r m = elim (List-cases r.events) [
    | inl e ↦ rw (e, merge) (sym (append-nil m.events), refl)
    | inr (x, xs, e) ↦ rw (e, merge) (rw e refl, omega arith)
  ]

  parse_line_lem :
      (line : Text) (m : Merged A)
      → ((parse_line registry meta line m).events ≡ m.events ++ events_of line)
        × ((parse_line registry meta line m).unparsed
            ≡ m.unparsed + (if is_unparsed line then 1 else 0))
  unfolding parse_line
  parse_line_lem [] m = (sym (append-nil m.events), omega arith)
  parse_line_lem (c ∷ line) m = elim (Option-cases (detect registry (text (c ∷ line)) meta false)) [
    | inl e ↦ rw (e, parse_line, events_of) (sym (append-nil m.events), refl)
    | inr (parser, e) ↦
        rw (e, parse_line, events_of)
          (merge_lem parser (run parser (text (c ∷ line)) meta auto_line) m)
  ]

  -- After a loop that may read `left` lines, the events are those of the lines read, and what is
  -- unparsed are the lines of these that give no event and all the lines not read.
  pub parse_lines_lem :
      (left : ℕ) (lines : List Text) (m : Merged A)
      → ((parse_lines left registry meta lines m).events ≡ m.events ++ all_events (take left lines))
        × ((parse_lines left registry meta lines m).unparsed
            ≡ m.unparsed + unparsed_of (take left lines) + length (drop left lines))
  unfolding parse_lines
  parse_lines_lem zero [] m = (sym (append-nil m.events), omega arith)
  parse_lines_lem (suc left) [] m = (sym (append-nil m.events), omega arith)
  parse_lines_lem zero (line ∷ lines) m = (sym (append-nil m.events), omega arith)
  parse_lines_lem (suc left) (line ∷ lines) m =
      let (a, b) = parse_line_lem (strip line) m in
      let (x, y) = parse_lines_lem left lines (parse_line registry meta (strip line) m) in
      (
        x ∙ rw a (append_assoc m.events (events_of (strip line)) (all_events (take left lines))),
        y ∙ rw b (ground arith),
      )

conclude_lem :
    {A : Type 0} (no_match : Text) (m : Merged A) (used : Dict Text ℕ)
    → m.used ≡ used
    → ((conclude no_match m).events ≡ m.events) × ((conclude no_match m).unparsed ≡ m.unparsed)
unfolding conclude
conclude_lem no_match m [] e = rw (e, conclude) (refl, refl)
conclude_lem no_match m ((name, n) ∷ []) e = rw (e, conclude) (refl, refl)
conclude_lem no_match m (first ∷ second ∷ rest) e = rw (e, conclude) (refl, refl)

module _ {A : Type 0} (repr decode : Text → Text) (registry : Registry A) where
  -- Of a text of several lines that no parser knows as a whole, for a source that has the name of
  -- none: the events are those of its first 500 lines, in their order, each line's by the first parser
  -- that knows it; and what is counted as unparsed are the lines of these that are not blank and give
  -- no event, and every line behind them.
  pub parse-all_events :
      (name s : Text) (meta : Meta)
      → get registry name ≡ none
      → detect registry (text s) (with_source name meta) false ≡ none
      → contains (10 ∷ []) (strip s) ≡ true
      → let r = parse repr decode registry name (text s) meta in
        let first = take max_auto_lines (splitlines s) in
        (r.events ≡ all_events registry (with_source name meta) first)
        × (r.unparsed
            ≡ unparsed_of registry (with_source name meta) first
              + length (drop max_auto_lines (splitlines s)))
  unfolding parse parse_auto parse_mixed as_text
  parse-all_events name s meta g d c =
      let m =
        parse_lines max_auto_lines registry (with_source name meta) (splitlines s) nothing_merged in
      let (a, b) =
        parse_lines_lem registry (with_source name meta) max_auto_lines (splitlines s)
          nothing_merged in
      let (x, y) = conclude_lem (codes "no parser matched source=" ++ repr name) m m.used refl in
      rw (g, parse) (rw (d, parse_auto) (rw (c, parse_mixed) (x ∙ a, y ∙ b ∙ omega arith)))
