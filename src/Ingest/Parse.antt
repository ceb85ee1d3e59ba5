-- ===== src/Ingest/Parse.antt =====
-- The parsing of a payload, `parse` and `_parse_auto` of aegis-brain/app/ingest/registry.py: by the
-- parser of the source's name, by the first that knows the payload, or line by line.
pub mod Lines
use aegis_ecosystem.Prelude.{
  ℕ, zero, suc, ◌+◌, false, Option, none, some, List, [], ◌∷◌, ◌++◌, Text, codes, strip, length,
  is_nil, take, contains, if◌then◌else◌, eq_text,
}
use aegis_ecosystem.Prelude.Dict.{Dict, lookup, insert, keys}
use aegis_ecosystem.Json.{Json}
use aegis_ecosystem.Ingest.Texts.{splitlines, sorted, comma_join}
use aegis_ecosystem.Ingest.Registry.{
  Payload, text, bytes, Meta, Parser, source, auto, auto_line, ParseResult, Registry, get, detect,
  run,
}

-- A result of several lines, and how many events each parser gave.
pub record Merged (A : Type 0) : Type 0 where
  pub events : List A
  pub unparsed : ℕ
  pub errors : List Text
  pub used : Dict Text ℕ

-- `used[name] = used.get(name, 0) + n`
unfoldable pub add_used : Text → ℕ → Dict Text ℕ → Dict Text ℕ
add_used name n used = insert name ((elim (lookup name used) [ none ↦ 0 | some m ↦ m ]) + n) used

module _ {A : Type 0} where
  abbrev pub nothing_merged : Merged A
  nothing_merged = record { events = []; unparsed = 0; errors = []; used = [] }

  -- the result of one line, by the parser that knows it
  unfoldable pub merge : Parser A → ParseResult A → Merged A → Merged A
  unfolding add_used
  merge parser single merged = elim single.events [
    | [] ↦ record merged {
      unparsed = merged.unparsed + 1;
      errors = merged.errors ++ take 1 single.errors;
    }
    | event ∷ events ↦ record merged {
      events = merged.events ++ single.events;
      used = add_used parser.name (length single.events) merged.used;
    }
  ]

  unfoldable pub parse_line : Registry A → Meta → Text → Merged A → Merged A
  unfolding detect run merge
  parse_line registry meta [] merged = merged
  parse_line registry meta (c ∷ line) merged = elim (detect registry (text (c ∷ line)) meta false) [
    | none ↦ record merged { unparsed = merged.unparsed + 1 }
    | some parser ↦ merge parser (run parser (text (c ∷ line)) meta auto_line) merged
  ]

  -- the loop over the lines, with how many it may still read
  unfoldable pub parse_lines : ℕ → Registry A → Meta → List Text → Merged A → Merged A
  unfolding parse_line
  parse_lines left registry meta [] merged = merged
  parse_lines zero registry meta (line ∷ lines) merged = record merged {
    unparsed = merged.unparsed + length (line ∷ lines);
  }
  parse_lines (suc left) registry meta (line ∷ lines) merged =
      parse_lines left registry meta lines (parse_line registry meta (strip line) merged)

  -- the name of the result, and the error where there is neither
  unfoldable pub conclude : Text → Merged A → ParseResult A
  unfolding sorted comma_join
  conclude no_match merged = elim merged.used [
    | [] ↦ record {
      events = merged.events;
      parser = none;
      unparsed = merged.unparsed;
      errors = if is_nil merged.errors then no_match ∷ [] else merged.errors;
      detected_by = auto_line;
    }
    | (name, n) ∷ [] ↦ record {
      events = merged.events;
      parser = some name;
      unparsed = merged.unparsed;
      errors = merged.errors;
      detected_by = auto_line;
    }
    | first ∷ second ∷ rest ↦ record {
      events = merged.events;
      parser = some (codes "mixed:" ++ comma_join (sorted (keys (first ∷ second ∷ rest))));
      unparsed = merged.unparsed;
      errors = merged.errors;
      detected_by = auto_line;
    }
  ]

abbrev pub max_auto_lines : ℕ
max_auto_lines = 500

-- `bytes(payload).decode("utf-8", errors="replace")`
unfoldable pub as_text : (Text → Text) → Payload → Payload
as_text decode (bytes b) = text (decode b)
as_text decode payload = payload

-- `meta.setdefault("source", source)`
unfoldable pub with_source : Text → Meta → Meta
with_source name meta = elim (lookup (codes "source") meta) [
  | none ↦ insert (codes "source") (Json.text name) meta
  | some v ↦ meta
]

module _ {A : Type 0} (repr : Text → Text) where
  -- a payload that no parser knows as a whole
  unfoldable pub parse_mixed : Registry A → Text → Payload → Meta → ParseResult A
  unfolding splitlines parse_lines conclude
  parse_mixed registry name (text s) meta =
      if contains (10 ∷ []) (strip s)
      then conclude (codes "no parser matched source=" ++ repr name)
          (parse_lines max_auto_lines registry meta (splitlines s) nothing_merged)
      else record {
        events = [];
        parser = none;
        unparsed = 0;
        errors = (codes "no parser matched source=" ++ repr name) ∷ [];
        detected_by = auto;
      }
  parse_mixed registry name _ meta = record {
    events = [];
    parser = none;
    unparsed = 0;
    errors = (codes "no parser matched source=" ++ repr name) ∷ [];
    detected_by = auto;
  }

  -- `_parse_auto`
  unfoldable pub parse_auto : Registry A → Text → Payload → Meta → ParseResult A
  unfolding parse_mixed detect run
  parse_auto registry name payload meta = elim (detect registry payload meta false) [
    | some parser ↦ run parser payload meta auto
    | none ↦ parse_mixed registry name payload meta
  ]

  -- `parse`
  unfoldable pub parse : (Text → Text) → Registry A → Text → Payload → Meta → ParseResult A
  unfolding get as_text with_source run parse_auto
  parse decode registry name payload meta = elim (get registry name) [
    | some parser ↦ run parser (as_text decode payload) (with_source name meta) source
    | none ↦ parse_auto registry name (as_text decode payload) (with_source name meta)
  ]
