-- ===== src/Ingest/Registry.antt =====
-- The registry of parsers, `ParserRegistry` and `ParseResult` of aegis-brain/app/ingest/registry.py. A
-- parser is a record of its two methods, and what they raise is a value. The decoding of bytes, the
-- representation of a text and the texts of exceptions are Python's, and parameters.

mod Known
use aegis_ecosystem.Prelude.{
  ℕ, Bool, true, ◌&&◌, Option, none, some, List, [], ◌∷◌, ◌++◌, Text, codes, lower, strip, member,
  if◌then◌else◌, eq_text, eq_nat,
}
use aegis_ecosystem.Prelude.Dict.{Dict, lookup, insert}
use aegis_ecosystem.Json.{Json}

pub data Payload : Type 0 where
  text : Text → Payload
  bytes : Text → Payload
  other : Json → Payload

abbrev pub Meta : Type 0
Meta = Dict Text Json

-- What `parser.parse` returns or raises.
pub data Parsed (A : Type 0) : Type 0 where
  parsed : List A → Parsed A
  parser_error raised : Text → Parsed A

-- `none` of `can_parse` is an exception.
pub record Parser (A : Type 0) : Type 0 where
  pub name : Text
  pub source_type : Text
  pub can_parse : Payload → Meta → Option Bool
  pub parse : Payload → Meta → Parsed A

pub data DetectedBy : Type 0 where
  source auto auto_line : DetectedBy

pub record ParseResult (A : Type 0) : Type 0 where
  pub events : List A
  pub parser : Option Text
  pub unparsed : ℕ
  pub errors : List Text
  pub detected_by : DetectedBy

pub record Registry (A : Type 0) : Type 0 where
  pub parsers : Dict Text (Parser A)
  pub order : List Text
  pub generic : List Text

module _ {A : Type 0} where
  abbrev pub empty_registry : Registry A
  empty_registry = record { parsers = []; order = []; generic = [] }

  unfoldable pub add_aliases : Parser A → List Text → Dict Text (Parser A) → Dict Text (Parser A)
  add_aliases parser [] parsers = parsers
  add_aliases parser (alias ∷ aliases) parsers =
      add_aliases parser aliases (insert alias parser parsers)

  -- `register`
  unfoldable pub register : Registry A → Parser A → List Text → Bool → Registry A
  unfolding add_aliases
  register registry parser aliases generic = record {
    parsers = add_aliases parser aliases (insert parser.name parser registry.parsers);
    order =
        if member parser.name registry.order
        then registry.order
        else registry.order ++ parser.name ∷ [];
    generic = if generic then parser.name ∷ registry.generic else registry.generic;
  }

  -- `get`
  unfoldable pub get : Registry A → Text → Option (Parser A)
  get registry name = lookup (lower (strip name)) registry.parsers

  -- `detect` over the names that are left; every name of the order is a key of the parsers
  unfoldable pub detect_in : Registry A → List Text → Payload → Meta → Bool → Option (Parser A)
  detect_in registry [] payload meta skip_generic = none
  detect_in registry (name ∷ names) payload meta skip_generic =
      let rest = detect_in registry names payload meta skip_generic in
      if skip_generic && member name registry.generic
      then rest
      else (elim (lookup name registry.parsers) [
        | none ↦ none
        | some parser ↦ elim (parser.can_parse payload meta) [ some true ↦ some parser | _ ↦ rest ]
      ])

  unfoldable pub detect : Registry A → Payload → Meta → Bool → Option (Parser A)
  unfolding detect_in
  detect registry payload meta skip_generic =
      detect_in registry registry.order payload meta skip_generic

  -- `_run`
  unfoldable pub run : Parser A → Payload → Meta → DetectedBy → ParseResult A
  run parser payload meta detected_by = elim (parser.parse payload meta) [
    | parsed events ↦ record {
      events = events;
      parser = some parser.name;
      unparsed = 0;
      errors = [];
      detected_by = detected_by;
    }
    | parser_error exc ↦ record {
      events = [];
      parser = some parser.name;
      unparsed = 0;
      errors = (parser.name ++ (codes ": " ++ exc)) ∷ [];
      detected_by = detected_by;
    }
    | raised exc ↦ record {
      events = [];
      parser = some parser.name;
      unparsed = 0;
      errors = (parser.name ++ (codes ": internal error: " ++ exc)) ∷ [];
      detected_by = detected_by;
    }
  ]
