-- ===== src/Redaction.antt =====
-- What the server removes from an event before it stores it, aegis-brain/app/core/redaction.py. The
-- regexes of Python, and its `repr` of a value that is no text, are parameters (Library).
pub mod Controls
pub mod Declared
use aegis_ecosystem.Prelude.{
  ℕ, Bool, true, false, not, ◌&&◌, ◌||◌, ◌≡◌, List, [], ◌∷◌, ◌++◌, Text, codes, lower, contains,
  replace_char, member, any, filter, take, leb, nat_eq, if◌then◌else◌, ◌==◌, eq_text, eq_nat,
  eq_pair,
}
use aegis_ecosystem.Json.{
  Json, Items, Fields, null, boolean, number, text, array, object, nil, cons, end, field, is_truthy,
  get_field, set_field,
}

-- `_PATTERNS`: the regex and its replacement
abbrev pub patterns : List (Text × Text)
patterns =
    (
      codes
          "(?i)(--?(pass(word)?|pwd|token|secret|api[-_]?key|salt|auth|session[-_]?cookie)\\s*[=:\\s])(\\S+)",
      codes "\\1<redacted>",
    )
    ∷ (codes "(?i)(bearer\\s+)([^\\s\\\"']+)", codes "\\1<redacted>")
    ∷ (
      codes
          "(?i)([\"']?(?:password|passwd|pwd|token|secret|api[-_]?key|authorization|cookie)[\"']?\\s*[=:]\\s*[\"']?)(\\S+)",
      codes "\\1<redacted>",
    )
    ∷ (codes "(?i)(aws_secret_access_key\\s*[=:]\\s*)([A-Za-z0-9/+=]+)", codes "\\1<redacted>")
    ∷ (codes "\\b(AKIA[0-9A-Z]{16})\\b", codes "<redacted>")
    ∷ (codes "(?i)(x-oxo-shell\\s+)([A-Za-z0-9\\-])\\S*", codes "\\1<redacted>")
    ∷ (codes "(?i)(sk-[A-Za-z0-9]{10,})", codes "<redacted>")
    ∷ (
      codes
          "(?i)(set\\s+)([A-Za-z0-9_]*?(?:pass|token|secret|key|cookie|cred)[A-Za-z0-9_]*\\s*=?\\s*)(\\S+)",
      codes "\\1\\2<redacted>",
    )
    ∷ (codes "(?i)(%\\w*(?:pass|token|secret|key|cookie|cred)\\w*%)", codes "<redacted>")
    ∷ []

-- `_CONTROL_CHARS`: 0 to 31 without tabulator, line feed and carriage return, and 127
unfoldable pub is_control : ℕ → Bool
is_control c = leb c 8 || (nat_eq c 11 || (nat_eq c 12 || ((leb 14 c && leb c 31) || nat_eq c 127)))

pub record Library : Type 0 where
  -- `re.compile(pattern).sub(replacement, text)`
  pub sub : Text → Text → Text → Text
  -- a replacement of the table brings its own characters and groups of the text
  pub sub_chars :
      (pattern replacement s : Text) (c : ℕ)
      → member (pattern, replacement) patterns ≡ true
      → member c (sub pattern replacement s) ≡ true
      → (member c s || member c replacement) ≡ true
  -- `str` of a value that is no text: its texts stand in quotes, their control characters escaped
  pub repr : Json → Text
  pub repr_prints : (v : Json) → any is_control (repr v) ≡ false

abbrev pub secret_keys : List Text
secret_keys =
    codes "password"
    ∷ codes "token"
    ∷ codes "secret"
    ∷ codes "api_key"
    ∷ codes "apikey"
    ∷ codes "key"
    ∷ codes "cookie"
    ∷ codes "auth"
    ∷ codes "credential"
    ∷ codes "pass"
    ∷ []

abbrev pub passthrough_keys : List Text
passthrough_keys =
    codes "agent_id"
    ∷ codes "agentId"
    ∷ codes "timestamp"
    ∷ codes "event_type"
    ∷ codes "eventType"
    ∷ codes "hostname"
    ∷ codes "ip_address"
    ∷ codes "ipAddress"
    ∷ codes "os"
    ∷ codes "process_name"
    ∷ codes "processName"
    ∷ codes "user"
    ∷ codes "pid"
    ∷ codes "parent_pid"
    ∷ codes "parentPid"
    ∷ codes "parent_process_name"
    ∷ codes "parentProcessName"
    ∷ []

-- `strip_control_chars`, with whether something was removed so far
unfoldable pub strip_control_chars : Text → Bool → Text × Bool
strip_control_chars value stripped =
    if any is_control value
    then (filter (λ c. not (is_control c)) value, true)
    else (value, stripped)

unfoldable pub is_secret : Text → Bool
is_secret key = let k = replace_char b'-' b'_' (lower key) in any (λ s. contains s k) secret_keys

module _ (library : Library) where
  open library use {sub, repr}

  unfoldable pub substitute : List (Text × Text) → Text → Text
  substitute [] s = s
  substitute ((pattern, replacement) ∷ rest) s = substitute rest (sub pattern replacement s)

  -- `redact_text`, with `max_len` as its default
  unfoldable pub redact_text : Text → Text
  unfolding substitute
  redact_text [] = []
  redact_text (c ∷ s) = take 4096 (substitute patterns (take 8192 (c ∷ s)))

  -- `redact_value` of a text
  unfoldable pub redact_value : Text → Text → Text
  unfolding redact_text is_secret
  redact_value key value = if is_secret key then codes "<redacted>" else redact_text value

  -- `_sanitize_value` of a text without control characters
  unfoldable pub sanitize_text : Text → Text → Text
  unfolding redact_value
  sanitize_text key value =
      if member key passthrough_keys
      then value
      else if lower key == codes "command_line" || lower key == codes "commandline"
      then redact_text value
      else redact_value key value

  unfoldable mutual
    unfolding sanitize_text strip_control_chars

    -- `_sanitize_value`
    pub sanitize_value : Text → Json → Bool → Json × Bool
    sanitize_value key null stripped = (null, stripped)
    sanitize_value key (boolean b) stripped = (boolean b, stripped)
    sanitize_value key (number is_zero shown) stripped = (number is_zero shown, stripped)
    sanitize_value key (text s) stripped =
        let (value, stripped') = strip_control_chars s stripped in
        (text (sanitize_text key value), stripped')
    sanitize_value key (array vs) stripped =
        let (ws, stripped') = sanitize_items key vs stripped in (array ws, stripped')
    sanitize_value key (object fs) stripped =
        let (gs, stripped') = sanitize_fields fs stripped in (object gs, stripped')

    pub sanitize_items : Text → Items → Bool → Items × Bool
    sanitize_items key nil stripped = (nil, stripped)
    sanitize_items key (cons v vs) stripped =
        let (w, stripped1) = sanitize_value key v stripped in
        let (ws, stripped2) = sanitize_items key vs stripped1 in (cons w ws, stripped2)

    pub sanitize_fields : Fields → Bool → Fields × Bool
    sanitize_fields end stripped = (end, stripped)
    sanitize_fields (field k v fs) stripped =
        let (w, stripped1) = sanitize_value k v stripped in
        let (gs, stripped2) = sanitize_fields fs stripped1 in (field k w gs, stripped2)

  -- `f"{existing}"`
  unfoldable pub show : Json → Text
  show (text s) = s
  show null = repr null
  show (boolean b) = repr (boolean b)
  show (number is_zero shown) = repr (number is_zero shown)
  show (array vs) = repr (array vs)
  show (object fs) = repr (object fs)

  -- the value of `quality` when something was removed
  unfoldable pub marked : Json → Text
  unfolding show is_truthy
  marked existing = take 64 (
      if is_truthy existing then show existing ++ codes ";stripped-ctrl" else codes "stripped-ctrl")

  unfoldable pub sanitize_event : Fields → Fields
  unfolding marked get_field set_field sanitize_fields
  sanitize_event payload =
      let (clean, stripped) = sanitize_fields payload false in
      if stripped
      then set_field (codes "quality") (text (marked (get_field (codes "quality") clean))) clean
      else clean
