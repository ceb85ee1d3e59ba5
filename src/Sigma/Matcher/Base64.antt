-- ===== src/Sigma/Matcher/Base64.antt =====
-- `_base64_variants` of aegis-brain/app/rules/sigma/matcher.py, with Python's `b64encode`. A
-- character is one byte, so the pattern is ASCII text.
use aegis_ecosystem.Prelude.{
  ℕ, ◌+◌, ◌-◌, ◌*◌, ◌/◌, ◌%◌, Bool, List, [], ◌∷◌, Text, ltb, nat_eq, drop, filter, if◌then◌else◌,
}

-- the alphabet of base64
unfoldable pub digit : ℕ → ℕ
digit n =
    if ltb n 26
    then n + b'A'
    else if ltb n 52
    then n - 26 + b'a'
    else if ltb n 62
    then n - 52 + b'0'
    else if nat_eq n 62
    then b'+'
    else b'/'

-- `base64.b64encode`, three bytes to four characters, with `=` for what the last group lacks
unfoldable pub b64encode : List ℕ → Text
unfolding digit
b64encode [] = []
b64encode (a ∷ []) = digit (a / 4) ∷ digit (a % 4 * 16) ∷ b'=' ∷ b'=' ∷ []
b64encode (a ∷ b ∷ []) =
    digit (a / 4) ∷ digit (a % 4 * 16 + b / 16) ∷ digit (b % 16 * 4) ∷ b'=' ∷ []
b64encode (a ∷ b ∷ c ∷ s) =
    digit (a / 4)
    ∷ digit (a % 4 * 16 + b / 16)
    ∷ digit (b % 16 * 4 + c / 64)
    ∷ digit (c % 64)
    ∷ b64encode s

-- `.rstrip("=")`
unfoldable pub rstrip_equals : Text → Text
rstrip_equals [] = []
rstrip_equals (c ∷ s) = elim (rstrip_equals s) [
  | [] ↦ if nat_eq c b'=' then [] else c ∷ []
  | d ∷ t ↦ c ∷ d ∷ t
]

unfoldable pub is_nonempty : Text → Bool
is_nonempty [] = Bool.false
is_nonempty (c ∷ s) = Bool.true

-- the encodings at the offsets 0, 1 and 2, without the characters that the padding decides
unfoldable pub base64_variants : Text → List Text
unfolding b64encode rstrip_equals is_nonempty
base64_variants raw = filter is_nonempty (
    rstrip_equals (b64encode raw)
    ∷ rstrip_equals (drop 2 (b64encode (0 ∷ raw)))
    ∷ rstrip_equals (drop 3 (b64encode (0 ∷ 0 ∷ raw)))
    ∷ [])
