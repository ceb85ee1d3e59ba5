-- ===== src/Ingest/Texts.antt =====
-- Python's operations on texts that the registry of parsers uses, aegis-brain/app/ingest/registry.py.
use aegis_ecosystem.Prelude.{
  ℕ, Bool, true, false, ◌&&◌, List, [], ◌∷◌, ◌++◌, Text, member, is_nil, leb, if◌then◌else◌, eq_nat,
  nat_eq,
}

-- `str.splitlines`: the characters that end a line, with a carriage return and line feed as one
unfoldable pub is_line_end : ℕ → Bool
is_line_end c = member c (10 ∷ 11 ∷ 12 ∷ 13 ∷ 28 ∷ 29 ∷ 30 ∷ 0x85 ∷ 0x2028 ∷ 0x2029 ∷ [])

-- a line with what is read of it, and whether the last character was a carriage return
unfoldable pub split_from : Text → Bool → Text → List Text
unfolding is_line_end
split_from line after_cr [] = if is_nil line then [] else line ∷ []
split_from line after_cr (c ∷ s) = elim (is_line_end c) [
  | true ↦ elim (after_cr && nat_eq c 10) [
    | true ↦ split_from [] false s
    | false ↦ line ∷ split_from [] (nat_eq c 13) s
  ]
  | false ↦ split_from (line ++ c ∷ []) false s
]

unfoldable pub splitlines : Text → List Text
unfolding split_from
splitlines s = split_from [] false s

-- `a <= b` of two texts, and `sorted`
unfoldable pub text_le : Text → Text → Bool
text_le [] t = true
text_le (a ∷ s) [] = false
text_le (a ∷ s) (b ∷ t) = let rest = text_le s t in if nat_eq a b then rest else leb a b

unfoldable pub insert_sorted : Text → List Text → List Text
unfolding text_le
insert_sorted a [] = a ∷ []
insert_sorted a (b ∷ l) =
    let rest = insert_sorted a l in if text_le a b then a ∷ b ∷ l else b ∷ rest

unfoldable pub sorted : List Text → List Text
unfolding insert_sorted
sorted [] = []
sorted (a ∷ l) = insert_sorted a (sorted l)

-- `",".join(texts)`
unfoldable pub comma_join : List Text → Text
comma_join [] = []
comma_join (a ∷ l) = let rest = comma_join l in elim l [ [] ↦ a | b ∷ m ↦ a ++ (b',' ∷ rest) ]
