-- ===== src/StaticRules.antt =====
-- Helpers of the static rules, aegis-brain/app/rules/rule_definitions.py.
pub mod Distance
use aegis_ecosystem.Prelude.{
  ℕ, suc, ◌+◌, ◌||◌, List, [], ◌∷◌, Text, length, ltb, nat_eq, if◌then◌else◌, ◌==◌, eq_text,
}
use Prim.Native.Nat.{min}

-- the rest of `cur`, from `prev` and the entry on the left
unfoldable pub fill : ℕ → Text → List ℕ → ℕ → List ℕ
fill c [] prev left = []
fill c (y ∷ b) [] left = []
fill c (y ∷ b) (diagonal ∷ []) left = []
fill c (y ∷ b) (diagonal ∷ up ∷ prev) left =
    let entry = min (min (up + 1) (left + 1)) (diagonal + (if nat_eq c y then 0 else 1)) in
    entry ∷ fill c b (up ∷ prev) entry

-- the loop over `a`; the first argument is `i`
unfoldable pub rows : ℕ → Text → Text → List ℕ → List ℕ
unfolding fill
rows i [] b prev = prev
rows i (c ∷ a) b prev = rows (suc i) a b (i ∷ fill c b prev i)

-- `list(range(n, ...))`, one entry for each character and one more
unfoldable pub range_from : ℕ → Text → List ℕ
range_from n [] = n ∷ []
range_from n (y ∷ b) = n ∷ range_from (suc n) b

-- `prev[lb]`, the last entry
unfoldable pub last_entry : List ℕ → ℕ
last_entry [] = 0
last_entry (n ∷ []) = n
last_entry (n ∷ m ∷ ns) = last_entry (m ∷ ns)

-- `_lev`
unfoldable pub lev : Text → Text → ℕ
unfolding rows range_from last_entry
lev a b =
    if a == b
    then 0
    else if ltb (length a + 1) (length b) || ltb (length b + 1) (length a)
    then 2
    else last_entry (rows 1 a b (range_from 0 b))
