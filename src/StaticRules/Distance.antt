-- ===== src/StaticRules/Distance.antt =====
-- That `_lev` is the edit distance, as far as its callers look.
use aegis_ecosystem.Prelude.{
  ℕ, suc, ◌+◌, ◌≤◌, ◌≡◌, refl, sym, ap, ◌∙◌, false, ◌||◌, List, [], ◌∷◌, arith, Text, length, ltb,
  leb, nat_eq, if◌then◌else◌, ◌==◌, ==_iff, eq_text, Bool-cases, inl, inr,
}
use Prim.Native.Nat.{min}
use aegis_ecosystem.StaticRules.{fill, rows, range_from, last_entry, lev}

-- The distances of c in front of a word, from those of the word: take c away, add the first
-- character, or put it in the place of c.
abbrev pub extended : ℕ → (Text → ℕ) → Text → ℕ
extended c shorter [] = shorter [] + 1
extended c shorter (y ∷ b) =
    min (min (shorter (y ∷ b) + 1) (extended c shorter b + 1))
      (shorter b + (if nat_eq c y then 0 else 1))

-- The least number of characters to add, take away or replace, by recursion on the words.
abbrev pub distance : Text → Text → ℕ
distance [] b = length b
distance (c ∷ a) b = extended c (distance a) b

abbrev pub reversed_onto : Text → Text → Text
reversed_onto [] done = done
reversed_onto (c ∷ a) done = reversed_onto a (c ∷ done)

-- The distance of two words, read from their last characters on.
abbrev pub edit_distance : Text → Text → ℕ
edit_distance a b = distance (reversed_onto a []) (reversed_onto b [])

-- the entries of a row behind its first
abbrev later : Text → Text → Text → List ℕ
later a done [] = []
later a done (y ∷ b) = distance a (y ∷ done) ∷ later a (y ∷ done) b

abbrev row : Text → Text → List ℕ
row a b = distance a [] ∷ later a [] b

fill-later :
    (c : ℕ) (a done b : Text)
    → fill c b (distance a done ∷ later a done b) (distance (c ∷ a) done) ≡ later (c ∷ a) done b
unfolding fill
fill-later c a done [] = refl
fill-later c a done (y ∷ b) =
    ap (λ ns. distance (c ∷ a) (y ∷ done) ∷ ns) (fill-later c a (y ∷ done) b)

distance-nil : (a : Text) → distance a [] ≡ length a
distance-nil [] = refl
distance-nil (c ∷ a) = omega (arith, distance-nil a)

rows-row :
    (a done b : Text) → rows (suc (length done)) a b (row done b) ≡ row (reversed_onto a done) b
unfolding rows
rows-row [] done b = refl
rows-row (c ∷ a) done b =
    let first : suc (length done) ≡ distance (c ∷ done) [] = omega (arith, distance-nil done) in
    ap (λ n. rows (suc (suc (length done))) a b (n ∷ fill c b (row done b) n)) first
    ∙ (ap (λ ns. rows (suc (suc (length done))) a b (distance (c ∷ done) [] ∷ ns))
          (fill-later c done [] b)
        ∙ rows-row a (c ∷ done) b)

range_from-later : (done b : Text) → range_from (length done) b ≡ length done ∷ later [] done b
unfolding range_from
range_from-later done [] = refl
range_from-later done (y ∷ b) = ap (λ ns. length done ∷ ns) (range_from-later (y ∷ done) b)

last_entry-later :
    (a done b : Text)
    → last_entry (distance a done ∷ later a done b) ≡ distance a (reversed_onto b done)
unfolding last_entry
last_entry-later a done [] = refl
last_entry-later a done (y ∷ b) = last_entry-later a (y ∷ done) b

-- the table of distances ends with the distance
last_entry-rows : (a b : Text) → last_entry (rows 1 a b (range_from 0 b)) ≡ edit_distance a b
last_entry-rows a b =
    ap (λ prev. last_entry (rows 1 a b prev)) (range_from-later [] b)
    ∙ (ap last_entry (rows-row a [] b) ∙ last_entry-later (reversed_onto a []) [] b)

distance_self : (a : Text) → distance a a ≡ 0
distance_self [] = refl
distance_self (c ∷ a) = let shorter = distance_self a in ground (arith, shorter)

extended-length :
    (c n : ℕ) (shorter : Text → ℕ)
    → ((b : Text) → (n ≤ shorter b + length b) × (length b ≤ shorter b + n))
    → (b : Text)
    → (suc n ≤ extended c shorter b + length b) × (length b ≤ extended c shorter b + suc n)
extended-length c n shorter h [] = let (p, q) = h [] in (omega arith, omega arith)
extended-length c n shorter h (y ∷ b) =
    let (p, q) = h (y ∷ b) in
    let (r, s) = h b in
    let (u, v) = extended-length c n shorter h b in
    (ground (arith, p, q, r, s, u, v), ground (arith, p, q, r, s, u, v))

-- one word is no longer than the other by more than their distance
length-distance :
    (a b : Text) → (length a ≤ distance a b + length b) × (length b ≤ distance a b + length a)
length-distance [] b = (omega arith, omega arith)
length-distance (c ∷ a) b = extended-length c (length a) (distance a) (length-distance a) b

length-reversed_onto : (a done : Text) → length (reversed_onto a done) ≡ length a + length done
length-reversed_onto [] done = omega arith
length-reversed_onto (c ∷ a) done = omega (arith, length-reversed_onto a (c ∷ done))

-- The test of its callers, `_lev(a, b) <= 1`, holds exactly of words whose edit distance is at most
-- one, with the tests that end `_lev` early.
pub lev-edit_distance : (a b : Text) → leb (lev a b) 1 ≡ leb (edit_distance a b) 1
unfolding lev
lev-edit_distance a b = elim (Bool-cases (a == b)) [
  | inl same ↦
      let e : a ≡ b = (==_iff a b).0 same in
      let none_apart : edit_distance a b ≡ 0 =
        ap (λ x. edit_distance a x) (sym e) ∙ distance_self (reversed_onto a []) in
      rw (same, none_apart) refl
  | inr apart ↦ elim (Bool-cases (ltb (length a + 1) (length b) || ltb (length b + 1) (length a))) [
    | inr near ↦ rw (apart, near, last_entry-rows a b) refl
    | inl far ↦
        let (p, q) = length-distance (reversed_onto a []) (reversed_onto b []) in
        let m = length-reversed_onto a [] in
        let n = length-reversed_onto b [] in
        let two : leb (edit_distance a b) 1 ≡ false = ground (arith, p, q, m, n, far) in
        rw (apart, far, two) refl
  ]
]
