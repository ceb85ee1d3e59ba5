-- ===== src/Redis/Queues/Moves.antt =====
-- What a move out of a list takes, by the last item of the list.
use aegis_ecosystem.Prelude.{
  Option, none, some, List, [], ◌∷◌, ◌++◌, ◌≡◌, refl, sym, ap, Text, eq_text, arith,
}
use aegis_ecosystem.Redis.Queues.{Moves, remove_first}

snoc_ne : (xs : List Text) (x : Text) → xs ++ x ∷ [] ≡ [] → ⊥
snoc_ne [] x e = cc
snoc_ne (y ∷ xs) x e = cc

snoc_inj : (xs ys : List Text) (x y : Text) → xs ++ x ∷ [] ≡ ys ++ y ∷ [] → (xs ≡ ys) × (x ≡ y)
snoc_inj [] [] x y e = ground arith
snoc_inj [] (b ∷ ys) x y e = let t : ys ++ y ∷ [] ≡ [] = ground arith in absurd (snoc_ne ys y t)
snoc_inj (a ∷ xs) [] x y e = let t : xs ++ x ∷ [] ≡ [] = ground arith in absurd (snoc_ne xs x t)
snoc_inj (a ∷ xs) (b ∷ ys) x y e =
    let t : xs ++ x ∷ [] ≡ ys ++ y ∷ [] = ground arith in
    let (p, q) = snoc_inj xs ys x y t in (ground arith, q)

-- A move out of a list with a last item takes that item.
pub Moves-last :
    (front : List Text) (raw : Text) (to : List Text) (r : Option Text) (from' to' : List Text)
    → Moves (front ++ raw ∷ []) to r from' to'
    → (r ≡ some raw) × (from' ≡ front) × (to' ≡ raw ∷ to)
Moves-last front raw to none from' to' (e, p, q) = absurd (snoc_ne front raw e)
Moves-last front raw to (some x) from' to' (e, p) =
    let (f, x') = snoc_inj front from' raw x e in (ap some (sym x'), sym f, rw x' p)

pub Moves-empty :
    (to : List Text) (r : Option Text) (from' to' : List Text)
    → Moves [] to r from' to'
    → (r ≡ none) × (from' ≡ []) × (to' ≡ to)
Moves-empty to none from' to' (e, p, q) = (refl, p, q)
Moves-empty to (some x) from' to' (e, p) = absurd (snoc_ne from' x (sym e))

pub remove_first_lem : (raw : Text) (p : List Text) → remove_first raw (raw ∷ p) ≡ p
unfolding remove_first
remove_first_lem raw p = ground (arith, eq_text.same_iff raw raw)
