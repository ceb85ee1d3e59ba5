-- ===== src/Dedup/History.antt =====
-- `EventDedup` against a history that forgets nothing.
use aegis_ecosystem.Prelude.{
  Text, Option, none, some, drop, ◌-◌, length-without_lt, without_absent, IsDistinct-without,
  IsDistinct-append, leb, sym, length-without_ge, ℕ, suc, ◌+◌, ◌≤◌, ◌≡◌, refl, ap, ◌∙◌, true, false,
  List, [], ◌∷◌, ◌++◌, arith, length, length-append, member, without, IsDistinct, member-without,
  Bool-cases, inl, inr, eq_text, eq_pair, ==_iff, ◌==◌,
}
use aegis_ecosystem.Dedup.{Key, EventDedup, init, evict, move_to_end, judge, check, snapshot}

-- Every key ever judged, the most recently judged last.
unfoldable pub history : List Key → List Key → List Key
unfolding move_to_end
history h [] = h
history h (k ∷ ks) = history (move_to_end k h) ks

unfoldable pub judge_all : EventDedup → List Key → EventDedup
judge_all d [] = d
judge_all d (k ∷ ks) = judge_all (judge d k).0 ks

evict_small : (n : ℕ) (h : List Key) → length h ≤ n → evict n h ≡ h
unfolding evict
evict_small n [] l = refl
evict_small n (x ∷ h) l = ground arith

evict_large : (n : ℕ) (x : Key) (h : List Key) → n ≤ length h → evict n (x ∷ h) ≡ evict n h
unfolding evict
evict_large n x h l = ground arith

length-evict-le : (n : ℕ) (h : List Key) → length (evict n h) ≤ n
unfolding evict
length-evict-le n [] = omega arith
length-evict-le n (x ∷ h) = ground (arith, length-evict-le n h)

-- The key that is evicted anyway does not matter.
skip_first :
    (n : ℕ) (k x : Key) (h : List Key)
    → IsDistinct (x ∷ h)
    → n ≤ length h
    → evict n (move_to_end k (x ∷ h)) ≡ evict n (move_to_end k h)
unfolding move_to_end without
skip_first n k x h d l = elim (Bool-cases (x == k)) [
  | inl p ↦ rw p
  | inr p ↦ rw p (
      evict_large n x (without k h ++ k ∷ [])
        (omega (arith, length-without_ge k h d.1, length-append (without k h) (k ∷ []))))
]

evict_move :
    (n : ℕ) (k : Key) (h : List Key)
    → IsDistinct h
    → evict n (move_to_end k (evict n h)) ≡ evict n (move_to_end k h)
unfolding move_to_end
evict_move n k [] d = rw (evict_small n [] (omega arith))
evict_move n k (x ∷ h) d = elim (Bool-cases (leb (length (x ∷ h)) n)) [
  | inl small ↦ rw (evict_small n (x ∷ h) (ground arith))
  | inr large ↦
      rw (evict_large n x h (ground arith))
        (evict_move n k h d.1 ∙ sym (skip_first n k x h d (ground arith)))
]

evict-drop : (n : ℕ) (h : List Key) → evict n h ≡ drop (length h - n) h
evict-drop n [] = let e : 0 - n ≡ 0 = omega arith in rw (evict_small n [] (omega arith), e) refl
evict-drop n (x ∷ h) = elim (Bool-cases (leb (length (x ∷ h)) n)) [
  | inl small ↦
      rw (evict_small n (x ∷ h) (ground arith))
        (let e : suc (length h) - n ≡ 0 = ground arith in rw e refl)
  | inr large ↦
      rw (evict_large n x h (ground arith), evict-drop n h)
        (let e : suc (length h) - n ≡ suc (length h - n) = ground arith in rw e refl)
]

record Tracks (d : EventDedup) (n : ℕ) (h : List Key) (calls : ℕ) : Type 0 where
  bound : d.capacity ≡ n
  window : d.seen ≡ evict n h
  distinct : IsDistinct h
  counted : d.accepted + d.duplicates ≡ calls

move_to_end-IsDistinct : (k : Key) (h : List Key) → IsDistinct h → IsDistinct (move_to_end k h)
unfolding move_to_end
move_to_end-IsDistinct k h d =
    IsDistinct-append k (without k h) (ground (arith, member-without k k h, ==_iff k k))
      (IsDistinct-without k h d)

-- A key of the window moves to its end, which needs no eviction.
refresh :
    (n : ℕ) (k : Key) (seen h : List Key)
    → seen ≡ evict n h
    → IsDistinct h
    → member k seen ≡ true
    → move_to_end k seen ≡ evict n (move_to_end k h)
refresh n k seen h w d m =
    sym (
      evict_small n (move_to_end k seen) (
        unfold move_to_end in
        omega (arith, length-append (without k seen) (k ∷ []), length-without_lt k seen m, fits)))
    ∙ rw w (evict_move n k h d)
  where
    fits : length seen ≤ n
    fits = rw w (length-evict-le n h)

admit :
    (n : ℕ) (k : Key) (seen h : List Key)
    → seen ≡ evict n h
    → IsDistinct h
    → member k seen ≡ false
    → evict n (seen ++ k ∷ []) ≡ evict n (move_to_end k h)
admit n k seen h w d m =
    ap (λ l. evict n (l ++ k ∷ [])) (sym (without_absent k seen m))
    ∙ (rw w (unfold move_to_end in evict_move n k h d))

judge-Tracks :
    (d : EventDedup) (n : ℕ) (h : List Key) (calls : ℕ) (k : Key)
    → Tracks d n h calls
    → Tracks (judge d k).0 n (move_to_end k h) (calls + 1)
unfolding judge
judge-Tracks d n h calls k t = elim (Bool-cases (member k d.seen)) [
  | inl dup ↦ rw dup (record {
    bound = t.bound;
    window = refresh n k d.seen h t.window t.distinct dup;
    distinct = move_to_end-IsDistinct k h t.distinct;
    counted = omega arith;
  })
  | inr new ↦ rw new (record {
    bound = t.bound;
    window = rw t.bound (admit n k d.seen h t.window t.distinct new);
    distinct = move_to_end-IsDistinct k h t.distinct;
    counted = omega arith;
  })
]

judge_all-Tracks :
    (ks : List Key) (d : EventDedup) (n : ℕ) (h : List Key) (calls : ℕ)
    → Tracks d n h calls
    → Tracks (judge_all d ks) n (history h ks) (calls + length ks)
unfolding judge_all history
judge_all-Tracks [] d n h calls t = let e : calls + 0 ≡ calls = omega arith in rw e t
judge_all-Tracks (k ∷ ks) d n h calls t =
    let e : calls + suc (length ks) ≡ calls + 1 + length ks = omega arith in
    rw e (
      judge_all-Tracks ks (judge d k).0 n (move_to_end k h) (calls + 1)
        (judge-Tracks d n h calls k t))

init-Tracks : (n : ℕ) → Tracks (init n) n [] 0
unfolding init evict
init-Tracks n = record { bound = refl; window = refl; distinct = tt; counted = omega arith }

-- The key of a call, if it has an id.
abbrev pub key_of : Text × Option Text → Option Key
key_of (agent, none) = none
key_of (agent, some []) = none
key_of (agent, some (c ∷ s)) = some (agent, c ∷ s)

abbrev pub keys_of : List (Text × Option Text) → List Key
keys_of [] = []
keys_of (c ∷ cs) = elim (key_of c) [ none ↦ keys_of cs | some k ↦ k ∷ keys_of cs ]

unfoldable pub check_all : EventDedup → List (Text × Option Text) → EventDedup
check_all d [] = d
check_all d ((agent, event) ∷ cs) = check_all (check d agent event).0 cs

check_all-judge_all :
    (d : EventDedup) (cs : List (Text × Option Text)) → check_all d cs ≡ judge_all d (keys_of cs)
unfolding check_all judge_all check
check_all-judge_all d [] = refl
check_all-judge_all d ((agent, none) ∷ cs) = check_all-judge_all d cs
check_all-judge_all d ((agent, some []) ∷ cs) = check_all-judge_all d cs
check_all-judge_all d ((agent, some (c ∷ s)) ∷ cs) =
    check_all-judge_all (judge d (agent, c ∷ s)).0 cs

all_tracked :
    (n : ℕ) (cs : List (Text × Option Text))
    → Tracks (check_all (init n) cs) n (history [] (keys_of cs)) (length (keys_of cs))
all_tracked n cs =
    let e : 0 + length (keys_of cs) ≡ length (keys_of cs) = omega arith in
    rw (check_all-judge_all (init n) cs)
      (rw e at (judge_all-Tracks (keys_of cs) (init n) n [] 0 (init-Tracks n)))

-- The most recent `n` of the keys judged, each taken once at its last call.
abbrev pub recent : ℕ → List Key → List Key
recent n ks = drop (length (history [] ks) - n) (history [] ks)

verdict-judge : (d : EventDedup) (k : Key) → (judge d k).1 ≡ member k d.seen
unfolding judge
verdict-judge d k = ground arith

seen-recent :
    (n : ℕ) (cs : List (Text × Option Text)) → (check_all (init n) cs).seen ≡ recent n (keys_of cs)
seen-recent n cs = (all_tracked n cs).window ∙ evict-drop n (history [] (keys_of cs))

-- After any calls on a fresh window of capacity n, a further call says "duplicate" exactly when it
-- has an id and its key is among the n distinct keys judged most recently.
pub verdict-check_all :
    (n : ℕ) (cs : List (Text × Option Text)) (agent : Text) (event : Option Text)
    → (check (check_all (init n) cs) agent event).1
      ≡ (elim (key_of (agent, event)) [ none ↦ false | some k ↦ member k (recent n (keys_of cs)) ])
unfolding check
verdict-check_all n cs agent none = refl
verdict-check_all n cs agent (some []) = refl
verdict-check_all n cs agent (some (c ∷ s)) =
    verdict-judge (check_all (init n) cs) (agent, c ∷ s)
    ∙ ap (member (agent, c ∷ s)) (seen-recent n cs)

-- After any calls on a fresh window of capacity n, the window holds at most n keys, and every call
-- with an id was counted once, as accepted or as a duplicate.
pub snapshot-check_all :
    (n : ℕ) (cs : List (Text × Option Text))
    → ((snapshot (check_all (init n) cs)).window ≤ n)
      × ((snapshot (check_all (init n) cs)).accepted + (snapshot (check_all (init n) cs)).duplicates
          ≡ length (keys_of cs))
unfolding snapshot
snapshot-check_all n cs =
    let t = all_tracked n cs in
    (rw t.window (length-evict-le n (history [] (keys_of cs))), t.counted)
