-- ===== src/Sequence.antt =====
-- The gap counter, `SeqTracker` of aegis-brain/app/services/event_dedup.py. A stream is a pair of an
-- agent and a boot id (the empty text where the call has none); the lock makes each call one step.
pub mod Accounting
use aegis_ecosystem.Prelude.{
  ℕ, ◌+◌, ◌-◌, Bool, true, false, not, ◌&&◌, Option, none, some, List, [], ◌∷◌, Text, length,
  member, nat_eq, ltb, if◌then◌else◌, eq_text, eq_pair,
}
use aegis_ecosystem.Prelude.Dict.{Dict, lookup, insert}

abbrev pub Stream : Type 0
Stream = Text × Text

-- The argument `seq`: absent, refused by `int(seq)`, below 0, or a number.
pub data SeqValue : Type 0 where
  absent not_integer negative : SeqValue
  integer : ℕ → SeqValue

pub record SeqTracker : Type 0 where
  pub last : Dict Stream ℕ
  pub boots : Dict Text (List Text)
  pub gaps : ℕ
  pub gap_events : ℕ
  pub resets : ℕ
  pub late : ℕ
  pub tracked : ℕ

-- The dictionary that `observe` returns.
pub data Observation : Type 0 where
  untracked : Observation
  observed : (gap : ℕ) (reset late : Bool) → Observation

unfoldable pub init : SeqTracker
init = record { last = []; boots = []; gaps = 0; gap_events = 0; resets = 0; late = 0; tracked = 0 }

-- `self._boots.setdefault(agent, set())`
unfoldable pub known_boots : SeqTracker → Text → List Text
known_boots t agent = elim (lookup agent t.boots) [ none ↦ [] | some known ↦ known ]

-- `bool(text)` and `bool(set)`
unfoldable pub is_empty {ℓ} : {A : Type ℓ} → List A → Bool
is_empty [] = true
is_empty (x ∷ xs) = false

-- the first observation of a stream
unfoldable pub start_stream : SeqTracker → Text → Text → ℕ → SeqTracker × Observation
unfolding known_boots is_empty
start_stream t agent boot seq =
    let known = known_boots t agent in
    let reset = not (is_empty boot) && (not (is_empty known) && not (member boot known)) in
    (
      record t {
        last = insert (agent, boot) seq t.last;
        boots = insert agent (if is_empty boot then known else boot ∷ known) t.boots;
        resets = if reset then t.resets + 1 else t.resets;
      },
      observed 0 reset false,
    )

-- a further observation of a stream whose last number is `prev`
unfoldable pub continue_stream : SeqTracker → Stream → ℕ → ℕ → SeqTracker × Observation
continue_stream t key prev seq =
    if nat_eq seq (prev + 1)
    then (record t { last = insert key seq t.last }, observed 0 false false)
    else if ltb (prev + 1) seq
    then (
      record t {
        last = insert key seq t.last;
        gaps = t.gaps + 1;
        gap_events = t.gap_events + (seq - prev - 1);
      },
      observed (seq - prev - 1) false false,
    )
    else (record t { late = t.late + 1 }, observed 0 false true)

unfoldable pub observe_stream : SeqTracker → Text → Text → ℕ → SeqTracker × Observation
unfolding start_stream continue_stream
observe_stream t agent boot seq =
    let t' = record t { tracked = t.tracked + 1 } in
    elim (lookup (agent, boot) t.last) [
      | none ↦ start_stream t' agent boot seq
      | some prev ↦ continue_stream t' (agent, boot) prev seq
    ]

unfoldable pub observe : SeqTracker → Text → Option Text → SeqValue → SeqTracker × Observation
observe t agent boot absent = (t, untracked)
observe t agent boot not_integer = (t, untracked)
observe t agent boot negative = (t, untracked)
observe t agent none (integer seq) = observe_stream t agent [] seq
observe t agent (some boot) (integer seq) = observe_stream t agent boot seq

pub record Snapshot : Type 0 where
  pub tracked : ℕ
  pub gaps : ℕ
  pub gap_events : ℕ
  pub resets : ℕ
  pub late : ℕ
  pub streams : ℕ

unfoldable pub snapshot : SeqTracker → Snapshot
snapshot t = record {
  tracked = t.tracked;
  gaps = t.gaps;
  gap_events = t.gap_events;
  resets = t.resets;
  late = t.late;
  streams = length t.last;
}
