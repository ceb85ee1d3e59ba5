-- ===== src/Sequence/Accounting.antt =====
-- What the counters of `SeqTracker` add up to.
use aegis_ecosystem.Prelude.{
  ℕ, ◌+◌, ◌≡◌, false, none, some, List, [], ◌∷◌, arith, Text, ◌==◌, eq_text, eq_pair, max,
}
use aegis_ecosystem.Prelude.Dict.{lookup, lookup-insert, lookup-insert_self}
use aegis_ecosystem.Sequence.{Stream, SeqTracker, observe_stream}

module _ (agent boot : Text) where
  unfoldable pub observe_all : SeqTracker → List ℕ → SeqTracker
  observe_all t [] = t
  observe_all t (s ∷ ss) = observe_all (observe_stream t agent boot s).0 ss

  -- One observation of a stream that has a last number.
  step :
      (t : SeqTracker) (prev seq : ℕ)
      → lookup (agent, boot) t.last ≡ some prev
      → let t' = (observe_stream t agent boot seq).0 in
        (lookup (agent, boot) t'.last ≡ some (max prev seq))
        × (t'.gap_events + t'.tracked + prev + t.late
            ≡ t'.late + max prev seq + t.gap_events + t.tracked)
  unfolding observe_stream
  step t prev seq h = (ground (arith, lookup-insert_self (agent, boot) seq t.last), ground arith)

  step-last :
      (t : SeqTracker) (prev seq : ℕ)
      → lookup (agent, boot) t.last ≡ some prev
      → lookup (agent, boot) (observe_stream t agent boot seq).0.last ≡ some (max prev seq)
  step-last t prev seq h = (step t prev seq h).0

  -- The largest number of a list and a first number.
  abbrev pub maximum : ℕ → List ℕ → ℕ
  maximum n [] = n
  maximum n (s ∷ ss) = maximum (max n s) ss

  continued :
      (ss : List ℕ) (t : SeqTracker) (prev : ℕ)
      → lookup (agent, boot) t.last ≡ some prev
      → (lookup (agent, boot) (observe_all t ss).last ≡ some (maximum prev ss))
        × ((observe_all t ss).gap_events + (observe_all t ss).tracked + prev + t.late
            ≡ (observe_all t ss).late + maximum prev ss + t.gap_events + t.tracked)
  unfolding observe_all
  continued [] t prev h = (h, omega arith)
  continued (s ∷ ss) t prev h =
      let (found, counted) = step t prev s h in
      let (last, sum) = continued ss (observe_stream t agent boot s).0 (max prev s) found in
      (last, omega arith)

  start :
      (t : SeqTracker) (first : ℕ)
      → lookup (agent, boot) t.last ≡ none
      → let t' = (observe_stream t agent boot first).0 in
        (lookup (agent, boot) t'.last ≡ some first)
        × (t'.tracked ≡ t.tracked + 1)
        × (t'.gap_events ≡ t.gap_events)
        × (t'.late ≡ t.late)
  unfolding observe_stream
  start t first h = (
    ground (arith, lookup-insert_self (agent, boot) first t.last),
    ground arith,
    ground arith,
    ground arith,
  )

  -- A stream that the tracker does not know sends the numbers first, ss...: the tracker ends with
  -- the largest of them as the last number, and the growth of `gap_events`, with the
  -- observations that were not late, covers the range from the first to the largest number exactly.
  pub observe_all-gap_events :
      (t : SeqTracker) (first : ℕ) (ss : List ℕ)
      → lookup (agent, boot) t.last ≡ none
      → (lookup (agent, boot) (observe_all t (first ∷ ss)).last ≡ some (maximum first ss))
        × ((observe_all t (first ∷ ss)).gap_events
              + (observe_all t (first ∷ ss)).tracked
              + first
              + t.late
            ≡ (observe_all t (first ∷ ss)).late + maximum first ss + 1 + t.gap_events + t.tracked)
  unfolding observe_all
  observe_all-gap_events t first ss h =
      let (found, tracked, gaps, late) = start t first h in
      let (last, sum) = continued ss (observe_stream t agent boot first).0 first found in
      (last, omega arith)

  -- An observation of one stream leaves the last number of every other stream as it was.
  pub observe_stream-other :
      (t : SeqTracker) (seq : ℕ) (key : Stream)
      → ((agent, boot) == key) ≡ false
      → lookup key (observe_stream t agent boot seq).0.last ≡ lookup key t.last
  unfolding observe_stream
  observe_stream-other t seq key h = ground (arith, lookup-insert (agent, boot) key seq t.last)
