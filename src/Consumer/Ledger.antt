-- ===== src/Consumer/Ledger.antt =====
-- Where the events of the consumer's queue are, aegis-brain/app/services/redis_consumer.py, over any
-- order of submissions, rounds of the loop, starts and crashes, with commands that may raise.
use aegis_ecosystem.Prelude.{
  ℕ, zero, suc, ◌+◌, ◌≤◌, false, Option, none, some, List, [], ◌∷◌, ◌++◌, ◌≡◌, refl, ◌∙◌, ◌⊎◌, inl,
  inr, Text, if◌then◌else◌, eq_text, arith, count, count-append, text_eq, Option-cases, Bool-cases,
}
use aegis_ecosystem.Redis.Queues.{RedisQueues, Moves, remove_first}
use aegis_ecosystem.Consumer.{
  Handlers, World, events_list, processing_list, dlq_list, requeue_max, process_raw, to_dlq, settle,
  handle_raw, iterate, requeue,
}

-- A move keeps the copies of a text at its two ends.
count-Moves :
    (a : Text) (from to : List Text) (r : Option Text) (from' to' : List Text)
    → Moves from to r from' to'
    → count a from' + count a to' ≡ count a from + count a to
unfolding count
count-Moves a from to none from' to' (e, p, q) = rw (p, q) refl
count-Moves a from to (some x) from' to' (p, q) =
    rw (p, q) (ground (arith, count-append a from' (x ∷ [])))

count-remove_first :
    (a raw : Text) (p : List Text)
    → count a (remove_first raw (raw ∷ p)) + count a (raw ∷ []) ≡ count a (raw ∷ p)
unfolding count remove_first
count-remove_first a raw p = ground (arith, eq_text.same_iff raw raw)

module _ (queues : RedisQueues) (handlers : Handlers) where
  open queues use {
    Store, items, rpoplpush, brpoplpush, lpush, lrem, ltrim, rpoplpush_moves, brpoplpush_moves,
    lpush_writes, lrem_writes, ltrim_writes,
  }
  open handlers use {Db}

  -- how often a text is waiting or in processing
  abbrev pub held : Store → Text → ℕ
  held s a = count a (items s events_list) + count a (items s processing_list)

  -- the texts that a round takes off the processing list for good
  confirmed_raw : Store → Db → Text → List Text
  confirmed_raw s db [] = []
  confirmed_raw s db (c ∷ r) =
      if (process_raw queues handlers s db (c ∷ r)).0
      then (elim (lrem s processing_list (c ∷ r)) [ none ↦ [] | some s' ↦ (c ∷ r) ∷ [] ])
      else []

  unfoldable pub confirmed : World queues handlers → List Text
  unfolding confirmed_raw
  confirmed w = elim (brpoplpush w.store events_list processing_list) [
    | none ↦ []
    | some (none, s) ↦ []
    | some (some raw, s) ↦ confirmed_raw s w.db raw
  ]

  -- What can happen between two states: the texts submitted and those confirmed on the way.
  pub data Runs (w : World queues handlers)
      : World queues handlers → List Text → List Text → Type 0 where
    here : Runs w w [] []
    submits :
        {v : World queues handlers} {ss cs : List Text} (raw : Text) (s : Store)
        → items s events_list ≡ raw ∷ items v.store events_list
        → items s processing_list ≡ items v.store processing_list
        → Runs w v ss cs
        → Runs w (record v { store = s }) (raw ∷ ss) cs
    iterates :
        {v : World queues handlers} {ss cs : List Text}
        → Runs w v ss cs
        → Runs w (iterate queues handlers v) ss (confirmed v ++ cs)
    -- a start, cut off by a crash if it is short of `requeue_max` rounds
    restarts :
        {v : World queues handlers} {ss cs : List Text} (rounds : ℕ)
        → rounds ≤ requeue_max
        → Runs w v ss cs
        → Runs w (record v { store = (requeue queues handlers rounds v.store).0 }) ss cs
    -- a crash behind the take of a text, before or after its session
    crashes :
        {v : World queues handlers} {ss cs : List Text} (raw : Text) (s : Store) (db : Db)
        → brpoplpush v.store events_list processing_list ≡ some (some raw, s)
        → (db ≡ v.db) ⊎ (db ≡ (process_raw queues handlers s v.db raw).1)
        → Runs w v ss cs
        → Runs w (record { store = s; db = db }) ss cs
    -- a crash between the two commands of `_to_dlq`
    crashes_in_dlq :
        {v : World queues handlers} {ss cs : List Text} (raw : Text) (s s1 : Store)
        → brpoplpush v.store events_list processing_list ≡ some (some raw, s)
        → lpush s dlq_list raw ≡ some s1
        → (process_raw queues handlers s v.db raw).0 ≡ false
        → Runs w v ss cs
        → Runs w (record { store = s1; db = (process_raw queues handlers s v.db raw).1 }) ss cs

  held-brpoplpush :
      (s s' : Store) (r : Option Text) (a : Text)
      → brpoplpush s events_list processing_list ≡ some (r, s')
      → held s' a ≡ held s a
  held-brpoplpush s s' r a h =
      count-Moves a (items s events_list) (items s processing_list) r (items s' events_list)
        (items s' processing_list)
        (brpoplpush_moves s s' events_list processing_list r (unfold text_eq in refl) h).0

  held-rpoplpush :
      (s s' : Store) (r : Option Text) (a : Text)
      → rpoplpush s processing_list events_list ≡ some (r, s')
      → held s' a ≡ held s a
  held-rpoplpush s s' r a h = omega (
    arith,
    count-Moves a (items s processing_list) (items s events_list) r (items s' processing_list)
        (items s' events_list)
        (rpoplpush_moves s s' processing_list events_list r (unfold text_eq in refl) h).0,
  )

  held-lpush : (s s' : Store) (raw a : Text) → lpush s dlq_list raw ≡ some s' → held s' a ≡ held s a
  unfolding text_eq
  held-lpush s s' raw a h =
      rw
        (
          lpush_writes s s' dlq_list events_list raw h,
          lpush_writes s s' dlq_list processing_list raw h,
        )
        refl

  held-ltrim : (s s' : Store) (a : Text) → ltrim s dlq_list 9999 ≡ some s' → held s' a ≡ held s a
  unfolding text_eq
  held-ltrim s s' a h =
      rw
        (
          ltrim_writes s s' dlq_list events_list 9999 h,
          ltrim_writes s s' dlq_list processing_list 9999 h,
        )
        refl

  held-to_dlq : (s : Store) (raw a : Text) → held (to_dlq queues handlers s raw) a ≡ held s a
  unfolding to_dlq
  held-to_dlq s raw a = elim (Option-cases (lpush s dlq_list raw)) [
    | inl e ↦ rw (e, to_dlq) refl
    | inr (s1, e) ↦ elim (Option-cases (ltrim s1 dlq_list 9999)) [
      | inl f ↦ rw (e, to_dlq) (rw f (held-lpush s s1 raw a e))
      | inr (s2, f) ↦ rw (e, to_dlq) (rw f (held-ltrim s1 s2 a f ∙ held-lpush s s1 raw a e))
    ]
  ]

  held-requeue :
      (rounds : ℕ) (s : Store) (a : Text) → held (requeue queues handlers rounds s).0 a ≡ held s a
  unfolding requeue
  held-requeue zero s a = refl
  held-requeue (suc left) s a = elim (Option-cases (rpoplpush s processing_list events_list)) [
    | inl e ↦ rw (e, requeue) refl
    | inr ((none, s'), e) ↦ rw (e, requeue) (held-rpoplpush s s' none a e)
    | inr ((some raw, s'), e) ↦
        rw (e, requeue) (held-requeue left s' a ∙ held-rpoplpush s s' (some raw) a e)
  ]

  -- a text that LREM takes off is the one at the front of the processing list
  held-lrem :
      (s s' : Store) (raw a : Text) (p : List Text)
      → items s processing_list ≡ raw ∷ p
      → lrem s processing_list raw ≡ some s'
      → held s' a + count a (raw ∷ []) ≡ held s a
  unfolding text_eq
  held-lrem s s' raw a p e h =
      rw
        (
          lrem_writes s s' processing_list events_list raw h,
          lrem_writes s s' processing_list processing_list raw h,
          e,
        )
        (omega (arith, count-remove_first a raw p))

  held-handle_raw :
      (s : Store) (db : Db) (raw a : Text) (p : List Text)
      → items s processing_list ≡ raw ∷ p
      → held (handle_raw queues handlers s db raw).store a + count a (confirmed_raw s db raw)
        ≡ held s a
  unfolding handle_raw confirmed_raw settle count
  held-handle_raw s db [] a p e = omega arith
  held-handle_raw s db (c ∷ r) a p e =
      elim (Bool-cases (process_raw queues handlers s db (c ∷ r)).0) [
        | inl ok ↦ elim (Option-cases (lrem s processing_list (c ∷ r))) [
          | inl f ↦ rw ok (rw (f, settle) (omega arith))
          | inr (s', f) ↦ rw ok (rw (f, settle) (held-lrem s s' (c ∷ r) a p e f))
        ]
        | inr bad ↦ rw bad (omega (arith, held-to_dlq s (c ∷ r) a))
      ]

  held-iterate :
      (w : World queues handlers) (a : Text)
      → held (iterate queues handlers w).store a + count a (confirmed w) ≡ held w.store a
  unfolding iterate confirmed count
  held-iterate w a = elim (Option-cases (brpoplpush w.store events_list processing_list)) [
    | inl e ↦ rw (e, iterate, confirmed) (omega arith)
    | inr ((none, s), e) ↦
        rw (e, iterate, confirmed) (omega (arith, held-brpoplpush w.store s none a e))
    | inr ((some raw, s), e) ↦
        rw (e, iterate, confirmed)
          (held-handle_raw s w.db raw a (items w.store processing_list)
              (brpoplpush_moves w.store s events_list processing_list (some raw)
                (unfold text_eq in refl) e).0.1
            ∙ held-brpoplpush w.store s (some raw) a e)
  ]

  -- Over any submissions, rounds, starts, crashes and failing commands: of each text, the copies that
  -- wait or are in processing and those confirmed are those that were there and those submitted.
  pub held-Runs :
      (w v : World queues handlers) (ss cs : List Text) (a : Text)
      → Runs w v ss cs
      → held v.store a + count a cs ≡ held w.store a + count a ss
  unfolding count
  held-Runs w v ss cs a here = refl
  held-Runs w _ _ cs a (submits {v} {ss} raw s e p r) =
      rw (e, p) (ground (arith, held-Runs w v ss cs a r))
  held-Runs w _ ss _ a (iterates {v} {cs = cs} r) =
      omega (arith, held-iterate v a, count-append a (confirmed v) cs, held-Runs w v ss cs a r)
  held-Runs w _ ss cs a (restarts {v} rounds h r) =
      omega (arith, held-requeue rounds v.store a, held-Runs w v ss cs a r)
  held-Runs w _ ss cs a (crashes {v} raw s db e d r) =
      omega (arith, held-brpoplpush v.store s (some raw) a e, held-Runs w v ss cs a r)
  held-Runs w _ ss cs a (crashes_in_dlq {v} raw s s1 e p d r) = omega (
    arith,
    held-brpoplpush v.store s (some raw) a e,
    held-lpush s s1 raw a p,
    held-Runs w v ss cs a r,
  )
