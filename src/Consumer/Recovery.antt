-- ===== src/Consumer/Recovery.antt =====
-- What the consumer does when Redis answers, aegis-brain/app/services/redis_consumer.py: a start puts
-- what a crash left in processing back into the queue, and the loop then takes every text once, the
-- texts that waited before those that were put back.
use mathlib.Core.List.{reverse, reverse-cons, reverse-reverse, append_assoc}
use mathlib.Core.Path.{subst}
use aegis_ecosystem.Prelude.{
  ℕ, zero, suc, ◌≤◌, Bool, true, false, none, some, List, [], ◌∷◌, ◌++◌, ◌≡◌, refl, sym, ap, ◌∙◌,
  inl, inr, Text, if◌then◌else◌, eq_text, arith, length, text_eq, Option-cases, length-append,
}
use aegis_ecosystem.Redis.Queues.{RedisQueues, IsAnswering, Moves}
use aegis_ecosystem.Redis.Queues.Moves.{Moves-last, Moves-empty, remove_first_lem}
use aegis_ecosystem.Consumer.{
  Handlers, World, events_list, processing_list, dlq_list, requeue_max, committed, process_raw,
  to_dlq, settle, handle_raw, iterate, requeue, recover,
}

module _ (handlers : Handlers) where
  open handlers use {Db}

  -- an empty text is never processed
  abbrev pub attempt : Db → Text → Bool × Db
  attempt db [] = (false, db)
  attempt db (c ∷ r) = elim (committed handlers db (c ∷ r)) [
    | none ↦ (false, db)
    | some db' ↦ (true, db')
  ]

  -- Each text once, in their order: the database behind them, and the failed ones before those that
  -- were left before, the last one first.
  abbrev pub outcome : Db → List Text → List Text → Db × List Text
  outcome db [] left = (db, left)
  outcome db (raw ∷ rest) left =
      outcome (attempt db raw).1 rest (if (attempt db raw).0 then left else raw ∷ left)

length-reverse : (xs : List Text) → length (reverse xs) ≡ length xs
length-reverse [] = refl
length-reverse (x ∷ xs) =
    rw (reverse-cons x xs) (omega (arith, length-append (reverse xs) (x ∷ []), length-reverse xs))

module _ (queues : RedisQueues) (handlers : Handlers) where
  -- rounds of the loop
  unfoldable pub iterations : ℕ → World queues handlers → World queues handlers
  unfolding iterate
  iterations zero w = w
  iterations (suc n) w = iterations n (iterate queues handlers w)

module _ (queues : RedisQueues) (handlers : Handlers) (answering : IsAnswering queues) where
  open queues use {
    Store, items, rpoplpush, brpoplpush, lpush, lrem, ltrim, llen, rpoplpush_moves,
    brpoplpush_moves, lpush_writes, lrem_writes, ltrim_writes,
  }
  open handlers use {Db}
  open answering use {
    rpoplpush_answers, brpoplpush_answers, lpush_answers, lrem_answers, ltrim_answers, llen_answers,
  }

  abbrev waiting : Store → List Text
  waiting s = items s events_list

  abbrev processing : Store → List Text
  processing s = items s processing_list

  rpoplpush_lem :
      (s : Store) (front : List Text) (raw : Text)
      → processing s ≡ front ++ raw ∷ []
      → (s' : Store) × (rpoplpush s processing_list events_list ≡ some (some raw, s'))
        × (processing s' ≡ front)
        × (waiting s' ≡ raw ∷ waiting s)
  rpoplpush_lem s front raw e =
      let ((r, s'), h) = rpoplpush_answers s processing_list events_list in
      let moves =
        (rpoplpush_moves s s' processing_list events_list r (unfold text_eq in refl) h).0 in
      let (p, q, t) =
        Moves-last front raw (waiting s) r (processing s') (waiting s')
          (subst (λ xs. Moves xs (waiting s) r (processing s') (waiting s')) e moves) in
      (s', h ∙ rw p refl, q, t)

  brpoplpush_lem :
      (s : Store) (front : List Text) (raw : Text)
      → waiting s ≡ front ++ raw ∷ []
      → (s' : Store) × (brpoplpush s events_list processing_list ≡ some (some raw, s'))
        × (waiting s' ≡ front)
        × (processing s' ≡ raw ∷ processing s)
  brpoplpush_lem s front raw e =
      let ((r, s'), h) = brpoplpush_answers s events_list processing_list in
      let moves =
        (brpoplpush_moves s s' events_list processing_list r (unfold text_eq in refl) h).0 in
      let (p, q, t) =
        Moves-last front raw (processing s) r (waiting s') (processing s')
          (subst (λ xs. Moves xs (processing s) r (waiting s') (processing s')) e moves) in
      (s', h ∙ rw p refl, q, t)

  rpoplpush_empty :
      (s : Store)
      → processing s ≡ []
      → (s' : Store) × (rpoplpush s processing_list events_list ≡ some (none, s'))
        × (processing s' ≡ [])
        × (waiting s' ≡ waiting s)
  rpoplpush_empty s e =
      let ((r, s'), h) = rpoplpush_answers s processing_list events_list in
      let moves =
        (rpoplpush_moves s s' processing_list events_list r (unfold text_eq in refl) h).0 in
      let (p, q, t) =
        Moves-empty (waiting s) r (processing s') (waiting s')
          (subst (λ xs. Moves xs (waiting s) r (processing s') (waiting s')) e moves) in
      (s', h ∙ rw p refl, q, t)

  -- a start with rounds enough empties the processing list
  requeue_lem :
      (p : List Text) (left : ℕ) (s : Store)
      → length p ≤ left
      → processing s ≡ reverse p
      → (processing (requeue queues handlers left s).0 ≡ [])
        × (waiting (requeue queues handlers left s).0 ≡ reverse p ++ waiting s)
  unfolding requeue
  requeue_lem [] zero s h e = (e, refl)
  requeue_lem (x ∷ p) zero s h e = absurd (omega arith)
  requeue_lem [] (suc left) s h e =
      let (s', f, q, t) = rpoplpush_empty s e in rw (f, requeue) (q, t)
  requeue_lem (x ∷ p) (suc left) s h e =
      let (s', f, q, t) = rpoplpush_lem s (reverse p) x (e ∙ reverse-cons x p) in
      let (a, b) = requeue_lem p left s' (omega arith) q in
      rw (f, requeue)
        (
          a,
          b
              ∙ rw t (
                  sym (append_assoc (reverse p) (x ∷ []) (waiting s)) ∙ rw (reverse-cons x p) refl),
        )

  -- the database behind a text, and whether it was processed
  process_raw_lem :
      (s : Store) (db : Db) (c : ℕ) (r : Text)
      → process_raw queues handlers s db (c ∷ r) ≡ attempt handlers db (c ∷ r)
  unfolding process_raw
  process_raw_lem s db c r =
      let (depth, e) = llen_answers s events_list in
      elim (Option-cases (committed handlers db (c ∷ r))) [
        | inl f ↦ rw (f, process_raw, attempt) refl
        | inr (db', f) ↦ rw (f, process_raw, attempt) (rw e refl)
      ]

  -- what a verdict makes of the two lists, where the text stands first in processing
  settle_lem :
      (s : Store) (raw : Text) (ok : Bool) (p : List Text)
      → processing s ≡ raw ∷ p
      → (waiting (settle queues handlers s raw ok) ≡ waiting s)
        × (processing (settle queues handlers s raw ok) ≡ (if ok then p else raw ∷ p))
  unfolding settle text_eq
  settle_lem s raw true p e =
      let (s', f) = lrem_answers s processing_list raw in
      rw (f, settle)
        (
          lrem_writes s s' processing_list events_list raw f,
          lrem_writes s s' processing_list processing_list raw f ∙ rw e (remove_first_lem raw p),
        )
  settle_lem s raw false p e =
      let (s1, f) = lpush_answers s dlq_list raw in
      let (s2, g) = ltrim_answers s1 dlq_list 9999 in
      rw (f, settle, to_dlq)
        (rw g (
          ltrim_writes s1 s2 dlq_list events_list 9999 g
              ∙ lpush_writes s s1 dlq_list events_list raw f,
          ltrim_writes s1 s2 dlq_list processing_list 9999 g
              ∙ lpush_writes s s1 dlq_list processing_list raw f
              ∙ e,
        ))

  handle_raw_lem :
      (s : Store) (db : Db) (raw : Text) (p : List Text)
      → processing s ≡ raw ∷ p
      → let w = handle_raw queues handlers s db raw in
        (waiting w.store ≡ waiting s)
        × (processing w.store ≡ (if (attempt handlers db raw).0 then p else raw ∷ p))
        × (w.db ≡ (attempt handlers db raw).1)
  unfolding handle_raw
  handle_raw_lem s db [] p e = (refl, e, refl)
  handle_raw_lem s db (c ∷ r) p e =
      let same = process_raw_lem s db c r in
      let (a, b) = settle_lem s (c ∷ r) (attempt handlers db (c ∷ r)).0 p e in
      rw (same, handle_raw) (a, b, refl)

  iterate_lem :
      (w : World queues handlers) (front : List Text) (raw : Text)
      → waiting w.store ≡ front ++ raw ∷ []
      → let v = iterate queues handlers w in
        (waiting v.store ≡ front)
        × (processing v.store ≡ (
            if (attempt handlers w.db raw).0 then processing w.store else raw ∷ processing w.store))
        × (v.db ≡ (attempt handlers w.db raw).1)
  unfolding iterate
  iterate_lem w front raw e =
      let (s, f, p, q) = brpoplpush_lem w.store front raw e in
      let (a, b, c) = handle_raw_lem s w.db raw (processing w.store) q in
      rw (f, iterate) (a ∙ p, b, c)

  -- The loop takes the texts that wait, the oldest first.
  iterations_lem :
      (q : List Text) (w : World queues handlers)
      → waiting w.store ≡ reverse q
      → let v = iterations queues handlers (length q) w in
        (waiting v.store ≡ [])
        × ((v.db, processing v.store) ≡ outcome handlers w.db q (processing w.store))
  unfolding iterations
  iterations_lem [] w e = (e, refl)
  iterations_lem (raw ∷ q) w e =
      let (a, b, c) = iterate_lem w (reverse q) raw (e ∙ reverse-cons raw q) in
      let (x, y) = iterations_lem q (iterate queues handlers w) a in (x, y ∙ rw (b, c) refl)

  -- With Redis answering and at most `requeue_max` texts left in processing, a start and one round for
  -- every text take each of them once, the oldest that waited first and those put back last; what
  -- stays in processing is what failed, and the database is that of the sessions that succeeded.
  pub iterations-recover :
      (w : World queues handlers)
      → length (processing w.store) ≤ requeue_max
      → let v =
          iterations queues handlers
            (length (processing w.store ++ waiting w.store))
            (recover queues handlers w) in
        (waiting v.store ≡ [])
        × ((v.db, processing v.store)
            ≡ outcome handlers w.db (reverse (processing w.store ++ waiting w.store)) [])
  unfolding recover
  iterations-recover w h =
      let p = processing w.store in
      let all = p ++ waiting w.store in
      let (gone, put) =
        requeue_lem (reverse p) requeue_max w.store (omega (arith, length-reverse p))
          (sym (reverse-reverse p)) in
      let (a, b) =
        iterations_lem (reverse all) (recover queues handlers w) (
          put ∙ ap (λ xs. xs ++ waiting w.store) (reverse-reverse p) ∙ sym (reverse-reverse all)) in
      rw (← length-reverse all) (a, b ∙ rw gone refl)
