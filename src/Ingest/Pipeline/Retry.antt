-- ===== src/Ingest/Pipeline/Retry.antt =====
-- A request that is sent again after its store failed, `process_events` of
-- aegis-brain/app/services/siem_pipeline.py: the claims of the first request are not taken back.
use aegis_ecosystem.Prelude.{
  ℕ, ◌+◌, ◌*◌, ◌≤◌, ◌<◌, Bool, true, false, none, some, List, [], ◌∷◌, ◌≡◌, refl, sym, ap, ◌∙◌, inl,
  inr, Text, codes, length, map, arith, All, if◌then◌else◌, Bool-cases,
}
use mathlib.Core.Path.{subst}
use aegis_ecosystem.Redis.Laws.{Redis, SetReply}
use aegis_ecosystem.Redis.Held.{Held, Held-later, Held-set_nx, Held-claimed, claim-Held, is_claimed}
use aegis_ecosystem.Ingest.Stages.{Stages, event_key, Claimed, claim_event, claim_all}
use aegis_ecosystem.Ingest.Pipeline.{store, World, process_fresh, process_events}

All-map :
    {A : Type 0} {P Q : A → Type 0} (xs : List A) → ((x : A) → P x → Q x) → All P xs → All Q xs
All-map [] f h = tt
All-map (x ∷ xs) f (h, hs) = (f x h, All-map xs f hs)

module _ {A : Type 0} (redis : Redis) (event_id : A → Text) (ttl : ℕ) where
  open redis use {Store}

  -- The claims of some events, none of which raises, in order of time from `t` to `last`, and each with
  -- a time to live beyond `deadline`.
  pub data Claims (last deadline : ℕ) : ℕ → Store → List (ℕ × A) → Store → Type 0 where
    done : {t : ℕ} {s : Store} → t ≤ last → Claims last deadline t s [] s
    claim :
        {t : ℕ} {s s' : Store} {rest : List (ℕ × A)} (u : ℕ) (event : A) (c : ℕ) (id : Text)
        → (r : SetReply) (s1 : Store) → t ≤ u
        → deadline ≤ u + 1000 * ttl
        → event_id event ≡ c ∷ id
        → redis.set_nx s u (event_key (c ∷ id)) ttl ≡ some (r, s1)
        → Claims last deadline u s1 rest s'
        → Claims last deadline t s ((u, event) ∷ rest) s'

  module _ {last deadline : ℕ} (in_time : last < deadline) where
    Claims-le :
        {t : ℕ} {s s' : Store} {events : List (ℕ × A)}
        → Claims last deadline t s events s'
        → t ≤ last
    Claims-le (done h) = h
    Claims-le (claim u event c id r s1 h d e f rest) = omega (arith, Claims-le rest)

    -- how a claimed or a known event changes what its followers give
    abbrev with_event : A → Bool → Claimed A Store → Claimed A Store
    with_event event b after =
        if b
        then record after { fresh = event ∷ after.fresh }
        else record after { duplicates = after.duplicates + 1 }

    claim_all_cons :
        (s s1 : Store) (u : ℕ) (event : A) (c : ℕ) (id : Text) (r : SetReply) (rest : List (ℕ × A))
        → event_id event ≡ c ∷ id
        → redis.set_nx s u (event_key (c ∷ id)) ttl ≡ some (r, s1)
        → claim_all redis event_id ttl s ((u, event) ∷ rest)
          ≡ with_event event (is_claimed r) (claim_all redis event_id ttl s1 rest)
    unfolding claim_all claim_event
    claim_all_cons s s1 u event c id r rest e f = rw (e, claim_all) (rw (f, claim_event) refl)

    with_event_store :
        (event : A) (b : Bool) (after : Claimed A Store)
        → (with_event event b after).store ≡ after.store
    with_event_store event true after = refl
    with_event_store event false after = refl

    claim_all_store :
        {t : ℕ} {s s' : Store} {events : List (ℕ × A)}
        → Claims last deadline t s events s'
        → (claim_all redis event_id ttl s events).store ≡ s'
    claim_all_store (done h) = unfold claim_all in refl
    claim_all_store {s} (claim {rest = rest} u event c id r s1 h d e f claims) =
        rw (claim_all_cons s s1 u event c id r rest e f) (
          with_event_store event (is_claimed r) (claim_all redis event_id ttl s1 rest)
          ∙ claim_all_store claims)

    -- a held key stays held over the claims
    Held-Claims :
        {t : ℕ} {s s' : Store} {events : List (ℕ × A)} (k : Text)
        → Held redis k t deadline s
        → Claims last deadline t s events s'
        → Held redis k last deadline s'
    Held-Claims {t} {s} k held (done h) = Held-later redis k t last deadline s h held
    Held-Claims {t} {s} k held (claim u event c id r s1 h d e f claims) =
        Held-Claims k
          (Held-set_nx redis k (event_key (c ∷ id)) u deadline ttl r s s1 f
            (omega (arith, Claims-le claims)) (Held-later redis k t u deadline s h held))
          claims

    -- the key of an event is live from a time on
    abbrev IsHeld : ℕ → Store → A → Type 0
    IsHeld t s event = Held redis (event_key (event_id event)) t deadline s

    -- where the claims found no duplicate, every event is new and stays claimed
    fresh-Claims :
        {t : ℕ} {s s' : Store} {events : List (ℕ × A)}
        → Claims last deadline t s events s'
        → (claim_all redis event_id ttl s events).duplicates ≡ 0
        → ((claim_all redis event_id ttl s events).fresh ≡ map (λ x. x.1) events)
          × All (IsHeld last s') (map (λ x. x.1) events)
    fresh-Claims (done h) none_known = (unfold claim_all in refl, tt)
    fresh-Claims {s} {s'} (claim {rest = rest} u event c id r s1 h d e f claims) none_known =
        elim (Bool-cases (is_claimed r)) [
          | inl new ↦
              let cons = claim_all_cons s s1 u event c id r rest e f in
              let after = rw (cons, new) at none_known in
              let (a, b) = fresh-Claims claims after in
              let held =
                Held-Claims (event_key (c ∷ id))
                  (λ t' le lt.
                    Held-claimed redis (event_key (c ∷ id)) u ttl r s s1 f new t' le (omega arith))
                  claims in
              (
                rw (cons, new) (ap (λ l. event ∷ l) a),
                (subst (λ i. Held redis (event_key i) last deadline s') (sym e) held, b),
              )
          | inr known ↦
              let cons = claim_all_cons s s1 u event c id r rest e f in
              let after = rw (cons, known) at none_known in absurd (omega arith)
        ]

    -- events whose keys are held are all duplicates
    known-Claims :
        {t : ℕ} {s s' : Store} {events : List (ℕ × A)}
        → Claims last deadline t s events s'
        → All (IsHeld t s) (map (λ x. x.1) events)
        → ((claim_all redis event_id ttl s events).fresh ≡ [])
          × ((claim_all redis event_id ttl s events).duplicates ≡ length events)
    known-Claims (done h) held = unfold claim_all in (refl, refl)
    known-Claims {t} {s} (claim {rest = rest} u event c id r s1 h d e f claims) (first, others) =
        let key = event_key (c ∷ id) in
        let in_u : u < deadline = omega (arith, Claims-le claims) in
        let at_u =
          Held-later redis key t u deadline s h
            (subst (λ i. Held redis (event_key i) t deadline s) e first) in
        let known = claim-Held redis key u deadline ttl r s s1 f in_u at_u in
        let (a, b) = known-Claims claims (
          All-map (map (λ x. x.1) rest)
            (λ x hx.
              Held-set_nx redis (event_key (event_id x)) key u deadline ttl r s s1 f in_u
                (Held-later redis (event_key (event_id x)) t u deadline s h hx))
            others) in
        rw (claim_all_cons s s1 u event c id r rest e f, known) (a, omega arith)

module _ {A : Type 0} (redis : Redis) (stages : Stages A) (ttl : ℕ) where
  process_fresh_failed :
      (db : stages.Db) (accepted duplicates : ℕ) (x : A) (xs : List A)
      → store stages db (x ∷ xs) ≡ none
      → let r = process_fresh redis stages ttl db accepted duplicates (x ∷ xs) in
        (r.0.error ≡ some (codes "store failed")) × (r.1 ≡ db)
  unfolding process_fresh
  process_fresh_failed db accepted duplicates x xs e = rw (e, process_fresh) (refl, refl)

  process_events-claims :
      (w : World redis stages ttl) (events : List (ℕ × A)) (fresh : List A) (s : redis.Store)
      → (claim_all redis stages.event_id ttl w.store events).fresh ≡ fresh
      → (claim_all redis stages.event_id ttl w.store events).store ≡ s
      → let duplicates = (claim_all redis stages.event_id ttl w.store events).duplicates in
        let r = process_fresh redis stages ttl w.db (length events) duplicates fresh in
        process_events redis stages ttl w events ≡ (r.0, record { store = s; db = r.1 })
  unfolding process_events
  process_events-claims w events fresh s e f = rw (e, f) refl

  -- The events of a request, all of them new and with ids, are claimed before they are stored. Where
  -- the store raises, the report says so and the rows are as before; and the same events sent again
  -- within the time to live of the claims are all counted as duplicates and not stored.
  pub process_events-retry :
      (w : World redis stages ttl) (event : ℕ × A) (events second : List (ℕ × A))
      → (t last last' deadline : ℕ) (s s' : redis.Store) → last < deadline
      → last' < deadline
      → Claims redis stages.event_id ttl last deadline t w.store (event ∷ events) s
      → Claims redis stages.event_id ttl last' deadline last s second s'
      → map (λ x. x.1) second ≡ map (λ x. x.1) (event ∷ events)
      → (claim_all redis stages.event_id ttl w.store (event ∷ events)).duplicates ≡ 0
      → store stages w.db (map (λ x. x.1) (event ∷ events)) ≡ none
      → let r1 = process_events redis stages ttl w (event ∷ events) in
        let r2 = process_events redis stages ttl r1.1 second in
        (r1.0.error ≡ some (codes "store failed"))
        × (r2.0.duplicates ≡ length second)
        × (r2.0.stored ≡ 0)
        × (r2.1.db ≡ w.db)
  unfolding process_fresh
  process_events-retry w event events second t last last' deadline s s' b b' first again same new
        failed =
      let id = stages.event_id in
      let all = event ∷ events in
      let fresh = map (λ x. x.1) all in
      let (found, held) = fresh-Claims redis id ttl b first new in
      let duplicates = (claim_all redis id ttl w.store all).duplicates in
      let r = process_fresh redis stages ttl w.db (length all) duplicates fresh in
      let w1 : World redis stages ttl = record { store = s; db = r.1 } in
      let step1 =
        process_events-claims w all fresh s found (claim_all_store redis id ttl b first) in
      let (error, same_db) =
        process_fresh_failed w.db (length all) duplicates event.1 (map (λ x. x.1) events) failed in
      let (known, counted) =
        known-Claims redis id ttl b' again (
          subst (λ l. All (λ x. Held redis (event_key (id x)) last deadline s) l) (sym same)
            held) in
      let step2 =
        process_events-claims w1 second [] s' known (claim_all_store redis id ttl b' again) in
      rw step1 (error, rw step2 counted, rw step2 refl, rw step2 same_db)
