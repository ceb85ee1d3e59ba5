-- ===== src/Consumer/Files/Limits.antt =====
-- How many alerts the file events of one window raise, and that every event is stored,
-- aegis-brain/app/services/file_event_service.py.
use Prim.Native.Nat.{min}
use aegis_ecosystem.Prelude.{
  ℕ, ◌+◌, ◌*◌, ◌≤◌, ◌<◌, ◌≡◌, refl, sym, Bool, true, false, none, some, List, [], ◌∷◌, ◌++◌, arith,
  Text, text_eq, length, length-append, All, if◌then◌else◌, ◌==◌, eq_text, Bool-cases, inl, inr,
}
use mathlib.Core.List.{append-nil}
use aegis_ecosystem.Json.{Fields}
use aegis_ecosystem.RateGuard.{second}
use aegis_ecosystem.Consumer.Security.{Alert, Db, Services}
use aegis_ecosystem.Consumer.Files.{
  Kind, fim, yara, RateWindow, limit_of, count_of, window_at, allow_in, allow, alert_type, kind_of,
  change_of,
}
use aegis_ecosystem.Consumer.Files.Events.{
  UnifiedEvent, Rows, SiemStore, file_alert, unified_event, add_alert, add_rows, handle_file_event,
}

-- the alerts of a kind
abbrev pub alerts_of : Kind → List Alert → ℕ
alerts_of k [] = 0
alerts_of k (a ∷ alerts) = (if a.event_type == alert_type k then 1 else 0) + alerts_of k alerts

abbrev pub is_kind : Kind → Kind → Bool
is_kind fim fim = true
is_kind fim yara = false
is_kind yara fim = false
is_kind yara yara = true

-- the events of a kind
abbrev pub events_of : Kind → List (ℕ × Fields) → ℕ
events_of k [] = 0
events_of k ((now, event) ∷ events) =
    (if is_kind (kind_of event) k then 1 else 0) + events_of k events

alerts_of-append :
    (k : Kind) (xs ys : List Alert) → alerts_of k (xs ++ ys) ≡ alerts_of k xs + alerts_of k ys
alerts_of-append k [] ys = omega arith
alerts_of-append k (a ∷ xs) ys = omega (arith, alerts_of-append k xs ys)

module _ (services : Services) (store : SiemStore) where
  -- the rows and the window behind a list of events; an exception leaves the rows as they were
  abbrev pub handle_all : List (ℕ × Fields) → Rows × RateWindow → Rows × RateWindow
  handle_all [] r = r
  handle_all ((now, event) ∷ events) (rows, w) =
      let (r, w') = handle_file_event services store now event rows w in
      handle_all events (elim r [ none ↦ rows | some rows' ↦ rows' ], w')

  file_alert-alerts_of :
      (k kind : Kind) (change path : Text) (event : Fields)
      → alerts_of k (file_alert services kind change path event ∷ [])
        ≡ (if is_kind kind k then 1 else 0)
  unfolding file_alert text_eq
  file_alert-alerts_of fim fim change path event = refl
  file_alert-alerts_of fim yara change path event = refl
  file_alert-alerts_of yara fim change path event = refl
  file_alert-alerts_of yara yara change path event = refl

  module _ (flushes : (now : ℕ) (db : Db) → (id : ℕ) × (services.flush now db ≡ some id))
      (inserts : (row : UnifiedEvent) → store.inserts row ≡ true) where
    add_rows_lem :
        (now : ℕ) (admitted : Bool) (alert : Alert) (row : UnifiedEvent) (rows : Rows)
        → (rows' : Rows) × (add_rows services store now admitted alert row rows ≡ some rows')
          × (rows'.db.alerts ≡ rows.db.alerts ++ (if admitted then alert ∷ [] else []))
          × (length rows'.siem ≡ length rows.siem + 1)
    unfolding add_rows add_alert
    add_rows_lem now true alert row rows =
        let db' : Db = record rows.db { alerts = rows.db.alerts ++ alert ∷ [] } in
        let (id, f) = flushes now db' in
        (
          record rows { db = db'; siem = rows.siem ++ row ∷ [] },
          rw (f, add_rows, add_alert) (rw (inserts row) refl),
          refl,
          omega (arith, length-append rows.siem (row ∷ [])),
        )
    add_rows_lem now false alert row rows = (
      record rows { siem = rows.siem ++ row ∷ [] },
      rw (inserts row, add_rows) refl,
      sym (append-nil rows.db.alerts),
      omega (arith, length-append rows.siem (row ∷ [])),
    )

    -- what a call of `allow` counts, while its window is open
    allow_lem :
        (now start : ℕ) (kind k : Kind) (w : RateWindow)
        → w.window_start ≡ some start
        → now < start + 60 * second
        → count_of k w ≤ limit_of k
        → ((allow now kind w).1.window_start ≡ some start)
          × (count_of k (allow now kind w).1
              ≡ min (limit_of k) (count_of k w + (if is_kind kind k then 1 else 0)))
          × (count_of k (allow now kind w).1
              ≡ count_of k w
                + (if (allow now kind w).0 then (if is_kind kind k then 1 else 0) else 0))
    unfolding allow window_at allow_in
    allow_lem now start fim fim w o lt le = ground arith
    allow_lem now start fim yara w o lt le = ground arith
    allow_lem now start yara fim w o lt le = ground arith
    allow_lem now start yara yara w o lt le = ground arith

    step_lem :
        (k : Kind) (now start : ℕ) (event : Fields) (rows : Rows) (w : RateWindow)
        → w.window_start ≡ some start
        → now < start + 60 * second
        → count_of k w ≤ limit_of k
        → (rows' : Rows) × (w' : RateWindow) × (handle_file_event services store now event rows w
            ≡ (some rows', w'))
          × (w'.window_start ≡ some start)
          × (count_of k w'
              ≡ min (limit_of k) (count_of k w + (if is_kind (kind_of event) k then 1 else 0)))
          × (alerts_of k rows'.db.alerts + count_of k w
              ≡ alerts_of k rows.db.alerts + count_of k w')
          × (length rows'.siem ≡ length rows.siem + 1)
    unfolding handle_file_event
    step_lem k now start event rows w o lt le =
        let kind = kind_of event in
        let (change, path) = change_of event in
        let alert = file_alert services kind change path event in
        let row = unified_event services store kind path event in
        let (ok, w') = allow now kind w in
        let (rows', e, added, stored) = add_rows_lem now ok alert row rows in
        let (opened, capped, counts) = allow_lem now start kind k w o lt le in
        (
          rows',
          w',
          (λ i. (e i, w')),
          opened,
          capped,
          (rw (added, alerts_of-append k rows.db.alerts (if ok then alert ∷ [] else []))
              (elim (Bool-cases ok) [
                | inl yes_ok ↦
                    let one = file_alert-alerts_of k kind change path event in
                    let counted = rw yes_ok at counts in rw (yes_ok, one) (omega arith)
                | inr no_ok ↦ let counted = rw no_ok at counts in rw no_ok (omega arith)
              ])),
          stored,
        )

    -- Where the flush and the store succeed: file events within the open window of the process, whose
    -- count of a kind is within its limit, raise as many alerts of the kind as there are events of it,
    -- until the count of the window reaches the limit, 60 for changes of files and 30 for YARA
    -- matches; the alerts of the window's earlier events count. Every event is stored, also behind the
    -- limit.
    pub alerts-handle_all :
        (k : Kind) (start : ℕ) (events : List (ℕ × Fields)) (rows : Rows) (w : RateWindow)
        → w.window_start ≡ some start
        → All (λ e. e.0 < start + 60 * second) events
        → count_of k w ≤ limit_of k
        → (alerts_of k (handle_all events (rows, w)).0.db.alerts + count_of k w
            ≡ alerts_of k rows.db.alerts + min (limit_of k) (count_of k w + events_of k events))
          × (length (handle_all events (rows, w)).0.siem ≡ length rows.siem + length events)
    alerts-handle_all k start [] rows w o within le = (omega arith, omega arith)
    alerts-handle_all k start ((now, event) ∷ events) rows w o within le =
        let (rows', w', e, opened, capped, alerts, stored) =
          step_lem k now start event rows w o within.0 le in
        let (all, siem) = alerts-handle_all k start events rows' w' opened within.1 (omega arith) in
        rw (e, handle_all) (omega arith, omega arith)
