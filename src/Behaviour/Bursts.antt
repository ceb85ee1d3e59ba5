-- ===== src/Behaviour/Bursts.antt =====
-- How many alerts a burst of failed logins raises.
pub mod Counter
use aegis_ecosystem.Prelude.{
  ℕ, suc, ◌+◌, ◌*◌, ◌≤◌, ◌<◌, ◌≡◌, refl, sym, ap, ◌∙◌, Bool, true, false, ◌&&◌, none, some, List,
  [], ◌∷◌, ◌++◌, arith, Text, length, length-append, leb, nat_eq, eq_text, Bool-cases, Option-cases,
  inl, inr,
}
use mathlib.Core.Path.{subst}
use native.Mathlib.Nat.{suc-mul}
use aegis_ecosystem.Redis.Laws.{Redis, at_time}
use aegis_ecosystem.Behaviour.{Event, Alert, Settings, World, generate_alert}
use aegis_ecosystem.Behaviour.BruteForce.{
  is_login, is_failure, failures_key, bruteforce_alert, at_threshold, after_incr, count_failure,
  brute_force_detection,
}
use aegis_ecosystem.Behaviour.Bursts.Counter.{
  Running, Counting, incr-Running, incr-Absent, expire-Running, delete-Absent,
}

-- Events that are failed logins under one key, in order of time, none before t or as late as end.
abbrev pub Burst : Text → ℕ → ℕ → List (ℕ × Event) → Type 0
Burst key t end [] = Unit
Burst key t end ((u, event) ∷ rest) =
    (t ≤ u)
    × (u < end)
    × (is_login event && is_failure event ≡ true)
    × (failures_key event ≡ key)
    × Burst key u end rest

module _ (redis : Redis) (settings : Settings) where
  open redis use {Store, live, incr, expire, delete}

  abbrev W : Type 0
  W = World redis

  abbrev needed : ℕ
  needed = settings.bruteforce_threshold

  -- The detection of each event after the other, and whether none raised.
  abbrev pub detect_all : List (ℕ × Event) → W → Bool × W
  detect_all [] w = (true, w)
  detect_all ((t, event) ∷ rest) w =
      let (went, w1) = brute_force_detection redis settings t event w in
      let (all_went, w2) = detect_all rest w1 in (went && all_went, w2)

  one_more :
      (xs : List Alert) (x : Alert) (n : ℕ)
      → n < needed
      → needed ≤ n + 1
      → length (xs ++ x ∷ []) * needed + 0 ≡ length xs * needed + (n + 1)
  one_more xs x n below reached =
      let full : needed ≡ n + 1 = omega arith in
      let longer : length (xs ++ x ∷ []) ≡ suc (length xs) =
        omega (arith, length-append xs (x ∷ [])) in
      let product : length (xs ++ x ∷ []) * needed ≡ length xs * needed + needed =
        ap (λ y. y * needed) longer ∙ suc-mul (length xs) needed in
      omega arith

  module _ (key : Text) (end : ℕ) where
    -- What a step leaves: a counter below the threshold, and an alert for every whole threshold.
    abbrev Accounts : ℕ → ℕ → W → Type 0
    Accounts total t w =
        (n : ℕ) × (n < needed)
        × Counting redis settings key end n t w.store
        × (length w.alerts * needed + n ≡ total)

    at_threshold-Accounts :
        (u n : ℕ) (event : Event) (w : W)
        → failures_key event ≡ key
        → n < needed
        → Running redis settings key end (n + 1) u w.store
        → (at_threshold redis settings u event (n + 1) w).0 ≡ true
        → Accounts
            (length w.alerts * needed + (n + 1))
            u
            (at_threshold redis settings u event (n + 1) w).1
    unfolding at_threshold bruteforce_alert generate_alert
    at_threshold-Accounts u n event w own below running went =
        elim (Bool-cases (leb needed (n + 1))) [
          | inr under ↦
              rw (under, at_threshold) (n + 1, ground arith, inr (omega arith, running), refl)
          | inl reached ↦ elim (Option-cases (delete w.store u (failures_key event))) [
            | inl e ↦ absurd (let bad = rw (reached, e, at_threshold) at went in ground arith)
            | inr (s, e) ↦
                let gone : delete w.store u key ≡ some s = rw own at e in
                rw (reached, e, at_threshold)
                  (
                    0,
                    omega arith,
                    inl (refl, delete-Absent redis settings key end u w.store s gone),
                    one_more w.alerts _ n below (ground arith),
                  )
          ]
        ]

    first-Accounts :
        (u : ℕ) (event : Event) (w : W)
        → failures_key event ≡ key
        → 0 < needed
        → end ≤ u + 1000 * settings.bruteforce_window_s
        → ((t' : ℕ)
            → u ≤ t'
            → live w.store t' key ≡ at_time t' (record { value = 1; deadline = none }))
        → (after_incr redis settings u event 1 w).0 ≡ true
        → Accounts (length w.alerts * needed + 1) u (after_incr redis settings u event 1 w).1
    unfolding after_incr
    first-Accounts u event w own below near reads went =
        elim (Option-cases (expire w.store u (failures_key event) settings.bruteforce_window_s)) [
          | inl e ↦ absurd (let bad = rw (e, after_incr) at went in ground arith)
          | inr (s, e) ↦
              let here : expire w.store u key settings.bruteforce_window_s ≡ some s = rw own at e in
              rw (e, after_incr)
                (at_threshold-Accounts u 0 event (record w { store = s }) own below
                  (expire-Running redis settings key end u w.store s near here reads)
                  (rw (e, after_incr) at went))
        ]

    next-Accounts :
        (u n : ℕ) (event : Event) (w : W)
        → failures_key event ≡ key
        → n < needed
        → 1 ≤ n
        → Running redis settings key end (n + 1) u w.store
        → (after_incr redis settings u event (n + 1) w).0 ≡ true
        → Accounts
            (length w.alerts * needed + (n + 1))
            u
            (after_incr redis settings u event (n + 1) w).1
    unfolding after_incr
    next-Accounts u n event w own below some_count running went =
        let more : nat_eq (n + 1) 1 ≡ false = ground arith in
        rw (more, after_incr)
          (at_threshold-Accounts u n event w own below running (rw (more, after_incr) at went))

    -- A failed login that raises no exception is counted.
    detect-Accounts :
        (t u n : ℕ) (event : Event) (w : W)
        → t ≤ u
        → u < end
        → end ≤ u + 1000 * settings.bruteforce_window_s
        → (is_login event && is_failure event) ≡ true
        → failures_key event ≡ key
        → n < needed
        → Counting redis settings key end n t w.store
        → (brute_force_detection redis settings u event w).0 ≡ true
        → Accounts
            (length w.alerts * needed + (n + 1))
            u
            (brute_force_detection redis settings u event w).1
    unfolding brute_force_detection count_failure after_incr
    detect-Accounts t u n event w later before near failed own below counting went =
        elim (Option-cases (incr w.store u (failures_key event))) [
          | inl e ↦ absurd (let bad = rw (failed, e, count_failure) at went in ground arith)
          | inr ((m, s), e) ↦
              let here : incr w.store u key ≡ some (m, s) = rw own at e in
              let w1 : W = record w { store = s } in
              let counted : (after_incr redis settings u event m w1).0 ≡ true =
                rw (failed, e, count_failure) at went in
              let reached : (x : ℕ) → m ≡ x → (after_incr redis settings u event x w1).0 ≡ true =
                λ x same.
                  subst (λ y. (after_incr redis settings u event y w1).0 ≡ true) same counted in
              let total = length w.alerts * needed + (n + 1) in
              let goal : Accounts total u (after_incr redis settings u event m w1).1 =
                elim counting [
                  | inl (zero_count, absent) ↦
                      let (first, reads) =
                        incr-Absent redis settings key end u m w.store s here
                          (λ t' le. absent t' (omega arith)) in
                      let one : length w.alerts * needed + 1 ≡ total = omega (arith, zero_count) in
                      subst (λ y. Accounts total u (after_incr redis settings u event y w1).1)
                        (sym first)
                        (subst (λ y. Accounts y u (after_incr redis settings u event 1 w1).1) one
                          (first-Accounts u event w1 own (omega arith) near reads
                            (reached 1 first)))
                  | inr (some_count, (d, far, reads)) ↦
                      let (next, running) =
                        incr-Running redis settings key end u n m w.store s before here
                          (d, far, λ t' le. reads t' (omega arith)) in
                      subst (λ y. Accounts total u (after_incr redis settings u event y w1).1)
                        (sym next)
                        (next-Accounts u n event w1 own below some_count running
                          (reached (n + 1) next))
                ] in
              rw (failed, e, count_failure) goal
        ]

    detect_all-Accounts :
        (t n : ℕ) (attempts : List (ℕ × Event)) (w : W)
        → end ≤ t + 1000 * settings.bruteforce_window_s
        → Burst key t end attempts
        → n < needed
        → Counting redis settings key end n t w.store
        → (detect_all attempts w).0 ≡ true
        → (m : ℕ) × (m < needed)
          × (length (detect_all attempts w).1.alerts * needed + m
              ≡ length w.alerts * needed + (n + length attempts))
    detect_all-Accounts t n [] w near burst below counting went = (n, below, omega arith)
    detect_all-Accounts t n ((u, event) ∷ rest) w near (later, before, failed, own, burst) below
          counting went =
        let w1 = (brute_force_detection redis settings u event w).1 in
        let first : (brute_force_detection redis settings u event w).0 ≡ true = ground arith in
        let others : (detect_all rest w1).0 ≡ true = ground arith in
        let (n1, below1, counting1, sum1) =
          detect-Accounts t u n event w later before (omega arith) failed own below counting
            first in
        let (m, small, sum) =
          detect_all-Accounts u n1 rest w1 (omega arith) burst below1 counting1 others in
        (m, small, omega arith)

  -- Failed logins under one key, in order of time, within one window after the first, from a key that
  -- does not live, none of which raises: one alert for every whole threshold of them, and the rest,
  -- fewer than the threshold, raise none.
  pub alerts-Burst :
      (key : Text) (t : ℕ) (attempts : List (ℕ × Event)) (w : W)
      → 1 ≤ settings.bruteforce_threshold
      → ((t' : ℕ) → t ≤ t' → live w.store t' key ≡ none)
      → Burst key t (t + 1000 * settings.bruteforce_window_s) attempts
      → (detect_all attempts w).0 ≡ true
      → (rest : ℕ) × (rest < settings.bruteforce_threshold)
        × (length (detect_all attempts w).1.alerts * settings.bruteforce_threshold + rest
            ≡ length w.alerts * settings.bruteforce_threshold + length attempts)
  alerts-Burst key t attempts w positive absent burst went =
      let (rest, small, sum) =
        detect_all-Accounts key (t + 1000 * settings.bruteforce_window_s) t 0 attempts w
          (omega arith) burst positive (inl (refl, absent)) went in
      (rest, small, omega arith)
