-- ===== src/Behaviour/Bursts/Counter.antt =====
-- The counter of failed logins of one key, from its first login to the end of its window
-- (aegis-brain/app/rules/correlation_engine.py, _brute_force_detection).
use aegis_ecosystem.Prelude.{
  ℕ, ◌+◌, ◌*◌, ◌≤◌, ◌<◌, ◌≡◌, refl, ◌∙◌, none, some, arith, Text, ==_iff, eq_text, ◌⊎◌,
}
use aegis_ecosystem.Redis.Laws.{Redis, at_time, bumped, deadline_after}
use aegis_ecosystem.Behaviour.{Settings}

module _ (redis : Redis) (settings : Settings) (key : Text) (end : ℕ) where
  open redis use {Store, live, incr, expire, delete}

  -- the counter of the key is n, and lives until the end
  abbrev pub Running : ℕ → ℕ → Store → Type 0
  Running n t s =
      (d : ℕ) × (end ≤ d)
      × ((t' : ℕ) → t ≤ t' → live s t' key ≡ at_time t' (record { value = n; deadline = some d }))

  abbrev pub Absent : ℕ → Store → Type 0
  Absent t s = (t' : ℕ) → t ≤ t' → live s t' key ≡ none

  abbrev pub Counting : ℕ → ℕ → Store → Type 0
  Counting n t s = ((n ≡ 0) × Absent t s) ⊎ ((1 ≤ n) × Running n t s)

  pub at_time-before :
      (u n d : ℕ)
      → u < d
      → at_time u (record { value = n; deadline = some d })
        ≡ some (record { value = n; deadline = some d })
  unfolding at_time
  at_time-before u n d lt = ground arith

  pub incr-Running :
      (u n m : ℕ) (s s' : Store)
      → u < end
      → incr s u key ≡ some (m, s')
      → Running n u s
      → (m ≡ n + 1) × Running (n + 1) u s'
  unfolding bumped
  incr-Running u n m s s' before e (d, far, reads) =
      let here : live s u key ≡ some (record { value = n; deadline = some d }) =
        reads u (omega arith) ∙ at_time-before u n d (omega arith) in
      (
        rw here at (redis.incr_reply s s' u key m e),
        (
          d,
          far,
          λ t' le.
              rw ((==_iff key key).1 refl, here) at (redis.incr_writes s s' u t' key key m e le),
        ),
      )

  pub incr-Absent :
      (u m : ℕ) (s s' : Store)
      → incr s u key ≡ some (m, s')
      → Absent u s
      → (m ≡ 1)
        × ((t' : ℕ) → u ≤ t' → live s' t' key ≡ at_time t' (record { value = 1; deadline = none }))
  unfolding bumped
  incr-Absent u m s s' e absent =
      let here : live s u key ≡ none = absent u (omega arith) in
      (
        rw here at (redis.incr_reply s s' u key m e),
        λ t' le. rw ((==_iff key key).1 refl, here) at (redis.incr_writes s s' u t' key key m e le),
      )

  pub expire-Running :
      (u : ℕ) (s s' : Store)
      → end ≤ u + 1000 * settings.bruteforce_window_s
      → expire s u key settings.bruteforce_window_s ≡ some s'
      → ((t' : ℕ) → u ≤ t' → live s t' key ≡ at_time t' (record { value = 1; deadline = none }))
      → Running 1 u s'
  unfolding at_time deadline_after
  expire-Running u s s' near e reads = (
    u + 1000 * settings.bruteforce_window_s,
    near,
    λ t' le. rw ((==_iff key key).1 refl) at (
        redis.expire_writes s s' u t' key key settings.bruteforce_window_s
          (record { value = 1; deadline = none }) e (reads u (omega arith)) le),
  )

  pub delete-Absent : (u : ℕ) (s s' : Store) → delete s u key ≡ some s' → Absent u s'
  delete-Absent u s s' e t' le =
      rw ((==_iff key key).1 refl) at (redis.delete_writes s s' u t' key key e le)
