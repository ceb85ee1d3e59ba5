-- ===== src/RateGuard.antt =====
-- The ingestion budget in memory, `RateGuard._local_allow` and `RateGuard.remaining` of
-- aegis-brain/app/core/rate_guard.py. `time.monotonic()` is an argument, in nanoseconds; the lock
-- makes each call one step. `_windows` is a `defaultdict`: a read of a missing agent is (0, 0.0).
pub mod Budget
pub mod Shared
pub mod Sync
use aegis_ecosystem.Prelude.{
  ℕ, ◌+◌, ◌-◌, ◌*◌, Bool, not, none, some, List, [], Text, leb, if◌then◌else◌, eq_text,
}
use aegis_ecosystem.Prelude.Dict.{Dict, lookup, insert, filter_entries}

abbrev pub second : ℕ
second = 1_000_000_000

-- a count of events and the start of its window
pub record Window : Type 0 where
  pub count : ℕ
  pub start : ℕ

pub record RateGuard : Type 0 where
  pub events_per_min : ℕ
  pub windows : Dict Text Window
  pub allowlist : List Text

unfoldable pub init : ℕ → RateGuard
init events_per_min = record { events_per_min = events_per_min; windows = []; allowlist = [] }

-- `self._windows[agent_id]`
unfoldable pub read : Dict Text Window → Text → Window
read ws agent = elim (lookup agent ws) [ none ↦ record { count = 0; start = 0 } | some w ↦ w ]

-- the eviction loop keeps a window whose start is less than 120 s ago
unfoldable pub is_kept : ℕ → Window → Bool
is_kept now w = not (leb (120 * second) (now - w.start))

-- the window that a call at `now` counts in
unfoldable pub current : ℕ → Window → Window
current now w = if leb (60 * second) (now - w.start) then record { count = 0; start = now } else w

unfoldable pub local_allow : RateGuard → ℕ → Text → ℕ → RateGuard × Bool
unfolding read is_kept current
local_allow g now agent count =
    let kept = filter_entries (is_kept now) g.windows in
    let w = current now (read kept agent) in
    let cur = w.count + count in
    (
      record g { windows = insert agent (record { count = cur; start = w.start }) kept },
      leb cur g.events_per_min,
    )

-- the local part of `remaining`; the read leaves the default entry of the `defaultdict` behind
unfoldable pub remaining : RateGuard → ℕ → Text → RateGuard × ℕ
unfolding read
remaining g now agent =
    let w = read g.windows agent in
    (
      record g { windows = insert agent w g.windows },
      if leb (60 * second) (now - w.start) then g.events_per_min else g.events_per_min - w.count,
    )
