-- ===== src/RateGuard/Budget.antt =====
-- The budget of one window, and what `remaining` promises.
use aegis_ecosystem.Prelude.{
  ℕ, ◌+◌, ◌*◌, ◌≤◌, ◌<◌, ◌≡◌, refl, Bool, true, false, some, List, [], ◌∷◌, arith, Text, leb,
  if◌then◌else◌, ◌==◌, eq_text, ==_iff, All, Bool-cases, inl, inr, ◌⊎◌,
}
use aegis_ecosystem.Prelude.Dict.{
  Dict, lookup, filter_entries, IsDict, lookup-insert, lookup-insert_self, lookup-filter_entries,
  IsDict-filter_entries, IsDict-insert,
}
use aegis_ecosystem.RateGuard.{
  second, Window, RateGuard, read, is_kept, current, local_allow, remaining,
}

pub record Call : Type 0 where
  pub now : ℕ
  pub agent : Text
  pub count : ℕ

-- How many events of an agent the calls let through.
unfoldable pub admitted : Text → RateGuard → List Call → ℕ
admitted a g [] = 0
admitted a g (c ∷ cs) =
    let (g', ok) = local_allow g c.now c.agent c.count in
    (if c.agent == a then (if ok then c.count else 0) else 0) + admitted a g' cs

local_allow-IsDict :
    (g : RateGuard) (now : ℕ) (a : Text) (n : ℕ)
    → IsDict g.windows
    → IsDict (local_allow g now a n).0.windows
unfolding local_allow
local_allow-IsDict g now a n h =
    IsDict-insert a _ (filter_entries (is_kept now) g.windows)
      (IsDict-filter_entries (is_kept now) g.windows h)

module _ (g : RateGuard) (a : Text) (w : Window) (now : ℕ) where
  open_kept :
      IsDict g.windows
      → lookup a g.windows ≡ some w
      → now < w.start + 60 * second
      → lookup a (filter_entries (is_kept now) g.windows) ≡ some w
  unfolding is_kept
  open_kept d h t = ground (arith, lookup-filter_entries (is_kept now) a g.windows d)

  open_current : now < w.start + 60 * second → current now w ≡ w
  unfolding current
  open_current t = ground arith

  -- A call while the agent's window is open.
  local_allow-open :
      (n : ℕ)
      → IsDict g.windows
      → lookup a g.windows ≡ some w
      → now < w.start + 60 * second
      → (local_allow g now a n).1 ≡ leb (w.count + n) g.events_per_min
  unfolding local_allow
  local_allow-open n d h t = ground (arith, open_kept d h t, open_current t)

  -- It keeps the start, and adds the call's count if the call is the agent's.
  window-local_allow :
      (b : Text) (n : ℕ)
      → IsDict g.windows
      → lookup a g.windows ≡ some w
      → now < w.start + 60 * second
      → lookup a (local_allow g now b n).0.windows
        ≡ some (record { count = w.count + (if b == a then n else 0); start = w.start })
  unfolding local_allow
  window-local_allow b n d h t = elim (Bool-cases (b == a)) [
    | inl p ↦ rw ((==_iff b a).0 p) (
        ground (
          arith,
          open_kept d h t,
          open_current t,
          ==_iff a a,
          lookup-insert_self a (record { count = w.count + n; start = w.start }) kept,
        ))
    | inr p ↦
        let other = current now (read kept b) in
        ground (
          arith,
          open_kept d h t,
          lookup-insert b a (record { count = other.count + n; start = other.start }) kept,
        )
  ]
    where
      kept : Dict Text Window
      kept = filter_entries (is_kept now) g.windows

same_budget :
    (g : RateGuard) (now : ℕ) (a : Text) (n : ℕ)
    → (local_allow g now a n).0.events_per_min ≡ g.events_per_min
unfolding local_allow
same_budget g now a n = refl

-- One call's share, and the rest.
combine :
    (own ok : Bool) (counted n rest budget : ℕ)
    → (own ≡ true → ok ≡ leb (counted + n) budget)
    → (rest ≡ 0) ⊎ (counted + (if own then n else 0) + rest ≤ budget)
    → ((if own then (if ok then n else 0) else 0) + rest ≡ 0)
      ⊎ (counted + ((if own then (if ok then n else 0) else 0) + rest) ≤ budget)
combine true true counted n rest budget v later = let e = v refl in ground arith
combine true false counted n rest budget v later = let e = v refl in ground arith
combine false ok counted n rest budget v later = ground arith

-- Of an agent with an open window, in a guard whose windows have distinct agents, and for every
-- sequence of calls, of any agents, before 60 s have passed since the start of that window: the
-- events of the agent that the calls let through, with those counted before, stay within the
-- budget, or none was let through.
pub admitted-le-budget :
    (cs : List Call) (g : RateGuard) (a : Text) (w : Window)
    → IsDict g.windows
    → lookup a g.windows ≡ some w
    → All (λ c. c.now < w.start + 60 * second) cs
    → (admitted a g cs ≡ 0) ⊎ (w.count + admitted a g cs ≤ g.events_per_min)
unfolding admitted
admitted-le-budget [] g a w d h t = inl refl
admitted-le-budget (c ∷ cs) g a w d h t =
    combine (c.agent == a) (local_allow g c.now c.agent c.count).1 w.count c.count
      (admitted a (local_allow g c.now c.agent c.count).0 cs) g.events_per_min
      (λ p. rw ((==_iff c.agent a).0 p) (local_allow-open g a w c.now c.count d h t.0))
      (rw (same_budget g c.now c.agent c.count) at (
        admitted-le-budget cs (local_allow g c.now c.agent c.count).0 a
          (record { count = w.count + (if c.agent == a then c.count else 0); start = w.start })
          (local_allow-IsDict g c.now c.agent c.count d)
          (window-local_allow g a w c.now c.agent c.count d h t.0) t.1))

-- Of a guard whose windows have distinct agents: a call for n > 0 events is
-- allowed exactly when n is at most what `remaining` reports at that time.
pub local_allow-remaining :
    (g : RateGuard) (now : ℕ) (a : Text) (n : ℕ)
    → IsDict g.windows
    → 0 < n
    → (local_allow g now a n).1 ≡ leb n (remaining g now a).1
unfolding local_allow remaining is_kept current
local_allow-remaining g now a n d pos =
    ground (arith, lookup-filter_entries (is_kept now) a g.windows d)
