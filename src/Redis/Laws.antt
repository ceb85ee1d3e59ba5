-- ===== src/Redis/Laws.antt =====
-- The interface: the commands `get`, `set` (with `ex`, with `nx`), `incr`, `expire` and `delete`,
-- and what a later command can see of each.
use aegis_ecosystem.Prelude.{
  ℕ, ◌+◌, ◌*◌, ◌≤◌, ◌≡◌, Option, none, some, Text, leb, ◌==◌, ==_iff, refl, ◌∙◌, arith, eq_text,
  if◌then◌else◌,
}

pub record Entry : Type 0 where
  pub value : ℕ
  pub deadline : Option ℕ

-- What `set(key, value, ex=ttl, nx=True)` returns: `True`, or `None` where the key was there.
-- `False` is a Python value that the program compares with.
pub data SetReply : Type 0 where
  reply_true reply_false reply_none : SetReply

-- An entry as a reader sees it at a time.
unfoldable pub at_time : ℕ → Entry → Option Entry
at_time t e = elim e.deadline [ none ↦ some e | some d ↦ if leb d t then none else some e ]

unfoldable pub deadline_after : ℕ → ℕ → Option ℕ
deadline_after t ttl = some (t + 1000 * ttl)

-- The entry that `incr` leaves: a new key starts at 1 and never expires, an old one keeps its
-- time to live.
unfoldable pub bumped : Option Entry → Entry
bumped none = record { value = 1; deadline = none }
bumped (some e) = record { value = e.value + 1; deadline = e.deadline }

pub record Redis : Type 1 where
  pub Store : Type 0
  pub live : Store → ℕ → Text → Option Entry
  pub get : Store → ℕ → Text → Option (Option ℕ)
  pub set_nx : Store → ℕ → Text → ℕ → Option (SetReply × Store)
  pub set_ex : Store → ℕ → Text → ℕ → Option Store
  pub incr : Store → ℕ → Text → Option (ℕ × Store)
  pub expire : Store → ℕ → Text → ℕ → Option Store
  pub delete : Store → ℕ → Text → Option Store
  pub live_now :
      (s : Store) (t : ℕ) (k : Text) (e : Entry) → live s t k ≡ some e → at_time t e ≡ some e
  pub get_reads :
      (s : Store) (t : ℕ) (k : Text) (r : Option ℕ)
      → get s t k ≡ some r
      → r ≡ (elim (live s t k) [ none ↦ none | some e ↦ some e.value ])
  pub set_nx_reply :
      (s s' : Store) (t : ℕ) (k : Text) (ttl : ℕ) (r : SetReply)
      → set_nx s t k ttl ≡ some (r, s')
      → r ≡ (elim (live s t k) [ none ↦ reply_true | some e ↦ reply_none ])
  pub set_nx_writes :
      (s s' : Store) (t t' : ℕ) (k j : Text) (ttl : ℕ) (r : SetReply)
      → set_nx s t k ttl ≡ some (r, s')
      → t ≤ t'
      → live s' t' j ≡ (elim (live s t k) [
        | none ↦
            if k == j
            then at_time t' (record { value = 1; deadline = deadline_after t ttl })
            else live s t' j
        | some e ↦ live s t' j
      ])
  pub set_ex_writes :
      (s s' : Store) (t t' : ℕ) (k j : Text) (ttl : ℕ)
      → set_ex s t k ttl ≡ some s'
      → t ≤ t'
      → live s' t' j ≡ (
          if k == j
          then at_time t' (record { value = 1; deadline = deadline_after t ttl })
          else live s t' j)
  pub incr_reply :
      (s s' : Store) (t : ℕ) (k : Text) (n : ℕ)
      → incr s t k ≡ some (n, s')
      → n ≡ (bumped (live s t k)).value
  pub incr_writes :
      (s s' : Store) (t t' : ℕ) (k j : Text) (n : ℕ)
      → incr s t k ≡ some (n, s')
      → t ≤ t'
      → live s' t' j ≡ (if k == j then at_time t' (bumped (live s t k)) else live s t' j)
  pub expire_writes :
      (s s' : Store) (t t' : ℕ) (k j : Text) (ttl : ℕ) (e : Entry)
      → expire s t k ttl ≡ some s'
      → live s t k ≡ some e
      → t ≤ t'
      → live s' t' j ≡ (
          if k == j then at_time t' (record e { deadline = deadline_after t ttl }) else live s t' j)
  pub expire_misses :
      (s s' : Store) (t t' : ℕ) (k j : Text) (ttl : ℕ)
      → expire s t k ttl ≡ some s'
      → live s t k ≡ none
      → t ≤ t'
      → live s' t' j ≡ live s t' j
  pub delete_writes :
      (s s' : Store) (t t' : ℕ) (k j : Text)
      → delete s t k ≡ some s'
      → t ≤ t'
      → live s' t' j ≡ (if k == j then none else live s t' j)

module _ (redis : Redis) where
  open redis use {Store, live, incr, incr_writes, live_now}

  at_time-bumped :
      (t : ℕ) (o : Option Entry)
      → ((e : Entry) → o ≡ some e → at_time t e ≡ some e)
      → at_time t (bumped o) ≡ some (bumped o)
  unfolding at_time bumped
  at_time-bumped t none h = refl
  at_time-bumped t (some e) h = let fresh = h e refl in ground arith

  -- The key of an `incr` is live at once, with the count that was returned.
  pub live-incr_self :
      (s s' : Store) (t : ℕ) (k : Text) (n : ℕ)
      → incr s t k ≡ some (n, s')
      → live s' t k ≡ some (bumped (live s t k))
  live-incr_self s s' t k n h =
      incr_writes s s' t t k k n h (omega arith)
      ∙ (rw ((==_iff k k).1 refl) (at_time-bumped t (live s t k) (live_now s t k)))
