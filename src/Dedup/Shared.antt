-- ===== src/Dedup/Shared.antt =====
-- `is_duplicate` of aegis-brain/app/services/event_dedup.py: Redis first, the window in memory
-- where Redis does not decide.
use aegis_ecosystem.Prelude.{
  ℕ, ◌+◌, ◌≡◌, Bool, true, false, Option, none, some, [], ◌∷◌, ◌++◌, Text, codes, if◌then◌else◌,
  eq_text,
}
use aegis_ecosystem.Redis.Laws.{Redis, SetReply, reply_true, reply_false, reply_none, Entry}
use aegis_ecosystem.Dedup.{EventDedup, check}

module _ (redis : Redis) where
  open redis use {Store, live, set_nx}

  pub record Worker : Type 0 where
    pub store : Store
    pub dedup : EventDedup

  -- f"dedup:{agent_id}:{event_id}"
  unfoldable pub dedup_key : Text → Text → Text
  dedup_key agent event = codes "dedup:" ++ (agent ++ (codes ":" ++ event))

  -- step 2, the fallback in memory
  unfoldable pub in_memory : Store → EventDedup → Text → Text → Bool × Worker
  in_memory s d agent event =
      let (d', duplicate) = check d agent (some event) in
      (duplicate, record { store = s; dedup = d' })

  -- what the reply of `client.set(..., nx=True)` decides
  unfoldable pub after_set : Store → EventDedup → Text → Text → SetReply → Bool × Worker
  unfolding in_memory
  after_set s d agent event reply_false =
      (true, record { store = s; dedup = record d { duplicates = d.duplicates + 1 } })
  after_set s d agent event reply_true =
      (false, record { store = s; dedup = (check d agent (some event)).0 })
  after_set s d agent event reply_none = in_memory s d agent event

  -- `closes` says whether `client.aclose()` returns; an exception of either call is swallowed.
  unfoldable pub is_duplicate : ℕ → ℕ → Bool → Worker → Text → Option Text → Bool × Worker
  unfolding after_set in_memory
  is_duplicate now ttl closes w agent none = (false, w)
  is_duplicate now ttl closes w agent (some []) = (false, w)
  is_duplicate now ttl closes w agent (some (c ∷ e)) =
      elim (set_nx w.store now (dedup_key agent (c ∷ e)) ttl) [
        | none ↦ in_memory w.store w.dedup agent (c ∷ e)
        | some (reply, s) ↦
            if closes
            then after_set s w.dedup agent (c ∷ e) reply
            else in_memory s w.dedup agent (c ∷ e)
      ]

  verdict-after_set :
      (s : Store) (d : EventDedup) (agent event : Text) (found : Option Entry) (r : SetReply)
      → r ≡ (elim found [ none ↦ reply_true | some e ↦ reply_none ])
      → (after_set s d agent event r).0
        ≡ (elim found [ none ↦ false | some e ↦ (check d agent (some event)).1 ])
  unfolding after_set
  verdict-after_set s d agent event none r h = rw h
  verdict-after_set s d agent event (some e) r h = rw h

  -- Where Redis answers and the client closes, the verdict on an event with an id is "new" if Redis
  -- has no live key for it, and else the verdict of this worker's own window.
  pub verdict-is_duplicate :
      (now ttl : ℕ) (w : Worker) (agent : Text) (c : ℕ) (e : Text) (r : SetReply) (s' : Store)
      → set_nx w.store now (dedup_key agent (c ∷ e)) ttl ≡ some (r, s')
      → (is_duplicate now ttl true w agent (some (c ∷ e))).0
        ≡ (elim (live w.store now (dedup_key agent (c ∷ e))) [
          | none ↦ false
          | some _ ↦ (check w.dedup agent (some (c ∷ e))).1
        ])
  unfolding is_duplicate
  verdict-is_duplicate now ttl w agent c e r s' h =
      rw (h, is_duplicate)
        (verdict-after_set s' w.dedup agent (c ∷ e) (live w.store now (dedup_key agent (c ∷ e))) r
          (redis.set_nx_reply w.store s' now (dedup_key agent (c ∷ e)) ttl r h))
