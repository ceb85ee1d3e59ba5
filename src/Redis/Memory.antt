-- ===== src/Redis/Memory.antt =====
-- A server that never fails, as an association list: it shows that the interface can be met, and
-- runs the tests.
use aegis_ecosystem.Prelude.{
  ℕ, ◌≤◌, ◌≡◌, refl, Option, none, some, arith, Text, if◌then◌else◌, ◌==◌, eq_text,
}
use aegis_ecosystem.Prelude.Dict.{Dict, lookup, insert, delete, lookup-insert, lookup-delete}
use aegis_ecosystem.Redis.Laws.{
  Entry, SetReply, reply_true, reply_none, at_time, bumped, deadline_after, Redis,
}

unfoldable pub live : Dict Text Entry → ℕ → Text → Option Entry
unfolding at_time
live s t k = elim (lookup k s) [ none ↦ none | some e ↦ at_time t e ]

live-insert :
    (s : Dict Text Entry) (t : ℕ) (k j : Text) (e : Entry)
    → live (insert k e s) t j ≡ (if k == j then at_time t e else live s t j)
unfolding live
live-insert s t k j e = ground (arith, lookup-insert k j e s)

unfoldable pub get : Dict Text Entry → ℕ → Text → Option (Option ℕ)
unfolding live
get s t k = some (elim (live s t k) [ none ↦ none | some e ↦ some e.value ])

unfoldable pub set_ex : Dict Text Entry → ℕ → Text → ℕ → Option (Dict Text Entry)
unfolding deadline_after
set_ex s t k ttl = some (insert k (record { value = 1; deadline = deadline_after t ttl }) s)

unfoldable pub set_nx : Dict Text Entry → ℕ → Text → ℕ → Option (SetReply × Dict Text Entry)
unfolding live deadline_after
set_nx s t k ttl = elim (live s t k) [
  | none ↦ some (reply_true, insert k (record { value = 1; deadline = deadline_after t ttl }) s)
  | some e ↦ some (reply_none, s)
]

unfoldable pub incr : Dict Text Entry → ℕ → Text → Option (ℕ × Dict Text Entry)
unfolding live bumped
incr s t k = let e : Entry = bumped (live s t k) in some (e.value, insert k e s)

unfoldable pub expire : Dict Text Entry → ℕ → Text → ℕ → Option (Dict Text Entry)
unfolding live deadline_after
expire s t k ttl = elim (live s t k) [
  | none ↦ some s
  | some e ↦ some (insert k (record e { deadline = deadline_after t ttl }) s)
]

unfoldable pub remove : Dict Text Entry → ℕ → Text → Option (Dict Text Entry)
remove s t k = some (delete k s)

pub live-set_nx :
    (s s' : Dict Text Entry) (t t' : ℕ) (k j : Text) (ttl : ℕ) (r : SetReply)
    → set_nx s t k ttl ≡ some (r, s')
    → t ≤ t'
    → live s' t' j ≡ (elim (live s t k) [
      | none ↦
          if k == j
          then at_time t' (record { value = 1; deadline = deadline_after t ttl })
          else live s t' j
      | some e ↦ live s t' j
    ])
unfolding set_nx
live-set_nx s s' t t' k j ttl r h le =
    ground (arith, live-insert s t' k j (record { value = 1; deadline = deadline_after t ttl }))

pub live-expire :
    (s s' : Dict Text Entry) (t t' : ℕ) (k j : Text) (ttl : ℕ) (e : Entry)
    → expire s t k ttl ≡ some s'
    → live s t k ≡ some e
    → t ≤ t'
    → live s' t' j
      ≡ (if k == j then at_time t' (record e { deadline = deadline_after t ttl }) else live s t' j)
unfolding expire
live-expire s s' t t' k j ttl e h there le =
    ground (arith, live-insert s t' k j (record e { deadline = deadline_after t ttl }))

pub live-expire_none :
    (s s' : Dict Text Entry) (t t' : ℕ) (k j : Text) (ttl : ℕ)
    → expire s t k ttl ≡ some s'
    → live s t k ≡ none
    → t ≤ t'
    → live s' t' j ≡ live s t' j
unfolding expire
live-expire_none s s' t t' k j ttl h missing le = let same : s' ≡ s = ground arith in rw same refl

pub live-incr :
    (s s' : Dict Text Entry) (t t' : ℕ) (k j : Text) (n : ℕ)
    → incr s t k ≡ some (n, s')
    → t ≤ t'
    → live s' t' j ≡ (if k == j then at_time t' (bumped (live s t k)) else live s t' j)
unfolding incr
live-incr s s' t t' k j n h le = ground (arith, live-insert s t' k j (bumped (live s t k)))

pub live-set_ex :
    (s s' : Dict Text Entry) (t t' : ℕ) (k j : Text) (ttl : ℕ)
    → set_ex s t k ttl ≡ some s'
    → t ≤ t'
    → live s' t' j ≡ (
        if k == j
        then at_time t' (record { value = 1; deadline = deadline_after t ttl })
        else live s t' j)
unfolding set_ex
live-set_ex s s' t t' k j ttl h le =
    ground (arith, live-insert s t' k j (record { value = 1; deadline = deadline_after t ttl }))

pub live-remove :
    (s s' : Dict Text Entry) (t t' : ℕ) (k j : Text)
    → remove s t k ≡ some s'
    → t ≤ t'
    → live s' t' j ≡ (if k == j then none else live s t' j)
unfolding remove live
live-remove s s' t t' k j h le = ground (arith, lookup-delete k j s)

pub get-live :
    (s : Dict Text Entry) (t : ℕ) (k : Text) (r : Option ℕ)
    → get s t k ≡ some r
    → r ≡ (elim (live s t k) [ none ↦ none | some e ↦ some e.value ])
unfolding get
get-live s t k r h = ground arith

pub set_nx-live :
    (s s' : Dict Text Entry) (t : ℕ) (k : Text) (ttl : ℕ) (r : SetReply)
    → set_nx s t k ttl ≡ some (r, s')
    → r ≡ (elim (live s t k) [ none ↦ reply_true | some e ↦ reply_none ])
unfolding set_nx
set_nx-live s s' t k ttl r h = ground arith

pub incr-live :
    (s s' : Dict Text Entry) (t : ℕ) (k : Text) (n : ℕ)
    → incr s t k ≡ some (n, s')
    → n ≡ (bumped (live s t k)).value
unfolding incr
incr-live s s' t k n h = ground arith

pub live-at_time :
    (s : Dict Text Entry) (t : ℕ) (k : Text) (e : Entry)
    → live s t k ≡ some e
    → at_time t e ≡ some e
unfolding live at_time
live-at_time s t k e h = ground arith

abbrev pub memory_redis : Redis
memory_redis = record {
  Store = Dict Text Entry;
  live = live;
  get = get;
  set_nx = set_nx;
  set_ex = set_ex;
  incr = incr;
  expire = expire;
  delete = remove;
  live_now = live-at_time;
  get_reads = get-live;
  set_nx_reply = set_nx-live;
  set_nx_writes = live-set_nx;
  set_ex_writes = live-set_ex;
  incr_reply = incr-live;
  incr_writes = live-incr;
  expire_writes = live-expire;
  expire_misses = live-expire_none;
  delete_writes = live-remove;
}
