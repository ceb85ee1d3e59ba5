-- ===== src/Redis/Offline.antt =====
-- A server that cannot be reached: every command raises.
use aegis_ecosystem.Prelude.{◌≡◌, none, some, arith}
use aegis_ecosystem.Redis.Laws.{Redis}

pub no_answer : {A B : Type 0} (a : A) → none ≡ some a → B
no_answer a h = absurd (ground arith)

abbrev pub offline_redis : Redis
offline_redis = record {
  Store = Unit {0};
  live = λ s t k. none;
  get = λ s t k. none;
  set_nx = λ s t k ttl. none;
  set_ex = λ s t k ttl. none;
  incr = λ s t k. none;
  expire = λ s t k ttl. none;
  delete = λ s t k. none;
  live_now = λ s t k e h. no_answer e h;
  get_reads = λ s t k r h. no_answer r h;
  set_nx_reply = λ s s' t k ttl r h. no_answer (r, s') h;
  set_nx_writes = λ s s' t t' k j ttl r h le. no_answer (r, s') h;
  set_ex_writes = λ s s' t t' k j ttl h le. no_answer s' h;
  incr_reply = λ s s' t k n h. no_answer (n, s') h;
  incr_writes = λ s s' t t' k j n h le. no_answer (n, s') h;
  expire_writes = λ s s' t t' k j ttl e h f le. no_answer s' h;
  expire_misses = λ s s' t t' k j ttl h f le. no_answer s' h;
  delete_writes = λ s s' t t' k j h le. no_answer s' h;
}
