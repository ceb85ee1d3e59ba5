-- ===== src/Tests/Alerts.antt =====
-- Runs of correlation rules.
use aegis_ecosystem.Prelude.{
  ◌≡◌, refl, true, false, [], ◌∷◌, arith, Text, codes, text_eq, eq_text, ◌&&◌, not, leb,
}
use aegis_ecosystem.Prelude.Dict.{lookup, insert}
use aegis_ecosystem.Redis.Laws.{at_time, bumped, deadline_after, reply_true}
use aegis_ecosystem.Redis.Memory.{memory_redis, live, incr, expire, set_nx}
use aegis_ecosystem.Sigma.Matcher.{Value, scalar, many}
use aegis_ecosystem.Sigma.Selection.{EventType}
use aegis_ecosystem.Correlation.{
  eval_threshold, evaluate, group_key, group_parts, join_parts, first_matches, threshold_in_group,
  count_in_window, start_window, m_incr, m_expire, fire_at, fire_once, m_claim, claims, answer,
  match_of,
}
use aegis_ecosystem.Correlation.Rules.{CorrelationRule, threshold, counter_key, fired_key}
use aegis_ecosystem.Redis.Held.{is_live}
use aegis_ecosystem.Correlation.Threshold.{threshold_in_group-is_match}
use aegis_ecosystem.Correlation.Once.Chains.{is_match, Ordered}
use aegis_ecosystem.Correlation.Once.{eval_threshold-once}

-- Events are the source address.
abbrev type : EventType
type = record {
  Event = Text;
  get_values = λ event field. scalar event ∷ [];
  has_field = λ event field. true;
  searchable_text = λ event. event;
  raw = λ event. [];
}

abbrev render : Value → Text
render v = elim v [ scalar s ↦ s | many ss ↦ [] ]

abbrev host : Text
host = codes "10.0.0.1"

-- At least one event of a host in 60 s.
abbrev rule : CorrelationRule Text
rule = record {
  id = codes "r1";
  rule_type = threshold;
  group_by = codes "src_ip" ∷ [];
  needed = 1;
  window_seconds = 60;
  source_types = [];
  counts = [];
  matchers = (λ event. true) ∷ [];
  unsupported = [];
}

eval_threshold-once_example :
    is_match
      (eval_threshold memory_redis type render 9_000 rule host
        (evaluate memory_redis type render
          (rule ∷ [])
          ((5_000, codes "zeek", host) ∷ [])
          (eval_threshold memory_redis type render 1_000 rule host []).1).1).0
    ≡ false
unfolding group_key group_parts join_parts Ordered first_matches threshold_in_group count_in_window
    start_window m_incr m_expire fire_at fire_once m_claim claims answer match_of is_match
    eval_threshold live incr expire set_nx lookup insert text_eq at_time bumped deadline_after
    counter_key fired_key
eval_threshold-once_example =
    eval_threshold-once memory_redis type render (rule ∷ []) rule host host host 1_000 9_000
      ((5_000, codes "zeek", host) ∷ []) [] refl refl refl (omega arith, omega arith) (omega arith)

abbrev counter : Text
counter = counter_key (codes "r1") host (codes "0")

abbrev counted : memory_redis.Store
counted = (count_in_window memory_redis type render 1_000 counter 60 []).1

abbrev flagged : memory_redis.Store
flagged =
    insert (fired_key (codes "r1") host (codes "0"))
      (record { value = 1; deadline = deadline_after 1_000 60 }) counted

threshold_in_group-is_match_example :
    is_match (threshold_in_group memory_redis type render 1_000 rule host []).0 ≡ (
      leb 1 (bumped (memory_redis.live [] 1_000 counter)).value
      && not (is_live (memory_redis.live counted 1_000 (fired_key (codes "r1") host (codes "0")))))
unfolding count_in_window start_window m_incr m_expire live incr expire set_nx lookup insert text_eq
    at_time bumped deadline_after counter_key fired_key
threshold_in_group-is_match_example =
    threshold_in_group-is_match memory_redis type render 1_000 rule host 1 [] counted flagged
      reply_true refl refl
