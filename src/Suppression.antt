-- ===== src/Suppression.antt =====
-- Which static rules contribute to an alert: the loop over the rules of
-- aegis-brain/app/services/telemetry_service.py, with aegis-brain/app/services/alert_policy.py,
-- is_signed_verified of aegis-brain/app/services/detection_context.py and the canary rules of
-- aegis-brain/app/rules/rule_definitions.py. An event is the dictionary of its attributes; an
-- attribute that is no text counts as absent.
pub mod Kept
use aegis_ecosystem.Prelude.{
  Bool, not, ◌&&◌, ◌||◌, none, some, List, [], ◌∷◌, map, filter, Text, codes, lower, strip,
  replace_char, member, nat_eq, is_nil, if◌then◌else◌, ◌==◌, eq_text,
}
use aegis_ecosystem.Sigma.Engine.{upper}
use aegis_ecosystem.Json.{Fields, get_field}
use aegis_ecosystem.Heuristic.Conditions.{text_or_none}
use aegis_ecosystem.Heuristic.Analysis.{RuleResult, StaticRule, stamp_result}
use aegis_ecosystem.Behaviour.Pairs.{last_part}

abbrev pub trusted_suppress_rule_ids : List Text
trusted_suppress_rule_ids =
    codes "AEGIS-S004"
    ∷ codes "AEGIS-S009"
    ∷ codes "AEGIS-S010"
    ∷ codes "AEGIS-S012"
    ∷ codes "AEGIS-S014"
    ∷ []

abbrev pub known_signed_app_names : List Text
known_signed_app_names =
    codes "code.exe"
    ∷ codes "code - insiders.exe"
    ∷ codes "cursor.exe"
    ∷ codes "chrome.exe"
    ∷ codes "msedge.exe"
    ∷ codes "firefox.exe"
    ∷ codes "brave.exe"
    ∷ codes "opera.exe"
    ∷ codes "slack.exe"
    ∷ codes "discord.exe"
    ∷ codes "teams.exe"
    ∷ codes "zoom.exe"
    ∷ codes "devenv.exe"
    ∷ codes "idea64.exe"
    ∷ codes "pycharm64.exe"
    ∷ codes "webstorm64.exe"
    ∷ codes "spotify.exe"
    ∷ codes "steam.exe"
    ∷ codes "discordptb.exe"
    ∷ []

abbrev pub trusted_signature_states : List Text
trusted_signature_states = codes "authenticode-trusted" ∷ []

-- `is_signed_verified`
unfoldable pub is_signed_verified : Fields → Bool
unfolding text_or_none
is_signed_verified event =
    member (strip (lower (text_or_none (get_field (codes "signature") event))))
      trusted_signature_states

-- `_basename`
unfoldable pub basename : Text → Text
unfolding last_part
basename name = last_part (strip (lower (replace_char b'\\' b'/' name)))

-- `getattr(event, "process_name", None) or getattr(event, "process_path", None)`
unfoldable pub program_of : Fields → Text
unfolding text_or_none
program_of event = elim (text_or_none (get_field (codes "process_name") event)) [
  | [] ↦ text_or_none (get_field (codes "process_path") event)
  | c ∷ s ↦ c ∷ s
]

-- `should_skip_trusted_noisy_rule`; the confidence is "medium" where it is empty
unfoldable pub should_skip_trusted_noisy_rule : Text → RuleResult → Fields → Bool
unfolding is_signed_verified
should_skip_trusted_noisy_rule rule_id r event =
    member rule_id trusted_suppress_rule_ids
    && (is_signed_verified event && r.confidence == codes "low")

-- `should_skip_known_signed_app_path`
unfoldable pub should_skip_known_signed_app_path : Fields → Text → Bool
unfolding is_signed_verified basename program_of
should_skip_known_signed_app_path event rule_id =
    (rule_id == codes "AEGIS-S004" || rule_id == codes "AEGIS-S014")
    && (is_signed_verified event && member (basename (program_of event)) known_signed_app_names)

-- `raw.split(",")`
unfoldable pub split_commas : Text → List Text
split_commas [] = [] ∷ []
split_commas (c ∷ s) =
    let rest = split_commas s in
    if nat_eq c b','
    then [] ∷ rest
    else elim rest [ [] ↦ (c ∷ []) ∷ [] | part ∷ parts ↦ (c ∷ part) ∷ parts ]

-- `canary_rule_ids`, of the setting RULE_CANARY_IDS
unfoldable pub canary_rule_ids : Text → List Text
unfolding split_commas upper
canary_rule_ids raw =
    map (λ r. upper (strip r)) (filter (λ r. not (is_nil (strip r))) (split_commas raw))

-- `is_canary_rule`
unfoldable pub is_canary_rule : Text → Text → Bool
unfolding canary_rule_ids
is_canary_rule raw rule_id =
    not (is_nil rule_id) && member (upper (strip rule_id)) (canary_rule_ids raw)

-- the confidence of a noisy rule on a signed program
unfoldable pub weighed : Fields → RuleResult → RuleResult
unfolding is_signed_verified
weighed event r =
    if is_signed_verified event && member r.rule_id trusted_suppress_rule_ids
    then record r { confidence = codes "low" }
    else r

-- whether the result is left out of `triggered_rules`
unfoldable pub is_suppressed : Text → Fields → RuleResult → Bool
unfolding is_canary_rule should_skip_known_signed_app_path should_skip_trusted_noisy_rule
is_suppressed raw event r =
    is_canary_rule raw r.rule_id
    || (should_skip_known_signed_app_path event r.rule_id
        || should_skip_trusted_noisy_rule r.rule_id r event)

-- the loop over the rules; a rule that raises is passed over
unfoldable pub triggered_rules : Text → List StaticRule → Fields → List RuleResult
unfolding weighed is_suppressed stamp_result
triggered_rules raw [] event = []
triggered_rules raw (rule ∷ rules) event =
    let rest = triggered_rules raw rules event in
    elim (rule.fn event) [
      | none ↦ rest
      | some r ↦
          if r.triggered
          then (let result = weighed event (stamp_result rule r) in
              if is_suppressed raw event result then rest else result ∷ rest)
          else rest
    ]
