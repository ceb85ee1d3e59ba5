-- ===== src/Sigma/Engine.antt =====
-- The evaluation of rules, `SigmaEngine` of aegis-brain/app/rules/sigma/engine.py with `SigmaRule`
-- and `SigmaMatch` of model.py. What `logsource_matches` reads of an event is an Origin, where an
-- absent value is the empty text.
pub mod Sources
pub mod Firing
use aegis_ecosystem.Prelude.{
  ◌-◌, Bool, true, false, ◌&&◌, ◌||◌, Option, none, some, List, [], ◌∷◌, map, Text, codes, lower,
  strip, member, any, filter, starts_with, contains, drop, leb, if◌then◌else◌, ◌==◌, eq_text,
}
use aegis_ecosystem.Prelude.Dict.{Dict, lookup}
use aegis_ecosystem.Sigma.Matcher.{Library, level_to_severity}
use aegis_ecosystem.Sigma.Condition.{Condition}
use aegis_ecosystem.Sigma.Selection.{EventType, Rule, executable}
use Sources.{product_sources, windows_service_hints, windows_category_types, network_service_hints}

pub record Origin : Type 0 where
  pub source_type : Text
  pub source : Text
  pub event_type : Text
  pub channel : Text
  pub service : Text
  pub zeek_log : Text

-- `str(ls.get(key) or "").strip().lower()`
unfoldable pub entry : Dict Text Text → Text → Text
entry ls key = lower (strip (elim (lookup key ls) [ none ↦ [] | some v ↦ v ]))

unfoldable pub product_matches : Text → Origin → Bool
product_matches product o =
    let source_type = lower o.source_type in
    let allowed : List Text = elim (lookup product product_sources) [
      | none ↦ product ∷ []
      | some ss ↦ ss
    ] in
    product == []
    || (member source_type allowed || (product == source_type || product == lower o.source))

-- `kind in table.get(key)`, and `False` for a key that is not there
unfoldable pub allowed_by : Dict Text (List Text) → Text → Text → Bool
allowed_by table key kind = elim (lookup key table) [ none ↦ false | some ts ↦ member kind ts ]

unfoldable pub category_matches : Text → Origin → Bool
unfolding allowed_by
category_matches category o =
    if category == []
    then true
    else if lower o.source_type == codes "windows_event"
    then allowed_by windows_category_types category o.event_type
    else allowed_by network_service_hints category o.event_type

-- the set `values` of an event that is not from Windows
unfoldable pub service_values : Origin → List Text
service_values o = o.event_type ∷ o.service ∷ o.zeek_log ∷ lower o.source_type ∷ []

unfoldable pub service_matches : Text → Origin → Bool
unfolding service_values
service_matches service o =
    if service == []
    then true
    else if lower o.source_type == codes "windows_event"
    then contains
        (elim (lookup service windows_service_hints) [ none ↦ service | some hint ↦ hint ])
        (lower o.channel)
    else (elim (lookup service network_service_hints) [
      | some hints ↦ any (λ v. member v hints) (service_values o)
      | none ↦ member service (service_values o)
    ])

unfoldable pub logsource_matches : Dict Text Text → Origin → Bool
unfolding entry product_matches category_matches service_matches
logsource_matches [] o = true
logsource_matches (e ∷ ls) o =
    product_matches (entry (e ∷ ls) (codes "product")) o
    && (category_matches (entry (e ∷ ls) (codes "category")) o
        && service_matches (entry (e ∷ ls) (codes "service")) o)

-- `str.upper()` on ASCII letters
unfoldable pub upper : Text → Text
upper = map (λ c. if leb b'a' c && leb c b'z' then c - 32 else c)

-- `mitre_techniques`: the tags `attack.t…`, from the text behind the first dot
unfoldable pub mitre_techniques : List Text → List Text
unfolding upper
mitre_techniques tags =
    map (λ tag. upper (drop 7 (lower tag)))
      (filter (λ tag. starts_with (codes "attack.t") (lower tag)) tags)

module _ (library : Library) (type : EventType) where
  open type use {Event}

  pub record SigmaRule : Type 0 where
    pub id : Text
    pub title : Text
    pub level : Text
    pub description : Text
    pub tags : List Text
    pub logsource : Dict Text Text
    pub rule : Rule library type

  pub record SigmaMatch : Type 0 where
    pub rule_id : Text
    pub title : Text
    pub level : Text
    pub description : Text
    pub mitre : List Text
    pub tags : List Text
    pub event_id : Text

  -- `{name: pred(event) for name, pred in rule.selections.items()}`
  unfoldable pub selection_results : SigmaRule → Event → Dict Text Bool
  selection_results r event = map (λ x. (x.0, x.1 event)) r.rule.selections

  -- `rule.condition and rule.condition(results)`
  unfoldable pub condition_holds : Option Condition → Dict Text Bool → Bool
  condition_holds none s = false
  condition_holds (some c) s = c s

  -- whether the body of the loop appends a match
  unfoldable pub fires : Origin → SigmaRule → Event → Bool
  unfolding selection_results condition_holds
  fires o r event =
      logsource_matches r.logsource o
      && condition_holds r.rule.condition (selection_results r event)

  unfoldable pub sigma_match : Text → SigmaRule → SigmaMatch
  unfolding mitre_techniques
  sigma_match event_id r = record {
    rule_id = r.id;
    title = r.title;
    level = r.level;
    description = r.description;
    mitre = mitre_techniques r.tags;
    tags = r.tags;
    event_id = event_id;
  }

  unfoldable pub executable_rules : List SigmaRule → List SigmaRule
  executable_rules = filter (λ r. executable library type r.rule)

  unfoldable pub evaluate : List SigmaRule → Origin → Text → Event → List SigmaMatch
  unfolding fires sigma_match executable_rules
  evaluate rules o event_id event =
      map (sigma_match event_id) (filter (λ r. fires o r event) (executable_rules rules))

  -- `get_rule`
  unfoldable pub get_rule : List SigmaRule → Text → Option SigmaRule
  get_rule [] rule_id = none
  get_rule (r ∷ rules) rule_id = if r.id == rule_id then some r else get_rule rules rule_id

  unfoldable pub severity_for : List SigmaRule → Text → Text
  unfolding get_rule
  severity_for rules rule_id =
      level_to_severity (elim (get_rule rules rule_id) [ none ↦ none | some r ↦ some r.level ])
