-- ===== src/Lib.antt =====
-- The detection path of the Aegis server (aegis-brain), from an agent's events to alerts.
--
-- An event that arrives passes the ingestion budget (RateGuard), deduplication (Dedup) and the
-- count of missing numbers (Sequence), and loses its secrets and control characters (Redaction).
-- Static and custom rules judge it (Heuristic), and the telemetry service leaves some results of
-- the static rules out (Suppression). The Sigma engine evaluates it against rules that were
-- compiled from YAML (Sigma); the correlation engines count the events of a group in Redis and
-- raise an alert once for each window (Correlation, Behaviour). An alert starts the playbooks that
-- it triggers, whose actions queue commands for the agent (Playbook), and similar alerts are one
-- incident (Incident). RateGuard, Dedup, Correlation, Behaviour and Playbook share one Redis
-- server. Logs of other sources arrive as a payload, which a registry of parsers turns into events
-- and a pipeline claims, stores and hands to the detection (Ingest); the agents' events wait in
-- lists of Redis, which a loop empties (Consumer). Updater is the agent's side of an update that is
-- staged and sealed.
--
-- Which file models what:
--   Redis           the server and client library, which the repository does not hold, as a record
--                   of commands with their documented behaviour, an argument of whatever calls them;
--                   Redis/Memory is a server that meets it, Redis/Offline one that always fails.
--   Dedup           aegis-brain/app/services/event_dedup.py, EventDedup (init, check, snapshot) and,
--                   in Dedup/Shared, is_duplicate.
--   Sequence        the same file, SeqTracker (init, observe, snapshot).
--   RateGuard       aegis-brain/app/core/rate_guard.py, _local_allow (local_allow), remaining and, in
--                   RateGuard/Shared, _RATE_LUA (rate_lua) and allow_async, in
--                   RateGuard/Sync, allow, _redis_allow and remaining with the shared counter.
--   Sigma/Wildcard  aegis-brain/app/rules/sigma/matcher.py, _wildcard_to_regex, with the matching of
--                   the regexes it builds.
--   Sigma/Matcher   the same file, _match_text and compile_field_match with their helpers.
--   Sigma/Condition aegis-brain/app/rules/sigma/compiler.py, _ConditionParser and compile_condition.
--   Sigma/Selection the same file, build_selection and compile_detection.
--   Sigma/Engine    aegis-brain/app/rules/sigma/engine.py, logsource_matches, evaluate, get_rule,
--                   severity_for; model.py, SigmaRule and SigmaMatch. Engine/Sources has the tables.
--   Sigma/Fields    aegis-brain/app/rules/sigma/fields.py, has_field and get_values, on the model of
--                   aegis-brain/app/ingest/base.py, UnifiedEvent. Fields/Aliases has the tables.
--   Consumer        aegis-brain/app/services/redis_consumer.py: the loop of start (iterate),
--                   _process_raw, _to_dlq, _requeue_processing (requeue); Redis/Queues has the
--                   commands on lists that it calls. Consumer/Security: the handlers of an event,
--                   _update_agent, in Security/Metrics _process_telemetry, in Security/Sessions
--                   _process_security_event and _execute_auto_remediation, with
--                   send_command_to_agent of aegis-brain/app/services/telemetry_service.py.
--                   Consumer/Files: _RateWindow, classify_fim_mitre and handle_file_event of
--                   aegis-brain/app/services/file_event_service.py.
--   Ingest          aegis-brain/app/ingest/registry.py: Ingest/Registry has register, get, detect and
--                   _run, Ingest/Parse has parse and _parse_auto. Ingest/Pipeline: process_events,
--                   _detect_and_alert and run_playbooks_for_alerts of
--                   aegis-brain/app/services/siem_pipeline.py; Ingest/Stages: what they call, with
--                   claim_event of aegis-brain/app/services/siem_store.py.
--                   Ingest/Payload: ingest_payload.
--   Updater         NodeTrace/agents/python/services/updater.py, verify_signature, is_newer,
--                   stage_package, seal_staged_state and verify_staged_state.
--   Correlation     aegis-brain/app/services/correlation.py, evaluate, _eval_threshold,
--                   _eval_sequence, _group_key, _source_matches; in Correlation/Rules, the rules,
--                   matches and keys; in Correlation/Build, _compile_match and _build_rule.
--   Playbook        aegis-brain/app/services/playbook_engine.py, _matches_trigger and
--                   _send_agent_command; Playbook/Risk: describe_action; Playbook/Actions:
--                   _execute_action, with artifact_name_for and build_update_command of
--                   aegis-brain/app/api/v1/deploy.py; Playbook/Runs: check_and_execute_playbooks.
--   Redaction       aegis-brain/app/core/redaction.py: sanitize_event, _sanitize_value, redact_value,
--                   redact_text, strip_control_chars; Json has the values of JSON documents.
--   Heuristic       aegis-brain/app/rules/heuristic_engine.py: in Heuristic/Regexes is_regex_safe,
--                   in Heuristic/Conditions _check_whitelist, _match_event_field and
--                   _eval_condition, in Heuristic/Analysis analyze, with stamp_result of
--                   aegis-brain/app/rules/rule_definitions.py.
--   Behaviour       aegis-brain/app/rules/correlation_engine.py: _generate_alert, in
--                   Behaviour/BruteForce _brute_force_detection, in Behaviour/Lineage
--                   _process_lineage_alert; Behaviour/Pairs: SUSPICIOUS_PARENT_CHILD and
--                   rule_suspicious_parent_child of aegis-brain/app/rules/rule_definitions.py.
--   StaticRules     the same file, _lev.
--   Suppression     the loop over the static rules of aegis-brain/app/services/telemetry_service.py,
--                   with aegis-brain/app/services/alert_policy.py, is_signed_verified of
--                   aegis-brain/app/services/detection_context.py and is_canary_rule.
--   Incident        aegis-brain/app/services/incident_grouping.py, group_key, suggest_groups and
--                   group_title, with _base_name.
--   Tests           runs of the operations.
--
-- Texts are lists of code points. Python's `lower`, `upper`, `strip` and case-insensitive comparison
-- are those of ASCII. `time.monotonic()` is an argument in nanoseconds, Redis's clock one in
-- milliseconds. A method that holds a lock is one step. Numbers are without bound, as in Python.
-- Regexes that a rule writes itself, floats and IP networks are parameters (Sigma.Matcher.Library);
-- an event with its fields is one as well (Sigma.Selection.EventType). A call that raises is a value:
-- `none` for Redis, `value_error` and `index_error` in the condition parser. The parser recurses on
-- fuel, four for each token and four more: each token costs at most the four calls or_expr, and_expr,
-- not_expr and primary.
--
-- Not modelled: the reports of coverage and the label of a correlation match; reading the rules
-- from disk; the text that keywords search, which is a part of the parameter EventType; the beacon
-- detection, whose sorted sets and floating-point variance have no model here; the static rules but
-- S002, which Heuristic takes as an argument; the parsers of log formats, which the registry takes
-- as values; the enrichment of alerts and the statistics of metrics that the consumer calls;
-- ingest_batch, the agent that stands for a log source and the fields of the pipeline's alerts; the
-- Ed25519 manifest of an update; the agent's loop and collectors, which are calls of the system;
-- the database, the HTTP endpoints, and the programs that are not in Python.
mod Prelude
pub mod Redis
pub mod Dedup
pub mod Sequence
pub mod RateGuard
pub mod Sigma
pub mod Consumer
pub mod Ingest
pub mod Updater
pub mod Correlation
pub mod Playbook
pub mod Json
pub mod Redaction
pub mod Heuristic
pub mod Behaviour
pub mod Incident
pub mod StaticRules
pub mod Suppression
mod Tests
