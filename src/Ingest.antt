-- ===== src/Ingest.antt =====
-- The ingestion of logs: the registry of parsers (Texts, Registry, Parse) and the pipeline from a
-- payload to the stored events and the alerts (Stages, Pipeline), aegis-brain/app/ingest/registry.py and
-- aegis-brain/app/services/siem_pipeline.py.
pub mod Texts
pub mod Registry
pub mod Parse
pub mod Stages
pub mod Pipeline
pub mod Payload
