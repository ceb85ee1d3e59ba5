-- ===== src/Tests.antt =====
-- Concrete runs of the operations.
mod Ingest
pub mod Rules
mod Alerts
mod Documents
mod Fields
mod Playbooks
mod Redacted
mod Threats
mod Lineages
mod Incidents
mod Consumers
mod Pipelines
mod Updates
mod Responses
mod FileEvents
