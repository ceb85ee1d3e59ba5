-- ===== src/Sigma.antt =====
-- The Sigma engine of aegis-brain/app/rules/sigma: field matching (Matcher, over Wildcard), the
-- condition language (Condition), selections and whole detections (Selection), the evaluation of
-- loaded rules on an event (Engine), and the fields of an event by their Sigma names (Fields).
pub mod Wildcard
pub mod Matcher
pub mod Condition
pub mod Selection
pub mod Engine
pub mod Fields
