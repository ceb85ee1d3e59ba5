-- ===== src/Heuristic.antt =====
-- The heuristic engine, aegis-brain/app/rules/heuristic_engine.py.
pub mod Analysis
pub mod Verdict
pub mod Effects
pub mod Conditions
pub mod Regexes
pub mod Nesting
