-- ===== src/Trial.antt =====
-- The artifact file of apps/artifact_trial.cpp: what `produce` writes, and what `verify` reads.
pub mod Strings
pub mod Artifact
pub mod Find
pub mod Numbers
pub mod Lines
pub mod RoundTrip
pub mod Recovery
pub mod Checks
