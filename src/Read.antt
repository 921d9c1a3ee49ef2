-- ===== src/Read.antt =====
-- The read side of `QivenContext` (src/persistence.cpp): view resolution, context bundles and their
-- renderings, and the bytes of a cognition as an artifact.
pub mod Views
pub mod Bundle
pub mod Budget
pub mod Floors
pub mod Boundary
pub mod Render
pub mod Lines
pub mod Silence
pub mod Artifact
