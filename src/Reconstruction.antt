-- ===== src/Reconstruction.antt =====
-- Reconstruction of customers from their features, Track A and Track B (src/lzd_pipeline/reconstruction).
pub mod Candidate
pub mod Semantics
pub mod Constructive
pub mod Hashing
pub mod Engine
pub mod State
pub mod Handoff
pub mod Live
pub mod Lineage
pub mod Encoding
pub mod FeatureSet
pub mod Target
pub mod Tests
pub mod BoundTests
pub mod ContractTests
pub mod LineageTests
