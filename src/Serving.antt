-- ===== src/Serving.antt =====
-- The serving path: serving/.
pub mod Decide
pub mod Deployment
pub mod Tests
