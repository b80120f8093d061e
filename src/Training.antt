-- ===== src/Training.antt =====
-- What guards the production model: training/.
pub mod Promote
pub mod Tests
