-- ===== src/Ingestion.antt =====
-- From Kafka to the lake and the online store: ingestion/.
pub mod Consumer
pub mod Tests
