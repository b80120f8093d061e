-- ===== src/Lib.antt =====
-- LZD: a platform that reconstructs customer behaviour, serves features and decides on vouchers.
--
-- The program has two halves. The reconstruction turns a row of aggregated features (a target) into
-- a sequence of events (Track A), hands the customer's state over when its gates have passed, and
-- continues it with synthetic events (Track B); rows of provenance record what came from what. The
-- feature platform lands events from Kafka, keeps counters of the last hour in Redis beside versions
-- of batch features, serves both to a model of uplift, and guards which model is in production.
--
-- Common: exceptions as values (Outcome), tests on numbers and texts, lists, sorting, dicts.
-- Reconstruction, of src/lzd_pipeline/reconstruction:
--   Candidate is candidate.py; Semantics is semantics.py (DecodedTarget, H1Branch, H2Branch);
--   Constructive is constructive.py (h1_objective_bound, solve_h1); Engine is engine.py, from feasible_candidates to
--   solve; State is state.py; Handoff is handoff.py; Live is live.py; Lineage is persistence.py; Encoding is encoding.py;
--   FeatureSet is feature_set.py; Target is target.py with canonical.py.
-- Features, of src/lzd_pipeline/features:
--   Window is the reading of the overlay in online_store.py (rt_bucket_start, aggregate_realtime);
--   Overlay is apply_realtime_event with its Lua script; Versions is activate_version,
--   delete_version and gc_old_versions; Sync is sync.py with write_rows of online_store.py and the
--   tables of src/lzd_pipeline/common/audit.py (Ledger); Spec is spec.py; Compatibility is compatibility.py.
-- Ingestion, of src/lzd_pipeline/ingestion: Consumer is validate_event of schemas.py, and
--   _update_realtime and _flush of stream_consumer.py, which call Overlay.
-- Serving, of src/lzd_pipeline/serving: Decide is decide_input.py and evaluate_user of
--   trigger_engine.py, on the rows that Features gives; Deployment is deployment.py, which asks
--   Compatibility.
-- Training, of src/lzd_pipeline/training: Promote is promote.py.
-- The modules whose names end in Tests hold tests and concrete instances.
--
-- Numbers. Counts, days and levels are natural numbers. Times are microseconds since the epoch in
-- Reconstruction and whole seconds in Features and Ingestion, with counters and prices in a smallest
-- unit, where the source has floats. Scores and raw feature values are types of their own, with their
-- comparisons and conversions as parameters. Subtraction stops at 0; where the source would be
-- negative, a comment says why that makes no difference.
-- Fuel. The inner loop of assert_no_cycle runs on the number of runs, since each round greys one white
-- run; that this is enough is part of the result on it. The walk of assert_single_root runs on one
-- more than that number, since each round sees one more run.
-- Parameters. SHA-256 and UUIDv5 (Hashing); the commands of Redis on an overlay and on versions, with
-- their documented behaviour as laws, the time to live of a marker and the pages of SCAN among them, while
-- an overlay is looked at only before it expires; the offline store of the feature sync; the landing of Parquet objects and the commit
-- of Kafka; the registry of MLflow; what a deployment reads from outside; the conversions of Python
-- values. A field of the overlay is a name, or a name with a bucket, instead of the text that joins them.
--
-- Redis and the ledger answer every call, while reads of the offline store may raise. The numbers of
-- an event that float and int read are natural; that they raise, or that a time is NaN, is modelled.
-- The raw values of features are finite.
--
-- Not modelled: SQL, HTTP, files, logging, metrics and orchestration; model training; the reading of
-- YAML; the parsing of logical dates; the poll loop of the consumer; the paths of online_store.py for Redis without Lua.
pub mod Common
pub mod Reconstruction
pub mod Features
pub mod Ingestion
pub mod Serving
pub mod Training
