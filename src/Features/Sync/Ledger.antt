-- ===== src/Features/Sync/Ledger.antt =====
-- audit.py: the ledger of the synchronisation, the tables ops.feature_sync_audit and ops.feature_sync_shard. The SQL statements
-- are written as functions on the rows; timestamps, durations, reports and messages are left out.
use lzd.Common.{
  ℕ, ◌+◌, Bool, true, false, ◌&&◌, not, List, [], ◌∷◌, ◌++◌, map, ◌==◌, leb, if◌then◌else◌, Option,
  none, some, String, ◌==ₛ◌, keep_if, any_of, count_if, sum_of, range_from,
}
use lzd.Common.Outcome.{Outcome, ok, err, integrity_error}
use lzd.Common.Sorting.{sort_by}

pub data SyncStatus : Type 0 where
  in_progress validating validated active failed retired : SyncStatus

abbrev pub is_live : SyncStatus → Bool
is_live active = true
is_live validating = true
is_live _ = false

pub data ShardStatus : Type 0 where
  pending done broken : ShardStatus

abbrev pub is_done : ShardStatus → Bool
is_done done = true
is_done _ = false

-- A row of ops.feature_sync_audit.
pub record SyncRow : Type 0 where
  pub feature_version : String
  pub status : SyncStatus
  pub total_shards : ℕ
  pub expected_rows : ℕ
  pub completed_shards : ℕ
  pub written_rows : ℕ

-- A row of ops.feature_sync_shard.
pub record ShardRow : Type 0 where
  pub feature_version : String
  pub shard_id : ℕ
  pub status : ShardStatus
  pub rows_written : ℕ
  pub attempt : ℕ

pub record Ledger : Type 0 where
  pub syncs : List SyncRow
  pub shards : List ShardRow

abbrev pub is_shard : String → ℕ → ShardRow → Bool
is_shard v i s = (s.feature_version ==ₛ v) && (s.shard_id == i)

-- `INSERT … ON CONFLICT (feature_version) DO UPDATE` of `open_sync`
abbrev pub upsert_sync : String → ℕ → ℕ → List SyncRow → List SyncRow
upsert_sync v total expected [] =
    record {
      feature_version = v;
      status = in_progress;
      total_shards = total;
      expected_rows = expected;
      completed_shards = 0;
      written_rows = 0;
    }
    ∷ []
upsert_sync v total expected (s ∷ ss) =
    let rest = upsert_sync v total expected ss in
    if s.feature_version ==ₛ v
    then record s { status = in_progress; total_shards = total; expected_rows = expected } ∷ ss
    else s ∷ rest

-- `INSERT … ON CONFLICT (feature_version, shard_id) DO NOTHING`
abbrev pub add_pending : String → List ℕ → List ShardRow → List ShardRow
add_pending v [] shards = shards
add_pending v (i ∷ is) shards =
    let rest = add_pending v is in
    if any_of (is_shard v i) shards
    then rest shards
    else rest (
        shards
        ++ record {
          feature_version = v;
          shard_id = i;
          status = pending;
          rows_written = 0;
          attempt = 0;
        }
          ∷ [])

-- `open_sync`
unfoldable pub open_sync : String → ℕ → ℕ → Ledger → Ledger
open_sync v total expected l = record {
  syncs = upsert_sync v total expected l.syncs;
  shards = add_pending v (range_from 0 total) l.shards;
}

-- `INSERT … ON CONFLICT (feature_version, shard_id) DO UPDATE` of `record_shard`
abbrev pub upsert_shard : String → ℕ → ShardStatus → ℕ → Bool → List ShardRow → List ShardRow
upsert_shard v i status rows preserve [] =
    record { feature_version = v; shard_id = i; status = status; rows_written = rows; attempt = 1 }
    ∷ []
upsert_shard v i status rows preserve (s ∷ ss) =
    let rest = upsert_shard v i status rows preserve ss in
    if is_shard v i s
    then record s {
      status = status;
      rows_written = if preserve then s.rows_written else rows;
      attempt = s.attempt + 1;
    }
      ∷ ss
    else s ∷ rest

abbrev pub shards_of : String → List ShardRow → List ShardRow
shards_of v = keep_if (λ s. s.feature_version ==ₛ v)

-- `UPDATE … SET completed_shards = s.done, written_rows = s.rows`
abbrev pub update_totals : String → List ShardRow → SyncRow → SyncRow
update_totals v shards s =
    if s.feature_version ==ₛ v
    then record s {
      completed_shards = count_if (λ x. is_done x.status) (shards_of v shards);
      written_rows = sum_of (λ x. x.rows_written) (shards_of v shards);
    }
    else s

abbrev pub has_sync : String → Ledger → Bool
has_sync v l = any_of (λ s. s.feature_version ==ₛ v) l.syncs

-- `record_shard`; the table has a foreign key to the version's row, so the insert is refused where there is none.
unfoldable pub record_shard : String → ℕ → ShardStatus → ℕ → Bool → Ledger → Outcome Ledger
record_shard v i status rows preserve l =
    let shards = upsert_shard v i status rows preserve l.shards in
    if has_sync v l
    then ok (record { syncs = map (update_totals v shards) l.syncs; shards = shards })
    else err integrity_error

-- `get_pending_shards`
unfoldable pub get_pending_shards : String → Ledger → List ℕ
unfolding sort_by
get_pending_shards v l =
    sort_by leb
      (map (λ s. s.shard_id) (keep_if (λ s. not (is_done s.status)) (shards_of v l.shards)))

-- `COALESCE(%s, written_rows)`
abbrev pub coalesce : Option ℕ → ℕ → ℕ
coalesce none n = n
coalesce (some m) n = m

-- `set_sync_status`
unfoldable pub set_sync_status : String → SyncStatus → Option ℕ → Ledger → Ledger
set_sync_status v status written l = record l {
  syncs =
      map
        (λ s.
          if s.feature_version ==ₛ v
          then record s { status = status; written_rows = coalesce written s.written_rows }
          else s)
        l.syncs;
}

-- `retire_versions`; the versions that it returns are not used.
unfoldable pub retire_versions : List String → Ledger → Ledger
retire_versions keep l = record l {
  syncs =
      map
        (λ s.
          if is_live s.status && not (any_of (λ v. v ==ₛ s.feature_version) keep)
          then record s { status = retired }
          else s)
        l.syncs;
}
