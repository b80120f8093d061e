-- ===== src/Features/Sync/Steps.antt =====
-- sync.py: opening a session and writing its shards, on the keys of Redis and the ledger. An operation that raises keeps what it
-- wrote before.
use lzd.Common.{
  ℕ, ◌+◌, Bool, true, false, not, List, [], ◌∷◌, ◌++◌, ◌==◌, if◌then◌else◌, Option, none, some,
  String, ◌==ₛ◌,
}
use lzd.Common.Outcome.{Error, Outcome, ok, err, runtime_error}
use lzd.Common.Dict.{Dict, get}
use lzd.Features.Sync.{SyncRedis, Offline, BatchFeature, SyncSpec, Numerals, Naming}
use lzd.Features.Sync.Ledger.{
  Ledger, done, broken, ShardStatus, open_sync, record_shard, get_pending_shards,
}

module _ {F V : Type 0} (r : SyncRedis V) (off : Offline V) (spec : SyncSpec V) (num : Numerals F V)
    (naming : Naming) where
  pub record State : Type 0 where
    pub redis : r.Db
    pub ledger : Ledger

  -- What a call leaves and gives back.
  abbrev pub Run : Type 0 → Type 0
  Run A = State × Outcome A

  abbrev pub continue : {A B : Type 0} → Run A → (A → State → Run B) → Run B
  continue (s, err e) f = (s, err e)
  continue (s, ok a) f = f a s

  abbrev pub on_redis : (r.Db → r.Db) → State → State
  on_redis f s = record { redis = f s.redis; ledger = s.ledger }

  abbrev pub on_ledger : (Ledger → Ledger) → State → State
  on_ledger f s = record { redis = s.redis; ledger = f s.ledger }

  abbrev pub ledger_run : Outcome Ledger → State → Run (Unit {0})
  ledger_run (err e) s = (s, err e)
  ledger_run (ok l) s = (record { redis = s.redis; ledger = l }, ok tt)

  abbrev pub record_run : String → ℕ → ShardStatus → ℕ → Bool → State → Run (Unit {0})
  record_run v i status rows preserve s =
      ledger_run (record_shard v i status rows preserve s.ledger) s

  -- `set_version_status`
  abbrev pub set_version_status : String → Dict String → r.Db → r.Db
  set_version_status v fs d = r.zadd_nx v (r.hset v fs d)

  -- The day that is synchronised: the logical one, or the last one of the table where that has no rows.
  abbrev pub fallback_day : Option String → String → Outcome String
  fallback_day none dt = err runtime_error
  fallback_day (some last) dt = if off.count_rows last == 0 then err runtime_error else ok last

  abbrev pub prepared_day : String → Outcome String
  prepared_day dt =
      if not off.table_exists
      then err runtime_error
      else if off.misses_columns
      then err runtime_error
      else if not (off.count_rows dt == 0)
      then ok dt
      else if off.all_rows == 0
      then err runtime_error
      else fallback_day off.max_dt dt

  -- `prepare_sync` on the day that it found: the version of it.
  abbrev pub open_session : ℕ → String → String → State → Run String
  open_session shards version dt s =
      let expected = off.count_rows dt in
      let fields =
        ("status", "IN_PROGRESS")
        ∷ ("dt", dt)
        ∷ ("expected_rows", num.show expected)
        ∷ ("checksum", off.checksum dt)
        ∷ ("total_shards", num.show shards)
        ∷ spec.session_stamp in
      (
        on_redis (set_version_status version fields)
            (on_ledger (open_sync version shards expected) s),
        ok version,
      )

  abbrev pub with_day : Outcome String → (String → State → Run String) → State → Run String
  with_day (err e) f s = (s, err e)
  with_day (ok dt) f s = f dt s

  -- `prepare_sync`; a day that was fallen back to names the version.
  unfoldable pub prepare_sync : String → ℕ → State → Run String
  prepare_sync date shards s =
      let dt = naming.dt_of date in
      with_day (prepared_day dt)
        (λ day.
          open_session shards
            (if day ==ₛ dt then naming.make_version date else naming.make_version day) day)
        s

  -- The fields of a row that are not None, in the order of the specification.
  abbrev pub mapping_of : List (BatchFeature V) → Dict V → Dict V
  mapping_of [] row = []
  mapping_of (f ∷ fs) row =
      let rest = mapping_of fs row in
      elim (get f.name row) [ none ↦ rest | some v ↦ (f.name, v) ∷ rest ]

  abbrev pub write_mapping : String → String → Dict V → r.Db → r.Db × ℕ
  write_mapping version user [] d = (d, 0)
  write_mapping version user (f ∷ fs) d =
      (r.write_row version user ((f ∷ fs) ++ spec.row_stamp version) d, 1)

  abbrev pub write_user : String → Option V → Dict V → r.Db → r.Db × ℕ
  write_user version none row d = (d, 0)
  write_user version (some user) row d =
      write_mapping version (num.str user) (mapping_of spec.batch_features row) d

  -- `write_rows`; the size of a pipeline's batch does not change what is written.
  unfoldable pub write_rows : String → List (Dict V) → r.Db → r.Db × ℕ
  write_rows version [] d = (d, 0)
  write_rows version (row ∷ rows) d =
      let first = write_user version (get spec.entity_key row) row d in
      let rest = write_rows version rows first.0 in (rest.0, first.1 + rest.1)

  -- The rows of the chunks, and what stopped them.
  unfoldable pub write_chunks :
      String → List (Outcome (List (Dict V))) → ℕ → r.Db → (r.Db × ℕ × Outcome (Unit {0}))
  unfolding write_rows
  write_chunks version [] rows d = (d, rows, ok tt)
  write_chunks version (err e ∷ chunks) rows d = (d, rows, err e)
  write_chunks version (ok chunk ∷ chunks) rows d =
      let w = write_rows version chunk d in write_chunks version chunks (rows + w.1) w.0

  -- `mark_shard_done`
  abbrev pub mark_shard_done : String → ℕ → ℕ → r.Db → r.Db
  mark_shard_done v i rows d = r.incr_rows v rows (r.sadd v i d)

  -- The handler of `sync_shard`: the failure is recorded, and raised again.
  abbrev pub shard_failed : String → ℕ → ℕ → Error → State → Run ℕ
  shard_failed v i rows e s = continue (record_run v i broken rows false s) (λ _ t. (t, err e))

  abbrev pub handle : {A : Type 0} → Run A → (Error → State → Run A) → Run A
  handle (s, err e) f = f e s
  handle (s, ok a) f = (s, ok a)

  -- The body of the `try` after the chunks.
  abbrev pub shard_done : String → ℕ → r.Db × ℕ × Outcome (Unit {0}) → Ledger → Run ℕ
  shard_done v i (d, rows, err e) l = (record { redis = d; ledger = l }, err e)
  shard_done v i (d, rows, ok _) l =
      continue
        (record_run v i done rows false (record { redis = mark_shard_done v i rows d; ledger = l }))
        (λ _ t. (t, ok rows))

  abbrev pub skip_shard : String → ℕ → State → Run ℕ
  skip_shard v i s = continue (record_run v i done 0 true s) (λ _ t. (t, ok 0))

  abbrev pub write_shard : String → String → ℕ → ℕ → State → Run ℕ
  write_shard v dt i shards s =
      let w = write_chunks v (off.iter_shard i shards dt) 0 s.redis in
      handle (shard_done v i w s.ledger) (shard_failed v i w.1)

  -- `sync_shard`: the rows that it wrote.
  unfoldable pub sync_shard : String → ℕ → ℕ → State → Run ℕ
  unfolding write_chunks record_shard
  sync_shard date i shards s =
      if r.is_member (naming.make_version date) i s.redis
      then skip_shard (naming.make_version date) i s
      else write_shard (naming.make_version date) (naming.dt_of date) i shards s

  unfoldable pub sync_shards : String → List ℕ → ℕ → State → Run ℕ
  unfolding sync_shard
  sync_shards date [] shards s = (s, ok 0)
  sync_shards date (i ∷ is) shards s =
      continue (sync_shard date i shards s)
        (λ n t. continue (sync_shards date is shards t) (λ m u. (u, ok (n + m))))

  -- `sync_pending_shards`
  unfoldable pub sync_pending_shards : String → ℕ → State → Run ℕ
  unfolding sync_shards get_pending_shards
  sync_pending_shards date shards s =
      sync_shards date (get_pending_shards (naming.make_version date) s.ledger) shards s
