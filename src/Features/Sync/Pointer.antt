-- ===== src/Features/Sync/Pointer.antt =====
-- sync.py: which operations move the pointer to the active version.
use lzd.Common.{
  ℕ, ◌+◌, ◌≡◌, refl, ap, ◌∙◌, ◌⊎◌, inl, inr, Bool, true, false, List, [], ◌∷◌, ◌++◌, Option, none,
  some, String, Bool-cases,
}
use lzd.Common.Outcome.{Outcome, ok, err}
use lzd.Common.Dict.{Dict, get}
use lzd.Features.Versions.{activate_version, collect, delete_version, unlink_pages, gc_old_versions}
use lzd.Features.Sync.{SyncRedis, SyncLaws, versions_of, Offline, SyncSpec, Numerals, Naming}
use lzd.Features.Sync.Ledger.{Ledger, ShardStatus, broken, record_shard, get_pending_shards}
use lzd.Features.Sync.Steps.{
  State, with_day, open_session, Run, continue, record_run, ledger_run, handle, shard_done,
  shard_failed, prepare_sync, prepared_day, write_rows, write_chunks, write_user, write_mapping,
  mapping_of, sync_shard, sync_shards, sync_pending_shards,
}
use lzd.Features.Sync.Publish.{
  roll_to, passed, after_check, validate_sync, is_validated, is_complete, activate_sync,
  cleanup_old_versions, mark_failed, previous_version, rollback, fail_shards,
}

-- The operations that a DAG or an operator calls.
pub data SyncOp : Type 0 where
  prepare : String → ℕ → SyncOp
  shard : String → ℕ → ℕ → SyncOp
  pending : String → ℕ → SyncOp
  validate : String → ℕ → SyncOp
  activate : String → SyncOp
  cleanup : Option ℕ → SyncOp
  fail : String → SyncOp
  roll : Option String → SyncOp
  chaos : String → List ℕ → SyncOp

module _ {F V : Type 0} (r : SyncRedis V) (laws : SyncLaws r) (off : Offline V) (spec : SyncSpec V)
    (num : Numerals F V) (naming : Naming) where
  abbrev S : Type 0
  S = State r off spec num naming

  -- What an operation leaves, also where it raises.
  unfoldable pub run : SyncOp → S → S
  unfolding prepare_sync sync_shard sync_pending_shards validate_sync activate_sync
      cleanup_old_versions mark_failed rollback fail_shards
  run (prepare date shards) s = (prepare_sync r off spec num naming date shards s).0
  run (shard date i shards) s = (sync_shard r off spec num naming date i shards s).0
  run (pending date shards) s = (sync_pending_shards r off spec num naming date shards s).0
  run (validate date size) s = (validate_sync r off spec num naming date size s).0
  run (activate date) s = (activate_sync r off spec num naming date s).0
  run (cleanup keep) s = (cleanup_old_versions r off spec num naming keep s).0
  run (fail date) s = (mark_failed r off spec num naming date s).0
  run (roll target) s = (rollback r off spec num naming target s).0
  run (chaos date victims) s =
      (fail_shards r off spec num naming (naming.make_version date) victims s).0

  abbrev pub pointer : S → Option String
  pointer s = r.get_active s.redis

  ledger_run-redis :
      (o : Outcome Ledger) (s : S) → (ledger_run r off spec num naming o s).0.redis ≡ s.redis
  ledger_run-redis (err e) s = refl
  ledger_run-redis (ok l) s = refl

  continue-pointer :
      {A B : Type 0} (o : Run r off spec num naming A) (f : A → S → Run r off spec num naming B)
      (p : Option String)
      → pointer o.0 ≡ p
      → ((a : A) (t : S) → pointer t ≡ p → pointer (f a t).0 ≡ p)
      → pointer (continue r off spec num naming o f).0 ≡ p
  continue-pointer (s, err e) f p h k = h
  continue-pointer (s, ok a) f p h k = k a s h

  record_run-pointer :
      (v : String) (i : ℕ) (status : ShardStatus) (rows : ℕ) (preserve : Bool) (s : S)
      → pointer (record_run r off spec num naming v i status rows preserve s).0 ≡ pointer s
  record_run-pointer v i status rows preserve s =
      ap r.get_active (ledger_run-redis (record_shard v i status rows preserve s.ledger) s)

  write_mapping-pointer :
      (v user : String) (m : Dict V) (d : r.Db)
      → r.get_active (write_mapping r off spec num naming v user m d).0 ≡ r.get_active d
  write_mapping-pointer v user [] d = refl
  write_mapping-pointer v user (f ∷ fs) d =
      laws.active-write v user ((f ∷ fs) ++ spec.row_stamp v) d

  write_user-pointer :
      (v : String) (o : Option V) (row : Dict V) (d : r.Db)
      → r.get_active (write_user r off spec num naming v o row d).0 ≡ r.get_active d
  write_user-pointer v none row d = refl
  write_user-pointer v (some user) row d =
      write_mapping-pointer v (num.str user)
        (mapping_of r off spec num naming spec.batch_features row) d

  write_rows-pointer :
      (v : String) (rows : List (Dict V)) (d : r.Db)
      → r.get_active (write_rows r off spec num naming v rows d).0 ≡ r.get_active d
  unfolding write_rows
  write_rows-pointer v [] d = refl
  write_rows-pointer v (row ∷ rows) d =
      write_rows-pointer v rows
        (write_user r off spec num naming v (get spec.entity_key row) row d).0
      ∙ write_user-pointer v (get spec.entity_key row) row d

  write_chunks-pointer :
      (v : String) (chunks : List (Outcome (List (Dict V)))) (rows : ℕ) (d : r.Db)
      → r.get_active (write_chunks r off spec num naming v chunks rows d).0 ≡ r.get_active d
  unfolding write_chunks
  write_chunks-pointer v [] rows d = refl
  write_chunks-pointer v (err e ∷ chunks) rows d = refl
  write_chunks-pointer v (ok chunk ∷ chunks) rows d =
      write_chunks-pointer v chunks (rows + (write_rows r off spec num naming v chunk d).1)
        (write_rows r off spec num naming v chunk d).0
      ∙ write_rows-pointer v chunk d

  shard_done-pointer :
      (v : String) (i : ℕ) (w : r.Db × ℕ × Outcome (Unit {0})) (l : Ledger)
      → pointer (shard_done r off spec num naming v i w l).0 ≡ r.get_active w.0
  shard_done-pointer v i (d, rows, err e) l = refl
  shard_done-pointer v i (d, rows, ok u) l =
      continue-pointer _ _ (r.get_active d)
        (record_run-pointer v i _ rows false _
          ∙ laws.active-incr v rows (r.sadd v i d)
          ∙ laws.active-sadd v i d)
        (λ _ t h. h)

  handle-pointer :
      (v : String) (i rows : ℕ) (o : Run r off spec num naming ℕ)
      → pointer (handle r off spec num naming o (shard_failed r off spec num naming v i rows)).0
        ≡ pointer o.0
  handle-pointer v i rows (s, ok a) = refl
  handle-pointer v i rows (s, err e) =
      continue-pointer _ _ (pointer s) (record_run-pointer v i _ rows false s) (λ _ t h. h)

  sync_shard-pointer :
      (date : String) (i shards : ℕ) (s : S)
      → pointer (sync_shard r off spec num naming date i shards s).0 ≡ pointer s
  unfolding sync_shard
  sync_shard-pointer date i shards s =
      let v = naming.make_version date in
      let w =
        write_chunks r off spec num naming v (off.iter_shard i shards (naming.dt_of date)) 0
          s.redis in
      elim (Bool-cases (r.is_member v i s.redis)) [
        | inl old ↦
            rw old
              (continue-pointer _ _ (pointer s) (record_run-pointer v i _ 0 true s) (λ _ t h. h))
        | inr new ↦ rw new (
            handle-pointer v i w.1 (shard_done r off spec num naming v i w s.ledger)
            ∙ shard_done-pointer v i w s.ledger
            ∙ write_chunks-pointer v (off.iter_shard i shards (naming.dt_of date)) 0 s.redis)
      ]

  abbrev total : ℕ → ℕ → S → Run r off spec num naming ℕ
  total n m u = (u, ok (n + m))

  sync_shards-pointer :
      (date : String) (is : List ℕ) (shards : ℕ) (s : S)
      → pointer (sync_shards r off spec num naming date is shards s).0 ≡ pointer s
  unfolding sync_shards
  sync_shards-pointer date [] shards s = refl
  sync_shards-pointer date (i ∷ is) shards s =
      continue-pointer (sync_shard r off spec num naming date i shards s)
        (λ n t.
          continue r off spec num naming (sync_shards r off spec num naming date is shards t)
            (total n))
        (pointer s) (sync_shard-pointer date i shards s)
        (λ n t h.
          continue-pointer (sync_shards r off spec num naming date is shards t) (total n)
            (pointer s) (sync_shards-pointer date is shards t ∙ h) (λ m u k. k))

  fail_shards-pointer :
      (v : String) (is : List ℕ) (s : S)
      → pointer (fail_shards r off spec num naming v is s).0 ≡ pointer s
  unfolding fail_shards
  fail_shards-pointer v [] s = refl
  fail_shards-pointer v (i ∷ is) s =
      let removed : S = record { redis = r.srem v i s.redis; ledger = s.ledger } in
      continue-pointer (record_run r off spec num naming v i broken 0 false removed)
        (λ _ t. fail_shards r off spec num naming v is t) (pointer s)
        (record_run-pointer v i broken 0 false removed ∙ laws.active-srem v i s.redis)
        (λ _ t h. fail_shards-pointer v is t ∙ h)

  pages-pointer :
      (pages : List (List String)) (d : r.Db)
      → r.get_active (unlink_pages (versions_of r) pages d) ≡ r.get_active d
  pages-pointer [] d = refl
  pages-pointer ([] ∷ pages) d = pages-pointer pages d
  pages-pointer ((x ∷ keys) ∷ pages) d =
      pages-pointer pages (r.unlink (x ∷ keys) d) ∙ laws.active-unlink (x ∷ keys) d

  collect-pointer :
      (kept : String → Bool) (vs : List String) (d : r.Db)
      → r.get_active (collect (versions_of r) kept vs d).1 ≡ r.get_active d
  unfolding collect
  collect-pointer kept [] d = refl
  collect-pointer kept (v ∷ vs) d = elim (Bool-cases (kept v)) [
    | inl k ↦ rw k (collect-pointer kept vs d)
    | inr n ↦ rw n (
        collect-pointer kept vs (delete_version (versions_of r) v d)
        ∙ laws.active-zrem v _
        ∙ laws.active-unlink_meta v _
        ∙ pages-pointer (r.scan (r.batch_pattern v) d) d)
  ]

  status-pointer :
      (v : String) (fs : Dict String) (d : r.Db)
      → r.get_active (r.zadd_nx v (r.hset v fs d)) ≡ r.get_active d
  status-pointer v fs d = laws.active-zadd_nx v (r.hset v fs d) ∙ laws.active-hset v fs d

  -- The pointer points to a version whose status says that it was validated, and that has all its shards.
  pub record IsActivated (v : String) (s t : S) : Type 0 where
    pub moved : pointer t ≡ some v
    pub validated : is_validated r off spec num naming v s.redis ≡ true
    pub complete : is_complete r off spec num naming v s.redis ≡ true

  -- How an operation may move the pointer: an activation, to the version of its date; a rollback, to the version that it was
  -- given or the newest one that was not active.
  abbrev pub MayMove : SyncOp → S → S → Type 0
  MayMove (activate date) s t = IsActivated (naming.make_version date) s t
  MayMove (roll none) s t =
      (v : String) × (previous_version r off spec num naming (r.zrevrange s.redis) (pointer s)
        ≡ ok v)
      × (pointer t ≡ some v)
  MayMove (roll (some v)) s t = pointer t ≡ some v
  MayMove op s t = ⊥

  open_session-pointer :
      (o : Outcome String) (f : String → String) (shards : ℕ) (s : S)
      → pointer
          (with_day r off spec num naming o
            (λ day. open_session r off spec num naming shards (f day) day)
            s).0
        ≡ pointer s
  open_session-pointer (err e) f shards s = refl
  open_session-pointer (ok day) f shards s = status-pointer (f day) _ s.redis

  roll_to-pointer :
      (o : Outcome String) (s : S)
      → (pointer (roll_to r off spec num naming o s).0 ≡ pointer s)
        ⊎ ((v : String) × (o ≡ ok v) × (pointer (roll_to r off spec num naming o s).0 ≡ some v))
  roll_to-pointer (err e) s = inl refl
  roll_to-pointer (ok v) s = inr (v, refl, laws.active-set v s.redis)

  activate-pointer :
      (date : String) (s : S)
      → (pointer (activate_sync r off spec num naming date s).0 ≡ pointer s)
        ⊎ IsActivated (naming.make_version date) s (activate_sync r off spec num naming date s).0
  unfolding activate_sync activate_version
  activate-pointer date s =
      let v = naming.make_version date in
      let set = r.set_active v s.redis in
      elim (Bool-cases (is_validated r off spec num naming v s.redis)) [
        | inr refused ↦ inl (rw refused refl)
        | inl fine ↦ elim (Bool-cases (is_complete r off spec num naming v s.redis)) [
          | inr refused ↦ inl (rw (fine, refused) refl)
          | inl all ↦ inr (record {
            moved =
                rw (fine, all)
                  (laws.active-zadd v (r.hset v (("status", "ACTIVE") ∷ []) set)
                    ∙ laws.active-hset v (("status", "ACTIVE") ∷ []) set
                    ∙ laws.active-set v s.redis);
            validated = fine;
            complete = all;
          })
        ]
      ]

  after_check-pointer :
      (v : String) (o : Outcome Bool) (s : S)
      → pointer (after_check r off spec num naming v o s).0 ≡ pointer s
  after_check-pointer v (err e) s = refl
  after_check-pointer v (ok p) s = status-pointer v _ s.redis

  -- Whatever operation is run, and whether it raises or not, the pointer to the active version stays, or it is an activation
  -- of a version that was validated and has all its shards, or a rollback.
  pub run-MayMove :
      (op : SyncOp) (s : S) → (pointer (run op s) ≡ pointer s) ⊎ MayMove op s (run op s)
  unfolding run prepare_sync sync_pending_shards validate_sync cleanup_old_versions gc_old_versions
      mark_failed rollback
  run-MayMove (prepare date shards) s =
      inl (open_session-pointer (prepared_day r off spec num naming (naming.dt_of date)) _ shards s)
  run-MayMove (shard date i shards) s = inl (sync_shard-pointer date i shards s)
  run-MayMove (pending date shards) s =
      inl
        (sync_shards-pointer date (get_pending_shards (naming.make_version date) s.ledger) shards s)
  run-MayMove (validate date size) s = inl (
      after_check-pointer (naming.make_version date) (passed r off spec num naming _ _ size _) _
      ∙ status-pointer (naming.make_version date) _ s.redis)
  run-MayMove (activate date) s = activate-pointer date s
  run-MayMove (cleanup keep) s = inl (collect-pointer _ (r.zrevrange s.redis) s.redis)
  run-MayMove (fail date) s = inl (status-pointer (naming.make_version date) _ s.redis)
  run-MayMove (roll none) s =
      roll_to-pointer (previous_version r off spec num naming (r.zrevrange s.redis) (pointer s)) s
  run-MayMove (roll (some v)) s = inr (laws.active-set v s.redis)
  run-MayMove (chaos date victims) s =
      inl (fail_shards-pointer (naming.make_version date) victims s)
