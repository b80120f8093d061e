-- ===== src/Features/Sync/Progress.antt =====
-- sync.py: the shards of a version, written one after another.
use lzd.Common.{
  ℕ, ◌+◌, ◌≤◌, ◌≡◌, refl, ap, ◌∙◌, inl, inr, Bool, true, false, List, [], ◌∷◌, ◌++◌, map, Option,
  none, some, String, ◌==ₛ◌, Bool-cases, any_of, All,
}
use lzd.Common.Outcome.{Outcome, ok, err}
use lzd.Common.Dict.{Dict, get}
use lzd.Features.Sync.{SyncRedis, SyncLaws, Offline, SyncSpec, Numerals, Naming}
use lzd.Features.Sync.Ledger.{
  Ledger, SyncRow, ShardRow, ShardStatus, record_shard, has_sync, update_totals, upsert_shard,
}
use lzd.Features.Sync.Steps.{State, write_rows, write_chunks, write_user, write_mapping, mapping_of}

module _ {F V : Type 0} (r : SyncRedis V) (laws : SyncLaws r) (off : Offline V) (spec : SyncSpec V)
    (num : Numerals F V) (naming : Naming) (v : String) where
  -- The shards and the fields of the version are the same, but for the count of its rows.
  pub record SameShards (d e : r.Db) : Type 0 where
    pub number : r.scard v e ≡ r.scard v d
    pub members : (j : ℕ) → r.is_member v j e ≡ r.is_member v j d
    pub fields :
        (f : String) → (f ==ₛ "rows_written") ≡ false → get f (r.status v e) ≡ get f (r.status v d)

  same_self : (d : r.Db) → SameShards d d
  same_self d = record { number = refl; members = λ j. refl; fields = λ f h. refl }

  same_trans : {d e g : r.Db} → SameShards d e → SameShards e g → SameShards d g
  same_trans a b = record {
    number = b.number ∙ a.number;
    members = λ j. b.members j ∙ a.members j;
    fields = λ f h. b.fields f h ∙ a.fields f h;
  }

  write_mapping_same :
      (user : String) (m : Dict V) (d : r.Db)
      → SameShards d (write_mapping r off spec num naming v user m d).0
  write_mapping_same user [] d = same_self d
  write_mapping_same user (f ∷ fs) d =
      let row = (f ∷ fs) ++ spec.row_stamp v in
      record {
        number = laws.scard-write v user row d;
        members = λ j. laws.member-write v user row j d;
        fields = λ g h. ap (get g) (laws.status-write v user row d);
      }

  write_user_same :
      (o : Option V) (row : Dict V) (d : r.Db)
      → SameShards d (write_user r off spec num naming v o row d).0
  write_user_same none row d = same_self d
  write_user_same (some user) row d =
      write_mapping_same (num.str user) (mapping_of r off spec num naming spec.batch_features row) d

  write_rows_same :
      (rows : List (Dict V)) (d : r.Db) → SameShards d (write_rows r off spec num naming v rows d).0
  unfolding write_rows
  write_rows_same [] d = same_self d
  write_rows_same (row ∷ rows) d =
      same_trans (write_user_same (get spec.entity_key row) row d) (
        write_rows_same rows (write_user r off spec num naming v (get spec.entity_key row) row d).0)

  -- Every chunk is fetched.
  abbrev pub Fetched : List (Outcome (List (Dict V))) → Type 0
  Fetched = All (λ o. (chunk : List (Dict V)) × (o ≡ ok chunk))

  pub write_chunks_same :
      (chunks : List (Outcome (List (Dict V)))) (rows : ℕ) (d : r.Db)
      → Fetched chunks
      → (e : r.Db) × (n : ℕ) × (write_chunks r off spec num naming v chunks rows d ≡ (e, n, ok tt))
        × SameShards d e
  unfolding write_chunks
  write_chunks_same [] rows d h = (d, rows, refl, same_self d)
  write_chunks_same (err x ∷ chunks) rows d ((chunk, e), h) = cc
  write_chunks_same (ok chunk ∷ chunks) rows d (_, h) =
      let w = write_rows r off spec num naming v chunk d in
      let (e, n, f, s) = write_chunks_same chunks (rows + w.1) w.0 h in
      (e, n, f, same_trans (write_rows_same chunk d) s)

  -- The row of the version stays in the ledger.
  has_sync_totals :
      (shards : List ShardRow) (syncs : List SyncRow)
      → any_of (λ s. s.feature_version ==ₛ v) (map (update_totals v shards) syncs)
        ≡ any_of (λ s. s.feature_version ==ₛ v) syncs
  has_sync_totals shards [] = refl
  has_sync_totals shards (s ∷ ss) = elim (Bool-cases (s.feature_version ==ₛ v)) [
    | inl e ↦ rw e (rw e refl)
    | inr n ↦ rw n (rw n (has_sync_totals shards ss))
  ]

  pub record_shard_kept :
      (i : ℕ) (status : ShardStatus) (rows : ℕ) (preserve : Bool) (l : Ledger)
      → has_sync v l ≡ true
      → (m : Ledger) × (record_shard v i status rows preserve l ≡ ok m) × (has_sync v m ≡ true)
  unfolding record_shard
  record_shard_kept i status rows preserve l h =
      let shards = upsert_shard v i status rows preserve l.shards in
      (
        record { syncs = map (update_totals v shards) l.syncs; shards = shards },
        rw h refl,
        has_sync_totals shards l.syncs ∙ h,
      )

  -- The first shards are done, and no other.
  pub record HasDone (k : ℕ) (total : String) (s : State r off spec num naming) : Type 0 where
    pub number : r.scard v s.redis ≡ k
    pub fresh : (j : ℕ) → k ≤ j → r.is_member v j s.redis ≡ false
    pub total_shards : get "total_shards" (r.status v s.redis) ≡ some total
    pub opened : has_sync v s.ledger ≡ true
