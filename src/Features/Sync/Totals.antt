-- ===== src/Features/Sync/Totals.antt =====
-- audit.py: the number of completed shards in the ledger.
use lzd.Common.{
  ℕ, ◌≡◌, refl, sym, ap, ◌∙◌, inl, inr, Bool, true, false, ◌&&◌, not, List, [], map, Option, String,
  ◌==ₛ◌, Bool-cases, any_of, range_from, arith, text_eq_iff,
}
use mathlib.Core.Path.{subst}
use lzd.Common.Membership.{All-map}
use lzd.Common.Outcome.{ok, err, integrity_error}
use lzd.Features.Sync.Ledger.{
  Ledger, SyncRow, SyncStatus, ShardRow, ShardStatus, is_live, has_sync, upsert_sync, add_pending,
  open_sync, upsert_shard, update_totals, record_shard, set_sync_status, retire_versions,
}
use lzd.Features.Sync.Rows.{
  done_of, named, Counts, IsCounted, done_of-add_pending, done_of-upsert_shard, named-upsert_sync,
  named-opened, none_done, upsert_sync-Counts, add_pending-owned, upsert_shard-owned, named-map,
  map-Counts,
}

-- The statements of the ledger, one after another, from the empty tables.
pub data Reaches : Ledger → Type 0 where
  start : Reaches (record { syncs = []; shards = [] })
  opens :
      {l : Ledger} (v : String) (total expected : ℕ)
      → Reaches l
      → Reaches (open_sync v total expected l)
  records :
      {l m : Ledger} (v : String) (i : ℕ) (status : ShardStatus) (rows : ℕ) (preserve : Bool)
      → Reaches l
      → record_shard v i status rows preserve l ≡ ok m
      → Reaches m
  sets :
      {l : Ledger} (v : String) (status : SyncStatus) (written : Option ℕ)
      → Reaches l
      → Reaches (set_sync_status v status written l)
  retires : {l : Ledger} (keep : List String) → Reaches l → Reaches (retire_versions keep l)

not_same : (s t : String) → (s ==ₛ t) ≡ false → (t ==ₛ s) ≡ false
not_same s t n = ground (arith, text_eq_iff s t, text_eq_iff t s)

totals-Counts :
    (v : String) (i : ℕ) (status : ShardStatus) (rows : ℕ) (preserve : Bool)
    (shards : List ShardRow) (s : SyncRow)
    → Counts shards s
    → Counts
        (upsert_shard v i status rows preserve shards)
        (update_totals v (upsert_shard v i status rows preserve shards) s)
totals-Counts v i status rows preserve shards s h = elim (Bool-cases (s.feature_version ==ₛ v)) [
  | inl e ↦
      let same = (text_eq_iff s.feature_version v).0 e in
      rw e (ap (λ w. done_of w (upsert_shard v i status rows preserve shards)) (sym same))
  | inr n ↦ rw n (
      h
      ∙ sym (
          done_of-upsert_shard s.feature_version v i status rows preserve shards
            (not_same s.feature_version v n)))
]

update_totals_version :
    (v : String) (shards : List ShardRow) (s : SyncRow)
    → (update_totals v shards s).feature_version ≡ s.feature_version
update_totals_version v shards s = elim (Bool-cases (s.feature_version ==ₛ v)) [
  | inl e ↦ rw e refl
  | inr n ↦ rw n refl
]

record_shard-IsCounted :
    (v : String) (i : ℕ) (status : ShardStatus) (rows : ℕ) (preserve : Bool) (l m : Ledger)
    → record_shard v i status rows preserve l ≡ ok m
    → IsCounted l
    → IsCounted m
unfolding record_shard
record_shard-IsCounted v i status rows preserve l m e c = elim (Bool-cases (has_sync v l)) [
  | inr n ↦ refused (rw n at e)
  | inl owned ↦ subst IsCounted (made (rw owned at e)) (counted owned)
]
  where
    shards : List ShardRow
    shards = upsert_shard v i status rows preserve l.shards

    after : Ledger
    after = record { syncs = map (update_totals v shards) l.syncs; shards = shards }

    refused : {A : Type 0} → err integrity_error ≡ ok m → A
    refused e = cc

    made : ok after ≡ ok m → after ≡ m
    made e = cc

    counted : has_sync v l ≡ true → IsCounted after
    counted owned = record {
      counted =
          map-Counts l.shards shards (update_totals v shards) l.syncs
            (totals-Counts v i status rows preserve l.shards) c.counted;
      owned =
          All-map (λ x. named x.feature_version l.syncs ≡ true)
            (λ x. named x.feature_version after.syncs ≡ true)
            (λ x h.
              named-map x.feature_version (update_totals v shards) l.syncs
                (update_totals_version v shards)
              ∙ h)
            shards (upsert_shard-owned l.syncs v i status rows preserve l.shards owned c.owned);
    }

-- A change of rows that keeps their versions and what they count.
kept-IsCounted :
    (f : SyncRow → SyncRow) (l : Ledger)
    → ((s : SyncRow)
        → ((f s).feature_version ≡ s.feature_version)
          × ((f s).completed_shards ≡ s.completed_shards))
    → IsCounted l
    → IsCounted (record l { syncs = map f l.syncs })
kept-IsCounted f l same c = record {
  counted =
      map-Counts l.shards l.shards f l.syncs
        (λ s h. (same s).1 ∙ h ∙ ap (λ w. done_of w l.shards) (sym (same s).0)) c.counted;
  owned =
      All-map (λ x. named x.feature_version l.syncs ≡ true)
        (λ x. named x.feature_version (map f l.syncs) ≡ true)
        (λ x h. named-map x.feature_version f l.syncs (λ s. (same s).0) ∙ h) l.shards c.owned;
}

-- In every ledger that the statements reach from the empty tables, a row of a version counts as completed just the shards of
-- the version that are done, and every shard belongs to a version that has a row.
pub Reaches-IsCounted : (l : Ledger) → Reaches l → IsCounted l
unfolding open_sync set_sync_status retire_versions
Reaches-IsCounted _ start = record { counted = tt; owned = tt }
Reaches-IsCounted _ (opens {l} v total expected h) =
    let c = Reaches-IsCounted l h in
    record {
      counted =
          upsert_sync-Counts v total expected (add_pending v (range_from 0 total) l.shards) l.syncs
            (All-map (Counts l.shards) (Counts (add_pending v (range_from 0 total) l.shards))
              (λ s k.
                k ∙ sym (done_of-add_pending s.feature_version v (range_from 0 total) l.shards))
              l.syncs c.counted)
            (λ k.
              done_of-add_pending v v (range_from 0 total) l.shards
              ∙ none_done v l.syncs l.shards c.owned k);
      owned =
          add_pending-owned (upsert_sync v total expected l.syncs) v (range_from 0 total) l.shards
            (named-opened v total expected l.syncs)
            (All-map (λ x. named x.feature_version l.syncs ≡ true)
              (λ x. named x.feature_version (upsert_sync v total expected l.syncs) ≡ true)
              (λ x k. named-upsert_sync x.feature_version v total expected l.syncs k) l.shards
              c.owned);
    }
Reaches-IsCounted m (records {l} v i status rows preserve h e) =
    record_shard-IsCounted v i status rows preserve l m e (Reaches-IsCounted l h)
Reaches-IsCounted _ (sets {l} v status written h) =
    kept-IsCounted _ l
      (λ s. elim (Bool-cases (s.feature_version ==ₛ v)) [
        | inl e ↦ rw e (refl, refl)
        | inr n ↦ rw n (refl, refl)
      ])
      (Reaches-IsCounted l h)
Reaches-IsCounted _ (retires {l} keep h) =
    kept-IsCounted _ l
      (λ s.
        elim (Bool-cases (is_live s.status && not (any_of (λ v. v ==ₛ s.feature_version) keep))) [
          | inl e ↦ rw e (refl, refl)
          | inr n ↦ rw n (refl, refl)
        ])
      (Reaches-IsCounted l h)
