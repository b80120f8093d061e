-- ===== src/Features/Sync/Complete.antt =====
-- sync.py: a run of the whole synchronisation.
use lzd.Common.{
  ℕ, zero, suc, ◌+◌, ◌≤◌, ◌<◌, ◌≡◌, refl, sym, ap, ◌∙◌, inl, inr, true, false, ◌&&◌, List, [], ◌∷◌,
  ◌==◌, ltb, Option, none, some, String, ◌==ₛ◌, Bool-cases, any_of, range_from, arith, text_eq_iff,
}
use mathlib.Core.Path.{subst}
use lzd.Common.Outcome.{ok}
use lzd.Common.Dict.{Dict, get}
use lzd.Features.Versions.{activate_version}
use lzd.Features.Sync.{SyncRedis, SyncLaws, Offline, SyncSpec, Numerals, Naming, or_else}
use lzd.Features.Sync.Ledger.{
  SyncRow, done, validating, validated, active, open_sync, upsert_sync, set_sync_status,
}
use lzd.Features.Sync.Steps.{
  State, Run, continue, prepared_day, open_session, prepare_sync, sync_shard, sync_shards,
  set_version_status,
}
use lzd.Features.Sync.Publish.{
  passed, validate_sync, shard_total, is_validated, is_complete, activate_sync,
}
use lzd.Features.Sync.Progress.{Fetched, write_chunks_same, record_shard_kept, HasDone}

module _ {F V : Type 0} (r : SyncRedis V) (laws : SyncLaws r) (off : Offline V) (spec : SyncSpec V)
    (num : Numerals F V) (naming : Naming) (date : String) where
  abbrev S : Type 0
  S = State r off spec num naming

  abbrev v : String
  v = naming.make_version date

  abbrev dt : String
  dt = naming.dt_of date

  abbrev Done : ℕ → String → S → Type 0
  Done = HasDone r laws off spec num naming v

  shard_step :
      (i n : ℕ) (total : String) (s : S)
      → Done i total s
      → Fetched r laws off spec num naming v (off.iter_shard i n dt)
      → (t : S) × (rows : ℕ) × (sync_shard r off spec num naming date i n s ≡ (t, ok rows))
        × Done (suc i) total t
  unfolding sync_shard
  shard_step i n total s h fetched =
      let (e, rows, f, same) =
        write_chunks_same r laws off spec num naming v (off.iter_shard i n dt) 0 s.redis fetched in
      let (m, g, opened) =
        record_shard_kept r laws off spec num naming v i done rows false s.ledger h.opened in
      let unseen = same.members i ∙ h.fresh i (omega arith) in
      (
        record { redis = r.incr_rows v rows (r.sadd v i e); ledger = m },
        rows,
        rw (h.fresh i (omega arith), f, g) refl,
        record {
          number =
              laws.scard-incr v rows (r.sadd v i e)
              ∙ laws.scard-sadd v i e unseen
              ∙ ap suc (same.number ∙ h.number);
          fresh = λ j l.
              laws.member-incr v rows j (r.sadd v i e)
              ∙ laws.member-sadd v i j e
              ∙ rw (other i j l, same.members j ∙ h.fresh j (omega (arith, l))) refl;
          total_shards =
              laws.field-incr v "total_shards" rows (r.sadd v i e) refl
              ∙ ap (get "total_shards") (laws.status-sadd v i e)
              ∙ same.fields "total_shards" refl
              ∙ h.total_shards;
          opened = opened;
        },
      )
    where
      other : (i j : ℕ) → suc i ≤ j → (j == i) ≡ false
      other i j l = ground arith

  shards_all :
      (i m n : ℕ) (total : String) (s : S)
      → Done i total s
      → ((j : ℕ) → j < i + m → Fetched r laws off spec num naming v (off.iter_shard j n dt))
      → (t : S) × (rows : ℕ) × (sync_shards r off spec num naming date (range_from i m) n s
          ≡ (t, ok rows))
        × Done (i + m) total t
  unfolding sync_shards
  shards_all i zero n total s h fetched = (s, 0, refl, subst (λ k. Done k total s) (omega arith) h)
  shards_all i (suc m) n total s h fetched =
      let (t, rows, e, k) = shard_step i n total s h (fetched i (omega arith)) in
      let (u, more, f, l) =
        shards_all (i + 1) m n total t (subst (λ k. Done k total t) (omega arith) k)
          (λ j b. fetched j (omega (arith, b))) in
      (u, rows + more, rw (e, f) refl, subst (λ k. Done k total u) (omega arith) l)

  field_set :
      (f : String) (fs : Dict String) (d : r.Db)
      → get f (r.status v (set_version_status r off spec num naming v fs d))
        ≡ or_else (get f fs) (get f (r.status v d))
  field_set f fs d = ap (get f) (laws.status-zadd_nx v (r.hset v fs d)) ∙ laws.field-hset v f fs d

  scard_set :
      (fs : Dict String) (d : r.Db)
      → r.scard v (set_version_status r off spec num naming v fs d) ≡ r.scard v d
  scard_set fs d = laws.scard-zadd_nx v (r.hset v fs d) ∙ laws.scard-hset v fs d

  opened_sync :
      (n rows : ℕ) (syncs : List SyncRow)
      → any_of (λ s. s.feature_version ==ₛ v) (upsert_sync v n rows syncs) ≡ true
  opened_sync n rows [] = rw ((text_eq_iff v v).1 refl) refl
  opened_sync n rows (s ∷ ss) = elim (Bool-cases (s.feature_version ==ₛ v)) [
    | inl e ↦ rw e (rw e refl)
    | inr o ↦ rw o (rw o (opened_sync n rows ss))
  ]

  -- A session that was opened where no shard of the version is done.
  opened :
      (n : ℕ) (s : S)
      → r.scard v s.redis ≡ 0
      → ((j : ℕ) → r.is_member v j s.redis ≡ false)
      → Done 0 (num.show n) (open_session r off spec num naming n v dt s).0
  unfolding open_sync
  opened n s z fresh = record {
    number = scard_set _ s.redis ∙ z;
    fresh = λ j l. laws.member-zadd_nx v j _ ∙ laws.member-hset v _ j s.redis ∙ fresh j;
    total_shards = field_set "total_shards" _ s.redis;
    opened = opened_sync n (off.count_rows dt) s.ledger.syncs;
  }

  prepared :
      (n : ℕ) (s : S)
      → prepared_day r off spec num naming dt ≡ ok dt
      → prepare_sync r off spec num naming date n s ≡ open_session r off spec num naming n v dt s
  unfolding prepare_sync
  prepared n s e = rw (e, (text_eq_iff dt dt).1 refl) refl

  -- What follows the shards: the validation, and the activation of what it left.
  abbrev pub publish : ℕ → Run r off spec num naming ℕ → Run r off spec num naming (Option String)
  publish size o = continue r off spec num naming o (λ _ w.
      continue r off spec num naming (validate_sync r off spec num naming date size w)
        (λ _ x. activate_sync r off spec num naming date x))

  abbrev pub write_all :
      ℕ → ℕ → Run r off spec num naming String → Run r off spec num naming (Option String)
  write_all n size o =
      continue r off spec num naming o
        (λ _ t. publish size (sync_shards r off spec num naming date (range_from 0 n) n t))

  -- The order of the DAG: prepare_sync, sync_shard for every shard, validate_sync and activate_version.
  abbrev pub full_run : ℕ → ℕ → S → Run r off spec num naming (Option String)
  full_run n size s = write_all n size (prepare_sync r off spec num naming date n s)

  -- The store that the validation reads.
  abbrev pub validated_store : S → r.Db
  validated_store t =
      set_version_status r off spec num naming v (("status", "VALIDATING") ∷ []) t.redis

  abbrev accepted : Dict String
  accepted = ("status", "VALIDATED") ∷ ("validation_passed", "true") ∷ []

  abbrev accepted_store : S → r.Db
  accepted_store t = set_version_status r off spec num naming v accepted (validated_store t)

  accepted_validated : (t : S) → is_validated r off spec num naming v (accepted_store t) ≡ true
  accepted_validated t =
      rw
        (
          field_set "status" accepted (validated_store t),
          field_set "validation_passed" accepted (validated_store t),
        )
        refl

  accepted_complete :
      (n : ℕ) (t : S)
      → 1 ≤ n
      → shard_total r off spec num naming (some (num.show n)) ≡ n
      → Done n (num.show n) t
      → is_complete r off spec num naming v (accepted_store t) ≡ true
  accepted_complete n t pos text h =
      let total : get "total_shards" (r.status v (accepted_store t)) ≡ some (num.show n) =
        field_set "total_shards" accepted (validated_store t)
        ∙ field_set "total_shards" (("status", "VALIDATING") ∷ []) t.redis
        ∙ h.total_shards in
      let number =
        scard_set accepted (validated_store t)
        ∙ scard_set (("status", "VALIDATING") ∷ []) t.redis
        ∙ h.number in
      full n _ _ (ap (shard_total r off spec num naming) total ∙ text) number pos
    where
      full : (n a b : ℕ) → a ≡ n → b ≡ n → 1 ≤ n → (ltb 0 a && (b == a)) ≡ true
      full n a b e f l = ground arith

  same_pointer : (t : S) → r.get_active (accepted_store t) ≡ r.get_active t.redis
  same_pointer t =
      laws.active-zadd_nx v (r.hset v accepted (validated_store t))
      ∙ laws.active-hset v accepted (validated_store t)
      ∙ laws.active-zadd_nx v (r.hset v (("status", "VALIDATING") ∷ []) t.redis)
      ∙ laws.active-hset v (("status", "VALIDATING") ∷ []) t.redis

  abbrev give_rows : S → ℕ → Run r off spec num naming ℕ
  give_rows u rows = (u, ok rows)

  abbrev give : S → Option String → Run r off spec num naming (Option String)
  give u previous = (u, ok previous)

  finish :
      (n size : ℕ) (t : S)
      → 1 ≤ n
      → shard_total r off spec num naming (some (num.show n)) ≡ n
      → Done n (num.show n) t
      → passed r off spec num naming v dt size (validated_store t) ≡ ok true
      → (u : S) × (continue r off spec num naming
            (validate_sync r off spec num naming date size t)
            (λ _ w. activate_sync r off spec num naming date w)
          ≡ give u (r.get_active t.redis))
        × (r.get_active u.redis ≡ some v)
  unfolding validate_sync activate_sync activate_version
  finish n size t pos text h p =
      let set = r.set_active v (accepted_store t) in
      let u : S = record {
        redis = r.zadd v (r.hset v (("status", "ACTIVE") ∷ []) set);
        ledger = set_sync_status v active none (
            set_sync_status v validated (some (r.count_keys v (validated_store t)))
              (set_sync_status v validating none t.ledger));
      } in
      (
        u,
        rw (p, accepted_validated t, accepted_complete n t pos text h)
            (ap (give u) (same_pointer t)),
        laws.active-zadd v (r.hset v (("status", "ACTIVE") ∷ []) set)
            ∙ laws.active-hset v (("status", "ACTIVE") ∷ []) set
            ∙ laws.active-set v (accepted_store t),
      )

  -- The store after the shards, on a session that was opened.
  abbrev pub after_shards : ℕ → S → S
  after_shards n s =
      (sync_shards r off spec num naming date (range_from 0 n) n
        (open_session r off spec num naming n v dt s).0).0

  -- Where the offline store has rows for the day and all its chunks are fetched, no shard of the version is done yet, the
  -- number of shards is at least one and is read back from the status, and the validation passes on what the shards left, the
  -- run returns, and the version of the day is active.
  pub full_run-activates :
      (n size : ℕ) (s : S)
      → 1 ≤ n
      → shard_total r off spec num naming (some (num.show n)) ≡ n
      → prepared_day r off spec num naming dt ≡ ok dt
      → ((j : ℕ) → j < n → Fetched r laws off spec num naming v (off.iter_shard j n dt))
      → r.scard v s.redis ≡ 0
      → ((j : ℕ) → r.is_member v j s.redis ≡ false)
      → passed r off spec num naming v dt size (validated_store (after_shards n s)) ≡ ok true
      → (u : S) × (full_run n size s ≡ (u, ok (r.get_active (after_shards n s).redis)))
        × (r.get_active u.redis ≡ some v)
  full_run-activates n size s pos text day fetched z fresh p =
      let begun = (open_session r off spec num naming n v dt s).0 in
      let (t, rows, e, h) =
        shards_all 0 n n (num.show n) begun (opened n s z fresh)
          (λ j l. fetched j (omega (arith, l))) in
      let same : after_shards n s ≡ t = ap (λ (o : Run r off spec num naming ℕ). o.0) e in
      let (u, f, g) =
        finish n size (after_shards n s) pos text
          (subst (Done n (num.show n)) (sym same)
            (subst (λ k. Done k (num.show n) t) (omega arith) h))
          p in
      (
        u,
        ap (write_all n size) (prepared n s day)
            ∙ ap (publish size) (e ∙ ap (λ x. give_rows x rows) (sym same))
            ∙ f,
        g,
      )
