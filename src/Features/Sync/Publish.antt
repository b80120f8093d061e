-- ===== src/Features/Sync/Publish.antt =====
-- sync.py: validation, activation, cleanup, failure and rollback, on the keys of Redis and the ledger.
use lzd.Common.{
  ℕ, ◌+◌, ◌-◌, Bool, true, false, ◌&&◌, not, List, [], ◌∷◌, ◌++◌, ◌==◌, ltb, if◌then◌else◌, Option,
  none, some, String, ◌==ₛ◌, keep_if,
}
use Prim.Native.Nat.{max}
use lzd.Common.Outcome.{Outcome, ok, err, runtime_error, ◌>>=◌}
use lzd.Common.Dict.{Dict, get}
use lzd.Features.Versions.{
  activate_version, rollback_to, gc_old_versions, in_keep_set, keep_or, is_active,
}
use lzd.Features.Sync.{SyncRedis, versions_of, Offline, BatchFeature, SyncSpec, Numerals, Naming}
use lzd.Features.Sync.Ledger.{
  validating, validated, active, failed, broken, record_shard, set_sync_status, retire_versions,
}
use lzd.Features.Sync.Steps.{
  State, Run, continue, on_redis, on_ledger, record_run, set_version_status,
}

module _ {F V : Type 0} (r : SyncRedis V) (off : Offline V) (spec : SyncSpec V) (num : Numerals F V)
    (naming : Naming) where
  -- `_close`
  abbrev pub close : F → F → Bool
  close a b =
      if num.is_nan a && num.is_nan b
      then true
      else num.at_most (num.abs (num.sub a b))
          (num.max num.tolerance (num.mul num.tolerance (num.abs a)))

  -- Whether a feature has another value online than offline.
  abbrev pub differs : BatchFeature V → V → Option V → Outcome Bool
  differs f expected got =
      if f.is_number
      then (num.to_float expected >>= λ a. num.to_float (f.cast got) >>= λ b. ok (not (close a b)))
      else ok (not (num.str expected ==ₛ num.str (f.cast got)))

  -- What the comparison counts.
  pub record Tally : Type 0 where
    pub compared : ℕ
    pub mismatched : ℕ
    pub missing : ℕ

  abbrev pub count_compared : Tally → Bool → Tally
  count_compared t different = record t {
    compared = t.compared + 1;
    mismatched = t.mismatched + (if different then 1 else 0);
  }

  abbrev pub compare_features : List (BatchFeature V) → Dict V → Dict V → Tally → Outcome Tally
  compare_features [] expected got t = ok t
  compare_features (f ∷ fs) expected got t = elim (get f.name expected) [
    | none ↦ compare_features fs expected got t
    | some v ↦ differs f v (get f.name got) >>= λ different.
        compare_features fs expected got (count_compared t different)
  ]

  abbrev pub compare_rows : Option (Dict V) → Dict V → Tally → Outcome Tally
  compare_rows none got t = ok (record t { missing = t.missing + 1 })
  compare_rows (some expected) [] t = ok (record t { missing = t.missing + 1 })
  compare_rows (some expected) (g ∷ got) t =
      compare_features spec.batch_features expected (g ∷ got) t

  abbrev pub compare_sample : String → List String → Dict (Dict V) → r.Db → Tally → Outcome Tally
  compare_sample v [] rows d t = ok t
  compare_sample v (user ∷ users) rows d t =
      compare_rows (get user rows) (r.read_row v user d) t >>= λ next.
      compare_sample v users rows d next

  -- `abs(expected_rows - online_rows)`
  abbrev pub distance : ℕ → ℕ → ℕ
  distance a b = (a - b) + (b - a)

  abbrev pub same_checksum : Option String → String → Bool
  same_checksum none now = true
  same_checksum (some before) now = if before ==ₛ "" then true else before ==ₛ now

  -- `passed`, of what was compared and counted
  abbrev pub verdict : String → ℕ → String → Tally → r.Db → Bool
  verdict v expected checksum_now t d =
      num.at_most (num.ratio t.mismatched (max t.compared 1)) num.tolerance
      && (t.missing == 0)
      && num.at_most (num.ratio (distance expected (r.count_keys v d)) (max expected 1))
          num.thousandth
      && same_checksum (get "checksum" (r.status v d)) checksum_now

  -- `passed`, of the rows that are online once the status says VALIDATING, or the exception of what
  -- is read or converted for it
  unfoldable pub passed : String → String → ℕ → r.Db → Outcome Bool
  passed v dt size d = do
    expected ← off.recount dt
    checksum_now ← off.rechecksum dt
    rows ← off.fetch_users (r.sample v size d) dt
    t ←
        compare_sample v (r.sample v size d) rows d
          (record { compared = 0; mismatched = 0; missing = 0 })
    ok (verdict v expected checksum_now t d)

  abbrev pub truth : Bool → String
  truth true = "true"
  truth false = "false"

  -- The end of `validate_sync`: the status and the ledger, and the exception where the validation failed.
  abbrev pub conclude :
      String → Bool → State r off spec num naming → Run r off spec num naming (Unit {0})
  conclude v p s =
      let rows = r.count_keys v s.redis in
      let t =
        on_redis r off spec num naming
          (set_version_status r off spec num naming v
            (("status", if p then "VALIDATED" else "FAILED") ∷ ("validation_passed", truth p) ∷ []))
          (on_ledger r off spec num naming
            (set_sync_status v (if p then validated else failed) (some rows)) s) in
      (t, if p then ok tt else err runtime_error)

  -- What follows the comparison: an exception leaves the status VALIDATING.
  abbrev pub after_check :
      String → Outcome Bool → State r off spec num naming → Run r off spec num naming (Unit {0})
  after_check v (err e) s = (s, err e)
  after_check v (ok p) s = conclude v p s

  -- `validate_sync`, where Redis and the ledger answer
  unfoldable pub validate_sync :
      String → ℕ → State r off spec num naming → Run r off spec num naming (Unit {0})
  unfolding set_sync_status passed
  validate_sync date size s =
      let v = naming.make_version date in
      let t =
        on_redis r off spec num naming
          (set_version_status r off spec num naming v (("status", "VALIDATING") ∷ []))
          (on_ledger r off spec num naming (set_sync_status v validating none) s) in
      after_check v (passed v (naming.dt_of date) size t.redis) t

  -- `int(float(status.get("total_shards") or 0))`
  abbrev pub shard_total : Option String → ℕ
  shard_total none = 0
  shard_total (some text) = if text ==ₛ "" then 0 else num.to_int text

  abbrev pub is_text : String → Option String → Bool
  is_text t none = false
  is_text t (some u) = u ==ₛ t

  -- The guards of `activate_version`.
  abbrev pub is_validated : String → r.Db → Bool
  is_validated v d =
      is_text "VALIDATED" (get "status" (r.status v d))
      && is_text "true" (get "validation_passed" (r.status v d))

  abbrev pub is_complete : String → r.Db → Bool
  is_complete v d =
      let total = shard_total (get "total_shards" (r.status v d)) in
      ltb 0 total && (r.scard v d == total)

  -- `activate_version`: the version that was active before.
  unfoldable pub activate_sync :
      String → State r off spec num naming → Run r off spec num naming (Option String)
  unfolding activate_version set_sync_status
  activate_sync date s =
      let v = naming.make_version date in
      let a = activate_version (versions_of r) v s.redis in
      if not (is_validated v s.redis)
      then (s, err runtime_error)
      else if not (is_complete v s.redis)
      then (s, err runtime_error)
      else (record { redis = a.1; ledger = set_sync_status v active none s.ledger }, ok a.0)

  -- `cleanup_old_versions`; the versions that are kept are given to the ledger.
  unfoldable pub cleanup_old_versions :
      Option ℕ → State r off spec num naming → Run r off spec num naming (Unit {0})
  unfolding gc_old_versions retire_versions
  cleanup_old_versions keep s =
      let versions = r.zrevrange s.redis in
      let current = r.get_active s.redis in
      let kept =
        keep_if (in_keep_set (keep_or keep spec.versions_to_keep) versions current) versions
        ++ elim current [ none ↦ [] | some v ↦ v ∷ [] ] in
      (
        record {
          redis = (gc_old_versions (versions_of r) spec.versions_to_keep keep s.redis).1;
          ledger = retire_versions kept s.ledger;
        },
        ok tt,
      )

  -- `mark_failed`
  unfoldable pub mark_failed :
      String → State r off spec num naming → Run r off spec num naming (Unit {0})
  unfolding set_sync_status
  mark_failed date s =
      let v = naming.make_version date in
      (
        on_redis r off spec num naming
            (set_version_status r off spec num naming v (("status", "FAILED") ∷ []))
            (on_ledger r off spec num naming (set_sync_status v failed none) s),
        ok tt,
      )

  -- The newest version that is not the active one.
  abbrev pub previous_version : List String → Option String → Outcome String
  previous_version [] current = err runtime_error
  previous_version (v ∷ vs) current =
      if is_active current v then previous_version vs current else ok v

  abbrev pub roll_to :
      Outcome String → State r off spec num naming → Run r off spec num naming String
  roll_to (err e) s = (s, err e)
  roll_to (ok v) s = (
    on_redis r off spec num naming (rollback_to (versions_of r) v)
        (on_ledger r off spec num naming (set_sync_status v active none) s),
    ok v,
  )

  -- `rollback`
  unfoldable pub rollback :
      Option String → State r off spec num naming → Run r off spec num naming String
  unfolding set_sync_status
  rollback none s = roll_to (previous_version (r.zrevrange s.redis) (r.get_active s.redis)) s
  rollback (some target) s = roll_to (ok target) s

  -- `simulate_partial_failure` on the shards that were drawn.
  unfoldable pub fail_shards :
      String → List ℕ → State r off spec num naming → Run r off spec num naming (Unit {0})
  unfolding record_shard
  fail_shards v [] s = (s, ok tt)
  fail_shards v (i ∷ is) s =
      continue r off spec num naming
        (record_run r off spec num naming v i broken 0 false
          (on_redis r off spec num naming (r.srem v i) s))
        (λ _ t. fail_shards v is t)
