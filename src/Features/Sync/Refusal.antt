-- ===== src/Features/Sync/Refusal.antt =====
-- sync.py: activation after a failed validation.
use lzd.Common.{
  ℕ, ◌≡◌, refl, ap, ◌∙◌, ◌⊎◌, inl, inr, Bool, true, false, [], ◌∷◌, none, some, String, ◌==ₛ◌,
}
use lzd.Common.Outcome.{Error, Outcome, ok, err, runtime_error}
use lzd.Common.Dict.{Dict, get}
use lzd.Features.Sync.{SyncRedis, SyncLaws, Offline, SyncSpec, Numerals, Naming}
use lzd.Features.Sync.Ledger.{validating, set_sync_status}
use lzd.Features.Sync.Steps.{State, on_redis, on_ledger, set_version_status}
use lzd.Features.Sync.Publish.{
  conclude, after_check, passed, validate_sync, is_validated, activate_sync,
}

module _ {F V : Type 0} (r : SyncRedis V) (laws : SyncLaws r) (off : Offline V) (spec : SyncSpec V)
    (num : Numerals F V) (naming : Naming) where
  abbrev S : Type 0
  S = State r off spec num naming

  status_set :
      (v : String) (fs : Dict String) (d : r.Db) (t : String)
      → get "status" fs ≡ some t
      → get "status" (r.status v (set_version_status r off spec num naming v fs d)) ≡ some t
  status_set v fs d t h =
      ap (get "status") (laws.status-zadd_nx v (r.hset v fs d))
      ∙ laws.field-hset v "status" fs d
      ∙ rw h refl

  refused :
      (date : String) (s : S)
      → is_validated r off spec num naming (naming.make_version date) s.redis ≡ false
      → activate_sync r off spec num naming date s ≡ (s, err runtime_error)
  unfolding activate_sync
  refused date s h = rw h refl

  unvalidated :
      (v t : String) (fs : Dict String) (d : r.Db)
      → get "status" fs ≡ some t
      → (t ==ₛ "VALIDATED") ≡ false
      → is_validated r off spec num naming v (set_version_status r off spec num naming v fs d)
        ≡ false
  unvalidated v t fs d h n = rw (status_set v fs d t h) (rw n refl)

  -- The store and the ledger when the checks begin.
  abbrev begun : String → S → S
  begun date s =
      let v = naming.make_version date in
      on_redis r off spec num naming
        (set_version_status r off spec num naming v (("status", "VALIDATING") ∷ []))
        (on_ledger r off spec num naming (set_sync_status v validating none) s)

  -- The checks do not pass, or one of them raises.
  abbrev pub Fails : String → ℕ → S → Error → Type 0
  Fails date size s e =
      let o =
        passed r off spec num naming (naming.make_version date) (naming.dt_of date) size
          (begun date s).redis in
      ((o ≡ ok false) × (e ≡ runtime_error)) ⊎ (o ≡ err e)

  after_check_refused :
      (date : String) (o : Outcome Bool) (s : S) (e : Error)
      → is_validated r off spec num naming (naming.make_version date) s.redis ≡ false
      → (after_check r off spec num naming (naming.make_version date) o s).1 ≡ err e
      → (((o ≡ ok false) × (e ≡ runtime_error)) ⊎ (o ≡ err e))
        × (activate_sync r off spec num naming date
              (after_check r off spec num naming (naming.make_version date) o s).0
            ≡ (
              (after_check r off spec num naming (naming.make_version date) o s).0,
              err runtime_error,
            ))
  after_check_refused date (err f) s e n h = (inr (same f e h), refused date s n)
    where
      checked : Error → Outcome Bool
      checked e = err e

      raised : Error → Outcome (Unit {0})
      raised e = err e

      same : (f e : Error) → raised f ≡ raised e → checked f ≡ checked e
      same f e h = cc h
  after_check_refused date (ok true) s e n h = cc
  after_check_refused date (ok false) s e n h = (
    inl (refl, same e h),
    refused date (conclude r off spec num naming (naming.make_version date) false s).0 (
        unvalidated (naming.make_version date) "FAILED"
          (("status", "FAILED") ∷ ("validation_passed", "false") ∷ []) s.redis refl refl),
  )
    where
      raised : Error → Outcome (Unit {0})
      raised e = err e

      same : (e : Error) → raised runtime_error ≡ raised e → e ≡ runtime_error
      same e h = cc h

  -- Where Redis and the ledger answer: if validate_sync raises, then either its checks do not pass
  -- and the exception is a RuntimeError, or it is the exception of a read of the offline store or of
  -- a conversion; and in both cases an activation of the date after it raises a RuntimeError and
  -- changes nothing, whatever the status was before.
  pub validate_sync-refuses :
      (date : String) (size : ℕ) (s : S) (e : Error)
      → (validate_sync r off spec num naming date size s).1 ≡ err e
      → Fails date size s e
        × (activate_sync r off spec num naming date
              (validate_sync r off spec num naming date size s).0
            ≡ ((validate_sync r off spec num naming date size s).0, err runtime_error))
  unfolding validate_sync
  validate_sync-refuses date size s e h =
      after_check_refused date _ (begun date s) e
        (unvalidated (naming.make_version date) "VALIDATING" (("status", "VALIDATING") ∷ []) s.redis
          refl refl)
        h
