-- ===== src/Features/SyncTests.antt =====
-- Tests of the synchronisation, and its results at concrete inputs.
use lzd.Common.{
  ℕ, ◌*◌, ◌≡◌, refl, ◌⊎◌, inl, inr, true, false, List, [], ◌∷◌, ◌++◌, ◌==◌, leb, if◌then◌else◌,
  Option, none, some, String, ◌==ₛ◌, length, Bool-cases, elem, arith,
}
use lzd.Common.Outcome.{ok, err, runtime_error}
use lzd.Common.Dict.{Dict, get}
use lzd.Features.Sync.{SyncRedis, SyncLaws, Offline, SyncSpec, Numerals, Naming, or_else}
use lzd.Features.Sync.Ledger.{Ledger, record_shard, open_sync, in_progress, done, pending}
use lzd.Features.Sync.Rows.{IsCounted}
use lzd.Features.Sync.Totals.{records, opens, start, Reaches-IsCounted}
use lzd.Features.Sync.Steps.{State, sync_shards, sync_shard, write_chunks, write_rows}
use lzd.Features.Sync.Publish.{passed, validate_sync, activate_sync}
use lzd.Features.Sync.Pointer.{run, pointer, MayMove, activate, run-MayMove}
use lzd.Features.Sync.Refusal.{Fails, validate_sync-refuses}
use lzd.Features.Sync.Complete.{validated_store, after_shards, full_run, full_run-activates}

-- A store of one version.
record Db : Type 0 where
  active : Option String
  fields : Dict String
  done : List ℕ
  users : List String

abbrev redis : SyncRedis String
redis = record {
  Db = Db;
  get_active = λ d. d.active;
  set_active = λ v d. record d { active = some v };
  status = λ v d. d.fields;
  hset = λ v fs d. record d { fields = fs ++ d.fields };
  incr_rows = λ v n d. d;
  zrevrange = λ d. [];
  zadd = λ v d. d;
  zadd_nx = λ v d. d;
  zrem = λ v d. d;
  batch_pattern = λ v. v;
  scan = λ p d. [];
  unlink = λ keys d. d;
  unlink_meta = λ v d. d;
  is_member = λ v i d. elem i d.done;
  scard = λ v d. length d.done;
  sadd = λ v i d. record d { done = i ∷ d.done };
  srem = λ v i d. d;
  write_row = λ v user row d. record d { users = user ∷ d.users };
  read_row = λ v user d. ("f1", "3") ∷ [];
  count_keys = λ v d. length d.users;
  sample = λ v n d. d.users;
}

get-append : (f : String) (fs d : Dict String) → get f (fs ++ d) ≡ or_else (get f fs) (get f d)
get-append f [] d = refl
get-append f ((j, v) ∷ fs) d = elim (Bool-cases (j ==ₛ f)) [
  | inl e ↦ rw e refl
  | inr n ↦ rw n (get-append f fs d)
]

redis_laws : SyncLaws redis
redis_laws = record {
  active-set = λ v d. refl;
  active-hset = λ v fs d. refl;
  active-incr = λ v n d. refl;
  active-zadd = λ v d. refl;
  active-zadd_nx = λ v d. refl;
  active-zrem = λ v d. refl;
  active-unlink = λ keys d. refl;
  active-unlink_meta = λ v d. refl;
  active-sadd = λ v i d. refl;
  active-srem = λ v i d. refl;
  active-write = λ v u row d. refl;
  field-hset = λ v f fs d. get-append f fs d.fields;
  status-zadd_nx = λ v d. refl;
  field-incr = λ v f n d h. refl;
  status-sadd = λ v i d. refl;
  status-write = λ v u row d. refl;
  member-sadd = λ v i j d. refl;
  member-incr = λ v n j d. refl;
  member-write = λ v u row j d. refl;
  member-hset = λ v fs j d. refl;
  member-zadd_nx = λ v j d. refl;
  scard-sadd = λ v i d h. refl;
  scard-incr = λ v n d. refl;
  scard-write = λ v u row d. refl;
  scard-hset = λ v fs d. refl;
  scard-zadd_nx = λ v d. refl;
}

-- Five rows in one shard.
abbrev offline : Offline String
offline = record {
  table_exists = true;
  misses_columns = false;
  all_rows = 5;
  max_dt = none;
  count_rows = λ dt. 5;
  checksum = λ dt. "c";
  recount = λ dt. ok 5;
  rechecksum = λ dt. ok "c";
  iter_shard = λ i n dt. [];
  fetch_users = λ users dt. ok [];
}

abbrev spec : SyncSpec String
spec = record {
  entity_key = "user_id";
  batch_features = [];
  row_stamp = λ v. [];
  session_stamp = [];
  versions_to_keep = 3;
}

-- Fractions.
abbrev numerals : Numerals (ℕ × ℕ) String
numerals = record {
  to_float = λ s. ok (0, 1);
  str = λ s. s;
  show = λ n. if n == 1 then "1" else "0";
  to_int = λ s. if s ==ₛ "1" then 1 else 0;
  is_nan = λ a. false;
  sub = λ a b. a;
  mul = λ a b. a;
  abs = λ a. a;
  max = λ a b. b;
  at_most = λ (a : ℕ × ℕ) (b : ℕ × ℕ). leb (a.0 * b.1) (b.0 * a.1);
  ratio = λ a b. (a, b);
  thousandth = (1, 1_000);
  tolerance = (1, 10_000);
}

abbrev naming : Naming
naming = record { make_version = λ date. "v20260805"; dt_of = λ date. date }

abbrev ledger : Ledger
ledger = record { syncs = []; shards = [] }

-- All of the version was written and validated; nothing is active yet.
abbrev written : State redis offline spec numerals naming
written = record {
  redis = record {
    active = none;
    fields = ("total_shards", "1") ∷ ("status", "VALIDATED") ∷ ("validation_passed", "true") ∷ [];
    done = 0 ∷ [];
    users = [];
  };
  ledger = ledger;
}

run-MayMove_example :
    (pointer redis redis_laws offline spec numerals naming
        (run redis redis_laws offline spec numerals naming (activate "2026-08-05") written)
      ≡ none)
    ⊎ MayMove redis redis_laws offline spec numerals naming
        (activate "2026-08-05")
        written
        (run redis redis_laws offline spec numerals naming (activate "2026-08-05") written)
run-MayMove_example =
    run-MayMove redis redis_laws offline spec numerals naming (activate "2026-08-05") written

-- No row is online, so the validation fails.
validation_fails :
    (validate_sync redis offline spec numerals naming "2026-08-05" 10 written).1 ≡ err runtime_error
unfolding validate_sync passed
validation_fails = refl

validate_sync-refuses_example :
    Fails redis redis_laws offline spec numerals naming "2026-08-05" 10 written runtime_error
    × (activate_sync redis offline spec numerals naming "2026-08-05"
          (validate_sync redis offline spec numerals naming "2026-08-05" 10 written).0
        ≡ (
          (validate_sync redis offline spec numerals naming "2026-08-05" 10 written).0,
          err runtime_error,
        ))
validate_sync-refuses_example =
    validate_sync-refuses redis redis_laws offline spec numerals naming "2026-08-05" 10 written
      runtime_error validation_fails

-- One row in one shard, with one feature that is a text.
abbrev one_row : Offline String
one_row = record offline {
  count_rows = λ dt. 1;
  iter_shard = λ i n dt. ok ((("user_id", "u1") ∷ ("f1", "3") ∷ []) ∷ []) ∷ [];
  recount = λ dt. ok 1;
  fetch_users = λ users dt. ok (("u1", ("f1", "3") ∷ []) ∷ []);
}

abbrev text_or_blank : Option String → String
text_or_blank none = ""
text_or_blank (some s) = s

abbrev one_feature : SyncSpec String
one_feature = record spec {
  batch_features = record { name = "f1"; is_number = false; cast = text_or_blank } ∷ [];
}

abbrev empty : State redis one_row one_feature numerals naming
empty = record {
  redis = record { active = none; fields = []; done = []; users = [] };
  ledger = ledger;
}

abbrev at_date : String
at_date = "2026-08-05"

validation_passes :
    passed redis one_row one_feature numerals naming "v20260805" at_date 10 (
      validated_store redis redis_laws one_row one_feature numerals naming at_date
        (after_shards redis redis_laws one_row one_feature numerals naming at_date 1 empty))
    ≡ ok true
unfolding passed sync_shards sync_shard write_chunks write_rows record_shard open_sync
validation_passes = refl

full_run-activates_example :
    (u : State redis one_row one_feature numerals naming) × (full_run redis redis_laws one_row
        one_feature numerals naming at_date 1 10 empty
      ≡ (u, ok none))
    × (u.redis.active ≡ some "v20260805")
unfolding sync_shards sync_shard write_chunks write_rows record_shard open_sync
full_run-activates_example =
    full_run-activates redis redis_laws one_row one_feature numerals naming at_date 1 10 empty
      (omega arith) refl refl (λ j l. ((_, refl), tt)) refl (λ j. refl) validation_passes

-- Two shards, of which the first is done.
abbrev one_done : Ledger
one_done = record {
  syncs =
      record {
        feature_version = "v1";
        status = in_progress;
        total_shards = 2;
        expected_rows = 10;
        completed_shards = 1;
        written_rows = 5;
      }
      ∷ [];
  shards =
      record { feature_version = "v1"; shard_id = 0; status = done; rows_written = 5; attempt = 1 }
      ∷ record {
        feature_version = "v1";
        shard_id = 1;
        status = pending;
        rows_written = 0;
        attempt = 0;
      }
      ∷ [];
}

one_recorded :
    record_shard "v1" 0 done 5 false (open_sync "v1" 2 10 (record { syncs = []; shards = [] }))
    ≡ ok one_done
unfolding record_shard open_sync
one_recorded = refl

Reaches-IsCounted_example : IsCounted one_done
Reaches-IsCounted_example =
    Reaches-IsCounted one_done (records "v1" 0 done 5 false (opens "v1" 2 10 start) one_recorded)
