-- ===== src/Features/Sync.antt =====
-- sync.py: what the synchronisation takes from Redis, from the offline store, from the feature specification and from numbers.
pub mod Ledger
pub mod Rows
pub mod Totals
pub mod Steps
pub mod Publish
pub mod Pointer
pub mod Refusal
pub mod Progress
pub mod Complete
use lzd.Common.{
  ℕ, suc, ◌≡◌, Bool, true, false, ◌||◌, not, List, [], ◌∷◌, ◌==◌, if◌then◌else◌, Option, none, some,
  String, ◌==ₛ◌,
}
use lzd.Common.Outcome.{Outcome}
use lzd.Common.Dict.{Dict, get}
use lzd.Features.Versions.{Redis}

-- The commands of Redis on the keys of the versions: HGETALL and HSET of the status, SISMEMBER, SCARD, SADD and SREM of the
-- shards, HSET and HGETALL of a row, the pages of SCAN over the rows, and what garbage collection uses.
pub record SyncRedis (V : Type 0) : Type 1 where
  pub Db : Type 0
  pub get_active : Db → Option String
  pub set_active : String → Db → Db
  pub status : String → Db → Dict String
  pub hset : String → Dict String → Db → Db
  pub incr_rows : String → ℕ → Db → Db
  pub zrevrange : Db → List String
  pub zadd : String → Db → Db
  pub zadd_nx : String → Db → Db
  pub zrem : String → Db → Db
  pub batch_pattern : String → String
  pub scan : String → Db → List (List String)
  pub unlink : List String → Db → Db
  pub unlink_meta : String → Db → Db
  pub is_member : String → ℕ → Db → Bool
  pub scard : String → Db → ℕ
  pub sadd : String → ℕ → Db → Db
  pub srem : String → ℕ → Db → Db
  pub write_row : String → String → Dict V → Db → Db
  pub read_row : String → String → Db → Dict V
  pub count_keys : String → Db → ℕ
  pub sample : String → ℕ → Db → List String

-- The commands that the versions of a store need.
abbrev pub versions_of : {V : Type 0} → SyncRedis V → Redis
versions_of r = record {
  Db = r.Db;
  get_active = r.get_active;
  set_active = r.set_active;
  zrevrange = r.zrevrange;
  zadd = r.zadd;
  zrem = r.zrem;
  set_status = λ v s. r.hset v (("status", s) ∷ []);
  batch_pattern = r.batch_pattern;
  scan = r.scan;
  unlink = r.unlink;
  unlink_meta = r.unlink_meta;
}

abbrev pub or_else : Option String → Option String → Option String
or_else none o = o
or_else (some s) o = some s

-- What Redis documents of them: a command changes its own keys alone, and HSET the fields that it is given.
pub record SyncLaws {V : Type 0} (r : SyncRedis V) : Type 0 where
  pub active-set : (v : String) (d : r.Db) → r.get_active (r.set_active v d) ≡ some v
  pub active-hset :
      (v : String) (fs : Dict String) (d : r.Db) → r.get_active (r.hset v fs d) ≡ r.get_active d
  pub active-incr :
      (v : String) (n : ℕ) (d : r.Db) → r.get_active (r.incr_rows v n d) ≡ r.get_active d
  pub active-zadd : (v : String) (d : r.Db) → r.get_active (r.zadd v d) ≡ r.get_active d
  pub active-zadd_nx : (v : String) (d : r.Db) → r.get_active (r.zadd_nx v d) ≡ r.get_active d
  pub active-zrem : (v : String) (d : r.Db) → r.get_active (r.zrem v d) ≡ r.get_active d
  pub active-unlink :
      (keys : List String) (d : r.Db) → r.get_active (r.unlink keys d) ≡ r.get_active d
  pub active-unlink_meta :
      (v : String) (d : r.Db) → r.get_active (r.unlink_meta v d) ≡ r.get_active d
  pub active-sadd : (v : String) (i : ℕ) (d : r.Db) → r.get_active (r.sadd v i d) ≡ r.get_active d
  pub active-srem : (v : String) (i : ℕ) (d : r.Db) → r.get_active (r.srem v i d) ≡ r.get_active d
  pub active-write :
      (v u : String) (row : Dict V) (d : r.Db)
      → r.get_active (r.write_row v u row d) ≡ r.get_active d
  pub field-hset :
      (v f : String) (fs : Dict String) (d : r.Db)
      → get f (r.status v (r.hset v fs d)) ≡ or_else (get f fs) (get f (r.status v d))
  pub status-zadd_nx : (v : String) (d : r.Db) → r.status v (r.zadd_nx v d) ≡ r.status v d
  pub field-incr :
      (v f : String) (n : ℕ) (d : r.Db)
      → (f ==ₛ "rows_written") ≡ false
      → get f (r.status v (r.incr_rows v n d)) ≡ get f (r.status v d)
  pub status-sadd : (v : String) (i : ℕ) (d : r.Db) → r.status v (r.sadd v i d) ≡ r.status v d
  pub status-write :
      (v u : String) (row : Dict V) (d : r.Db) → r.status v (r.write_row v u row d) ≡ r.status v d
  pub member-sadd :
      (v : String) (i j : ℕ) (d : r.Db)
      → r.is_member v j (r.sadd v i d) ≡ ((j == i) || r.is_member v j d)
  pub member-incr :
      (v : String) (n j : ℕ) (d : r.Db) → r.is_member v j (r.incr_rows v n d) ≡ r.is_member v j d
  pub member-write :
      (v u : String) (row : Dict V) (j : ℕ) (d : r.Db)
      → r.is_member v j (r.write_row v u row d) ≡ r.is_member v j d
  pub member-hset :
      (v : String) (fs : Dict String) (j : ℕ) (d : r.Db)
      → r.is_member v j (r.hset v fs d) ≡ r.is_member v j d
  pub member-zadd_nx :
      (v : String) (j : ℕ) (d : r.Db) → r.is_member v j (r.zadd_nx v d) ≡ r.is_member v j d
  pub scard-sadd :
      (v : String) (i : ℕ) (d : r.Db)
      → r.is_member v i d ≡ false
      → r.scard v (r.sadd v i d) ≡ suc (r.scard v d)
  pub scard-incr : (v : String) (n : ℕ) (d : r.Db) → r.scard v (r.incr_rows v n d) ≡ r.scard v d
  pub scard-write :
      (v u : String) (row : Dict V) (d : r.Db) → r.scard v (r.write_row v u row d) ≡ r.scard v d
  pub scard-hset :
      (v : String) (fs : Dict String) (d : r.Db) → r.scard v (r.hset v fs d) ≡ r.scard v d
  pub scard-zadd_nx : (v : String) (d : r.Db) → r.scard v (r.zadd_nx v d) ≡ r.scard v d

-- The offline store, as it is during a run: the rows of a day by shard come in chunks, and fetching one may raise. `recount`
-- and `rechecksum` are count_rows and checksum when the validation reads them again, which may raise or give something else.
pub record Offline (V : Type 0) : Type 0 where
  pub table_exists : Bool
  pub misses_columns : Bool
  pub all_rows : ℕ
  pub max_dt : Option String
  pub count_rows : String → ℕ
  pub checksum : String → String
  pub iter_shard : ℕ → ℕ → String → List (Outcome (List (Dict V)))
  pub recount : String → Outcome ℕ
  pub rechecksum : String → Outcome String
  pub fetch_users : List String → String → Outcome (Dict (Dict V))

pub record BatchFeature (V : Type 0) : Type 0 where
  pub name : String
  pub is_number : Bool
  pub cast : Option V → V

pub record SyncSpec (V : Type 0) : Type 0 where
  pub entity_key : String
  pub batch_features : List (BatchFeature V)
  -- what is added to every row (`_v`, `_ts`, `_feature_set_id`) and to the status of a new session
  pub row_stamp : String → Dict V
  pub session_stamp : Dict String
  -- of the settings of the feature store
  pub versions_to_keep : ℕ

-- Floats and texts of values; `float` may raise.
pub record Numerals (F V : Type 0) : Type 0 where
  pub to_float : V → Outcome F
  pub str : V → String
  pub show : ℕ → String
  -- `int(float(text))`
  pub to_int : String → ℕ
  pub is_nan : F → Bool
  pub sub : F → F → F
  pub mul : F → F → F
  pub abs : F → F
  pub max : F → F → F
  pub at_most : F → F → Bool
  pub ratio : ℕ → ℕ → F
  pub thousandth : F
  pub tolerance : F

-- `make_version` and `dt_of` of a logical date.
pub record Naming : Type 0 where
  pub make_version : String → String
  pub dt_of : String → String
