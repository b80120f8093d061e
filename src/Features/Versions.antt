-- ===== src/Features/Versions.antt =====
-- online_store.py: the versions of the features, the pointer to the active one, and their removal.
pub mod Collected
use lzd.Common.{
  ℕ, zero, suc, ◌≡◌, Bool, true, false, ◌||◌, ◌&&◌, not, List, [], ◌∷◌, Option, none, some, String,
  ◌==ₛ◌, ◌==◌, if◌then◌else◌, any_of, keep_if, In,
}

-- The commands of Redis on the keys of the versions. `scan pattern` holds the pages that the calls
-- of SCAN give in turn, up to the one with cursor 0, while the loop unlinks what they hold;
-- `batch_pattern v` is `batch_key(v, "*")`, and `unlink_meta` is UNLINK of the status and the shards.
pub record Redis : Type 1 where
  pub Db : Type 0
  pub get_active : Db → Option String
  pub set_active : String → Db → Db
  pub zrevrange : Db → List String
  pub zadd : String → Db → Db
  pub zrem : String → Db → Db
  pub set_status : String → String → Db → Db
  pub batch_pattern : String → String
  pub scan : String → Db → List (List String)
  pub unlink : List String → Db → Db
  pub unlink_meta : String → Db → Db

-- What can be seen of the keys of rows, statuses and shards: whether a key is there and what it
-- holds, whether a pattern matches it, and whether it is the status or the shards of a version.
pub record Keyspace (Rows : Type 0) (r : Redis) : Type 0 where
  pub exists : String → r.Db → Bool
  pub value : String → r.Db → Rows
  pub matches : String → String → Bool
  pub is_meta : String → String → Bool

abbrev pub member : String → List String → Bool
member v = any_of (λ w. w ==ₛ v)

-- What Redis documents of them: a command changes its own keys alone, and a full iteration of SCAN
-- gives keys that match, among them each that is there throughout.
pub record RedisLaws {Rows : Type 0} (r : Redis) (k : Keyspace Rows r) : Type 0 where
  pub active-zrem : (v : String) (d : r.Db) → r.get_active (r.zrem v d) ≡ r.get_active d
  pub active-unlink :
      (keys : List String) (d : r.Db) → r.get_active (r.unlink keys d) ≡ r.get_active d
  pub active-unlink_meta :
      (v : String) (d : r.Db) → r.get_active (r.unlink_meta v d) ≡ r.get_active d
  pub versions-unlink :
      (keys : List String) (d : r.Db) → r.zrevrange (r.unlink keys d) ≡ r.zrevrange d
  pub versions-unlink_meta :
      (v : String) (d : r.Db) → r.zrevrange (r.unlink_meta v d) ≡ r.zrevrange d
  pub versions-zrem :
      (v : String) (d : r.Db)
      → r.zrevrange (r.zrem v d) ≡ keep_if (λ w. not (w ==ₛ v)) (r.zrevrange d)
  pub exists-zrem : (v key : String) (d : r.Db) → k.exists key (r.zrem v d) ≡ k.exists key d
  pub exists-unlink :
      (keys : List String) (key : String) (d : r.Db)
      → k.exists key (r.unlink keys d) ≡ (k.exists key d && not (member key keys))
  pub exists-unlink_meta :
      (v key : String) (d : r.Db)
      → k.exists key (r.unlink_meta v d) ≡ (k.exists key d && not (k.is_meta v key))
  pub value-zrem : (v key : String) (d : r.Db) → k.value key (r.zrem v d) ≡ k.value key d
  pub value-unlink :
      (keys : List String) (key : String) (d : r.Db)
      → member key keys ≡ false
      → k.value key (r.unlink keys d) ≡ k.value key d
  pub value-unlink_meta :
      (v key : String) (d : r.Db)
      → k.is_meta v key ≡ false
      → k.value key (r.unlink_meta v d) ≡ k.value key d
  pub scan-matches :
      (pattern key : String) (d : r.Db)
      → any_of (member key) (r.scan pattern d) ≡ true
      → k.matches pattern key ≡ true
  pub scan-complete :
      (pattern key : String) (d : r.Db)
      → k.exists key d ≡ true
      → k.matches pattern key ≡ true
      → any_of (member key) (r.scan pattern d) ≡ true

abbrev take {ℓ} : {A : Type ℓ} → ℕ → List A → List A
take zero xs = []
take (suc n) [] = []
take (suc n) (x ∷ xs) = x ∷ take n xs

abbrev pub is_active : Option String → String → Bool
is_active none v = false
is_active (some w) v = w ==ₛ v

-- `version in keep_set`: one of the newest, or the active one.
abbrev pub in_keep_set : ℕ → List String → Option String → String → Bool
in_keep_set keep versions active v = member v (take keep versions) || is_active active v

-- `keep or self.cfg.versions_to_keep`, neither of them negative
abbrev pub keep_or : Option ℕ → ℕ → ℕ
keep_or none versions_to_keep = versions_to_keep
keep_or (some n) versions_to_keep = if n == 0 then versions_to_keep else n

module _ (r : Redis) where
  -- `activate_version`: the version that was active, and the store.
  unfoldable pub activate_version : String → r.Db → Option String × r.Db
  activate_version v d = (r.get_active d, r.zadd v (r.set_status v "ACTIVE" (r.set_active v d)))

  -- `rollback_to`
  abbrev pub rollback_to : String → r.Db → r.Db
  rollback_to v d = r.set_active v d

  -- `if keys: self.r.unlink(*keys)`
  abbrev pub unlink_page : List String → r.Db → r.Db
  unlink_page [] d = d
  unlink_page (key ∷ keys) d = r.unlink (key ∷ keys) d

  -- The loop of `delete_version`.
  abbrev pub unlink_pages : List (List String) → r.Db → r.Db
  unlink_pages [] d = d
  unlink_pages (keys ∷ pages) d = unlink_pages pages (unlink_page keys d)

  -- `delete_version`
  abbrev pub delete_version : String → r.Db → r.Db
  delete_version v d = r.zrem v (r.unlink_meta v (unlink_pages (r.scan (r.batch_pattern v) d) d))

  -- The loop of `gc_old_versions`: the versions that it removed, and the store.
  unfoldable pub collect : (String → Bool) → List String → r.Db → List String × r.Db
  collect kept [] d = ([], d)
  collect kept (v ∷ vs) d =
      let rest = collect kept vs (delete_version v d) in
      let skip = collect kept vs d in if kept v then skip else (v ∷ rest.0, rest.1)

  -- `gc_old_versions`, with `versions_to_keep` of the settings
  unfoldable pub gc_old_versions : ℕ → Option ℕ → r.Db → List String × r.Db
  unfolding collect
  gc_old_versions versions_to_keep keep d =
      let versions = r.zrevrange d in
      collect (in_keep_set (keep_or keep versions_to_keep) versions (r.get_active d)) versions d
