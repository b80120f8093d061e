-- ===== src/Features/Versions/Collected.antt =====
-- online_store.py: garbage collection removes the old versions and nothing that is served.
use lzd.Common.{
  ℕ, suc, ◌≡◌, refl, sym, ap, ◌∙◌, ◌⊎◌, inl, inr, Bool, true, false, ◌||◌, ◌&&◌, not, List, [], ◌∷◌,
  Option, none, some, String, ◌==ₛ◌, keep_if, any_of, arith, Bool-cases, text_eq_iff,
}
use lzd.Features.Versions.{
  Redis, Keyspace, RedisLaws, member, in_keep_set, keep_or, unlink_page, unlink_pages,
  delete_version, collect, gc_old_versions,
}

or_false : (a b : Bool) → (a || b) ≡ false → (a ≡ false) × (b ≡ false)
or_false a b h = ground arith

-- A key that goes with a version: a row of it by its pattern, its status or its shards.
abbrev pub goes_with : {Rows : Type 0} {r : Redis} → Keyspace Rows r → String → String → Bool
goes_with {Rows} {r} k key v = k.matches (r.batch_pattern v) key || k.is_meta v key

module _ {Rows : Type 0} (r : Redis) (k : Keyspace Rows r) (laws : RedisLaws r k) where
  -- What a step does to the keys: those that pass the test are gone, the others are as they were.
  record Removes (gone : String → Bool) (d e : r.Db) : Type 0 where
    there : (key : String) → k.exists key e ≡ (k.exists key d && not (gone key))
    same : (key : String) → gone key ≡ false → k.value key e ≡ k.value key d

  page-Removes :
      (keys : List String) (d : r.Db) → Removes (λ key. member key keys) d (unlink_page r keys d)
  page-Removes [] d = record { there = λ key. ground arith; same = λ key h. refl }
  page-Removes (x ∷ keys) d = record {
    there = λ key. laws.exists-unlink (x ∷ keys) key d;
    same = λ key h. laws.value-unlink (x ∷ keys) key d h;
  }

  pages-Removes :
      (pages : List (List String)) (d : r.Db)
      → Removes (λ key. any_of (member key) pages) d (unlink_pages r pages d)
  pages-Removes [] d = record { there = λ key. ground arith; same = λ key h. refl }
  pages-Removes (keys ∷ pages) d =
      let first = page-Removes keys d in
      let rest = pages-Removes pages (unlink_page r keys d) in
      record {
        there = λ key. ground (arith, rest.there key, first.there key);
        same = λ key h.
            let (a, b) = or_false (member key keys) (any_of (member key) pages) h in
            rest.same key b ∙ first.same key a;
      }

  -- A full iteration of SCAN takes every key of the pattern that is there, and no other.
  delete-Removes :
      (v : String) (d : r.Db) → Removes (λ key. goes_with k key v) d (delete_version r v d)
  delete-Removes v d =
      let pages = r.scan (r.batch_pattern v) d in
      let rows = unlink_pages r pages d in
      let swept = pages-Removes pages d in
      record {
        there = λ key.
            laws.exists-zrem v key (r.unlink_meta v rows)
            ∙ laws.exists-unlink_meta v key rows
            ∙ swept_all (k.exists key rows) (k.exists key d) (any_of (member key) pages)
                (k.matches (r.batch_pattern v) key) (k.is_meta v key) (swept.there key)
                (laws.scan-matches (r.batch_pattern v) key d)
                (laws.scan-complete (r.batch_pattern v) key d);
        same = λ key h.
            let (a, b) = or_false (k.matches (r.batch_pattern v) key) (k.is_meta v key) h in
            laws.value-zrem v key (r.unlink_meta v rows)
            ∙ laws.value-unlink_meta v key rows b
            ∙ swept.same key (
                unswept (any_of (member key) pages) (k.matches (r.batch_pattern v) key)
                  (laws.scan-matches (r.batch_pattern v) key d) a);
      }
    where
      swept_all :
          (after before page match meta : Bool)
          → after ≡ (before && not page)
          → (page ≡ true → match ≡ true)
          → (before ≡ true → match ≡ true → page ≡ true)
          → (after && not meta) ≡ (before && not (match || meta))
      swept_all after false page match meta h f g = ground arith
      swept_all after true false false meta h f g = ground arith
      swept_all after true false true meta h f g = absurd (cc (g refl refl))
      swept_all after true true false meta h f g = absurd (cc (f refl))
      swept_all after true true true meta h f g = ground arith

      unswept : (page match : Bool) → (page ≡ true → match ≡ true) → match ≡ false → page ≡ false
      unswept false match f h = refl
      unswept true match f h = cc (f refl, h)

  -- What a part of the loop leaves.
  record Collected (kept : String → Bool) (vs : List String) (d : r.Db) (out : List String × r.Db)
      : Type 0 where
    removed : out.0 ≡ keep_if (λ v. not (kept v)) vs
    active : r.get_active out.1 ≡ r.get_active d
    listed :
        (v : String)
        → member v (r.zrevrange out.1)
          ≡ (member v (r.zrevrange d) && not (member v vs && not (kept v)))
    keys : Removes (λ key. any_of (goes_with k key) out.0) d out.1

  active-pages :
      (pages : List (List String)) (d : r.Db)
      → r.get_active (unlink_pages r pages d) ≡ r.get_active d
  active-pages [] d = refl
  active-pages ([] ∷ pages) d = active-pages pages d
  active-pages ((x ∷ keys) ∷ pages) d =
      active-pages pages (r.unlink (x ∷ keys) d) ∙ laws.active-unlink (x ∷ keys) d

  versions-pages :
      (pages : List (List String)) (d : r.Db) → r.zrevrange (unlink_pages r pages d) ≡ r.zrevrange d
  versions-pages [] d = refl
  versions-pages ([] ∷ pages) d = versions-pages pages d
  versions-pages ((x ∷ keys) ∷ pages) d =
      versions-pages pages (r.unlink (x ∷ keys) d) ∙ laws.versions-unlink (x ∷ keys) d

  member-remove :
      (v w : String) (vs : List String)
      → member v (keep_if (λ x. not (x ==ₛ w)) vs) ≡ (member v vs && not (w ==ₛ v))
  member-remove v w [] = refl
  member-remove v w (x ∷ vs) =
      ground (arith, member-remove v w vs, text_eq_iff x w, text_eq_iff x v, text_eq_iff w v)

  member-delete :
      (v w : String) (d : r.Db)
      → member v (r.zrevrange (delete_version r w d)) ≡ (member v (r.zrevrange d) && not (w ==ₛ v))
  member-delete v w d =
      let pages = r.scan (r.batch_pattern w) d in
      ap (member v) (
        laws.versions-zrem w (r.unlink_meta w (unlink_pages r pages d))
        ∙ ap (keep_if (λ x. not (x ==ₛ w)))
            (laws.versions-unlink_meta w (unlink_pages r pages d) ∙ versions-pages pages d))
      ∙ member-remove v w (r.zrevrange d)

  active-delete : (v : String) (d : r.Db) → r.get_active (delete_version r v d) ≡ r.get_active d
  active-delete v d =
      let pages = r.scan (r.batch_pattern v) d in
      laws.active-zrem v (r.unlink_meta v (unlink_pages r pages d))
      ∙ laws.active-unlink_meta v (unlink_pages r pages d)
      ∙ active-pages pages d

  collect-Collected :
      (kept : String → Bool) (vs : List String) (d : r.Db)
      → Collected kept vs d (collect r kept vs d)
  unfolding collect
  collect-Collected kept [] d = record {
    removed = refl;
    active = refl;
    listed = λ v. ground arith;
    keys = record { there = λ key. ground arith; same = λ key h. refl };
  }
  collect-Collected kept (w ∷ vs) d = elim (Bool-cases (kept w)) [
    | inl h ↦ rw h (keep_going h (collect-Collected kept vs d))
    | inr n ↦ rw n (removing n (collect-Collected kept vs (delete_version r w d)))
  ]
    where
      keep_going :
          kept w ≡ true
          → {out : List String × r.Db} → Collected kept vs d out
          → Collected kept (w ∷ vs) d out
      keep_going h c = record {
        removed = c.removed ∙ rw h refl;
        active = c.active;
        listed = λ v. ground (arith, c.listed v, same_kept v);
        keys = c.keys;
      }
        where
          same_kept : (v : String) → (w ==ₛ v) ≡ true → kept v ≡ true
          same_kept v s = ap kept (sym ((text_eq_iff w v).0 s)) ∙ h

      removing :
          kept w ≡ false
          → {out : List String × r.Db} → Collected kept vs (delete_version r w d) out
          → Collected kept (w ∷ vs) d (w ∷ out.0, out.1)
      removing n {out} c =
          let first = delete-Removes w d in
          record {
            removed = ap (λ vs. w ∷ vs) c.removed ∙ rw n refl;
            active = c.active ∙ active-delete w d;
            listed = λ v. ground (arith, c.listed v, member-delete v w d, same_dropped v);
            keys = record {
              there = λ key.
                  both (k.exists key out.1) (k.exists key (delete_version r w d)) (k.exists key d)
                    (goes_with k key w) (any_of (goes_with k key) out.0) (c.keys.there key)
                    (first.there key);
              same = λ key h.
                  let (a, b) = or_false (goes_with k key w) (any_of (goes_with k key) out.0) h in
                  c.keys.same key b ∙ first.same key a;
            };
          }
        where
          same_dropped : (v : String) → (w ==ₛ v) ≡ true → kept v ≡ false
          same_dropped v s = ap kept (sym ((text_eq_iff w v).0 s)) ∙ n

          both :
              (after between before a b : Bool)
              → after ≡ (between && not b)
              → between ≡ (before && not a)
              → after ≡ (before && not (a || b))
          both after between before a b p q = ground arith

  -- Garbage collection removes exactly the listed versions that are neither among the newest, as
  -- many as `keep` says or as the settings do where it is None or 0, nor active. After it a version
  -- is listed if and only if it was listed and was not removed, and the pointer has not moved. Of
  -- the keys of rows, statuses and shards, those that the pattern of a removed version matches, or
  -- that are its status or its shards, are gone, and all others are there, and hold what they did,
  -- just as before: so the rows of a version stay unless the pattern of a removed one matches them.
  pub gc_old_versions-removes :
      (versions_to_keep : ℕ) (keep : Option ℕ) (d : r.Db)
      → ((n : ℕ) → keep ≡ some (suc n) → keep_or keep versions_to_keep ≡ suc n)
        × ((keep ≡ none) ⊎ (keep ≡ some 0) → keep_or keep versions_to_keep ≡ versions_to_keep)
        × ((gc_old_versions r versions_to_keep keep d).0
            ≡ keep_if
                (λ v.
                  not (
                    in_keep_set (keep_or keep versions_to_keep) (r.zrevrange d) (r.get_active d) v))
                (r.zrevrange d))
        × ((v : String)
            → member v (r.zrevrange (gc_old_versions r versions_to_keep keep d).1) ≡ (
                member v (r.zrevrange d)
                && in_keep_set (keep_or keep versions_to_keep) (r.zrevrange d) (r.get_active d) v))
        × (r.get_active (gc_old_versions r versions_to_keep keep d).1 ≡ r.get_active d)
        × ((key : String)
            → k.exists key (gc_old_versions r versions_to_keep keep d).1 ≡ (
                k.exists key d
                && not (any_of (goes_with k key) (gc_old_versions r versions_to_keep keep d).0)))
        × ((key : String)
            → any_of (goes_with k key) (gc_old_versions r versions_to_keep keep d).0 ≡ false
            → k.value key (gc_old_versions r versions_to_keep keep d).1 ≡ k.value key d)
  unfolding gc_old_versions
  gc_old_versions-removes versions_to_keep keep d =
      let kept = in_keep_set (keep_or keep versions_to_keep) (r.zrevrange d) (r.get_active d) in
      let c = collect-Collected kept (r.zrevrange d) d in
      (
        λ n e. rw e (ground arith),
        as_settings,
        c.removed,
        λ v. ground (arith, c.listed v),
        c.active,
        c.keys.there,
        c.keys.same,
      )
    where
      as_settings :
          (keep ≡ none) ⊎ (keep ≡ some 0) → keep_or keep versions_to_keep ≡ versions_to_keep
      as_settings (inl e) = rw e refl
      as_settings (inr e) = rw e refl
