-- ===== src/Features/Sync/Rows.antt =====
-- audit.py: what the statements do to the rows of the ledger.
use lzd.Common.{
  ℕ, ◌≡◌, refl, sym, ap, ◌∙◌, inl, inr, Bool, true, false, ◌&&◌, List, [], ◌∷◌, ◌++◌, map, String,
  ◌==ₛ◌, Bool-cases, any_of, count_if, All, All-append, arith, text_eq_iff,
}
use lzd.Features.Sync.Ledger.{
  Ledger, SyncRow, ShardRow, ShardStatus, is_done, is_shard, shards_of, has_sync, upsert_sync,
  add_pending, upsert_shard, pending,
}

-- The shards of a version that are done.
abbrev pub done_of : String → List ShardRow → ℕ
done_of v shards = count_if (λ x. is_done x.status) (shards_of v shards)

abbrev pub named : String → List SyncRow → Bool
named v = any_of (λ s. s.feature_version ==ₛ v)

-- A row counts the shards of its version that are done.
abbrev pub Counts : List ShardRow → SyncRow → Type 0
Counts shards s = s.completed_shards ≡ done_of s.feature_version shards

-- Every row counts its shards, and every shard has a row of its version.
pub record IsCounted (l : Ledger) : Type 0 where
  pub counted : All (Counts l.shards) l.syncs
  pub owned : All (λ x. has_sync x.feature_version l ≡ true) l.shards

pub done_of-snoc :
    (w v : String) (i : ℕ) (ss : List ShardRow)
    → done_of w (
        ss
        ++ record {
          feature_version = v;
          shard_id = i;
          status = pending;
          rows_written = 0;
          attempt = 0;
        }
          ∷ [])
      ≡ done_of w ss
done_of-snoc w v i [] = elim (Bool-cases (v ==ₛ w)) [ inl e ↦ rw e refl | inr n ↦ rw n refl ]
done_of-snoc w v i (s ∷ ss) = ground (arith, done_of-snoc w v i ss)

-- New shards are pending, so none is done.
pub done_of-add_pending :
    (w v : String) (is : List ℕ) (ss : List ShardRow)
    → done_of w (add_pending v is ss) ≡ done_of w ss
done_of-add_pending w v [] ss = refl
done_of-add_pending w v (i ∷ is) ss = elim (Bool-cases (any_of (is_shard v i) ss)) [
  | inl e ↦ rw e (done_of-add_pending w v is ss)
  | inr n ↦ rw n (done_of-add_pending w v is _ ∙ done_of-snoc w v i ss)
]

-- Another version's shards are not touched.
pub done_of-upsert_shard :
    (w v : String) (i : ℕ) (status : ShardStatus) (rows : ℕ) (preserve : Bool) (ss : List ShardRow)
    → (v ==ₛ w) ≡ false
    → done_of w (upsert_shard v i status rows preserve ss) ≡ done_of w ss
done_of-upsert_shard w v i status rows preserve [] h = rw h refl
done_of-upsert_shard w v i status rows preserve (s ∷ ss) h = elim (Bool-cases (is_shard v i s)) [
  | inl e ↦ rw e (rw (elsewhere e) refl)
  | inr n ↦ rw n (ground (arith, done_of-upsert_shard w v i status rows preserve ss h))
]
  where
    elsewhere : is_shard v i s ≡ true → (s.feature_version ==ₛ w) ≡ false
    elsewhere e = ap (λ x. x ==ₛ w) ((text_eq_iff s.feature_version v).0 (first _ _ e)) ∙ h
      where
        first : (a b : Bool) → (a && b) ≡ true → a ≡ true
        first a b k = ground arith

pub named-upsert_sync :
    (w v : String) (t e : ℕ) (ss : List SyncRow)
    → named w ss ≡ true
    → named w (upsert_sync v t e ss) ≡ true
named-upsert_sync w v t e [] h = cc
named-upsert_sync w v t e (s ∷ ss) h = ground (arith, named-upsert_sync w v t e ss)

pub named-opened :
    (v : String) (t e : ℕ) (ss : List SyncRow) → named v (upsert_sync v t e ss) ≡ true
named-opened v t e [] = rw ((text_eq_iff v v).1 refl) refl
named-opened v t e (s ∷ ss) = ground (arith, named-opened v t e ss)

-- A version without a row has no shards.
pub none_done :
    (v : String) (l : List SyncRow) (ss : List ShardRow)
    → All (λ x. named x.feature_version l ≡ true) ss
    → named v l ≡ false
    → done_of v ss ≡ 0
none_done v l [] a h = refl
none_done v l (s ∷ ss) (e, a) h = elim (Bool-cases (s.feature_version ==ₛ v)) [
  | inl same ↦ absurd (cc (e, ap (λ x. named x l) ((text_eq_iff s.feature_version v).0 same), h))
  | inr n ↦ rw n (none_done v l ss a h)
]

pub upsert_sync-Counts :
    (v : String) (t e : ℕ) (shards : List ShardRow) (ss : List SyncRow)
    → All (Counts shards) ss
    → (named v ss ≡ false → done_of v shards ≡ 0)
    → All (Counts shards) (upsert_sync v t e ss)
upsert_sync-Counts v t e shards [] a z = (sym (z refl), tt)
upsert_sync-Counts v t e shards (s ∷ ss) (h, a) z = elim (Bool-cases (s.feature_version ==ₛ v)) [
  | inl same ↦ rw same (h, a)
  | inr n ↦ rw n (h, upsert_sync-Counts v t e shards ss a (λ k. z (rw n k)))
]

pub add_pending-owned :
    (l : List SyncRow) (v : String) (is : List ℕ) (ss : List ShardRow)
    → named v l ≡ true
    → All (λ x. named x.feature_version l ≡ true) ss
    → All (λ x. named x.feature_version l ≡ true) (add_pending v is ss)
add_pending-owned l v [] ss h a = a
add_pending-owned l v (i ∷ is) ss h a = elim (Bool-cases (any_of (is_shard v i) ss)) [
  | inl e ↦ rw e (add_pending-owned l v is ss h a)
  | inr n ↦ rw n (
      add_pending-owned l v is _ h
        (All-append (λ x. named x.feature_version l ≡ true) ss _ a (h, tt)))
]

pub upsert_shard-owned :
    (l : List SyncRow) (v : String) (i : ℕ) (status : ShardStatus) (rows : ℕ) (preserve : Bool)
    (ss : List ShardRow)
    → named v l ≡ true
    → All (λ x. named x.feature_version l ≡ true) ss
    → All (λ x. named x.feature_version l ≡ true) (upsert_shard v i status rows preserve ss)
upsert_shard-owned l v i status rows preserve [] h a = (h, tt)
upsert_shard-owned l v i status rows preserve (s ∷ ss) h (b, a) =
    elim (Bool-cases (is_shard v i s)) [
      | inl e ↦ rw e (b, a)
      | inr n ↦ rw n (b, upsert_shard-owned l v i status rows preserve ss h a)
    ]

-- A change of the rows that keeps their versions keeps which versions have a row.
pub named-map :
    (w : String) (f : SyncRow → SyncRow) (ss : List SyncRow)
    → ((s : SyncRow) → (f s).feature_version ≡ s.feature_version)
    → named w (map f ss) ≡ named w ss
named-map w f [] h = refl
named-map w f (s ∷ ss) h = rw (h s, named-map w f ss h) refl

-- A change of the rows that keeps what they count.
pub map-Counts :
    (shards others : List ShardRow) (f : SyncRow → SyncRow) (ss : List SyncRow)
    → ((s : SyncRow) → Counts shards s → Counts others (f s))
    → All (Counts shards) ss
    → All (Counts others) (map f ss)
map-Counts shards others f [] h a = tt
map-Counts shards others f (s ∷ ss) h (b, a) = (h s b, map-Counts shards others f ss h a)
