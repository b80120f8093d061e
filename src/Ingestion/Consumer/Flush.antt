-- ===== src/Ingestion/Consumer/Flush.antt =====
-- stream_consumer.py: `_flush` lands a batch, applies it, and commits the offsets last.
use lzd.Common.{ℕ, ◌+◌, ◌≡◌, refl, sym, ap, ◌⊎◌, inl, inr, List, [], ◌∷◌}
use lzd.Common.Outcome.{Outcome, ok, err, Error}
use lzd.Features.Overlay.{Redis}
use lzd.Ingestion.Consumer.{Payload, Tally, Lateness, Db, update_realtime}

module _ (r : Redis) (Lake : Type 0) where
  -- What the consumer works on, beside Kafka: `committed` counts the commits of its offsets.
  pub record Consumer : Type 0 where
    pub buffer : List Payload
    pub lake : Lake
    pub db : Db r
    pub committed : ℕ

  abbrev pub no_rows : Tally
  no_rows = record {
    applied = 0;
    deduplicated = 0;
    late_accepted = 0;
    late_dropped = 0;
    future_dropped = 0;
  }

  -- `finally: self.buffer = []`
  abbrev pub emptied : Consumer → Consumer
  emptied c = record c { buffer = [] }

  abbrev pub after_commit : Outcome (Unit {0}) → Consumer → Outcome (Unit {0}) × Consumer
  after_commit (ok _) c = (ok tt, emptied (record c { committed = c.committed + 1 }))
  after_commit (err e) c = (err e, emptied c)

  abbrev pub after_update :
      Outcome (Unit {0}) → Outcome (Db r × Tally) → Consumer → Outcome (Unit {0}) × Consumer
  after_update commit (ok (db, _)) c = after_commit commit (record c { db = db })
  after_update commit (err e) c = (err e, emptied c)

  abbrev pub after_landing :
      Lateness
      → ℕ
      → Outcome (Unit {0})
      → Outcome (Unit {0}) × Lake
      → Consumer
      → Outcome (Unit {0}) × Consumer
  unfolding update_realtime
  after_landing cfg now commit (ok _, lake) c =
      after_update commit (update_realtime r cfg now c.buffer (c.db, no_rows))
        (record c { lake = lake })
  after_landing cfg now commit (err e, lake) c = (err e, emptied (record c { lake = lake }))

  -- `_flush`, without the metrics that it sets after the commit; `land` is `_write_parquet`, and
  -- `commit` is what the call of Kafka gives.
  unfoldable pub flush :
      (List Payload → Lake → Outcome (Unit {0}) × Lake)
      → Outcome (Unit {0})
      → Lateness
      → ℕ
      → Consumer
      → Outcome (Unit {0}) × Consumer
  unfolding after_landing
  flush land commit cfg now c = elim c.buffer [
    | [] ↦ (ok tt, c)
    | _ ∷ _ ↦ after_landing cfg now commit (land c.buffer c.lake) c
  ]

  -- What a flush may have done by its end.
  pub record Flushed (land : List Payload → Lake → Outcome (Unit {0}) × Lake) (cfg : Lateness)
      (now : ℕ) (c : Consumer) (out : Outcome (Unit {0}) × Consumer) : Type 0 where
    pub cleared : out.1.buffer ≡ []
    pub order :
        (out.1.committed ≡ c.committed)
        ⊎ ((s : Db r × Tally) × ((land c.buffer c.lake).0 ≡ ok tt)
            × (out.1.lake ≡ (land c.buffer c.lake).1)
            × (update_realtime r cfg now c.buffer (c.db, no_rows) ≡ ok s)
            × (out.1.db ≡ s.0)
            × (out.1.committed ≡ c.committed + 1)
            × (out.0 ≡ ok tt))

  untouched :
      (land : List Payload → Lake → Outcome (Unit {0}) × Lake) (cfg : Lateness) (now : ℕ)
      (c : Consumer) (e : Error) (lake : Lake) (db : Db r)
      → Flushed land cfg now c
          (err e, record { buffer = []; lake = lake; db = db; committed = c.committed })
  untouched land cfg now c e lake db = record { cleared = refl; order = inl refl }

  flush_landed :
      (land : List Payload → Lake → Outcome (Unit {0}) × Lake) (commit : Outcome (Unit {0}))
      (cfg : Lateness) (now : ℕ) (c : Consumer) (lake : Lake)
      → land c.buffer c.lake ≡ (ok tt, lake)
      → (u : Outcome (Db r × Tally)) → update_realtime r cfg now c.buffer (c.db, no_rows) ≡ u
      → Flushed land cfg now c (after_update commit u (record c { lake = lake }))
  flush_landed land commit cfg now c lake l (err e) q = untouched land cfg now c e lake c.db
  flush_landed land (err e) cfg now c lake l (ok (db, t)) q = untouched land cfg now c e lake db
  flush_landed land (ok _) cfg now c lake l (ok (db, t)) q = record {
    cleared = refl;
    order = inr ((db, t), ap (λ x. x.0) l, sym (ap (λ x. x.1) l), q, refl, refl, refl);
  }

  flush_after :
      (land : List Payload → Lake → Outcome (Unit {0}) × Lake) (commit : Outcome (Unit {0}))
      (cfg : Lateness) (now : ℕ) (c : Consumer) (l : Outcome (Unit {0}) × Lake)
      → land c.buffer c.lake ≡ l
      → Flushed land cfg now c (after_landing cfg now commit l c)
  unfolding after_landing
  flush_after land commit cfg now c (err e, lake) q = untouched land cfg now c e lake c.db
  flush_after land commit cfg now c (ok _, lake) q =
      flush_landed land commit cfg now c lake q (update_realtime r cfg now c.buffer (c.db, no_rows))
        refl

  -- However a flush ends, the buffer is empty; and it commits the offsets only in a run in which
  -- the batch was landed and then applied, both with success, whose results it leaves in place.
  pub flush-commits_last :
      (land : List Payload → Lake → Outcome (Unit {0}) × Lake) (commit : Outcome (Unit {0}))
      (cfg : Lateness) (now : ℕ) (c : Consumer)
      → Flushed land cfg now c (flush land commit cfg now c)
  unfolding flush
  flush-commits_last land commit cfg now c = by_buffer c.buffer refl
    where
      by_buffer :
          (rows : List Payload)
          → c.buffer ≡ rows
          → Flushed land cfg now c (elim rows [
            | [] ↦ (ok tt, c)
            | _ ∷ _ ↦ after_landing cfg now commit (land c.buffer c.lake) c
          ])
      by_buffer [] q = record { cleared = q; order = inl refl }
      by_buffer (p ∷ rows) q = flush_after land commit cfg now c (land c.buffer c.lake) refl
