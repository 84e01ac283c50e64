-- ===== src/Ingest/Returns.antt =====
-- What a run of `ingestEvent` that returns has done, by what it returns.
use shiplog_prototype.Prelude.{
  ◌≢◌, String, Bool, true, false, Option, none, some, [], ◌∷◌, ◌++◌, ◌≡◌, inl, inr, refl, arith,
  Bool-cases, if◌then◌else◌, ◌==◌,
}
use shiplog_prototype.Models.{Event}
use shiplog_prototype.Schema.{NormalizedEvent}
use shiplog_prototype.World.{World, Database, done, catch, ◌>>=◌, after_fault}
use shiplog_prototype.World.Laws.{attempt-cases, query-cases}
use shiplog_prototype.Errors.{Thrown}
use shiplog_prototype.Ingest.{
  IngestStatus, IngestResult, result, unchanged, added, updated, event_row, insert_event,
  append_event, append_failed, classify, ingest_unknown, ingest_parsed, find_version, find_key,
  latest_version, version_exists,
}
use shiplog_prototype.Ingest.Steps.{Inserted, insert_event-Inserted}

-- The spine has one row more, of this tenant and with this key.
module _ (tenant_id key : String) where
  unfoldable pub Stored : World → World → Type 0
  Stored w w' =
      (row : Event) × (row.idempotency_key ≡ key)
      × (row.tenant_id ≡ tenant_id)
      × (w'.events ≡ w.events ++ row ∷ [])

module _ (db : Database) (tenant_id : String) (ev : NormalizedEvent) (key hash : String) where
  append_failed-unchanged :
      (e : Thrown) (w w' : World) (r : IngestResult)
      → append_failed key e w ≡ done r w'
      → r.status ≡ unchanged
  unfolding append_failed
  append_failed-unchanged e w w' r h = ground arith

  append_written-Stored :
      (status : IngestStatus) (w w' : World) (r : IngestResult) (o : Bool × World)
      → Inserted db tenant_id ev key hash (after_fault w) o
      → done (if o.0 then result status key else result unchanged key) o.1 ≡ done r w'
      → r.status ≢ unchanged
      → Stored tenant_id key w w'
  unfolding Inserted Stored
  append_written-Stored status w w' r (inserted, v) (inl (not_inserted, _, _)) h n =
      absurd (n (ground arith))
  append_written-Stored status w w' r (inserted, v) (inr (is_inserted, _, grown)) h n =
      (event_row w.next_id tenant_id ev key hash, refl, refl, ground arith)

  append_event-Stored :
      (status : IngestStatus) (w w' : World) (r : IngestResult)
      → append_event db tenant_id ev key hash status w ≡ done r w'
      → r.status ≢ unchanged
      → Stored tenant_id key w w'
  unfolding append_event
  append_event-Stored status w w' r h n =
      let op = insert_event db tenant_id ev key hash in
      elim (attempt-cases op w) [
        | inl e ↦
            append_written-Stored status w w' r (op (after_fault w))
              (insert_event-Inserted db tenant_id ev key hash (after_fault w)) (rw (e, catch) at h)
              n
        | inr (inl (err, e)) ↦ absurd (n (append_failed-unchanged err _ w' r (rw (e, catch) at h)))
        | inr (inr (err, e)) ↦ absurd (n (append_failed-unchanged err _ w' r (rw (e, catch) at h)))
      ]

  classify-Stored :
      (o : Option Event) (w w' : World) (r : IngestResult)
      → classify db tenant_id ev key hash o w ≡ done r w'
      → r.status ≢ unchanged
      → Stored tenant_id key w w'
  unfolding classify
  classify-Stored none w w' r h n = append_event-Stored added w w' r h n
  classify-Stored (some e) w w' r h n = elim (Bool-cases (e.content_hash == hash)) [
    | inl same ↦ absurd (n (let h' = (rw same at h) in ground arith))
    | inr other ↦ append_event-Stored updated w w' r (rw other at h) n
  ]

  ingest_unknown-Stored :
      (known : Bool) (w w' : World) (r : IngestResult)
      → ingest_unknown db tenant_id ev key hash known w ≡ done r w'
      → r.status ≢ unchanged
      → Stored tenant_id key w w'
  unfolding ingest_unknown latest_version Stored
  ingest_unknown-Stored true w w' r h n = absurd (n (ground arith))
  ingest_unknown-Stored false w w' r h n = elim (query-cases (find_version db tenant_id ev) w) [
    | inl e ↦
        classify-Stored (find_version db tenant_id ev w) (after_fault w) w' r (rw (e, ◌>>=◌) at h) n
    | inr (_, e) ↦ let thrown = (rw (e, ◌>>=◌) at h) in cc
  ]

  -- A run that reports a row as added or updated has stored it.
  pub ingest_parsed-Stored :
      (w w' : World) (r : IngestResult)
      → ingest_parsed db tenant_id ev key hash w ≡ done r w'
      → r.status ≢ unchanged
      → Stored tenant_id key w w'
  unfolding ingest_parsed version_exists Stored
  ingest_parsed-Stored w w' r h n = elim (query-cases (find_key db tenant_id key) w) [
    | inl e ↦
        ingest_unknown-Stored (find_key db tenant_id key w) (after_fault w) w' r
          (rw (e, ◌>>=◌) at h) n
    | inr (_, e) ↦ let thrown = (rw (e, ◌>>=◌) at h) in cc
  ]

  -- Whatever a run returns, it names the key that it was run with.
  append_failed-key :
      (e : Thrown) (w w' : World) (r : IngestResult)
      → append_failed key e w ≡ done r w'
      → r.idempotency_key ≡ key
  unfolding append_failed
  append_failed-key e w w' r h = ground arith

  append_event-key :
      (status : IngestStatus) (w w' : World) (r : IngestResult)
      → append_event db tenant_id ev key hash status w ≡ done r w'
      → r.idempotency_key ≡ key
  unfolding append_event
  append_event-key status w w' r h =
      let op = insert_event db tenant_id ev key hash in
      elim (attempt-cases op w) [
        | inl e ↦ let returned = (rw (e, catch) at h) in ground arith
        | inr (inl (err, e)) ↦ append_failed-key err _ w' r (rw (e, catch) at h)
        | inr (inr (err, e)) ↦ append_failed-key err _ w' r (rw (e, catch) at h)
      ]

  classify-key :
      (o : Option Event) (w w' : World) (r : IngestResult)
      → classify db tenant_id ev key hash o w ≡ done r w'
      → r.idempotency_key ≡ key
  unfolding classify
  classify-key none w w' r h = append_event-key added w w' r h
  classify-key (some e) w w' r h = elim (Bool-cases (e.content_hash == hash)) [
    | inl same ↦ let returned = (rw same at h) in ground arith
    | inr other ↦ append_event-key updated w w' r (rw other at h)
  ]

  ingest_unknown-key :
      (known : Bool) (w w' : World) (r : IngestResult)
      → ingest_unknown db tenant_id ev key hash known w ≡ done r w'
      → r.idempotency_key ≡ key
  unfolding ingest_unknown latest_version
  ingest_unknown-key true w w' r h = ground arith
  ingest_unknown-key false w w' r h = elim (query-cases (find_version db tenant_id ev) w) [
    | inl e ↦
        classify-key (find_version db tenant_id ev w) (after_fault w) w' r (rw (e, ◌>>=◌) at h)
    | inr (_, e) ↦ let thrown = (rw (e, ◌>>=◌) at h) in cc
  ]

  pub ingest_parsed-key :
      (w w' : World) (r : IngestResult)
      → ingest_parsed db tenant_id ev key hash w ≡ done r w'
      → r.idempotency_key ≡ key
  unfolding ingest_parsed version_exists
  ingest_parsed-key w w' r h = elim (query-cases (find_key db tenant_id key) w) [
    | inl e ↦
        ingest_unknown-key (find_key db tenant_id key w) (after_fault w) w' r (rw (e, ◌>>=◌) at h)
    | inr (_, e) ↦ let thrown = (rw (e, ◌>>=◌) at h) in cc
  ]
