-- ===== src/Ingest/Steps.antt =====
-- What the single calls of `ingestEvent` do to the spine.
use shiplog_prototype.Prelude.{
  ℕ, String, Bool, true, false, Option, none, some, List, [], ◌∷◌, ◌++◌, ◌≡◌, ◌⊎◌, inl, inr, refl,
  sym, ap, ◌∙◌, any, Bool-cases, ◌==◌,
}
use shiplog_prototype.Models.{Event}
use shiplog_prototype.Schema.{NormalizedEvent}
use shiplog_prototype.Mongo.{IsUpdate}
use shiplog_prototype.World.{World, Database, final, after_fault}
use shiplog_prototype.World.Laws.{attempt-cases, query-cases}
use shiplog_prototype.Errors.{Thrown}
use shiplog_prototype.Ingest.{
  IngestStatus, has_key, added, updated, event_row, insert_event, append_event, append_failed,
  is_duplicate_key, classify, ingest_unknown, ingest_parsed, find_version, find_key, latest_version,
  version_exists,
}

-- To set nothing on a document changes nothing.
IsUpdate-unchanged :
    {Row : Type 0} (p : Row → Bool) (rows rows' : List Row)
    → IsUpdate p (λ e. e) rows rows'
    → rows' ≡ rows
IsUpdate-unchanged p rows rows' u = u.after ∙ sym u.before

module _ (tenant_id : String) (ev : NormalizedEvent) (key hash : String) where
  -- The spine is as it was, or holds one row more, of this tenant and with this key, which was new:
  -- the event's row under some id.
  unfoldable pub AtMostOneRow : World → World → Type 0
  AtMostOneRow w w' =
      (w'.events ≡ w.events)
      ⊎ ((row : Event) × (row.idempotency_key ≡ key)
          × (row.tenant_id ≡ tenant_id)
          × (any (has_key key) w.events ≡ false)
          × (w'.events ≡ w.events ++ row ∷ [])
          × ((n : ℕ) × (row ≡ event_row n tenant_id ev key hash)))

module _ (db : Database) (tenant_id : String) (ev : NormalizedEvent) (key hash : String) where
  -- How the upsert ends: it inserts the row where the key is new, and writes nothing where it is not.
  unfoldable pub Inserted : World → Bool × World → Type 0
  Inserted w (inserted, w') =
      ((inserted ≡ false) × (any (has_key key) w.events ≡ true) × (w'.events ≡ w.events))
      ⊎ ((inserted ≡ true)
          × (any (has_key key) w.events ≡ false)
          × (w'.events ≡ w.events ++ event_row w.next_id tenant_id ev key hash ∷ []))

  pub insert_event-Inserted : (w : World) → Inserted w (insert_event db tenant_id ev key hash w)
  unfolding Inserted insert_event
  insert_event-Inserted w = elim (Bool-cases (any (has_key key) w.events)) [
    | inl known ↦
        let (u, same) =
          db.events.upsert-update (has_key key) (λ e. e) (event_row w.next_id tenant_id ev key hash)
            w.events known in
        inl (same, known, IsUpdate-unchanged _ _ _ u)
    | inr new ↦
        let e =
          db.events.upsert-insert (has_key key) (λ e. e) (event_row w.next_id tenant_id ev key hash)
            w.events new in
        inr (ap (λ r. r.1) e, new, ap (λ r. r.0) e)
  ]

  pub Inserted-AtMostOneRow :
      (w : World) (r : Bool × World) → Inserted w r → AtMostOneRow tenant_id ev key hash w r.1
  unfolding Inserted AtMostOneRow
  Inserted-AtMostOneRow w r (inl (_, _, same)) = inl same
  Inserted-AtMostOneRow w r (inr (_, new, grown)) =
      inr (_, refl, refl, new, grown, (w.next_id, refl))

  same-AtMostOneRow :
      (w w' : World) → w'.events ≡ w.events → AtMostOneRow tenant_id ev key hash w w'
  unfolding AtMostOneRow
  same-AtMostOneRow w w' e = inl e

  -- The handler of the append leaves the world as it finds it.
  final-recover : (e : Thrown) (w : World) → final (append_failed key e w) ≡ w
  unfolding append_failed
  final-recover e w = elim (Bool-cases (is_duplicate_key e.code)) [
    | inl lost_race ↦ rw lost_race
    | inr other ↦ rw other
  ]

  pub append_event-AtMostOneRow :
      (status : IngestStatus) (w : World)
      → AtMostOneRow tenant_id ev key hash w
          (final (append_event db tenant_id ev key hash status w))
  unfolding append_event AtMostOneRow
  append_event-AtMostOneRow status w =
      let op = insert_event db tenant_id ev key hash in
      let written =
        Inserted-AtMostOneRow (after_fault w) _ (insert_event-Inserted (after_fault w)) in
      elim (attempt-cases op w) [
        | inl e ↦ rw (e, final) written
        | inr (inl (err, e)) ↦
            rw (e, final, final-recover err (after_fault w))
              (same-AtMostOneRow w (after_fault w) refl)
        | inr (inr (err, e)) ↦ rw (e, final, final-recover err (op (after_fault w)).1) written
      ]

  pub classify-AtMostOneRow :
      (o : Option Event) (w : World)
      → AtMostOneRow tenant_id ev key hash w (final (classify db tenant_id ev key hash o w))
  unfolding classify
  classify-AtMostOneRow none w = append_event-AtMostOneRow added w
  classify-AtMostOneRow (some e) w = elim (Bool-cases (e.content_hash == hash)) [
    | inl same ↦ rw same (same-AtMostOneRow w w refl)
    | inr other ↦ rw other (append_event-AtMostOneRow updated w)
  ]

  ingest_unknown-AtMostOneRow :
      (known : Bool) (w : World)
      → AtMostOneRow tenant_id ev key hash w
          (final (ingest_unknown db tenant_id ev key hash known w))
  unfolding ingest_unknown latest_version AtMostOneRow
  ingest_unknown-AtMostOneRow true w = same-AtMostOneRow w w refl
  ingest_unknown-AtMostOneRow false w = elim (query-cases (find_version db tenant_id ev) w) [
    | inl e ↦ rw (e, final) (classify-AtMostOneRow (find_version db tenant_id ev w) (after_fault w))
    | inr (_, e) ↦ rw (e, final) (same-AtMostOneRow w (after_fault w) refl)
  ]

  pub ingest_parsed-AtMostOneRow :
      (w : World)
      → AtMostOneRow tenant_id ev key hash w (final (ingest_parsed db tenant_id ev key hash w))
  unfolding ingest_parsed version_exists AtMostOneRow
  ingest_parsed-AtMostOneRow w = elim (query-cases (find_key db tenant_id key) w) [
    | inl e ↦
        rw (e, final) (ingest_unknown-AtMostOneRow (find_key db tenant_id key w) (after_fault w))
    | inr (_, e) ↦ rw (e, final) (same-AtMostOneRow w (after_fault w) refl)
  ]
