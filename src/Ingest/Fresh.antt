-- ===== src/Ingest/Fresh.antt =====
-- The first event of an entity, where no call fails: what exactly a run of `ingestEvent` leaves.
use shiplog_prototype.Prelude.{
  suc, String, false, none, [], ◌∷◌, ◌++◌, ◌≡◌, inl, inr, refl, ap, any, any-narrower, arith,
  Option-cases, ◌==◌,
}
use shiplog_prototype.Schema.{NormalizedEvent}
use shiplog_prototype.Mongo.{IsFound-any}
use shiplog_prototype.World.{World, Database, done, after_fault, later_faults, ◌>>=◌, catch}
use shiplog_prototype.World.Laws.{query_fine, attempt_fine}
use shiplog_prototype.Ingest.{
  result, added, has_key, has_version, is_entity, event_row, find_key, find_version, version_exists,
  latest_version, insert_event, append_event, classify, ingest_unknown, ingest_parsed,
}

module _ (db : Database) (tenant_id : String) (ev : NormalizedEvent) (key hash : String) where
  -- The world with the first row of the entity.
  abbrev pub with_row : World → World
  with_row w = record w {
    events = w.events ++ event_row w.next_id tenant_id ev key hash ∷ [];
    next_id = suc w.next_id;
    faults = later_faults (later_faults (later_faults w.faults));
  }

  no_version :
      (w : World)
      → any (is_entity tenant_id ev) w.events ≡ false
      → find_version db tenant_id ev w ≡ none
  no_version w absent = elim (Option-cases (find_version db tenant_id ev w)) [
    | inl e ↦ e
    | inr (x, e) ↦
        let there =
          IsFound-any (is_entity tenant_id ev) x w.events
            (db.events.find_latest-some _ _ _ w.events x e).0 in
        cc
  ]

  append_event_first :
      (w : World)
      → w.faults ≡ []
      → any (has_key key) w.events ≡ false
      → append_event db tenant_id ev key hash added w
        ≡ done (result added key) (record w {
          events = w.events ++ event_row w.next_id tenant_id ev key hash ∷ [];
          next_id = suc w.next_id;
          faults = later_faults w.faults;
        })
  unfolding append_event insert_event
  append_event_first w fine new =
      rw
        (
          attempt_fine (insert_event db tenant_id ev key hash) w fine,
          catch,
          ◌>>=◌,
          db.events.upsert-insert (has_key key) (λ e. e) (event_row w.next_id tenant_id ev key hash)
              w.events new,
        )
        refl

  pub ingest_parsed_first :
      (w : World)
      → w.faults ≡ []
      → any (λ e. e.tenant_id == tenant_id) w.events ≡ false
      → any (has_key key) w.events ≡ false
      → ingest_parsed db tenant_id ev key hash w ≡ done (result added key) (with_row w)
  unfolding ingest_parsed version_exists ingest_unknown latest_version classify
  ingest_parsed_first w fine none_of new =
      let unknown : any (has_version tenant_id key) w.events ≡ false =
        any-narrower _ (has_key key) w.events (λ x h. ground arith) new in
      let absent : any (is_entity tenant_id ev) w.events ≡ false =
        any-narrower _ (λ e. e.tenant_id == tenant_id) w.events (λ x h. ground arith) none_of in
      let fine' = ap later_faults fine in
      rw
        (
          query_fine (find_key db tenant_id key) w fine,
          ◌>>=◌,
          db.events.exists_lem (has_version tenant_id key) w.events,
          unknown,
          query_fine (find_version db tenant_id ev) (after_fault w) fine',
          no_version w absent,
        )
        (append_event_first (after_fault (after_fault w)) (ap later_faults fine') new)
