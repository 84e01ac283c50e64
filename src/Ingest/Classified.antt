-- ===== src/Ingest/Classified.antt =====
-- How `ingestEvent` classifies a record, and what it writes, where no call fails.
use shiplog_prototype.Prelude.{
  ℕ, String, false, Option, none, some, List, [], ◌∷◌, ◌++◌, ◌≡◌, ◌≢◌, inl, inr, refl, sym, ap,
  arith, any, ◌==◌, eq_iff, Bool-cases,
}
use mathlib.Core.List.{append-nil}
use shiplog_prototype.Models.{Event}
use shiplog_prototype.Schema.{NormalizedEvent}
use shiplog_prototype.Mongo.{IsFound, IsLatest}
use shiplog_prototype.World.{World, Database, Run, done, after_fault, later_faults, ◌>>=◌, catch}
use shiplog_prototype.World.Laws.{attempt_fine, query_fine}
use shiplog_prototype.Ingest.{
  IngestStatus, added, updated, unchanged, IngestResult, result, has_version, has_key, is_entity,
  event_row, find_key, find_version, version_exists, latest_version, insert_event, append_event,
  classify, ingest_unknown, ingest_parsed,
}
use shiplog_prototype.Ingest.Steps.{Inserted, insert_event-Inserted}

-- The latest stored version of the entity: by time, then by insertion.
pub record IsCurrent (tenant_id : String) (ev : NormalizedEvent) (e : Event) (es : List Event)
    : Type 0 where
  pub found : IsFound (is_entity tenant_id ev) e es
  pub latest : IsLatest (λ x. x.occurred_at) (λ x. x.id) (is_entity tenant_id ev) e es

module _ (db : Database) (tenant_id : String) (ev : NormalizedEvent) (key hash : String) where
  -- The status that the spine calls for: `added` for an entity without a stored version, `unchanged`
  -- for one whose current version has the same content hash, `updated` for any other.
  pub data Classifies (es : List Event) : IngestStatus → Type 0 where
    is_added : any (is_entity tenant_id ev) es ≡ false → Classifies es added
    is_updated :
        (e : Event) → IsCurrent tenant_id ev e es → e.content_hash ≢ hash → Classifies es updated
    is_unchanged :
        (e : Event) → IsCurrent tenant_id ev e es → e.content_hash ≡ hash → Classifies es unchanged

  -- The rows that a status stands for.
  abbrev pub rows_of : IngestStatus → ℕ → List Event
  rows_of added id = event_row id tenant_id ev key hash ∷ []
  rows_of updated id = event_row id tenant_id ev key hash ∷ []
  rows_of unchanged id = []

  -- A run that ends well with this status and these rows.
  pub Ends : World → IngestStatus → Run IngestResult → Type 0
  Ends w s r =
      (w' : World) × (r ≡ done (result s key) w') × (w'.events ≡ w.events ++ rows_of s w.next_id)

  -- The append of a key that is new.
  append_event_new :
      (s : IngestStatus) (w : World)
      → w.faults ≡ []
      → any (has_key key) w.events ≡ false
      → (w' : World) × (append_event db tenant_id ev key hash s w ≡ done (result s key) w')
        × (w'.events ≡ w.events ++ event_row w.next_id tenant_id ev key hash ∷ [])
  unfolding append_event Inserted
  append_event_new s w fine new =
      let op = insert_event db tenant_id ev key hash in
      elim (insert_event-Inserted db tenant_id ev key hash (after_fault w)) [
        | inl (_, known, _) ↦ cc
        | inr (inserted, _, grown) ↦
            ((op (after_fault w)).1, rw (attempt_fine op w fine, catch, inserted), grown)
      ]

  classify-Ends :
      (o : Option Event) (w : World)
      → w.faults ≡ []
      → any (has_key key) w.events ≡ false
      → (o ≡ none → any (is_entity tenant_id ev) w.events ≡ false)
      → ((e : Event) → o ≡ some e → IsCurrent tenant_id ev e w.events)
      → (s : IngestStatus) × Classifies w.events s
        × Ends w s (classify db tenant_id ev key hash o w)
  unfolding classify Ends
  classify-Ends none w fine new absent current =
      (added, is_added (absent refl), append_event_new added w fine new)
  classify-Ends (some e) w fine new absent current = elim (Bool-cases (e.content_hash == hash)) [
    | inl same ↦ (
      unchanged,
      is_unchanged e (current e refl) ((eq_iff e.content_hash hash).0 same),
      (w, rw same, sym (append-nil w.events)),
    )
    | inr other ↦ (
      updated,
      is_updated e (current e refl) (λ p. let h = (eq_iff e.content_hash hash).1 p in cc),
      rw other (append_event_new updated w fine new),
    )
  ]

  find_version-IsCurrent :
      (w : World) (e : Event)
      → find_version db tenant_id ev w ≡ some e
      → IsCurrent tenant_id ev e w.events
  find_version-IsCurrent w e h =
      let (found, latest) = db.events.find_latest-some _ _ (is_entity tenant_id ev) w.events e h in
      record { found = found; latest = latest }

  has_version-new :
      (es : List Event) → any (has_key key) es ≡ false → any (has_version tenant_id key) es ≡ false
  has_version-new [] h = refl
  has_version-new (e ∷ es) h = ground (arith, has_version-new es)

  -- Where no call fails and the key is new, a run returns the status that the spine calls for, and
  -- appends one row for `added` and `updated` and none for `unchanged`.
  pub ingest_parsed-Classifies :
      (w : World)
      → w.faults ≡ []
      → any (has_key key) w.events ≡ false
      → (s : IngestStatus) × Classifies w.events s
        × Ends w s (ingest_parsed db tenant_id ev key hash w)
  unfolding ingest_parsed version_exists ingest_unknown latest_version Ends
  ingest_parsed-Classifies w fine new =
      let w₁ = after_fault w in
      let fine₁ : w₁.faults ≡ [] = ap later_faults fine in
      rw
        (
          ◌>>=◌,
          query_fine (find_key db tenant_id key) w fine,
          db.events.exists_lem (has_version tenant_id key) w.events,
          has_version-new w.events new,
          query_fine (find_version db tenant_id ev) w₁ fine₁,
        )
        (classify-Ends (find_version db tenant_id ev w) (after_fault w₁) (ap later_faults fine₁) new
          (db.events.find_latest-none _ _ (is_entity tenant_id ev) w.events)
          (find_version-IsCurrent w))
