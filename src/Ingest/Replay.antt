-- ===== src/Ingest/Replay.antt =====
-- Replays: a version that is stored already is never stored again.
use shiplog_prototype.Prelude.{
  String, Bool, true, false, ◌||◌, Option, none, some, List, [], ◌∷◌, ◌++◌, ◌≡◌, ◌≢◌, inl, inr,
  refl, sym, ap, ◌∙◌, arith, any, any-append, length, length-append, ◌+◌, ◌==◌, eq_iff, Bool-cases,
  Option-cases,
}
use shiplog_prototype.Value.{Value}
use shiplog_prototype.Host.{Host}
use shiplog_prototype.Models.{Event}
use shiplog_prototype.Schema.{NormalizedEvent, parse_event}
use shiplog_prototype.World.{World, Database, done, after_fault, ◌>>=◌}
use shiplog_prototype.World.Laws.{query_fine}
use shiplog_prototype.Ingest.{
  IngestResult, result, unchanged, has_version, find_key, version_exists, ingest_unknown,
  require_tenant, event_key, event_hash, ingest_parsed, ingest_event,
}
use shiplog_prototype.Ingest.Returns.{Stored, ingest_parsed-Stored, ingest_parsed-key}

or_true : (a b : Bool) → ((a || (true || false)) || b) ≡ true
or_true a b = ground arith

module _ (db : Database) (tenant_id : String) (ev : NormalizedEvent) (key hash : String) where
  -- Where no call fails and the version is stored, nothing is written.
  pub ingest_parsed-known :
      (w : World)
      → w.faults ≡ []
      → any (has_version tenant_id key) w.events ≡ true
      → ingest_parsed db tenant_id ev key hash w ≡ done (result unchanged key) (after_fault w)
  unfolding ingest_parsed version_exists ingest_unknown
  ingest_parsed-known w fine known = rw (
    query_fine (find_key db tenant_id key) w fine,
    ◌>>=◌,
    db.events.exists_lem (has_version tenant_id key) w.events,
    known,
  )

  -- A stored row is found by the filter of the first call, also when rows were added since.
  Stored-found :
      (w w' : World) (more : List Event)
      → Stored tenant_id key w w'
      → any (has_version tenant_id key) (w'.events ++ more) ≡ true
  unfolding Stored
  Stored-found w w' more (row, is_key, is_tenant, grown) =
      let p = has_version tenant_id key in
      let hit : p row ≡ true =
        ground (arith, eq_iff row.tenant_id tenant_id, eq_iff row.idempotency_key key) in
      rw (grown, any-append p (w.events ++ row ∷ []) more, any-append p w.events (row ∷ []), hit)
        (or_true _ _)

module _ (host : Host) (db : Database) where
  -- What a run of `ingestEvent` that returns has computed on its way.
  pub record Accepted (tenant : Option String) (input : Value) : Type 0 where
    pub tenant_id : String
    pub event : NormalizedEvent
    pub hash : String
    pub is_tenant : tenant ≡ some tenant_id
    pub not_empty : (tenant_id == "") ≡ false
    pub parsed : parse_event host input ≡ some event
    pub hashed : event_hash host event ≡ some hash

  accepted :
      (tenant : Option String) (input : Value) (w w' : World) (r : IngestResult)
      → ingest_event host db tenant input w ≡ done r w'
      → Accepted tenant input
  unfolding ingest_event require_tenant
  accepted none input w w' r h = cc
  accepted (some t) input w w' r h = elim (Bool-cases (t == "")) [
    | inl empty ↦ let thrown = (rw (empty, ◌>>=◌) at h) in cc
    | inr given ↦ elim (Option-cases (parse_event host input)) [
      | inl bad ↦ let thrown = (rw (given, bad, ◌>>=◌) at h) in cc
      | inr (ev, parsed) ↦ elim (Option-cases (event_hash host ev)) [
        | inl bad ↦ let thrown = (rw (given, parsed, bad, ◌>>=◌) at h) in cc
        | inr (hash, hashed) ↦ record {
          tenant_id = t;
          event = ev;
          hash = hash;
          is_tenant = refl;
          not_empty = given;
          parsed = parsed;
          hashed = hashed;
        }
      ]
    ]
  ]

  pub Accepted-run :
      (tenant : Option String) (input : Value) (a : Accepted tenant input) (w : World)
      → ingest_event host db tenant input w
        ≡ ingest_parsed db a.tenant_id a.event (event_key host a.tenant_id a.event) a.hash w
  unfolding ingest_event require_tenant
  Accepted-run tenant input a w = rw (a.is_tenant, a.not_empty, a.parsed, a.hashed)

  -- Once `ingestEvent` has reported a record as added or updated, every later run on the same record
  -- in which no call fails reports it as unchanged and writes nothing, whatever rows were added in
  -- the meantime.
  pub ingest_event_again :
      (tenant : Option String) (input : Value) (w w' later : World) (more : List Event)
      (r : IngestResult)
      → ingest_event host db tenant input w ≡ done r w'
      → r.status ≢ unchanged
      → later.events ≡ w'.events ++ more
      → later.faults ≡ []
      → ingest_event host db tenant input later
        ≡ done (result unchanged r.idempotency_key) (after_fault later)
  ingest_event_again tenant input w w' later more r h n kept fine =
      let a = accepted tenant input w w' r h in
      let key = event_key host a.tenant_id a.event in
      let ran = sym (Accepted-run tenant input a w) ∙ h in
      let stored = ingest_parsed-Stored db a.tenant_id a.event key a.hash w w' r ran n in
      let found = Stored-found db a.tenant_id a.event key a.hash w w' more stored in
      rw (ingest_parsed-key db a.tenant_id a.event key a.hash w w' r ran) (
        Accepted-run tenant input a later
        ∙ ingest_parsed-known db a.tenant_id a.event key a.hash later fine (rw kept found))

  -- A record that is reported as added or updated makes the spine one row longer.
  pub ingest_event-length :
      (tenant : Option String) (input : Value) (w w' : World) (r : IngestResult)
      → ingest_event host db tenant input w ≡ done r w'
      → r.status ≢ unchanged
      → length w'.events ≡ length w.events + 1
  unfolding Stored
  ingest_event-length tenant input w w' r h n =
      let a = accepted tenant input w w' r h in
      let key = event_key host a.tenant_id a.event in
      let ran = sym (Accepted-run tenant input a w) ∙ h in
      let (row, _, _, grown) =
        ingest_parsed-Stored db a.tenant_id a.event key a.hash w w' r ran n in
      ap length grown ∙ length-append w.events (row ∷ [])
