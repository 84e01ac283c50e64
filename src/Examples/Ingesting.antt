-- ===== src/Examples/Ingesting.antt =====
-- `ingestEvent` and a batch at concrete inputs.
use mathlib.Core.List.{append-nil}
use shiplog_prototype.Prelude.{◌+◌, ◌≤◌, some, [], ◌∷◌, ◌++◌, ◌≡◌, ◌≢◌, refl, sym, length}
use shiplog_prototype.Value.{get}
use shiplog_prototype.Hash.{content_hash, idempotency_key}
use shiplog_prototype.Schema.{parse_event, new_date}
use shiplog_prototype.Mongo.Memory.{memory}
use shiplog_prototype.World.{World, done, final, after_fault, query, ok}
use shiplog_prototype.Ingest.{
  IngestStatus, added, unchanged, result, ingest_parsed, ingest_event, ingest_nango_records,
  RunCounts, require_tenant, version_exists, ingest_unknown, latest_version, classify, append_event,
  insert_event, semantic_content, type_text,
}
use shiplog_prototype.Ingest.Replay.{ingest_event_again}
use shiplog_prototype.Ingest.Spine.{Extends, ingest_event-Extends}
use shiplog_prototype.Ingest.Classified.{Classifies, Ends, ingest_parsed-Classifies}
use shiplog_prototype.Ingest.Batch.{total, written, ingest_nango_records-Counts}
use shiplog_prototype.Examples.{
  test_host, test_db, empty_world, issue_input, issue_event, issue_key,
}

-- The spine after the issue was added.
abbrev issue_world : World
issue_world = final (ingest_event test_host test_db (some "t") issue_input empty_world)

issue_run :
    ingest_event test_host test_db (some "t") issue_input empty_world
    ≡ done (result added issue_key) issue_world
unfolding ingest_event require_tenant ingest_parsed version_exists ingest_unknown latest_version
    classify append_event insert_event semantic_content type_text parse_event get new_date
    content_hash query memory idempotency_key
issue_run = refl

added_changes : added ≢ unchanged
added_changes = λ e. cc

same_spine : issue_world.events ≡ issue_world.events ++ []
same_spine = sym (append-nil issue_world.events)

fine_world : issue_world.faults ≡ []
unfolding ingest_event require_tenant ingest_parsed version_exists ingest_unknown latest_version
    classify append_event insert_event semantic_content type_text parse_event get new_date
    content_hash query memory idempotency_key
fine_world = refl

ingest_event_again_example :
    ingest_event test_host test_db (some "t") issue_input issue_world
    ≡ done (result unchanged issue_key) (after_fault issue_world)
ingest_event_again_example =
    ingest_event_again test_host test_db (some "t") issue_input empty_world issue_world issue_world
      [] (result added issue_key) issue_run added_changes same_spine fine_world

ingest_event-Extends_example : Extends (some "t") empty_world issue_world
ingest_event-Extends_example =
    ingest_event-Extends test_host test_db (some "t") issue_input empty_world

ingest_parsed-Classifies_example :
    (s : IngestStatus) × Classifies test_db "t" issue_event issue_key "h" [] s
    × Ends test_db "t" issue_event issue_key "h" empty_world s
        (ingest_parsed test_db "t" issue_event issue_key "h" empty_world)
ingest_parsed-Classifies_example =
    ingest_parsed-Classifies test_db "t" issue_event issue_key "h" empty_world refl refl

ingest_nango_records-Counts_example :
    (c : RunCounts) × (w' : World) × (ingest_nango_records test_host test_db ok
        (some "t")
        (issue_input ∷ issue_input ∷ [])
        empty_world
      ≡ done c w')
    × (total c ≡ 2)
    × (c.deleted ≡ 0)
    × (written c + 0 ≤ length w'.events)
    × Extends (some "t") empty_world w'
ingest_nango_records-Counts_example =
    ingest_nango_records-Counts test_host test_db ok (some "t") (issue_input ∷ issue_input ∷ [])
      empty_world
