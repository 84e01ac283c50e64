-- ===== src/Examples/Demonstrating.antt =====
-- The demonstration of an outage at a concrete state.
use shiplog_prototype.Prelude.{String, false, some, [], ◌∷◌, ◌≡◌, refl, ◌==◌}
use shiplog_prototype.Text.{decimal, first_line, join, le_text}
use shiplog_prototype.Text.{trim}
use shiplog_prototype.Value.{Value, str, date, get, js_string}
use shiplog_prototype.Models.{Event, commit}
use shiplog_prototype.Schema.{NormalizedEvent, parse_event, new_date, parse_version}
use shiplog_prototype.Normalize.{normalize_github, event_input}
use shiplog_prototype.World.{World, done, ok}
use shiplog_prototype.Ingest.{event_hash, semantic_content, type_text}
use shiplog_prototype.Hash.{content_hash}
use shiplog_prototype.Scripts.Injection.{find_commit}
use shiplog_prototype.Scripts.ReplayDemo.{demo_record, replay_demo}
use shiplog_prototype.Scripts.ReplayDemo.Work.{IsTaken}
use shiplog_prototype.Scripts.ReplayDemo.Exits.{replay_demo_passes}
use shiplog_prototype.Examples.{or_empty, test_host, test_db, empty_world}
use shiplog_prototype.Examples.Living.{bull, half}

tenant_named : (decimal 0 == "") ≡ false
unfolding decimal
tenant_named = refl

abbrev commit_input : Value
commit_input =
    event_input "commit" "commit:9a1f3c2" (str "arav") (str "Guard Safari date parsing")
      (str "https://github.com/acme/storefront/commit/9a1f3c2") (date (some 5)) (str "9a1f3c2")

abbrev commit_event : NormalizedEvent
commit_event = record {
  source = "github";
  type = commit;
  external_id = "commit:9a1f3c2";
  actor = "arav";
  title = "Guard Safari date parsing";
  url = "https://github.com/acme/storefront/commit/9a1f3c2";
  occurred_at = 5;
  version = "9a1f3c2";
}

commit_normal : normalize_github test_host demo_record ≡ ok commit_input
unfolding normalize_github find_commit get js_string first_line new_date
commit_normal = refl

commit_parsed : parse_event test_host commit_input ≡ some commit_event
unfolding parse_event get new_date parse_version trim
commit_parsed = refl

abbrev commit_hash : String
commit_hash = or_empty (event_hash test_host commit_event)

commit_hashed : event_hash test_host commit_event ≡ some commit_hash
unfolding content_hash semantic_content type_text join le_text decimal
commit_hashed = refl

abbrev taken : IsTaken test_host (decimal 0)
taken = record {
  named = tenant_named;
  normalized = commit_input;
  event = commit_event;
  hash = commit_hash;
  normal = commit_normal;
  parsed = commit_parsed;
  hashed = commit_hashed;
}

replay_demo_passes_example :
    (u : World) × (replay_demo test_host test_db bull half empty_world ≡ done 0 u)
    × ((e : Event) × (u.events ≡ e ∷ []))
replay_demo_passes_example =
    replay_demo_passes test_host test_db bull half (λ n. refl) empty_world refl refl taken refl
