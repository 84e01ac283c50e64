-- ===== src/Examples.antt =====
-- The theorems at concrete inputs, over collections in memory and a host of simple functions.
mod Ingesting
mod Hashing
mod Queues
mod Nangos
mod Requests
mod Delays
mod Calling
mod Scripting
mod Living
mod Demonstrating
mod Waiting
use shiplog_prototype.Prelude.{String, true, Option, none, some, [], ◌∷◌}
use shiplog_prototype.Text.{decimal}
use shiplog_prototype.Value.{Value, num, str, undefined, obj, end, field, is_text, js_string}
use shiplog_prototype.Host.{Host}
use shiplog_prototype.Models.{issue, IngestJobData, JobView}
use shiplog_prototype.Mongo.Memory.{memory}
use shiplog_prototype.Schema.{NormalizedEvent}
use shiplog_prototype.World.{World, Database}

abbrev pub or_empty : Option String → String
or_empty none = ""
or_empty (some s) = s

abbrev pub test_host : Host
test_host = record {
  sha256_hex = λ s. s;
  hmac_hex = λ k b. "a1";
  to_iso = decimal;
  date_text = λ t. "date";
  parse_date = λ s. some 5;
  is_url = λ s. true;
  is_object_id = λ s. true;
  object_id = decimal;
  to_object_id = λ s. s;
  to_object_id-object_id = λ n i. decimal n;
  is_job_id = λ s. true;
  parse_json = λ s. none;
  filter_text = λ v. some (λ o. is_text v (or_empty o));
  cast_text = λ v. some (js_string (λ t. "date") v);
}

abbrev pub test_db : Database
test_db = record {
  tenants = memory;
  connections = memory;
  sync_states = memory;
  raw_records = memory;
  events = memory;
  dead_letters = memory;
  sync_runs = memory;
}

abbrev pub empty_world : World
empty_world = record {
  tenants = [];
  connections = [];
  sync_states = [];
  raw_records = [];
  events = [];
  dead_letters = [];
  sync_runs = [];
  ingest_queue = [];
  dlq_queue = [];
  nango_sync_queue = [];
  reconcile_queue = [];
  next_id = 0;
  now = 1000;
  faults = [];
}

-- A normalized issue.
abbrev pub issue_input : Value
issue_input = obj (
    field "source" (str "github") (
      field "type" (str "issue") (
        field "externalId" (str "issue:7") (
          field "actor" (str "ada") (
            field "title" (str "crash") (
              field "url" (str "https://example.com/7")
                (field "occurredAt" (num 3) (field "version" (str "v1") end))))))))

abbrev pub issue_event : NormalizedEvent
issue_event = record {
  source = "github";
  type = issue;
  external_id = "issue:7";
  actor = "ada";
  title = "crash";
  url = "https://example.com/7";
  occurred_at = 3;
  version = "v1";
}

abbrev pub issue_key : String
issue_key = "t|github|issue:7|v1"

-- A job for a record that the normalizer does not know.
abbrev pub bad_job : IngestJobData
bad_job = record {
  tenant_id = "t";
  connection_id = some "2";
  sync_run_id = none;
  record_data = str "no record";
  poison = undefined;
  demo_fault = none;
}

abbrev pub last_attempt : JobView IngestJobData
last_attempt = record {
  job_data = bad_job;
  name = "ingest";
  attempts_made = some 5;
  attempts = some 5;
}
