-- ===== src/Models.antt =====
-- The documents of src/models, and the job data of src/queue/types.ts.
-- A document's `_id` is the number of its ObjectId in the order of creation; `host.object_id` is its
-- text, which is what `tenantId` and the other references hold. The timestamps that mongoose keeps
-- for itself are left out where no code reads them.
use shiplog_prototype.Prelude.{ℕ, String, Bool, Option, List}
use shiplog_prototype.Value.{Value}

pub record Tenant : Type 0 where
  pub id : ℕ
  pub name : String
  pub api_key : String

pub record Connection : Type 0 where
  pub id : ℕ
  pub tenant_id : String
  pub provider : Option String
  pub nango_connection_id : Option String
  pub nango_integration_id : Option String
  pub status : String
  pub models : List String
  pub created_at : ℕ

pub data SyncMode : Type 0 where
  full incremental : SyncMode

-- A cursor that was never set, or set to nothing, is `none`.
pub record SyncState : Type 0 where
  pub id : ℕ
  pub connection_id : String
  pub tenant_id : String
  pub model : String
  pub cursor : Option String
  pub last_sync_at : ℕ
  pub mode : SyncMode

pub data Via : Type 0 where
  webhook reconcile : Via

pub record RawRecord : Type 0 where
  pub id : ℕ
  pub tenant_id : String
  pub connection_id : Option String
  pub source : String
  pub external_id : String
  pub nango_record_id : String
  pub payload : Value
  pub received_at : ℕ
  pub via : Via

pub data EventType : Type 0 where
  commit issue pr release : EventType

pub record Event : Type 0 where
  pub id : ℕ
  pub tenant_id : String
  pub idempotency_key : String
  pub type : EventType
  pub source : String
  pub external_id : String
  pub content_hash : String
  pub actor : String
  pub title : String
  pub url : String
  pub occurred_at : ℕ
  pub version : String
  pub deleted : Bool

-- How a run of a sync came about, where it stands, and what it counted.
pub data Trigger : Type 0 where
  by_webhook by_reconcile by_backfill : Trigger

pub data RunStatus : Type 0 where
  running success failed : RunStatus

pub record SyncRunCounts : Type 0 where
  pub added : ℕ
  pub updated : ℕ
  pub deleted : ℕ
  pub failed : ℕ

pub record SyncRun : Type 0 where
  pub id : ℕ
  pub tenant_id : String
  pub connection_id : Option String
  pub started_at : ℕ
  pub finished_at : Option ℕ
  pub status : RunStatus
  pub counts : SyncRunCounts
  pub trigger : Trigger
  pub created_at : ℕ

-- `poison` holds one of the texts of `FailMode`, or `undefined`; `demo_fault` the fault's id.
pub record IngestJobData : Type 0 where
  pub tenant_id : String
  pub connection_id : Option String
  pub sync_run_id : Option String
  pub record_data : Value
  pub poison : Value
  pub demo_fault : Option String

pub record DeadLetter : Type 0 where
  pub id : ℕ
  pub tenant_id : String
  pub connection_id : Option String
  pub sync_run_id : Option String
  pub payload : IngestJobData
  pub error_message : String
  pub error_stack : Option String
  pub attempts_made : Option ℕ
  pub failed_at : ℕ
  pub replayed_at : Option ℕ

-- All but the two ids are what a webhook's body holds.
pub record NangoSyncJobData : Type 0 where
  pub tenant_id : String
  pub connection_id : String
  pub nango_connection_id : Value
  pub provider_config_key : Value
  pub model : Value
  pub modified_after : Value

pub record ReconcileJobData : Type 0 where
  pub tenant_id : String
  pub connection_id : String
  pub nango_connection_id : Option String
  pub provider_config_key : Option String
  pub model : String

-- A job as a processor sees it.
pub record JobView {ℓ} (A : Type ℓ) : Type ℓ where
  pub job_data : A
  pub name : String
  pub attempts_made : Option ℕ
  pub attempts : Option ℕ

-- What is parked on the dlq queue.
pub record DlqJobData : Type 0 where
  pub dead_letter_id : String
  pub payload : IngestJobData

-- A reconcile job carries the id under which the queue keeps at most one job.
pub record ReconcileJob : Type 0 where
  pub job_id : String
  pub job_data : ReconcileJobData
