-- ===== src/Queue/Sweep.antt =====
-- src/queue/reconcileSweep.ts, and the routing of src/queue/reconcileWorker.ts.
pub mod Single
use shiplog_prototype.Prelude.{
  ℕ, ◌+◌, String, Bool, true, false, ◌&&◌, Option, none, some, List, [], ◌∷◌, ◌++◌, ◌==◌, any,
  length, if◌then◌else◌,
}
use shiplog_prototype.Text.{append}
use shiplog_prototype.Host.{Host}
use shiplog_prototype.Models.{Connection, ReconcileJob, ReconcileJobData}
use shiplog_prototype.World.{World, Database, M, ◌>>=◌, ◌>>◌, return, throw, query, execute}
use shiplog_prototype.Errors.{Thrown, plain_error}

abbrev pub job_id_of : Host → Connection → String → String
job_id_of host c model = append "reconcile:" (append (host.object_id c.id) (append ":" model))

-- `reconcileJobFor(connection, model)`.
unfoldable pub reconcile_job_for : Host → Connection → String → ReconcileJob
reconcile_job_for host c model = record {
  job_id = job_id_of host c model;
  job_data = record {
    tenant_id = c.tenant_id;
    connection_id = host.object_id c.id;
    nango_connection_id = c.nango_connection_id;
    provider_config_key = c.nango_integration_id;
    model = model;
  };
}

abbrev pub has_job_id : String → ReconcileJob → Bool
has_job_id id j = j.job_id == id

-- BullMQ's `add` of a job with an id: nothing happens while the queue holds a job of that id.
unfoldable pub add_once : ReconcileJob → List ReconcileJob → List ReconcileJob
add_once j js = if any (has_job_id j.job_id) js then js else js ++ j ∷ []

-- What BullMQ throws at an id that it does not take.
abbrev pub bad_job_id : Thrown
bad_job_id = plain_error "Error" "Custom Id cannot contain :"

-- `enqueueReconcileJob(reconcileQueue, connection, model)`.
unfoldable pub enqueue_reconcile_job : Host → Connection → String → M (Unit {0})
enqueue_reconcile_job host c model =
    let j = reconcile_job_for host c model in
    let add = execute (λ w. record w { reconcile_queue = add_once j w.reconcile_queue }) in
    if host.is_job_id j.job_id then add else throw bad_job_id

unfoldable pub enqueue_models : Host → Connection → List String → M (Unit {0})
enqueue_models host c [] = return tt
enqueue_models host c (m ∷ ms) = do _ ← enqueue_reconcile_job host c m; enqueue_models host c ms

-- `connection.models?.length ? connection.models : ['Commit']`.
abbrev pub models_of : Connection → List String
models_of c = elim c.models [ [] ↦ "Commit" ∷ [] | m ∷ ms ↦ m ∷ ms ]

pub sweep_all : Host → List Connection → ℕ → M ℕ
sweep_all host [] swept = return swept
sweep_all host (c ∷ cs) swept = do
  _ ← enqueue_models host c (models_of c)
  sweep_all host cs (swept + length (models_of c))

-- `{ status: 'active', nangoConnectionId: { $ne: null } }`.
abbrev pub has_nango : Option String → Bool
has_nango none = false
has_nango (some _) = true

abbrev pub is_active : Connection → Bool
is_active c = c.status == "active" && has_nango c.nango_connection_id

-- `reconcileSweep()`, with the number it returns.
pub reconcile_sweep : Host → Database → M ℕ
reconcile_sweep host db =
    query (λ w. db.connections.find is_active w.connections) >>= λ cs. sweep_all host cs 0
