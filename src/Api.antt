-- ===== src/Api.antt =====
-- src/app.ts and src/middleware/tenantAuth.ts: who may call, and the routes that write to a queue.
-- A thrown error ends as status 500 with its message.
pub mod Isolation
pub mod Lists
pub mod Listings
pub mod Bearer
pub mod Frames
pub mod Requests
pub mod Webhook
pub mod Connections
use Prim.Native.Char.{code}
use Prim.Native.String.{[], ◌∷◌}
use shiplog_prototype.Prelude.{
  ℕ, String, Bool, not, ◌&&◌, Option, none, some, List, nat_eq, ◌==◌, if◌then◌else◌,
}
use mathlib.Core.List.{[], ◌∷◌}
use shiplog_prototype.Text.{trim}
use shiplog_prototype.Value.{Value, undefined, str}
use shiplog_prototype.Host.{Host}
use shiplog_prototype.Models.{Tenant, Connection}
use shiplog_prototype.World.{World, Database, M, ◌>>=◌, return, catch, query}
use shiplog_prototype.Queue.Requeue.{Replayed, replay_dead_letter, backfill_connection}
use shiplog_prototype.Queue.Sweep.{enqueue_models, models_of}

-- A response: an error with its status, or a status and a body.
pub data Reply (A : Type 0) : Type 0 where
  refuse : ℕ → String → Reply A
  answer : ℕ → A → Reply A

-- The rest of a text that starts with a prefix.
pub after_prefix : String → String → Option String
after_prefix [] s = some s
after_prefix (c ∷ p) (d ∷ s) =
    let rest = after_prefix p s in if nat_eq (code c) (code d) then rest else none
after_prefix _ _ = none

abbrev pub trimmed : Option String → Option String
trimmed none = none
trimmed (some k) = if k == "" then none else some (trim k)

key_from : Option String → Option String → Option String
key_from (some k) api_key = some (trim k)
key_from none api_key = trimmed api_key

bearer : Option String → Option String
unfolding after_prefix
bearer none = none
bearer (some s) = after_prefix "Bearer " s

-- `extractApiKey(req)`, of the two headers.
pub extract_api_key : Option String → Option String → Option String
unfolding key_from bearer
extract_api_key authorization api_key = key_from (bearer authorization) api_key

-- `if (!apiKey)`.
abbrev pub given : Option String → Option String
given none = none
given (some k) = if k == "" then none else some k

-- A handler's `catch` block, which passes the error on to the last handler.
abbrev pub or_500 : {A : Type 0} → M (Reply A) → M (Reply A)
or_500 m = catch m (λ e. return (refuse 500 e.message))

module _ (host : Host) (db : Database) where
  abbrev pub find_tenant : String → World → Option Tenant
  find_tenant k w = db.tenants.find_one (λ t. t.api_key == k) w.tenants

  -- What follows from the tenant that was found.
  pub with_tenant : {A : Type 0} → Option Tenant → (String → M (Reply A)) → M (Reply A)
  with_tenant none next = return (refuse 401 "Invalid API key")
  with_tenant (some t) next = next (host.object_id t.id)

  pub with_key : {A : Type 0} → Option String → (String → M (Reply A)) → M (Reply A)
  with_key none next = return (refuse 401 "Missing API key")
  with_key (some k) next = or_500 (query (find_tenant k) >>= λ t. with_tenant t next)

  -- `tenantAuth` before a handler, which gets the id of the tenant.
  pub tenant_auth :
      {A : Type 0} → Option String → Option String → (String → M (Reply A)) → M (Reply A)
  tenant_auth authorization api_key next =
      with_key (given (extract_api_key authorization api_key)) next

  or_404 : Option Replayed → M (Reply Replayed)
  or_404 none = return (refuse 404 "Dead-letter item not found")
  or_404 (some r) = return (answer 200 r)

  -- `POST /dlq/:id/replay`.
  pub replay_route : Bool → String → String → M (Reply Replayed)
  replay_route has_queue id tenant_id =
      let found = replay_dead_letter host db id tenant_id >>= or_404 in
      or_500 (
        if not has_queue
        then return (refuse 503 "Queue not configured")
        else if not (host.is_object_id id)
        then return (refuse 400 "Invalid id")
        else found)

  -- `POST /connections/:id/backfill`.
  pub backfill_route : Bool → String → String → M (Reply ℕ)
  backfill_route has_queue id tenant_id =
      let queued = backfill_connection db id tenant_id >>= λ n. return (answer 200 n) in
      or_500 (
        if not has_queue
        then return (refuse 503 "Queue not configured")
        else if not (host.is_object_id id)
        then return (refuse 400 "Invalid id")
        else queued)

  -- The filter `{ _id: id, tenantId }`.
  abbrev pub find_connection : String → String → World → Option Connection
  find_connection id tenant_id w =
      db.connections.find_one
        (λ c. host.object_id c.id == host.to_object_id id && c.tenant_id == tenant_id) w.connections

  queue_models : List String → Option Connection → M (Reply (List String))
  queue_models requested none = return (refuse 404 "Connection not found")
  queue_models [] (some c) =
      enqueue_models host c (models_of c) >>= λ _. return (answer 202 (models_of c))
  queue_models (m ∷ ms) (some c) =
      enqueue_models host c (m ∷ ms) >>= λ _. return (answer 202 (m ∷ ms))

  -- `requested ? [requested] : …`, of a model that was left out or is a text.
  requested_models : Value → Option (List String)
  requested_models undefined = some []
  requested_models (str m) = some (if m == "" then [] else m ∷ [])
  requested_models _ = none

  manual_reconcile : String → String → Option (List String) → M (Reply (List String))
  manual_reconcile id tenant_id none = return (refuse 400 "model must be a string")
  manual_reconcile id tenant_id (some models) =
      query (find_connection id tenant_id) >>= queue_models models

  -- `POST /connections/:id/reconcile`, with the models that it queued.
  pub reconcile_route : Bool → String → String → Value → M (Reply (List String))
  reconcile_route has_queue id tenant_id model =
      let queued = manual_reconcile id tenant_id (requested_models model) in
      or_500 (
        if not has_queue
        then return (refuse 503 "Queue not configured")
        else if not (host.is_object_id id)
        then return (refuse 400 "Invalid connection id")
        else queued)
