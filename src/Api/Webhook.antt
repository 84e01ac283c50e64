-- ===== src/Api/Webhook.antt =====
-- src/app.ts: `POST /webhooks/nango`, the receiver of Nango's notifications.
pub mod Notified
use shiplog_prototype.Prelude.{
  ℕ, String, Bool, true, false, not, ◌||◌, Option, none, some, List, [], ◌∷◌, ◌++◌, if◌then◌else◌,
}
use shiplog_prototype.Value.{Value, null, bool, str, Fields, get, is_text}
use shiplog_prototype.Host.{Host}
use shiplog_prototype.Errors.{Thrown, plain_error}
use shiplog_prototype.Models.{Connection, NangoSyncJobData}
use shiplog_prototype.World.{World, Database, M, ◌>>=◌, return, throw, query, execute}
use shiplog_prototype.Nango.Verify.{verify_nango_signature}
use shiplog_prototype.Api.{Reply, refuse, answer, or_500}

-- The bodies of the answers.
pub data Receipt : Type 0 where
  ignored : Value → Receipt
  no_connection : Receipt
  enqueued : Receipt

-- `payload.success === false`.
abbrev pub is_false : Value → Bool
is_false (bool b) = not b
is_false _ = false

-- `isSync && payload.success !== false`.
unfoldable pub is_sync : Value → Bool
is_sync p =
    if is_text (get "type" p) "sync" || is_text (get "type" p) "sync.success"
    then not (is_false (get "success" p))
    else false

module _ (host : Host) where
  -- The job of a notification.
  abbrev pub sync_job : Connection → Value → NangoSyncJobData
  sync_job c p = record {
    tenant_id = c.tenant_id;
    connection_id = host.object_id c.id;
    nango_connection_id = get "connectionId" p;
    provider_config_key = get "providerConfigKey" p;
    model = get "model" p;
    modified_after = get "modifiedAfter" p;
  }

  -- `nangoSyncQueue.add(NANGO_SYNC_QUEUE, …)`.
  abbrev pub add_sync : Connection → Value → World → World
  add_sync c p w = record w { nango_sync_queue = w.nango_sync_queue ++ sync_job c p ∷ [] }

  -- What follows from the connection that was found.
  unfoldable pub notify : Bool → Value → Option Connection → M (Reply Receipt)
  notify has_queue p none = return (answer 200 no_connection)
  notify has_queue p (some c) =
      let queued = execute (add_sync c p) >>= λ _. return (answer 202 enqueued) in
      if has_queue then queued else return (refuse 503 "Queue not configured")

abbrev pub cast_error : Thrown
cast_error = plain_error "CastError" "Cast to string failed"

module _ (host : Host) (db : Database) where
  -- `Connection.findOne({ nangoConnectionId: … })`.
  abbrev pub find_by_nango : (Option String → Bool) → World → Option Connection
  find_by_nango f w = db.connections.find_one (λ c. f c.nango_connection_id) w.connections

  unfoldable pub lookup : Bool → Value → Option (Option String → Bool) → M (Reply Receipt)
  lookup has_queue p none = throw cast_error
  lookup has_queue p (some f) = query (find_by_nango f) >>= notify host has_queue p

  -- A payload, which cannot be asked for its type if it is `null`.
  unfoldable pub handle_payload : Bool → Value → M (Reply Receipt)
  handle_payload has_queue null =
      throw (plain_error "TypeError" "Cannot read properties of null (reading 'type')")
  handle_payload has_queue p =
      let found = lookup has_queue p (host.filter_text (get "connectionId" p)) in
      if is_sync p then found else return (answer 200 (ignored (get "type" p)))

  unfoldable pub handle_json : Bool → Option Value → M (Reply Receipt)
  handle_json has_queue none = return (refuse 400 "Invalid JSON")
  handle_json has_queue (some p) = handle_payload has_queue p

  -- The route, with the signing key and whether there is a queue.
  unfoldable pub webhook_route : String → Bool → String → Fields → M (Reply Receipt)
  webhook_route secret has_queue body headers =
      let handled = handle_json has_queue (host.parse_json body) in
      or_500 (
        if verify_nango_signature host (some body) headers secret
        then handled
        else return (refuse 401 "Invalid signature"))
