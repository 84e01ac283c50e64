-- ===== src/Scripts/Webhook/Accepted.antt =====
-- The receiver of src/app.ts accepts what scripts/simulate-nango-webhook.ts sends.
use shiplog_prototype.Prelude.{
  String, Bool, true, Option, some, [], ◌∷◌, ◌++◌, ◌≡◌, ◌≢◌, refl, ap, ◌∙◌,
}
use shiplog_prototype.Value.{Value, str, get, Fields}
use shiplog_prototype.Host.{Host}
use shiplog_prototype.Models.{Connection, NangoSyncJobData}
use shiplog_prototype.World.{World, Database, done, after_fault, later_faults, ◌>>=◌, catch}
use shiplog_prototype.World.Laws.{query_fine, execute_fine}
use shiplog_prototype.Nango.Verify.{
  from_hex, header_value, compute_nango_hmac, verify_nango_signature,
}
use shiplog_prototype.Nango.Verify.Signature.{verify_nango_signature_iff}
use shiplog_prototype.Api.{answer}
use shiplog_prototype.Api.Webhook.{
  enqueued, is_sync, add_sync, notify, find_by_nango, lookup, handle_payload, handle_json,
  webhook_route,
}
use shiplog_prototype.Scripts.Webhook.{argument, notification, simulate}

module _ (host : Host) (secret : String) (model connection_id : Option String) where
  abbrev pub sent : Fields
  sent = (simulate host secret model connection_id).headers

  abbrev pub text : String
  text = (simulate host secret model connection_id).body

  abbrev pub payload : Value
  payload = notification host (argument "GithubIssue" model) (argument "nc-local" connection_id)

  simulate_signed :
      secret ≢ ""
      → from_hex (host.hmac_hex secret text) ≢ []
      → verify_nango_signature host (some text) sent secret ≡ true
  unfolding simulate header_value compute_nango_hmac
  simulate_signed named digest =
      (verify_nango_signature_iff host (some text) sent secret).1
        (named, (host.hmac_hex secret text, refl, record { same = refl; some_bytes = digest }))

  module _ (db : Database) (f : Option String → Bool) (c : Connection) (w : World) where
    abbrev pub job : NangoSyncJobData
    job = record {
      tenant_id = c.tenant_id;
      connection_id = host.object_id c.id;
      nango_connection_id = str (argument "nc-local" connection_id);
      provider_config_key = str "github";
      model = str (argument "GithubIssue" model);
      modified_after = str (host.to_iso 0);
    }

    handle_payload_simulated :
        host.filter_text (str (argument "nc-local" connection_id)) ≡ some f
        → find_by_nango host db f w ≡ some c
        → w.faults ≡ []
        → (w' : World) × (handle_payload host db true payload w ≡ done (answer 202 enqueued) w')
          × (w'.nango_sync_queue ≡ w.nango_sync_queue ++ job ∷ [])
    unfolding handle_payload notification is_sync get lookup notify
    handle_payload_simulated filter found fine =
        let v = after_fault w in
        let there = query_fine (find_by_nango host db f) w fine ∙ ap (λ o. done o v) found in
        (
          add_sync host c payload (after_fault v),
          rw (filter, ◌>>=◌, there, execute_fine (add_sync host c payload) v (ap later_faults fine))
              refl,
          refl,
        )

    -- A simulated notification is answered with 202, and one job is queued: that of the connection
    -- that is found for its id, for its model, from the start of time. This is so without failing
    -- calls, with a signing key, where a digest is not empty and JSON is read back as it was written.
    pub simulate-webhook_route :
        secret ≢ ""
        → from_hex (host.hmac_hex secret text) ≢ []
        → host.parse_json text ≡ some payload
        → host.filter_text (str (argument "nc-local" connection_id)) ≡ some f
        → find_by_nango host db f w ≡ some c
        → w.faults ≡ []
        → (w' : World) × (webhook_route host db secret true text sent w
            ≡ done (answer 202 enqueued) w')
          × (w'.nango_sync_queue ≡ w.nango_sync_queue ++ job ∷ [])
    unfolding webhook_route handle_json
    simulate-webhook_route named digest parsed filter found fine =
        let (w', e, queued) = handle_payload_simulated filter found fine in
        (w', rw (catch, simulate_signed named digest, parsed, e) refl, queued)
