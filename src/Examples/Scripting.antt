-- ===== src/Examples/Scripting.antt =====
-- The dashboard's calls and the scripts at concrete inputs.
use shiplog_prototype.Prelude.{
  String, true, false, ◌&&◌, none, some, [], ◌∷◌, ◌++◌, ◌≡◌, ◌≢◌, refl, arith, any, if◌then◌else◌,
  ap, ◌==◌, eq_iff, length,
}
use shiplog_prototype.Text.{trim}
use shiplog_prototype.Text.Laws.{decimal_injective}
use shiplog_prototype.Mongo.Memory.{memory}
use shiplog_prototype.Nango.Verify.{from_hex}
use shiplog_prototype.Host.{Host}
use shiplog_prototype.Value.{Value, str, get, undefined, js_string}
use shiplog_prototype.Models.{Tenant, Connection}
use shiplog_prototype.World.{World, done, Result, ok, err}
use shiplog_prototype.Normalize.{normalize_github, normalize_commit}
use shiplog_prototype.Scripts.Injection.{build_demo_commit}
use shiplog_prototype.Dashboard.{authorization_of}
use shiplog_prototype.Api.{with_key, tenant_auth, replay_route, answer}
use shiplog_prototype.Api.Bearer.{tenant_auth-authorization_of}
use shiplog_prototype.Api.Webhook.{webhook_route, enqueued, find_by_nango}
use shiplog_prototype.Scripts.Setup.{setup_script}
use shiplog_prototype.Scripts.Setup.Fails.{IsSetUp, setup_script-IsSetUp}
use shiplog_prototype.Scripts.Isolation.{find_by_key, is_of, isolation_check}
use shiplog_prototype.Scripts.Isolation.Passes.{isolation_check_lem}
use shiplog_prototype.Scripts.Webhook.{notification}
use shiplog_prototype.Scripts.Webhook.Accepted.{sent, text, payload, job, simulate-webhook_route}
use shiplog_prototype.Examples.{test_host, test_db, empty_world}

some_text : (s : String) → (s == "") ≡ false → s ≢ ""
some_text s h e = let empty = (eq_iff s "").1 e in cc

trim_key : trim "acme-api-key" ≡ "acme-api-key"
unfolding trim
trim_key = refl

tenant_auth-authorization_of_example :
    tenant_auth test_host test_db
      (some (authorization_of "acme-api-key"))
      none
      (replay_route test_host test_db true "7")
    ≡ with_key test_host test_db (some "acme-api-key") (replay_route test_host test_db true "7")
tenant_auth-authorization_of_example =
    tenant_auth-authorization_of test_host test_db "acme-api-key" none
      (replay_route test_host test_db true "7") (some_text "acme-api-key" refl) trim_key

setup_script-IsSetUp_example :
    (w' : World) × (setup_script test_host test_db (some "n") (some "github") empty_world
      ≡ done 1 w')
    × (empty_world.faults ≡ []
        → IsSetUp test_host test_db (some "n") (some "github") "acme-api-key" w')
setup_script-IsSetUp_example =
    setup_script-IsSetUp test_host test_db (some "n") (some "github") empty_world

abbrev acme : Tenant
acme = record { id = 1; name = "Acme"; api_key = "acme-api-key" }

abbrev globex : Tenant
globex = record { id = 2; name = "Globex"; api_key = "globex-api-key" }

abbrev two_tenants : World
two_tenants = record empty_world { tenants = acme ∷ globex ∷ [] }

acme_found : find_by_key test_host test_db "acme-api-key" two_tenants ≡ some acme
unfolding memory
acme_found = refl

globex_found : find_by_key test_host test_db "globex-api-key" two_tenants ≡ some globex
unfolding memory
globex_found = refl

isolation_check_lem_example :
    (w' : World) × (isolation_check test_host test_db two_tenants
      ≡ done
          (if any (is_of (test_host.object_id 1)) two_tenants.events
              && any (is_of (test_host.object_id 2)) two_tenants.events
            then 0
            else 1)
          w')
isolation_check_lem_example =
    isolation_check_lem test_host test_db acme globex two_tenants refl acme_found globex_found
      (λ e. omega (arith, decimal_injective 1 2 e))

-- A host that reads the notification back.
abbrev local_host : Host
local_host = record test_host {
  parse_json = λ s. some (payload test_host "key" none none);
  filter_text = λ v. some (λ o. true);
}

abbrev local_connection : Connection
local_connection = record {
  id = 2;
  tenant_id = "1";
  provider = some "github";
  nango_connection_id = some "nc-local";
  nango_integration_id = some "github";
  status = "active";
  models = "Commit" ∷ [];
  created_at = 5;
}

abbrev local_world : World
local_world = record empty_world { connections = local_connection ∷ [] }

digest_given : from_hex "a1" ≢ []
unfolding from_hex
digest_given e = omega (arith, ap length e)

read_back : payload test_host "key" none none ≡ payload local_host "key" none none
unfolding notification
read_back = refl

connection_found : find_by_nango local_host test_db (λ o. true) local_world ≡ some local_connection
unfolding memory
connection_found = refl

simulate-webhook_route_example :
    (w' : World) × (webhook_route local_host test_db "key" true
        (text local_host "key" none none)
        (sent local_host "key" none none)
        local_world
      ≡ done (answer 202 enqueued) w')
    × (w'.nango_sync_queue
        ≡ local_world.nango_sync_queue
          ++ job local_host "key" none none test_db (λ o. true) local_connection local_world ∷ [])
simulate-webhook_route_example =
    simulate-webhook_route local_host "key" none none test_db (λ o. true) local_connection
      local_world (some_text "key" refl) digest_given (ap some read_back) refl connection_found refl

-- What the demonstrations inject is what their cleaning deletes.
abbrev external_id : Result Value → Value
external_id (ok v) = get "externalId" v
external_id (err e) = undefined

demo_commit_test :
    external_id (normalize_github test_host (build_demo_commit "duplicate" "0a1b" "now"))
    ≡ str "commit:demo-duplicate-0a1b"
unfolding normalize_github normalize_commit build_demo_commit get js_string
demo_commit_test = refl
