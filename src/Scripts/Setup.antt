-- ===== src/Scripts/Setup.antt =====
-- scripts/_demo.ts, scripts/connect.ts and scripts/setup-tenants.ts: how tenants, connections and
-- sync runs come to be.
pub mod Fails
use shiplog_prototype.Prelude.{
  ℕ, suc, String, Bool, true, false, ◌&&◌, Option, none, some, List, [], ◌∷◌, ◌++◌, ◌==◌,
}
use shiplog_prototype.Host.{Host}
use shiplog_prototype.Errors.{Thrown, plain_error, option_or}
use shiplog_prototype.Models.{Tenant, Connection, SyncRun, Trigger, running}
use shiplog_prototype.Nango.Sync.{usable}
use shiplog_prototype.World.{World, Database, M, ◌>>=◌, return, throw, attempt}
use shiplog_prototype.Scripts.{exit_with, main}

-- The filters; a value that is `undefined` matches a field that is not set.
abbrev pub has_api_key : String → Tenant → Bool
has_api_key key t = t.api_key == key

abbrev pub equals : Option String → Option String → Bool
equals none none = true
equals (some s) (some t) = s == t
equals _ _ = false

abbrev pub is_github_of : String → Connection → Bool
is_github_of tenant_id c = c.tenant_id == tenant_id && equals c.provider (some "github")

abbrev pub is_connection_of : String → Option String → Connection → Bool
is_connection_of tenant_id nango_id c =
    c.tenant_id == tenant_id && equals c.nango_connection_id nango_id

-- The documents of `$setOnInsert`.
abbrev pub new_tenant : ℕ → String → String → Tenant
new_tenant id name key = record { id = id; name = name; api_key = key }

-- With the defaults of the schema.
abbrev pub github_connection : ℕ → ℕ → String → Option String → Option String → Connection
github_connection id now tenant_id nango_id integration = record {
  id = id;
  tenant_id = tenant_id;
  provider = some "github";
  nango_connection_id = nango_id;
  nango_integration_id = integration;
  status = "active";
  models = "Commit" ∷ [];
  created_at = now;
}

-- `$set`, where an `undefined` integration is left out.
abbrev pub reconnect : Option String → Connection → Connection
reconnect integration c = record c {
  provider = some "github";
  nango_integration_id = option_or integration c.nango_integration_id;
  status = "active";
}

abbrev pub reset_models : Connection → Connection
reset_models c = record c { models = "Commit" ∷ [] }

abbrev pub new_run : ℕ → ℕ → String → Option String → Trigger → SyncRun
new_run id now tenant_id connection_id trigger = record {
  id = id;
  tenant_id = tenant_id;
  connection_id = connection_id;
  started_at = now;
  finished_at = none;
  status = running;
  counts = record { added = 0; updated = 0; deleted = 0; failed = 0 };
  trigger = trigger;
  created_at = now;
}

pub record DemoContext : Type 0 where
  pub tenant : Tenant
  pub connection : Connection
  pub sync_run : SyncRun

module _ (host : Host) (db : Database) where
  -- `Tenant.findOneAndUpdate({ apiKey }, { $setOnInsert: … }, { upsert: true, … })`.
  abbrev pub save_tenant : String → String → World → Tenant × World
  save_tenant name key w =
      let (rows, t) =
        db.tenants.upsert_row (has_api_key key) (λ t. t) (new_tenant w.next_id name key)
          w.tenants in
      (t, record w { tenants = rows; next_id = suc w.next_id })

  -- `Connection.findOneAndUpdate` with a filter, a change and a new document.
  abbrev pub save_connection :
      (Connection → Bool)
      → (Connection → Connection)
      → (ℕ → ℕ → Connection)
      → World
      → Connection × World
  save_connection p f new w =
      let (rows, c) = db.connections.upsert_row p f (new w.next_id w.now) w.connections in
      (c, record w { connections = rows; next_id = suc w.next_id })

  -- `SyncRun.create({ tenantId, connectionId, trigger, status: 'running' })`.
  abbrev pub create_run : String → Option String → Trigger → World → SyncRun × World
  create_run tenant_id connection_id trigger w =
      let run = new_run w.next_id w.now tenant_id connection_id trigger in
      (run, record w { sync_runs = db.sync_runs.create run w.sync_runs; next_id = suc w.next_id })

  -- `ensureDemoContext(trigger)`.
  unfoldable pub ensure_demo_context : Trigger → M DemoContext
  ensure_demo_context trigger = do
    t ← attempt (save_tenant "Demo (Acme Storefront)" "demo-api-key")
    let tenant_id = host.object_id t.id
    c ← attempt (
        save_connection (is_github_of tenant_id) (λ c. c)
          (λ id now. github_connection id now tenant_id (some "demo-conn") (some "github")))
    run ← attempt (create_run tenant_id (some (host.object_id c.id)) trigger)
    return (record { tenant = t; connection = c; sync_run = run })

  -- `main` of connect.ts, with its two arguments.
  unfoldable pub connect : String → Option String → M ℕ
  connect nango_id integration = main (do
    t ← attempt (save_tenant "Demo (Acme Storefront)" "demo-api-key")
    let tenant_id = host.object_id t.id
    let chosen = option_or (usable integration) (some "github")
    _ ← attempt (
        save_connection (is_connection_of tenant_id (some nango_id)) (reconnect chosen)
          (λ id now. github_connection id now tenant_id (some nango_id) chosen))
    exit_with 0)

  -- The script connect.ts, which wants the id of a Nango connection.
  unfoldable pub connect_script : Option String → Option String → M ℕ
  connect_script nango_id integration = elim (usable nango_id) [
    | none ↦ return 2
    | some id ↦ connect id integration
  ]

  -- `upsertTenantConnection(name, apiKey)` of setup-tenants.ts, for the script's two arguments.
  unfoldable pub upsert_tenant_connection :
      Option String → Option String → String → String → M (Tenant × Connection)
  upsert_tenant_connection nango_id integration name key = do
    t ← attempt (save_tenant name key)
    let tenant_id = host.object_id t.id
    c ← attempt (
        save_connection (is_connection_of tenant_id nango_id)
          (λ c. reset_models (reconnect integration c))
          (λ id now. github_connection id now tenant_id nango_id integration))
    return (t, c)

  unfoldable pub upsert_all :
      Option String → Option String → List (String × String) → M (List (Tenant × Connection))
  upsert_all nango_id integration [] = return []
  upsert_all nango_id integration ((name, key) ∷ more) = do
    row ← upsert_tenant_connection nango_id integration name key
    rows ← upsert_all nango_id integration more
    return (row ∷ rows)

-- `TENANTS` of setup-tenants.ts: the second tenant is commented out.
abbrev pub setup_tenants : List (String × String)
setup_tenants = ("Acme", "acme-api-key") ∷ []

abbrev pub undefined_row : Thrown
undefined_row = plain_error "TypeError" "Cannot read properties of undefined (reading 'connection')"

-- `const [acme, globex] = rows` and what is printed of both.
unfoldable pub print_commands : List (Tenant × Connection) → M (Unit {0})
print_commands (acme ∷ globex ∷ rows) = return tt
print_commands _ = throw undefined_row

-- The script setup-tenants.ts.
unfoldable pub setup_script : Host → Database → Option String → Option String → M ℕ
setup_script host db nango_id integration = main (do
  rows ← upsert_all host db nango_id integration setup_tenants
  _ ← print_commands rows
  exit_with 0)
