-- ===== src/Api/Connections.antt =====
-- src/app.ts: `POST /connections`.
pub mod Isolated
use shiplog_prototype.Prelude.{
  ℕ, suc, String, Bool, true, false, ◌&&◌, Option, none, some, List, [], ◌∷◌, ◌==◌, if◌then◌else◌,
}
use shiplog_prototype.Value.{Value, undefined, null, str, get, truthy}
use shiplog_prototype.Host.{Host}
use shiplog_prototype.Models.{Connection}
use shiplog_prototype.World.{World, Database, M, ◌>>=◌, return, throw, execute}
use shiplog_prototype.Api.{Reply, refuse, answer, or_500}
use shiplog_prototype.Api.Webhook.{cast_error}

-- What `$set` does to a text field: an `undefined` is left out of the update.
pub data Setting : Type 0 where
  keep : Setting
  set_to : Option String → Setting

abbrev pub apply : Setting → Option String → Option String
apply keep old = old
apply (set_to new) old = new

-- The request's body, read and cast.
pub record Registration : Type 0 where
  pub matches : Option String → Bool
  pub nango_connection_id : String
  pub nango_integration_id : Setting
  pub provider : Setting

-- A body, less the id of the document.
pub record Registered : Type 0 where
  pub nango_connection_id : Value
  pub provider : Value

-- `provider = 'github'` where there is none.
abbrev pub or_github : Value → Value
or_github undefined = str "github"
or_github v = v

abbrev pub reply_of : Value → Registered
reply_of body = record {
  nango_connection_id = get "nangoConnectionId" body;
  provider = or_github (get "provider" body);
}

module _ (host : Host) where
  set_cast : Option String → Option Setting
  set_cast none = none
  set_cast (some s) = some (set_to (some s))

  setting : Value → Option Setting
  setting undefined = some keep
  setting null = some (set_to none)
  setting v = set_cast (host.cast_text v)

  build_registration :
      Option (Option String → Bool)
      → Option String
      → Option Setting
      → Option Setting
      → Option Registration
  build_registration (some f) (some id) (some i) (some p) =
      some
        (record { matches = f; nango_connection_id = id; nango_integration_id = i; provider = p })
  build_registration _ _ _ _ = none

  -- `none` where mongoose cannot cast one of the values.
  pub read_registration : Value → Option Registration
  unfolding build_registration setting set_cast
  read_registration body =
      build_registration (host.filter_text (get "nangoConnectionId" body))
        (host.cast_text (get "nangoConnectionId" body)) (setting (get "nangoIntegrationId" body))
        (setting (or_github (get "provider" body)))

-- The filter, the update, and the document of an upsert that inserts.
abbrev pub is_registered : String → Registration → Connection → Bool
is_registered tenant_id g c = c.tenant_id == tenant_id && g.matches c.nango_connection_id

abbrev pub refresh_connection : Registration → Connection → Connection
refresh_connection g c = record c {
  provider = apply g.provider c.provider;
  nango_integration_id = apply g.nango_integration_id c.nango_integration_id;
  status = "active";
}

abbrev pub new_connection : ℕ → ℕ → String → Registration → Connection
new_connection id now tenant_id g = record {
  id = id;
  tenant_id = tenant_id;
  provider = apply g.provider (some "github");
  nango_connection_id = some g.nango_connection_id;
  nango_integration_id = apply g.nango_integration_id none;
  status = "active";
  models = "Commit" ∷ [];
  created_at = now;
}

module _ (host : Host) (db : Database) where
  unfoldable pub upsert_connection : String → Registration → World → World
  upsert_connection tenant_id g w =
      let (rows, _) =
        db.connections.upsert (is_registered tenant_id g) (refresh_connection g)
          (new_connection w.next_id w.now tenant_id g) w.connections in
      record w { connections = rows; next_id = suc w.next_id }

  unfoldable pub register : String → Value → Option Registration → M (Reply Registered)
  register tenant_id body none = throw cast_error
  register tenant_id body (some g) =
      execute (upsert_connection tenant_id g) >>= λ _. return (answer 201 (reply_of body))

  -- The route.
  unfoldable pub connections_route : String → Value → M (Reply Registered)
  connections_route tenant_id body =
      let registered = register tenant_id body (read_registration host body) in
      or_500 (
        if truthy (get "nangoConnectionId" body)
        then registered
        else return (refuse 400 "nangoConnectionId is required"))
