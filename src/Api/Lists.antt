-- ===== src/Api/Lists.antt =====
-- src/repository/withTenant.ts, and the route of src/app.ts that lists events.
use shiplog_prototype.Prelude.{
  ℕ, String, Bool, true, ◌&&◌, Option, none, some, List, ◌==◌, if◌then◌else◌,
}
use shiplog_prototype.Errors.{plain_error}
use shiplog_prototype.Models.{Event}
use shiplog_prototype.Mongo.{descending}
use shiplog_prototype.Ingest.{type_text}
use shiplog_prototype.World.{World, Database, M, ◌>>=◌, return, throw, query}
use shiplog_prototype.Api.{Reply, answer, or_500}

-- `if (type) filter.type = type`.
abbrev pub has_type : Option String → Event → Bool
has_type none e = true
has_type (some t) e = if t == "" then true else type_text e.type == t

-- `{ ...filter, tenantId }`, of a filter on events.
abbrev pub scoped : String → (Event → Bool) → Event → Bool
scoped tenant_id filter e = filter e && e.tenant_id == tenant_id

module _ (db : Database) where
  abbrev pub scoped_events : String → (Event → Bool) → World → List Event
  scoped_events tenant_id filter w =
      db.events.find_sorted descending (λ e. e.occurred_at) (scoped tenant_id filter) w.events

  -- `withTenant(tenantId).events.find(filter).sort({ occurredAt: -1 })`.
  unfoldable pub find_events : String → (Event → Bool) → M (List Event)
  find_events tenant_id filter =
      let found = query (scoped_events tenant_id filter) in
      if tenant_id == ""
      then throw (plain_error "Error" "withTenant requires a tenantId")
      else found

  -- `withTenant(tenantId).events.findOne(filter)` and `.countDocuments(filter)`.
  pub find_event : String → (Event → Bool) → M (Option Event)
  find_event tenant_id filter =
      let found = query (λ w. db.events.find_one (scoped tenant_id filter) w.events) in
      if tenant_id == ""
      then throw (plain_error "Error" "withTenant requires a tenantId")
      else found

  pub count_events : String → (Event → Bool) → M ℕ
  count_events tenant_id filter =
      let counted = query (λ w. db.events.count (scoped tenant_id filter) w.events) in
      if tenant_id == ""
      then throw (plain_error "Error" "withTenant requires a tenantId")
      else counted

  -- `GET /events`.
  unfoldable pub events_route : String → Option String → M (Reply (List Event))
  events_route tenant_id type =
      or_500 (find_events tenant_id (has_type type) >>= λ es. return (answer 200 es))
