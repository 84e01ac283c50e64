-- ===== src/Scripts/Isolation.antt =====
-- scripts/isolation-check.ts: the check that two tenants see only their own events.
pub mod Passes
use shiplog_prototype.Prelude.{
  ℕ, String, Bool, true, false, not, ◌&&◌, ◌||◌, Option, none, some, List, [], ◌∷◌, ◌==◌, any,
  if◌then◌else◌,
}
use shiplog_prototype.Host.{Host}
use shiplog_prototype.Models.{Tenant, Event}
use shiplog_prototype.World.{World, Database, M, ◌>>=◌, return, query}
use shiplog_prototype.Scripts.{exit_with, main}
use shiplog_prototype.Scripts.Setup.{has_api_key}

-- `rows.every(p)`.
abbrev pub every : (Event → Bool) → List Event → Bool
every p [] = true
every p (e ∷ es) = p e && every p es

-- `rows.length > 0`.
abbrev pub populated : List Event → Bool
populated [] = false
populated (e ∷ es) = true

-- `String(e.tenantId) === String(tenant._id)`.
abbrev pub is_of : String → Event → Bool
is_of tenant_id e = e.tenant_id == tenant_id

-- The filter `{ externalId, tenantId }`.
abbrev pub is_copy : String → String → Event → Bool
is_copy tenant_id external_id e = e.external_id == external_id && e.tenant_id == tenant_id

-- What is asserted of the two answers and of the shared one.
abbrev pub isolation_passes : String → String → List Event → List Event → Bool → Bool
isolation_passes a b a_rows b_rows shared_ok =
    (populated a_rows && populated b_rows)
    && (every (is_of a) a_rows
        && (every (is_of b) b_rows
            && (not (any (is_of b) a_rows || any (is_of a) b_rows) && shared_ok)))

module _ (host : Host) (db : Database) where
  -- `withTenant(id).events.find({})`, of an ObjectId, which always counts as true.
  unfoldable pub find_all : String → M (List Event)
  find_all tenant_id = query (λ w. db.events.find (is_of tenant_id) w.events)

  -- `bRows[0]`'s external id must resolve to copies of the first tenant only.
  unfoldable pub check_shared : String → List Event → M Bool
  check_shared a [] = return true
  check_shared a (e ∷ es) =
      query (λ w. db.events.find (is_copy a e.external_id) w.events) >>= λ seen.
      return (every (is_of a) seen)

  unfoldable pub compare_rows : String → String → M ℕ
  compare_rows a b = do
    a_rows ← find_all a
    b_rows ← find_all b
    shared_ok ← check_shared a b_rows
    exit_with (if isolation_passes a b a_rows b_rows shared_ok then 0 else 1)

  unfoldable pub check_tenants : Option Tenant → Option Tenant → M ℕ
  check_tenants (some a) (some b) = compare_rows (host.object_id a.id) (host.object_id b.id)
  check_tenants _ _ = exit_with 2

  abbrev pub find_by_key : String → World → Option Tenant
  find_by_key key w = db.tenants.find_one (has_api_key key) w.tenants

  -- The script.
  unfoldable pub isolation_check : M ℕ
  isolation_check = main (do
    acme ← query (find_by_key "acme-api-key")
    globex ← query (find_by_key "globex-api-key")
    check_tenants acme globex)
