-- ===== src/Api/Listings.antt =====
-- src/app.ts: `GET /connections`, `GET /sync-runs` and `GET /dlq`.
use mathlib.Core.List.{Perm}
use shiplog_prototype.Prelude.{ℕ, String, Bool, List, ◌≡◌, ◌⊎◌, inl, inr, refl, select, take, ◌==◌}
use shiplog_prototype.Models.{Connection, SyncRun, DeadLetter}
use shiplog_prototype.Errors.{Thrown}
use shiplog_prototype.Mongo.{Collection, Direction, ascending, descending, Ordered}
use shiplog_prototype.World.{
  World, Database, M, Run, done, after_fault, ◌>>=◌, return, catch, query,
}
use shiplog_prototype.World.Laws.{IsFaulty, query-failures}
use shiplog_prototype.Api.{Reply, refuse, answer, or_500}

module _ {Row : Type 0} (c : Collection Row) (rows : World → List Row) (dir : Direction)
    (k : Row → ℕ) (limit : ℕ) (p : Row → Bool) where
  abbrev pub first_sorted : World → List Row
  first_sorted w = take limit (c.find_sorted dir k p (rows w))

  -- `find(filter).sort(…).limit(…)`, answered as it is.
  unfoldable pub listing : M (Reply (List Row))
  listing = or_500 (query first_sorted >>= λ found. return (answer 200 found))

  -- The answer holds the first documents, in the order of the sort, of exactly those that pass.
  abbrev pub Lists : World → Run (Reply (List Row)) → Type 0
  Lists w r =
      ((all : List Row) × (r ≡ done (answer 200 (take limit all)) (after_fault w))
        × Perm all (select p (rows w))
        × Ordered dir k all)
      ⊎ ((e : Thrown) × IsFaulty w e × (r ≡ done (refuse 500 e.message) (after_fault w)))

  listing-Lists : (w : World) → rows (after_fault w) ≡ rows w → Lists w (listing w)
  unfolding listing
  listing-Lists w same = elim (query-failures first_sorted w) [
    | inr (t, e, faulty) ↦ inr (t, faulty, rw (catch, ◌>>=◌, e) refl)
    | inl e ↦
        let (perm, sorted) = c.find_sorted_lem dir k p (rows w) in
        inl (c.find_sorted dir k p (rows w), rw (catch, ◌>>=◌, e, same) refl, perm, sorted)
  ]

-- The filter `{ tenantId }`, of each collection.
abbrev pub connection_of : String → Connection → Bool
connection_of tenant_id c = c.tenant_id == tenant_id

abbrev pub run_of : String → SyncRun → Bool
run_of tenant_id r = r.tenant_id == tenant_id

abbrev pub letter_of : String → DeadLetter → Bool
letter_of tenant_id d = d.tenant_id == tenant_id

module _ (db : Database) (tenant_id : String) where
  -- `GET /connections`.
  unfoldable pub list_connections : M (Reply (List Connection))
  list_connections =
      listing db.connections (λ w. w.connections) ascending (λ c. c.created_at) 100
        (connection_of tenant_id)

  -- `GET /sync-runs`.
  unfoldable pub list_sync_runs : M (Reply (List SyncRun))
  list_sync_runs =
      listing db.sync_runs (λ w. w.sync_runs) descending (λ r. r.created_at) 50 (run_of tenant_id)

  -- `GET /dlq`.
  unfoldable pub list_dead_letters : M (Reply (List DeadLetter))
  list_dead_letters =
      listing db.dead_letters (λ w. w.dead_letters) descending (λ d. d.failed_at) 100
        (letter_of tenant_id)

  -- Each of the three lists is answered by the tenant's own documents only: the first 100 connections
  -- by age, the 50 latest sync runs and the 100 latest dead letters, or with status 500 where the call
  -- fails.
  pub listings-Lists :
      (w : World)
      → Lists db.connections
          (λ v. v.connections)
          ascending
          (λ c. c.created_at)
          100
          (connection_of tenant_id)
          w
          (list_connections w)
        × Lists db.sync_runs
            (λ v. v.sync_runs)
            descending
            (λ r. r.created_at)
            50
            (run_of tenant_id)
            w
            (list_sync_runs w)
        × Lists db.dead_letters
            (λ v. v.dead_letters)
            descending
            (λ d. d.failed_at)
            100
            (letter_of tenant_id)
            w
            (list_dead_letters w)
  unfolding list_connections list_sync_runs list_dead_letters
  listings-Lists w = (
    listing-Lists db.connections (λ v. v.connections) ascending (λ c. c.created_at) 100
        (connection_of tenant_id) w refl,
    listing-Lists db.sync_runs (λ v. v.sync_runs) descending (λ r. r.created_at) 50
        (run_of tenant_id) w refl,
    listing-Lists db.dead_letters (λ v. v.dead_letters) descending (λ d. d.failed_at) 100
        (letter_of tenant_id) w refl,
  )
