-- ===== src/Api/Requests/Served.antt =====
-- How a request of a known tenant ends, of how its handler ends.
use shiplog_prototype.Prelude.{[], ℕ, String, true, none, some, ◌≡◌, ◌≢◌, refl}
use shiplog_prototype.Text.{trim}
use shiplog_prototype.Host.{Host}
use shiplog_prototype.Models.{Tenant}
use shiplog_prototype.World.{World, Database, done, after_fault, catch, ◌>>=◌}
use shiplog_prototype.World.Laws.{query_fine}
use shiplog_prototype.Queue.Requeue.{Replayed, replay_dead_letter, backfill_connection}
use shiplog_prototype.Dashboard.{authorization_of}
use shiplog_prototype.Api.{
  Reply, answer, find_tenant, with_tenant, with_key, or_404, replay_route, backfill_route,
}
use shiplog_prototype.Api.Bearer.{tenant_auth-authorization_of}
use shiplog_prototype.Api.Requests.{
  BuildAppOptions, Content, Endpoint, post_replay, post_backfill, replayed, backfilled,
  handle_request, serve,
}

module _ (host : Host) (db : Database) (options : BuildAppOptions) where
  -- A request with the key of a stored tenant is handled for that tenant.
  pub serve_fine :
      (k : String) (tenant : Tenant) (e : Endpoint) (r : Reply Content) (w w' : World)
      → k ≢ ""
      → trim k ≡ k
      → w.faults ≡ []
      → find_tenant host db k w ≡ some tenant
      → handle_request host db options e (host.object_id tenant.id) (after_fault w) ≡ done r w'
      → serve host db options (some (authorization_of k)) none e w ≡ done r w'
  unfolding serve with_key with_tenant
  serve_fine k tenant e r w w' named clean fine found handled =
      rw
        (
          tenant_auth-authorization_of host db k none (handle_request host db options e) named
              clean,
          catch,
          ◌>>=◌,
          query_fine (find_tenant host db k) w fine,
          found,
          handled,
        )
        refl

  module _ (ingest : options.ingest ≡ true) (id t : String) (valid : host.is_object_id id ≡ true)
      (w w' : World) where
    pub post_replay_fine :
        (x : Replayed)
        → replay_dead_letter host db id t w ≡ done (some x) w'
        → handle_request host db options (post_replay id) t w ≡ done (answer 200 (replayed x)) w'
    unfolding handle_request replay_route or_404
    post_replay_fine x ran = rw (ingest, valid, catch, ◌>>=◌, ran) refl

    pub post_backfill_fine :
        (n : ℕ)
        → backfill_connection db id t w ≡ done n w'
        → handle_request host db options (post_backfill id) t w
          ≡ done (answer 200 (backfilled n)) w'
    unfolding handle_request backfill_route
    post_backfill_fine n ran = rw (ingest, valid, catch, ◌>>=◌, ran) refl
