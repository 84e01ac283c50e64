-- ===== src/Api/Requests/Isolated.antt =====
-- No request changes the data of another tenant.
use shiplog_prototype.Prelude.{ℕ, String, Bool, Option, some, List, ◌≡◌, ◌⊎◌, inl, inr, refl, ◌==◌}
use shiplog_prototype.Value.{Value, get, truthy}
use shiplog_prototype.Host.{Host}
use shiplog_prototype.Models.{Tenant}
use shiplog_prototype.Mongo.{Collection, Direction, IsFound}
use shiplog_prototype.World.{World, Database, M, final, after_fault}
use shiplog_prototype.Api.{Reply}
use shiplog_prototype.Api.Isolation.{
  key, has_key, no_key, unknown_key, lookup_failed, admitted, tenant_auth-Guards,
}
use shiplog_prototype.Api.Connections.{read_registration, connections_route}
use shiplog_prototype.Api.Lists.{has_type, scoped_events, find_events, events_route}
use shiplog_prototype.Api.Listings.{
  listing, first_sorted, list_connections, list_sync_runs, list_dead_letters,
}
use shiplog_prototype.Api.Requests.{
  Endpoint, post_connections, get_events, get_connections, get_sync_runs, get_dlq, post_replay,
  post_reconcile, post_backfill, Content, replying, BuildAppOptions, handle_request, serve,
}
use shiplog_prototype.Api.Requests.Routes.{
  replay_route-KeepsAt, backfill_route-KeepsAt, reconcile_route-KeepsAt, register-Keeps,
}
use shiplog_prototype.Api.Frames.{
  Frames, Frames-after_fault, Frames-trans, Keeps, Keeps-return, Keeps-throw, Keeps-query,
  Keeps-bind, Keeps-or_500, Keeps-if, KeepsAt, KeepsAt-all, KeepsAt-bind, KeepsAt-or_500,
}

module _ (host : Host) (db : Database) (t : String) (o : World) where
  connections_route-Keeps : (body : Value) → Keeps host t o (connections_route host db t body)
  unfolding connections_route
  connections_route-Keeps body = Keeps-or_500 host t o _ (
      Keeps-if host t o (truthy (get "nangoConnectionId" body)) _ _
        (register-Keeps host db t o body (read_registration host body)) (Keeps-return host t o _))

  events_route-Keeps : (type : Option String) → Keeps host t o (events_route db t type)
  unfolding events_route find_events
  events_route-Keeps type = Keeps-or_500 host t o _ (
      Keeps-bind host t o _ _
        (Keeps-if host t o (t == "") _ _ (Keeps-throw host t o _ _)
          (Keeps-query host t o (scoped_events db t (has_type type))))
        (λ es. Keeps-return host t o _))

  listing-Keeps :
      {Row : Type 0} (c : Collection Row) (rows : World → List Row) (dir : Direction) (k : Row → ℕ)
      (limit : ℕ) (p : Row → Bool)
      → Keeps host t o (listing c rows dir k limit p)
  unfolding listing
  listing-Keeps c rows dir k limit p = Keeps-or_500 host t o _ (
      Keeps-bind host t o _ _ (Keeps-query host t o (first_sorted c rows dir k limit p))
        (λ found. Keeps-return host t o _))

  -- The world in which the handler of a request begins.
  abbrev v : World
  v = after_fault o

  replying-KeepsAt :
      {A : Type 0} (content : A → Content) (m : M (Reply A))
      → KeepsAt host t o v m
      → KeepsAt host t o v (replying content m)
  replying-KeepsAt content m h = KeepsAt-bind host t o v m _ h (λ r. Keeps-return host t o _)

  listing-KeepsAt :
      {A : Type 0} (content : A → Content) (m : M (Reply A))
      → Keeps host t o m
      → KeepsAt host t o v (replying content m)
  listing-KeepsAt content m h = replying-KeepsAt content m (KeepsAt-all host t o v m h)

  handle_request-KeepsAt :
      (options : BuildAppOptions) (e : Endpoint)
      → KeepsAt host t o v (handle_request host db options e t)
  unfolding handle_request list_connections list_sync_runs list_dead_letters
  handle_request-KeepsAt options (post_connections body) =
      listing-KeepsAt _ _ (connections_route-Keeps body)
  handle_request-KeepsAt options (get_events type) = listing-KeepsAt _ _ (events_route-Keeps type)
  handle_request-KeepsAt options get_connections = listing-KeepsAt _ _ (listing-Keeps _ _ _ _ _ _)
  handle_request-KeepsAt options get_sync_runs = listing-KeepsAt _ _ (listing-Keeps _ _ _ _ _ _)
  handle_request-KeepsAt options get_dlq = listing-KeepsAt _ _ (listing-Keeps _ _ _ _ _ _)
  handle_request-KeepsAt options (post_replay id) =
      replying-KeepsAt _ _ (replay_route-KeepsAt host db t o options.ingest id)
  handle_request-KeepsAt options (post_reconcile id model) =
      replying-KeepsAt _ _ (reconcile_route-KeepsAt host db t o options.reconcile id model)
  handle_request-KeepsAt options (post_backfill id) =
      replying-KeepsAt _ _ (backfill_route-KeepsAt host db t o options.ingest id)

module _ (host : Host) (db : Database) (options : BuildAppOptions)
    (authorization api_key : Option String) where
  -- Whatever is requested of any route behind `tenantAuth`, and whichever calls fail: without the API
  -- key of a stored tenant nothing is written at all. With it, the connections of other tenants, all
  -- tenants, sync states, landed records, events, sync runs and the other two queues stay as they are;
  -- of the dead letters only such change as have the id of one of the tenant's own, and only in their
  -- replay stamps; and to the ingest and the reconcile queue only jobs of the tenant are added: the
  -- payload of one of its stored dead letters, a job for it with the payload of one of its landed
  -- records, or a poll for it of one of its connections.
  pub serve-Frames :
      (e : Endpoint) (w : World)
      → let w' = final (serve host db options authorization api_key e w) in
        (w' ≡ record w { faults = w'.faults })
        ⊎ ((k : String) × (t : Tenant) × (key host db authorization api_key ≡ some k)
            × IsFound (has_key k) t w.tenants
            × Frames host (host.object_id t.id) w w w')
  unfolding serve
  serve-Frames e w =
      elim (tenant_auth-Guards host db authorization api_key (handle_request host db options e) w) [
        | no_key _ r ↦ inl (rw (r, final) refl)
        | unknown_key k _ _ r ↦ inl (rw (r, final) refl)
        | lookup_failed _ x _ _ r ↦ inl (rw (r, final) refl)
        | admitted k t is_key found r ↦ inr (
          k,
          t,
          is_key,
          found,
          rw r (
              Frames-trans host (host.object_id t.id) w
                (Frames-after_fault host (host.object_id t.id) w w)
                (KeepsAt-or_500 host (host.object_id t.id) w (after_fault w)
                  (handle_request host db options e (host.object_id t.id))
                  (handle_request-KeepsAt host db (host.object_id t.id) w options e)).kept_at),
        )
      ]
