-- ===== src/Api/Isolation.antt =====
-- A request reaches only what its API key's tenant owns (src/middleware/tenantAuth.ts, src/app.ts).
use mathlib.Core.Path.{subst}
use shiplog_prototype.Prelude.{
  String, Bool, false, Option, none, some, ◌≡◌, ◌⊎◌, inl, inr, refl, sym, ◌∙◌, any, ◌==◌,
  Bool-cases, Option-cases,
}
use shiplog_prototype.Host.{Host}
use shiplog_prototype.Errors.{Thrown}
use shiplog_prototype.Models.{Tenant}
use shiplog_prototype.Mongo.{IsFound}
use shiplog_prototype.World.{World, Database, M, Run, done, final, after_fault, ◌>>=◌, catch}
use shiplog_prototype.World.Laws.{IsFaulty, query-failures, Run-cases}
use shiplog_prototype.Queue.Requeue.{Replayed, replay_dead_letter}
use shiplog_prototype.Queue.Requeue.Verbatim.{Replays, replay_dead_letter-Replays, not_queued}
use shiplog_prototype.Api.{
  Reply, refuse, extract_api_key, given, or_500, find_tenant, with_tenant, with_key, tenant_auth,
  or_404, replay_route,
}

abbrev pub has_key : String → Tenant → Bool
has_key k t = t.api_key == k

module _ (host : Host) (db : Database) (authorization api_key : Option String) where
  -- The key that the request brings.
  abbrev pub key : Option String
  key = given (extract_api_key authorization api_key)

  module _ {A : Type 0} (next : String → M (Reply A)) where
    -- The ways in which the middleware ends: without a key or with one that no tenant has the handler
    -- does not run, and otherwise it runs for a stored tenant with that key.
    pub data Guards (w : World) (r : Run (Reply A)) : Type 0 where
      no_key : key ≡ none → r ≡ done (refuse 401 "Missing API key") w → Guards w r
      unknown_key :
          (k : String)
          → key ≡ some k
          → any (has_key k) w.tenants ≡ false
          → r ≡ done (refuse 401 "Invalid API key") (after_fault w)
          → Guards w r
      lookup_failed :
          (k : String) (e : Thrown)
          → key ≡ some k
          → IsFaulty w e
          → r ≡ done (refuse 500 e.message) (after_fault w)
          → Guards w r
      admitted :
          (k : String) (t : Tenant)
          → key ≡ some k
          → IsFound (has_key k) t w.tenants
          → r ≡ or_500 (next (host.object_id t.id)) (after_fault w)
          → Guards w r

    with_key-Guards :
        (o : Option String) → key ≡ o → (w : World) → Guards w (with_key host db o next w)
    unfolding with_key with_tenant
    with_key-Guards none none_given w = no_key none_given refl
    with_key-Guards (some k) is_key w = elim (query-failures (find_tenant host db k) w) [
      | inr (t, e, faulty) ↦ lookup_failed k t is_key faulty (rw (catch, ◌>>=◌, e) refl)
      | inl e ↦ elim (Option-cases (find_tenant host db k w)) [
        | inl absent ↦
            unknown_key k is_key (db.tenants.find_one-none (has_key k) w.tenants absent)
              (rw (catch, ◌>>=◌, e, absent) refl)
        | inr (t, found) ↦
            admitted k t is_key (db.tenants.find_one-some (has_key k) w.tenants t found)
              (rw (catch, ◌>>=◌, e, found) refl)
      ]
    ]

    -- Every request ends in one of these ways: refused for want of a key, refused for a key that no
    -- tenant has, refused since the lookup failed, or handed on with the id of a tenant with its key.
    pub tenant_auth-Guards :
        (w : World) → Guards w (tenant_auth host db authorization api_key next w)
    unfolding tenant_auth
    tenant_auth-Guards w = with_key-Guards key refl w

-- The last handler changes nothing.
final-or_500 : {A : Type 0} (m : M (Reply A)) (w : World) → final (or_500 m w) ≡ final (m w)
final-or_500 m w = elim (Run-cases (m w)) [
  | inl (a, v, e) ↦ rw (catch, e) refl
  | inr (t, v, e) ↦ rw (catch, e) refl
]

module _ (host : Host) (db : Database) (id : String) where
  replay_route-Replays :
      (has_queue : Bool) (tenant_id : String) (w : World)
      → Replays host db id tenant_id w (final (replay_route host db has_queue id tenant_id w))
  unfolding replay_route or_404
  replay_route-Replays has_queue tenant_id w = elim (Bool-cases has_queue) [
    | inr no_queue ↦ rw (catch, no_queue) (not_queued refl refl)
    | inl given ↦ elim (Bool-cases (host.is_object_id id)) [
      | inr bad ↦ rw (catch, given, bad) (not_queued refl refl)
      | inl good ↦
          rw (given, good)
            (subst (Replays host db id tenant_id w)
              (sym (
                final-or_500 {A = Replayed}
                  (replay_dead_letter host db id tenant_id >>= or_404 host db) w
                ∙ final-found w))
              (replay_dead_letter-Replays host db id tenant_id w))
    ]
  ]
    where
      final-found :
          (v : World)
          → final ((replay_dead_letter host db id tenant_id >>= or_404 host db) v)
            ≡ final (replay_dead_letter host db id tenant_id v)
      final-found v = elim (Run-cases (replay_dead_letter host db id tenant_id v)) [
        | inl (none, v', e) ↦ rw (◌>>=◌, e) refl
        | inl (some r, v', e) ↦ rw (◌>>=◌, e) refl
        | inr (t, v', e) ↦ rw (◌>>=◌, e) refl
      ]

  -- `POST /dlq/:id/replay` behind the middleware. Whichever calls fail, either nothing was queued and
  -- no dead letter touched, or there is a stored tenant with the request's API key, and what happened
  -- is what a replay may do for that tenant: at most the payload of one of its own items was queued.
  pub replay_request-Replays :
      (authorization api_key : Option String) (has_queue : Bool) (w : World)
      → let w' =
          final (tenant_auth host db authorization api_key (replay_route host db has_queue id) w) in
        ((w'.ingest_queue ≡ w.ingest_queue) × (w'.dead_letters ≡ w.dead_letters))
        ⊎ ((k : String) × (t : Tenant) × (key host db authorization api_key ≡ some k)
            × IsFound (has_key k) t w.tenants
            × Replays host db id (host.object_id t.id) (after_fault w) w')
  replay_request-Replays authorization api_key has_queue w =
      elim (tenant_auth-Guards host db authorization api_key (replay_route host db has_queue id)
        w) [
          | no_key _ e ↦ rw (e, final) (inl (refl, refl))
          | unknown_key _ _ _ e ↦ rw (e, final) (inl (refl, refl))
          | lookup_failed _ _ _ _ e ↦ rw (e, final) (inl (refl, refl))
          | admitted k t is_key found e ↦
              rw
                (
                  e,
                  final-or_500 {A = Replayed}
                      (replay_route host db has_queue id (host.object_id t.id)) (after_fault w),
                )
                (inr (
                  k,
                  t,
                  is_key,
                  found,
                  replay_route-Replays has_queue (host.object_id t.id) (after_fault w),
                ))
        ]
