-- ===== src/Api/Connections/Isolated.antt =====
-- What `POST /connections` writes, and for whom (src/app.ts).
use shiplog_prototype.Prelude.{
  String, Bool, true, false, Option, none, some, [], ◌∷◌, ◌≡◌, ◌≢◌, ◌⊎◌, inl, inr, refl, arith, any,
  select, select-append, ◌==◌, eq_iff, eq_refl, Bool-cases, Option-cases,
}
use mathlib.Core.List.{append-nil}
use shiplog_prototype.Value.{Value, get, truthy}
use shiplog_prototype.Host.{Host}
use shiplog_prototype.Errors.{Thrown}
use shiplog_prototype.Models.{Connection}
use shiplog_prototype.Mongo.{IsFound, select-IsUpdate}
use shiplog_prototype.World.{World, Database, Run, done, final, after_fault, ◌>>=◌, catch}
use shiplog_prototype.World.Laws.{IsFaulty, execute-failures}
use shiplog_prototype.Api.{Reply, refuse, answer}
use shiplog_prototype.Api.Webhook.{cast_error}
use shiplog_prototype.Api.Connections.{
  reply_of, set_to, Registration, Registered, is_registered, refresh_connection, new_connection,
  upsert_connection, register, read_registration, connections_route,
}

-- The connections of a tenant.
abbrev pub owned_by : String → Connection → Bool
owned_by u c = c.tenant_id == u

module _ (host : Host) (db : Database) (tenant_id : String) where
  -- The other tenants have the connections that they had.
  abbrev pub KeepsOthers : World → World → Type 0
  KeepsOthers w w' =
      (u : String)
      → u ≢ tenant_id
      → select (owned_by u) w'.connections ≡ select (owned_by u) w.connections

  -- The tenant has an active connection under the Nango id of this registration, with the provider and
  -- the integration that the registration sets.
  pub record HasConnection (g : Registration) (w : World) : Type 0 where
    pub connection : Connection
    pub stored : IsFound (owned_by tenant_id) connection w.connections
    pub active : connection.status ≡ "active"
    pub named :
        (g.matches connection.nango_connection_id ≡ true)
        ⊎ (connection.nango_connection_id ≡ some g.nango_connection_id)
    pub has_provider : (new : Option String) → g.provider ≡ set_to new → connection.provider ≡ new
    pub has_integration :
        (new : Option String)
        → g.nango_integration_id ≡ set_to new
        → connection.nango_integration_id ≡ new

  other_tenant :
      (u t : String) (c : Connection) → u ≢ t → (c.tenant_id == t) ≡ true → owned_by u c ≡ false
  other_tenant u t c n h = ground (arith, eq_iff c.tenant_id t, eq_iff c.tenant_id u)

  pub upsert_connection-KeepsOthers :
      (g : Registration) (w : World) → KeepsOthers w (upsert_connection host db tenant_id g w)
  unfolding upsert_connection
  upsert_connection-KeepsOthers g w u n =
      let p = is_registered tenant_id g in
      let f = refresh_connection g in
      let new = new_connection w.next_id w.now tenant_id g in
      elim (Bool-cases (any p w.connections)) [
        | inl known ↦
            let (change, _) = db.connections.upsert-update p f new w.connections known in
            select-IsUpdate (owned_by u) p f w.connections _
              (λ c h. let out = other_tenant u tenant_id c n (ground arith) in (out, out)) change
        | inr absent ↦
            rw
              (
                db.connections.upsert-insert p f new w.connections absent,
                select-append (owned_by u) w.connections (new ∷ []),
                other_tenant u tenant_id new n (eq_refl tenant_id),
              )
              (append-nil (select (owned_by u) w.connections))
      ]

  upsert_connection-HasConnection :
      (g : Registration) (w : World) → HasConnection g (upsert_connection host db tenant_id g w)
  unfolding upsert_connection
  upsert_connection-HasConnection g w =
      let p = is_registered tenant_id g in
      let f = refresh_connection g in
      let new = new_connection w.next_id w.now tenant_id g in
      elim (Bool-cases (any p w.connections)) [
        | inl known ↦
            let (u, _) = db.connections.upsert-update p f new w.connections known in
            record {
              connection = f u.row;
              stored = record {
                front = u.front;
                back = u.back;
                matched = (let m = u.matched in ground arith);
                place = u.after;
              };
              active = refl;
              named = inl (let m = u.matched in ground arith);
              has_provider = λ new e. rw e refl;
              has_integration = λ new e. rw e refl;
            }
        | inr absent ↦ record {
          connection = new;
          stored = record {
            front = w.connections;
            back = [];
            matched = eq_refl tenant_id;
            place = (rw (db.connections.upsert-insert p f new w.connections absent) refl);
          };
          active = refl;
          named = inr refl;
          has_provider = λ q e. rw e refl;
          has_integration = λ q e. rw e refl;
        }
      ]

  -- How a request ends.
  pub data Registers (body : Value) (w : World) (r : Run (Reply Registered)) : Type 0 where
    nameless :
        truthy (get "nangoConnectionId" body) ≡ false
        → r ≡ done (refuse 400 "nangoConnectionId is required") w
        → Registers body w r
    uncast :
        truthy (get "nangoConnectionId" body) ≡ true
        → read_registration host body ≡ none
        → r ≡ done (refuse 500 cast_error.message) w
        → Registers body w r
    write_failed :
        (g : Registration) (e : Thrown) (w' : World)
        → read_registration host body ≡ some g
        → IsFaulty w e
        → r ≡ done (refuse 500 e.message) w'
        → Registers body w r
    registered :
        (g : Registration) (b : Registered) (w' : World)
        → read_registration host body ≡ some g
        → r ≡ done (answer 201 b) w'
        → HasConnection g w'
        → Registers body w r

  -- Whichever calls fail, a request leaves the connections of all other tenants as they are. It ends
  -- with status 400 where the body names no Nango connection, with 500 where a value cannot be cast or
  -- the write fails, and with 201 only where the tenant afterwards has an active connection
  -- under the body's Nango id, with the provider and integration that the body sets.
  pub connections_route-Registers :
      (body : Value) (w : World)
      → let r = connections_route host db tenant_id body w in
        KeepsOthers w (final r) × Registers body w r
  unfolding connections_route register
  connections_route-Registers body w = elim (Bool-cases (truthy (get "nangoConnectionId" body))) [
    | inr absent ↦
        (rw (catch, absent, final) (λ u n. refl), nameless absent (rw (catch, absent) refl))
    | inl named ↦ elim (Option-cases (read_registration host body)) [
      | inl bad ↦ (
        rw (catch, named, bad, final) (λ u n. refl),
        uncast named bad (rw (catch, named, bad) refl),
      )
      | inr (g, read) ↦
          let op = upsert_connection host db tenant_id g in
          elim (execute-failures op w) [
            | inl e ↦ (
              rw (catch, named, read, ◌>>=◌, e, final)
                  (upsert_connection-KeepsOthers g (after_fault w)),
              registered g (reply_of body) (op (after_fault w)) read
                  (rw (catch, named, read, ◌>>=◌, e) refl)
                  (upsert_connection-HasConnection g (after_fault w)),
            )
            | inr (inl (t, e, faulty)) ↦ (
              rw (catch, named, read, ◌>>=◌, e, final) (λ u n. refl),
              write_failed g t (after_fault w) read faulty (rw (catch, named, read, ◌>>=◌, e) refl),
            )
            | inr (inr (t, e, faulty)) ↦ (
              rw (catch, named, read, ◌>>=◌, e, final)
                  (upsert_connection-KeepsOthers g (after_fault w)),
              write_failed g t (op (after_fault w)) read faulty
                  (rw (catch, named, read, ◌>>=◌, e) refl),
            )
          ]
    ]
  ]
