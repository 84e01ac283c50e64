-- ===== src/Scripts/Setup/Fails.antt =====
-- How scripts/setup-tenants.ts ends.
use shiplog_prototype.Prelude.{
  ℕ, String, true, Option, none, some, [], ◌≡◌, ◌∙◌, refl, ap, inl, inr, eq_refl,
}
use shiplog_prototype.Host.{Host}
use shiplog_prototype.Errors.{Thrown}
use shiplog_prototype.Models.{Tenant, Connection}
use shiplog_prototype.Mongo.{IsFound, upsert_row-IsFound, upsert_row-holds}
use shiplog_prototype.World.{
  World, Database, M, done, fail, final, after_fault, later_faults, ◌>>=◌, catch,
}
use shiplog_prototype.World.Laws.{attempt_fine, Run-cases}
use shiplog_prototype.Scripts.{exit_with}
use shiplog_prototype.Scripts.Laws.{main-cases, execute-fail_never}
use shiplog_prototype.Scripts.Setup.{
  equals, has_api_key, is_connection_of, new_tenant, github_connection, reconnect, reset_models,
  save_tenant, save_connection, upsert_tenant_connection, upsert_all, setup_tenants, undefined_row,
  print_commands, setup_script,
}

equals_refl : (o : Option String) → equals o o ≡ true
equals_refl none = refl
equals_refl (some s) = eq_refl s

module _ (host : Host) (db : Database) (nango_id integration : Option String) where
  -- A tenant with a key is stored, and an active connection of it with the script's Nango id.
  pub record IsSetUp (key : String) (w : World) : Type 0 where
    pub tenant : Tenant
    pub is_stored : IsFound (has_api_key key) tenant w.tenants
    pub connection : Connection
    pub is_connected :
        IsFound (is_connection_of (host.object_id tenant.id) nango_id) connection w.connections
    pub is_active : connection.status ≡ "active"

  upsert_tenant_connection-IsSetUp :
      (name key : String) (w : World)
      → w.faults ≡ []
      → IsSetUp key (final (upsert_tenant_connection host db nango_id integration name key w))
  unfolding upsert_tenant_connection
  upsert_tenant_connection-IsSetUp name key w fine =
      let t = (save_tenant host db name key (after_fault w)).0 in
      let w1 = (save_tenant host db name key (after_fault w)).1 in
      let id = host.object_id t.id in
      let p = is_connection_of id nango_id in
      let f = λ (c : Connection). reset_models (reconnect integration c) in
      let new = λ (n now : ℕ). github_connection n now id nango_id integration in
      let w2 = after_fault w1 in
      let made = new w2.next_id w2.now in
      rw
        (
          ◌>>=◌,
          attempt_fine (save_tenant host db name key) w fine,
          attempt_fine (save_connection host db p f new) w1 (ap later_faults fine),
          final,
        )
        (record {
          tenant = t;
          is_stored =
              upsert_row-IsFound db.tenants (has_api_key key) (λ x. x)
                (new_tenant w.next_id name key) w.tenants (λ x h. h) (eq_refl key);
          connection = (save_connection host db p f new w2).0;
          is_connected =
              upsert_row-IsFound db.connections p f made w.connections (λ x h. h)
                (rw (eq_refl id) (equals_refl nango_id));
          is_active =
              upsert_row-holds (λ c. c.status ≡ "active") db.connections p f made w.connections
                (λ x. refl) refl;
        })

  abbrev body : M ℕ
  body = upsert_all host db nango_id integration setup_tenants >>= λ rows.
      print_commands rows >>= λ _. exit_with 0

  -- One tenant is not enough for what the script prints.
  body-fails :
      (w : World)
      → (e : Thrown) × (body w
          ≡ fail e (
              final
                (upsert_tenant_connection host db nango_id integration "Acme" "acme-api-key" w)))
  unfolding upsert_all print_commands
  body-fails w =
      elim (Run-cases
        (upsert_tenant_connection host db nango_id integration "Acme" "acme-api-key" w)) [
          | inl (row, v, e) ↦ (undefined_row, rw (◌>>=◌, e, final) refl)
          | inr (x, v, e) ↦ (x, rw (◌>>=◌, e, final) refl)
        ]

  -- The script ends with exit code 1 whatever happens: it sets up one tenant and then reads a second
  -- one. Without failing calls the first tenant, Acme, has its key and an active connection with the
  -- script's Nango id all the same.
  pub setup_script-IsSetUp :
      (w : World)
      → (w' : World) × (setup_script host db nango_id integration w ≡ done 1 w')
        × (w.faults ≡ [] → IsSetUp "acme-api-key" w')
  unfolding setup_script
  setup_script-IsSetUp w =
      let v = after_fault w in
      let saved = upsert_tenant_connection host db nango_id integration "Acme" "acme-api-key" in
      let (x, ends) = body-fails v in
      elim (main-cases body w) [
        | inl (u, t, e, lost) ↦ (u, e, λ fine. absurd (execute-fail_never (λ r. r) w t u fine lost))
        | inr e ↦ (
          final (saved v),
          e ∙ rw (catch, ends) refl,
          λ fine. upsert_tenant_connection-IsSetUp "Acme" "acme-api-key" v (ap later_faults fine),
        )
      ]
