-- ===== src/Scripts/ReplayDemo/Exits.antt =====
-- The whole script, from any state without the demonstration's tenant.
use shiplog_prototype.Prelude.{
  ℕ, suc, String, true, false, not, some, List, [], ◌∷◌, ◌++◌, ◌≡◌, refl, ap, ◌∙◌, any,
  any-select-not, select, ◌==◌,
}
use shiplog_prototype.Host.{Host}
use shiplog_prototype.Models.{Event, Tenant, Connection}
use shiplog_prototype.Backoff.{Fraction}
use shiplog_prototype.World.{
  both, World, Database, done, attempt, after_fault, later_faults, ◌>>=◌, catch,
}
use shiplog_prototype.World.Laws.{attempt_fine, execute_fine}
use shiplog_prototype.Ingest.{has_key}
use shiplog_prototype.Queue.Life.{Bull}
use shiplog_prototype.Scripts.{connect_db}
use shiplog_prototype.Scripts.Laws.{exit_with_fine}
use shiplog_prototype.Scripts.Setup.{
  has_api_key, is_github_of, github_connection, new_tenant, save_tenant, save_connection,
}
use shiplog_prototype.Scripts.ReplayDemo.{
  demo_key, reset, clear_events, clear_letters, clear_records, clear_runs, obliterate, replay_demo,
}
use shiplog_prototype.Scripts.ReplayDemo.Work.{IsTaken, key_of}
use shiplog_prototype.Scripts.ReplayDemo.Steps.{IsReady, find_last}
use shiplog_prototype.Scripts.ReplayDemo.Passes.{demonstrate_passes}

module _ (host : Host) (db : Database) (bull : Bull) (random : ℕ → Fraction)
    (valid : (n : ℕ) → host.is_object_id (host.object_id n) ≡ true) (w : World) where
  -- The id that the tenant gets.
  abbrev t : String
  t = host.object_id w.next_id

  abbrev others : List Event
  others = select (λ e. not (e.tenant_id == t)) w.events

  abbrev tenant : Tenant
  tenant = new_tenant w.next_id "Demo (Acme Storefront)" demo_key

  -- The world after the connection, the tenant and its connection are there.
  abbrev connected : World
  connected = after_fault w

  abbrev tenant_stored : World
  tenant_stored = record (after_fault connected) {
    tenants = w.tenants ++ tenant ∷ [];
    next_id = suc w.next_id;
  }

  abbrev save : World → Connection × World
  save =
      save_connection host db (is_github_of t) (λ c. c)
        (λ id now. github_connection id now t (some "demo-conn") (some "github"))

  abbrev saved : Connection × World
  saved = save (after_fault tenant_stored)

  -- The world after the four deletions, and then with the queue emptied.
  abbrev reset_world : World → World
  reset_world v = record v {
    events = (db.events.delete_many (λ e. e.tenant_id == t) v.events).0;
    dead_letters = (db.dead_letters.delete_many (λ d. d.tenant_id == t) v.dead_letters).0;
    raw_records = (db.raw_records.delete_many (λ r. r.tenant_id == t) v.raw_records).0;
    sync_runs = (db.sync_runs.delete_many (λ r. r.tenant_id == t) v.sync_runs).0;
    faults = later_faults (later_faults (later_faults (later_faults v.faults)));
  }

  abbrev cleared : World
  cleared = record (after_fault (reset_world saved.1)) { ingest_queue = [] }

  reset_fine : (v : World) → v.faults ≡ [] → reset host db bull random t v ≡ done tt (reset_world v)
  reset_fine v fine =
      let E = clear_events host db bull random t in
      let L = clear_letters host db bull random t in
      let R = clear_records host db bull random t in
      let v₁ = E (after_fault v) in
      let v₂ = L (after_fault v₁) in
      let v₃ = R (after_fault v₂) in
      let fine₁ = ap later_faults fine in
      let fine₂ = ap later_faults fine₁ in
      rw
        (
          both,
          execute_fine E v fine,
          execute_fine L v₁ fine₁,
          execute_fine R v₂ fine₂,
          execute_fine (clear_runs host db bull random t) v₃ (ap later_faults fine₂),
        )
        refl

  module _ (fine : w.faults ≡ []) where
    save_tenant_fine :
        any (has_api_key demo_key) w.tenants ≡ false
        → attempt (save_tenant host db "Demo (Acme Storefront)" demo_key) connected
          ≡ done tenant tenant_stored
    save_tenant_fine none_of =
        attempt_fine (save_tenant host db "Demo (Acme Storefront)" demo_key) connected
          (ap later_faults fine)
        ∙ rw (db.tenants.upsert_row-insert (has_api_key demo_key) (λ x. x) tenant w.tenants none_of)
            refl

    module _ (no_tenant : any (has_api_key demo_key) w.tenants ≡ false) (taken : IsTaken host t)
        (new : any (has_key (key_of host t taken)) others ≡ false) where
      events_left : cleared.events ≡ others
      events_left = ap (λ r. r.0) (db.events.delete_many_lem (λ e. e.tenant_id == t) w.events)

      cleared-IsReady : IsReady host t taken cleared
      cleared-IsReady = record {
        faults =
            ap
              (λ fs. later_faults (
                later_faults (
                  later_faults
                    (later_faults (later_faults (later_faults (later_faults (later_faults fs))))))))
              fine;
        ingest_queue = refl;
        events =
            ap (any (λ e. e.tenant_id == t)) events_left
            ∙ any-select-not (λ e. e.tenant_id == t) w.events;
        new = ap (any (has_key (key_of host t taken))) events_left ∙ new;
        letters =
            ap (λ r. any (λ d. d.tenant_id == t) r.0)
              (db.dead_letters.delete_many_lem (λ d. d.tenant_id == t) w.dead_letters)
            ∙ any-select-not (λ d. d.tenant_id == t) w.dead_letters;
      }

      no_raws : any (λ r. r.tenant_id == t) cleared.raw_records ≡ false
      no_raws =
          ap (λ r. any (λ x. x.tenant_id == t) r.0)
            (db.raw_records.delete_many_lem (λ r. r.tenant_id == t) w.raw_records)
          ∙ any-select-not (λ r. r.tenant_id == t) w.raw_records

      -- Without failing calls, from a state without the demonstration's tenant: the script ends with
      -- exit code 0, where its record is one that the pipeline takes, under a key that no event of
      -- another tenant has. The spine then holds the events of all others and one event.
      pub replay_demo_passes :
          (u : World) × (replay_demo host db bull random w ≡ done 0 u)
          × ((e : Event) × (u.events ≡ others ++ e ∷ []))
      unfolding replay_demo connect_db
      replay_demo_passes =
          let (u, ran, (e, grown), fine_left) =
            demonstrate_passes host db bull random t (host.object_id saved.0.id) taken tenant refl
              valid (valid saved.0.id) cleared cleared-IsReady no_raws
              (find_last db.tenants (has_api_key demo_key) w.tenants tenant no_tenant refl) in
          let fine₁ = ap later_faults fine in
          let fine₂ = ap later_faults fine₁ in
          let fine₃ = ap later_faults fine₂ in
          let fine₇ =
            ap (λ fs. later_faults (later_faults (later_faults (later_faults fs)))) fine₃ in
          (
            after_fault u,
            rw
                (
                  catch,
                  ◌>>=◌,
                  execute_fine (λ v. v) w fine,
                  save_tenant_fine no_tenant,
                  attempt_fine save tenant_stored fine₂,
                  reset_fine saved.1 fine₃,
                  execute_fine (obliterate host db bull random) (reset_world saved.1) fine₇,
                  ran,
                  exit_with_fine 0 u fine_left,
                )
                refl,
            (e, grown ∙ ap (λ l. l ++ e ∷ []) events_left),
          )
