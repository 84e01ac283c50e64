-- ===== src/Api/Requests/Routes.antt =====
-- The routes that write keep the data of other tenants, and queue what is the tenant's.
use mathlib.Core.List
use mathlib.Core.List.{Mem, append-nil}
use shiplog_prototype.Prelude.{
  String, Bool, true, not, Option, none, some, List, [], ◌∷◌, ◌++◌, ◌≡◌, ◌==◌, sym, inl, inr, refl,
  any, nat_eq, Bool-cases, and-true, eq_iff, All,
}
use shiplog_prototype.Value.{Value}
use shiplog_prototype.Host.{Host}
use shiplog_prototype.Models.{DeadLetter, RawRecord, Connection, IngestJobData, ReconcileJob}
use shiplog_prototype.Mongo.{IsFound}
use shiplog_prototype.World.{World, Database, after_fault, execute, query, return, ◌>>=◌}
use shiplog_prototype.Queue.Requeue.{
  Replayed, enqueue, stamp, save_stamp, is_item, is_landed, same_option, find_item, replay_item,
  replay_dead_letter, backfill_job, find_landed, backfill_all, backfill_connection,
}
use shiplog_prototype.Queue.Sweep.{
  add_once, has_job_id, reconcile_job_for, enqueue_reconcile_job, enqueue_models, models_of,
}
use shiplog_prototype.Api.{
  Reply, or_404, replay_route, backfill_route, find_connection, queue_models, requested_models,
  manual_reconcile, reconcile_route,
}
use shiplog_prototype.Api.Connections.{Registration, upsert_connection, register}
use shiplog_prototype.Api.Connections.Isolated.{upsert_connection-KeepsOthers}
use shiplog_prototype.Api.Frames.{
  Frames, Frames-writes, no_jobs, no_polls, Stamps, as_before, has_stamp, OwnsJob, OwnsPoll,
  Mem-select, Keeps, Keeps-return, Keeps-throw, Keeps-execute, Keeps-bind, Keeps-if, KeepsAt,
  KeepsAt-all, KeepsAt-query, KeepsAt-bind, KeepsAt-or_500, KeepsAt-if,
}

module _ (host : Host) (db : Database) (t : String) (o : World) where
  save_stamp-Stamps :
      (d : DeadLetter)
      → IsFound (λ x. x.tenant_id == t) d o.dead_letters
      → (w : World) → Stamps host t o w.dead_letters (save_stamp host db d w).dead_letters
  save_stamp-Stamps d found w =
      let p = λ (x : DeadLetter). nat_eq x.id d.id in
      elim (Bool-cases (any p w.dead_letters)) [
        | inl there ↦
            has_stamp d w.now found
              (db.dead_letters.update_one-some p (stamp w.now) w.dead_letters there)
              (as_before refl)
        | inr absent ↦
            as_before (db.dead_letters.update_one-none p (stamp w.now) w.dead_letters absent)
      ]

  save_stamp-Frames :
      (d : DeadLetter)
      → IsFound (λ x. x.tenant_id == t) d o.dead_letters
      → (w : World) → Frames host t o w (save_stamp host db d w)
  save_stamp-Frames d found w =
      Frames-writes host t o w (save_stamp host db d w) refl (save_stamp-Stamps d found w)
        (λ u n. refl) (no_jobs host t o w.ingest_queue) (no_polls host t o w.reconcile_queue)

  upsert_connection-Frames :
      (g : Registration) (w : World) → Frames host t o w (upsert_connection host db t g w)
  unfolding upsert_connection
  upsert_connection-Frames g w =
      Frames-writes host t o w _ refl (as_before refl) (upsert_connection-KeepsOthers host db t g w)
        (no_jobs host t o w.ingest_queue) (no_polls host t o w.reconcile_queue)

  enqueue-Keeps : (d : IngestJobData) → OwnsJob host t o d → Keeps host t o (enqueue d)
  unfolding enqueue
  enqueue-Keeps d own =
      let add = λ (w : World). record w { ingest_queue = w.ingest_queue ++ d ∷ [] } in
      Keeps-execute host t o add (λ w.
        Frames-writes host t o w (add w) refl (as_before refl) (λ u n. refl)
          (d ∷ [], refl, (own, tt)) (no_polls host t o w.reconcile_queue))

  item-IsMine :
      (id : String) (d : DeadLetter)
      → IsFound (is_item host id t) d o.dead_letters
      → IsFound (λ x. x.tenant_id == t) d o.dead_letters
  item-IsMine id d found = record {
    front = found.front;
    back = found.back;
    matched =
        (and-true (host.object_id d.id == host.to_object_id id) (d.tenant_id == t) found.matched).1;
    place = found.place;
  }

  replay_item-Keeps :
      (id : String) (x : Option DeadLetter)
      → find_item host db id t o ≡ x
      → Keeps host t o (replay_item host db x)
  unfolding replay_item
  replay_item-Keeps id none e = Keeps-return host t o none
  replay_item-Keeps id (some d) e =
      let mine =
        item-IsMine id d (db.dead_letters.find_one-some (is_item host id t) o.dead_letters d e) in
      Keeps-bind host t o (enqueue d.payload) _ (enqueue-Keeps d.payload (inl (d, mine, refl)))
        (λ _.
          Keeps-bind host t o (execute (save_stamp host db d)) _
            (Keeps-execute host t o (save_stamp host db d) (save_stamp-Frames d mine))
            (λ _. Keeps-return host t o _))

  or_404-Keeps : (x : Option Replayed) → Keeps host t o (or_404 host db x)
  unfolding or_404
  or_404-Keeps none = Keeps-return host t o _
  or_404-Keeps (some r) = Keeps-return host t o _

  -- The world in which the handler of a request begins.
  abbrev v : World
  v = after_fault o

  refused-KeepsAt : {A : Type 0} (r : Reply A) → KeepsAt host t o v (return r)
  refused-KeepsAt r = KeepsAt-all host t o v (return r) (Keeps-return host t o r)

  pub replay_route-KeepsAt :
      (has_queue : Bool) (id : String) → KeepsAt host t o v (replay_route host db has_queue id t)
  unfolding replay_route replay_dead_letter
  replay_route-KeepsAt has_queue id = KeepsAt-or_500 host t o v _ (
      KeepsAt-if host t o v (not has_queue) _ _ (refused-KeepsAt _) (
        KeepsAt-if host t o v (not (host.is_object_id id)) _ _ (refused-KeepsAt _) (
          KeepsAt-bind host t o v (query (find_item host db id t) >>= replay_item host db) _
            (KeepsAt-query host t o v (find_item host db id t) (replay_item host db)
              (replay_item-Keeps id (find_item host db id t o) refl))
            or_404-Keeps)))

  -- A landed record of the tenant.
  abbrev IsMine : RawRecord → Type 0
  IsMine r = Mem r o.raw_records × ((r.tenant_id == t) ≡ true)

  backfill_all-Keeps :
      (id : String) (rs : List RawRecord)
      → ((r : RawRecord) → Mem r rs → IsMine r)
      → Keeps host t o (backfill_all db t id rs)
  unfolding backfill_all
  backfill_all-Keeps id [] own = Keeps-return host t o _
  backfill_all-Keeps id (r ∷ rs) own =
      let (there, mine) = own r List.mem-cons_self in
      Keeps-bind host t o _ _
        (enqueue-Keeps (backfill_job t id r) (inr (r, there, mine, refl, refl)))
        (λ _. backfill_all-Keeps id rs (λ q m. own q (List.mem-cons_of_mem r m)))

  landed-IsMine : (id : String) (r : RawRecord) → Mem r (find_landed db t id o) → IsMine r
  landed-IsMine id r m =
      let p = is_landed t id in
      let (there, passes) =
        Mem-select p r o.raw_records
          ((List.Perm.mem_iff (db.raw_records.find_lem p o.raw_records)).0 m) in
      (there, (and-true (r.tenant_id == t) (same_option r.connection_id id) passes).0)

  pub backfill_route-KeepsAt :
      (has_queue : Bool) (id : String) → KeepsAt host t o v (backfill_route host db has_queue id t)
  unfolding backfill_route backfill_connection
  backfill_route-KeepsAt has_queue id = KeepsAt-or_500 host t o v _ (
      KeepsAt-if host t o v (not has_queue) _ _ (refused-KeepsAt _) (
        KeepsAt-if host t o v (not (host.is_object_id id)) _ _ (refused-KeepsAt _) (
          KeepsAt-bind host t o v (backfill_connection db id t) _
            (KeepsAt-query host t o v (find_landed db t id) _ (
              Keeps-bind host t o (backfill_all db t id (find_landed db t id o)) _
                (backfill_all-Keeps id (find_landed db t id o) (landed-IsMine id))
                (λ _. Keeps-return host t o _)))
            (λ n. Keeps-return host t o _))))

  -- A connection of the tenant.
  abbrev IsMyConnection : Connection → Type 0
  IsMyConnection c = IsFound (λ x. x.tenant_id == t) c o.connections

  add_once-polls :
      (c : Connection) (m : String)
      → IsMyConnection c
      → (js : List ReconcileJob)
      → (ks : List ReconcileJob) × (add_once (reconcile_job_for host c m) js ≡ js ++ ks)
        × All (OwnsPoll host t o) ks
  unfolding add_once reconcile_job_for
  add_once-polls c m mine js =
      let j = reconcile_job_for host c m in
      elim (Bool-cases (any (has_job_id j.job_id) js)) [
        | inl there ↦ ([], rw (there) (sym (append-nil js)), tt)
        | inr new ↦
            (j ∷ [], rw (new) refl, ((c, mine, (eq_iff c.tenant_id t).0 mine.matched, refl), tt))
      ]

  enqueue_reconcile_job-Keeps :
      (c : Connection) (m : String)
      → IsMyConnection c
      → Keeps host t o (enqueue_reconcile_job host c m)
  unfolding enqueue_reconcile_job
  enqueue_reconcile_job-Keeps c m mine =
      Keeps-if host t o (host.is_job_id (reconcile_job_for host c m).job_id) _ _
        (Keeps-execute host t o _ (λ w.
          Frames-writes host t o w _ refl (as_before refl) (λ u n. refl)
            (no_jobs host t o w.ingest_queue) (add_once-polls c m mine w.reconcile_queue)))
        (Keeps-throw host t o _ _)

  enqueue_models-Keeps :
      (c : Connection) (ms : List String)
      → IsMyConnection c
      → Keeps host t o (enqueue_models host c ms)
  unfolding enqueue_models
  enqueue_models-Keeps c [] mine = Keeps-return host t o _
  enqueue_models-Keeps c (m ∷ ms) mine =
      Keeps-bind host t o _ _ (enqueue_reconcile_job-Keeps c m mine)
        (λ _. enqueue_models-Keeps c ms mine)

  queue_models-Keeps :
      (ms : List String) (x : Option Connection)
      → ((c : Connection) → x ≡ some c → IsMyConnection c)
      → Keeps host t o (queue_models host db ms x)
  unfolding queue_models
  queue_models-Keeps ms none own = Keeps-return host t o _
  queue_models-Keeps [] (some c) own =
      Keeps-bind host t o _ _ (enqueue_models-Keeps c (models_of c) (own c refl))
        (λ _. Keeps-return host t o _)
  queue_models-Keeps (m ∷ ms) (some c) own =
      Keeps-bind host t o _ _ (enqueue_models-Keeps c (m ∷ ms) (own c refl))
        (λ _. Keeps-return host t o _)

  found-IsMyConnection :
      (id : String) (c : Connection) → find_connection host db id t o ≡ some c → IsMyConnection c
  found-IsMyConnection id c e =
      let found = db.connections.find_one-some _ o.connections c e in
      record {
        front = found.front;
        back = found.back;
        matched =
            (and-true (host.object_id c.id == host.to_object_id id) (c.tenant_id == t)
              found.matched).1;
        place = found.place;
      }

  manual_reconcile-KeepsAt :
      (id : String) (x : Option (List String))
      → KeepsAt host t o v (manual_reconcile host db id t x)
  unfolding manual_reconcile
  manual_reconcile-KeepsAt id none = refused-KeepsAt _
  manual_reconcile-KeepsAt id (some ms) =
      KeepsAt-query host t o v (find_connection host db id t) (queue_models host db ms)
        (queue_models-Keeps ms (find_connection host db id t o) (found-IsMyConnection id))

  pub reconcile_route-KeepsAt :
      (has_queue : Bool) (id : String) (model : Value)
      → KeepsAt host t o v (reconcile_route host db has_queue id t model)
  unfolding reconcile_route
  reconcile_route-KeepsAt has_queue id model = KeepsAt-or_500 host t o v _ (
      KeepsAt-if host t o v (not has_queue) _ _ (refused-KeepsAt _) (
        KeepsAt-if host t o v (not (host.is_object_id id)) _ _ (refused-KeepsAt _)
          (manual_reconcile-KeepsAt id (requested_models host db model))))

  pub register-Keeps :
      (body : Value) (g : Option Registration) → Keeps host t o (register host db t body g)
  unfolding register
  register-Keeps body none = Keeps-throw host t o _ _
  register-Keeps body (some g) =
      Keeps-bind host t o _ _
        (Keeps-execute host t o (upsert_connection host db t g) (λ w. upsert_connection-Frames g w))
        (λ _. Keeps-return host t o _)
