-- ===== src/Queue/Requeue/Backfill.antt =====
-- What a backfill puts on the ingest queue (src/queue/replay.ts).
use mathlib.Core.List.{Perm, append-nil, append_assoc}
use shiplog_prototype.Prelude.{
  ◌==◌, ◌&&◌, Bool, none, some, String, List, [], ◌∷◌, ◌++◌, map, ◌≡◌, ◌⊎◌, inl, inr, refl, sym, ap,
  ◌∙◌, select, length,
}
use shiplog_prototype.Value.{Value, undefined}
use shiplog_prototype.Errors.{Thrown}
use shiplog_prototype.Models.{IngestJobData, RawRecord}
use shiplog_prototype.World.{World, Database, Run, done, fail, after_fault, ◌>>=◌}
use shiplog_prototype.World.Laws.{query-cases, execute-cases}
use shiplog_prototype.Queue.Requeue.{
  enqueue, is_landed, same_option, backfill_job, find_landed, backfill_all, backfill_connection,
}

module _ (db : Database) (tenant_id connection_id : String) where
  -- A job of the tenant and the connection with this record, and with nothing injected.
  abbrev pub job_with : Value → IngestJobData
  job_with payload = record {
    tenant_id = tenant_id;
    connection_id = some connection_id;
    sync_run_id = none;
    record_data = payload;
    poison = undefined;
    demo_fault = none;
  }

  -- A landed record of the tenant's connection.
  abbrev pub is_of : RawRecord → Bool
  is_of r = r.tenant_id == tenant_id && same_option r.connection_id connection_id

  abbrev jobs : List RawRecord → List IngestJobData
  jobs rs = map (λ r. job_with r.payload) rs

  -- The jobs of a list of records were queued, all of them if the run returned.
  pub Queues : {A : Type 0} → A → List RawRecord → World → Run A → Type 0
  Queues a rs w r =
      ((w' : World) × (r ≡ done a w') × (w'.ingest_queue ≡ w.ingest_queue ++ jobs rs))
      ⊎ ((e : Thrown) × (w' : World) × (before after : List RawRecord) × (r ≡ fail e w')
          × (rs ≡ before ++ after)
          × (w'.ingest_queue ≡ w.ingest_queue ++ jobs before))

  backfill_all-Queues :
      (rs : List RawRecord) (w : World)
      → Queues tt rs w (backfill_all db tenant_id connection_id rs w)
  unfolding backfill_all enqueue Queues
  backfill_all-Queues [] w = inl (w, refl, sym (append-nil w.ingest_queue))
  backfill_all-Queues (r ∷ rs) w =
      let j = backfill_job tenant_id connection_id r in
      let add = λ (v : World). record v { ingest_queue = v.ingest_queue ++ j ∷ [] } in
      let w₁ = add (after_fault w) in
      elim (execute-cases add w) [
        | inr (inl (t, e)) ↦ inr (
          t,
          after_fault w,
          [],
          r ∷ rs,
          rw (◌>>=◌, e) refl,
          refl,
          sym (append-nil w.ingest_queue),
        )
        | inr (inr (t, e)) ↦ inr (t, w₁, r ∷ [], rs, rw (◌>>=◌, e) refl, refl, refl)
        | inl e ↦ elim (backfill_all-Queues rs w₁) [
          | inl (w', e', q) ↦
              inl (w', rw (◌>>=◌, e) e', q ∙ append_assoc w.ingest_queue (j ∷ []) (jobs rs))
          | inr (t, w', front, back, e', split, q) ↦ inr (
            t,
            w',
            r ∷ front,
            back,
            rw (◌>>=◌, e) e',
            ap (λ l. r ∷ l) split,
            q ∙ append_assoc w.ingest_queue (j ∷ []) (jobs front),
          )
        ]
      ]

  -- Whichever calls fail, a backfill queues one job with the stored payload for each landed record of
  -- the tenant's connection, in some order, and returns their number; where it throws, it has queued
  -- the jobs of a first part of that order, and nothing else.
  pub backfill_connection-Queues :
      (w : World)
      → ((e : Thrown) × (backfill_connection db connection_id tenant_id w ≡ fail e (after_fault w)))
        ⊎ ((rs : List RawRecord) × Perm rs (select is_of w.raw_records)
            × Queues (length rs) rs w (backfill_connection db connection_id tenant_id w))
  unfolding backfill_connection Queues
  backfill_connection-Queues w =
      let find = find_landed db tenant_id connection_id in
      let rs = find (after_fault w) in
      elim (query-cases find w) [
        | inr (t, e) ↦ inl (t, rw (◌>>=◌, e) refl)
        | inl e ↦ inr (
          rs,
          db.raw_records.find_lem (is_landed tenant_id connection_id) w.raw_records,
          elim (backfill_all-Queues rs (after_fault w)) [
            | inl (w', e', q) ↦ inl (w', rw (◌>>=◌, e, e') refl, q)
            | inr (t, w', front, back, e', split, q) ↦
                inr (t, w', front, back, rw (◌>>=◌, e, e') refl, split, q)
          ],
        )
      ]
