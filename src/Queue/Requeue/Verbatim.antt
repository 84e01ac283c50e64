-- ===== src/Queue/Requeue/Verbatim.antt =====
-- What a replay and a backfill put on the ingest queue.
use shiplog_prototype.Prelude.{
  ◌⊎◌, Bool-cases, String, Bool, true, false, Option, none, some, List, [], ◌∷◌, ◌++◌, ◌≡◌, inl,
  inr, refl, ap, nat_eq, any, Option-cases, arith,
}
use shiplog_prototype.Host.{Host}
use shiplog_prototype.Models.{DeadLetter}
use shiplog_prototype.Mongo.{IsFound, IsFound-any, IsUpdate}
use shiplog_prototype.World.{World, Database, done, final, after_fault, later_faults, ◌>>=◌}
use shiplog_prototype.World.Laws.{query-cases, query_fine, execute-cases, execute_fine}
use shiplog_prototype.Queue.Requeue.{
  enqueue, is_item, stamp, find_item, save_stamp, replay_item, replay_dead_letter,
}

-- A stored document is found by its own id.
same_id-any :
    {p : DeadLetter → Bool} (d : DeadLetter) (rows : List DeadLetter)
    → IsFound p d rows
    → any (λ x. nat_eq x.id d.id) rows ≡ true
same_id-any d rows f =
    IsFound-any (λ x. nat_eq x.id d.id) d rows
      (record { front = f.front; back = f.back; matched = ground arith; place = f.place })

module _ (host : Host) (db : Database) (id tenant_id : String) where
  -- Either nothing was queued and no dead letter was touched, or exactly one payload was queued: that
  -- of a stored item of this tenant with this id, as it was stored; and then no dead letter was
  -- touched, or one of that item's id got the time as its replay stamp.
  pub data Replays (w w' : World) : Type 0 where
    not_queued : w'.ingest_queue ≡ w.ingest_queue → w'.dead_letters ≡ w.dead_letters → Replays w w'
    queued :
        (d : DeadLetter)
        → IsFound (is_item host id tenant_id) d w.dead_letters
        → w'.ingest_queue ≡ w.ingest_queue ++ d.payload ∷ []
        → ((w'.dead_letters ≡ w.dead_letters)
            ⊎ IsUpdate
                (λ x. nat_eq x.id d.id)
                (λ x. record x { replayed_at = some w.now })
                w.dead_letters
                w'.dead_letters)
        → Replays w w'

  replay_item-Replays :
      (d : DeadLetter) (v : World)
      → IsFound (is_item host id tenant_id) d v.dead_letters
      → Replays v (final (replay_item host db (some d) (after_fault v)))
  unfolding replay_item enqueue
  replay_item-Replays d v found =
      let w = after_fault v in
      let add = λ (v : World). record v { ingest_queue = v.ingest_queue ++ d.payload ∷ [] } in
      let w₁ = add (after_fault w) in
      let stamped =
        db.dead_letters.update_one-some (λ x. nat_eq x.id d.id) (stamp v.now) v.dead_letters
          (same_id-any d v.dead_letters found) in
      elim (execute-cases add w) [
        | inl e ↦ elim (execute-cases (save_stamp host db d) w₁) [
          | inl e' ↦ rw (final, ◌>>=◌, e, e') (queued d found refl (inr stamped))
          | inr (inl (_, e')) ↦ rw (final, ◌>>=◌, e, e') (queued d found refl (inl refl))
          | inr (inr (_, e')) ↦ rw (final, ◌>>=◌, e, e') (queued d found refl (inr stamped))
        ]
        | inr (inl (_, e)) ↦ rw (final, ◌>>=◌, e) (not_queued refl refl)
        | inr (inr (_, e)) ↦ rw (final, ◌>>=◌, e) (queued d found refl (inl refl))
      ]

  found-Replays :
      (o : Option DeadLetter) (w : World)
      → find_item host db id tenant_id w ≡ o
      → Replays w (final (replay_item host db o (after_fault w)))
  unfolding replay_item
  found-Replays none w e = not_queued refl refl
  found-Replays (some d) w e =
      replay_item-Replays d w (db.dead_letters.find_one-some _ w.dead_letters d e)

  -- Whichever calls fail, a replay queues at most one job: the stored payload, verbatim, of an item of
  -- this tenant with this id. Nothing is stamped as replayed unless that was queued, and then at most
  -- one dead letter, one of that item's id.
  pub replay_dead_letter-Replays :
      (w : World) → Replays w (final (replay_dead_letter host db id tenant_id w))
  unfolding replay_dead_letter replay_item
  replay_dead_letter-Replays w = elim (query-cases (find_item host db id tenant_id) w) [
    | inr (_, e) ↦ rw (final, ◌>>=◌, e) (not_queued refl refl)
    | inl e ↦ rw (final, ◌>>=◌, e) (found-Replays (find_item host db id tenant_id w) w refl)
  ]

  -- Where no call fails, an item of another tenant, or one that is not there, is answered by `null`
  -- and nothing is written.
  replay_dead_letter_absent :
      (w : World)
      → w.faults ≡ []
      → any (is_item host id tenant_id) w.dead_letters ≡ false
      → replay_dead_letter host db id tenant_id w ≡ done none (after_fault w)
  unfolding replay_dead_letter replay_item
  replay_dead_letter_absent w fine absent = elim (Option-cases (find_item host db id tenant_id w)) [
    | inl e ↦ rw (◌>>=◌, query_fine (find_item host db id tenant_id) w fine, e)
    | inr (d, e) ↦
        let there =
          IsFound-any (is_item host id tenant_id) d w.dead_letters
            (db.dead_letters.find_one-some _ w.dead_letters d e) in
        cc
  ]

  -- Where no call fails, an item of the tenant is queued verbatim and answered with its payload, no
  -- call fails afterwards, and nothing else is written.
  pub replay_dead_letter-IsFound :
      (w : World)
      → w.faults ≡ []
      → any (is_item host id tenant_id) w.dead_letters ≡ true
      → (d : DeadLetter) × (w' : World) × IsFound (is_item host id tenant_id) d w.dead_letters
        × (replay_dead_letter host db id tenant_id w
            ≡ done
                (some (record {
                  replayed = true;
                  dead_letter_id = host.object_id d.id;
                  payload = d.payload;
                }))
                w')
        × (w'.ingest_queue ≡ w.ingest_queue ++ d.payload ∷ [])
        × IsUpdate (λ x. nat_eq x.id d.id) (stamp w.now) w.dead_letters w'.dead_letters
        × (w'.faults ≡ [])
        × (w' ≡ record w {
          dead_letters = w'.dead_letters;
          ingest_queue = w'.ingest_queue;
          faults = w'.faults;
        })
  unfolding replay_dead_letter replay_item enqueue
  replay_dead_letter-IsFound w fine present =
      elim (Option-cases (find_item host db id tenant_id w)) [
        | inl e ↦
            let absent =
              db.dead_letters.find_one-none (is_item host id tenant_id) w.dead_letters e in
            cc
        | inr (d, e) ↦
            let found = db.dead_letters.find_one-some _ w.dead_letters d e in
            let add = λ (v : World). record v { ingest_queue = v.ingest_queue ++ d.payload ∷ [] } in
            let fine₁ : later_faults w.faults ≡ [] = ap later_faults fine in
            let w₁ = add (after_fault (after_fault w)) in
            (
              d,
              save_stamp host db d (after_fault w₁),
              found,
              rw (
                ◌>>=◌,
                query_fine (find_item host db id tenant_id) w fine,
                e,
                execute_fine add (after_fault w) fine₁,
                execute_fine (save_stamp host db d) w₁ (ap later_faults fine₁),
              ),
              refl,
              db.dead_letters.update_one-some (λ x. nat_eq x.id d.id) (stamp w.now) w.dead_letters
                  (same_id-any d w.dead_letters found),
              ap later_faults (ap later_faults fine₁),
              refl,
            )
      ]

  -- How a replay ends where no call fails. If the tenant has no item of that id, it is answered by
  -- `null` and nothing is written. If it has one, its stored payload is queued, once and unchanged, it
  -- is stamped with the time and stays stored, and the payload is answered.
  pub replay_dead_letter_fine :
      (w : World)
      → w.faults ≡ []
      → ((any (is_item host id tenant_id) w.dead_letters ≡ false)
          × (replay_dead_letter host db id tenant_id w ≡ done none (after_fault w)))
        ⊎ ((d : DeadLetter) × (w' : World) × IsFound (is_item host id tenant_id) d w.dead_letters
            × (replay_dead_letter host db id tenant_id w
                ≡ done
                    (some (record {
                      replayed = true;
                      dead_letter_id = host.object_id d.id;
                      payload = d.payload;
                    }))
                    w')
            × (w'.ingest_queue ≡ w.ingest_queue ++ d.payload ∷ [])
            × IsUpdate (λ x. nat_eq x.id d.id) (stamp w.now) w.dead_letters w'.dead_letters)
  replay_dead_letter_fine w fine =
      elim (Bool-cases (any (is_item host id tenant_id) w.dead_letters)) [
        | inl present ↦
            let (d, w', found, replayed, added, stamped, _, _) =
              replay_dead_letter-IsFound w fine present in
            inr (d, w', found, replayed, added, stamped)
        | inr absent ↦ inl (absent, replay_dead_letter_absent w fine absent)
      ]
