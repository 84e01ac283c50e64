-- ===== src/Ingest/Machine/Calls.antt =====
-- What one call of a run of `ingestEvent` does to the spine.
use shiplog_prototype.Prelude.{
  ℕ, ◌+◌, ◌≤◌, Bool, false, Option, none, some, [], ◌∷◌, ◌++◌, ◌≡◌, ◌⊎◌, inl, inr, refl, arith, any,
  ◌==◌, Bool-cases, if◌then◌else◌,
}
use shiplog_prototype.Errors.{Thrown}
use shiplog_prototype.Models.{Event}
use shiplog_prototype.World.{World, Database, done, after_fault, catch}
use shiplog_prototype.World.Laws.{attempt-cases, query-cases}
use shiplog_prototype.Ingest.{
  IngestStatus, added, updated, unchanged, result, has_key, find_key, find_version, version_exists,
  latest_version, insert_event, append_event, append_failed, is_duplicate_key,
}
use shiplog_prototype.Ingest.Steps.{
  Inserted, insert_event-Inserted, Inserted-AtMostOneRow, AtMostOneRow,
}
use shiplog_prototype.Ingest.Machine.{
  Task, Phase, checking, looking, appending, reported, thrown, after_check, after_look,
  after_append, advance,
}

-- A run that has reported that it stored a version.
abbrev pub wins : Phase → ℕ
wins (reported r) = elim r.status [ added ↦ 1 | updated ↦ 1 | unchanged ↦ 0 ]
wins checking = 0
wins looking = 0
wins (appending s) = 0
wins (thrown e) = 0

wins_at_most_one : (s : IngestStatus) → wins (reported (result s "")) ≤ 1
wins_at_most_one added = omega arith
wins_at_most_one updated = omega arith
wins_at_most_one unchanged = omega arith

-- What one call does: it writes nothing and its run does not come to have won by it, or it adds one
-- row with the key of its task, which was new.
unfoldable pub Moves : Task → Phase → World → Phase × World → Type 0
Moves t p w (p', w') =
    ((w'.events ≡ w.events) × (wins p' ≤ wins p))
    ⊎ ((row : Event) × (row.idempotency_key ≡ t.key)
        × (any (has_key t.key) w.events ≡ false)
        × (w'.events ≡ w.events ++ row ∷ [])
        × (wins p' ≤ wins p + 1))

module _ (db : Database) (t : Task) where
  check-Moves : (w : World) → Moves t checking w (advance db t checking w)
  unfolding advance after_check version_exists Moves
  check-Moves w = elim (query-cases (find_key db t.tenant_id t.key) w) [
    | inl e ↦ elim (Bool-cases (find_key db t.tenant_id t.key (after_fault w))) [
      | inl known ↦ rw (e, known) (inl (refl, omega arith))
      | inr new ↦ rw (e, new) (inl (refl, omega arith))
    ]
    | inr (_, e) ↦ rw e (inl (refl, omega arith))
  ]

  found-Moves :
      (o : Option Event) (w : World) → Moves t looking w (after_look t (done o (after_fault w)))
  unfolding after_look Moves
  found-Moves none w = inl (refl, omega arith)
  found-Moves (some e) w = elim (Bool-cases (e.content_hash == t.hash)) [
    | inl same ↦ rw same (inl (refl, omega arith))
    | inr other ↦ rw other (inl (refl, omega arith))
  ]

  look-Moves : (w : World) → Moves t looking w (advance db t looking w)
  unfolding advance after_look latest_version Moves
  look-Moves w = elim (query-cases (find_version db t.tenant_id t.event) w) [
    | inl e ↦ rw e (found-Moves (find_version db t.tenant_id t.event (after_fault w)) w)
    | inr (_, e) ↦ rw e (inl (refl, omega arith))
  ]

  -- The handler of the append reports no new row, and writes nothing.
  append_failed_loses :
      (e : Thrown) (v : World)
      → ((after_append (append_failed t.key e v)).1 ≡ v)
        × (wins (after_append (append_failed t.key e v)).0 ≡ 0)
  unfolding after_append append_failed
  append_failed_loses e v = elim (Bool-cases (is_duplicate_key e.code)) [
    | inl lost_race ↦ rw lost_race (refl, refl)
    | inr other ↦ rw other (refl, refl)
  ]

  abbrev insert : World → Bool × World
  insert = insert_event db t.tenant_id t.event t.key t.hash

  failed-Moves :
      (s : IngestStatus) (e : Thrown) (w v : World)
      → AtMostOneRow t.tenant_id t.event t.key t.hash w v
      → Moves t (appending s) w (after_append (append_failed t.key e v))
  unfolding Moves AtMostOneRow
  failed-Moves s e w v (inl same) =
      let (kept, lost) = append_failed_loses e v in inl (rw kept same, omega (arith, lost))
  failed-Moves s e w v (inr (row, is_key, _, new, grown, _)) =
      let (kept, lost) = append_failed_loses e v in
      inr (row, is_key, new, (rw kept grown), omega (arith, lost))

  Inserted-Moves :
      (s : IngestStatus) (w : World) (b : Bool) (v : World)
      → Inserted db t.tenant_id t.event t.key t.hash w (b, v)
      → Moves t (appending s) w (reported (if b then result s t.key else result unchanged t.key), v)
  unfolding Moves Inserted
  Inserted-Moves s w b v (inl (no_row, _, same)) = rw no_row (inl (same, omega arith))
  Inserted-Moves s w b v (inr (row, new, grown)) =
      rw row (inr (_, refl, new, grown, wins_at_most_one s))

  append-Moves :
      (s : IngestStatus) (w : World) → Moves t (appending s) w (advance db t (appending s) w)
  unfolding advance after_append append_event Moves AtMostOneRow
  append-Moves s w =
      let w0 = after_fault w in
      let wrote = insert_event-Inserted db t.tenant_id t.event t.key t.hash w0 in
      elim (attempt-cases insert w) [
        | inl e ↦ rw (e, catch) (Inserted-Moves s w0 (insert w0).0 (insert w0).1 wrote)
        | inr (inl (err, e)) ↦ rw (e, catch) (failed-Moves s err w0 w0 (inl refl))
        | inr (inr (err, e)) ↦
            rw (e, catch)
              (failed-Moves s err w0 (insert w0).1
                (Inserted-AtMostOneRow db t.tenant_id t.event t.key t.hash w0 _ wrote))
      ]

  pub advance-Moves : (p : Phase) (w : World) → Moves t p w (advance db t p w)
  unfolding advance Moves
  advance-Moves checking w = check-Moves w
  advance-Moves looking w = look-Moves w
  advance-Moves (appending s) w = append-Moves s w
  advance-Moves (reported r) w = inl (refl, omega arith)
  advance-Moves (thrown e) w = inl (refl, omega arith)
