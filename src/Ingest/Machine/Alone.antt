-- ===== src/Ingest/Machine/Alone.antt =====
-- A worker that is left alone does what `ingestEvent` does.
use shiplog_prototype.Prelude.{
  Bool, true, false, Option, none, some, ◌≡◌, refl, Bool-cases, inl, inr, ◌==◌,
}
use shiplog_prototype.Models.{Event}
use shiplog_prototype.World.{World, Database, Run, done, fail, ◌>>=◌}
use shiplog_prototype.World.Laws.{Run-cases}
use shiplog_prototype.Ingest.{
  IngestResult, version_exists, latest_version, append_event, classify, ingest_unknown,
  ingest_parsed, added, updated,
}
use shiplog_prototype.Ingest.Machine.{
  Task, Phase, checking, appending, reported, thrown, after_check, after_look, after_append,
  advance,
}

-- The run that has come to an end.
abbrev pub outcome : Phase × World → Option (Run IngestResult)
outcome (reported r, w) = some (done r w)
outcome (thrown e, w) = some (fail e w)
outcome (_, w) = none

module _ (db : Database) (t : Task) where
  abbrev pub advance_pair : Phase × World → Phase × World
  advance_pair (p, w) = advance db t p w

  -- Three calls in a row.
  abbrev pub run_alone : World → Phase × World
  run_alone w = advance_pair (advance_pair (advance_pair (checking, w)))

  append-outcome :
      (s : _) (w : World)
      → outcome (advance db t (appending s) w)
        ≡ some (append_event db t.tenant_id t.event t.key t.hash s w)
  unfolding advance after_append
  append-outcome s w = elim (Run-cases (append_event db t.tenant_id t.event t.key t.hash s w)) [
    | inl (r, v, e) ↦ rw e refl
    | inr (x, v, e) ↦ rw e refl
  ]

  classify-outcome :
      (o : Option Event) (w : World)
      → outcome (advance_pair (after_look t (done o w)))
        ≡ some (classify db t.tenant_id t.event t.key t.hash o w)
  unfolding after_look advance classify after_append
  classify-outcome none w = append-outcome added w
  classify-outcome (some e) w = elim (Bool-cases (e.content_hash == t.hash)) [
    | inl same ↦ rw same refl
    | inr other ↦ rw other (append-outcome updated w)
  ]

  unknown-outcome :
      (known : Bool) (w : World)
      → outcome (advance_pair (advance_pair (after_check t (done known w))))
        ≡ some (ingest_unknown db t.tenant_id t.event t.key t.hash known w)
  unfolding after_check advance ingest_unknown after_look
  unknown-outcome true w = refl
  unknown-outcome false w = elim (Run-cases (latest_version db t.tenant_id t.event w)) [
    | inl (o, v, e) ↦ rw (◌>>=◌, e) (classify-outcome o v)
    | inr (x, v, e) ↦ rw (◌>>=◌, e) refl
  ]

  -- Three calls of the machine in a row, without others in between, end exactly as `ingestEvent` ends
  -- on a validated event: with the same result or thrown error, and in the same world.
  pub run_alone-outcome :
      (w : World)
      → outcome (run_alone w) ≡ some (ingest_parsed db t.tenant_id t.event t.key t.hash w)
  unfolding advance after_check ingest_parsed after_look after_append
  run_alone-outcome w = elim (Run-cases (version_exists db t.tenant_id t.key w)) [
    | inl (known, v, e) ↦ rw (◌>>=◌, e) (unknown-outcome known v)
    | inr (x, v, e) ↦ rw (◌>>=◌, e) refl
  ]
