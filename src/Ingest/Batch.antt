-- ===== src/Ingest/Batch.antt =====
-- A batch never stops half way, and its counts account for every record.
use shiplog_prototype.Prelude.{
  ℕ, ◌+◌, ◌≤◌, String, Option, List, [], ◌∷◌, ◌≡◌, ◌≢◌, inl, inr, refl, ap, ◌∙◌, arith, length,
  length-append,
}
use mathlib.Core.Path.{subst}
use shiplog_prototype.Value.{Value}
use shiplog_prototype.Host.{Host}
use shiplog_prototype.World.{World, Database, Run, done, Result, ok, err, final, ◌>>=◌, catch}
use shiplog_prototype.World.Laws.{Run-cases}
use shiplog_prototype.Ingest.{
  IngestStatus, added, updated, unchanged, ingest_event, ingest_record, ingest_records,
  ingest_nango_records, RunCounts, count_status, count_failed, empty_counts,
}
use shiplog_prototype.Ingest.Spine.{Extends, Extends-same, Extends-trans, ingest_event-Extends}
use shiplog_prototype.Ingest.Replay.{ingest_event-length}

-- The records that the counts account for.
abbrev pub total : RunCounts → ℕ
total c = c.added + c.updated + c.failed + c.unchanged

abbrev pub written : RunCounts → ℕ
written c = c.added + c.updated

-- What a number of rounds does to the counts and to the spine.
pub record Counts (tenant : Option String) (n : ℕ) (c : RunCounts) (w : World) (c' : RunCounts)
    (w' : World) : Type 0 where
  pub all_counted : total c' ≡ total c + n
  pub none_deleted : c'.deleted ≡ c.deleted
  pub rows_written : written c' + length w.events ≤ written c + length w'.events
  pub extended : Extends tenant w w'

Extends-length :
    (tenant : Option String) (w w' : World)
    → Extends tenant w w'
    → length w.events ≤ length w'.events
Extends-length tenant w w' x = omega (arith, ap length x.grown, length-append w.events x.more)

Counts-failed :
    (tenant : Option String) (c : RunCounts) (w w' : World)
    → Extends tenant w w'
    → Counts tenant 1 c w (count_failed c) w'
Counts-failed tenant c w w' x = record {
  all_counted = omega arith;
  none_deleted = refl;
  rows_written = omega (arith, Extends-length tenant w w' x);
  extended = x;
}

Counts-status :
    (tenant : Option String) (c : RunCounts) (s : IngestStatus) (w w' : World)
    → Extends tenant w w'
    → (s ≢ unchanged → length w'.events ≡ length w.events + 1)
    → Counts tenant 1 c w (count_status s c) w'
Counts-status tenant c added w w' x grown = record {
  all_counted = omega arith;
  none_deleted = refl;
  rows_written = omega (arith, grown (λ e. cc));
  extended = x;
}
Counts-status tenant c updated w w' x grown = record {
  all_counted = omega arith;
  none_deleted = refl;
  rows_written = omega (arith, grown (λ e. cc));
  extended = x;
}
Counts-status tenant c unchanged w w' x grown = record {
  all_counted = omega arith;
  none_deleted = refl;
  rows_written = omega (arith, Extends-length tenant w w' x);
  extended = x;
}

module _ (host : Host) (db : Database) (normalize : Value → Result Value)
    (tenant : Option String) where
  -- A run that returns, with what its counts say.
  pub Counted : ℕ → RunCounts → World → Run RunCounts → Type 0
  Counted n c w r = (c' : RunCounts) × (w' : World) × (r ≡ done c' w') × Counts tenant n c w c' w'

  ingest_record-Counted :
      (v : Value) (c : RunCounts) (w : World)
      → Counted 1 c w (ingest_record host db normalize tenant v c w)
  unfolding ingest_record Counted
  ingest_record-Counted v c w = normalized (normalize v) refl
    where
      normalized :
          (o : Result Value)
          → normalize v ≡ o
          → Counted 1 c w (ingest_record host db normalize tenant v c w)
      normalized (err e) is_err =
          (count_failed c, w, rw is_err, Counts-failed tenant c w w (Extends-same tenant w w refl))
      normalized (ok input) is_ok = elim (Run-cases (ingest_event host db tenant input w)) [
        | inl (r, w', e) ↦ (
          count_status r.status c,
          w',
          rw (is_ok, catch, ◌>>=◌, e),
          Counts-status tenant c r.status w w'
              (subst (λ x. Extends tenant w (final x)) e
                (ingest_event-Extends host db tenant input w))
              (ingest_event-length host db tenant input w w' r e),
        )
        | inr (thrown, w', e) ↦ (
          count_failed c,
          w',
          rw (is_ok, catch, ◌>>=◌, e),
          Counts-failed tenant c w w' (
              subst (λ x. Extends tenant w (final x)) e
                (ingest_event-Extends host db tenant input w)),
        )
      ]

  ingest_records-Counted :
      (rs : List Value) (c : RunCounts) (w : World)
      → Counted (length rs) c w (ingest_records host db normalize tenant rs c w)
  unfolding ingest_records Counted
  ingest_records-Counted [] c w = (
    c,
    w,
    refl,
    record {
      all_counted = omega arith;
      none_deleted = refl;
      rows_written = omega arith;
      extended = Extends-same tenant w w refl;
    },
  )
  ingest_records-Counted (r ∷ rs) c w =
      let (c₁, w₁, e, one) = ingest_record-Counted r c w in
      let (c₂, w₂, e', rest) = ingest_records-Counted rs c₁ w₁ in
      (
        c₂,
        w₂,
        rw (◌>>=◌, e) e',
        record {
          all_counted = omega (arith, one.all_counted, rest.all_counted);
          none_deleted = rest.none_deleted ∙ one.none_deleted;
          rows_written = omega (arith, one.rows_written, rest.rows_written);
          extended = Extends-trans one.extended rest.extended;
        },
      )

  -- Whichever calls fail and whatever the normalizer throws, a batch returns counts. They account for
  -- every record once, none as deleted, at least one row was stored for each record that counts as
  -- added or updated, and the spine was only extended, by rows of the tenant with new keys.
  pub ingest_nango_records-Counts :
      (rs : List Value) (w : World)
      → (c : RunCounts) × (w' : World) × (ingest_nango_records host db normalize tenant rs w
          ≡ done c w')
        × (total c ≡ length rs)
        × (c.deleted ≡ 0)
        × (written c + length w.events ≤ length w'.events)
        × Extends tenant w w'
  unfolding ingest_nango_records Counted
  ingest_nango_records-Counts rs w =
      let (c, w', e, k) = ingest_records-Counted rs empty_counts w in
      (
        c,
        w',
        e,
        omega (arith, k.all_counted),
        k.none_deleted,
        omega (arith, k.rows_written),
        k.extended,
      )
