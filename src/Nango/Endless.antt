-- ===== src/Nango/Endless.antt =====
-- When the loop over pages of src/nango/reconcileProcessor.ts goes on for ever.
use shiplog_prototype.Prelude.{
  ℕ, zero, suc, ◌+◌, String, Option, none, some, List, [], ◌∷◌, ◌++◌, ◌≡◌, refl, ap, ◌∙◌,
  Bool-cases, inl, inr,
}
use shiplog_prototype.Value.{Value, str}
use shiplog_prototype.Host.{Host}
use shiplog_prototype.Models.{ReconcileJobData, Via, reconcile}
use shiplog_prototype.World.{World, Database, M, Run, done, after_fault, later_faults, ◌>>=◌}
use shiplog_prototype.World.Laws.{query_fine, execute_fine}
use shiplog_prototype.Queue.Requeue.{enqueue}
use shiplog_prototype.Nango.Raw.{upsert_raw, land_raw_record}
use shiplog_prototype.Nango.Pages.{
  NangoClient, Page, Counters, is_tombstone, stamped, record_job, land_and_enqueue, handle_record,
  handle_records,
}
use shiplog_prototype.Nango.Reconcile.{
  ReconcileResult, checkpoint, next_page, save_cursor, reconcile_page, reconcile_step,
  reconcile_pages, reconcile_params, reconcile_processor, find_state, cursor_of_state,
}

-- The run returned this value, and no fault is left.
abbrev Works : {A : Type 0} → Run A → Type 0
Works {A} r = (a : A) × (w : World) × (r ≡ done a w) × (w.faults ≡ [])

module _ (host : Host) (db : Database) (tenant_id connection_id : String) (model : Value)
    (via : Via) where
  handle_record-Works :
      (r : Value) (c : Counters) (w : World)
      → w.faults ≡ []
      → Works (handle_record host db tenant_id connection_id model via r c w)
  unfolding handle_record land_and_enqueue land_raw_record upsert_raw enqueue
  handle_record-Works r c w fine = elim (Bool-cases (is_tombstone r)) [
    | inl dead ↦ (record c { fetched = c.fetched + 1 }, w, rw dead refl, fine)
    | inr live ↦
        let s = stamped model r in
        let land = upsert_raw host db tenant_id connection_id via s in
        let add = λ (v : World). record v {
          ingest_queue = v.ingest_queue ++ record_job tenant_id connection_id s ∷ [];
        } in
        let w1 = land (after_fault w) in
        (
          record { fetched = c.fetched + 1; enqueued = c.enqueued + 1 },
          add (after_fault w1),
          rw (live, ◌>>=◌, execute_fine land w fine, execute_fine add w1 (ap later_faults fine))
              refl,
          ap later_faults (ap later_faults fine),
        )
  ]

  handle_records-Works :
      (rs : List Value) (c : Counters) (w : World)
      → w.faults ≡ []
      → Works (handle_records host db tenant_id connection_id model via rs c w)
  unfolding handle_records
  handle_records-Works [] c w fine = (c, w, refl, fine)
  handle_records-Works (r ∷ rs) c w fine =
      let (c1, w1, e, fine1) = handle_record-Works r c w fine in
      let (c2, w2, e', fine2) = handle_records-Works rs c1 w1 fine1 in
      (c2, w2, rw (◌>>=◌, e) e', fine2)

module _ (host : Host) (db : Database) (nango : NangoClient) (d : ReconcileJobData) where
  abbrev asked : Option String → World → Page
  asked cursor = nango.list_records (reconcile_params host db nango d cursor)

  -- Whatever token it is asked with, the API answers with records and with a token that differs from
  -- that one, as an API that alternates between two tokens does.
  pub record IsEndless : Type 0 where
    pub has_records :
        (cursor : Option String) (w : World)
        → (r : Value) × (rs : List Value) × ((asked cursor w).records ≡ r ∷ rs)
    pub has_next :
        (cursor : Option String) (w : World)
        → (next : String) × (next_page (asked cursor w).next_cursor cursor ≡ some next)

  reconcile_page-Works :
      (page : Page) (cursor : Option String) (c : Counters) (w : World)
      → w.faults ≡ []
      → Works (reconcile_page host db nango d page cursor c w)
  unfolding reconcile_page save_cursor
  reconcile_page-Works page cursor c w fine =
      let save = save_cursor host db nango d (checkpoint host page cursor) in
      let (c1, w1, e, fine1) =
        handle_records-Works host db d.tenant_id d.connection_id (str d.model) reconcile
          page.records c w fine in
      (
        c1,
        save (after_fault w1),
        rw (◌>>=◌, e, execute_fine save w1 fine1) refl,
        ap later_faults fine1,
      )

  reconcile_step_goes_on :
      (go : Option String → Option String → Counters → M (Option ReconcileResult)) (page : Page)
      (records : List Value) (cursor page_cursor : Option String) (c c1 : Counters) (w w1 : World)
      (r : Value) (rs : List Value) (next : String)
      → records ≡ r ∷ rs
      → next_page page.next_cursor page_cursor ≡ some next
      → reconcile_page host db nango d page cursor c w ≡ done c1 w1
      → reconcile_step host db nango d page records cursor page_cursor c go w
        ≡ go (checkpoint host page cursor) (some next) c1 w1
  unfolding reconcile_step
  reconcile_step_goes_on go page records cursor page_cursor c c1 w w1 r rs next there more e =
      rw (there, ◌>>=◌, e, more) refl

  reconcile_pages_endless :
      IsEndless
      → (n : ℕ) (cursor page_cursor : Option String) (c : Counters) (w : World) → w.faults ≡ []
      → (w' : World) × (reconcile_pages host db nango d n cursor page_cursor c w ≡ done none w')
  unfolding reconcile_pages
  reconcile_pages_endless endless zero cursor page_cursor c w fine = (w, refl)
  reconcile_pages_endless endless (suc n) cursor page_cursor c w fine =
      let v = after_fault w in
      let page = asked page_cursor v in
      let (r, rs, there) = endless.has_records page_cursor v in
      let (next, more) = endless.has_next page_cursor v in
      let (c1, w1, e, fine1) = reconcile_page-Works page cursor c v (ap later_faults fine) in
      let (w', rest) =
        reconcile_pages_endless endless n (checkpoint host page cursor) (some next) c1 w1 fine1 in
      (
        w',
        rw (◌>>=◌, query_fine (asked page_cursor) w fine)
            (reconcile_step_goes_on (reconcile_pages host db nango d n) page page.records cursor
                page_cursor c c1 v w1 r rs next there more e
              ∙ rest),
      )

  -- From such an API a run polls for ever: without failing calls, no number of rounds is enough for it
  -- to return or to throw.
  pub reconcile_processor_endless :
      (fuel : ℕ) (w : World)
      → IsEndless
      → w.faults ≡ []
      → (w' : World) × (reconcile_processor host db nango d fuel w ≡ done none w')
  unfolding reconcile_processor
  reconcile_processor_endless fuel w endless fine =
      let start = cursor_of_state (find_state host db nango d w) in
      let (w', e) =
        reconcile_pages_endless endless fuel start start (record { fetched = 0; enqueued = 0 })
          (after_fault w) (ap later_faults fine) in
      (w', rw (◌>>=◌, query_fine (find_state host db nango d) w fine) e)
