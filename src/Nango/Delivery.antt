-- ===== src/Nango/Delivery.antt =====
-- What a run of the sync processor delivers, and when it ends (src/nango/syncProcessor.ts).
use mathlib.Core.List.{append_assoc, map-append}
use shiplog_prototype.Prelude.{
  ℕ, zero, suc, ◌+◌, ◌<◌, String, Option, none, some, List, ◌++◌, map, ◌≡◌, ◌⊎◌, inl, inr, refl, ap,
  ◌∙◌, arith, All-append, length, length-append, Option-cases,
}
use shiplog_prototype.Value.{Value}
use shiplog_prototype.Host.{Host}
use shiplog_prototype.Errors.{Thrown}
use shiplog_prototype.Models.{NangoSyncJobData, Via, reconcile}
use shiplog_prototype.World.{World, Database, Run, done, fail, after_fault, ◌>>=◌}
use shiplog_prototype.World.Laws.{query-cases}
use shiplog_prototype.Nango.Pages.{NangoClient, Page, Counters, record_job}
use shiplog_prototype.Nango.Sync.{usable, sync_params, sync_page, sync_pages, sync_processor}
use shiplog_prototype.Nango.Landing.{live, IsLanded, Fans, Keeps-All, Ends, handle_records-Ends}

module _ (host : Host) (db : Database) (tenant_id connection_id : String) (model : Value)
    (via : Via) where
  Fans-append :
      (rs ss : List Value) (u v w : World)
      → Fans host db tenant_id connection_id model via rs u v
      → Fans host db tenant_id connection_id model via ss v w
      → Fans host db tenant_id connection_id model via (rs ++ ss) u w
  Fans-append rs ss u v w a b =
      let job = record_job tenant_id connection_id in
      record {
        landed =
            All-append (IsLanded host db tenant_id connection_id model via w) rs ss
              (Keeps-All host db tenant_id connection_id model via rs v w b.kept a.landed) b.landed;
        queued = rw (map-append job rs ss) (
            b.queued
            ∙ ap (λ l. l ++ map job ss) a.queued
            ∙ append_assoc u.ingest_queue (map job rs) (map job ss));
        kept = λ id h. b.kept id (a.kept id h);
        same_cursor = b.same_cursor ∙ a.same_cursor;
      }

module _ (host : Host) (db : Database) (nango : NangoClient) (d : NangoSyncJobData) where
  abbrev pub page_at : Option String → World → Page
  page_at cursor w = nango.list_records (sync_params host db nango d cursor) w

  -- The live records of a chain of answers: each page is asked for with the token of the one before,
  -- and the last one names no next page.
  pub data Chain : Option String → List Value → Type 0 where
    last_page :
        {cursor : Option String} (w : World)
        → usable (page_at cursor w).next_cursor ≡ none
        → Chain cursor (live d.model (page_at cursor w).records)
    more_pages :
        {cursor : Option String} {rs : List Value} (w : World) (next : String)
        → usable (page_at cursor w).next_cursor ≡ some next
        → Chain (some next) rs
        → Chain cursor (live d.model (page_at cursor w).records ++ rs)

  -- Page tokens lead to an end: each has a lower rank than the one that it was asked with.
  pub record IsFinite (rank : Option String → ℕ) : Type 0 where
    pub falls :
        (cursor : Option String) (next : String) (w : World)
        → usable (page_at cursor w).next_cursor ≡ some next
        → rank (some next) < rank cursor

  -- The run returned after a whole chain of pages, and delivered what they hold; or it threw.
  pub Delivers : Option String → Counters → World → Run (Option Counters) → Type 0
  Delivers cursor c w r =
      ((rs : List Value) × (c' : Counters) × (w' : World) × Chain cursor rs
        × (r ≡ done (some c') w')
        × Fans host db d.tenant_id d.connection_id d.model reconcile rs w w'
        × (c'.enqueued ≡ c.enqueued + length rs))
      ⊎ ((e : Thrown) × (w' : World) × (r ≡ fail e w') × (w'.sync_states ≡ w.sync_states))

  sync_pages-Delivers :
      (rank : Option String → ℕ)
      → IsFinite rank
      → (n : ℕ) (cursor : Option String) (c : Counters) (w : World) → rank cursor < n
      → Delivers cursor c w (sync_pages host db nango d n cursor c w)
  unfolding sync_pages sync_page Delivers Ends
  sync_pages-Delivers rank fin zero cursor c w low = absurd (omega arith)
  sync_pages-Delivers rank fin (suc n) cursor c w low =
      let v = after_fault w in
      let page = page_at cursor v in
      elim (query-cases (page_at cursor) w) [
        | inr (t, e) ↦ inr (t, v, rw (◌>>=◌, e) refl, refl)
        | inl e ↦
            elim (handle_records-Ends host db d.tenant_id d.connection_id d.model reconcile
              page.records c v) [
                | inr (t, v', e', same) ↦ inr (t, v', rw (◌>>=◌, e, e') refl, same)
                | inl (c', v', e', fans, _, counted) ↦
                    elim (Option-cases (usable page.next_cursor)) [
                      | inl last ↦ inl (
                        live d.model page.records,
                        c',
                        v',
                        last_page v last,
                        rw (◌>>=◌, e, e', last) refl,
                        record {
                          landed = fans.landed;
                          queued = fans.queued;
                          kept = fans.kept;
                          same_cursor = fans.same_cursor;
                        },
                        counted,
                      )
                      | inr (next, more) ↦
                          elim (sync_pages-Delivers rank fin n (some next) c' v'
                            (omega (arith, fin.falls cursor next v more))) [
                              | inr (t, w', e'', same) ↦
                                  inr (t, w', rw (◌>>=◌, e, e', more) e'', same ∙ fans.same_cursor)
                              | inl (rs, c'', w', chain, e'', rest, total) ↦ inl (
                                live d.model page.records ++ rs,
                                c'',
                                w',
                                more_pages v next more chain,
                                rw (◌>>=◌, e, e', more) e'',
                                Fans-append host db d.tenant_id d.connection_id d.model reconcile
                                    (live d.model page.records) rs w v' w'
                                    (record {
                                      landed = fans.landed;
                                      queued = fans.queued;
                                      kept = fans.kept;
                                      same_cursor = fans.same_cursor;
                                    })
                                    rest,
                                omega (arith, length-append (live d.model page.records) rs),
                              )
                            ]
                    ]
              ]
      ]

  -- Where the page tokens lead to an end and the fuel exceeds their rank, a sync run ends by itself,
  -- whichever calls fail. If it returns, it has followed the pages from the first to the last, and
  -- landed and queued all their live records in order; otherwise it throws. It moves no cursor.
  pub sync_processor-Delivers :
      (rank : Option String → ℕ) (fuel : ℕ)
      → IsFinite rank
      → rank none < fuel
      → (w : World)
      → Delivers none
          (record { fetched = 0; enqueued = 0 })
          w
          (sync_processor host db nango d fuel w)
  unfolding sync_processor
  sync_processor-Delivers rank fuel fin low w =
      sync_pages-Delivers rank fin fuel none (record { fetched = 0; enqueued = 0 }) w low
