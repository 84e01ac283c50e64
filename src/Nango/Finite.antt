-- ===== src/Nango/Finite.antt =====
-- When the loop over pages of src/nango/reconcileProcessor.ts ends.
use shiplog_prototype.Prelude.{
  ℕ, zero, suc, ◌<◌, String, Option, some, List, [], ◌∷◌, ◌≡◌, ◌⊎◌, inl, inr, refl, arith,
  Option-cases,
}
use shiplog_prototype.Value.{Value}
use shiplog_prototype.Host.{Host}
use shiplog_prototype.Errors.{Thrown}
use shiplog_prototype.Models.{ReconcileJobData}
use shiplog_prototype.World.{World, Database, M, Run, done, fail, after_fault, ◌>>=◌}
use shiplog_prototype.World.Laws.{query-cases, Run-cases}
use shiplog_prototype.Nango.Pages.{NangoClient, Page, Counters}
use shiplog_prototype.Nango.Reconcile.{
  ReconcileResult, checkpoint, next_page, reconcile_page, reconcile_step, reconcile_pages,
  reconcile_params, reconcile_processor, find_state, cursor_of_state,
}

module _ (host : Host) (db : Database) (nango : NangoClient) (d : ReconcileJobData) where
  -- The API's page tokens lead to an end: each next token has a lower rank than the one before,
  -- whatever has happened in the meantime.
  pub record IsFinite (rank : Option String → ℕ) : Type 0 where
    pub falls :
        (cursor : Option String) (next : String) (w : World)
        → next_page
            (nango.list_records (reconcile_params host db nango d cursor) w).next_cursor
            cursor
          ≡ some next
        → rank (some next) < rank cursor

  -- The run ended by itself: it returned a result, or threw.
  unfoldable pub Finishes : Run (Option ReconcileResult) → Type 0
  Finishes r =
      ((x : ReconcileResult) × (w : World) × (r ≡ done (some x) w))
      ⊎ ((e : Thrown) × (w : World) × (r ≡ fail e w))

  reconcile_step-Finishes :
      (go : Option String → Option String → Counters → M (Option ReconcileResult)) (page : Page)
      (rs : List Value) (cursor page_cursor : Option String) (c : Counters) (w : World)
      → ((next : String)
          → next_page page.next_cursor page_cursor ≡ some next
          → (c' : Counters) (v : World)
          → Finishes (go (checkpoint host page cursor) (some next) c' v))
      → Finishes (reconcile_step host db nango d page rs cursor page_cursor c go w)
  unfolding reconcile_step Finishes
  reconcile_step-Finishes go page [] cursor page_cursor c w h =
      inl (record { counters = c; cursor = cursor }, w, refl)
  reconcile_step-Finishes go page (r ∷ rs) cursor page_cursor c w h =
      elim (Run-cases (reconcile_page host db nango d page cursor c w)) [
        | inr (t, v, e) ↦ inr (t, v, rw (◌>>=◌, e) refl)
        | inl (c', v, e) ↦ elim (Option-cases (next_page page.next_cursor page_cursor)) [
          | inl last ↦ inl (
            record { counters = c'; cursor = checkpoint host page cursor },
            v,
            rw (◌>>=◌, e, last) refl,
          )
          | inr (next, more) ↦ rw (◌>>=◌, e, more) (h next more c' v)
        ]
      ]

  reconcile_pages-Finishes :
      (rank : Option String → ℕ)
      → IsFinite rank
      → (n : ℕ) (cursor page_cursor : Option String) (c : Counters) (w : World)
      → rank page_cursor < n
      → Finishes (reconcile_pages host db nango d n cursor page_cursor c w)
  unfolding reconcile_pages Finishes
  reconcile_pages-Finishes rank fin zero cursor page_cursor c w low = absurd (omega arith)
  reconcile_pages-Finishes rank fin (suc n) cursor page_cursor c w low =
      let ask = nango.list_records (reconcile_params host db nango d page_cursor) in
      elim (query-cases ask w) [
        | inr (t, e) ↦ inr (t, after_fault w, rw (◌>>=◌, e) refl)
        | inl e ↦
            rw (◌>>=◌, e)
              (reconcile_step-Finishes (reconcile_pages host db nango d n) (ask (after_fault w))
                (ask (after_fault w)).records cursor page_cursor c (after_fault w)
                (λ next more c' v.
                  reconcile_pages-Finishes rank fin n _ (some next) c' v
                    (omega (arith, fin.falls page_cursor next (after_fault w) more))))
      ]

  -- Where the API's page tokens lead to an end, a run with more fuel than the rank of any token ends
  -- by itself, with a result or a thrown error, whichever calls fail.
  pub reconcile_processor-Finishes :
      (rank : Option String → ℕ) (fuel : ℕ)
      → IsFinite rank
      → ((cursor : Option String) → rank cursor < fuel)
      → (w : World) → Finishes (reconcile_processor host db nango d fuel w)
  unfolding reconcile_processor Finishes
  reconcile_processor-Finishes rank fuel fin low w =
      let find = find_state host db nango d in
      let start = cursor_of_state (find (after_fault w)) in
      elim (query-cases find w) [
        | inr (t, e) ↦ inr (t, after_fault w, rw (◌>>=◌, e) refl)
        | inl e ↦
            rw (◌>>=◌, e)
              (reconcile_pages-Finishes rank fin fuel start start
                (record { fetched = 0; enqueued = 0 }) (after_fault w) (low start))
      ]
