-- ===== src/Nango/Checkpoint.antt =====
-- The cursor of a reconcile run moves only over pages that are landed
-- (src/nango/reconcileProcessor.ts).
use shiplog_prototype.Prelude.{
  ◌==◌, none, false, ℕ, zero, suc, String, true, Option, some, List, [], ◌∷◌, ◌++◌, map, ◌≡◌, ◌⊎◌,
  inl, inr, refl, ap, ◌∙◌, any, All, eq_refl, Bool-cases, Option-cases,
}
use shiplog_prototype.Value.{get, Value, str}
use shiplog_prototype.Host.{Host}
use shiplog_prototype.Errors.{Thrown}
use shiplog_prototype.Models.{ReconcileJobData, SyncState, incremental, reconcile}
use shiplog_prototype.Mongo.{IsFound}
use shiplog_prototype.World.{World, Database, M, Run, done, fail, final, after_fault, ◌>>=◌}
use shiplog_prototype.World.Laws.{execute-cases, query-cases}
use shiplog_prototype.Nango.Pages.{NangoClient, Page, Counters, record_job}
use shiplog_prototype.Nango.Reconcile.{
  cursor_text, last_cursor, ReconcileResult, is_state, checkpoint, next_page, save_cursor,
  reconcile_page, reconcile_step, reconcile_pages, reconcile_params, reconcile_processor,
  find_state, cursor_of_state,
}
use shiplog_prototype.Nango.Sync.{usable}
use shiplog_prototype.Nango.Landing.{live, IsLanded, Ends, handle_records-Ends}

usable-some : (k next : String) → usable (some k) ≡ some next → some k ≡ some next
usable-some k next h = elim (Bool-cases (k == "")) [
  | inl e ↦ let never = (rw (e) at h) in cc
  | inr e ↦ rw (e) at h
]

module _ (host : Host) (db : Database) (nango : NangoClient) (d : ReconcileJobData) where
  -- The cursor of a record, where it has one.
  abbrev pub cursor_of : Value → Option String
  cursor_of r = cursor_text host.date_text (get "cursor" (get "_nango_metadata" r))

  -- The stored cursor of this connection and model.
  pub record HasCursor (cursor : Option String) (rows : List SyncState) : Type 0 where
    pub state : SyncState
    pub stored : IsFound (is_state d) state rows
    pub is_cursor : state.cursor ≡ cursor

  -- Where the cursor is after a page: at the last record's own cursor; where it has none, at the
  -- page's token; and where there is none either, where it was.
  pub data IsPast (page : Page) (last : Value) (old new : Option String) : Type 0 where
    at_record : (k : String) → cursor_of last ≡ some k → new ≡ some k → IsPast page last old new
    at_token :
        (k : String)
        → cursor_of last ≡ none
        → page.next_cursor ≡ some k
        → new ≡ some k
        → IsPast page last old new
    at_old : cursor_of last ≡ none → page.next_cursor ≡ none → new ≡ old → IsPast page last old new

  -- A page with records is passed: every live record is landed and queued, in order, and then the
  -- stored cursor was moved from the old place to the new one.
  pub record Passes (page : Page) (old new : Option String) (w w' : World) : Type 0 where
    pub front : List Value
    pub last : Value
    pub is_page : page.records ≡ front ++ last ∷ []
    pub landed :
        All
          (IsLanded host db d.tenant_id d.connection_id (str d.model) reconcile w')
          (live (str d.model) page.records)
    pub queued :
        w'.ingest_queue
        ≡ w.ingest_queue
          ++ map (record_job d.tenant_id d.connection_id) (live (str d.model) page.records)
    pub past : IsPast page last old new
    pub moved : HasCursor new w'.sync_states

  last_cursor-cursor_of :
      (r : Value) (rs : List Value)
      → (front : List Value) × (last : Value) × (r ∷ rs ≡ front ++ last ∷ [])
        × (last_cursor host (r ∷ rs) ≡ cursor_of last)
  unfolding last_cursor
  last_cursor-cursor_of r [] = ([], r, refl, refl)
  last_cursor-cursor_of r (q ∷ rs) =
      let (front, last, is_page, e) = last_cursor-cursor_of q rs in
      (r ∷ front, last, ap (λ l. r ∷ l) is_page, e)

  checkpoint-IsPast :
      (page : Page) (last : Value) (old : Option String)
      → last_cursor host page.records ≡ cursor_of last
      → IsPast page last old (checkpoint host page old)
  checkpoint-IsPast page last old h = elim (Option-cases (cursor_of last)) [
    | inr (k, e) ↦ at_record k e (rw (h, e) refl)
    | inl e ↦ elim (Option-cases page.next_cursor) [
      | inr (k, f) ↦ at_token k e f (rw (h, e, f) refl)
      | inl f ↦ at_old e f (rw (h, e, f) refl)
    ]
  ]

  state_row :
      (cursor : Option String) (n t : ℕ)
      → is_state d (record {
        id = n;
        connection_id = d.connection_id;
        tenant_id = d.tenant_id;
        model = d.model;
        cursor = cursor;
        last_sync_at = t;
        mode = incremental;
      })
        ≡ true
  state_row cursor n t = rw (eq_refl d.tenant_id, eq_refl d.connection_id, eq_refl d.model) refl

  save_cursor-HasCursor :
      (cursor : Option String) (w : World)
      → HasCursor cursor (save_cursor host db nango d cursor w).sync_states
  unfolding save_cursor
  save_cursor-HasCursor cursor w =
      let p = is_state d in
      let f =
        λ (s : SyncState). record s { cursor = cursor; last_sync_at = w.now; mode = incremental } in
      let new : SyncState = record {
        id = w.next_id;
        connection_id = d.connection_id;
        tenant_id = d.tenant_id;
        model = d.model;
        cursor = cursor;
        last_sync_at = w.now;
        mode = incremental;
      } in
      elim (Bool-cases (any p w.sync_states)) [
        | inl known ↦
            let (u, _) = db.sync_states.upsert-update p f new w.sync_states known in
            record {
              state = f u.row;
              stored = record {
                front = u.front;
                back = u.back;
                matched = u.matched;
                place = u.after;
              };
              is_cursor = refl;
            }
        | inr absent ↦ record {
          state = new;
          stored = record {
            front = w.sync_states;
            back = [];
            matched = state_row cursor w.next_id w.now;
            place = ap (λ r. r.0) (db.sync_states.upsert-insert p f new w.sync_states absent);
          };
          is_cursor = refl;
        }
      ]

  -- How the round of one page ends: the cursor stays, or the page has been passed.
  pub PageEnds : Page → Option String → World → Run Counters → Type 0
  PageEnds page cursor w r =
      let new = checkpoint host page cursor in
      (((e : Thrown) × (w' : World) × (r ≡ fail e w') × (w'.sync_states ≡ w.sync_states))
        ⊎ ((e : Thrown) × (w' : World) × (r ≡ fail e w') × Passes page cursor new w w'))
      ⊎ ((c : Counters) × (w' : World) × (r ≡ done c w') × Passes page cursor new w w')

  reconcile_page-PageEnds :
      (page : Page) (r : Value) (rs : List Value)
      → page.records ≡ r ∷ rs
      → (cursor : Option String) (c : Counters) (w : World)
      → PageEnds page cursor w (reconcile_page host db nango d page cursor c w)
  unfolding PageEnds reconcile_page save_cursor Ends
  reconcile_page-PageEnds page r rs some_records cursor c w =
      let (front, last, is_page, same) = last_cursor-cursor_of r rs in
      elim (handle_records-Ends host db d.tenant_id d.connection_id (str d.model) reconcile
        page.records c w) [
          | inr (t, v, e, unmoved) ↦ inl (inl (t, v, rw (◌>>=◌, e) refl, unmoved))
          | inl (c', v, e, fans, _, _) ↦
              let new = checkpoint host page cursor in
              let save = save_cursor host db nango d new in
              let passes : Passes page cursor new w (save (after_fault v)) = record {
                front = front;
                last = last;
                is_page = some_records ∙ is_page;
                landed = fans.landed;
                queued = fans.queued;
                past =
                    checkpoint-IsPast page last cursor (ap (last_cursor host) some_records ∙ same);
                moved = save_cursor-HasCursor new (after_fault v);
              } in
              elim (execute-cases save v) [
                | inl e' ↦ inr (c', save (after_fault v), rw (◌>>=◌, e, e') refl, passes)
                | inr (inl (t, e')) ↦
                    inl (inl (t, after_fault v, rw (◌>>=◌, e, e') refl, fans.same_cursor))
                | inr (inr (t, e')) ↦
                    inl (inr (t, save (after_fault v), rw (◌>>=◌, e, e') refl, passes))
              ]
        ]

  -- The rounds of a loop that begins in the first world with this cursor and this token: pages that
  -- were passed, one after the other, and after them a part that leaves all cursors alone. Each page is
  -- what the client answered to the token that the page before it named, and moves the cursor on from
  -- where that page left it.
  pub data Rounds : Option String → Option String → World → World → Type 0 where
    stays :
        {cursor token : Option String} {w w' : World}
        → w'.sync_states ≡ w.sync_states
        → Rounds cursor token w w'
    passes :
        {cursor token : Option String} {u v w : World} (page : Page) (new : Option String)
        → page ≡ nango.list_records (reconcile_params host db nango d token) (after_fault u)
        → Passes page cursor new u v
        → Rounds new page.next_cursor v w
        → Rounds cursor token u w

  -- The cursor that is stored for this connection and model, `none` where no state is stored.
  abbrev pub IsStored : Option String → List SyncState → Type 0
  IsStored cursor rows = ((cursor ≡ none) × (any (is_state d) rows ≡ false)) ⊎ HasCursor cursor rows

  -- A run is a loop that begins at the stored cursor, or leaves all cursors alone.
  abbrev pub Polls : World → World → Type 0
  Polls w w' =
      (cursor : Option String) × IsStored cursor w.sync_states
      × ((w'.sync_states ≡ w.sync_states) ⊎ Rounds cursor cursor (after_fault w) w')

  find_state-IsStored :
      (w : World) → IsStored (cursor_of_state (find_state host db nango d w)) w.sync_states
  find_state-IsStored w = elim (Option-cases (find_state host db nango d w)) [
    | inl e ↦ rw e (inl (refl, db.sync_states.find_one-none (is_state d) w.sync_states e))
    | inr (s, e) ↦ rw e (
        inr (record {
          state = s;
          stored = db.sync_states.find_one-some (is_state d) w.sync_states s e;
          is_cursor = refl;
        }))
  ]

  next_page-some :
      (token page_token : Option String) (next : String)
      → next_page token page_token ≡ some next
      → token ≡ some next
  unfolding next_page
  next_page-some none page_token next h = cc
  next_page-some (some k) none next h = usable-some k next h
  next_page-some (some k) (some c) next h = elim (Bool-cases (k == c)) [
    | inl e ↦ let never = (rw (e) at h) in cc
    | inr e ↦ usable-some k next (rw (e) at h)
  ]

  from_token :
      {cursor t t' : Option String} {v w : World}
      → t ≡ t'
      → Rounds cursor t' v w
      → Rounds cursor t v w
  from_token e r = rw e r

  reconcile_step-Rounds :
      (go : Option String → Option String → Counters → M (Option ReconcileResult))
      → ((cursor token : Option String) (c : Counters) (w : World)
          → Rounds cursor token w (final (go cursor token c w)))
      → (page : Page) (rs : List Value) → page.records ≡ rs
      → (cursor token : Option String) (c : Counters) (w : World)
      → page ≡ nango.list_records (reconcile_params host db nango d token) (after_fault w)
      → Rounds cursor token w
          (final (reconcile_step host db nango d page rs cursor token c go (after_fault w)))
  unfolding reconcile_step PageEnds
  reconcile_step-Rounds go h page [] e cursor token c w answer = stays refl
  reconcile_step-Rounds go h page (r ∷ rs) some_records cursor token c w answer =
      let new = checkpoint host page cursor in
      elim (reconcile_page-PageEnds page r rs some_records cursor c (after_fault w)) [
        | inl (inl (t, v, e, same)) ↦ rw (final, ◌>>=◌, e) (stays same)
        | inl (inr (t, v, e, p)) ↦
            rw (final, ◌>>=◌, e) (passes page new answer (before w v p) (stays refl))
        | inr (c', v, e, p) ↦ elim (Option-cases (next_page page.next_cursor token)) [
          | inl last ↦ rw (◌>>=◌, e, last) (passes page new answer (before w v p) (stays refl))
          | inr (next, more) ↦
              rw (◌>>=◌, e, more)
                (passes page new answer (before w v p) (
                  from_token (next_page-some page.next_cursor token next more)
                    (h new (some next) c' v)))
        ]
      ]
    where
      before :
          (u v : World)
          → Passes page cursor (checkpoint host page cursor) (after_fault u) v
          → Passes page cursor (checkpoint host page cursor) u v
      before u v p = record {
        front = p.front;
        last = p.last;
        is_page = p.is_page;
        landed = p.landed;
        queued = p.queued;
        past = p.past;
        moved = p.moved;
      }

  reconcile_pages-Rounds :
      (n : ℕ) (cursor token : Option String) (c : Counters) (w : World)
      → Rounds cursor token w (final (reconcile_pages host db nango d n cursor token c w))
  unfolding reconcile_pages
  reconcile_pages-Rounds zero cursor token c w = stays refl
  reconcile_pages-Rounds (suc n) cursor token c w =
      let ask = nango.list_records (reconcile_params host db nango d token) in
      elim (query-cases ask w) [
        | inr (t, e) ↦ rw (final, ◌>>=◌, e) (stays refl)
        | inl e ↦
            rw (◌>>=◌, e)
              (reconcile_step-Rounds (reconcile_pages host db nango d n) (reconcile_pages-Rounds n)
                (ask (after_fault w)) (ask (after_fault w)).records refl cursor token c w refl)
      ]

  -- Whichever calls fail and wherever the run stops, also at the end of its fuel: a reconcile run
  -- begins at the stored cursor, and is a sequence of pages and after them a part that leaves all
  -- cursors alone. Each page has records and is what the client answered to the token of the page
  -- before it, the first to the stored cursor; its live records were all landed and queued, in order,
  -- before the stored cursor was moved to the cursor of its last record, or, where that has none, to
  -- the page's token, or, where there is none either, nowhere.
  pub reconcile_processor-Polls :
      (fuel : ℕ) (w : World) → Polls w (final (reconcile_processor host db nango d fuel w))
  unfolding reconcile_processor
  reconcile_processor-Polls fuel w =
      let find = find_state host db nango d in
      let start = cursor_of_state (find (after_fault w)) in
      (
        start,
        find_state-IsStored (after_fault w),
        elim (query-cases find w) [
          | inr (t, e) ↦ rw (final, ◌>>=◌, e) (inl refl)
          | inl e ↦
              rw (◌>>=◌, e)
                (inr (
                  reconcile_pages-Rounds fuel start start (record { fetched = 0; enqueued = 0 })
                    (after_fault w)))
        ],
      )
