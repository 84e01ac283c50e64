-- ===== src/Nango/Landing.antt =====
-- What the loop over a page's records leaves behind (src/nango, src/events/raw.ts).
use mathlib.Core.List.{append-nil, append_assoc}
use shiplog_prototype.Prelude.{
  ℕ, ◌+◌, String, Bool, true, false, List, [], ◌∷◌, ◌++◌, map, ◌≡◌, ◌⊎◌, inl, inr, refl, sym, ap,
  ◌∙◌, arith, any, any-append, or-true_right, All, length, eq_refl, Bool-cases, if◌then◌else◌,
}
use shiplog_prototype.Value.{Value}
use shiplog_prototype.Host.{Host}
use shiplog_prototype.Models.{Via}
use shiplog_prototype.Mongo.{IsUpdate}
use shiplog_prototype.World.{World, Database, Run, done, fail, after_fault, ◌>>=◌}
use shiplog_prototype.World.Laws.{execute-cases}
use shiplog_prototype.Errors.{Thrown}
use shiplog_prototype.Queue.Requeue.{enqueue}
use shiplog_prototype.Nango.Raw.{
  is_raw, refresh, raw_row, record_id, external_id_of, upsert_raw, land_raw_record,
}
use shiplog_prototype.Nango.Pages.{
  is_tombstone, stamped, record_job, Counters, land_and_enqueue, handle_record, handle_records,
}

any-IsUpdate :
    {Row : Type 0} (q p : Row → Bool) (f : Row → Row) (rows rows' : List Row)
    → ((x : Row) → q (f x) ≡ q x)
    → IsUpdate p f rows rows'
    → any q rows' ≡ any q rows
any-IsUpdate q p f rows rows' kept u =
    rw
      (
        u.before,
        u.after,
        any-append q u.front (f u.row ∷ u.back),
        any-append q u.front (u.row ∷ u.back),
        kept u.row,
      )
      refl

-- The records of a page that are not tombstones, with their model stamped.
abbrev pub live : Value → List Value → List Value
live model [] = []
live model (r ∷ rs) =
    let rest = live model rs in if is_tombstone r then rest else stamped model r ∷ rest

module _ (host : Host) (db : Database) (tenant_id connection_id : String) (model : Value)
    (via : Via) where
  -- A raw record of this tenant and connection is stored under this id.
  abbrev pub HasId : World → String → Type 0
  HasId w id = any (is_raw tenant_id connection_id id) w.raw_records ≡ true

  abbrev pub IsLanded : World → Value → Type 0
  IsLanded w r = HasId w (record_id host r)

  abbrev pub Keeps : World → World → Type 0
  Keeps w w' = (id : String) → HasId w id → HasId w' id

  own_row :
      (id : String) (x : String) (r : Value) (n t : ℕ)
      → is_raw tenant_id connection_id id (raw_row n t tenant_id connection_id id x r via) ≡ true
  own_row id x r n t = rw (eq_refl tenant_id, eq_refl connection_id, eq_refl id) refl

  upsert_raw-Keeps :
      (r : Value) (w : World) → Keeps w (upsert_raw host db tenant_id connection_id via r w)
  unfolding upsert_raw
  upsert_raw-Keeps r w id h =
      let p = is_raw tenant_id connection_id (record_id host r) in
      let x = external_id_of host r in
      let new = raw_row w.next_id w.now tenant_id connection_id (record_id host r) x r via in
      let q = is_raw tenant_id connection_id id in
      elim (Bool-cases (any p w.raw_records)) [
        | inl known ↦
            let (u, _) = db.raw_records.upsert-update p (refresh x r via) new w.raw_records known in
            any-IsUpdate q p (refresh x r via) w.raw_records _ (λ _. refl) u ∙ h
        | inr absent ↦
            rw
              (
                db.raw_records.upsert-insert p (refresh x r via) new w.raw_records absent,
                any-append q w.raw_records (new ∷ []),
                h,
              )
              refl
      ]

  upsert_raw-IsLanded :
      (r : Value) (w : World) → IsLanded (upsert_raw host db tenant_id connection_id via r w) r
  unfolding upsert_raw
  upsert_raw-IsLanded r w =
      let p = is_raw tenant_id connection_id (record_id host r) in
      let x = external_id_of host r in
      let new = raw_row w.next_id w.now tenant_id connection_id (record_id host r) x r via in
      elim (Bool-cases (any p w.raw_records)) [
        | inl known ↦
            let (u, _) = db.raw_records.upsert-update p (refresh x r via) new w.raw_records known in
            any-IsUpdate p p (refresh x r via) w.raw_records _ (λ _. refl) u ∙ known
        | inr absent ↦
            rw
              (
                db.raw_records.upsert-insert p (refresh x r via) new w.raw_records absent,
                any-append p w.raw_records (new ∷ []),
                own_row (record_id host r) x r w.next_id w.now,
              )
              (or-true_right (any p w.raw_records) false)
      ]

  -- How a run over a number of records has changed the world: it has landed and queued these.
  pub record Fans (rs : List Value) (w w' : World) : Type 0 where
    pub landed : All (IsLanded w') rs
    pub queued : w'.ingest_queue ≡ w.ingest_queue ++ map (record_job tenant_id connection_id) rs
    pub kept : Keeps w w'
    pub same_cursor : w'.sync_states ≡ w.sync_states

  -- The run of one record, landed and queued; or it failed, and no cursor was moved.
  land-Fans :
      (r : Value) (w : World)
      → ((w' : World) × (land_and_enqueue host db tenant_id connection_id model via r w
            ≡ done tt w')
          × Fans (r ∷ []) w w')
        ⊎ ((e : Thrown) × (w' : World) × (land_and_enqueue host db tenant_id connection_id model via
                r w
              ≡ fail e w')
            × (w'.sync_states ≡ w.sync_states))
  unfolding land_and_enqueue land_raw_record enqueue upsert_raw
  land-Fans r w =
      let land = upsert_raw host db tenant_id connection_id via r in
      let w₁ = land (after_fault w) in
      let add = λ (v : World). record v {
        ingest_queue = v.ingest_queue ++ record_job tenant_id connection_id r ∷ [];
      } in
      elim (execute-cases land w) [
        | inr (inl (t, e)) ↦ inr (t, after_fault w, rw (◌>>=◌, e) refl, refl)
        | inr (inr (t, e)) ↦ inr (t, w₁, rw (◌>>=◌, e) refl, refl)
        | inl e ↦ elim (execute-cases add w₁) [
          | inr (inl (t, e')) ↦ inr (t, after_fault w₁, rw (◌>>=◌, e, e') refl, refl)
          | inr (inr (t, e')) ↦ inr (t, add (after_fault w₁), rw (◌>>=◌, e, e') refl, refl)
          | inl e' ↦ inl (
            add (after_fault w₁),
            rw (◌>>=◌, e, e') refl,
            record {
              landed = (upsert_raw-IsLanded r (after_fault w), tt);
              queued = refl;
              kept = upsert_raw-Keeps r (after_fault w);
              same_cursor = refl;
            },
          )
        ]
      ]

  Fans-none : (w : World) → Fans [] w w
  Fans-none w = record {
    landed = tt;
    queued = sym (append-nil w.ingest_queue);
    kept = λ _ h. h;
    same_cursor = refl;
  }

  pub Keeps-All :
      (rs : List Value) (w w' : World) → Keeps w w' → All (IsLanded w) rs → All (IsLanded w') rs
  Keeps-All [] w w' k _ = tt
  Keeps-All (r ∷ rs) w w' k (h, hs) = (k (record_id host r) h, Keeps-All rs w w' k hs)

  Fans-cons :
      (r : Value) (rs : List Value) (u v w : World)
      → Fans (r ∷ []) u v
      → Fans rs v w
      → Fans (r ∷ rs) u w
  Fans-cons r rs u v w a b = record {
    landed = (b.kept (record_id host r) a.landed.0, b.landed);
    queued =
        b.queued
        ∙ ap (λ l. l ++ map (record_job tenant_id connection_id) rs) a.queued
        ∙ append_assoc u.ingest_queue _ (map (record_job tenant_id connection_id) rs);
    kept = λ id h. b.kept id (a.kept id h);
    same_cursor = b.same_cursor ∙ a.same_cursor;
  }

  -- How the loop ends: every live record is landed and queued, in order, and the counters say how
  -- many there were; or something failed, and no cursor was moved.
  unfoldable pub Ends : List Value → Counters → World → Run Counters → Type 0
  Ends rs c w r =
      ((c' : Counters) × (w' : World) × (r ≡ done c' w')
        × Fans (live model rs) w w'
        × (c'.fetched ≡ c.fetched + length rs)
        × (c'.enqueued ≡ c.enqueued + length (live model rs)))
      ⊎ ((e : Thrown) × (w' : World) × (r ≡ fail e w') × (w'.sync_states ≡ w.sync_states))

  -- Whichever calls fail, the loop either lands and queues every live record of the page, in order,
  -- and counts them, or throws; it never moves a cursor.
  pub handle_records-Ends :
      (rs : List Value) (c : Counters) (w : World)
      → Ends rs c w (handle_records host db tenant_id connection_id model via rs c w)
  unfolding Ends handle_records handle_record
  handle_records-Ends [] c w = inl (c, w, refl, Fans-none w, omega arith, omega arith)
  handle_records-Ends (r ∷ rs) c w = elim (Bool-cases (is_tombstone r)) [
    | inl dead ↦ elim (handle_records-Ends rs (record c { fetched = c.fetched + 1 }) w) [
      | inl (c', w', e, f, n, m) ↦
          inl (c', w', rw (dead, ◌>>=◌) e, rw dead f, omega arith, rw dead m)
      | inr (t, w', e, same) ↦ inr (t, w', rw (dead, ◌>>=◌) e, same)
    ]
    | inr alive ↦ elim (land-Fans (stamped model r) w) [
      | inr (t, v, e, same) ↦ inr (t, v, rw (alive, ◌>>=◌, e) refl, same)
      | inl (v, e, one) ↦
          elim (handle_records-Ends rs
            (record { fetched = c.fetched + 1; enqueued = c.enqueued + 1 }) v) [
              | inl (c', w', e', f, n, m) ↦ inl (
                c',
                w',
                rw (alive, ◌>>=◌, e) e',
                rw alive (Fans-cons (stamped model r) (live model rs) w v w' one f),
                omega arith,
                rw alive (omega arith),
              )
              | inr (t, w', e', same) ↦ inr (t, w', rw (alive, ◌>>=◌, e) e', same ∙ one.same_cursor)
            ]
    ]
  ]
