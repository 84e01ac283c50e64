-- ===== src/Api/Webhook/Notified.antt =====
-- What a notification does, and which ones do it (src/app.ts).
use shiplog_prototype.Prelude.{
  ℕ, ap, arith, String, Bool, true, false, Option, none, some, ◌≡◌, ◌≢◌, ◌⊎◌, inl, inr, refl,
  Bool-cases, Option-cases,
}
use shiplog_prototype.Value.{Value, null, Fields, get}
use shiplog_prototype.Host.{Host}
use shiplog_prototype.Errors.{Thrown}
use shiplog_prototype.Models.{Connection}
use shiplog_prototype.Mongo.{IsFound}
use shiplog_prototype.World.{World, Database, Run, done, fail, after_fault, ◌>>=◌, catch}
use shiplog_prototype.World.Laws.{query-cases, execute-cases}
use shiplog_prototype.Nango.Verify.{verify_nango_signature}
use shiplog_prototype.Api.{Reply, refuse, answer}
use shiplog_prototype.Api.Webhook.{
  Receipt, ignored, no_connection, enqueued, is_sync, add_sync, notify, find_by_nango, lookup,
  handle_payload, handle_json, webhook_route, cast_error,
}

-- The status of a reply.
abbrev pub status : {A : Type 0} → Reply A → ℕ
status (refuse n message) = n
status (answer n body) = n

-- Only faults were used up.
abbrev pub IsQuiet : World → World → Type 0
IsQuiet w w' = w' ≡ record w { faults = w'.faults }

module _ (host : Host) (db : Database) (has_queue : Bool) where
  -- One job was queued: that of a stored connection which the payload's connection id matches.
  pub record Queued (p : Value) (w w' : World) : Type 0 where
    pub is_sync_event : is_sync p ≡ true
    pub is_configured : has_queue ≡ true
    pub matches : Option String → Bool
    pub is_filter : host.filter_text (get "connectionId" p) ≡ some matches
    pub connection : Connection
    pub stored : IsFound (λ c. matches c.nango_connection_id) connection w.connections
    pub one_job : w' ≡ record (add_sync host connection p w) { faults = w'.faults }

  -- How the handling of a payload ends: with nothing written, or with one job, whose reply may be
  -- lost.
  unfoldable pub Handles : Value → World → Run (Reply Receipt) → Type 0
  Handles p w r =
      ((a : Receipt) × (w' : World) × (r ≡ done (answer 200 a) w') × IsQuiet w w')
      ⊎ ((w' : World) × (r ≡ done (answer 202 enqueued) w') × Queued p w w')
      ⊎ ((message : String) × (w' : World) × (r ≡ done (refuse 503 message) w') × IsQuiet w w')
      ⊎ ((e : Thrown) × (w' : World) × (r ≡ fail e w') × (IsQuiet w w' ⊎ Queued p w w'))

  found-Queued :
      (p : Value) (f : Option String → Bool) (c : Connection) (w : World)
      → is_sync p ≡ true
      → has_queue ≡ true
      → host.filter_text (get "connectionId" p) ≡ some f
      → find_by_nango host db f w ≡ some c
      → (w' : World) → w' ≡ record (add_sync host c p w) { faults = w'.faults }
      → Queued p w w'
  found-Queued p f c w sync given filter found w' e = record {
    is_sync_event = sync;
    is_configured = given;
    matches = f;
    is_filter = filter;
    connection = c;
    stored = db.connections.find_one-some (λ x. f x.nango_connection_id) w.connections c found;
    one_job = e;
  }

  notify-Handles :
      (p : Value) (f : Option String → Bool) (o : Option Connection) (w : World)
      → is_sync p ≡ true
      → host.filter_text (get "connectionId" p) ≡ some f
      → find_by_nango host db f w ≡ o
      → Handles p w (notify host has_queue p o (after_fault w))
  unfolding notify Handles
  notify-Handles p f none w sync filter found = inl (no_connection, after_fault w, refl, refl)
  notify-Handles p f (some c) w sync filter found = elim (Bool-cases has_queue) [
    | inr no_queue ↦
        rw no_queue (inr (inr (inl ("Queue not configured", after_fault w, refl, refl))))
    | inl given ↦
        let v = after_fault w in
        let queued = found-Queued p f c w sync given filter found in
        elim (execute-cases (add_sync host c p) v) [
          | inl e ↦ inr (
              inl (
                add_sync host c p (after_fault v),
                rw (given, ◌>>=◌, e) refl,
                queued (add_sync host c p (after_fault v)) refl,
              ))
          | inr (inl (t, e)) ↦
              inr (inr (inr (t, after_fault v, rw (given, ◌>>=◌, e) refl, inl refl)))
          | inr (inr (t, e)) ↦ inr (
              inr (
                inr (
                  t,
                  add_sync host c p (after_fault v),
                  rw (given, ◌>>=◌, e) refl,
                  inr (queued (add_sync host c p (after_fault v)) refl),
                )))
        ]
  ]

  lookup-Handles :
      (p : Value) (o : Option (Option String → Bool)) (w : World)
      → is_sync p ≡ true
      → host.filter_text (get "connectionId" p) ≡ o
      → Handles p w (lookup host db has_queue p o w)
  unfolding lookup Handles
  lookup-Handles p none w sync filter = inr (inr (inr (cast_error, w, refl, inl refl)))
  lookup-Handles p (some f) w sync filter = elim (query-cases (find_by_nango host db f) w) [
    | inr (t, e) ↦ inr (inr (inr (t, after_fault w, rw (◌>>=◌, e) refl, inl refl)))
    | inl e ↦ rw (◌>>=◌, e) (notify-Handles p f (find_by_nango host db f w) w sync filter refl)
  ]

  handle_payload-Handles :
      (p : Value) (w : World) → Handles p w (handle_payload host db has_queue p w)
  unfolding handle_payload Handles
  handle_payload-Handles null w = inr (inr (inr (_, w, refl, inl refl)))
  handle_payload-Handles p w = elim (Bool-cases (is_sync p)) [
    | inl sync ↦ rw sync (lookup-Handles p (host.filter_text (get "connectionId" p)) w sync refl)
    | inr other ↦ rw other (inl (ignored (get "type" p), w, refl, refl))
  ]

  -- How a request ends.
  pub data Receives (body : String) (headers : Fields) (secret : String) (w : World)
      (r : Run (Reply Receipt)) : Type 0 where
    unsigned :
        verify_nango_signature host (some body) headers secret ≡ false
        → r ≡ done (refuse 401 "Invalid signature") w
        → Receives body headers secret w r
    unreadable :
        verify_nango_signature host (some body) headers secret ≡ true
        → host.parse_json body ≡ none
        → r ≡ done (refuse 400 "Invalid JSON") w
        → Receives body headers secret w r
    quiet :
        (a : Reply Receipt) (w' : World)
        → verify_nango_signature host (some body) headers secret ≡ true
        → a ≢ answer 202 enqueued
        → r ≡ done a w'
        → IsQuiet w w'
        → Receives body headers secret w r
    queued :
        (p : Value) (w' : World)
        → verify_nango_signature host (some body) headers secret ≡ true
        → host.parse_json body ≡ some p
        → (r ≡ done (answer 202 enqueued) w')
          ⊎ ((message : String) × (r ≡ done (refuse 500 message) w'))
        → Queued p w w'
        → Receives body headers secret w r

  -- Whichever calls fail, a notification ends in one of four ways. Without a valid signature, or with
  -- a body that is not JSON, it is refused before anything is read; otherwise nothing is written and
  -- it is not reported as queued, or exactly one sync job is queued: that of a stored connection that
  -- the body's connection id matches. No run writes anything else.
  pub webhook_route-Receives :
      (body : String) (headers : Fields) (secret : String) (w : World)
      → Receives body headers secret w (webhook_route host db secret has_queue body headers w)
  unfolding webhook_route handle_json Handles
  webhook_route-Receives body headers secret w =
      elim (Bool-cases (verify_nango_signature host (some body) headers secret)) [
        | inr forged ↦ unsigned forged (rw (catch, forged) refl)
        | inl signed ↦ elim (Option-cases (host.parse_json body)) [
          | inl broken ↦ unreadable signed broken (rw (catch, signed, broken) refl)
          | inr (p, parsed) ↦ elim (handle_payload-Handles p w) [
            | inl (a, w', e, same) ↦
                quiet (answer 200 a) w' signed (λ x. omega (arith, ap status x))
                  (rw (catch, signed, parsed, e) refl) same
            | inr (inl (w', e, q)) ↦
                queued p w' signed parsed (inl (rw (catch, signed, parsed, e) refl)) q
            | inr (inr (inl (m, w', e, same))) ↦
                quiet (refuse 503 m) w' signed (λ x. omega (arith, ap status x))
                  (rw (catch, signed, parsed, e) refl) same
            | inr (inr (inr (t, w', e, inl same))) ↦
                quiet (refuse 500 t.message) w' signed (λ x. omega (arith, ap status x))
                  (rw (catch, signed, parsed, e) refl) same
            | inr (inr (inr (t, w', e, inr q))) ↦
                queued p w' signed parsed (inr (t.message, rw (catch, signed, parsed, e) refl)) q
          ]
        ]
      ]
