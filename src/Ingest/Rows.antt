-- ===== src/Ingest/Rows.antt =====
-- What every row of the spine is like: a validated event under a key and a hash of its own fields.
use mathlib.Core.Path.{subst}
use shiplog_prototype.Prelude.{
  ℕ, String, true, false, Option, none, some, [], ◌∷◌, ◌≡◌, ◌≢◌, inl, inr, refl, sym, All,
  All-append, ◌==◌, eq_iff, Bool-cases, Option-cases,
}
use shiplog_prototype.Value.{Value, get}
use shiplog_prototype.Host.{Host}
use shiplog_prototype.Models.{Event}
use shiplog_prototype.Schema.{NormalizedEvent, parse_event}
use shiplog_prototype.Schema.Laws.{parse_event-Parses, parse_nonempty_text, parse_url_text}
use shiplog_prototype.World.{World, Database, final}
use shiplog_prototype.Ingest.{event_row, require_tenant, event_key, event_hash, ingest_event}
use shiplog_prototype.Ingest.Steps.{AtMostOneRow, ingest_parsed-AtMostOneRow}

-- The event that a row was made of.
abbrev pub event_of : Event → NormalizedEvent
event_of e = record {
  source = e.source;
  type = e.type;
  external_id = e.external_id;
  actor = e.actor;
  title = e.title;
  url = e.url;
  occurred_at = e.occurred_at;
  version = e.version;
}

-- A row meets the contract of an event, belongs to a tenant, and its key and its hash are those of
-- its own fields. Nothing is stored as deleted.
pub record IsRow (host : Host) (e : Event) : Type 0 where
  pub tenant_id : e.tenant_id ≢ ""
  pub source : e.source ≢ ""
  pub external_id : e.external_id ≢ ""
  pub actor : e.actor ≢ ""
  pub url : host.is_url e.url ≡ true
  pub key : e.idempotency_key ≡ event_key host e.tenant_id (event_of e)
  pub hash : event_hash host (event_of e) ≡ some e.content_hash
  pub deleted : e.deleted ≡ false

module _ (host : Host) (tenant_id : String) (ev : NormalizedEvent) (hash : String) where
  event_row-IsRow :
      (n : ℕ) (input : Value)
      → tenant_id ≢ ""
      → parse_event host input ≡ some ev
      → event_hash host ev ≡ some hash
      → IsRow host (event_row n tenant_id ev (event_key host tenant_id ev) hash)
  event_row-IsRow n input given parsed hashed =
      let p = parse_event-Parses host input ev parsed in
      record {
        tenant_id = given;
        source = (parse_nonempty_text (get "source" input) ev.source p.source).1;
        external_id = (parse_nonempty_text (get "externalId" input) ev.external_id p.external_id).1;
        actor = (parse_nonempty_text (get "actor" input) ev.actor p.actor).1;
        url = parse_url_text host (get "url" input) ev.url p.url;
        key = refl;
        hash = hashed;
        deleted = refl;
      }

  AtMostOneRow-IsRow :
      (w w' : World) (key : String)
      → ((n : ℕ) → IsRow host (event_row n tenant_id ev key hash))
      → AtMostOneRow tenant_id ev key hash w w'
      → All (IsRow host) w.events
      → All (IsRow host) w'.events
  unfolding AtMostOneRow
  AtMostOneRow-IsRow w w' key sound (inl same) all = subst (All (IsRow host)) (sym same) all
  AtMostOneRow-IsRow w w' key sound (inr (row, _, _, _, grown, (n, is_row))) all =
      subst (All (IsRow host)) (sym grown) (
        All-append (IsRow host) w.events (row ∷ []) all
          (subst (IsRow host) (sym is_row) (sound n), tt))

module _ (host : Host) (db : Database) where
  -- Whatever the input and whichever calls fail, `ingestEvent` keeps every row of the spine well
  -- formed: it meets the contract of an event, names a tenant, and its idempotency key and content
  -- hash are those that its own fields have.
  pub ingest_event-IsRow :
      (tenant : Option String) (input : Value) (w : World)
      → All (IsRow host) w.events
      → All (IsRow host) (final (ingest_event host db tenant input w)).events
  unfolding ingest_event require_tenant
  ingest_event-IsRow none input w all = all
  ingest_event-IsRow (some t) input w all = elim (Bool-cases (t == "")) [
    | inl empty ↦ rw (empty, final) all
    | inr given ↦ elim (Option-cases (parse_event host input)) [
      | inl bad ↦ rw (given, bad, final) all
      | inr (ev, parsed) ↦ elim (Option-cases (event_hash host ev)) [
        | inl bad ↦ rw (given, parsed, bad, final) all
        | inr (hash, hashed) ↦
            let named : t ≢ "" = λ e. let same = (eq_iff t "").1 e in cc in
            rw (given, parsed, hashed)
              (AtMostOneRow-IsRow host t ev hash w _ (event_key host t ev)
                (λ n. event_row-IsRow host t ev hash n input named parsed hashed)
                (ingest_parsed-AtMostOneRow db t ev (event_key host t ev) hash w) all)
      ]
    ]
  ]
