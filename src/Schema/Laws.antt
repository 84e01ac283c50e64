-- ===== src/Schema/Laws.antt =====
-- What a parsed event says of the input: every field is the parse of the input's field.
use shiplog_prototype.Prelude.{true, ℕ, String, Option, some, ◌≡◌, arith, ◌≢◌, eq_iff}
use shiplog_prototype.Value.{Value, str, get}
use shiplog_prototype.Host.{Host}
use shiplog_prototype.Models.{EventType}
use shiplog_prototype.Schema.{
  NormalizedEvent, parse_string, parse_nonempty, parse_type, parse_version, parse_url, new_date,
  parse_event, build_event,
}

-- An event is built of fields that are all there, and of nothing else.
build_event-some :
    (s : Option String) (t : Option EventType) (x a n u : Option String) (o : Option ℕ)
    (v : Option String) (ev : NormalizedEvent)
    → build_event s t x a n u o v ≡ some ev
    → (s ≡ some ev.source)
      × (t ≡ some ev.type)
      × (x ≡ some ev.external_id)
      × (a ≡ some ev.actor)
      × (n ≡ some ev.title)
      × (u ≡ some ev.url)
      × (o ≡ some ev.occurred_at)
      × (v ≡ some ev.version)
unfolding build_event
build_event-some (some s) (some t) (some x) (some a) (some n) (some u) (some o) (some v) ev h =
    ground arith
build_event-some _ _ _ _ _ _ _ _ ev h = cc

module _ (host : Host) where
  pub record Parses (input : Value) (ev : NormalizedEvent) : Type 0 where
    pub source : parse_nonempty (get "source" input) ≡ some ev.source
    pub type : parse_type (get "type" input) ≡ some ev.type
    pub external_id : parse_nonempty (get "externalId" input) ≡ some ev.external_id
    pub actor : parse_nonempty (get "actor" input) ≡ some ev.actor
    pub title : parse_string (get "title" input) ≡ some ev.title
    pub url : parse_url host (get "url" input) ≡ some ev.url
    pub occurred_at : new_date host (get "occurredAt" input) ≡ some ev.occurred_at
    pub version : parse_version (get "version" input) ≡ some ev.version

  -- The schema accepts an input exactly as the record above says: field by field.
  pub parse_event-Parses :
      (input : Value) (ev : NormalizedEvent) → parse_event host input ≡ some ev → Parses input ev
  unfolding parse_event
  parse_event-Parses input ev h =
      let (s, t, x, a, n, u, o, v) = build_event-some _ _ _ _ _ _ _ _ ev h in
      record {
        source = s;
        type = t;
        external_id = x;
        actor = a;
        title = n;
        url = u;
        occurred_at = o;
        version = v;
      }

-- What `z.string().min(1)` accepts is not empty.
pub parse_nonempty_text :
    (v : Value) (s : String) → parse_nonempty v ≡ some s → (v ≡ str s) × (s ≢ "")
unfolding parse_nonempty
parse_nonempty_text (str t) s h = ground (arith, eq_iff t "")
parse_nonempty_text v s h = cc

-- What `z.url()` accepts is a URL.
pub parse_url_text :
    (host : Host) (v : Value) (s : String) → parse_url host v ≡ some s → host.is_url s ≡ true
unfolding parse_url
parse_url_text host (str t) s h = ground arith
parse_url_text host v s h = cc
