-- ===== src/Schema.antt =====
-- src/events/schema.ts: the contract of a normalized event, as `NormalizedEventSchema.parse` checks
-- it. What `z.url()` accepts and how a text is read as a date are the host's.
pub mod Laws
use shiplog_prototype.Prelude.{
  ℕ, String, Bool, true, false, Option, none, some, ◌==◌, leb, if◌then◌else◌,
}
use shiplog_prototype.Text.{decimal, trim}
use shiplog_prototype.Value.{Value, undefined, null, bool, num, str, date, arr, obj, get, js_string}
use shiplog_prototype.Host.{Host}
use shiplog_prototype.Models.{EventType, commit, issue, pr, release}

-- The parsed, validated shape.
pub record NormalizedEvent : Type 0 where
  pub source : String
  pub type : EventType
  pub external_id : String
  pub actor : String
  pub title : String
  pub url : String
  pub occurred_at : ℕ
  pub version : String

-- `z.string()`.
pub parse_string : Value → Option String
parse_string (str s) = some s
parse_string _ = none

-- `z.string().min(1)`.
pub parse_nonempty : Value → Option String
parse_nonempty (str s) = if s == "" then none else some s
parse_nonempty _ = none

-- `EventType`.
pub parse_type : Value → Option EventType
parse_type (str s) =
    if s == "commit"
    then some commit
    else if s == "issue"
    then some issue
    else if s == "pr"
    then some pr
    else if s == "release"
    then some release
    else none
parse_type _ = none

-- `z.union([z.string(), z.number()]).transform((v) => String(v))`.
unfoldable pub parse_version : Value → Option String
parse_version (str s) = some s
parse_version (num n) = some (decimal n)
parse_version _ = none

-- The event of the parsed fields; one that is refused refuses the whole.
pub build_event :
    Option String
    → Option EventType
    → Option String
    → Option String
    → Option String
    → Option String
    → Option ℕ
    → Option String
    → Option NormalizedEvent
build_event (some s) (some t) (some x) (some a) (some n) (some u) (some o) (some v) = some (record {
  source = s;
  type = t;
  external_id = x;
  actor = a;
  title = n;
  url = u;
  occurred_at = o;
  version = v;
})
build_event _ _ _ _ _ _ _ _ = none

module _ (host : Host) where
  -- `new Date(v)`: the time it stands for, `none` for an invalid date.
  unfoldable pub new_date : Value → Option ℕ
  new_date undefined = none
  new_date null = some 0
  new_date (bool b) = some (if b then 1 else 0)
  new_date (num n) = if leb n 8640000000000000 then some n else none
  new_date (str s) = host.parse_date s
  new_date (date t) = t
  new_date v = host.parse_date (js_string host.date_text v)

  -- `z.url()`, which yields the text without the spaces around it.
  pub parse_url : Value → Option String
  parse_url (str s) = if host.is_url (trim s) then some (trim s) else none
  parse_url _ = none

  -- `NormalizedEventSchema.parse(input)`; `none` is the ZodError.
  unfoldable pub parse_event : Value → Option NormalizedEvent
  unfolding build_event parse_string parse_nonempty parse_type parse_version parse_url
  parse_event input =
      build_event (parse_nonempty (get "source" input)) (parse_type (get "type" input))
        (parse_nonempty (get "externalId" input)) (parse_nonempty (get "actor" input))
        (parse_string (get "title" input)) (parse_url (get "url" input))
        (new_date (get "occurredAt" input)) (parse_version (get "version" input))
