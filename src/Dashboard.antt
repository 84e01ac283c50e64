-- ===== src/Dashboard.antt =====
-- dashboard/src/api.ts and dashboard/src/tenants.ts: how the dashboard calls the API.
-- `fetch` is an argument: it answers a call with a status and a body, which may not be JSON.
use shiplog_prototype.Prelude.{ℕ, String, Bool, Option, none, some, List, [], ◌∷◌, if◌then◌else◌}
use shiplog_prototype.Text.{append, decimal}
use shiplog_prototype.Value.{Value, undefined, str, get, or_else, truthy, js_string}
use shiplog_prototype.Host.{Host}
use shiplog_prototype.Errors.{plain_error}
use shiplog_prototype.World.{Result, ok, err}

-- A request, with the headers and the body that the client sets.
pub record Call : Type 0 where
  pub method : String
  pub url : String
  pub authorization : String
  pub content_type : Option String
  pub body : Option Value

-- `res.ok`, `res.status`, and the JSON of the body, `none` where it is not JSON.
pub record Response : Type 0 where
  pub is_ok : Bool
  pub status : ℕ
  pub json : Option Value

-- The header of every call.
abbrev pub authorization_of : String → String
authorization_of api_key = append "Bearer " api_key

abbrev pub get_call : String → String → Call
get_call api_key path = record {
  method = "GET";
  url = append "/api" path;
  authorization = authorization_of api_key;
  content_type = none;
  body = none;
}

-- `body ? JSON.stringify(body) : undefined`.
abbrev pub sent_body : Value → Option Value
sent_body v = if truthy v then some v else none

abbrev pub post_call : String → String → Value → Call
post_call api_key path body = record {
  method = "POST";
  url = append "/api" path;
  authorization = authorization_of api_key;
  content_type = some "application/json";
  body = sent_body body;
}

module _ (host : Host) where
  -- `(await res.json())?.error ?? ''`, and `''` where the body is not JSON.
  abbrev pub detail_of : Option Value → Value
  detail_of none = str ""
  detail_of (some v) = or_else (get "error" v) (str "")

  abbrev pub in_brackets : Value → String
  in_brackets v = if truthy v then append " (" (append (js_string host.date_text v) ")") else ""

  -- The message of the thrown error.
  abbrev pub failure_text : String → String → Response → String
  failure_text method path res = append method (
      append " " (
        append path
          (append " → " (append (decimal res.status) (in_brackets (detail_of res.json))))))

  abbrev pub parsed_body : Option Value → Result Value
  parsed_body none = err (plain_error "SyntaxError" "Unexpected token in JSON")
  parsed_body (some v) = ok v

  -- `handle(res, method, path)`.
  unfoldable pub handle : Response → String → String → Result Value
  handle res method path =
      if res.is_ok
      then parsed_body res.json
      else err (plain_error "Error" (failure_text method path res))

  -- `apiGet(apiKey, path)` and `apiPost(apiKey, path, body)`.
  unfoldable pub api_get : (Call → Response) → String → String → Result Value
  api_get fetch api_key path = handle (fetch (get_call api_key path)) "GET" path

  unfoldable pub api_post : (Call → Response) → String → String → Value → Result Value
  api_post fetch api_key path body = handle (fetch (post_call api_key path body)) "POST" path

-- A tenant that the switcher offers.
pub record TenantOption : Type 0 where
  pub id : String
  pub name : String
  pub api_key : String

-- `TENANTS`.
abbrev pub tenant_options : List TenantOption
tenant_options =
    record { id = "acme"; name = "Acme"; api_key = "acme-api-key" }
    ∷ record { id = "globex"; name = "Globex"; api_key = "globex-api-key" }
    ∷ []

module _ (host : Host) (fetch : Call → Response) (api_key : String) where
  -- The mutations of the panels, of an item's or a connection's id.
  abbrev pub replay_letter : String → Result Value
  replay_letter id = api_post host fetch api_key (append "/dlq/" (append id "/replay")) undefined

  abbrev pub start_reconcile : String → Result Value
  start_reconcile id =
      api_post host fetch api_key (append "/connections/" (append id "/reconcile")) undefined

  abbrev pub start_backfill : String → Result Value
  start_backfill id =
      api_post host fetch api_key (append "/connections/" (append id "/backfill")) undefined

  abbrev notice : String → String → Result Value → String
  notice before after (ok r) =
      append before (append (js_string host.date_text (get "enqueued" r)) after)
  notice before after (err e) = e.message

  -- What the Sync Control panel says after a click.
  pub reconcile_notice : String → String
  reconcile_notice id =
      notice "Reconcile enqueued — " " model(s) polling Nango on the durable cursor."
        (start_reconcile id)

  pub backfill_notice : String → String
  backfill_notice id =
      notice "Backfill enqueued — reprocessing " " raw record(s) (idempotent, no duplicates)."
        (start_backfill id)
