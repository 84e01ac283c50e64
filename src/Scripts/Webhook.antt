-- ===== src/Scripts/Webhook.antt =====
-- scripts/simulate-nango-webhook.ts: a signed notification, as the running API receives it.
pub mod Accepted
use shiplog_prototype.Prelude.{String, true, Option, none, some}
use shiplog_prototype.Text.{append}
use shiplog_prototype.Value.{Value, bool, num, str, obj, Fields, end, field}
use shiplog_prototype.Host.{Host}
use shiplog_prototype.Hash.{stringify}
use shiplog_prototype.Nango.Sync.{usable}

-- A request's body and headers; the server reads the names of headers in lower case.
pub record Request : Type 0 where
  pub body : String
  pub headers : Fields

-- `process.argv[2] || 'GithubIssue'` and `process.argv[3] || 'nc-local'`.
abbrev pub text_or : String → Option String → String
text_or default none = default
text_or default (some s) = s

abbrev pub argument : String → Option String → String
argument default given = text_or default (usable given)

module _ (host : Host) where
  -- The object that is sent.
  unfoldable pub notification : String → String → Value
  notification model connection_id = obj (
      field "type" (str "sync") (
        field "connectionId" (str connection_id) (
          field "providerConfigKey" (str "github") (
            field "syncName" (str (append "github-" model)) (
              field "model" (str model) (
                field "syncType" (str "INCREMENTAL") (
                  field "success" (bool true) (
                    field "modifiedAfter" (str (host.to_iso 0)) (
                      field "responseResults"
                        (obj (
                          field "added" (num 0)
                            (field "updated" (num 0) (field "deleted" (num 0) end))))
                        end)))))))))

  -- `main`, with the signing key and the two arguments.
  unfoldable pub simulate : String → Option String → Option String → Request
  simulate secret model connection_id =
      let text =
        stringify host
          (notification (argument "GithubIssue" model) (argument "nc-local" connection_id)) in
      record {
        body = text;
        headers =
            field "content-type" (str "application/json")
              (field "x-nango-hmac-sha256" (str (host.hmac_hex secret text)) end);
      }
