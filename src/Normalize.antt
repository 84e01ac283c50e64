-- ===== src/Normalize.antt =====
-- src/normalize/github.ts: from a Nango-shaped GitHub record to the event contract.
pub mod Laws
use shiplog_prototype.Prelude.{ℕ, String, Bool, ◌==◌, ◌||◌, if◌then◌else◌, Option}
use shiplog_prototype.Text.{append, first_line}
use shiplog_prototype.Value.{
  Value, undefined, null, bool, num, str, date, arr, obj, end, field, get, or_else, is_text,
  js_string,
}
use shiplog_prototype.Host.{Host}
use shiplog_prototype.Errors.{plain_error}
use shiplog_prototype.World.{Result, ok, err}
use shiplog_prototype.Schema.{new_date}

-- `record?._nango_metadata?.model`.
abbrev pub model_of : Value → Value
model_of r = get "model" (get "_nango_metadata" r)

-- The object literal that each case returns.
abbrev pub event_input :
    (type external_id : String) (actor title url occurred_at version : Value) → Value
event_input type external_id actor title url occurred_at version = obj (
    field "source" (str "github") (
      field "type" (str type) (
        field "externalId" (str external_id) (
          field "actor" actor (
            field "title" title
              (field "url" url (field "occurredAt" occurred_at (field "version" version end))))))))

module _ (host : Host) where
  -- A template literal's hole.
  abbrev pub template : Value → String
  template v = js_string host.date_text v

  -- `new Date(v)`, as a value.
  abbrev pub date_of : Value → Value
  date_of v = date (new_date host v)

  unfoldable pub normalize_issue : Value → Value
  normalize_issue r =
      event_input "issue" (append "issue:" (template (get "number" r)))
        (or_else (get "user_login" r) (or_else (get "login" (get "user" r)) (str "unknown")))
        (get "title" r) (get "html_url" r) (date_of (get "created_at" r)) (get "updated_at" r)

  unfoldable pub normalize_pull_request : Value → Value
  normalize_pull_request r =
      event_input "pr" (append "pr:" (template (get "number" r)))
        (or_else (get "login" (get "user" r)) (str "unknown")) (get "title" r) (get "html_url" r)
        (date_of (get "created_at" r)) (get "updated_at" r)

  abbrev pub commit_message : Value → Value
  commit_message r = or_else (get "message" r) (or_else (get "message" (get "commit" r)) (str ""))

  -- Only a text has `split`.
  commit_with_title : Value → Value → Result Value
  commit_with_title r (str message) = ok (
      event_input "commit" (append "commit:" (template (get "sha" r)))
        (or_else (get "author_login" r)
          (or_else (get "login" (get "author" r)) (or_else (get "author_name" r) (str "unknown"))))
        (str (first_line message)) (get "html_url" r)
        (date_of (or_else (get "author_date" r) (get "date" (get "author" (get "commit" r)))))
        (get "sha" r))
  commit_with_title r _ = err (plain_error "TypeError" "split is not a function")

  unfoldable pub normalize_commit : Value → Result Value
  unfolding commit_with_title
  normalize_commit r = commit_with_title r (commit_message r)

  -- `normalizeGithubRecord(record)`.
  unfoldable pub normalize_github : Value → Result Value
  unfolding normalize_issue normalize_pull_request normalize_commit
  normalize_github r =
      if is_text (model_of r) "GithubIssue" || is_text (model_of r) "Issue"
      then ok (normalize_issue r)
      else if is_text (model_of r) "GithubPullRequest"
      then ok (normalize_pull_request r)
      else if is_text (model_of r) "GithubCommit" || is_text (model_of r) "Commit"
      then normalize_commit r
      else err (plain_error "Error" (append "Unknown Nango model: " (template (model_of r))))
