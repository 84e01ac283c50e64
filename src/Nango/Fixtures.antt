-- ===== src/Nango/Fixtures.antt =====
-- src/fixtures/github.ts: the records that stand in for Nango; src/nango/client.ts: the client that
-- serves them, and the choice between it and the SDK's client.
use shiplog_prototype.Prelude.{
  ℕ, String, Bool, false, ◌||◌, none, List, [], ◌∷◌, ◌==◌, select, if◌then◌else◌,
}
use shiplog_prototype.Value.{Value, null, num, str, obj, end, field, is_text}
use shiplog_prototype.Normalize.{model_of}
use shiplog_prototype.Nango.Pages.{NangoClient}

-- The parts that the literals share.
abbrev metadata : String → String → String → Value
metadata model cursor modified = obj (
    field "model" (str model) (
      field "cursor" (str cursor)
        (field "last_modified_at" (str modified) (field "deleted_at" null end))))

abbrev login : String → Value
login name = obj (field "login" (str name) end)

-- An issue or a pull request, both updated when they were last modified.
abbrev numbered : String → String → String → String → ℕ → String → String → String → String → Value
numbered id model cursor modified n title url user created = obj (
    field "id" (str id) (
      field "_nango_metadata" (metadata model cursor modified) (
        field "number" (num n) (
          field "title" (str title) (
            field "state" (str "open") (
              field "html_url" (str url) (
                field "user" (login user)
                  (field "created_at" (str created) (field "updated_at" (str modified) end)))))))))

-- A commit, dated when it was last modified.
abbrev committed : String → String → String → String → String → String → String → String → Value
committed id cursor modified sha url user message name = obj (
    field "id" (str id) (
      field "_nango_metadata" (metadata "GithubCommit" cursor modified) (
        field "sha" (str sha) (
          field "html_url" (str url) (
            field "author" (login user) (
              field "commit"
                (obj (
                  field "message" (str message) (
                    field "author" (obj (field "name" (str name) (field "date" (str modified) end)))
                      end)))
                end))))))

-- `githubFixtures`.
abbrev pub github_fixtures : List Value
github_fixtures =
    numbered "gh_issue_101" "GithubIssue" "c-101" "2024-03-01T12:00:00Z" 101
      "Checkout fails on Safari 17" "https://github.com/acme/storefront/issues/101" "arav"
      "2024-02-20T09:15:00Z"
    ∷ numbered "gh_issue_102" "GithubIssue" "c-102" "2024-03-02T08:30:00Z" 102
        "Add dark mode to dashboard" "https://github.com/acme/storefront/issues/102" "mira"
        "2024-02-25T14:00:00Z"
    ∷ numbered "gh_pr_7" "GithubPullRequest" "c-pr7" "2024-03-03T16:45:00Z" 7
        "Fix Safari checkout regression" "https://github.com/acme/storefront/pull/7" "arav"
        "2024-03-02T10:00:00Z"
    ∷ numbered "gh_pr_8" "GithubPullRequest" "c-pr8" "2024-03-04T11:20:00Z" 8
        "Introduce dark mode tokens" "https://github.com/acme/storefront/pull/8" "mira"
        "2024-03-03T09:30:00Z"
    ∷ committed "gh_commit_a" "c-cmta" "2024-03-03T15:00:00Z" "9a1f3c2"
        "https://github.com/acme/storefront/commit/9a1f3c2" "arav"
        "Guard Safari date parsing\n\nFixes #101" "Arav"
    ∷ committed "gh_commit_b" "c-cmtb" "2024-03-04T10:05:00Z" "b7d4e90"
        "https://github.com/acme/storefront/commit/b7d4e90" "mira" "Add dark mode color tokens"
        "Mira"
    ∷ []

-- `r._nango_metadata?.model === model`.
abbrev pub same_model : Value → Value → Bool
same_model (str m) r = is_text (model_of r) m
same_model m r = false

-- `fixtureNango()`.
abbrev pub fixture_nango : NangoClient
fixture_nango = record {
  list_records =
      λ p w. record { records = select (same_model p.model) github_fixtures; next_cursor = none };
}

-- `createNangoClient()`, of the configuration and the SDK's client for a key.
abbrev pub create_nango_client : Bool → String → (String → NangoClient) → NangoClient
create_nango_client use_fixtures secret_key sdk =
    let real = sdk secret_key in if use_fixtures || secret_key == "" then fixture_nango else real
