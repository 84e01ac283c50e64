-- ===== src/Config.antt =====
-- src/config/env.ts and src/queue/connection.ts: what the processes take from their environment.
pub mod Laws
use shiplog_prototype.Prelude.{
  ℕ, String, Bool, true, false, ◌||◌, Option, none, some, ◌==◌, if◌then◌else◌, nat_eq,
}
use shiplog_prototype.World.{M, Result, lift, ◌>>=◌, return}
use shiplog_prototype.Nango.Pages.{NangoClient}
use shiplog_prototype.Nango.Fixtures.{create_nango_client}

-- `process.env`, by the name of a variable.
abbrev pub Env : Type 0
Env = String → Option String

-- `process.env.X || d`.
abbrev pub text_or : Option String → String → String
text_or none d = d
text_or (some s) d = if s == "" then d else s

-- `n || d`; `none` is NaN.
abbrev pub positive_or : Option ℕ → ℕ → ℕ
positive_or none d = d
positive_or (some n) d = if nat_eq n 0 then d else n

-- `Number(process.env.X) || d`, over `Number` of a text; `Number(undefined)` is NaN.
abbrev pub number_or : (String → Option ℕ) → Option String → ℕ → ℕ
number_or to_number none d = d
number_or to_number (some s) d = positive_or (to_number s) d

-- `process.env.X === 'true'`.
abbrev pub is_true : Option String → Bool
is_true none = false
is_true (some s) = s == "true"

-- `!process.env.X`.
abbrev pub absent : Option String → Bool
absent none = true
absent (some s) = s == ""

-- The parts of a `URL` that are read.
pub record Url : Type 0 where
  pub hostname : String
  pub port : String
  pub username : String
  pub password : String
  pub protocol : String

-- What JavaScript reads out of a text: a number, where `none` is NaN, a URL, and what
-- `encodeURIComponent` encoded.
pub record Platform : Type 0 where
  pub to_number : String → Option ℕ
  pub parse_url : String → Result Url
  pub decode_uri_component : String → Result String

-- `config`.
pub record Config : Type 0 where
  pub mongo_uri : String
  pub port : ℕ
  pub redis_url : String
  pub backoff_base_ms : ℕ
  pub reconcile_every_ms : ℕ
  pub nango_secret_key : String
  pub nango_webhook_secret : String
  pub nango_host : String
  pub nango_use_fixtures : Bool
  pub nango_debug : Bool

unfoldable pub config_of : Platform → Env → Config
config_of platform env = record {
  mongo_uri = text_or (env "MONGODB_URI") "mongodb://localhost:27017/shiplog-sync";
  port = number_or platform.to_number (env "PORT") 3000;
  redis_url = text_or (env "REDIS_URL") "redis://localhost:6379";
  backoff_base_ms = number_or platform.to_number (env "BACKOFF_BASE_MS") 1000;
  reconcile_every_ms = number_or platform.to_number (env "RECONCILE_EVERY_MS") 60000;
  nango_secret_key = text_or (env "NANGO_SECRET_KEY") "";
  nango_webhook_secret = text_or (env "NANGO_WEBHOOK_SECRET") "";
  nango_host = text_or (env "NANGO_HOST") "https://api.nango.dev";
  nango_use_fixtures = is_true (env "NANGO_USE_FIXTURES") || absent (env "NANGO_SECRET_KEY");
  nango_debug = is_true (env "NANGO_DEBUG");
}

-- The client of a process with this configuration; the SDK's is one of a key and a host.
abbrev pub client_of : Config → (String → String → NangoClient) → NangoClient
client_of c sdk =
    create_nango_client c.nango_use_fixtures c.nango_secret_key (λ key. sdk key c.nango_host)

-- `RedisOptions`; `none` in `max_retries_per_request` is its `null`.
pub record RedisOptions : Type 0 where
  pub host : String
  pub port : Option ℕ
  pub max_retries_per_request : Option ℕ
  pub enable_ready_check : Bool
  pub username : Option String
  pub password : Option String
  pub tls : Bool

module _ (platform : Platform) where
  -- `if (s) options.k = decodeURIComponent(s)`.
  abbrev pub decoded : String → M (Option String)
  decoded s =
      if s == ""
      then return none
      else lift (platform.decode_uri_component s) >>= λ t. return (some t)

  -- `redisConnectionOptions()`.
  unfoldable pub redis_connection_options : Config → M RedisOptions
  redis_connection_options c = do
    url ← lift (platform.parse_url c.redis_url)
    username ← decoded url.username
    password ← decoded url.password
    return (record {
      host = url.hostname;
      port = platform.to_number (if url.port == "" then "6379" else url.port);
      max_retries_per_request = none;
      enable_ready_check = false;
      username = username;
      password = password;
      tls = url.protocol == "rediss:";
    })
