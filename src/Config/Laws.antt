-- ===== src/Config/Laws.antt =====
-- What src/config/env.ts guarantees to the rest of the program.
use shiplog_prototype.Prelude.{
  ℕ, zero, ◌<◌, suc, String, true, false, Option, none, some, ◌≡◌, refl, ◌==◌, arith, Bool-cases,
  inl, inr,
}
use shiplog_prototype.Nango.Pages.{NangoClient}
use shiplog_prototype.Nango.Fixtures.{fixture_nango}
use shiplog_prototype.Config.{
  Platform, absent, Env, config_of, number_or, positive_or, text_or, is_true, client_of,
}

-- A setting that has a positive default is positive, whatever its variable holds.
positive_or-positive : (n : Option ℕ) (d : ℕ) → 0 < d → 0 < positive_or n d
positive_or-positive none d h = h
positive_or-positive (some zero) d h = h
positive_or-positive (some (suc k)) d h = ground arith

number_or-positive :
    (to_number : String → Option ℕ) (s : Option String) (d : ℕ)
    → 0 < d
    → 0 < number_or to_number s d
number_or-positive to_number none d h = h
number_or-positive to_number (some s) d h = positive_or-positive (to_number s) d h

-- The delays and the port of a process are positive.
pub config-positive :
    (platform : Platform) (env : Env)
    → let c = config_of platform env in
      (0 < c.port) × (0 < c.backoff_base_ms) × (0 < c.reconcile_every_ms)
unfolding config_of
config-positive platform env = (
  number_or-positive platform.to_number (env "PORT") 3000 (omega arith),
  number_or-positive platform.to_number (env "BACKOFF_BASE_MS") 1000 (omega arith),
  number_or-positive platform.to_number (env "RECONCILE_EVERY_MS") 60000 (omega arith),
)

module _ (platform : Platform) (env : Env) (sdk : String → String → NangoClient) where
  abbrev client : NangoClient
  client = client_of (config_of platform env) sdk

  -- A process calls Nango's API only with a secret key.
  pub client_of-keyless : absent (env "NANGO_SECRET_KEY") ≡ true → client ≡ fixture_nango
  unfolding config_of
  client_of-keyless h = elim (Bool-cases (is_true (env "NANGO_USE_FIXTURES"))) [
    | inl e ↦ rw (e) refl
    | inr e ↦ rw (e, h) refl
  ]

  -- With one it does, unless the fixtures are asked for.
  pub client_of-real :
      (key : String)
      → env "NANGO_SECRET_KEY" ≡ some key
      → (key == "") ≡ false
      → is_true (env "NANGO_USE_FIXTURES") ≡ false
      → client ≡ sdk key (text_or (env "NANGO_HOST") "https://api.nango.dev")
  unfolding config_of
  client_of-real key has given asked = rw (has, asked, given, given) refl
