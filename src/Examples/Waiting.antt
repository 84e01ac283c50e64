-- ===== src/Examples/Waiting.antt =====
-- The wait of scripts/inject-failure.ts at a concrete input.
use shiplog_prototype.Prelude.{ℕ, ◌+◌, ◌≤◌, some, [], ◌∷◌, ◌≡◌, ap, arith}
use shiplog_prototype.World.{World, M, done, final}
use shiplog_prototype.Scripts.Injection.{inject_script}
use shiplog_prototype.Scripts.Injection.Waiting.{Pauses, inject_script-ends}
use shiplog_prototype.Examples.{test_host, test_db, empty_world}

-- No worker runs: two seconds pass and nothing else.
abbrev two_seconds : M (Unit {0})
two_seconds w = done tt (record w { now = w.now + 2000 })

two_seconds-Pauses : Pauses two_seconds
two_seconds-Pauses w v h =
    let same : w.now + 2000 ≡ v.now = ap (λ r. (final r).now) h in omega arith

abbrev acme_world : World
acme_world = record empty_world {
  tenants = record { id = 1; name = "Acme"; api_key = "acme-api-key" } ∷ [];
}

inject_script-ends_example :
    (code : ℕ) × (v : World) × (inject_script test_host test_db two_seconds 47 "recovery" "00"
        acme_world
      ≡ done (some code) v)
    × (code ≤ 2)
inject_script-ends_example =
    inject_script-ends test_host test_db two_seconds two_seconds-Pauses "recovery" "00" acme_world
