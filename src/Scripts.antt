-- ===== src/Scripts.antt =====
-- src/scripts: the command line scripts (scripts/ at the root of the repository). A script is a run
-- that ends with an exit code; what it prints is left out. A thrown error ends it with code 1.
pub mod Laws
pub mod Setup
pub mod Isolation
pub mod Cleaning
pub mod Webhook
pub mod Replaying
pub mod Inspection
pub mod Injection
pub mod ReplayDemo
use shiplog_prototype.Prelude.{ℕ}
use shiplog_prototype.World.{M, ◌>>=◌, return, catch, execute}

-- `connectDB(config.mongoUri)` and `disconnectDB()`.
unfoldable pub connect_db : M (Unit {0})
connect_db = execute (λ w. w)

unfoldable pub disconnect_db : M (Unit {0})
disconnect_db = execute (λ w. w)

-- `await disconnectDB(); process.exit(code)`.
unfoldable pub exit_with : ℕ → M ℕ
unfolding disconnect_db
exit_with code = disconnect_db >>= λ _. return code

-- `await connectDB(…); …`, and `main().catch(… process.exit(1))`.
unfoldable pub main : M ℕ → M ℕ
unfolding connect_db
main body = catch (connect_db >>= λ _. body) (λ _. return 1)
