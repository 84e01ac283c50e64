-- ===== src/World.antt =====
-- The state that the sources read and write, and the monad of their asynchronous functions: the
-- collections in MongoDB, the queues in Redis, the clock, and the faults that are still to come.
-- A call to a database or a queue goes through `attempt`, which takes the next fault of the schedule:
-- the call may work, may fail before it takes effect, or may take effect and fail all the same
-- because its reply is lost. A theorem that holds for every world holds for every schedule.
pub mod Laws
use shiplog_prototype.Prelude.{ℕ, suc, String, Bool, Option, none, some, List, [], ◌∷◌, ◌++◌}
use shiplog_prototype.Models.{
  Tenant, Connection, SyncState, RawRecord, Event, DeadLetter, SyncRun, IngestJobData,
  NangoSyncJobData, DlqJobData, ReconcileJob,
}
use shiplog_prototype.Errors.{Thrown}
use shiplog_prototype.Mongo.{Collection}

pub data Fault : Type 0 where
  fine : Fault
  refused lost : Thrown → Fault

pub record World : Type 0 where
  pub tenants : List Tenant
  pub connections : List Connection
  pub sync_states : List SyncState
  pub raw_records : List RawRecord
  pub events : List Event
  pub dead_letters : List DeadLetter
  pub sync_runs : List SyncRun
  pub ingest_queue : List IngestJobData
  pub dlq_queue : List DlqJobData
  pub nango_sync_queue : List NangoSyncJobData
  pub reconcile_queue : List ReconcileJob
  pub next_id : ℕ
  pub now : ℕ
  pub faults : List Fault

-- The collections' operations.
pub record Database : Type 0 where
  pub tenants : Collection Tenant
  pub connections : Collection Connection
  pub sync_states : Collection SyncState
  pub raw_records : Collection RawRecord
  pub events : Collection Event
  pub dead_letters : Collection DeadLetter
  pub sync_runs : Collection SyncRun

-- What an asynchronous function ends with: a value or what it threw, and the world it left.
pub data Run {ℓ} (A : Type ℓ) : Type ℓ where
  done : A → World → Run A
  fail : Thrown → World → Run A

-- The outcome of a function that may throw and calls nothing.
pub data Result {ℓ} (A : Type ℓ) : Type ℓ where
  ok : A → Result A
  err : Thrown → Result A

abbrev pub M : Type 0 → Type 0
M A = World → Run A

infixl 5 ◌>>=◌ ◌>>◌
abbrev pub ◌>>=◌ : {A B : Type 0} → M A → (A → M B) → M B
◌>>=◌ m f w = elim (m w) [ done a w' ↦ f a w' | fail e w' ↦ fail e w' ]

abbrev pub ◌>>◌ : {B : Type 0} → M (Unit {0}) → M B → M B
m >> k = m >>= λ _. k

abbrev pub return : {A : Type 0} → A → M A
return a w = done a w

abbrev pub throw : {A : Type 0} → Thrown → M A
throw e w = fail e w

abbrev pub lift : {A : Type 0} → Result A → M A
lift (ok a) = return a
lift (err e) = throw e

-- `try { … } catch (err) { … }`.
abbrev pub catch : {A : Type 0} → M A → (Thrown → M A) → M A
catch m h w = elim (m w) [ done a w' ↦ done a w' | fail e w' ↦ h e w' ]

-- The world after a run, however it ended.
abbrev pub final {ℓ} : {A : Type ℓ} → Run A → World
final (done a w) = w
final (fail e w) = w

abbrev pub next_fault : List Fault → Fault
next_fault [] = fine
next_fault (f ∷ fs) = f

abbrev pub later_faults : List Fault → List Fault
later_faults [] = []
later_faults (f ∷ fs) = fs

abbrev pub after_fault : World → World
after_fault w = record w { faults = later_faults w.faults }

abbrev pub settle : {A : Type 0} → Fault → World → A × World → Run A
settle fine w (a, w') = done a w'
settle (refused e) w (a, w') = fail e w
settle (lost e) w (a, w') = fail e w'

-- One call to the database or to a queue.
unfoldable pub attempt : {A : Type 0} → (World → A × World) → M A
attempt op w = settle (next_fault w.faults) (after_fault w) (op (after_fault w))

-- A call that only reads.
unfoldable pub query : {A : Type 0} → (World → A) → M A
unfolding attempt
query f = attempt (λ w. (f w, w))

-- A call that only writes.
unfoldable pub execute : (World → World) → M (Unit {0})
unfolding attempt
execute f = attempt (λ w. (tt, f w))

-- `Date.now()`.
abbrev pub clock : M ℕ
clock w = done w.now w

-- `Promise.all` of two: both calls are made, and the error of the first that failed is thrown.
abbrev pub both : M (Unit {0}) → M (Unit {0}) → M (Unit {0})
both m n w = elim (m w) [ done _ v ↦ n v | fail e v ↦ fail e (final (n v)) ]
