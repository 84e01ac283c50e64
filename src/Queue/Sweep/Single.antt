-- ===== src/Queue/Sweep/Single.antt =====
-- The reconcile queue holds at most one job for a connection and model
-- (src/queue/reconcileSweep.ts).
use mathlib.Core.Path.{subst}
use shiplog_prototype.Prelude.{
  or-false, ◌==◌, ◌&&◌, Bool, ℕ, ◌+◌, String, false, List, [], ◌∷◌, ◌++◌, ◌≡◌, inl, inr, refl, any,
  any-append, length, eq_iff, Bool-cases,
}
use shiplog_prototype.Text.{append}
use shiplog_prototype.Host.{Host}
use shiplog_prototype.Models.{Connection, ReconcileJob}
use shiplog_prototype.World.{World, Database, M, final, ◌>>=◌, query}
use shiplog_prototype.World.Laws.{Run-cases, query-cases, execute-cases}
use shiplog_prototype.Queue.Sweep.{
  reconcile_job_for, has_job_id, add_once, enqueue_reconcile_job, enqueue_models, models_of,
  sweep_all, is_active, reconcile_sweep,
}

-- The two jobs poll the same connection and model.
abbrev pub polls_same : ReconcileJob → ReconcileJob → Bool
polls_same i j =
    i.job_data.connection_id == j.job_data.connection_id && i.job_data.model == j.job_data.model

-- A job's id names its connection and model.
abbrev pub IsNamed : ReconcileJob → Type 0
IsNamed j =
    j.job_id ≡ append "reconcile:" (append j.job_data.connection_id (append ":" j.job_data.model))

-- No two jobs of the queue poll the same connection and model, and the ids name these.
abbrev pub HasUniqueJobs : List ReconcileJob → Type 0
HasUniqueJobs [] = Unit
HasUniqueJobs (j ∷ js) = IsNamed j × (any (polls_same j) js ≡ false) × HasUniqueJobs js

-- A job of an id that no job of the queue has polls what no job of the queue polls.
polls_same-has_job_id :
    (i j : ReconcileJob)
    → IsNamed i
    → IsNamed j
    → has_job_id j.job_id i ≡ false
    → polls_same i j ≡ false
polls_same-has_job_id i j p q other =
    elim (Bool-cases (i.job_data.connection_id == j.job_data.connection_id)) [
      | inr e ↦ rw (e) refl
      | inl e ↦ elim (Bool-cases (i.job_data.model == j.job_data.model)) [
        | inr f ↦ rw (e, f) refl
        | inl f ↦
            let c = (eq_iff i.job_data.connection_id j.job_data.connection_id).0 e in
            let m = (eq_iff i.job_data.model j.job_data.model).0 f in
            let same : i.job_id ≡ j.job_id = cc in
            let equal = (eq_iff i.job_id j.job_id).1 same in cc
      ]
    ]

HasUniqueJobs-append :
    (js : List ReconcileJob) (j : ReconcileJob)
    → IsNamed j
    → any (has_job_id j.job_id) js ≡ false
    → HasUniqueJobs js
    → HasUniqueJobs (js ++ j ∷ [])
HasUniqueJobs-append [] j named new u = (named, refl, tt)
HasUniqueJobs-append (i ∷ js) j named new (i_named, here, u) =
    let (other, others) = or-false (has_job_id j.job_id i) (any (has_job_id j.job_id) js) new in
    (
      i_named,
      rw
          (
            any-append (polls_same i) js (j ∷ []),
            here,
            polls_same-has_job_id i j i_named named other,
          )
          refl,
      HasUniqueJobs-append js j named others u,
    )

add_once-HasUniqueJobs :
    (j : ReconcileJob) (js : List ReconcileJob)
    → IsNamed j
    → HasUniqueJobs js
    → HasUniqueJobs (add_once j js)
unfolding add_once
add_once-HasUniqueJobs j js named u = elim (Bool-cases (any (has_job_id j.job_id) js)) [
  | inl there ↦ rw there u
  | inr new ↦ rw new (HasUniqueJobs-append js j named new u)
]

reconcile_job_for-IsNamed :
    (host : Host) (c : Connection) (model : String) → IsNamed (reconcile_job_for host c model)
unfolding reconcile_job_for
reconcile_job_for-IsNamed host c model = refl

-- The run keeps the jobs apart.
abbrev KeepsUnique : {A : Type 0} → M A → Type 0
KeepsUnique m =
    (w : World) → HasUniqueJobs w.reconcile_queue → HasUniqueJobs (final (m w)).reconcile_queue

>>=-KeepsUnique :
    {A B : Type 0} (m : M A) (f : A → M B)
    → KeepsUnique m
    → ((a : A) → KeepsUnique (f a))
    → KeepsUnique (m >>= f)
>>=-KeepsUnique m f hm hf w u = elim (Run-cases (m w)) [
  | inl (a, v, e) ↦
      rw (◌>>=◌, e) (hf a v (subst (λ r. HasUniqueJobs (final r).reconcile_queue) e (hm w u)))
  | inr (t, v, e) ↦ rw (◌>>=◌, e) (subst (λ r. HasUniqueJobs (final r).reconcile_queue) e (hm w u))
]

enqueue-KeepsUnique :
    (host : Host) (c : Connection) (model : String)
    → KeepsUnique (enqueue_reconcile_job host c model)
unfolding enqueue_reconcile_job
enqueue-KeepsUnique host c model w u =
    let j = reconcile_job_for host c model in
    let add = λ (v : World). record v { reconcile_queue = add_once j v.reconcile_queue } in
    let apart =
      add_once-HasUniqueJobs j w.reconcile_queue (reconcile_job_for-IsNamed host c model) u in
    elim (Bool-cases (host.is_job_id j.job_id)) [
      | inr bad ↦ rw (bad, final) u
      | inl good ↦ elim (execute-cases add w) [
        | inl e ↦ rw (good, final, e) apart
        | inr (inl (t, e)) ↦ rw (good, final, e) u
        | inr (inr (t, e)) ↦ rw (good, final, e) apart
      ]
    ]

enqueue_models-KeepsUnique :
    (host : Host) (c : Connection) (ms : List String) → KeepsUnique (enqueue_models host c ms)
unfolding enqueue_models
enqueue_models-KeepsUnique host c [] w u = u
enqueue_models-KeepsUnique host c (m ∷ ms) w u =
    >>=-KeepsUnique (enqueue_reconcile_job host c m) (λ _. enqueue_models host c ms)
      (enqueue-KeepsUnique host c m) (λ _. enqueue_models-KeepsUnique host c ms) w u

sweep_all-KeepsUnique :
    (host : Host) (cs : List Connection) (n : ℕ) → KeepsUnique (sweep_all host cs n)
unfolding sweep_all
sweep_all-KeepsUnique host [] n w u = u
sweep_all-KeepsUnique host (c ∷ cs) n w u =
    >>=-KeepsUnique (enqueue_models host c (models_of c))
      (λ _. sweep_all host cs (n + length (models_of c)))
      (enqueue_models-KeepsUnique host c (models_of c))
      (λ _. sweep_all-KeepsUnique host cs (n + length (models_of c))) w u

-- Whichever calls fail, a sweep leaves at most one job for each connection and model in the queue, with
-- an id that names them, if the queue was like that before.
pub reconcile_sweep-HasUniqueJobs :
    (host : Host) (db : Database) (w : World)
    → HasUniqueJobs w.reconcile_queue
    → HasUniqueJobs (final (reconcile_sweep host db w)).reconcile_queue
unfolding reconcile_sweep
reconcile_sweep-HasUniqueJobs host db w u =
    let find = λ (v : World). db.connections.find is_active v.connections in
    >>=-KeepsUnique (query find) (λ cs. sweep_all host cs 0)
      (λ v k. elim (query-cases find v) [ inl e ↦ rw (final, e) k | inr (t, e) ↦ rw (final, e) k ])
      (λ cs. sweep_all-KeepsUnique host cs 0) w u
