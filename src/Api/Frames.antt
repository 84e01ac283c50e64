-- ===== src/Api/Frames.antt =====
-- What a request of a tenant may change: a small logic of programs that leave the data of all other
-- tenants as they are, and queue nothing but what is the tenant's.
use mathlib.Core.Bool.{Bool-set}
use mathlib.Core.Logic.Or
use mathlib.Core.List.{Perm, append-nil, append_assoc}
use mathlib.Core.List
use mathlib.Core.List.{Mem}
use shiplog_prototype.Prelude.{
  ℕ, String, Bool, true, false, some, List, [], ◌∷◌, ◌++◌, ◌≡◌, ◌≢◌, ◌⊎◌, refl, ap, sym, ◌∙◌,
  select, inl, inr, if◌then◌else◌, All, All-append, Bool-cases, nat_eq, ◌==◌,
}
use shiplog_prototype.Host.{Host}
use shiplog_prototype.Errors.{Thrown}
use shiplog_prototype.Models.{DeadLetter, RawRecord, Connection, IngestJobData, ReconcileJob}
use shiplog_prototype.Mongo.{IsFound, IsUpdate}
use shiplog_prototype.World.{
  World, M, final, after_fault, ◌>>=◌, return, throw, catch, query, execute,
}
use shiplog_prototype.World.Laws.{query-cases, execute-cases, Run-cases}
use shiplog_prototype.Api.{Reply, or_500}
use shiplog_prototype.Api.Connections.Isolated.{owned_by}

-- Membership in a selection.
pub Mem-select :
    {A : Type 0} (p : A → Bool) (x : A) (xs : List A)
    → Mem x (select p xs)
    → Mem x xs × (p x ≡ true)
Mem-select p x [] m = absurd (List.not-mem-nil m)
Mem-select p x (y ∷ ys) m = elim (Bool-cases (p y)) [
  | inr out ↦
      let (there, passes) = Mem-select p x ys (rw (out) at m) in
      (List.mem-cons_of_mem y there, passes)
  | inl in_it ↦ (
    Or.elim List.Mem-prop (List.eq-or-mem_of_mem-cons (rw (in_it) at m))
        (λ e. rw (e) List.mem-cons_self)
        (λ there. List.mem-cons_of_mem y (Mem-select p x ys there).0),
    Or.elim (Bool-set (p x) true) (List.eq-or-mem_of_mem-cons (rw (in_it) at m)) (λ e. rw (e) in_it)
        (λ there. (Mem-select p x ys there).1),
  )
]

module _ (host : Host) (t : String) (o : World) where
  -- What a tenant may put on the ingest queue in a world: the payload of one of its dead letters, or a
  -- job for itself with the payload of one of its landed records.
  abbrev pub OwnsJob : IngestJobData → Type 0
  OwnsJob j =
      ((d : DeadLetter) × IsFound (λ x. x.tenant_id == t) d o.dead_letters × (j ≡ d.payload))
      ⊎ ((r : RawRecord) × Mem r o.raw_records
          × ((r.tenant_id == t) ≡ true)
          × (j.tenant_id ≡ t)
          × (j.record_data ≡ r.payload))

  -- What it may put on the reconcile queue: a job for itself and one of its connections.
  abbrev pub OwnsPoll : ReconcileJob → Type 0
  OwnsPoll j =
      (c : Connection) × IsFound (λ x. x.tenant_id == t) c o.connections
      × (j.job_data.tenant_id ≡ t)
      × (j.job_data.connection_id ≡ host.object_id c.id)

  -- Dead letters that have the ids of the tenant's own got replay stamps, and nothing else changed.
  pub data Stamps : List DeadLetter → List DeadLetter → Type 0 where
    as_before : {ds es : List DeadLetter} → es ≡ ds → Stamps ds es
    has_stamp :
        {ds es fs : List DeadLetter} (d : DeadLetter) (now : ℕ)
        → IsFound (λ x. x.tenant_id == t) d o.dead_letters
        → IsUpdate (λ x. nat_eq x.id d.id) (λ x. record x { replayed_at = some now }) ds es
        → Stamps es fs
        → Stamps ds fs

  Stamps-trans : {ds es fs : List DeadLetter} → Stamps ds es → Stamps es fs → Stamps ds fs
  Stamps-trans (as_before e) s = rw (sym e) s
  Stamps-trans (has_stamp d now found u r) s = has_stamp d now found u (Stamps-trans r s)

  -- Only connections of the tenant, replay stamps of its dead letters, and jobs of the tenant at the
  -- ends of two queues differ.
  pub record Frames (w w' : World) : Type 0 where
    pub tenants : w'.tenants ≡ w.tenants
    pub sync_states : w'.sync_states ≡ w.sync_states
    pub raw_records : w'.raw_records ≡ w.raw_records
    pub events : w'.events ≡ w.events
    pub sync_runs : w'.sync_runs ≡ w.sync_runs
    pub dlq_queue : w'.dlq_queue ≡ w.dlq_queue
    pub nango_sync_queue : w'.nango_sync_queue ≡ w.nango_sync_queue
    pub letters : Stamps w.dead_letters w'.dead_letters
    pub connections :
        (u : String)
        → u ≢ t
        → select (owned_by u) w'.connections ≡ select (owned_by u) w.connections
    pub jobs : (js : List IngestJobData) × (w'.ingest_queue ≡ w.ingest_queue ++ js) × All OwnsJob js
    pub polls :
        (js : List ReconcileJob) × (w'.reconcile_queue ≡ w.reconcile_queue ++ js) × All OwnsPoll js

  -- Nothing was put on a queue.
  pub no_jobs :
      (q : List IngestJobData) → (js : List IngestJobData) × (q ≡ q ++ js) × All OwnsJob js
  no_jobs q = ([], sym (append-nil q), tt)

  pub no_polls :
      (q : List ReconcileJob) → (js : List ReconcileJob) × (q ≡ q ++ js) × All OwnsPoll js
  no_polls q = ([], sym (append-nil q), tt)

  -- To write queues, the connections of the tenant and the stamps is within the frame.
  pub Frames-writes :
      (w w' : World)
      → w' ≡ record w {
        connections = w'.connections;
        dead_letters = w'.dead_letters;
        ingest_queue = w'.ingest_queue;
        reconcile_queue = w'.reconcile_queue;
        next_id = w'.next_id;
        faults = w'.faults;
      }
      → Stamps w.dead_letters w'.dead_letters
      → ((u : String)
          → u ≢ t
          → select (owned_by u) w'.connections ≡ select (owned_by u) w.connections)
      → ((js : List IngestJobData) × (w'.ingest_queue ≡ w.ingest_queue ++ js) × All OwnsJob js)
      → ((js : List ReconcileJob) × (w'.reconcile_queue ≡ w.reconcile_queue ++ js)
          × All OwnsPoll js)
      → Frames w w'
  Frames-writes w w' e same_letters same_connections own_jobs own_polls = record {
    tenants = ap (λ v. v.tenants) e;
    sync_states = ap (λ v. v.sync_states) e;
    raw_records = ap (λ v. v.raw_records) e;
    events = ap (λ v. v.events) e;
    sync_runs = ap (λ v. v.sync_runs) e;
    dlq_queue = ap (λ v. v.dlq_queue) e;
    nango_sync_queue = ap (λ v. v.nango_sync_queue) e;
    letters = same_letters;
    connections = same_connections;
    jobs = own_jobs;
    polls = own_polls;
  }

  Frames-refl : (w : World) → Frames w w
  Frames-refl w =
      Frames-writes w w refl (as_before refl) (λ u n. refl) (no_jobs w.ingest_queue)
        (no_polls w.reconcile_queue)

  pub Frames-trans : {u v w : World} → Frames u v → Frames v w → Frames u w
  Frames-trans {u} {v} {w} a b =
      let (js, added, mine) = a.jobs in
      let (ks, added_too, mine_too) = b.jobs in
      let (ps, polled, own) = a.polls in
      let (qs, polled_too, own_too) = b.polls in
      record {
        tenants = b.tenants ∙ a.tenants;
        sync_states = b.sync_states ∙ a.sync_states;
        raw_records = b.raw_records ∙ a.raw_records;
        events = b.events ∙ a.events;
        sync_runs = b.sync_runs ∙ a.sync_runs;
        dlq_queue = b.dlq_queue ∙ a.dlq_queue;
        nango_sync_queue = b.nango_sync_queue ∙ a.nango_sync_queue;
        letters = Stamps-trans a.letters b.letters;
        connections = λ x n. b.connections x n ∙ a.connections x n;
        jobs = (
          js ++ ks,
          added_too ∙ ap (λ q. q ++ ks) added ∙ append_assoc u.ingest_queue js ks,
          All-append OwnsJob js ks mine mine_too,
        );
        polls = (
          ps ++ qs,
          polled_too ∙ ap (λ q. q ++ qs) polled ∙ append_assoc u.reconcile_queue ps qs,
          All-append OwnsPoll ps qs own own_too,
        );
      }

  -- A fault that is used up is no change.
  pub Frames-after_fault : (w : World) → Frames w (after_fault w)
  Frames-after_fault w =
      Frames-writes w (after_fault w) refl (as_before refl) (λ u n. refl) (no_jobs w.ingest_queue)
        (no_polls w.reconcile_queue)

  -- However the program ends.
  pub record Keeps {A : Type 0} (m : M A) : Type 0 where
    pub kept : (w : World) → Frames w (final (m w))

  pub Keeps-return : {A : Type 0} (a : A) → Keeps (return a)
  Keeps-return a = record { kept = λ w. Frames-refl w }

  pub Keeps-throw : (A : Type 0) (e : Thrown) → Keeps (throw {A = A} e)
  Keeps-throw A e = record { kept = λ w. Frames-refl w }

  pub Keeps-query : {A : Type 0} (f : World → A) → Keeps (query f)
  Keeps-query f = record {
    kept = λ w. elim (query-cases f w) [
      | inl e ↦ rw (e, final) (Frames-after_fault w)
      | inr (t, e) ↦ rw (e, final) (Frames-after_fault w)
    ];
  }

  pub Keeps-execute : (f : World → World) → ((w : World) → Frames w (f w)) → Keeps (execute f)
  Keeps-execute f h = record {
    kept = λ w. elim (execute-cases f w) [
      | inl e ↦ rw (e, final) (Frames-trans (Frames-after_fault w) (h (after_fault w)))
      | inr (inl (t, e)) ↦ rw (e, final) (Frames-after_fault w)
      | inr (inr (t, e)) ↦ rw (e, final) (Frames-trans (Frames-after_fault w) (h (after_fault w)))
    ];
  }

  pub Keeps-bind :
      {A B : Type 0} (m : M A) (f : A → M B) → Keeps m → ((a : A) → Keeps (f a)) → Keeps (m >>= f)
  Keeps-bind m f h k = record {
    kept = λ w.
        let first = h.kept w in
        elim (Run-cases (m w)) [
          | inl (a, v, e) ↦ rw (◌>>=◌, e) (Frames-trans (rw (e, final) at first) ((k a).kept v))
          | inr (t, v, e) ↦ rw (◌>>=◌, e, final) (rw (e, final) at first)
        ];
  }

  pub Keeps-or_500 : {A : Type 0} (m : M (Reply A)) → Keeps m → Keeps (or_500 m)
  Keeps-or_500 m h = record {
    kept = λ w.
        let first = h.kept w in
        elim (Run-cases (m w)) [
          | inl (a, v, e) ↦ rw (catch, e, final) (rw (e, final) at first)
          | inr (t, v, e) ↦ rw (catch, e, final) (rw (e, final) at first)
        ];
  }

  pub Keeps-if :
      {A : Type 0} (b : Bool) (m n : M A) → Keeps m → Keeps n → Keeps (if b then m else n)
  Keeps-if true m n h k = h
  Keeps-if false m n h k = k

  -- However the program ends that begins in this world.
  pub record KeepsAt {A : Type 0} (w : World) (m : M A) : Type 0 where
    pub kept_at : Frames w (final (m w))

  pub KeepsAt-all : {A : Type 0} (w : World) (m : M A) → Keeps m → KeepsAt w m
  KeepsAt-all w m h = record { kept_at = h.kept w }

  -- What was read may be used in the rest.
  pub KeepsAt-query :
      {A B : Type 0} (w : World) (f : World → A) (k : A → M B)
      → Keeps (k (f (after_fault w)))
      → KeepsAt w (query f >>= k)
  KeepsAt-query w f k h = record {
    kept_at = elim (query-cases f w) [
      | inl e ↦ rw (◌>>=◌, e) (Frames-trans (Frames-after_fault w) (h.kept (after_fault w)))
      | inr (x, e) ↦ rw (◌>>=◌, e, final) (Frames-after_fault w)
    ];
  }

  pub KeepsAt-bind :
      {A B : Type 0} (w : World) (m : M A) (f : A → M B)
      → KeepsAt w m
      → ((a : A) → Keeps (f a))
      → KeepsAt w (m >>= f)
  KeepsAt-bind w m f h k =
      let first = h.kept_at in
      record {
        kept_at = elim (Run-cases (m w)) [
          | inl (a, v, e) ↦ rw (◌>>=◌, e) (Frames-trans (rw (e, final) at first) ((k a).kept v))
          | inr (x, v, e) ↦ rw (◌>>=◌, e, final) (rw (e, final) at first)
        ];
      }

  pub KeepsAt-or_500 :
      {A : Type 0} (w : World) (m : M (Reply A)) → KeepsAt w m → KeepsAt w (or_500 m)
  KeepsAt-or_500 w m h =
      let first = h.kept_at in
      record {
        kept_at = elim (Run-cases (m w)) [
          | inl (a, v, e) ↦ rw (catch, e, final) (rw (e, final) at first)
          | inr (x, v, e) ↦ rw (catch, e, final) (rw (e, final) at first)
        ];
      }

  pub KeepsAt-if :
      {A : Type 0} (w : World) (b : Bool) (m n : M A)
      → KeepsAt w m
      → KeepsAt w n
      → KeepsAt w (if b then m else n)
  KeepsAt-if w true m n h k = h
  KeepsAt-if w false m n h k = k
