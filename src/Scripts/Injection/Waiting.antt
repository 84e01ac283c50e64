-- ===== src/Scripts/Injection/Waiting.antt =====
-- How long scripts/inject-failure.ts waits for its dead letter.
use shiplog_prototype.Prelude.{
  ℕ, zero, suc, ◌+◌, ◌*◌, ◌-◌, ◌≤◌, ltb, String, Bool, true, false, Bool-cases, Option, none, some,
  Option-cases, ◌≡◌, ◌≢◌, inl, inr, refl, arith,
}
use shiplog_prototype.Host.{Host}
use shiplog_prototype.World.{
  World, Database, M, done, ◌>>=◌, ◌>>◌, query, after_fault, return, catch, clock,
}
use shiplog_prototype.World.Laws.{Run-cases, query-cases, >>=-done}
use shiplog_prototype.Models.{Tenant, by_reconcile}
use shiplog_prototype.Queue.Requeue.{enqueue}
use shiplog_prototype.Scripts.Setup.{ensure_demo_context, has_api_key}
use shiplog_prototype.Scripts.{connect_db, disconnect_db, exit_with}
use shiplog_prototype.Scripts.Injection.{
  queue_fault, poisoned_job, heal, Waited, parked, gave_up, exit_some, after_wait, inject_for,
  inject_fault, inject_mode, inject_poison, inject_script, Mode, parse_mode, transient, logical,
  recovery, duplicate, idempotency, still_waiting, timeout_ms, find_letter, wait_for_dead_letter,
}

-- A second at least passes in a pause.
abbrev pub Pauses : M (Unit {0}) → Type 0
Pauses pause = (w v : World) → pause w ≡ done tt v → w.now + 1000 ≤ v.now

module _ (host : Host) (db : Database) (pause : M (Unit {0})) (slow : Pauses pause)
    (tenant_id fault_id : String) (start : ℕ) where
  abbrev wait : ℕ → M Waited
  wait fuel = wait_for_dead_letter host db pause fuel tenant_id fault_id start

  -- Fuel for every second that is left of the timeout, and two more, is enough.
  wait_ends :
      (n : ℕ) (w v : World)
      → 1 ≤ n
      → start + 46001 ≤ w.now + 1000 * n
      → wait n w ≢ done still_waiting v
  unfolding wait_for_dead_letter
  wait_ends zero w v some_fuel enough h = omega arith
  wait_ends (suc n) w v some_fuel enough h =
      elim (query-cases (find_letter host db tenant_id fault_id) w) [
        | inr (t, e) ↦ let absurd_run = (rw (◌>>=◌, e) at h) in cc
        | inl e ↦ elim (Option-cases (find_letter host db tenant_id fault_id (after_fault w))) [
          | inr (d, found) ↦ let absurd_run = (rw (◌>>=◌, e, found) at h) in cc
          | inl missing ↦ elim (Bool-cases (ltb timeout_ms (w.now - start))) [
            | inl late ↦ let absurd_run = (rw (◌>>=◌, e, missing, late) at h) in cc
            | inr early ↦
                let on_time : w.now ≤ start + 45000 = ground arith in
                let rest : (pause >> wait n) (after_fault w) ≡ done still_waiting v =
                  (rw (◌>>=◌, e, missing, early) at h) in
                let (_, u, paused, later) = >>=-done pause (λ _. wait n) (after_fault w) v rest in
                let passed = slow (after_fault w) u paused in
                wait_ends n u v (omega arith) (omega arith) later
          ]
        ]
      ]

-- A program that, where it returns, returns an exit code.
abbrev Ends : M (Option ℕ) → Type 0
Ends m = (w v : World) (a : Option ℕ) → m w ≡ done a v → (code : ℕ) × (a ≡ some code) × (code ≤ 2)

>>=-Ends : {A : Type 0} (m : M A) (f : A → M (Option ℕ)) → ((a : A) → Ends (f a)) → Ends (m >>= f)
>>=-Ends m f p w v b h = let (a, u, _, later) = >>=-done m f w v h in p a u v b later

exit_some-Ends : (code : ℕ) → code ≤ 2 → Ends (exit_some code)
unfolding exit_with
exit_some-Ends code small w v a h =
    let (n, u, exits, later) = >>=-done (exit_with code) (λ k. return (some k)) w v h in
    let (_, t, _, returned) = >>=-done disconnect_db (λ _. return code) w u exits in
    (code, cc, small)

module _ (host : Host) (db : Database) (pause : M (Unit {0})) (slow : Pauses pause) where
  abbrev fuel : ℕ
  fuel = 47

  after_wait-Ends :
      (t : String) (a : Waited) → a ≢ still_waiting → Ends (after_wait host db pause t a)
  unfolding after_wait
  after_wait-Ends t (parked d) ends = >>=-Ends (query _) _ (λ n. exit_some-Ends 0 (omega arith))
  after_wait-Ends t gave_up ends = exit_some-Ends 0 (omega arith)
  after_wait-Ends t still_waiting ends = absurd (ends refl)

  waited-Ends :
      (t f : String)
      → Ends (
          clock >>= λ start.
          wait_for_dead_letter host db pause fuel t f start >>= after_wait host db pause t)
  waited-Ends t f w v b h =
      let (a, u, waited, later) =
        >>=-done (wait_for_dead_letter host db pause fuel t f w.now) _ w v h in
      after_wait-Ends t a
        (λ same.
          wait_ends host db pause slow t f w.now fuel w u (omega arith) (omega arith)
            (rw (same) at waited))
        u v b later

  inject_for-Ends :
      (is_duplicate : Bool) (digits : String) (t : Option Tenant)
      → Ends (inject_for host db pause fuel is_duplicate digits t)
  unfolding inject_for inject_fault
  inject_for-Ends is_duplicate digits none = exit_some-Ends 2 (omega arith)
  inject_for-Ends is_duplicate digits (some t) =
      >>=-Ends (queue_fault host db is_duplicate digits (host.object_id t.id)) _
        (λ _. waited-Ends (host.object_id t.id) _)

  inject_poison-Ends : (poison : String) → Ends (inject_poison host db poison)
  unfolding inject_poison
  inject_poison-Ends poison = >>=-Ends (ensure_demo_context host db by_reconcile) _ (λ ctx.
      >>=-Ends (enqueue (poisoned_job host db ctx poison)) _ (λ _. exit_some-Ends 0 (omega arith)))

  heal-Ends :
      (is_duplicate : Bool) (digits : String) → Ends (heal host db pause fuel is_duplicate digits)
  heal-Ends is_duplicate digits =
      >>=-Ends (query (λ w. db.tenants.find_one (has_api_key "acme-api-key") w.tenants)) _
        (inject_for-Ends is_duplicate digits)

  inject_mode-Ends :
      (digits : String) (mode : Mode) → Ends (inject_mode host db pause fuel digits mode)
  unfolding inject_mode
  inject_mode-Ends digits transient = inject_poison-Ends "transient"
  inject_mode-Ends digits logical = inject_poison-Ends "logical"
  inject_mode-Ends digits recovery = heal-Ends false digits
  inject_mode-Ends digits duplicate = heal-Ends true digits
  inject_mode-Ends digits idempotency = heal-Ends true digits

  -- Where a pause takes a second or more, and whatever else happens in it: whichever calls fail,
  -- inject-failure exits with code 0, 1 or 2, by at most 47 looks at the dead letters.
  pub inject_script-ends :
      (given digits : String) (w : World)
      → (code : ℕ) × (v : World) × (inject_script host db pause fuel given digits w
          ≡ done (some code) v)
        × (code ≤ 2)
  unfolding inject_script connect_db
  inject_script-ends given digits w = elim (Option-cases (parse_mode given)) [
    | inl e ↦ (2, w, rw (inject_script, e) refl, omega arith)
    | inr (mode, e) ↦
        let body = connect_db >>= λ _. inject_mode host db pause fuel digits mode in
        elim (Run-cases (body w)) [
          | inr (t, v, r) ↦ (1, v, rw (inject_script, e, catch, r) refl, omega arith)
          | inl (a, v, r) ↦
              let (code, same, small) =
                >>=-Ends connect_db _ (λ _. inject_mode-Ends digits mode) w v a r in
              (code, v, rw (inject_script, e, catch, r, same) refl, small)
        ]
  ]
