-- ===== src/Scripts/Laws.antt =====
-- How a script ends, of how its body ends.
use shiplog_prototype.Prelude.{ℕ, [], ◌≡◌, ◌≢◌, ◌⊎◌, inl, inr, refl}
use shiplog_prototype.Errors.{Thrown}
use shiplog_prototype.World.{World, M, done, fail, after_fault, ◌>>=◌, catch, execute}
use shiplog_prototype.World.Laws.{execute-cases, execute_fine}
use shiplog_prototype.Scripts.{main, connect_db, exit_with}

module _ (body : M ℕ) (w : World) where
  -- The connection failed, and the script ends with code 1; or its body runs.
  pub main-cases :
      ((v : World) × (e : Thrown) × (main body w ≡ done 1 v) × (execute (λ u. u) w ≡ fail e v))
      ⊎ (main body w ≡ catch body (λ e. done 1) (after_fault w))
  unfolding main connect_db
  main-cases = elim (execute-cases (λ u. u) w) [
    | inl e ↦ inr (rw (catch, ◌>>=◌, e) refl)
    | inr (inl (t, e)) ↦ inl (after_fault w, t, rw (catch, ◌>>=◌, e) refl, e)
    | inr (inr (t, e)) ↦ inl (after_fault w, t, rw (catch, ◌>>=◌, e) refl, e)
  ]

  -- Without faults the body runs.
  pub main_fine : w.faults ≡ [] → main body w ≡ catch body (λ e. done 1) (after_fault w)
  unfolding main connect_db
  main_fine fine = rw (catch, ◌>>=◌, execute_fine (λ u. u) w fine) refl

-- Without faults a write does not fail.
pub execute-fail_never :
    (f : World → World) (w : World) (e : Thrown) (v : World)
    → w.faults ≡ []
    → execute f w ≢ fail e v
execute-fail_never f w e v fine h = let works = execute_fine f w fine in cc

-- Without faults a script that comes to its exit ends with its code.
pub exit_with_fine :
    (code : ℕ) (w : World) → w.faults ≡ [] → exit_with code w ≡ done code (after_fault w)
unfolding exit_with
exit_with_fine code w fine = rw (◌>>=◌, execute_fine (λ u. u) w fine) refl
