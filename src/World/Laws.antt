-- ===== src/World/Laws.antt =====
-- How calls end: in one of three ways under a schedule of faults, and well without faults.
use shiplog_prototype.Prelude.{◌≡◌, refl, ◌⊎◌, inl, inr, []}
use shiplog_prototype.Errors.{Thrown}
use shiplog_prototype.World.{
  Fault, fine, refused, lost, World, Run, done, fail, after_fault, next_fault, settle, attempt,
  query, M, ◌>>=◌, execute,
}

-- The next call fails with this error.
abbrev pub IsFaulty : World → Thrown → Type 0
IsFaulty w e = (next_fault w.faults ≡ refused e) ⊎ (next_fault w.faults ≡ lost e)

module _ {A : Type 0} where
  -- A call returns its value, or fails with nothing done, or fails with everything done.
  abbrev pub Settles : (World → A × World) → World → Run A → Type 0
  Settles op w r =
      (r ≡ done (op (after_fault w)).0 (op (after_fault w)).1)
      ⊎ ((e : Thrown) × (r ≡ fail e (after_fault w)))
      ⊎ ((e : Thrown) × (r ≡ fail e (op (after_fault w)).1))

  settle-cases :
      (op : World → A × World) (w : World) (f : Fault)
      → Settles op w (settle f (after_fault w) (op (after_fault w)))
  settle-cases op w fine = inl refl
  settle-cases op w (refused e) = inr (inl (e, refl))
  settle-cases op w (lost e) = inr (inr (e, refl))

  pub attempt-cases : (op : World → A × World) (w : World) → Settles op w (attempt op w)
  unfolding attempt
  attempt-cases op w = settle-cases op w (next_fault w.faults)

  pub query-cases :
      (f : World → A) (w : World)
      → (query f w ≡ done (f (after_fault w)) (after_fault w))
        ⊎ ((e : Thrown) × (query f w ≡ fail e (after_fault w)))
  unfolding query
  query-cases f w = elim (attempt-cases (λ v. (f v, v)) w) [
    | inl e ↦ inl e
    | inr (inl e) ↦ inr e
    | inr (inr e) ↦ inr e
  ]

  settle-failures :
      (a : A) (w : World) (f : Fault)
      → (settle f w (a, w) ≡ done a w)
        ⊎ ((e : Thrown) × (settle f w (a, w) ≡ fail e w) × ((f ≡ refused e) ⊎ (f ≡ lost e)))
  settle-failures a w fine = inl refl
  settle-failures a w (refused e) = inr (e, refl, inl refl)
  settle-failures a w (lost e) = inr (e, refl, inr refl)

  -- A call that reads fails with the error of the fault at its turn only.
  pub query-failures :
      (f : World → A) (w : World)
      → (query f w ≡ done (f (after_fault w)) (after_fault w))
        ⊎ ((e : Thrown) × (query f w ≡ fail e (after_fault w)) × IsFaulty w e)
  unfolding query attempt
  query-failures f w = settle-failures (f (after_fault w)) (after_fault w) (next_fault w.faults)

  -- A call whose turn has no fault works.
  pub attempt_works :
      (op : World → A × World) (w : World)
      → next_fault w.faults ≡ fine
      → attempt op w ≡ done (op (after_fault w)).0 (op (after_fault w)).1
  unfolding attempt
  attempt_works op w h = rw h

  -- Without faults a call works.
  pub attempt_fine :
      (op : World → A × World) (w : World)
      → w.faults ≡ []
      → attempt op w ≡ done (op (after_fault w)).0 (op (after_fault w)).1
  unfolding attempt
  attempt_fine op w h = rw h

  pub query_fine :
      (f : World → A) (w : World)
      → w.faults ≡ []
      → query f w ≡ done (f (after_fault w)) (after_fault w)
  unfolding query
  query_fine f w h = attempt_fine (λ v. (f v, v)) w h

pub Run-cases {ℓ} :
    {A : Type ℓ} (r : Run A)
    → ((a : A) × (w : World) × (r ≡ done a w)) ⊎ ((e : Thrown) × (w : World) × (r ≡ fail e w))
Run-cases (done a w) = inl (a, w, refl)
Run-cases (fail e w) = inr (e, w, refl)

-- A composed run that returns went through a first part that returned.
pub >>=-done :
    {A B : Type 0} (m : M A) (f : A → M B) (w w' : World) {b : B}
    → (m >>= f) w ≡ done b w'
    → (a : A) × (v : World) × (m w ≡ done a v) × (f a v ≡ done b w')
>>=-done m f w w' h = elim (Run-cases (m w)) [
  | inl (a, v, e) ↦ (a, v, e, (rw (e, ◌>>=◌) at h))
  | inr (err, v, e) ↦ let absurd_run = (rw (e, ◌>>=◌) at h) in cc
]

-- A write works, or fails before it, or fails after it.
pub execute-cases : (f : World → World) (w : World) → Settles (λ v. (tt, f v)) w (execute f w)
unfolding execute
execute-cases f w = attempt-cases (λ v. (tt, f v)) w

settle_writing-failures :
    (f : World → World) (v : World) (x : Fault)
    → (settle x v (tt, f v) ≡ done tt (f v))
      ⊎ ((e : Thrown) × (settle x v (tt, f v) ≡ fail e v) × ((x ≡ refused e) ⊎ (x ≡ lost e)))
      ⊎ ((e : Thrown) × (settle x v (tt, f v) ≡ fail e (f v)) × ((x ≡ refused e) ⊎ (x ≡ lost e)))
settle_writing-failures f v fine = inl refl
settle_writing-failures f v (refused e) = inr (inl (e, refl, inl refl))
settle_writing-failures f v (lost e) = inr (inr (e, refl, inr refl))

-- A write fails with the error of the fault at its turn only.
pub execute-failures :
    (f : World → World) (w : World)
    → (execute f w ≡ done tt (f (after_fault w)))
      ⊎ ((e : Thrown) × (execute f w ≡ fail e (after_fault w)) × IsFaulty w e)
      ⊎ ((e : Thrown) × (execute f w ≡ fail e (f (after_fault w))) × IsFaulty w e)
unfolding execute attempt
execute-failures f w = settle_writing-failures f (after_fault w) (next_fault w.faults)

pub execute_fine :
    (f : World → World) (w : World) → w.faults ≡ [] → execute f w ≡ done tt (f (after_fault w))
unfolding execute
execute_fine f w h = attempt_fine (λ v. (tt, f v)) w h
