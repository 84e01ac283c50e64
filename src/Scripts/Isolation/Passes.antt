-- ===== src/Scripts/Isolation/Passes.antt =====
-- When scripts/isolation-check.ts reports success.
use mathlib.Core.Bool.{Bool-set}
use mathlib.Core.List.{Perm, Permᴰ}
use mathlib.Core.Logic.{∥∥₁_elim}
use shiplog_prototype.Prelude.{
  ℕ, String, Bool, true, false, ◌&&◌, some, List, [], ◌∷◌, ◌≡◌, ◌≢◌, refl, sym, ◌∙◌, ap, arith, any,
  select, eq_iff, Bool-cases, inl, inr, if◌then◌else◌,
}
use shiplog_prototype.Host.{Host}
use shiplog_prototype.Models.{Tenant, Event}
use shiplog_prototype.World.{
  World, Database, M, done, query, after_fault, later_faults, ◌>>=◌, catch,
}
use shiplog_prototype.World.Laws.{query_fine}
use shiplog_prototype.Scripts.Laws.{main_fine, exit_with_fine}
use shiplog_prototype.Scripts.Isolation.{
  every, populated, is_of, is_copy, isolation_passes, find_all, check_shared, compare_rows,
  check_tenants, find_by_key, isolation_check,
}

-- A test that says the same of lists with the same elements in another order.
module _ (f : List Event → Bool) (step : (xs ys : List Event) → Permᴰ xs ys → f xs ≡ f ys) where
  test-Perm : (xs ys : List Event) → Perm xs ys → f xs ≡ f ys
  test-Perm xs ys h = ∥∥₁_elim h (Bool-set (f xs) (f ys)) (step xs ys)

every_rearranged : (p : Event → Bool) (xs ys : List Event) → Permᴰ xs ys → every p xs ≡ every p ys
every_rearranged p _ _ Permᴰ.nil = refl
every_rearranged p _ _ (Permᴰ.cons {l₁ = xs} {l₂ = ys} e h) =
    ground (arith, ap p e, every_rearranged p xs ys h)
every_rearranged p _ _ (Permᴰ.swap e k) = ground (arith, ap p e, ap p k)
every_rearranged p xs zs (Permᴰ.trans {l₂ = ys} h k) =
    every_rearranged p xs ys h ∙ every_rearranged p ys zs k

any_rearranged : (p : Event → Bool) (xs ys : List Event) → Permᴰ xs ys → any p xs ≡ any p ys
any_rearranged p _ _ Permᴰ.nil = refl
any_rearranged p _ _ (Permᴰ.cons {l₁ = xs} {l₂ = ys} e h) =
    ground (arith, ap p e, any_rearranged p xs ys h)
any_rearranged p _ _ (Permᴰ.swap e k) = ground (arith, ap p e, ap p k)
any_rearranged p xs zs (Permᴰ.trans {l₂ = ys} h k) =
    any_rearranged p xs ys h ∙ any_rearranged p ys zs k

populated_rearranged : (xs ys : List Event) → Permᴰ xs ys → populated xs ≡ populated ys
populated_rearranged _ _ Permᴰ.nil = refl
populated_rearranged _ _ (Permᴰ.cons e h) = refl
populated_rearranged _ _ (Permᴰ.swap e k) = refl
populated_rearranged xs zs (Permᴰ.trans {l₂ = ys} h k) =
    populated_rearranged xs ys h ∙ populated_rearranged ys zs k

every-select :
    (p q : Event → Bool) (es : List Event)
    → ((e : Event) → p e ≡ true → q e ≡ true)
    → every q (select p es) ≡ true
every-select p q [] sub = refl
every-select p q (e ∷ es) sub = elim (Bool-cases (p e)) [
  | inl hit ↦ rw (hit, sub e hit) (every-select p q es sub)
  | inr miss ↦ rw miss (every-select p q es sub)
]

any-select_none :
    (p q : Event → Bool) (es : List Event)
    → ((e : Event) → p e ≡ true → q e ≡ false)
    → any q (select p es) ≡ false
any-select_none p q [] apart = refl
any-select_none p q (e ∷ es) apart = elim (Bool-cases (p e)) [
  | inl hit ↦ rw (hit, apart e hit) (any-select_none p q es apart)
  | inr miss ↦ rw miss (any-select_none p q es apart)
]

populated-select : (p : Event → Bool) (es : List Event) → populated (select p es) ≡ any p es
populated-select p [] = refl
populated-select p (e ∷ es) = elim (Bool-cases (p e)) [
  | inl hit ↦ rw hit refl
  | inr miss ↦ rw miss (populated-select p es)
]

module _ (host : Host) (db : Database) where
  -- The events that the wrapper finds for a tenant.
  abbrev found_of : String → World → List Event
  found_of id w = db.events.find (is_of id) w.events

  module _ (w : World) (id : String) where
    abbrev found-Perm : Perm (found_of id w) (select (is_of id) w.events)
    found-Perm = db.events.find_lem (is_of id) w.events

    own_rows : every (is_of id) (found_of id w) ≡ true
    own_rows =
        test-Perm (every (is_of id)) (every_rearranged (is_of id)) _ _ found-Perm
        ∙ every-select (is_of id) (is_of id) w.events (λ e h. h)

    no_other_rows : (other : String) → id ≢ other → any (is_of other) (found_of id w) ≡ false
    no_other_rows other apart =
        test-Perm (any (is_of other)) (any_rearranged (is_of other)) _ _ found-Perm
        ∙ any-select_none (is_of id) (is_of other) w.events
            (λ e h. let h' = h in ground (arith, eq_iff e.tenant_id id, eq_iff e.tenant_id other))

    found_populated : populated (found_of id w) ≡ any (is_of id) w.events
    found_populated =
        test-Perm populated populated_rearranged _ _ found-Perm
        ∙ populated-select (is_of id) w.events

    own_copies :
        (external_id : String)
        → every (is_of id) (db.events.find (is_copy id external_id) w.events) ≡ true
    own_copies external_id =
        test-Perm (every (is_of id)) (every_rearranged (is_of id)) _ _
          (db.events.find_lem (is_copy id external_id) w.events)
        ∙ every-select (is_copy id external_id) (is_of id) w.events (λ e h. ground arith)

  check_shared_fine :
      (a : String) (rows : List Event) (w : World)
      → w.faults ≡ []
      → (w' : World) × (check_shared host db a rows w ≡ done true w') × (w'.faults ≡ [])
  unfolding check_shared
  check_shared_fine a [] w fine = (w, refl, fine)
  check_shared_fine a (e ∷ es) w fine = (
    after_fault w,
    rw
        (
          ◌>>=◌,
          query_fine (λ v. db.events.find (is_copy a e.external_id) v.events) w fine,
          own_copies w a e.external_id,
        )
        refl,
    ap later_faults fine,
  )

  module _ (a b : String) (apart : a ≢ b) where
    compare_rows_fine :
        (w : World)
        → w.faults ≡ []
        → (w' : World) × (compare_rows host db a b w
            ≡ done (if any (is_of a) w.events && any (is_of b) w.events then 0 else 1) w')
    unfolding compare_rows find_all
    compare_rows_fine w fine =
        let w1 = after_fault w in
        let w2 = after_fault w1 in
        let fine1 = ap later_faults fine in
        let (w3, shared, fine3) = check_shared_fine a (found_of b w2) w2 (ap later_faults fine1) in
        (
          after_fault w3,
          rw
              (
                ◌>>=◌,
                query_fine (found_of a) w fine,
                query_fine (found_of b) w1 fine1,
                shared,
                exit_with_fine
                    (if isolation_passes a b (found_of a w) (found_of b w) true then 0 else 1) w3
                    fine3,
                found_populated w a,
                found_populated w b,
                own_rows w a,
                own_rows w b,
                no_other_rows w a b apart,
                no_other_rows w b a (λ e. apart (sym e)),
              )
              (ground arith),
        )

  abbrev find_and_check : M ℕ
  find_and_check = query (find_by_key host db "acme-api-key") >>= λ acme.
      query (find_by_key host db "globex-api-key") >>= λ globex. check_tenants host db acme globex

  -- Without failing calls, where both tenants are stored, under different ids, the check passes
  -- exactly when each of the two tenants has an event. What the wrapper finds never fails it.
  pub isolation_check_lem :
      (acme globex : Tenant) (w : World)
      → w.faults ≡ []
      → find_by_key host db "acme-api-key" w ≡ some acme
      → find_by_key host db "globex-api-key" w ≡ some globex
      → host.object_id acme.id ≢ host.object_id globex.id
      → (w' : World) × (isolation_check host db w
          ≡ done
              (if any (is_of (host.object_id acme.id)) w.events
                  && any (is_of (host.object_id globex.id)) w.events
                then 0
                else 1)
              w')
  unfolding isolation_check check_tenants
  isolation_check_lem acme globex w fine has_acme has_globex apart =
      let w1 = after_fault w in
      let f1 = ap later_faults fine in
      let w2 = after_fault w1 in
      let f2 = ap later_faults f1 in
      let f3 = ap later_faults f2 in
      let acme_there =
        query_fine (find_by_key host db "acme-api-key") w1 f1 ∙ ap (λ o. done o w2) has_acme in
      let globex_there =
        query_fine (find_by_key host db "globex-api-key") w2 f2
        ∙ ap (λ o. done o (after_fault w2)) has_globex in
      let (w', e) =
        compare_rows_fine (host.object_id acme.id) (host.object_id globex.id) apart (after_fault w2)
          f3 in
      (w', main_fine (find_and_check) w fine ∙ rw (catch, ◌>>=◌, acme_there, globex_there, e) refl)
