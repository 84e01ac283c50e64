-- ===== src/Mongo/Sorting.antt =====
-- A sort by insertion, in either order.
use mathlib.Core.List.{Perm}
use mathlib.Core.List.Perm
use shiplog_prototype.Prelude.{
  ℕ, Bool, true, false, List, [], ◌∷◌, ◌≡◌, inl, inr, All, arith, ltb, if◌then◌else◌, Bool-cases,
}
use shiplog_prototype.Mongo.{Direction, ascending, descending, Before, Ordered}

-- The first key comes strictly after the second.
abbrev comes_after : Direction → ℕ → ℕ → Bool
comes_after ascending a b = ltb b a
comes_after descending a b = ltb a b

after-Before : (dir : Direction) (a b : ℕ) → comes_after dir a b ≡ true → Before dir b a
after-Before ascending a b h = ground arith
after-Before descending a b h = ground arith

other-Before : (dir : Direction) (a b : ℕ) → comes_after dir a b ≡ false → Before dir a b
other-Before ascending a b h = ground arith
other-Before descending a b h = ground arith

Before-trans : (dir : Direction) (a b c : ℕ) → Before dir a b → Before dir b c → Before dir a c
Before-trans ascending a b c h k = omega arith
Before-trans descending a b c h k = omega arith

module _ {Row : Type 0} (dir : Direction) (k : Row → ℕ) where
  insert_sorted : Row → List Row → List Row
  insert_sorted x [] = x ∷ []
  insert_sorted x (y ∷ ys) =
      let rest = insert_sorted x ys in if comes_after dir (k x) (k y) then y ∷ rest else x ∷ y ∷ ys

  insert_sorted-Perm : (x : Row) (ys : List Row) → Perm (insert_sorted x ys) (x ∷ ys)
  unfolding insert_sorted
  insert_sorted-Perm x [] = Perm.refl (x ∷ [])
  insert_sorted-Perm x (y ∷ ys) = elim (Bool-cases (comes_after dir (k x) (k y))) [
    | inl lower ↦ rw lower (Perm.trans (Perm.cons y (insert_sorted-Perm x ys)) (Perm.swap x y ys))
    | inr here ↦ rw here (Perm.refl (x ∷ y ∷ ys))
  ]

  All-insert_sorted :
      (P : Row → Type 0) (x : Row) (ys : List Row) → P x → All P ys → All P (insert_sorted x ys)
  unfolding insert_sorted
  All-insert_sorted P x [] p _ = (p, tt)
  All-insert_sorted P x (y ∷ ys) p (q, qs) = elim (Bool-cases (comes_after dir (k x) (k y))) [
    | inl lower ↦ rw lower (q, All-insert_sorted P x ys p qs)
    | inr here ↦ rw here (p, (q, qs))
  ]

  All-Before :
      (a b : ℕ) (ys : List Row)
      → Before dir a b
      → All (λ z. Before dir b (k z)) ys
      → All (λ z. Before dir a (k z)) ys
  All-Before a b [] h _ = tt
  All-Before a b (y ∷ ys) h (q, qs) = (Before-trans dir a b (k y) h q, All-Before a b ys h qs)

  insert_sorted-Ordered :
      (x : Row) (ys : List Row) → Ordered dir k ys → Ordered dir k (insert_sorted x ys)
  unfolding insert_sorted
  insert_sorted-Ordered x [] _ = (tt, tt)
  insert_sorted-Ordered x (y ∷ ys) (top, rest) = elim (Bool-cases (comes_after dir (k x) (k y))) [
    | inl lower ↦ rw lower (
      All-insert_sorted (λ z. Before dir (k y) (k z)) x ys (after-Before dir (k x) (k y) lower) top,
      insert_sorted-Ordered x ys rest,
    )
    | inr here ↦
        let above = other-Before dir (k x) (k y) here in
        rw here ((above, All-Before (k x) (k y) ys above top), (top, rest))
  ]

  pub sort_by : List Row → List Row
  sort_by [] = []
  sort_by (x ∷ xs) = insert_sorted x (sort_by xs)

  pub sort_by_lem : (xs : List Row) → Perm (sort_by xs) xs × Ordered dir k (sort_by xs)
  unfolding sort_by
  sort_by_lem [] = (Perm.refl [], tt)
  sort_by_lem (x ∷ xs) =
      let (same, sorted) = sort_by_lem xs in
      (
        Perm.trans (insert_sorted-Perm x (sort_by xs)) (Perm.cons x same),
        insert_sorted-Ordered x (sort_by xs) sorted,
      )
