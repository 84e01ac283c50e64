-- ===== src/Mongo/Updates.antt =====
-- Changes of one document of a list, and upserts.
use shiplog_prototype.Prelude.{
  Bool, true, false, List, [], ◌∷◌, ◌++◌, ◌≡◌, inl, inr, any, arith, if◌then◌else◌, refl, ap,
  Bool-cases,
}
use shiplog_prototype.Mongo.{IsUpdate}

module _ {Row : Type 0} where
  unfoldable pub update_first : (Row → Bool) → (Row → Row) → List Row → List Row
  update_first p f [] = []
  update_first p f (x ∷ xs) = let rest = update_first p f xs in if p x then f x ∷ xs else x ∷ rest

  pub update_first-IsUpdate :
      (p : Row → Bool) (f : Row → Row) (xs : List Row)
      → any p xs ≡ true
      → IsUpdate p f xs (update_first p f xs)
  unfolding update_first
  update_first-IsUpdate p f [] h = cc
  update_first-IsUpdate p f (x ∷ xs) h = elim (Bool-cases (p x)) [
    | inl hit ↦
        rw hit
          (record { front = []; row = x; back = xs; matched = hit; before = refl; after = refl })
    | inr miss ↦
        let u = update_first-IsUpdate p f xs (ground arith) in
        rw miss (record {
          front = x ∷ u.front;
          row = u.row;
          back = u.back;
          matched = u.matched;
          before = ap (λ l. x ∷ l) u.before;
          after = ap (λ l. x ∷ l) u.after;
        })
  ]

  pub update_first-none :
      (p : Row → Bool) (f : Row → Row) (xs : List Row) → any p xs ≡ false → update_first p f xs ≡ xs
  unfolding update_first
  update_first-none p f [] h = refl
  update_first-none p f (x ∷ xs) h = ground (arith, update_first-none p f xs)

  unfoldable pub upsert_first : (Row → Bool) → (Row → Row) → Row → List Row → List Row × Bool
  upsert_first p f new xs =
      if any p xs then (update_first p f xs, false) else (xs ++ new ∷ [], true)

  pub upsert_first-IsUpdate :
      (p : Row → Bool) (f : Row → Row) (new : Row) (xs : List Row)
      → any p xs ≡ true
      → IsUpdate p f xs (upsert_first p f new xs).0 × ((upsert_first p f new xs).1 ≡ false)
  unfolding upsert_first
  upsert_first-IsUpdate p f new xs h = rw h (update_first-IsUpdate p f xs h, refl)

  pub upsert_first-insert :
      (p : Row → Bool) (f : Row → Row) (new : Row) (xs : List Row)
      → any p xs ≡ false
      → upsert_first p f new xs ≡ (xs ++ new ∷ [], true)
  unfolding upsert_first
  upsert_first-insert p f new xs h = rw h

  unfoldable pub changed_first : (Row → Bool) → (Row → Row) → Row → List Row → Row
  changed_first p f new [] = new
  changed_first p f new (x ∷ xs) = let rest = changed_first p f new xs in if p x then f x else rest

  unfoldable pub upsert_row_first : (Row → Bool) → (Row → Row) → Row → List Row → List Row × Row
  upsert_row_first p f new xs =
      (if any p xs then update_first p f xs else xs ++ new ∷ [], changed_first p f new xs)

  changed_first-none :
      (p : Row → Bool) (f : Row → Row) (new : Row) (xs : List Row)
      → any p xs ≡ false
      → changed_first p f new xs ≡ new
  unfolding changed_first
  changed_first-none p f new [] h = refl
  changed_first-none p f new (x ∷ xs) h = ground (arith, changed_first-none p f new xs)

  changed_first-IsUpdate :
      (p : Row → Bool) (f : Row → Row) (new : Row) (xs : List Row)
      → any p xs ≡ true
      → (u : IsUpdate p f xs (update_first p f xs)) × (changed_first p f new xs ≡ f u.row)
  unfolding changed_first update_first
  changed_first-IsUpdate p f new [] h = cc
  changed_first-IsUpdate p f new (x ∷ xs) h = elim (Bool-cases (p x)) [
    | inl hit ↦ rw hit (
      record { front = []; row = x; back = xs; matched = hit; before = refl; after = refl },
      refl,
    )
    | inr miss ↦
        let (u, e) = changed_first-IsUpdate p f new xs (ground arith) in
        rw miss (
          record {
            front = x ∷ u.front;
            row = u.row;
            back = u.back;
            matched = u.matched;
            before = ap (λ l. x ∷ l) u.before;
            after = ap (λ l. x ∷ l) u.after;
          },
          e,
        )
  ]

  pub upsert_row_first-IsUpdate :
      (p : Row → Bool) (f : Row → Row) (new : Row) (xs : List Row)
      → any p xs ≡ true
      → (u : IsUpdate p f xs (upsert_row_first p f new xs).0) × ((upsert_row_first p f new xs).1
          ≡ f u.row)
  unfolding upsert_row_first
  upsert_row_first-IsUpdate p f new xs h = rw h (changed_first-IsUpdate p f new xs h)

  pub upsert_row_first-insert :
      (p : Row → Bool) (f : Row → Row) (new : Row) (xs : List Row)
      → any p xs ≡ false
      → upsert_row_first p f new xs ≡ (xs ++ new ∷ [], new)
  unfolding upsert_row_first
  upsert_row_first-insert p f new xs h = rw (h, changed_first-none p f new xs h) refl
