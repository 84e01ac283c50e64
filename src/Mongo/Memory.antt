-- ===== src/Mongo/Memory.antt =====
-- Collections that are kept in memory: the interface of `Mongo` can be met.
use mathlib.Core.Path.{subst}
use mathlib.Core.List.Perm
use shiplog_prototype.Prelude.{
  ℕ, Bool, true, false, ◌||◌, ◌&&◌, Option, none, some, List, [], ◌∷◌, ◌++◌, ◌≡◌, ◌⊎◌, inl, inr,
  any, select, length, not, arith, ltb, nat_eq, if◌then◌else◌, refl, ap, Bool-cases, Option-cases,
}
use shiplog_prototype.Mongo.Updates.{
  update_first, update_first-IsUpdate, update_first-none, upsert_first, upsert_first-IsUpdate,
  upsert_first-insert, changed_first, upsert_row_first, upsert_row_first-IsUpdate,
  upsert_row_first-insert,
}
use shiplog_prototype.Mongo.Sorting.{sort_by, sort_by_lem}
use shiplog_prototype.Mongo.{Upto, IsLatest, IsFound, Collection}

module _ {Row : Type 0} where
  pub first : (Row → Bool) → List Row → Option Row
  first p [] = none
  first p (x ∷ xs) = let rest = first p xs in if p x then some x else rest

  pub first-none : (p : Row → Bool) (xs : List Row) → first p xs ≡ none → any p xs ≡ false
  unfolding first
  first-none p [] h = refl
  first-none p (x ∷ xs) h = ground (arith, first-none p xs)

  IsFound-cons :
      (p : Row → Bool) (x r : Row) (xs : List Row) → IsFound p r xs → IsFound p r (x ∷ xs)
  IsFound-cons p x r xs f = record {
    front = x ∷ f.front;
    back = f.back;
    matched = f.matched;
    place = ap (λ l. x ∷ l) f.place;
  }

  IsFound-here : (p : Row → Bool) (x : Row) (xs : List Row) → p x ≡ true → IsFound p x (x ∷ xs)
  IsFound-here p x xs h = record { front = []; back = xs; matched = h; place = refl }

  pub first-some : (p : Row → Bool) (xs : List Row) (r : Row) → first p xs ≡ some r → IsFound p r xs
  unfolding first
  first-some p [] r h = cc
  first-some p (x ∷ xs) r h = elim (Bool-cases (p x)) [
    | inl hit ↦ subst (λ y. IsFound p y (x ∷ xs)) (ground arith) (IsFound-here p x xs hit)
    | inr miss ↦ IsFound-cons p x r xs (first-some p xs r (ground arith))
  ]

  -- The later one of two documents, the second one where they tie.
  later : (Row → ℕ) → (Row → ℕ) → Row → Row → Row
  later k j x y = if ltb (k y) (k x) || (nat_eq (k y) (k x) && ltb (j y) (j x)) then x else y

  later-cases :
      (k j : Row → ℕ) (x y : Row)
      → ((later k j x y ≡ x) × Upto k j x y) ⊎ ((later k j x y ≡ y) × Upto k j y x)
  unfolding later
  later-cases k j x y = ground arith

  or_later : (Row → ℕ) → (Row → ℕ) → Row → Option Row → Option Row
  or_later k j x none = some x
  or_later k j x (some y) = some (later k j x y)

  pub latest : (Row → ℕ) → (Row → ℕ) → (Row → Bool) → List Row → Option Row
  latest k j p [] = none
  latest k j p (x ∷ xs) = let rest = latest k j p xs in if p x then or_later k j x rest else rest

  pub latest-none :
      (k j : Row → ℕ) (p : Row → Bool) (xs : List Row) → latest k j p xs ≡ none → any p xs ≡ false
  unfolding latest or_later
  latest-none k j p [] h = refl
  latest-none k j p (x ∷ xs) h = ground (arith, latest-none k j p xs)

  IsLatest-mono :
      (k j : Row → ℕ) (p : Row → Bool) (r r' : Row) (xs : List Row)
      → Upto k j r' r
      → IsLatest k j p r xs
      → IsLatest k j p r' xs
  IsLatest-mono k j p r r' [] h l = tt
  IsLatest-mono k j p r r' (x ∷ xs) h (here, l) =
      (λ m. ground (arith, here m), IsLatest-mono k j p r r' xs h l)

  IsLatest-none :
      (k j : Row → ℕ) (p : Row → Bool) (r : Row) (xs : List Row)
      → any p xs ≡ false
      → IsLatest k j p r xs
  IsLatest-none k j p r [] h = tt
  IsLatest-none k j p r (x ∷ xs) h = (λ m. ground arith, IsLatest-none k j p r xs (ground arith))

  pub latest-some :
      (k j : Row → ℕ) (p : Row → Bool) (xs : List Row) (r : Row)
      → latest k j p xs ≡ some r
      → IsFound p r xs × IsLatest k j p r xs
  unfolding latest or_later later
  latest-some k j p [] r h = cc
  latest-some k j p (x ∷ xs) r h = elim (Bool-cases (p x)) [
    | inr miss ↦
        let (found, last) = latest-some k j p xs r (ground arith) in
        (IsFound-cons p x r xs found, (λ m. cc, last))
    | inl hit ↦ elim (Option-cases (latest k j p xs)) [
      | inl alone ↦
          let same : x ≡ r = ground arith in
          subst (λ y. IsFound p y (x ∷ xs) × IsLatest k j p y (x ∷ xs)) same
            (
              IsFound-here p x xs hit,
              (λ m. inr (refl, omega arith), IsLatest-none k j p x xs (latest-none k j p xs alone)),
            )
      | inr (y, e) ↦
          let (found, last) = latest-some k j p xs y e in
          elim (later-cases k j x y) [
            | inl (keeps, over) ↦
                subst (λ z. IsFound p z (x ∷ xs) × IsLatest k j p z (x ∷ xs)) (ground arith)
                  (
                    IsFound-here p x xs hit,
                    (λ m. inr (refl, omega arith), IsLatest-mono k j p y x xs over last),
                  )
            | inr (takes, under) ↦
                subst (λ z. IsFound p z (x ∷ xs) × IsLatest k j p z (x ∷ xs)) (ground arith)
                  (IsFound-cons p x y xs found, (λ m. under, last))
          ]
    ]
  ]

  unfoldable pub memory : Collection Row
  unfolding first latest or_later later upsert_first update_first upsert_row_first changed_first
  memory = record {
    exists = any;
    exists_lem = λ p xs. refl;
    find = select;
    find_lem = λ p xs. Perm.refl (select p xs);
    find_sorted = λ dir k p xs. sort_by dir k (select p xs);
    find_sorted_lem = λ dir k p xs. sort_by_lem dir k (select p xs);
    find_one = first;
    find_one-none = first-none;
    find_one-some = first-some;
    find_latest = latest;
    find_latest-none = latest-none;
    find_latest-some = latest-some;
    count = λ p xs. length (select p xs);
    count_lem = λ p xs. refl;
    delete_many = λ p xs. (select (λ x. not (p x)) xs, length (select p xs));
    delete_many_lem = λ p xs. refl;
    create = λ r xs. xs ++ r ∷ [];
    create_lem = λ r xs. refl;
    update_one = update_first;
    update_one-none = update_first-none;
    update_one-some = update_first-IsUpdate;
    upsert = upsert_first;
    upsert-insert = upsert_first-insert;
    upsert-update = upsert_first-IsUpdate;
    upsert_row = upsert_row_first;
    upsert_row-insert = upsert_row_first-insert;
    upsert_row-update = upsert_row_first-IsUpdate;
  }
