-- ===== src/Mongo.antt =====
-- The interface to MongoDB: what the sources use of a mongoose model, with the documented behaviour
-- of each call as a law. A collection's documents are a list in the order of insertion; a filter is
-- a test on documents.
pub mod Memory
pub mod Sorting
pub mod Updates
use mathlib.Core.Nat
use mathlib.Core.List
use mathlib.Core.List.{Perm}
use shiplog_prototype.Prelude.{
  ℕ, ◌≤◌, ◌<◌, Bool, true, false, Option, none, some, List, [], ◌∷◌, ◌++◌, ◌≡◌, ◌⊎◌, any,
  any-append, or-true_right, select, select-append, length, not, refl, arith, All, Bool-cases, inl,
  inr,
}

-- One document that passes the test has been changed, the others stand as they were.
pub record IsUpdate {Row : Type 0} (p : Row → Bool) (f : Row → Row) (rows rows' : List Row)
    : Type 0 where
  pub front : List Row
  pub row : Row
  pub back : List Row
  pub matched : p row ≡ true
  pub before : rows ≡ front ++ row ∷ back
  pub after : rows' ≡ front ++ f row ∷ back

module _ {Row : Type 0} (k j : Row → ℕ) where
  -- The second document does not come after the first in a descending sort by two keys.
  abbrev pub Upto : Row → Row → Type 0
  Upto r x = (k x < k r) ⊎ ((k x ≡ k r) × (j x ≤ j r))

  -- No document that passes the test comes before `r` in that sort.
  abbrev pub IsLatest : (Row → Bool) → Row → List Row → Type 0
  IsLatest p r = All (λ x. p x ≡ true → Upto r x)

-- The two orders of a sort: `1` and `-1`.
pub data Direction : Type 0 where
  ascending descending : Direction

abbrev pub Before : Direction → ℕ → ℕ → Type 0
Before ascending a b = a ≤ b
Before descending a b = b ≤ a

-- A list that is sorted by a key.
abbrev pub Ordered : {Row : Type 0} → Direction → (Row → ℕ) → List Row → Type 0
Ordered dir k [] = Unit
Ordered dir k (x ∷ xs) = All (λ y. Before dir (k x) (k y)) xs × Ordered dir k xs

-- To change one document changes nothing of a selection that has it neither before nor after.
pub select-IsUpdate :
    {Row : Type 0} (q p : Row → Bool) (f : Row → Row) (rows rows' : List Row)
    → ((x : Row) → p x ≡ true → (q x ≡ false) × (q (f x) ≡ false))
    → IsUpdate p f rows rows'
    → select q rows' ≡ select q rows
select-IsUpdate q p f rows rows' apart u =
    let (out, out') = apart u.row u.matched in
    rw
      (
        u.before,
        u.after,
        select-append q u.front (f u.row ∷ u.back),
        select-append q u.front (u.row ∷ u.back),
        out,
        out',
      )
      refl

-- The document is stored, and passes the test.
pub record IsFound {Row : Type 0} (p : Row → Bool) (r : Row) (rows : List Row) : Type 0 where
  pub front : List Row
  pub back : List Row
  pub matched : p r ≡ true
  pub place : rows ≡ front ++ r ∷ back

pub record Collection (Row : Type 0) : Type 0 where
  -- `exists`.
  pub exists : (Row → Bool) → List Row → Bool
  pub exists_lem : (p : Row → Bool) (rows : List Row) → exists p rows ≡ any p rows
  -- `find`, whose order is not fixed.
  pub find : (Row → Bool) → List Row → List Row
  pub find_lem : (p : Row → Bool) (rows : List Row) → Perm (find p rows) (select p rows)
  -- `find(…).sort({ k: 1 })`, or with `-1`.
  pub find_sorted : Direction → (Row → ℕ) → (Row → Bool) → List Row → List Row
  pub find_sorted_lem :
      (dir : Direction) (k : Row → ℕ) (p : Row → Bool) (rows : List Row)
      → Perm (find_sorted dir k p rows) (select p rows) × Ordered dir k (find_sorted dir k p rows)
  -- `findOne`, of any one document that passes.
  pub find_one : (Row → Bool) → List Row → Option Row
  pub find_one-none :
      (p : Row → Bool) (rows : List Row) → find_one p rows ≡ none → any p rows ≡ false
  pub find_one-some :
      (p : Row → Bool) (rows : List Row) (r : Row) → find_one p rows ≡ some r → IsFound p r rows
  -- `findOne(…).sort({ k: -1, j: -1 })`.
  pub find_latest : (Row → ℕ) → (Row → ℕ) → (Row → Bool) → List Row → Option Row
  pub find_latest-none :
      (k j : Row → ℕ) (p : Row → Bool) (rows : List Row)
      → find_latest k j p rows ≡ none
      → any p rows ≡ false
  pub find_latest-some :
      (k j : Row → ℕ) (p : Row → Bool) (rows : List Row) (r : Row)
      → find_latest k j p rows ≡ some r
      → IsFound p r rows × IsLatest k j p r rows
  -- `countDocuments`.
  pub count : (Row → Bool) → List Row → ℕ
  pub count_lem : (p : Row → Bool) (rows : List Row) → count p rows ≡ length (select p rows)
  -- `deleteMany`: the documents afterwards, and how many were deleted.
  pub delete_many : (Row → Bool) → List Row → List Row × ℕ
  pub delete_many_lem :
      (p : Row → Bool) (rows : List Row)
      → delete_many p rows ≡ (select (λ x. not (p x)) rows, length (select p rows))
  -- `create`.
  pub create : Row → List Row → List Row
  pub create_lem : (r : Row) (rows : List Row) → create r rows ≡ rows ++ r ∷ []
  -- `updateOne`, and `save` of a document that was read.
  pub update_one : (Row → Bool) → (Row → Row) → List Row → List Row
  pub update_one-none :
      (p : Row → Bool) (f : Row → Row) (rows : List Row)
      → any p rows ≡ false
      → update_one p f rows ≡ rows
  pub update_one-some :
      (p : Row → Bool) (f : Row → Row) (rows : List Row)
      → any p rows ≡ true
      → IsUpdate p f rows (update_one p f rows)
  -- `updateOne` and `findOneAndUpdate` with `upsert: true`: the documents afterwards, and whether
  -- one was inserted.
  pub upsert : (Row → Bool) → (Row → Row) → Row → List Row → List Row × Bool
  pub upsert-insert :
      (p : Row → Bool) (f : Row → Row) (new : Row) (rows : List Row)
      → any p rows ≡ false
      → upsert p f new rows ≡ (rows ++ new ∷ [], true)
  pub upsert-update :
      (p : Row → Bool) (f : Row → Row) (new : Row) (rows : List Row)
      → any p rows ≡ true
      → IsUpdate p f rows (upsert p f new rows).0 × ((upsert p f new rows).1 ≡ false)
  -- `findOneAndUpdate` with `upsert: true` and `returnDocument: 'after'`: the documents afterwards,
  -- and the one that was inserted or changed.
  pub upsert_row : (Row → Bool) → (Row → Row) → Row → List Row → List Row × Row
  pub upsert_row-insert :
      (p : Row → Bool) (f : Row → Row) (new : Row) (rows : List Row)
      → any p rows ≡ false
      → upsert_row p f new rows ≡ (rows ++ new ∷ [], new)
  pub upsert_row-update :
      (p : Row → Bool) (f : Row → Row) (new : Row) (rows : List Row)
      → any p rows ≡ true
      → (u : IsUpdate p f rows (upsert_row p f new rows).0) × ((upsert_row p f new rows).1
          ≡ f u.row)

-- A document that was found is there.
pub IsFound-any :
    {Row : Type 0} (p : Row → Bool) (r : Row) (rows : List Row)
    → IsFound p r rows
    → any p rows ≡ true
IsFound-any p r rows f =
    rw (f.place, any-append p f.front (r ∷ f.back), f.matched)
      (or-true_right (any p f.front) (any p f.back))

-- The document that an upsert answers is stored, where the change keeps the filter and a new document
-- passes it.
pub upsert_row-IsFound :
    {Row : Type 0} (c : Collection Row) (p : Row → Bool) (f : Row → Row) (new : Row)
    (rows : List Row)
    → ((x : Row) → p x ≡ true → p (f x) ≡ true)
    → p new ≡ true
    → IsFound p (c.upsert_row p f new rows).1 (c.upsert_row p f new rows).0
upsert_row-IsFound c p f new rows keeps passes = elim (Bool-cases (any p rows)) [
  | inl known ↦
      let (u, e) = c.upsert_row-update p f new rows known in
      rw e (record {
        front = u.front;
        back = u.back;
        matched = keeps u.row u.matched;
        place = u.after;
      })
  | inr absent ↦
      rw (c.upsert_row-insert p f new rows absent)
        (record { front = rows; back = []; matched = passes; place = refl })
]

-- It has what the change brings about and a new document has.
pub upsert_row-holds :
    {Row : Type 0} (P : Row → Type 0) (c : Collection Row) (p : Row → Bool) (f : Row → Row)
    (new : Row) (rows : List Row)
    → ((x : Row) → P (f x))
    → P new
    → P (c.upsert_row p f new rows).1
upsert_row-holds P c p f new rows changed made = elim (Bool-cases (any p rows)) [
  | inl known ↦ let (u, e) = c.upsert_row-update p f new rows known in rw e (changed u.row)
  | inr absent ↦ rw (c.upsert_row-insert p f new rows absent) made
]

-- A document found among new and old ones is the new one, where no old one passes.
last_found :
    {Row : Type 0} (p : Row → Bool) (r y : Row) (xs front back : List Row)
    → p r ≡ true
    → any p xs ≡ false
    → xs ++ y ∷ [] ≡ front ++ r ∷ back
    → r ≡ y
last_found p r y [] [] back m h e = cc
last_found p r y [] (f ∷ []) back m h e = cc
last_found p r y [] (f ∷ (g ∷ front)) back m h e = cc
last_found p r y (x ∷ xs) [] back m h e = ground arith
last_found p r y (x ∷ xs) (f ∷ front) back m h e =
    last_found p r y xs front back m (ground arith) (cc)

pub IsFound-last :
    {Row : Type 0} (p : Row → Bool) (r y : Row) (rows : List Row)
    → IsFound p r (rows ++ y ∷ [])
    → any p rows ≡ false
    → r ≡ y
IsFound-last p r y rows f h = last_found p r y rows f.front f.back f.matched h f.place

-- A test that the change leaves alone finds as before.
pub any-IsUpdate :
    {Row : Type 0} (q p : Row → Bool) (f : Row → Row) (rows rows' : List Row)
    → ((x : Row) → q (f x) ≡ q x)
    → IsUpdate p f rows rows'
    → any q rows' ≡ any q rows
any-IsUpdate q p f rows rows' same u =
    rw
      (
        u.after,
        u.before,
        any-append q u.front (f u.row ∷ u.back),
        any-append q u.front (u.row ∷ u.back),
        same u.row,
      )
      refl

-- A search that fits one document finds it.
pub find_only :
    {Row : Type 0} (set : IsSet Row) (c : Collection Row) (p : Row → Bool) (rows : List Row)
    (r : Row)
    → select p rows ≡ r ∷ []
    → c.find p rows ≡ r ∷ []
find_only set c p rows r one =
    (List.perm-replicate set (Nat.suc Nat.zero) r).0 (rw one at (c.find_lem p rows))
