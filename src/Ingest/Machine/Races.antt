-- ===== src/Ingest/Machine/Races.antt =====
-- Several workers that run `ingestEvent` side by side: at most one run per key adds a row.
use mathlib.Core.Path.{subst}
use mathlib.Core.List.{append_assoc, append-nil}
use shiplog_prototype.Prelude.{
  ℕ, ◌+◌, ◌≤◌, String, false, List, [], ◌∷◌, ◌++◌, ◌≡◌, inl, inr, refl, sym, ap, ◌∙◌, arith, any,
  All, length, select, select-append, select-empty, length-append, ◌==◌, eq_iff, Bool-cases,
  if◌then◌else◌,
}
use shiplog_prototype.Models.{Event}
use shiplog_prototype.World.{World, Database}
use shiplog_prototype.Ingest.{has_key}
use shiplog_prototype.Ingest.Spine.{HasUniqueKeys, HasUniqueKeys-append}
use shiplog_prototype.Ingest.Machine.Calls.{wins, Moves, advance-Moves}
use shiplog_prototype.Ingest.Machine.{
  Task, Phase, checking, advance, Worker, System, Step, move, Reach, here, next,
}

-- The runs on a key that have reported so.
abbrev pub winners : String → List Worker → ℕ
winners key [] = 0
winners key (v ∷ vs) = (if v.task.key == key then wins v.phase else 0) + winners key vs

-- The rows with a key.
abbrev pub rows : String → List Event → ℕ
rows key es = length (select (has_key key) es)

winners-append :
    (key : String) (us vs : List Worker) → winners key (us ++ vs) ≡ winners key us + winners key vs
winners-append key [] vs = omega arith
winners-append key (u ∷ us) vs = omega (arith, winners-append key us vs)

rows-append :
    (key : String) (es es' : List Event) → rows key (es ++ es') ≡ rows key es + rows key es'
rows-append key es es' =
    rw (select-append (has_key key) es es')
      (length-append (select (has_key key) es) (select (has_key key) es'))

-- Distinct keys leave at most one row for each.
rows_at_most_one : (key : String) (es : List Event) → HasUniqueKeys es → rows key es ≤ 1
rows_at_most_one key [] u = omega arith
rows_at_most_one key (e ∷ es) (new, u) = elim (Bool-cases (e.idempotency_key == key)) [
  | inl same ↦
      let none_left =
        subst (λ k. any (has_key k) es ≡ false) ((eq_iff e.idempotency_key key).0 same) new in
      rw (same, select-empty (has_key key) es none_left) (omega arith)
  | inr other ↦ rw other (rows_at_most_one key es u)
]

-- What a worker counts for.
abbrev share : String → Task → Phase → ℕ
share key t p = if t.key == key then wins p else 0

share-Moves :
    (key : String) (t : Task) (p p' : Phase) (w w' : World)
    → Moves t p w (p', w')
    → share key t p' + rows key w.events ≤ share key t p + rows key w'.events
unfolding Moves
share-Moves key t p p' w w' (inl (same, less)) = rw same (elim (Bool-cases (t.key == key)) [
  | inl own ↦ rw own (omega arith)
  | inr other ↦ rw other (omega arith)
])
share-Moves key t p p' w w' (inr (row, is_key, new, grown, more)) =
    rw (grown, rows-append key w.events (row ∷ []))
      (elim (Bool-cases (t.key == key)) [
        | inl own ↦ rw (own, is_key, own) (omega arith)
        | inr other ↦ rw other (omega arith)
      ])

unique-Moves :
    (t : Task) (p p' : Phase) (w w' : World)
    → Moves t p w (p', w')
    → HasUniqueKeys w.events
    → HasUniqueKeys w'.events
unfolding Moves
unique-Moves t p p' w w' (inl (same, _)) u = subst HasUniqueKeys (sym same) u
unique-Moves t p p' w w' (inr (row, is_key, new, grown, _)) u =
    subst HasUniqueKeys (sym grown)
      (HasUniqueKeys-append w.events row (ap (λ k. any (has_key k) w.events) is_key ∙ new) u)

grown-Moves :
    (t : Task) (p p' : Phase) (w w' : World)
    → Moves t p w (p', w')
    → (more : List Event) × (w'.events ≡ w.events ++ more)
unfolding Moves
grown-Moves t p p' w w' (inl (same, _)) = ([], same ∙ sym (append-nil w.events))
grown-Moves t p p' w w' (inr (row, _, _, grown, _)) = (row ∷ [], grown)

-- What holds between a start and a later system.
pub record Raced (key : String) (s s' : System) : Type 0 where
  pub unique : HasUniqueKeys s'.world.events
  pub more : List Event
  pub grown : s'.world.events ≡ s.world.events ++ more
  pub stored : winners key s'.workers + rows key s.world.events ≤ rows key s'.world.events

Step-Raced :
    (db : Database) (key : String) (s s' s'' : System)
    → Raced key s s'
    → Step db s' s''
    → Raced key s s''
Step-Raced db key s s' s'' r (move front k back from to_world to_workers) =
    let p' = (advance db k.task k.phase s'.world).0 in
    let w' = (advance db k.task k.phase s'.world).1 in
    let moved = advance-Moves db k.task k.phase s'.world in
    let (rest, grown) = grown-Moves k.task k.phase p' s'.world w' moved in
    let kept = share-Moves key k.task k.phase p' s'.world w' moved in
    let counted = ap (winners key) from ∙ winners-append key front (k ∷ back) in
    let recounted =
      ap (winners key) to_workers ∙ winners-append key front (record k { phase = p' } ∷ back) in
    let known = r.stored in
    let restored = ap (λ w. rows key w.events) to_world in
    record {
      unique =
          subst (λ w. HasUniqueKeys w.events) (sym to_world)
            (unique-Moves k.task k.phase p' s'.world w' moved r.unique);
      more = r.more ++ rest;
      grown =
          ap (λ w. w.events) to_world
          ∙ grown
          ∙ ap (λ l. l ++ rest) r.grown
          ∙ append_assoc s.world.events r.more rest;
      stored = omega (arith, kept, counted, recounted, known, restored);
    }

checking-winners :
    (key : String) (vs : List Worker) → All (λ v. v.phase ≡ checking) vs → winners key vs ≡ 0
checking-winners key [] _ = refl
checking-winners key (v ∷ vs) (start, starts) = elim (Bool-cases (v.task.key == key)) [
  | inl own ↦ rw (own, start) (omega (arith, checking-winners key vs starts))
  | inr other ↦ rw other (omega (arith, checking-winners key vs starts))
]

module _ (db : Database) (key : String) (s : System) where
  reached_lem :
      (s' : System)
      → HasUniqueKeys s.world.events
      → All (λ v. v.phase ≡ checking) s.workers
      → Reach db s s'
      → Raced key s s'
  reached_lem s' unique starts here = record {
    unique = unique;
    more = [];
    grown = sym (append-nil s.world.events);
    stored = omega (arith, checking-winners key s.workers starts);
  }
  reached_lem s' unique starts (next {s' = s1} r step) =
      Step-Raced db key s s1 s' (reached_lem s1 unique starts r) step

  -- However the calls of any number of workers interleave, and whichever of them fail: from a spine
  -- with distinct keys, with all runs at their start, the spine keeps all its rows and its keys stay
  -- distinct, and for every key at most one run reports that it stored a version; none does if the
  -- key was stored at the start, and one that does has its row in the spine.
  pub Reach-Raced :
      (s' : System)
      → HasUniqueKeys s.world.events
      → All (λ v. v.phase ≡ checking) s.workers
      → Reach db s s'
      → Raced key s s' × (winners key s'.workers + rows key s.world.events ≤ 1)
  Reach-Raced s' unique starts r =
      let raced = reached_lem s' unique starts r in
      let stored = raced.stored in
      (raced, omega (arith, stored, rows_at_most_one key s'.world.events raced.unique))
