-- ===== src/Ingest/Spine.antt =====
-- The spine only grows: whatever fails on the way, `ingestEvent` keeps every stored row, its keys
-- distinct, and the rows of other tenants.
use mathlib.Core.Path.{subst}
use shiplog_prototype.Prelude.{
  String, false, Option, none, some, List, [], ◌∷◌, ◌++◌, ◌≡◌, inl, inr, refl, sym, ap, ◌∙◌, arith,
  any, any-append, All, All-append, ◌==◌, eq_iff, Bool-cases, Option-cases,
}
use mathlib.Core.List.{append-nil, append_assoc}
use shiplog_prototype.Value.{Value}
use shiplog_prototype.Host.{Host}
use shiplog_prototype.Models.{Event}
use shiplog_prototype.Schema.{NormalizedEvent, parse_event}
use shiplog_prototype.World.{World, Database, final}
use shiplog_prototype.Ingest.{has_key, require_tenant, event_key, event_hash, ingest_event}
use shiplog_prototype.Ingest.Steps.{AtMostOneRow, ingest_parsed-AtMostOneRow}

-- No two rows share an idempotency key.
abbrev pub HasUniqueKeys : List Event → Type 0
HasUniqueKeys [] = Unit
HasUniqueKeys (e ∷ es) = (any (has_key e.idempotency_key) es ≡ false) × HasUniqueKeys es

-- The spine afterwards is the spine before and some rows of the tenant, and keys that were distinct
-- are distinct.
pub record Extends (tenant : Option String) (w w' : World) : Type 0 where
  pub more : List Event
  pub grown : w'.events ≡ w.events ++ more
  pub owned : All (λ e. some e.tenant_id ≡ tenant) more
  pub unique : HasUniqueKeys w.events → HasUniqueKeys w'.events

pub Extends-same :
    (tenant : Option String) (w w' : World) → w'.events ≡ w.events → Extends tenant w w'
Extends-same tenant w w' e = record {
  more = [];
  grown = e ∙ sym (append-nil w.events);
  owned = tt;
  unique = λ u. subst HasUniqueKeys (sym e) u;
}

pub Extends-trans :
    {tenant : Option String} {u v w : World}
    → Extends tenant u v
    → Extends tenant v w
    → Extends tenant u w
Extends-trans {tenant} {u} {v} {w} a b = record {
  more = a.more ++ b.more;
  grown = b.grown ∙ ap (λ l. l ++ b.more) a.grown ∙ append_assoc u.events a.more b.more;
  owned = All-append (λ e. some e.tenant_id ≡ tenant) a.more b.more a.owned b.owned;
  unique = λ h. b.unique (a.unique h);
}

has_key_sym : (k j : String) → (k == j) ≡ (j == k)
has_key_sym k j = ground (arith, eq_iff k j, eq_iff j k)

pub HasUniqueKeys-append :
    (es : List Event) (row : Event)
    → any (has_key row.idempotency_key) es ≡ false
    → HasUniqueKeys es
    → HasUniqueKeys (es ++ row ∷ [])
HasUniqueKeys-append [] row new u = (refl, tt)
HasUniqueKeys-append (e ∷ es) row new (here, u) = (
  any-append (has_key e.idempotency_key) es (row ∷ [])
      ∙ ground (arith, here, has_key_sym e.idempotency_key row.idempotency_key),
  HasUniqueKeys-append es row (ground arith) u,
)

AtMostOneRow-Extends :
    (t : String) (ev : NormalizedEvent) (key hash : String) (w w' : World)
    → AtMostOneRow t ev key hash w w'
    → Extends (some t) w w'
unfolding AtMostOneRow
AtMostOneRow-Extends t ev key hash w w' (inl same) = Extends-same (some t) w w' same
AtMostOneRow-Extends t ev key hash w w' (inr (row, is_key, is_tenant, new, grown, _)) = record {
  more = row ∷ [];
  grown = grown;
  owned = (ap some is_tenant, tt);
  unique = λ u.
      subst HasUniqueKeys (sym grown)
        (HasUniqueKeys-append w.events row (ap (λ k. any (has_key k) w.events) is_key ∙ new) u);
}

module _ (host : Host) (db : Database) where
  -- Whatever the input and whichever calls fail, `ingestEvent` leaves every stored row as it was,
  -- adds rows of the given tenant only, and keeps the idempotency keys distinct.
  pub ingest_event-Extends :
      (tenant : Option String) (input : Value) (w : World)
      → Extends tenant w (final (ingest_event host db tenant input w))
  unfolding ingest_event require_tenant
  ingest_event-Extends none input w = Extends-same none w w refl
  ingest_event-Extends (some t) input w = elim (Bool-cases (t == "")) [
    | inl empty ↦ rw (empty, final) (Extends-same (some t) w w refl)
    | inr given ↦ elim (Option-cases (parse_event host input)) [
      | inl bad ↦ rw (given, bad, final) (Extends-same (some t) w w refl)
      | inr (ev, parsed) ↦ elim (Option-cases (event_hash host ev)) [
        | inl bad ↦ rw (given, parsed, bad, final) (Extends-same (some t) w w refl)
        | inr (hash, hashed) ↦
            rw (given, parsed, hashed)
              (AtMostOneRow-Extends t ev (event_key host t ev) hash w _
                (ingest_parsed-AtMostOneRow db t ev (event_key host t ev) hash w))
      ]
    ]
  ]
